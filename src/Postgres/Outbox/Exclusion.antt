-- ===== src/Postgres/Outbox/Exclusion.antt =====
-- `FetchPending` hands an event to one relay at a time.
use distributed_wallet_ledge.Prelude.{
  ℕ, zero, suc, ◌+◌, ◌≤◌, ◌≡◌, refl, sym, ap, subst, ◌∙◌, Bool, true, false, not, ◌&&◌, ltb,
  ◌=text◌, List, [], ◌∷◌, take, All, arith, Bool-cases, inl, inr,
}
use distributed_wallet_ledge.Errors.{ok, >>=-eq-ok, wrap_error-eq-ok, ok-injective}
use distributed_wallet_ledge.Domain.Ids.{new_id}
use distributed_wallet_ledge.Domain.Hold.{Time}
use distributed_wallet_ledge.Domain.OutboxEvent.{OutboxEvent, reconstitute_outbox_event}
use distributed_wallet_ledge.Postgres.Tables.{Uuid, EventRow, Store}
use distributed_wallet_ledge.Postgres.Queries.{exists}
use distributed_wallet_ledge.Postgres.Outbox.{
  is_waiting, minute, update_rows, requeue_stale, insert_event, waiting_rows, claim_rows, map_event,
  map_events, fetch_pending,
}
use distributed_wallet_ledge.Postgres.Outbox.Claims.{
  ClaimedAs, claim, claim_rows-claims, requeue_stale-ClaimedAs, waiting_rows-unclaimed, exists-take,
}

-- Identifiers that `NewEventID` leaves as they are, as it does the text of a UUID.
abbrev pub AreClean : List EventRow → Type 0
AreClean = All (λ r. new_id r.id ≡ ok r.id)

update_rows-AreClean :
    (test : EventRow → Bool) (change : EventRow → EventRow) (rows : List EventRow)
    → ((r : EventRow) → (change r).id ≡ r.id)
    → AreClean rows
    → AreClean (update_rows test change rows)
update_rows-AreClean test change [] same h = tt
update_rows-AreClean test change (r ∷ rows) same (first, rest) = elim (Bool-cases (test r)) [
  | inl hit ↦ rw hit (
    subst (λ u. new_id u ≡ ok u) (sym (same r)) first,
    update_rows-AreClean test change rows same rest,
  )
  | inr miss ↦ rw miss (first, update_rows-AreClean test change rows same rest)
]

requeue_stale-AreClean :
    (now : Time) (rows : List EventRow) → AreClean rows → AreClean (requeue_stale now rows)
unfolding requeue_stale
requeue_stale-AreClean now rows h = update_rows-AreClean _ _ rows (λ r. refl) h

claim_rows-AreClean :
    (now : Time) (fetched rows : List EventRow)
    → AreClean rows
    → AreClean (claim_rows now fetched rows)
unfolding claim_rows
claim_rows-AreClean now [] rows h = h
claim_rows-AreClean now (r ∷ fetched) rows h =
    claim_rows-AreClean now fetched _
      (update_rows-AreClean (λ q. q.id =text r.id) (claim now) rows (λ q. refl) h)

insert_event-AreClean :
    (r : EventRow) (qs : List EventRow)
    → new_id r.id ≡ ok r.id
    → AreClean qs
    → AreClean (insert_event r qs)
unfolding insert_event
insert_event-AreClean r [] first rest = (first, tt)
insert_event-AreClean r (q ∷ qs) first (second, rest) =
    elim (Bool-cases (ltb q.created_at r.created_at)) [
      | inl after ↦ rw after (second, insert_event-AreClean r qs first rest)
      | inr here ↦ rw here (first, (second, rest))
    ]

waiting_rows-AreClean :
    (taken : EventRow → Bool) (max_retries : ℕ) (rows : List EventRow)
    → AreClean rows
    → AreClean (waiting_rows taken max_retries rows)
unfolding waiting_rows
waiting_rows-AreClean taken max_retries [] h = tt
waiting_rows-AreClean taken max_retries (r ∷ rows) (first, rest) =
    let others = waiting_rows-AreClean taken max_retries rows rest in
    elim (Bool-cases (is_waiting r.status && ltb r.retry_count max_retries && not (taken r))) [
      | inl chosen ↦
          rw chosen (insert_event-AreClean r (waiting_rows taken max_retries rows) first others)
      | inr left ↦ rw left others
    ]

take-AreClean : (n : ℕ) (rows : List EventRow) → AreClean rows → AreClean (take n rows)
take-AreClean zero rows h = tt
take-AreClean (suc n) [] h = tt
take-AreClean (suc n) (r ∷ rows) (first, rest) = (first, take-AreClean n rows rest)

reconstitute-same : (e e' : OutboxEvent) → reconstitute_outbox_event e ≡ ok e' → e ≡ e'
unfolding reconstitute_outbox_event
reconstitute-same e e' h = ground arith

map_event-id :
    (r : EventRow) (e : OutboxEvent) → new_id r.id ≡ ok r.id → map_event r ≡ ok e → e.id ≡ r.id
unfolding map_event
map_event-id r e clean h =
    let (id, named, h₁) = >>=-eq-ok (new_id r.id) _ h in
    let same = reconstitute-same _ e (wrap_error-eq-ok (reconstitute_outbox_event _) e h₁) in
    ap (λ (x : OutboxEvent). x.id) (sym same) ∙ ok-injective (sym named ∙ clean)

-- The identifiers of the events are those of the rows.
exists-map_events :
    (u : Uuid) (rows : List EventRow) (es : List OutboxEvent)
    → AreClean rows
    → map_events rows ≡ ok es
    → exists (λ e. e.id =text u) es ≡ exists (λ r. r.id =text u) rows
unfolding map_events
exists-map_events u [] es clean h = ap (exists (λ e. e.id =text u)) (sym (ok-injective h))
exists-map_events u (r ∷ rows) es (first, rest) h =
    let (e, mapped, h₁) = >>=-eq-ok (map_event r) _ h in
    let (others, mapped', h₂) = >>=-eq-ok (map_events rows) _ h₁ in
    ap (exists (λ x. x.id =text u)) (sym (ok-injective h₂))
    ∙ rw (map_event-id r e first mapped, exists-map_events u rows others rest mapped') refl

-- An event that `FetchPending` has handed out is not handed out again by a `FetchPending` within a
-- minute, whatever rows others have locked and whatever the limits, if nothing else has written to
-- the events in between and their identifiers are clean.
pub fetch_pending-exclusive :
    (now later : Time) (taken taken' : EventRow → Bool) (max_retries max_retries' limit limit' : ℕ)
    (s s₁ s₂ : Store) (es es' : List OutboxEvent) (u : Uuid)
    → later ≤ now + minute
    → AreClean s.outbox_events
    → fetch_pending now taken max_retries limit s ≡ (s₁, ok es)
    → fetch_pending later taken' max_retries' limit' s₁ ≡ (s₂, ok es')
    → exists (λ e. e.id =text u) es ≡ true
    → exists (λ e. e.id =text u) es' ≡ false
unfolding fetch_pending
fetch_pending-exclusive now later taken taken' m m' n n' s s₁ s₂ es es' u early clean h h' has =
    let rows = requeue_stale now s.outbox_events in
    let rows-clean : AreClean rows = requeue_stale-AreClean now s.outbox_events clean in
    let fetched = take n (waiting_rows taken m rows) in
    let same : claim_rows now fetched rows ≡ s₁.outbox_events = ap (λ o. o.0.outbox_events) h in
    let again = take n' (waiting_rows taken' m' (requeue_stale later s₁.outbox_events)) in
    let named =
      sym (
        exists-map_events u fetched es
          (take-AreClean n _ (waiting_rows-AreClean taken m rows rows-clean)) (ap (λ o. o.1) h))
      ∙ has in
    let claimed = subst (ClaimedAs now u) same (claim_rows-claims now u fetched rows named) in
    let clean' = subst AreClean same (claim_rows-AreClean now fetched rows rows-clean) in
    let left =
      waiting_rows-unclaimed now u taken' m' (requeue_stale later s₁.outbox_events)
        (requeue_stale-ClaimedAs now later u s₁.outbox_events early claimed) in
    exists-map_events u again es'
      (take-AreClean n' _
        (waiting_rows-AreClean taken' m' _ (requeue_stale-AreClean later s₁.outbox_events clean')))
      (ap (λ o. o.1) h')
    ∙ exists-take (λ r. r.id =text u) n' _ left
