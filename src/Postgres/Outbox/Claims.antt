-- ===== src/Postgres/Outbox/Claims.antt =====
-- Two relays do not fetch the same event.
use distributed_wallet_ledge.Prelude.{
  ℕ, zero, suc, ◌+◌, ◌≤◌, ◌≡◌, refl, subst, ◌∙◌, Bool, true, false, not, ◌&&◌, ◌||◌, ltb, ◌=text◌,
  =text_eq, List, [], ◌∷◌, take, All, arith, Bool-cases, inl, inr,
}
use distributed_wallet_ledge.Domain.Hold.{Time}
use distributed_wallet_ledge.Domain.OutboxEvent.{
  EventStatus, pending, processing, published, failed,
}
use distributed_wallet_ledge.Postgres.Tables.{Uuid, EventRow}
use distributed_wallet_ledge.Postgres.Queries.{exists}
use distributed_wallet_ledge.Postgres.Outbox.{
  is_processing, is_waiting, minute, update_rows, requeue_stale, insert_event, waiting_rows,
  claim_rows,
}

abbrev pub IsClaimed : Time → EventRow → Type 0
IsClaimed now r = (is_processing r.status ≡ true) × (r.updated_at ≡ now)

-- Every row with the identifier was claimed at the instant.
abbrev pub ClaimedAs : Time → Uuid → List EventRow → Type 0
ClaimedAs now u = All (λ r. (r.id =text u) ≡ true → IsClaimed now r)

abbrev pub claim : Time → EventRow → EventRow
claim now q = record q { status = processing; updated_at = now }

update_rows-claims :
    (now : Time) (u : Uuid) (rows : List EventRow)
    → ClaimedAs now u (update_rows (λ q. q.id =text u) (claim now) rows)
update_rows-claims now u [] = tt
update_rows-claims now u (q ∷ rows) = elim (Bool-cases (q.id =text u)) [
  | inl hit ↦ rw hit ((λ _. (refl, refl)), update_rows-claims now u rows)
  | inr miss ↦ rw miss ((λ e. absurd (ground (arith, e, miss))), update_rows-claims now u rows)
]

update_rows-ClaimedAs :
    (now : Time) (u v : Uuid) (rows : List EventRow)
    → ClaimedAs now u rows
    → ClaimedAs now u (update_rows (λ q. q.id =text v) (claim now) rows)
update_rows-ClaimedAs now u v [] h = tt
update_rows-ClaimedAs now u v (q ∷ rows) (first, rest) = elim (Bool-cases (q.id =text v)) [
  | inl hit ↦ rw hit ((λ _. (refl, refl)), update_rows-ClaimedAs now u v rows rest)
  | inr miss ↦ rw miss (first, update_rows-ClaimedAs now u v rows rest)
]

claim_rows-ClaimedAs :
    (now : Time) (u : Uuid) (fetched rows : List EventRow)
    → ClaimedAs now u rows
    → ClaimedAs now u (claim_rows now fetched rows)
unfolding claim_rows
claim_rows-ClaimedAs now u [] rows h = h
claim_rows-ClaimedAs now u (r ∷ fetched) rows h =
    claim_rows-ClaimedAs now u fetched _ (update_rows-ClaimedAs now u r.id rows h)

pub claim_rows-claims :
    (now : Time) (u : Uuid) (fetched rows : List EventRow)
    → exists (λ r. r.id =text u) fetched ≡ true
    → ClaimedAs now u (claim_rows now fetched rows)
unfolding claim_rows
claim_rows-claims now u [] rows h = cc
claim_rows-claims now u (r ∷ fetched) rows h = elim (Bool-cases (r.id =text u)) [
  | inl hit ↦ claim_rows-ClaimedAs now u fetched _ (
      subst (λ v. ClaimedAs now v (update_rows (λ q. q.id =text r.id) (claim now) rows))
        (=text_eq r.id u hit) (update_rows-claims now r.id rows))
  | inr miss ↦ claim_rows-claims now u fetched _ (rw miss at h)
]

-- A claim is not stale for a minute.
pub requeue_stale-ClaimedAs :
    (now later : Time) (u : Uuid) (rows : List EventRow)
    → later ≤ now + minute
    → ClaimedAs now u rows
    → ClaimedAs now u (requeue_stale later rows)
unfolding requeue_stale
requeue_stale-ClaimedAs now later u [] early h = tt
requeue_stale-ClaimedAs now later u (r ∷ rows) early (first, rest) =
    let others = requeue_stale-ClaimedAs now later u rows early rest in
    elim (Bool-cases (r.id =text u)) [
      | inl hit ↦
          let (busy, at) = first hit in
          let fresh : (is_processing r.status && ltb (r.updated_at + minute) later) ≡ false =
            ground (arith, busy, at) in
          rw fresh (first, others)
      | inr miss ↦ elim (Bool-cases (is_processing r.status && ltb (r.updated_at + minute) later)) [
        | inl stale ↦ rw stale ((λ e. absurd (ground (arith, e, miss))), others)
        | inr fresh ↦ rw fresh (first, others)
      ]
    ]

exists-insert_event :
    (test : EventRow → Bool) (r : EventRow) (qs : List EventRow)
    → exists test (insert_event r qs) ≡ (test r || exists test qs)
unfolding insert_event
exists-insert_event test r [] = refl
exists-insert_event test r (q ∷ qs) = ground (arith, exists-insert_event test r qs)

processing-busy : (st : EventStatus) → is_processing st ≡ true → is_waiting st ≡ false
processing-busy processing h = refl
processing-busy pending h = cc
processing-busy published h = cc
processing-busy failed h = cc
processing-busy (EventStatus.other t) h = cc

pub waiting_rows-unclaimed :
    (now : Time) (u : Uuid) (taken : EventRow → Bool) (max_retries : ℕ) (rows : List EventRow)
    → ClaimedAs now u rows
    → exists (λ r. r.id =text u) (waiting_rows taken max_retries rows) ≡ false
unfolding waiting_rows
waiting_rows-unclaimed now u taken max_retries [] h = refl
waiting_rows-unclaimed now u taken max_retries (r ∷ rows) (first, rest) =
    let others = waiting_rows-unclaimed now u taken max_retries rows rest in
    elim (Bool-cases (r.id =text u)) [
      | inl hit ↦ rw (processing-busy r.status (first hit).0) others
      | inr miss ↦
          let kept =
            exists-insert_event (λ q. q.id =text u) r (waiting_rows taken max_retries rows)
            ∙ rw miss others in
          elim (Bool-cases
            (is_waiting r.status && ltb r.retry_count max_retries && not (taken r))) [
              | inl chosen ↦ rw chosen kept
              | inr left ↦ rw left others
            ]
    ]

pub exists-take :
    (test : EventRow → Bool) (n : ℕ) (rows : List EventRow)
    → exists test rows ≡ false
    → exists test (take n rows) ≡ false
exists-take test zero rows h = refl
exists-take test (suc n) [] h = refl
exists-take test (suc n) (r ∷ rows) h = ground (arith, exists-take test n rows)
