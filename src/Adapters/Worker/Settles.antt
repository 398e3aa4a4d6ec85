-- ===== src/Adapters/Worker/Settles.antt =====
-- The worker settles the holds that it lists.
use distributed_wallet_ledge.Prelude.{
  ◌≤◌, ◌≡◌, refl, sym, ap, subst, ◌∙◌, pos_part, true, false, ◌=text◌, =text_eq, ◌⊎◌, inl, inr,
  List, [], ◌∷◌, Option, some, Text, Bool-cases,
}
use distributed_wallet_ledge.Errors.{ok, >>=-eq-ok}
use distributed_wallet_ledge.Domain.Ids.{HoldId}
use distributed_wallet_ledge.Domain.Hold.{Hold, HoldStatus, Time, expired, is_authorized}
use distributed_wallet_ledge.Postgres.Tables.{Uuid, HoldRow, Store}
use distributed_wallet_ledge.Postgres.Queries.{
  find, exists, get_wallet_hold_by_id, update_wallet_hold_status,
}
use distributed_wallet_ledge.Postgres.Transactions.{to_uuid}
use distributed_wallet_ledge.Postgres.Holds.{
  get_by_id, update_status, list_expired_holds, map_wallet_hold, some_row,
}
use distributed_wallet_ledge.Postgres.Holds.Settlement.{find-set_authorized, some_row-eq}
use distributed_wallet_ledge.Application.Holds.{expire_hold}
use distributed_wallet_ledge.Adapters.Worker.Rows.{
  map_wallet_hold-facts, find-after, set_authorized-counts, validate-id, expire-eq,
}
use distributed_wallet_ledge.Adapters.Worker.{
  HoldExpirationConfig, expire_all, process_expired_holds,
}
use distributed_wallet_ledge.Adapters.Worker.Expiries.{expires, lists, Expired, expires-Expired}

-- The row of a hold is there, and is not authorized any more.
abbrev pub IsSettled : Uuid → Store → Type 0
IsSettled u s =
    (r : HoldRow) × (get_wallet_hold_by_id u s ≡ some r) × (is_authorized r.status ≡ false)

-- It is as it was, or settled.
abbrev Follows : Uuid → HoldRow → Store → Type 0
Follows u r s =
    (r' : HoldRow) × (get_wallet_hold_by_id u s ≡ some r')
    × ((r' ≡ r) ⊎ (is_authorized r'.status ≡ false))

expired-settled : (st : HoldStatus) → st ≡ expired → is_authorized st ≡ false
expired-settled st e = rw e refl

module _ (scan : Text → Option Uuid) (now : Time) (at : HoldId → Time) (u : Uuid) where
  update_status-row :
      (r : HoldRow) (id : HoldId) (s s' : Store)
      → get_wallet_hold_by_id u s ≡ some r
      → update_status scan id expired s ≡ ok s'
      → (r' : HoldRow) × (get_wallet_hold_by_id u s' ≡ some r') × ((r' ≡ r) ⊎ (r'.status ≡ expired))
  unfolding get_wallet_hold_by_id update_status update_wallet_hold_status
  update_status-row r id s s' found h =
      let (v, _, h₂) =
        >>=-eq-ok (to_uuid scan id) (λ x. some_row (update_wallet_hold_status x expired s)) h in
      let changed = some_row-eq (update_wallet_hold_status v expired s) s' h₂ in
      subst
        (λ (x : Store).
          (r' : HoldRow) × (find (λ q. q.id =text u) x.wallet_holds ≡ some r')
          × ((r' ≡ r) ⊎ (r'.status ≡ expired)))
        changed (find-after u v expired s.wallet_holds r found)

  Follows-Expired :
      (r : HoldRow) (s s' : Store) → Expired scan now at s s' → Follows u r s → Follows u r s'
  Follows-Expired r s s' step (q, found, kept) = elim step [
    | inl same ↦ subst (Follows u r) (sym same) (q, found, kept)
    | inr (id, h) ↦
        let (q', found', change) = update_status-row q id s s' found h in
        elim change [
          | inl still ↦
              (q', found', subst (λ x. (x ≡ r) ⊎ (is_authorized x.status ≡ false)) (sym still) kept)
          | inr gone ↦ (q', found', inr (expired-settled q'.status gone))
        ]
  ]

  Settled-Expired : (s s' : Store) → Expired scan now at s s' → IsSettled u s → IsSettled u s'
  Settled-Expired s s' step (q, found, settled) = elim step [
    | inl same ↦ subst (IsSettled u) (sym same) (q, found, settled)
    | inr (id, h) ↦
        let (q', found', change) = update_status-row q id s s' found h in
        elim change [
          | inl still ↦
              (q', found', subst (λ x. is_authorized x.status ≡ false) (sym still) settled)
          | inr gone ↦ (q', found', expired-settled q'.status gone)
        ]
  ]

  reads-own :
      (r : HoldRow) (h : Hold) (s : Store)
      → get_wallet_hold_by_id u s ≡ some r
      → map_wallet_hold r ≡ ok h
      → scan h.id ≡ some u
      → get_by_id scan h.id s ≡ ok h
  unfolding get_by_id to_uuid
  reads-own r h s found maps canonical = rw (canonical, found, maps) refl

  writes-own :
      (r : HoldRow) (id : HoldId) (s : Store)
      → get_wallet_hold_by_id u s ≡ some r
      → is_authorized r.status ≡ true
      → scan id ≡ some u
      → update_status scan id expired s ≡ ok (update_wallet_hold_status u expired s).0
  unfolding get_wallet_hold_by_id update_status update_wallet_hold_status to_uuid
  writes-own r id s found active canonical =
      let (n, counts) = set_authorized-counts u expired s.wallet_holds r found active in
      rw (canonical, counts) refl

  settles-own :
      (r : HoldRow) (s : Store)
      → get_wallet_hold_by_id u s ≡ some r
      → is_authorized r.status ≡ true
      → IsSettled u (update_wallet_hold_status u expired s).0
  unfolding get_wallet_hold_by_id update_wallet_hold_status
  settles-own r s found active = (
    record r { status = expired },
    find-set_authorized u expired s.wallet_holds r found active,
    refl,
  )

  -- The call for the hold itself, when its row is as it was listed.
  expires-own :
      (r : HoldRow) (h : Hold) (s : Store)
      → get_wallet_hold_by_id u s ≡ some r
      → map_wallet_hold r ≡ ok h
      → scan h.id ≡ some u
      → r.expires_at ≤ at h.id
      → IsSettled u (expires scan now at h.id s).0
  unfolding expire_hold
  expires-own r h s found maps canonical late = elim (Bool-cases (is_authorized r.status)) [
    | inl active ↦
        let (valid, status, expiry) = map_wallet_hold-facts r h maps in
        let given = validate-id h valid in
        let moves =
          expire-eq h (at h.id) valid (ap is_authorized status ∙ active)
            (subst (λ t. t ≤ at h.id) (sym expiry) late) in
        rw
          (
            given,
            reads-own r h s found maps canonical,
            moves,
            writes-own r h.id s found active canonical,
          )
          (settles-own r s found active)
    | inr settled ↦ Settled-Expired s _ (expires-Expired scan now at h.id s) (r, found, settled)
  ]

  expire_all-IsSettled :
      (ids : List HoldId) (s : Store)
      → IsSettled u s
      → IsSettled u (expire_all (lists scan now at) (expires scan now at) ids s)
  unfolding expire_all
  expire_all-IsSettled [] s h = h
  expire_all-IsSettled (id ∷ ids) s h =
      expire_all-IsSettled ids _ (Settled-Expired s _ (expires-Expired scan now at id s) h)

  expire_all-settles :
      (r : HoldRow) (h : Hold) (ids : List HoldId) (s : Store)
      → map_wallet_hold r ≡ ok h
      → scan h.id ≡ some u
      → r.expires_at ≤ at h.id
      → Follows u r s
      → exists (λ id. id =text h.id) ids ≡ true
      → IsSettled u (expire_all (lists scan now at) (expires scan now at) ids s)
  unfolding expire_all
  expire_all-settles r h [] s maps canonical late follows listed = cc
  expire_all-settles r h (id ∷ ids) s maps canonical late (q, found, kept) listed =
      let s₁ = (expires scan now at id s).0 in
      elim (Bool-cases (id =text h.id)) [
        | inl own ↦ expire_all-IsSettled ids s₁ (
            subst (λ v. IsSettled u (expires scan now at v s).0) (sym (=text_eq id h.id own))
              (elim kept [
                | inl same ↦ expires-own r h s (found ∙ ap some same) maps canonical late
                | inr gone ↦
                    Settled-Expired s _ (expires-Expired scan now at h.id s) (q, found, gone)
              ]))
        | inr other ↦
            expire_all-settles r h ids s₁ maps canonical late
              (Follows-Expired r s s₁ (expires-Expired scan now at id s) (q, found, kept))
              (rw other at listed)
      ]

-- A hold that the worker has listed is not authorized any more when the worker is through, whatever
-- became of the others, if its row can be mapped, its identifier is that of the row in canonical
-- form, and the clock of the call has reached its expiry.
pub process_expired_holds-settles :
    (scan : Text → Option Uuid) (now : Time) (at : HoldId → Time) (cfg : HoldExpirationConfig)
    (ids : List HoldId) (u : Uuid) (r : HoldRow) (h : Hold) (s : Store)
    → list_expired_holds now (pos_part cfg.batch_size) s ≡ ok ids
    → exists (λ id. id =text h.id) ids ≡ true
    → get_wallet_hold_by_id u s ≡ some r
    → map_wallet_hold r ≡ ok h
    → scan h.id ≡ some u
    → r.expires_at ≤ at h.id
    → IsSettled u (process_expired_holds (lists scan now at) (expires scan now at) cfg s).0
unfolding process_expired_holds
process_expired_holds-settles scan now at cfg ids u r h s listing listed found maps canonical late =
    rw listing
      (expire_all-settles scan now at u r h ids s maps canonical late (r, found, inl refl) listed)
