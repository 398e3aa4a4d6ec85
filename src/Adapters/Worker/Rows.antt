-- ===== src/Adapters/Worker/Rows.antt =====
-- The row of a hold under an update, and the hold that it maps to.
use distributed_wallet_ledge.Prelude.{
  ℕ, suc, ◌≤◌, ◌≡◌, refl, sym, ap, subst, true, false, ◌&&◌, ◌=text◌, ◌⊎◌, inl, inr, List, [], ◌∷◌,
  some, arith, Bool-cases,
}
use distributed_wallet_ledge.Errors.{ok, >>=-eq-ok, checked-eq-ok}
use distributed_wallet_ledge.Domain.Ids.{is_zero, new_id}
use distributed_wallet_ledge.Domain.Currency.{new_currency}
use distributed_wallet_ledge.Domain.Money.{new_money}
use distributed_wallet_ledge.Domain.Hold
use distributed_wallet_ledge.Domain.Hold.{
  Hold, HoldStatus, Time, expired, is_authorized, validate_status, reconstitute_hold,
}
use distributed_wallet_ledge.Postgres.Tables.{Uuid, HoldRow}
use distributed_wallet_ledge.Postgres.Queries.{find, set_authorized}
use distributed_wallet_ledge.Postgres.Holds.{map_wallet_hold}
use distributed_wallet_ledge.Application.Holds.{moved}

pub map_wallet_hold-facts :
    (r : HoldRow) (h : Hold)
    → map_wallet_hold r ≡ ok h
    → (Hold.validate h ≡ ok tt) × (h.status ≡ r.status) × (h.expires_at ≡ r.expires_at)
unfolding map_wallet_hold reconstitute_hold
map_wallet_hold-facts r h e =
    let (id, _, e₁) = >>=-eq-ok (new_id r.id) _ e in
    let (owner, _, e₂) = >>=-eq-ok (new_id r.wallet_id) _ e₁ in
    let (currency, _, e₃) = >>=-eq-ok (new_currency r.currency) _ e₂ in
    let (amount, _, e₄) = >>=-eq-ok (new_money currency _) _ e₃ in
    let (valid, same) = checked-eq-ok _ _ h e₄ in
    (
      subst (λ x. Hold.validate x ≡ ok tt) same valid,
      ap (λ (x : Hold). x.status) (sym same),
      ap (λ (x : Hold). x.expires_at) (sym same),
    )

-- The row of a hold after an update of any hold: as it was, or with the new status.
pub find-after :
    (u v : Uuid) (status : HoldStatus) (hs : List HoldRow) (r : HoldRow)
    → find (λ h. h.id =text u) hs ≡ some r
    → (r' : HoldRow) × (find (λ h. h.id =text u) (set_authorized v status hs).0 ≡ some r')
      × ((r' ≡ r) ⊎ (r'.status ≡ status))
unfolding set_authorized
find-after u v status [] r h = cc
find-after u v status (g ∷ hs) r h = elim (Bool-cases (g.id =text v && is_authorized g.status)) [
  | inl hit ↦ elim (Bool-cases (g.id =text u)) [
    | inl own ↦ (record g { status = status }, rw (hit, own) refl, inr refl)
    | inr other ↦
        let (r', found, kept) = find-after u v status hs r (rw other at h) in
        (r', rw (hit, other) found, kept)
  ]
  | inr miss ↦ elim (Bool-cases (g.id =text u)) [
    | inl own ↦ let same : some g ≡ some r = rw own at h in (g, rw (miss, own) refl, inl cc)
    | inr other ↦
        let (r', found, kept) = find-after u v status hs r (rw other at h) in
        (r', rw (miss, other) found, kept)
  ]
]

pub set_authorized-counts :
    (u : Uuid) (status : HoldStatus) (hs : List HoldRow) (r : HoldRow)
    → find (λ h. h.id =text u) hs ≡ some r
    → is_authorized r.status ≡ true
    → (n : ℕ) × ((set_authorized u status hs).1 ≡ suc n)
unfolding set_authorized
set_authorized-counts u status [] r h active = cc
set_authorized-counts u status (g ∷ hs) r h active = elim (Bool-cases (g.id =text u)) [
  | inl own ↦
      let same : some g ≡ some r = rw own at h in
      let status-same : is_authorized g.status ≡ true = cc in
      ((set_authorized u status hs).1, rw (own, status-same) refl)
  | inr other ↦
      let (n, counts) = set_authorized-counts u status hs r (rw other at h) active in
      (n, rw other counts)
]

pub validate-id : (h : Hold) → Hold.validate h ≡ ok tt → is_zero h.id ≡ false
unfolding Hold.validate
validate-id h v = ground arith

pub expire-eq :
    (h : Hold) (t : Time)
    → Hold.validate h ≡ ok tt
    → is_authorized h.status ≡ true
    → h.expires_at ≤ t
    → moved (Hold.expire h t) ≡ ok (record h { status = expired })
unfolding Hold.expire
expire-eq h t valid active late = rw (valid, active) (ground arith)
