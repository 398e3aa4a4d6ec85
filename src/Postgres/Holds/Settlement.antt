-- ===== src/Postgres/Holds/Settlement.antt =====
-- The rows that an update of a hold's status changes.
use distributed_wallet_ledge.Prelude.{
  ℕ, zero, suc, ◌≡◌, refl, Bool, true, ◌=text◌, List, [], ◌∷◌, some, arith, Bool-cases, inl, inr,
}
use distributed_wallet_ledge.Errors.{ok, err, hold_not_authorized}
use distributed_wallet_ledge.Domain.Hold.{HoldStatus, is_authorized}
use distributed_wallet_ledge.Postgres.Tables.{Uuid, HoldRow, Store}
use distributed_wallet_ledge.Postgres.Queries.{find, set_authorized}
use distributed_wallet_ledge.Postgres.Holds.{some_row}

pub find-passes {ℓ} :
    {A : Type ℓ} (test : A → Bool) (rs : List A) (r : A) → find test rs ≡ some r → test r ≡ true
find-passes test [] r h = cc
find-passes test (q ∷ rs) r h = elim (Bool-cases (test q)) [
  | inl hit ↦ ground arith
  | inr miss ↦ find-passes test rs r (rw miss at h)
]

-- The row that a read finds is the row that the update changes.
pub find-set_authorized :
    (u : Uuid) (status : HoldStatus) (hs : List HoldRow) (h : HoldRow)
    → find (λ r. r.id =text u) hs ≡ some h
    → is_authorized h.status ≡ true
    → find (λ r. r.id =text u) (set_authorized u status hs).0 ≡ some (record h { status = status })
unfolding set_authorized
find-set_authorized u status [] h found active = cc
find-set_authorized u status (g ∷ hs) h found active = elim (Bool-cases (g.id =text u)) [
  | inl hit ↦ ground arith
  | inr miss ↦ ground (arith, find-set_authorized u status hs h (rw miss at found) active)
]

pub some_row-eq : (p : Store × ℕ) (s : Store) → some_row p ≡ ok s → p.0 ≡ s
some_row-eq (r, zero) s h = cc
some_row-eq (r, suc n) s h = cc

pub some_row-zero : (p : Store × ℕ) → p.1 ≡ 0 → some_row p ≡ err hold_not_authorized
some_row-zero (r, zero) h = refl
some_row-zero (r, suc n) h = cc
