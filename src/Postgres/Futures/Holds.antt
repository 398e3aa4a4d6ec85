-- ===== src/Postgres/Futures/Holds.antt =====
-- What the writes to `wallet_holds` leave of a settled hold.
use distributed_wallet_ledge.Prelude.{
  ℕ, suc, ◌≡◌, refl, ap, Bool, true, false, ◌&&◌, ◌||◌, Text, ◌=text◌, =text_eq, List, [], ◌∷◌,
  some, arith, Bool-cases, inl, inr,
}
use distributed_wallet_ledge.Domain.Hold.{HoldStatus, is_authorized}
use distributed_wallet_ledge.Postgres.Tables.{Uuid, HoldRow}
use distributed_wallet_ledge.Postgres.Queries.{find, exists, set_authorized}

abbrev pub named : Uuid → HoldRow → Bool
named u h = h.id =text u

abbrev pub is_open : Uuid → HoldRow → Bool
is_open u h = h.id =text u && is_authorized h.status

-- An update passes by a settled row.
pub find-set_authorized-settled :
    (u v : Uuid) (status : HoldStatus) (hs : List HoldRow) (row : HoldRow)
    → find (named u) hs ≡ some row
    → is_authorized row.status ≡ false
    → find (named u) (set_authorized v status hs).0 ≡ some row
unfolding set_authorized
find-set_authorized-settled u v status [] row found done = found
find-set_authorized-settled u v status (h ∷ hs) row found done = elim (Bool-cases (h.id =text u)) [
  | inl hit ↦ ground arith
  | inr miss ↦ ground (arith, find-set_authorized-settled u v status hs row (rw miss at found) done)
]

pub set_authorized-is_open :
    (u v : Uuid) (status : HoldStatus) (hs : List HoldRow)
    → is_authorized status ≡ false
    → exists (is_open u) hs ≡ false
    → exists (is_open u) (set_authorized v status hs).0 ≡ false
unfolding set_authorized
set_authorized-is_open u v status [] settled h = h
set_authorized-is_open u v status (r ∷ hs) settled h =
    ground (arith, set_authorized-is_open u v status hs settled)

-- An update takes every row of its hold out of the status.
pub set_authorized-closes :
    (u : Uuid) (status : HoldStatus) (hs : List HoldRow)
    → is_authorized status ≡ false
    → exists (is_open u) (set_authorized u status hs).0 ≡ false
unfolding set_authorized
set_authorized-closes u status [] settled = refl
set_authorized-closes u status (r ∷ hs) settled =
    ground (arith, set_authorized-closes u status hs settled)

-- Where no row is open, an update finds none.
pub set_authorized-none :
    (u : Uuid) (status : HoldStatus) (hs : List HoldRow)
    → exists (is_open u) hs ≡ false
    → (set_authorized u status hs).1 ≡ 0
unfolding set_authorized
set_authorized-none u status [] h = refl
set_authorized-none u status (r ∷ hs) h = ground (arith, set_authorized-none u status hs)

-- An update that has found a row leaves a settled one to be read.
pub set_authorized-found :
    (u : Uuid) (status : HoldStatus) (hs : List HoldRow) (n : ℕ)
    → is_authorized status ≡ false
    → (set_authorized u status hs).1 ≡ suc n
    → (row : HoldRow) × (find (named u) (set_authorized u status hs).0 ≡ some row)
      × (is_authorized row.status ≡ false)
unfolding set_authorized
set_authorized-found u status [] n settled h = absurd (omega (arith, h))
set_authorized-found u status (r ∷ hs) n settled h = elim (Bool-cases (r.id =text u)) [
  | inl other ↦ elim (Bool-cases (is_authorized r.status)) [
    | inl active ↦ (record r { status = status }, ground (arith, other, active), settled)
    | inr passive ↦ (r, ground (arith, other, passive), passive)
  ]
  | inr other ↦
      let (row, found, done) =
        set_authorized-found u status hs n settled (ground (arith, h, other)) in
      (row, ground (arith, other, found), done)
]

find-exists {ℓ} :
    {A : Type ℓ} (test also : A → Bool) (rs : List A) (row : A)
    → find test rs ≡ some row
    → exists (λ r. test r || also r) rs ≡ true
find-exists test also [] row found = cc
find-exists test also (r ∷ rs) row found = elim (Bool-cases (test r)) [
  | inl hit ↦ rw hit refl
  | inr miss ↦ ground (arith, find-exists test also rs row (rw miss at found))
]

-- A name that no row has is not that of a row which is there.
pub new_name-other {ℓ} :
    {A : Type ℓ} (name : A → Text) (also : A → Bool) (rs : List A) (row : A) (new u : Text)
    → find (λ r. name r =text u) rs ≡ some row
    → exists (λ r. name r =text new || also r) rs ≡ false
    → (new =text u) ≡ false
new_name-other name also rs row new u found fresh = elim (Bool-cases (new =text u)) [
  | inl same ↦
      let here = ap (λ v. exists (λ r. name r =text v || also r) rs) (=text_eq new u same) in
      absurd (ground (arith, here, fresh, find-exists (λ r. name r =text u) also rs row found))
  | inr other ↦ other
]
