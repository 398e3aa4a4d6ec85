-- ===== src/Postgres/Accounts/Order.antt =====
-- The order of an account's entries.
use distributed_wallet_ledge.Prelude.{
  ◌≡◌, refl, ap, Bool, true, false, ◌||◌, ◌=text◌, List, [], ◌∷◌, ◌++◌, Text, All, arith,
  Bool-cases, inl, inr,
}
use distributed_wallet_ledge.Postgres.Queries.{exists}
use distributed_wallet_ledge.Postgres.Transactions.{text_lt}
use distributed_wallet_ledge.Postgres.Accounts.{
  AccountEntryRow, comes_before, insert_entry, rows_after,
}

pub text_lt_irrefl : (s : Text) → text_lt s s ≡ false
unfolding text_lt
text_lt_irrefl [] = refl
text_lt_irrefl (c ∷ s) = ground (arith, text_lt_irrefl s)

pub text_lt_trans : (s t u : Text) → text_lt s t ≡ true → text_lt t u ≡ true → text_lt s u ≡ true
unfolding text_lt
text_lt_trans s t [] h k = cc
text_lt_trans [] t (e ∷ u) h k = refl
text_lt_trans (c ∷ s) [] (e ∷ u) h k = cc
text_lt_trans (c ∷ s) (d ∷ t) (e ∷ u) h k = ground (arith, text_lt_trans s t u)

text_lt-total : (s t : Text) → (s =text t) ≡ false → text_lt s t ≡ false → text_lt t s ≡ true
unfolding text_lt
text_lt-total [] [] h k = cc
text_lt-total [] (d ∷ t) h k = cc
text_lt-total (c ∷ s) [] h k = refl
text_lt-total (c ∷ s) (d ∷ t) h k = ground (arith, text_lt-total s t)

-- One row before another.
abbrev pub precedes : AccountEntryRow → AccountEntryRow → Bool
precedes r q = comes_before r.created_at r.posting_id q.created_at q.posting_id

precedes_irrefl : (r : AccountEntryRow) → precedes r r ≡ false
unfolding comes_before
precedes_irrefl r = ground (arith, text_lt_irrefl r.posting_id)

precedes_trans :
    (r q p : AccountEntryRow) → precedes r q ≡ true → precedes q p ≡ true → precedes r p ≡ true
unfolding comes_before
precedes_trans r q p h k = ground (arith, text_lt_trans p.posting_id q.posting_id r.posting_id)

precedes-total :
    (r q : AccountEntryRow)
    → (q.posting_id =text r.posting_id) ≡ false
    → precedes r q ≡ false
    → precedes q r ≡ true
unfolding comes_before
precedes-total r q h k = ground (arith, text_lt-total q.posting_id r.posting_id h)

precedes-asym : (r q : AccountEntryRow) → precedes r q ≡ true → precedes q r ≡ false
precedes-asym r q h = elim (Bool-cases (precedes q r)) [
  | inl back ↦ absurd (ground (arith, precedes_trans r q r h back, precedes_irrefl r))
  | inr fine ↦ fine
]

-- Every row precedes those that follow it.
abbrev pub AreOrdered : List AccountEntryRow → Type 0
AreOrdered [] = Unit
AreOrdered (r ∷ rs) = All (λ q. precedes r q ≡ true) rs × AreOrdered rs

All-precedes_trans :
    (r q : AccountEntryRow) (rs : List AccountEntryRow)
    → precedes r q ≡ true
    → All (λ p. precedes q p ≡ true) rs
    → All (λ p. precedes r p ≡ true) rs
All-precedes_trans r q [] h all = tt
All-precedes_trans r q (p ∷ rs) h (first, rest) =
    (precedes_trans r q p h first, All-precedes_trans r q rs h rest)

All-insert_entry :
    (q r : AccountEntryRow) (qs : List AccountEntryRow)
    → precedes q r ≡ true
    → All (λ p. precedes q p ≡ true) qs
    → All (λ p. precedes q p ≡ true) (insert_entry r qs)
unfolding insert_entry
All-insert_entry q r [] h all = (h, tt)
All-insert_entry q r (p ∷ qs) h (first, rest) = elim (Bool-cases (precedes r p)) [
  | inl here ↦ rw here (h, (first, rest))
  | inr after ↦ rw after (first, All-insert_entry q r qs h rest)
]

pub insert_entry-AreOrdered :
    (r : AccountEntryRow) (qs : List AccountEntryRow)
    → exists (λ q. q.posting_id =text r.posting_id) qs ≡ false
    → AreOrdered qs
    → AreOrdered (insert_entry r qs)
unfolding insert_entry
insert_entry-AreOrdered r [] fresh h = (tt, tt)
insert_entry-AreOrdered r (q ∷ qs) fresh (first, rest) =
    let other : (q.posting_id =text r.posting_id) ≡ false = ground arith in
    elim (Bool-cases (precedes r q)) [
      | inl here ↦ rw here ((here, All-precedes_trans r q qs here first), (first, rest))
      | inr after ↦ rw after (
        All-insert_entry q r qs (precedes-total r q other after) first,
        insert_entry-AreOrdered r qs (ground arith) rest,
      )
    ]

pub exists-insert_entry :
    (test : AccountEntryRow → Bool) (r : AccountEntryRow) (qs : List AccountEntryRow)
    → exists test (insert_entry r qs) ≡ (test r || exists test qs)
unfolding insert_entry
exists-insert_entry test r [] = refl
exists-insert_entry test r (q ∷ qs) = ground (arith, exists-insert_entry test r qs)

-- The rows after one of them.
rows_after-All :
    (k : AccountEntryRow) (rs : List AccountEntryRow)
    → All (λ q. precedes k q ≡ true) rs
    → rows_after k.created_at k.posting_id rs ≡ rs
unfolding rows_after
rows_after-All k [] all = refl
rows_after-All k (r ∷ rs) (first, rest) = rw first (ap (λ x. r ∷ x) (rows_after-All k rs rest))

pub All-middle :
    (P : AccountEntryRow → Type 0) (xs : List AccountEntryRow) (k : AccountEntryRow)
    (ys : List AccountEntryRow)
    → All P (xs ++ k ∷ ys)
    → P k
All-middle P [] k ys (first, rest) = first
All-middle P (x ∷ xs) k ys (first, rest) = All-middle P xs k ys rest

pub rows_after-split :
    (xs : List AccountEntryRow) (k : AccountEntryRow) (ys : List AccountEntryRow)
    → AreOrdered (xs ++ k ∷ ys)
    → rows_after k.created_at k.posting_id (xs ++ k ∷ ys) ≡ ys
unfolding rows_after
rows_after-split [] k ys (first, rest) = rw (precedes_irrefl k) (rows_after-All k ys first)
rows_after-split (x ∷ xs) k ys (first, rest) =
    let before = All-middle (λ q. precedes x q ≡ true) xs k ys first in
    rw (precedes-asym x k before) (rows_after-split xs k ys rest)
