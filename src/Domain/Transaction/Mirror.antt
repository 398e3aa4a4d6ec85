-- ===== src/Domain/Transaction/Mirror.antt =====
-- The loop of `Transaction.Reverse` makes the mirror image of the postings.
use distributed_wallet_ledge.Prelude.{
  ℕ, ◌+◌, ◌≡◌, refl, ap, Bool, false, ◌&&◌, List, [], ◌∷◌, if◌then◌else◌, All, arith, ◌=text◌,
  length,
}
use distributed_wallet_ledge.Errors.{ok, fail_if, >>=-eq-ok, invalid_id}
use distributed_wallet_ledge.Domain.Ids.{AccountId, PostingId, is_zero}
use distributed_wallet_ledge.Domain.Currency.{Currency}
use distributed_wallet_ledge.Domain.Money.Laws.{units}
use distributed_wallet_ledge.Domain.Posting
use distributed_wallet_ledge.Domain.Posting.{
  Posting, PostingDirection, debit, credit, other, opposite, is_debit, is_credit,
}
use distributed_wallet_ledge.Domain.JournalEntry.Totals.{Fits, sum_of}
use distributed_wallet_ledge.Domain.Transaction.{reverse_postings}

-- The sum of the amounts that are posted to an account in the directions that count.
abbrev pub account_sum : (PostingDirection → Bool) → AccountId → List Posting → ℕ
account_sum counts a [] = 0
account_sum counts a (p ∷ ps) =
    (if p.account_id =text a && counts p.direction then units p.amount else 0)
    + account_sum counts a ps

-- The postings with the directions swapped, under other identifiers.
abbrev pub mirror : List PostingId → List Posting → List Posting
mirror (id ∷ ids) (p ∷ ps) = record p { id = id; direction = opposite p.direction } ∷ mirror ids ps
mirror _ _ = []

module _ (f g : PostingDirection → Bool)
    (swapped : (d : PostingDirection) → f (opposite d) ≡ g d) where
  pub account_sum-mirror :
      (a : AccountId) (ids : List PostingId) (ps : List Posting)
      → length ids ≡ length ps
      → account_sum f a (mirror ids ps) ≡ account_sum g a ps
  account_sum-mirror a [] [] h = refl
  account_sum-mirror a [] (p ∷ ps) h = absurd (omega arith)
  account_sum-mirror a (id ∷ ids) [] h = absurd (omega arith)
  account_sum-mirror a (id ∷ ids) (p ∷ ps) h = rw swapped (
      ap (λ (n : ℕ). (if p.account_id =text a && g p.direction then units p.amount else 0) + n)
        (account_sum-mirror a ids ps (omega arith)))

  pub sum_of-mirror :
      (ids : List PostingId) (ps : List Posting)
      → length ids ≡ length ps
      → sum_of f (mirror ids ps) ≡ sum_of g ps
  sum_of-mirror [] [] h = refl
  sum_of-mirror [] (p ∷ ps) h = absurd (omega arith)
  sum_of-mirror (id ∷ ids) [] h = absurd (omega arith)
  sum_of-mirror (id ∷ ids) (p ∷ ps) h = rw swapped (
      ap (λ (n : ℕ). (if g p.direction then units p.amount else 0) + n)
        (sum_of-mirror ids ps (omega arith)))

pub debit_of_credit : (d : PostingDirection) → is_debit (opposite d) ≡ is_credit d
debit_of_credit debit = refl
debit_of_credit credit = refl
debit_of_credit (other s) = refl

pub credit_of_debit : (d : PostingDirection) → is_credit (opposite d) ≡ is_debit d
credit_of_debit debit = refl
credit_of_debit credit = refl
credit_of_debit (other s) = refl

new_posting-eq :
    (id : PostingId) (p : Posting) (q : Posting)
    → Posting.new_posting id p.account_id (opposite p.direction) p.amount ≡ ok q
    → q ≡ record p { id = id; direction = opposite p.direction }
unfolding Posting.new_posting
new_posting-eq id p q h = ground arith

pub reverse_postings-eq :
    (ids : List PostingId) (ps rs : List Posting)
    → reverse_postings ids ps ≡ ok rs
    → rs ≡ mirror ids ps
unfolding reverse_postings
reverse_postings-eq [] [] rs h = cc
reverse_postings-eq (id ∷ ids) [] rs h = cc
reverse_postings-eq [] (p ∷ ps) rs h = cc
reverse_postings-eq (id ∷ ids) (p ∷ ps) rs h =
    let (_, _, h₁) = >>=-eq-ok (fail_if (is_zero id) invalid_id) _ h in
    let (q, made, h₂) =
      >>=-eq-ok (Posting.new_posting id p.account_id (opposite p.direction) p.amount) _ h₁ in
    let (rest, done, h₃) = >>=-eq-ok (reverse_postings ids ps) _ h₂ in
    cc (new_posting-eq id p q made, reverse_postings-eq ids ps rest done)

Posting-opposite :
    (c : Currency) (id : PostingId) (p : Posting)
    → Fits c p
    → is_zero id ≡ false
    → let q : Posting = record p { id = id; direction = opposite p.direction } in
      (Posting.new_posting id p.account_id (opposite p.direction) p.amount ≡ ok q) × Fits c q
unfolding Posting.new_posting Posting.validate
Posting-opposite c id p f h = ground arith

pub reverse_postings-mirror :
    (c : Currency) (ids : List PostingId) (ps : List Posting)
    → length ids ≡ length ps
    → All (λ id. is_zero id ≡ false) ids
    → All (Fits c) ps
    → (reverse_postings ids ps ≡ ok (mirror ids ps)) × All (Fits c) (mirror ids ps)
unfolding reverse_postings
reverse_postings-mirror c [] [] e z f = (refl, tt)
reverse_postings-mirror c [] (p ∷ ps) e z f = absurd (omega arith)
reverse_postings-mirror c (id ∷ ids) [] e z f = absurd (omega arith)
reverse_postings-mirror c (id ∷ ids) (p ∷ ps) e (z, zs) (f, fs) =
    let (made, fits) = Posting-opposite c id p f z in
    let (done, rest_fits) = reverse_postings-mirror c ids ps (omega arith) zs fs in
    (rw (z, made, done), (fits, rest_fits))
