-- ===== src/Postgres/Reading/Order.antt =====
-- The order in which GetTransactionDetails gives the postings back, on the postings themselves.
use mathlib.Core.List.{Permᴰ}
use mathlib.Core.List.Permᴰ
use distributed_wallet_ledge.Prelude.{
  ℕ, ◌+◌, ◌≡◌, refl, ap, ap₂, subst, Bool, true, false, List, [], ◌∷◌, ◌++◌, if◌then◌else◌, All,
  arith, Bool-cases, inl, inr,
}
use distributed_wallet_ledge.Domain.Posting.{Posting, PostingDirection, is_debit, is_credit}
use distributed_wallet_ledge.Domain.Money.Laws.{units}
use distributed_wallet_ledge.Domain.JournalEntry.{JournalEntry}
use distributed_wallet_ledge.Domain.JournalEntry.Totals.{sum_of}
use distributed_wallet_ledge.Domain.JournalEntry.Balance.{IsDoubleEntry}
use distributed_wallet_ledge.Postgres.Transactions.{text_lt}
use distributed_wallet_ledge.Postgres.Accounts.Order.{text_lt_irrefl, text_lt_trans}

unfoldable pub insert_posting : Posting → List Posting → List Posting
insert_posting p [] = p ∷ []
insert_posting p (q ∷ qs) = if text_lt p.id q.id then p ∷ q ∷ qs else q ∷ insert_posting p qs

-- The postings inserted from the first to the last.
unfoldable pub sort_into : List Posting → List Posting → List Posting
sort_into [] acc = acc
sort_into (p ∷ ps) acc = sort_into ps (insert_posting p acc)

-- No posting has an identifier below that of one before it.
abbrev pub AreSorted : List Posting → Type 0
AreSorted [] = Unit
AreSorted (p ∷ ps) = All (λ q. text_lt q.id p.id ≡ false) ps × AreSorted ps

text_lt-below :
    (p q r : Posting)
    → text_lt p.id q.id ≡ true
    → text_lt r.id q.id ≡ false
    → text_lt r.id p.id ≡ false
text_lt-below p q r h k = elim (Bool-cases (text_lt r.id p.id)) [
  | inl below ↦ absurd (ground (arith, text_lt_trans r.id p.id q.id below h))
  | inr fine ↦ fine
]

All-text_lt-below :
    (p q : Posting) (qs : List Posting)
    → text_lt p.id q.id ≡ true
    → All (λ r. text_lt r.id q.id ≡ false) qs
    → All (λ r. text_lt r.id p.id ≡ false) qs
All-text_lt-below p q [] h all = tt
All-text_lt-below p q (r ∷ qs) h (first, rest) =
    (text_lt-below p q r h first, All-text_lt-below p q qs h rest)

All-insert_posting :
    (P : Posting → Type 0) (p : Posting) (qs : List Posting)
    → P p
    → All P qs
    → All P (insert_posting p qs)
unfolding insert_posting
All-insert_posting P p [] h all = (h, tt)
All-insert_posting P p (q ∷ qs) h (first, rest) = elim (Bool-cases (text_lt p.id q.id)) [
  | inl here ↦ rw here (h, (first, rest))
  | inr after ↦ rw after (first, All-insert_posting P p qs h rest)
]

insert_posting-AreSorted :
    (p : Posting) (qs : List Posting) → AreSorted qs → AreSorted (insert_posting p qs)
unfolding insert_posting
insert_posting-AreSorted p [] h = (tt, tt)
insert_posting-AreSorted p (q ∷ qs) (first, rest) = elim (Bool-cases (text_lt p.id q.id)) [
  | inl here ↦
      let above = text_lt-below p q q here (text_lt_irrefl q.id) in
      rw here ((above, All-text_lt-below p q qs here first), (first, rest))
  | inr after ↦ rw after (
    All-insert_posting (λ r. text_lt r.id q.id ≡ false) p qs after first,
    insert_posting-AreSorted p qs rest,
  )
]

pub sort_into-AreSorted : (ps acc : List Posting) → AreSorted acc → AreSorted (sort_into ps acc)
unfolding sort_into
sort_into-AreSorted [] acc h = h
sort_into-AreSorted (p ∷ ps) acc h =
    sort_into-AreSorted ps (insert_posting p acc) (insert_posting-AreSorted p acc h)

insert_posting-Permᴰ : (p : Posting) (qs : List Posting) → Permᴰ (insert_posting p qs) (p ∷ qs)
unfolding insert_posting
insert_posting-Permᴰ p [] = Permᴰ.refl _
insert_posting-Permᴰ p (q ∷ qs) = elim (Bool-cases (text_lt p.id q.id)) [
  | inl here ↦ rw here (Permᴰ.refl (p ∷ q ∷ qs))
  | inr after ↦
      rw after (Permᴰ.trans (Permᴰ.cons refl (insert_posting-Permᴰ p qs)) (Permᴰ.swap refl refl))
]

sort_into-append : (ps acc : List Posting) → Permᴰ (sort_into ps acc) (ps ++ acc)
unfolding sort_into
sort_into-append [] acc = Permᴰ.refl acc
sort_into-append (p ∷ ps) acc =
    Permᴰ.trans (sort_into-append ps (insert_posting p acc))
      (Permᴰ.trans (Permᴰ.append_left ps (insert_posting-Permᴰ p acc)) (Permᴰ.middle p ps acc))

pub sort_into-Permᴰ : (ps : List Posting) → Permᴰ (sort_into ps []) ps
sort_into-Permᴰ ps = Permᴰ.trans (sort_into-append ps []) (Permᴰ.append-nil ps)

-- What an order of the postings does not change.
pub Permᴰ-All : (P : Posting → Type 0) (ps qs : List Posting) → Permᴰ ps qs → All P ps → All P qs
Permᴰ-All P _ _ Permᴰ.nil all = tt
Permᴰ-All P _ _ (Permᴰ.cons {l₁ = l} {l₂ = m} e d) (first, rest) =
    (subst P e first, Permᴰ-All P l m d rest)
Permᴰ-All P _ _ (Permᴰ.swap e f) (first, (second, rest)) =
    (subst P f second, (subst P e first, rest))
Permᴰ-All P _ _ (Permᴰ.trans {l₁ = l} {l₂ = m} {l₃ = n} d d') all =
    Permᴰ-All P m n d' (Permᴰ-All P l m d all)

abbrev weight : (PostingDirection → Bool) → Posting → ℕ
weight f p = if f p.direction then units p.amount else 0

Permᴰ-sum_of :
    (f : PostingDirection → Bool) (ps qs : List Posting) → Permᴰ ps qs → sum_of f ps ≡ sum_of f qs
Permᴰ-sum_of f _ _ Permᴰ.nil = refl
Permᴰ-sum_of f _ _ (Permᴰ.cons {l₁ = l} {l₂ = m} e d) =
    ap₂ (λ x y. weight f x + y) e (Permᴰ-sum_of f l m d)
Permᴰ-sum_of f _ _ (Permᴰ.swap {l = l} e g) = omega (arith, ap (weight f) e, ap (weight f) g)
Permᴰ-sum_of f _ _ (Permᴰ.trans {l₁ = l} {l₂ = m} {l₃ = n} d d') =
    omega (arith, Permᴰ-sum_of f l m d, Permᴰ-sum_of f m n d')

-- Double entry does not depend on the order of the postings.
pub Permᴰ-IsDoubleEntry :
    (j : JournalEntry) (ps : List Posting)
    → Permᴰ j.postings ps
    → IsDoubleEntry j
    → IsDoubleEntry (record j { postings = ps })
Permᴰ-IsDoubleEntry j ps d h =
    let debits = Permᴰ-sum_of is_debit j.postings ps d in
    let credits = Permᴰ-sum_of is_credit j.postings ps d in
    record {
      identified = h.identified;
      currency_valid = h.currency_valid;
      fitting = Permᴰ-All _ j.postings ps d h.fitting;
      moves_money = omega (arith, debits, h.moves_money);
      balanced = omega (arith, debits, credits, h.balanced);
      bounded = omega (arith, debits, h.bounded);
    }
