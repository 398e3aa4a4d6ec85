-- ===== src/Domain/JournalEntry/Totals.antt =====
-- The loops of journal_entry.go against plain sums over the postings.
use distributed_wallet_ledge.Prelude.{
  ◌∙◌, le→leb, leb→le, leb-add_false, ℕ, ◌+◌, ◌≤◌, ◌<◌, ◌≡◌, ap, Bool, true, false, not, ◌||◌, List,
  [], ◌∷◌, leb, max_int64, if◌then◌else◌, All, arith, Bool-cases, inl, inr,
}
use native.Mathlib.Nat.{add-zero, add_assoc}
use distributed_wallet_ledge.Errors.{
  currency_mismatch, Result, ok, err, amount_overflow, >>=-eq-ok, fail_if, ◌>>=◌,
}
use distributed_wallet_ledge.Domain.Currency
use distributed_wallet_ledge.Domain.Currency.{Currency}
use distributed_wallet_ledge.Domain.Money
use distributed_wallet_ledge.Domain.Money.{Money}
use distributed_wallet_ledge.Domain.Money.Laws.{
  units, money, add-money, validate-units, equal-eq, equal_refl,
}
use distributed_wallet_ledge.Domain.Posting
use distributed_wallet_ledge.Domain.Posting.{
  Posting, PostingDirection, is_debit, is_credit, debit, credit, other,
}
use distributed_wallet_ledge.Domain.JournalEntry.{mark, scan_postings, accumulate, Flags}

-- The sum of the amounts of the postings whose direction counts.
abbrev pub sum_of : (PostingDirection → Bool) → List Posting → ℕ
sum_of counts [] = 0
sum_of counts (p ∷ ps) = (if counts p.direction then units p.amount else 0) + sum_of counts ps

-- A posting that passes `Posting.Validate`, in the entry's currency.
abbrev pub Fits : Currency → Posting → Type 0
Fits c p = (Posting.validate p ≡ ok tt) × (p.amount.currency ≡ c)

pub Fits-amount : (c : Currency) (p : Posting) → Fits c p → p.amount ≡ money c (units p.amount)
unfolding Posting.validate
Fits-amount c p (v, e) = ground (arith, validate-units p.amount)

pub Fits-pos : (c : Currency) (p : Posting) → Fits c p → 0 < units p.amount
unfolding Posting.validate
Fits-pos c p (v, e) = ground (arith, validate-units p.amount)

-- What the total is after a loop that began at `t` and adds `n`.
abbrev pub total_or_overflow : Currency → ℕ → Result Money
total_or_overflow c n = if leb n max_int64 then ok (money c n) else err amount_overflow

add_counted :
    (c : Currency) (b : Bool) (t : ℕ) (p : Posting)
    → Currency.validate c ≡ ok tt
    → Fits c p
    → t ≤ max_int64
    → (if b then Money.add (money c t) p.amount else ok (money c t))
      ≡ total_or_overflow c (t + (if b then units p.amount else 0))
add_counted c true t p v f h =
    ap (Money.add (money c t)) (Fits-amount c p f) ∙ add-money c t (units p.amount) v h
add_counted c false t p v f h = rw (add-zero, le→leb t max_int64 h)

continue_total :
    (c : Currency) (n w : ℕ) (k : Money → Result Money)
    → (n ≤ max_int64 → k (money c n) ≡ total_or_overflow c (n + w))
    → (total_or_overflow c n >>= k) ≡ total_or_overflow c (n + w)
continue_total c n w k h = elim (Bool-cases (leb n max_int64)) [
  | inl fits ↦ rw fits (h (leb→le n max_int64 fits))
  | inr over ↦ rw (over, leb-add_false n w max_int64 over)
]

pub accumulate-sum_of :
    (c : Currency) (counts : PostingDirection → Bool) (ps : List Posting) (t : ℕ)
    → Currency.validate c ≡ ok tt
    → All (Fits c) ps
    → t ≤ max_int64
    → accumulate counts ps (money c t) ≡ total_or_overflow c (t + sum_of counts ps)
unfolding accumulate
accumulate-sum_of c counts [] t v f h = rw (add-zero, le→leb t max_int64 h)
accumulate-sum_of c counts (p ∷ ps) t v (fp, f) h =
    let w = if counts p.direction then units p.amount else 0 in
    rw (add_counted c (counts p.direction) t p v fp h) (
      continue_total c (t + w) (sum_of counts ps) (accumulate counts ps)
        (accumulate-sum_of c counts ps (t + w) v f)
      ∙ ap (total_or_overflow c) (add_assoc t w (sum_of counts ps)))

unfoldable pub any_counts : (PostingDirection → Bool) → List Posting → Bool
any_counts counts [] = false
any_counts counts (p ∷ ps) = counts p.direction || any_counts counts ps

pub scan_postings-eq :
    (c : Currency) (ps : List Posting) (d k : Bool)
    → All (Fits c) ps
    → scan_postings c ps (d, k) ≡ ok (d || any_counts is_debit ps, k || any_counts is_credit ps)
unfolding scan_postings any_counts
scan_postings-eq c [] d k f = ground arith
scan_postings-eq c (p ∷ ps) d k (fp, f) = ground (
  arith,
  equal_refl c,
  scan_postings-eq c ps true k f,
  scan_postings-eq c ps d true f,
  scan_postings-eq c ps d k f,
)

pub scan_postings-Fits :
    (c : Currency) (ps : List Posting) (fl r : Flags)
    → scan_postings c ps fl ≡ ok r
    → All (Fits c) ps
unfolding scan_postings
scan_postings-Fits c [] fl r h = tt
scan_postings-Fits c (p ∷ ps) fl r h =
    let (_, valid, h') = >>=-eq-ok (Posting.validate p) _ h in
    let (_, same, h'') =
      >>=-eq-ok (fail_if (not (Currency.equal p.amount.currency c)) currency_mismatch) _ h' in
    (
      (valid, ground (arith, equal-eq p.amount.currency c)),
      scan_postings-Fits c ps (mark p.direction fl) r h'',
    )
