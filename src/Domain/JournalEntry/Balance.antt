-- ===== src/Domain/JournalEntry/Balance.antt =====
-- `JournalEntry.Validate` decides double entry: what a valid entry is, with no reference to the
-- loops of the code.
use native.Mathlib.Nat.{zero-add}
use distributed_wallet_ledge.Prelude.{
  ℕ, ◌≤◌, ◌<◌, ◌≡◌, ◌↔◌, refl, ap, ◌∙◌, Bool, true, false, List, [], ◌∷◌, ltb, leb, ◌==◌, leb→le,
  le→leb, max_int64, All, arith, Bool-cases, inl, inr, is_empty,
}
use distributed_wallet_ledge.Errors.{
  ok, ◌>>=◌, fail_if, >>=-eq-ok, invalid_id, journal_entry_without_postings,
}
use distributed_wallet_ledge.Domain.Ids.{is_zero}
use distributed_wallet_ledge.Domain.Currency
use distributed_wallet_ledge.Domain.Currency.{Currency}
use distributed_wallet_ledge.Domain.Money
use distributed_wallet_ledge.Domain.Money.Laws.{money, validate-money, equal_refl}
use distributed_wallet_ledge.Domain.Posting.{Posting, PostingDirection, is_debit, is_credit}
use distributed_wallet_ledge.Domain.JournalEntry
use distributed_wallet_ledge.Domain.JournalEntry.{JournalEntry, scan_postings}
use distributed_wallet_ledge.Domain.JournalEntry.Totals.{
  Fits, Fits-pos, sum_of, any_counts, total_or_overflow, accumulate-sum_of, scan_postings-eq,
  scan_postings-Fits,
}

-- Double entry: identified, in a valid currency that every posting has, each posting valid on its
-- own, something debited, and the debits equal to the credits and within int64.
pub record IsDoubleEntry (j : JournalEntry) : Type 0 where
  pub identified : (is_zero j.id ≡ false) × (is_zero j.transaction_id ≡ false)
  pub currency_valid : Currency.validate j.currency ≡ ok tt
  pub fitting : All (Fits j.currency) j.postings
  pub moves_money : 0 < sum_of is_debit j.postings
  pub balanced : sum_of is_debit j.postings ≡ sum_of is_credit j.postings
  pub bounded : sum_of is_debit j.postings ≤ max_int64

any_counts-eq :
    (c : Currency) (counts : PostingDirection → Bool) (ps : List Posting)
    → All (Fits c) ps
    → any_counts counts ps ≡ ltb 0 (sum_of counts ps)
unfolding any_counts
any_counts-eq c counts [] f = refl
any_counts-eq c counts (p ∷ ps) (fp, f) =
    ground (arith, Fits-pos c p fp, any_counts-eq c counts ps f)

equal-money : (c : Currency) (a b : ℕ) → Money.equal (money c a) (money c b) ≡ (a == b)
unfolding Money.equal
equal-money c a b = ground (arith, equal_refl c)

totals :
    (j : JournalEntry)
    → Currency.validate j.currency ≡ ok tt
    → All (Fits j.currency) j.postings
    → (JournalEntry.total_debits j ≡ total_or_overflow j.currency (sum_of is_debit j.postings))
      × (JournalEntry.total_credits j ≡ total_or_overflow j.currency (sum_of is_credit j.postings))
unfolding JournalEntry.total_debits JournalEntry.total_credits Money.new_money
totals j v f = rw (validate-money j.currency 0 v) (
  accumulate-sum_of j.currency is_debit j.postings 0 v f (omega arith)
      ∙ ap (total_or_overflow j.currency) (zero-add _),
  accumulate-sum_of j.currency is_credit j.postings 0 v f (omega arith)
      ∙ ap (total_or_overflow j.currency) (zero-add _),
)

compare_totals_iff :
    (c : Currency) (a b : ℕ)
    → ((do
      debits ← total_or_overflow c a
      credits ← total_or_overflow c b
      ok (Money.equal debits credits))
        ≡ ok true)
      ↔ ((a ≡ b) × (a ≤ max_int64))
compare_totals_iff c a b = elim (Bool-cases (leb a max_int64)) [
  | inr over ↦ rw over (λ h. cc, λ h. cc (over, le→leb a max_int64 h.1))
  | inl fits ↦ elim (Bool-cases (leb b max_int64)) [
    | inl fits' ↦ rw (fits, fits', equal-money) (ground (arith, leb→le a max_int64 fits))
    | inr over' ↦
        rw (fits, over') (λ h. cc, λ h. cc (fits, over', ap (λ (n : ℕ). leb n max_int64) h.0))
  ]
]

-- On postings that fit, the entry is balanced without an error exactly when the sums agree and fit.
is_balanced_iff :
    (j : JournalEntry)
    → Currency.validate j.currency ≡ ok tt
    → All (Fits j.currency) j.postings
    → (JournalEntry.is_balanced j ≡ ok true) ↔ (
        (sum_of is_debit j.postings ≡ sum_of is_credit j.postings)
        × (sum_of is_debit j.postings ≤ max_int64))
unfolding JournalEntry.is_balanced
is_balanced_iff j v f =
    let (d, k) = totals j v f in
    rw (d, k)
      (compare_totals_iff j.currency (sum_of is_debit j.postings) (sum_of is_credit j.postings))

sound : (j : JournalEntry) → JournalEntry.validate j ≡ ok tt → IsDoubleEntry j
unfolding JournalEntry.validate
sound j h =
    let (_, id, h₁) = >>=-eq-ok (fail_if (is_zero j.id) invalid_id) _ h in
    let (_, tx, h₂) = >>=-eq-ok (fail_if (is_zero j.transaction_id) invalid_id) _ h₁ in
    let (_, v, h₃) = >>=-eq-ok (Currency.validate j.currency) _ h₂ in
    let (_, some_posting, h₄) =
      >>=-eq-ok (fail_if (is_empty j.postings) journal_entry_without_postings) _ h₃ in
    let (flags, scanned, h₅) =
      >>=-eq-ok (scan_postings j.currency j.postings (false, false)) _ h₄ in
    let f = scan_postings-Fits j.currency j.postings (false, false) flags scanned in
    let found = scan_postings-eq j.currency j.postings false false f in
    let debited = any_counts-eq j.currency is_debit j.postings f in
    let balanced : JournalEntry.is_balanced j ≡ ok true = ground arith in
    let agree = (is_balanced_iff j v f).0 balanced in
    record {
      identified = (ground arith, ground arith);
      currency_valid = v;
      fitting = f;
      moves_money = ground arith;
      balanced = agree.0;
      bounded = agree.1;
    }

not_empty : (ps : List Posting) → 0 < sum_of is_debit ps → is_empty ps ≡ false
not_empty [] h = absurd (omega arith)
not_empty (p ∷ ps) h = refl

complete : (j : JournalEntry) → IsDoubleEntry j → JournalEntry.validate j ≡ ok tt
unfolding JournalEntry.validate
complete j d = ground (
  arith,
  not_empty j.postings d.moves_money,
  scan_postings-eq j.currency j.postings false false d.fitting,
  any_counts-eq j.currency is_debit j.postings d.fitting,
  any_counts-eq j.currency is_credit j.postings d.fitting,
  (is_balanced_iff j d.currency_valid d.fitting).1 (d.balanced, d.bounded),
)

-- `JournalEntry.Validate` accepts an entry exactly when it is a double entry.
pub validate_entry_iff : (j : JournalEntry) → (JournalEntry.validate j ≡ ok tt) ↔ IsDoubleEntry j
validate_entry_iff j = (sound j, complete j)
