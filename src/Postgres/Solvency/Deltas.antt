-- ===== src/Postgres/Solvency/Deltas.antt =====
-- The map of deltas, and the postings that are written, against the sums over the postings.
use distributed_wallet_ledge.Prelude.{
  ℕ, zero, suc, ◌+◌, ◌≤◌, ◌≡◌, ap, ap₂, subst, ◌∙◌, Bool, true, false, not, ◌&&◌, ℤ, pos, negsuc,
  pos_part, sub_ℕ, ◌+64◌, ◌-64◌, max_int64, ◌=text◌, List, [], ◌∷◌, Text, Option, some,
  if◌then◌else◌, All, arith,
}
use native.Mathlib.Nat.{add-zero, add_assoc}
use distributed_wallet_ledge.Errors.{ok, wrap_error-eq-ok, >>=-eq-ok, wrap_error}
use distributed_wallet_ledge.Domain.Currency.{Currency}
use distributed_wallet_ledge.Domain.Money.Laws.{units}
use distributed_wallet_ledge.Domain.Posting
use distributed_wallet_ledge.Domain.Posting.{
  Posting, PostingDirection, debit, credit, other, is_debit, is_credit,
}
use distributed_wallet_ledge.Domain.JournalEntry.Totals.{Fits, Fits-amount, sum_of}
use distributed_wallet_ledge.Domain.Transaction.Mirror.{account_sum}
use distributed_wallet_ledge.Postgres.Tables.{Uuid, Store, PostingRow}
use distributed_wallet_ledge.Postgres.Queries.{posted, create_posting}
use distributed_wallet_ledge.Postgres.Transactions.{delta_from, to_uuid, create_postings}
use distributed_wallet_ledge.Postgres.Solvency.Arithmetic.{credit-eq, debit-eq, sub64-eq}

pub account_sum-le :
    (f : PostingDirection → Bool) (a : Text) (ps : List Posting) → account_sum f a ps ≤ sum_of f ps
account_sum-le f a [] = omega arith
account_sum-le f a (p ∷ ps) = ground (arith, account_sum-le f a ps)

Fits-direction :
    (c : Currency) (p : Posting) → Fits c p → is_credit p.direction ≡ not (is_debit p.direction)
unfolding Posting.validate
Fits-direction c p (v, e) = ground arith

delta_step :
    (same is_d is_c : Bool) (amount : ℤ) (n c d : ℕ)
    → amount ≡ pos n
    → is_c ≡ not is_d
    → c + (if is_c then n else 0) ≤ max_int64
    → d + (if is_d then n else 0) ≤ max_int64
    → (if same then sub_ℕ c d +64 (if is_d then pos 0 -64 amount else amount) else sub_ℕ c d)
      ≡ sub_ℕ (c + (if same && is_c then n else 0)) (d + (if same && is_d then n else 0))
delta_step false is_d is_c amount n c d e o hc hd = rw (add-zero, add-zero)
delta_step true true is_c amount n c d e o hc hd =
    rw (e, o, add-zero, sub64-eq 0 n (omega arith) (omega arith)) (debit-eq c d n (ground arith) hd)
delta_step true false is_c amount n c d e o hc hd =
    rw (e, o, add-zero) (credit-eq c d n (ground arith) (omega arith))

-- The delta of an account is its credits less its debits, with no wrap on the way.
pub delta_from-eq :
    (cur : Currency) (key : Text) (ps : List Posting) (c d : ℕ)
    → All (Fits cur) ps
    → c + sum_of is_credit ps ≤ max_int64
    → d + sum_of is_debit ps ≤ max_int64
    → delta_from key ps (sub_ℕ c d)
      ≡ sub_ℕ (c + account_sum is_credit key ps) (d + account_sum is_debit key ps)
unfolding delta_from
delta_from-eq cur key [] c d f hc hd = ground arith
delta_from-eq cur key (p ∷ ps) c d (fp, f) hc hd =
    let same = p.account_id =text key in
    let n = units p.amount in
    let amount = ap (λ m. m.amount_minor_units) (Fits-amount cur p fp) in
    let wc = if same && is_credit p.direction then n else 0 in
    let wd = if same && is_debit p.direction then n else 0 in
    rw
      (delta_step same (is_debit p.direction) (is_credit p.direction) p.amount.amount_minor_units n
        c d amount (Fits-direction cur p fp) (omega arith) (omega arith))
      (delta_from-eq cur key ps (c + wc) (d + wd) f (ground arith) (ground arith)
        ∙ ap₂ sub_ℕ (add_assoc c wc _) (add_assoc d wd _))

-- Identifiers that are the canonical texts of their UUIDs.
abbrev pub IsCanonical : (Text → Option Uuid) → List Posting → Type 0
IsCanonical scan = All (λ p. scan p.account_id ≡ some p.account_id)

create_posting-posted :
    (id entry account : Uuid) (d : PostingDirection) (amount : ℤ) (s s' : Store)
    (f : PostingDirection → Bool) (a : Uuid)
    → create_posting id entry account d amount s ≡ ok s'
    → posted f a s'.postings
      ≡ (if account =text a && f d then pos_part amount else 0) + posted f a s.postings
unfolding create_posting posted
create_posting-posted id entry account d (pos zero) s s' f a h = ground arith
create_posting-posted id entry account d (pos (suc n)) s s' f a h = ground arith
create_posting-posted id entry account d (negsuc n) s s' f a h = ground arith

-- What is posted to an account when the postings of an entry have been written.
pub create_postings-posted :
    (scan : Text → Option Uuid) (entry : Uuid) (ps : List Posting) (s s' : Store)
    (f : PostingDirection → Bool) (a : Uuid)
    → IsCanonical scan ps
    → create_postings scan entry ps s ≡ ok s'
    → posted f a s'.postings ≡ account_sum f a ps + posted f a s.postings
unfolding create_postings to_uuid
create_postings-posted scan entry [] s s' f a canonical h = ground arith
create_postings-posted scan entry (p ∷ ps) s s' f a (canon, rest) h =
    let (id, _, h₁) = >>=-eq-ok (to_uuid scan p.id) _ h in
    let (account, named, h₂) = >>=-eq-ok (to_uuid scan p.account_id) _ h₁ in
    let same : account ≡ p.account_id = ground arith in
    let write = create_posting id entry account p.direction p.amount.amount_minor_units s in
    let (s₁, wrote, h₃) = >>=-eq-ok (wrap_error write) _ h₂ in
    let row =
      create_posting-posted id entry account p.direction p.amount.amount_minor_units s s₁ f a
        (wrap_error-eq-ok write s₁ wrote) in
    let row' =
      subst
        (λ u.
          posted f a s₁.postings
          ≡ (if u =text a && f p.direction then units p.amount else 0) + posted f a s.postings)
        same row in
    omega (arith, row', create_postings-posted scan entry ps s₁ s' f a rest h₃)

-- All that is posted in the directions that count, over every account.
abbrev pub ledger_total : (PostingDirection → Bool) → List PostingRow → ℕ
ledger_total counts [] = 0
ledger_total counts (r ∷ rs) =
    (if counts r.direction then r.amount_minor_units else 0) + ledger_total counts rs

create_posting-total :
    (id entry account : Uuid) (d : PostingDirection) (amount : ℤ) (s s' : Store)
    (f : PostingDirection → Bool)
    → create_posting id entry account d amount s ≡ ok s'
    → ledger_total f s'.postings ≡ (if f d then pos_part amount else 0) + ledger_total f s.postings
unfolding create_posting
create_posting-total id entry account d (pos zero) s s' f h = ground arith
create_posting-total id entry account d (pos (suc n)) s s' f h = ground arith
create_posting-total id entry account d (negsuc n) s s' f h = ground arith

pub create_postings-total :
    (scan : Text → Option Uuid) (entry : Uuid) (ps : List Posting) (s s' : Store)
    (f : PostingDirection → Bool)
    → create_postings scan entry ps s ≡ ok s'
    → ledger_total f s'.postings ≡ sum_of f ps + ledger_total f s.postings
unfolding create_postings
create_postings-total scan entry [] s s' f h = ground arith
create_postings-total scan entry (p ∷ ps) s s' f h =
    let (id, _, h₁) = >>=-eq-ok (to_uuid scan p.id) _ h in
    let (account, _, h₂) = >>=-eq-ok (to_uuid scan p.account_id) _ h₁ in
    let write = create_posting id entry account p.direction p.amount.amount_minor_units s in
    let (s₁, wrote, h₃) = >>=-eq-ok (wrap_error write) _ h₂ in
    let row =
      create_posting-total id entry account p.direction p.amount.amount_minor_units s s₁ f
        (wrap_error-eq-ok write s₁ wrote) in
    omega (arith, row, create_postings-total scan entry ps s₁ s' f h₃)
