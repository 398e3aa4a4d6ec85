-- ===== src/Postgres/Solvency/Arithmetic.antt =====
-- The int64 arithmetic of `validateWalletBalances` against plain sums.
use distributed_wallet_ledge.Prelude.{
  ℕ, ◌+◌, ◌-◌, ◌≤◌, ◌≡◌, subst, ap₂, ◌∙◌, ℤ, pos, sub_ℕ, ltb_ℤ, wrap64-eq, ◌+ℤ◌, ◌-ℤ◌, ◌+64◌, ◌-64◌,
  ltb, max_int64, false, arith, Bool-cases, inl, inr,
}

-- A difference of two amounts that fit is exact.
pub sub64-eq : (a b : ℕ) → a ≤ max_int64 → b ≤ max_int64 → pos a -64 pos b ≡ sub_ℕ a b
unfolding ◌-ℤ◌
sub64-eq a b h k = rw (wrap64-eq (pos a -ℤ pos b) (ground arith)) (ground arith)

-- An amount that is added to or taken off a difference whose two sides stay in range.
pub credit-eq :
    (c d n : ℕ) → c + n ≤ max_int64 → d ≤ max_int64 → sub_ℕ c d +64 pos n ≡ sub_ℕ (c + n) d
unfolding ◌+ℤ◌
credit-eq c d n h k = rw (wrap64-eq (sub_ℕ c d +ℤ pos n) (ground arith)) (ground arith)

pub debit-eq :
    (c d n : ℕ) → c ≤ max_int64 → d + n ≤ max_int64 → sub_ℕ c d +64 sub_ℕ 0 n ≡ sub_ℕ c (d + n)
unfolding ◌+ℤ◌
debit-eq c d n h k = rw (wrap64-eq (sub_ℕ c d +ℤ sub_ℕ 0 n) (ground arith)) (ground arith)

-- A sum that may overflow upwards is not negative only if the true sum is not.
pub nonneg_of_wrapped :
    (m x y : ℕ)
    → m ≤ max_int64
    → x ≤ max_int64
    → y ≤ max_int64
    → ltb_ℤ (pos m +64 sub_ℕ x y) (pos 0) ≡ false
    → y ≤ m + x
unfolding ◌+ℤ◌
nonneg_of_wrapped m x y hm hx hy h = elim (Bool-cases (ltb (m + x) y)) [
  | inr fine ↦ ground arith
  | inl short ↦ let e = wrap64-eq (pos m +ℤ sub_ℕ x y) (ground arith) in absurd (ground (arith, e))
]

-- The projected balance of a solvent account is not negative only if the account stays solvent.
pub projected_nonneg :
    (c d k x y : ℕ)
    → c ≤ max_int64
    → x ≤ max_int64
    → y ≤ max_int64
    → d + k ≤ c
    → ltb_ℤ (pos c -64 pos d +64 (pos 0 -64 pos k) +64 sub_ℕ x y) (pos 0) ≡ false
    → (d + y) + k ≤ c + x
projected_nonneg c d k x y hc hx hy solvent h =
    let e₁ = sub64-eq c d hc (omega arith) in
    let e₂ = sub64-eq 0 k (omega arith) (omega arith) in
    let e₃ = debit-eq c d k hc (omega arith) in
    let e₄ : sub_ℕ c (d + k) ≡ pos (c - (d + k)) = ground arith in
    let exact = ap₂ (λ (a b : ℤ). a +64 b) e₁ e₂ ∙ e₃ ∙ e₄ in
    let h' = subst (λ z. ltb_ℤ (z +64 sub_ℕ x y) (pos 0) ≡ false) exact h in
    let rest = nonneg_of_wrapped (c - (d + k)) x y (omega arith) hx hy h' in omega arith
