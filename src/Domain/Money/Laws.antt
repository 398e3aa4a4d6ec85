-- ===== src/Domain/Money/Laws.antt =====
-- What `Money.Add` computes: exact addition within int64, and an error beyond.
use distributed_wallet_ledge.Prelude.{
  ℕ, ◌+◌, ◌-◌, ◌≤◌, ◌≡◌, refl, ap, true, ℤ, pos, negsuc, pos_part, wrap64, wrap64-eq, ◌+ℤ◌, ◌-ℤ◌,
  leb, max_int64, if◌then◌else◌, =text_eq, =text_refl, arith,
}
use distributed_wallet_ledge.Errors.{ok, err, amount_overflow}
use distributed_wallet_ledge.Domain.Currency
use distributed_wallet_ledge.Domain.Currency.{Currency}
use distributed_wallet_ledge.Domain.Money
use distributed_wallet_ledge.Domain.Money.{Money}

pub equal-eq : (c d : Currency) → Currency.equal c d ≡ true → c ≡ d
equal-eq c d h =
    ap (λ (t : _). let r : Currency = record { code = t } in r) (=text_eq c.code d.code h)

pub equal_refl : (c : Currency) → Currency.equal c c ≡ true
equal_refl c = =text_refl c.code

-- The amount of a money that is not negative.
abbrev pub units : Money → ℕ
units m = pos_part m.amount_minor_units

abbrev pub money : Currency → ℕ → Money
money c n = record { currency = c; amount_minor_units = pos n }

abbrev with_amount : Currency → ℤ → Money
with_amount c z = record { currency = c; amount_minor_units = z }

nonneg-eq : (c : Currency) (z : ℤ) → Money.validate (with_amount c z) ≡ ok tt → z ≡ pos (pos_part z)
unfolding Money.validate
nonneg-eq c (pos n) h = refl
nonneg-eq c (negsuc n) h = ground arith

pub validate-units : (m : Money) → Money.validate m ≡ ok tt → m ≡ money m.currency (units m)
validate-units m h = ap (with_amount m.currency) (nonneg-eq m.currency m.amount_minor_units h)

room_left : (n : ℕ) → n ≤ max_int64 → wrap64 (pos max_int64 -ℤ pos n) ≡ pos (max_int64 - n)
unfolding ◌-ℤ◌
room_left n h = rw (wrap64-eq (pos max_int64 -ℤ pos n) (ground arith)) (ground arith)

sum_fits : (a b : ℕ) → a + b ≤ max_int64 → wrap64 (pos a +ℤ pos b) ≡ pos (a + b)
unfolding ◌+ℤ◌
sum_fits a b h = rw (wrap64-eq (pos a +ℤ pos b) (ground arith)) (ground arith)

pub validate-money :
    (c : Currency) (n : ℕ) → Currency.validate c ≡ ok tt → Money.validate (money c n) ≡ ok tt
unfolding Money.validate
validate-money c n v = rw v (ground arith)

-- In a valid currency, two amounts of which the first is in range add up exactly if the sum fits in
-- an int64, and are an overflow error if not.
pub add-money :
    (c : Currency) (a b : ℕ)
    → Currency.validate c ≡ ok tt
    → a ≤ max_int64
    → Money.add (money c a) (money c b)
      ≡ (if leb (a + b) max_int64 then ok (money c (a + b)) else err amount_overflow)
unfolding Money.add
add-money c a b v h =
    ground
      (arith, validate-money c a v, validate-money c b v, equal_refl c, room_left a h, sum_fits a b)
