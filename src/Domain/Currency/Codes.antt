-- ===== src/Domain/Currency/Codes.antt =====
-- Reading a currency code.
use distributed_wallet_ledge.Prelude.{
  ℕ, ◌≤◌, ◌≡◌, ◌↔◌, refl, sym, ap, subst, All, Bool, true, false, ◌&&◌, [], ◌∷◌, Text, leb, arith,
  is_space, trim_left, trim_right, trim_space, upper_rune, to_upper, rune_len, byte_len, length,
}
use distributed_wallet_ledge.Errors.{ok, ◌>>◌, checked-eq-ok}
use distributed_wallet_ledge.Domain.Currency
use distributed_wallet_ledge.Domain.Currency.{Currency, all_letters}

abbrev is_letter : ℕ → Bool
is_letter r = leb b'A' r && leb r b'Z'

letter_facts :
    (r : ℕ) → is_letter r ≡ true → (is_space r ≡ false) × (upper_rune r ≡ r) × (rune_len r ≡ 1)
unfolding is_space upper_rune rune_len
letter_facts r h = (ground arith, ground arith, ground arith)

trim_left-letters : (s : Text) → all_letters s ≡ true → trim_left s ≡ s
unfolding trim_left all_letters
trim_left-letters [] h = refl
trim_left-letters (r ∷ s) h = ground (arith, letter_facts r)

trim_right-letters : (s : Text) → all_letters s ≡ true → trim_right s ≡ s
unfolding trim_right all_letters
trim_right-letters [] h = refl
trim_right-letters (r ∷ []) h = ground (arith, letter_facts r)
trim_right-letters (r ∷ q ∷ s) h = rw (trim_right-letters (q ∷ s) (ground arith))

trim_space-letters : (s : Text) → all_letters s ≡ true → trim_space s ≡ s
unfolding trim_space
trim_space-letters s h = rw (trim_left-letters s h) (trim_right-letters s h)

to_upper-letters : (s : Text) → all_letters s ≡ true → to_upper s ≡ s
unfolding to_upper all_letters
to_upper-letters [] h = refl
to_upper-letters (r ∷ s) h = ground (arith, letter_facts r, to_upper-letters s)

byte_len-letters : (s : Text) → all_letters s ≡ true → byte_len s ≡ length s
unfolding byte_len all_letters
byte_len-letters [] h = refl
byte_len-letters (r ∷ s) h = ground (arith, letter_facts r, byte_len-letters s)

-- A currency is valid exactly when its code has three letters from A to Z.
pub validate_iff :
    (c : Currency)
    → (Currency.validate c ≡ ok tt) ↔ ((length c.code ≡ 3) × (all_letters c.code ≡ true))
unfolding Currency.validate
validate_iff c = ground (arith, byte_len-letters c.code)

-- The code of a valid currency reads back as that currency.
pub new_currency-code :
    (c : Currency) → Currency.validate c ≡ ok tt → Currency.new_currency c.code ≡ ok c
unfolding Currency.new_currency
new_currency-code c v =
    let letters = ((validate_iff c).0 v).1 in
    rw (trim_space-letters c.code letters, to_upper-letters c.code letters, v)

-- A capital letter of ASCII.
abbrev pub IsCapital : ℕ → Type 0
IsCapital r = (65 ≤ r) × (r ≤ 90)

all_letters-IsCapital : (s : Text) → (all_letters s ≡ true) ↔ All IsCapital s
unfolding all_letters
all_letters-IsCapital [] = (λ h. tt, λ h. refl)
all_letters-IsCapital (r ∷ s) = (
  λ h. ((ground (arith, h), ground (arith, h)), (all_letters-IsCapital s).0 (ground (arith, h))),
  λ (capital, rest). ground (arith, capital.0, capital.1, (all_letters-IsCapital s).1 rest),
)

-- `NewCurrency` answers a currency exactly when its code is the text without the spaces around it
-- and in upper case, and that has three runes, each of them a capital letter of ASCII.
pub new_currency_iff :
    (s : Text) (c : Currency)
    → (Currency.new_currency s ≡ ok c)
      ↔ ((c.code ≡ to_upper (trim_space s)) × (length c.code ≡ 3) × All IsCapital c.code)
unfolding Currency.new_currency
new_currency_iff s c = (
  λ h.
      let (valid, same) = checked-eq-ok (Currency.validate _) _ c h in
      let v = subst (λ d. Currency.validate d ≡ ok tt) same valid in
      let (three, letters) = (validate_iff c).0 v in
      (ap (λ (d : Currency). d.code) (sym same), three, (all_letters-IsCapital c.code).0 letters),
  λ (code, three, capitals).
      let v = (validate_iff c).1 (three, (all_letters-IsCapital c.code).1 capitals) in
      let same : record { code = to_upper (trim_space s) } ≡ c =
        λ i. record { code = sym code i } in
      subst (λ (d : Currency). (do Currency.validate d; ok d) ≡ ok c) (sym same) (rw v refl),
)
