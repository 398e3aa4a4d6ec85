-- ===== src/Prelude/Texts.antt =====
-- Go strings as lists of Unicode code points, with the functions of package `strings` that the
-- program calls: `TrimSpace` with the whole of `unicode.IsSpace`, and `ToUpper`.
use Prim.Native.Nat.{ℕ, ◌+◌, ◌-◌}
use Prim.Native.Char.{code}
use Prim.Native.String.{String}
use mathlib.Core.Path.{◌≡◌, refl}
use mathlib.Core.Logic.{◌↔◌, ◌≢◌, inl, inr}
use mathlib.Core.Bool.{Bool, true, false, ◌&&◌, ◌||◌}
use mathlib.Core.List.{List, [], ◌∷◌, map}
use native.Mathlib.Omega.{arith}
use distributed_wallet_ledge.Prelude.Tests.{Bool-cases, leb, ◌==◌, if◌then◌else◌}

abbrev pub Text : Type 0
Text = List ℕ

-- The text of a literal.
abbrev pub codes : String → Text
codes String.[] = []
codes (String.◌∷◌ c s) = code c ∷ codes s

abbrev pub is_empty {ℓ} : {A : Type ℓ} → List A → Bool
is_empty [] = true
is_empty (_ ∷ _) = false

infix 50 ◌=text◌
abbrev pub ◌=text◌ : Text → Text → Bool
[] =text [] = true
[] =text (d ∷ t) = false
(c ∷ s) =text [] = false
(c ∷ s) =text (d ∷ t) = c == d && s =text t

pub =text_eq : (s t : Text) → (s =text t) ≡ true → s ≡ t
=text_eq [] [] h = refl
=text_eq [] (d ∷ t) h = cc
=text_eq (c ∷ s) [] h = cc
=text_eq (c ∷ s) (d ∷ t) h = ground (arith, =text_eq s t)

pub =text_refl : (s : Text) → (s =text s) ≡ true
=text_refl [] = refl
=text_refl (c ∷ s) = ground (arith, =text_refl s)

pub =text_iff : (s t : Text) → ((s =text t) ≡ true) ↔ (s ≡ t)
=text_iff s t = (=text_eq s t, λ e. rw e (=text_refl t))

pub =text_ne : (s t : Text) → s ≢ t → (s =text t) ≡ false
=text_ne s t h = elim (Bool-cases (s =text t)) [
  | inl same ↦ absurd (h (=text_eq s t same))
  | inr different ↦ different
]

pub =text_comm : (s t : Text) → (s =text t) ≡ (t =text s)
=text_comm [] [] = refl
=text_comm [] (d ∷ t) = refl
=text_comm (c ∷ s) [] = refl
=text_comm (c ∷ s) (d ∷ t) = ground (arith, =text_comm s t)

-- `unicode.IsSpace`.
unfoldable pub is_space : ℕ → Bool
is_space c =
    (leb 9 c && leb c 13)
    || c == 32
    || c == 0x85
    || c == 0xA0
    || c == 0x1680
    || (leb 0x2000 c && leb c 0x200A)
    || c == 0x2028
    || c == 0x2029
    || c == 0x202F
    || c == 0x205F
    || c == 0x3000

unfoldable pub trim_left : Text → Text
trim_left [] = []
trim_left (c ∷ s) = if is_space c then trim_left s else c ∷ s

abbrev pub cons_unless_blank : ℕ → Text → Text
cons_unless_blank c [] = if is_space c then [] else c ∷ []
cons_unless_blank c (d ∷ s) = c ∷ d ∷ s

unfoldable pub trim_right : Text → Text
trim_right [] = []
trim_right (c ∷ s) = cons_unless_blank c (trim_right s)

-- `strings.TrimSpace`.
unfoldable pub trim_space : Text → Text
unfolding trim_left trim_right
trim_space s = trim_right (trim_left s)

-- `unicode.ToUpper` on ASCII and on the two other runes whose upper case is ASCII, ı and ſ. Any
-- other rune has an upper case outside ASCII, and stands for it.
unfoldable pub upper_rune : ℕ → ℕ
upper_rune c =
    if leb b'a' c && leb c b'z'
    then c - 32
    else if c == 0x131
    then b'I'
    else if c == 0x17F
    then b'S'
    else c

-- `strings.ToUpper`.
unfoldable pub to_upper : Text → Text
unfolding upper_rune
to_upper = map upper_rune

-- The number of bytes of a code point in UTF-8.
unfoldable pub rune_len : ℕ → ℕ
rune_len c = if leb c 0x7F then 1 else if leb c 0x7FF then 2 else if leb c 0xFFFF then 3 else 4

-- `len(s)`: Go counts bytes.
unfoldable pub byte_len : Text → ℕ
unfolding rune_len
byte_len [] = 0
byte_len (c ∷ s) = rune_len c + byte_len s

abbrev starts_blank : Text → Bool
starts_blank [] = false
starts_blank (c ∷ s) = is_space c

starts_blank-trim_left : (s : Text) → starts_blank (trim_left s) ≡ false
unfolding trim_left
starts_blank-trim_left [] = refl
starts_blank-trim_left (c ∷ s) = ground (arith, starts_blank-trim_left s)

starts_blank-cons :
    (c : ℕ) (r : Text) → is_space c ≡ false → starts_blank (cons_unless_blank c r) ≡ false
starts_blank-cons c [] h = ground arith
starts_blank-cons c (d ∷ r) h = h

starts_blank-trim_right : (s : Text) → starts_blank s ≡ false → starts_blank (trim_right s) ≡ false
unfolding trim_right
starts_blank-trim_right [] h = refl
starts_blank-trim_right (c ∷ s) h = starts_blank-cons c (trim_right s) h

trim_left-eq : (s : Text) → starts_blank s ≡ false → trim_left s ≡ s
unfolding trim_left
trim_left-eq [] h = refl
trim_left-eq (c ∷ s) h = ground arith

trim_right-cons :
    (c : ℕ) (r : Text)
    → trim_right r ≡ r
    → trim_right (cons_unless_blank c r) ≡ cons_unless_blank c r
unfolding trim_right
trim_right-cons c [] h = ground arith
trim_right-cons c (d ∷ r) h = rw h

trim_right-trim_right : (s : Text) → trim_right (trim_right s) ≡ trim_right s
unfolding trim_right
trim_right-trim_right [] = refl
trim_right-trim_right (c ∷ s) = trim_right-cons c (trim_right s) (trim_right-trim_right s)

-- Trimming again changes nothing.
pub trim_space-trim_space : (s : Text) → trim_space (trim_space s) ≡ trim_space s
unfolding trim_space
trim_space-trim_space s =
    rw
      (trim_left-eq (trim_right (trim_left s))
        (starts_blank-trim_right (trim_left s) (starts_blank-trim_left s)))
      (trim_right-trim_right (trim_left s))
