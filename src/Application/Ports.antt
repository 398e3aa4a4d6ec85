-- ===== src/Application/Ports.antt =====
-- What follows from the success of a chain of calls, and an invariant along it.
use distributed_wallet_ledge.Prelude.{◌≡◌, refl}
use distributed_wallet_ledge.Errors.{Result, ok, err}
use distributed_wallet_ledge.Application.Holds.{Port, then_call, computed}

module _ {ℓ} {S : Type ℓ} {A B : Type 0} where
  pub then_call-eq-ok :
      (first : S × Result A) (next : A → Port S B) {s' : S} {b : B}
      → then_call first next ≡ (s', ok b)
      → (s₁ : S) × (a : A) × (first ≡ (s₁, ok a)) × (next a s₁ ≡ (s', ok b))
  then_call-eq-ok (s₁, ok a) next h = (s₁, a, refl, h)
  then_call-eq-ok (s₁, err e) next h = cc

  pub computed-eq-ok :
      (first : Result A) (next : A → Port S B) (s : S) {s' : S} {b : B}
      → computed first next s ≡ (s', ok b)
      → (a : A) × (first ≡ ok a) × (next a s ≡ (s', ok b))
  computed-eq-ok (ok a) next s h = (a, refl, h)
  computed-eq-ok (err e) next s h = cc

  -- A predicate on states that the two calls keep.
  pub then_call-keeps {κ} :
      (P : S → Type κ) (first : S × Result A) (next : A → Port S B)
      → P first.0
      → ((a : A) (s : S) → first ≡ (s, ok a) → P s → P (next a s).0)
      → P (then_call first next).0
  then_call-keeps P (s, ok a) next old keep = keep a s refl old
  then_call-keeps P (s, err e) next old keep = old

  pub computed-keeps {κ} :
      (P : S → Type κ) (first : Result A) (next : A → Port S B) (s : S)
      → P s
      → ((a : A) → first ≡ ok a → P (next a s).0)
      → P (computed first next s).0
  computed-keeps P (ok a) next s old keep = keep a refl
  computed-keeps P (err e) next s old keep = old
