-- ===== src/Adapters/Http/Handling.antt =====
-- What the handlers of internal/ledger/adapters/http share. `body` is what `httpx.DecodeJSON` makes
-- of the request's body; routing, the texts of messages and logging are left out.
use distributed_wallet_ledge.Prelude.{ℕ, Bool, Text, codes, is_empty, if◌then◌else◌}
use distributed_wallet_ledge.Errors.{Result, ok, err}
use distributed_wallet_ledge.Adapters.Http.Errors.{ErrorMapping, map_application_error}

pub record HttpRequest (B : Type 0) : Type 0 where
  pub is_post : Bool
  pub url_param : Text
  pub idempotency_key : Text
  pub body : Result B

-- A status with a payload, or the status and the code of an error.
pub data Response (A : Type 0) : Type 0 where
  written : ℕ → A → Response A
  failed : ErrorMapping → Response A

abbrev pub status_ok : ℕ
status_ok = 200

abbrev pub status_created : ℕ
status_created = 201

abbrev pub method_not_allowed : ErrorMapping
method_not_allowed = record { status_code = 405; code = codes "method_not_allowed" }

abbrev pub missing_key : ErrorMapping
missing_key = record { status_code = 400; code = codes "empty_idempotency_key" }

abbrev pub invalid_request : ErrorMapping
invalid_request = record { status_code = 400; code = codes "invalid_request" }

abbrev pub Handler {ℓ} : Type ℓ → Type 0 → Type ℓ
Handler S A = S → S × Response A

module _ {ℓ} {S : Type ℓ} {A : Type 0} where
  -- The first guard of a handler that changes state.
  abbrev pub post_only : Bool → Handler S A → Handler S A
  post_only is_post next s = if is_post then next s else (s, failed method_not_allowed)

  abbrev pub with_key : Text → Handler S A → Handler S A
  with_key idempotency_key next s =
      if is_empty idempotency_key then (s, failed missing_key) else next s

  abbrev pub decoded : {B : Type 0} → Result B → (B → Handler S A) → Handler S A
  decoded (ok request) next s = next request s
  decoded (err e) next s = (s, failed invalid_request)

  -- `writeApplicationError` on the error of a constructor.
  abbrev pub parsed : {B : Type 0} → Result B → (B → Handler S A) → Handler S A
  parsed (ok b) next s = next b s
  parsed (err e) next s = (s, failed (map_application_error e))

-- The answer of the use case, written out.
abbrev pub reply {ℓ} : {S : Type ℓ} {A B : Type 0} → ℕ → (A → B) → S × Result A → S × Response B
reply status response (s, ok a) = (s, written status (response a))
reply status response (s, err e) = (s, failed (map_application_error e))
