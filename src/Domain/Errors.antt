-- ===== src/Domain/Errors.antt =====
-- internal/domain/errors.go, with the error values of the rest of the program: Go's `error` is one
-- type here, and its `nil` a constructor. `ProviderError` is that of internal/provider/provider.go.
use nexus_ai_gateway.Prelude.{ℕ, String, ◌^◌, Bool, true, false, Option, none, some, decimal}

-- `Code.empty` is the zero value "" of the string type.
pub data Code : Type 0 where
  empty not_found unauthorized forbidden bad_request conflict provider_error : Code
  provider_timeout provider_unavailable rate_limit_exceeded budget_exceeded internal : Code

unfoldable pub code_text : Code → String
code_text Code.empty = ""
code_text Code.not_found = "not_found"
code_text Code.unauthorized = "unauthorized"
code_text Code.forbidden = "forbidden"
code_text Code.bad_request = "bad_request"
code_text Code.conflict = "conflict"
code_text Code.provider_error = "provider_error"
code_text Code.provider_timeout = "provider_timeout"
code_text Code.provider_unavailable = "provider_unavailable"
code_text Code.rate_limit_exceeded = "rate_limit_exceeded"
code_text Code.budget_exceeded = "budget_exceeded"
code_text Code.internal = "internal_error"

pub record ProviderError : Type 0 where
  pub status_code : ℕ
  pub message : String
  pub retryable : Bool
  pub provider : String

-- `domain code message retryable cause`, `upstream e` for `*provider.ProviderError`,
-- `wrapped prefix cause` for `fmt.Errorf("prefix: %w", cause)`, and `plain` for any other error.
pub data Err : Type 0 where
  nil : Err
  domain : Code → String → Bool → Err → Err
  upstream : ProviderError → Err
  wrapped : String → Err → Err
  plain : String → Err

unfoldable pub is_default_retryable : Code → Bool
is_default_retryable Code.provider_timeout = true
is_default_retryable Code.provider_unavailable = true
is_default_retryable _ = false

unfoldable pub new : Code → String → Err
unfolding is_default_retryable
new code message = domain code message (is_default_retryable code) nil

unfoldable pub wrap : Code → String → Err → Err
unfolding is_default_retryable
wrap code message cause = domain code message (is_default_retryable code) cause

unfoldable pub err_not_found : Err
unfolding new
err_not_found = new Code.not_found "resource not found"

unfoldable pub err_unauthorized : Err
unfolding new
err_unauthorized = new Code.unauthorized "invalid or missing API key"

unfoldable pub err_forbidden : Err
unfolding new
err_forbidden = new Code.forbidden "insufficient permissions for this action"

unfoldable pub err_rate_limit_exceeded : Err
unfolding new
err_rate_limit_exceeded = new Code.rate_limit_exceeded "rate limit exceeded, please slow down"

unfoldable pub err_key_expired : Err
unfolding new
err_key_expired = new Code.unauthorized "API key has expired"

unfoldable pub err_key_revoked : Err
unfolding new
err_key_revoked = new Code.unauthorized "API key has been revoked"

-- `Error()`: the text of an error. A call on `nil` panics in Go; callers test it first.
unfoldable pub error_text : Err → String
unfolding code_text
error_text nil = ""
error_text (domain code message retryable nil) = code_text code ^ (": " ^ message)
error_text (domain code message retryable cause) =
    code_text code ^ (": " ^ (message ^ (" (cause: " ^ (error_text cause ^ ")"))))
error_text (upstream e) =
    "provider error [" ^ (e.provider ^ (", HTTP " ^ (decimal e.status_code ^ ("]: " ^ e.message))))
error_text (wrapped prefix cause) = prefix ^ (": " ^ error_text cause)
error_text (plain text) = text

-- `errors.As(err, &domErr)`: code and mark of the outermost domain error of the chain.
unfoldable pub as_domain : Err → Option (Code × Bool)
as_domain nil = none
as_domain (domain code message retryable cause) = some (code, retryable)
as_domain (upstream e) = none
as_domain (wrapped prefix cause) = as_domain cause
as_domain (plain text) = none

retryable_of : Option (Code × Bool) → Bool
retryable_of none = false
retryable_of (some (code, retryable)) = retryable

unfoldable pub is_retryable : Err → Bool
unfolding as_domain retryable_of
is_retryable err = retryable_of (as_domain err)

code_or_internal : Option (Code × Bool) → Code
code_or_internal none = Code.internal
code_or_internal (some (code, retryable)) = code

unfoldable pub code_of : Err → Code
unfolding as_domain code_or_internal
code_of nil = Code.empty
code_of err = code_or_internal (as_domain err)

-- `IsRetryable` of internal/provider/provider.go: a type assertion, not `errors.As`.
unfoldable pub is_provider_retryable : Err → Bool
is_provider_retryable (upstream e) = e.retryable
is_provider_retryable _ = false

-- What a function with results `(A, error)` returns, where it returns one or the other.
pub data Result {ℓ} (A : Type ℓ) : Type ℓ where
  ok : A → Result A
  err : Err → Result A
