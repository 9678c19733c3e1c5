-- ===== src/Http/Response.antt =====
-- internal/http/handlers/response.go: how an error becomes a response.
pub mod Laws
use nexus_ai_gateway.Prelude.{
  ℕ, String, Bool, false, Option, none, some, eqb, leb, ◌&&◌, if◌then◌else◌,
}
use nexus_ai_gateway.Domain.Errors.{Err, nil, domain, upstream, Code, code_text, error_text}

pub record ErrorDetail : Type 0 where
  pub code : String
  pub message : String
  pub retryable : Bool
  pub request_id : String

pub record ErrorResponse : Type 0 where
  pub status : ℕ
  pub detail : ErrorDetail

-- The switch over the code.
unfoldable pub status_of : Code → ℕ
status_of Code.not_found = 404
status_of Code.unauthorized = 401
status_of Code.forbidden = 403
status_of Code.bad_request = 400
status_of Code.conflict = 409
status_of Code.rate_limit_exceeded = 429
status_of Code.budget_exceeded = 402
status_of Code.provider_timeout = 504
status_of Code.provider_unavailable = 502
status_of Code.provider_error = 502
status_of _ = 500

-- `WriteHeader` takes a status from 100 to 999, and panics at any other.
unfoldable pub is_status : ℕ → Bool
is_status code = leb 100 code && leb code 999

unfoldable pub with_status : ℕ → ErrorDetail → Option ErrorResponse
with_status code detail =
    if is_status code then some (record { status = code; detail = detail }) else none

-- `writeError`. The type of the error itself is asserted, so a wrapped error counts as unknown;
-- `none` is a panic: of `err.Error()` on nil, or of `WriteHeader` at the status of an upstream error.
unfoldable pub write_error : String → Err → Option ErrorResponse
unfolding status_of
write_error request_id nil = none
write_error request_id (domain code message retryable cause) = some (record {
  status = status_of code;
  detail = record {
    code = code_text code;
    message = message;
    retryable = retryable;
    request_id = request_id;
  };
})
write_error request_id (upstream e) =
    with_status (if eqb e.status_code 0 then status_of Code.provider_error else e.status_code)
      (record {
        code = code_text Code.provider_error;
        message = e.message;
        retryable = e.retryable;
        request_id = request_id;
      })
write_error request_id e = some (record {
  status = status_of Code.internal;
  detail = record {
    code = code_text Code.internal;
    message = error_text e;
    retryable = false;
    request_id = request_id;
  };
})
