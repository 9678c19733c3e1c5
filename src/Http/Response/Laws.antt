-- ===== src/Http/Response/Laws.antt =====
-- Every error is answered with an error status, and how the audit record differs from the answer.
use nexus_ai_gateway.Prelude.{
  ℕ, ◌≤◌, ◌<◌, String, ◌≡◌, ◌≢◌, refl, arith, true, some, ◌⊎◌, inl, inr, eqb, if◌then◌else◌,
}
use nexus_ai_gateway.Domain.Errors.{
  Err, nil, domain, upstream, wrapped, plain, Code, ProviderError, code_of, code_text,
}
use nexus_ai_gateway.Domain.Requests.{RequestRecord, fail}
use nexus_ai_gateway.Http.Response.{ErrorResponse, is_status, with_status, status_of, write_error}

-- The status of a provider error is one that can be sent: none, or one from 100 to 999.
abbrev pub IsSendable : Err → Type 0
IsSendable nil = ⊥
IsSendable (upstream e) = (e.status_code ≡ 0) ⊎ ((100 ≤ e.status_code) × (e.status_code ≤ 999))
IsSendable _ = Unit

sendable-status :
    (code : ℕ)
    → (code ≡ 0) ⊎ ((100 ≤ code) × (code ≤ 999))
    → is_status (if eqb code 0 then status_of Code.provider_error else code) ≡ true
unfolding is_status status_of
sendable-status code h = ground arith

abbrev upstream_reply : String → ProviderError → ErrorResponse
upstream_reply request_id e = record {
  status = if eqb e.status_code 0 then status_of Code.provider_error else e.status_code;
  detail = record {
    code = code_text Code.provider_error;
    message = e.message;
    retryable = e.retryable;
    request_id = request_id;
  };
}

-- Such an error is answered.
pub write_error-some :
    (request_id : String) (e : Err)
    → IsSendable e
    → (reply : ErrorResponse) × (write_error request_id e ≡ some reply)
unfolding write_error with_status
write_error-some request_id nil h = elim h [ ]
write_error-some request_id (domain code message retryable cause) h = (_, refl)
write_error-some request_id (upstream e) h =
    (upstream_reply request_id e, rw (sendable-status e.status_code h) refl)
write_error-some request_id (wrapped prefix cause) h = (_, refl)
write_error-some request_id (plain message) h = (_, refl)

-- The status of a provider error is that of a failed call: none, or one from 400 to 599.
abbrev pub IsFailure : Err → Type 0
IsFailure (upstream e) = (e.status_code ≡ 0) ⊎ ((400 ≤ e.status_code) × (e.status_code < 600))
IsFailure _ = Unit

status_of-bounds : (c : Code) → (400 ≤ status_of c) × (status_of c < 600)
unfolding status_of
status_of-bounds Code.empty = omega arith
status_of-bounds _ = omega arith

failure-sendable :
    (code : ℕ)
    → (code ≡ 0) ⊎ ((400 ≤ code) × (code < 600))
    → (code ≡ 0) ⊎ ((100 ≤ code) × (code ≤ 999))
failure-sendable code (inl h) = inl h
failure-sendable code (inr (lo, hi)) = inr (omega (arith, lo), omega (arith, hi))

-- Any error but nil is answered with a status from 400 to 599 and the request's identifier, if an
-- upstream error has no status or one from 400 to 599 itself.
pub write_error-status :
    (request_id : String) (e : Err)
    → e ≢ nil
    → IsFailure e
    → (reply : ErrorResponse) × (write_error request_id e ≡ some reply)
      × (400 ≤ reply.status)
      × (reply.status < 600)
      × (reply.detail.request_id ≡ request_id)
unfolding write_error with_status
write_error-status request_id nil n f = absurd (n refl)
write_error-status request_id (domain code message retryable cause) n f =
    let (lo, hi) = status_of-bounds code in (_, refl, lo, hi, refl)
write_error-status request_id (upstream e) n f = (
  upstream_reply request_id e,
  rw (sendable-status e.status_code (failure-sendable e.status_code f)) refl,
  ground (arith, status_of-bounds Code.provider_error),
  ground (arith, status_of-bounds Code.provider_error),
  refl,
)
write_error-status request_id (wrapped prefix cause) n f =
    let (lo, hi) = status_of-bounds Code.internal in (_, refl, lo, hi, refl)
write_error-status request_id (plain text) n f =
    let (lo, hi) = status_of-bounds Code.internal in (_, refl, lo, hi, refl)

-- A failure of the provider with a status from 100 to 999 is answered as one, with its own status,
-- message and mark; the audit record of the same failure says "internal_error" and "failed", a
-- timeout included.
pub upstream-recorded_as_internal :
    (request_id : String) (e : ProviderError) (r : RequestRecord) (latency : ℕ)
    → 100 ≤ e.status_code
    → e.status_code ≤ 999
    → ((reply : ErrorResponse) × (write_error request_id (upstream e) ≡ some reply)
        × (reply.status ≡ e.status_code)
        × (reply.detail.code ≡ "provider_error")
        × (reply.detail.message ≡ e.message)
        × (reply.detail.retryable ≡ e.retryable))
      × ((fail r (code_of (upstream e)) latency).error_code ≡ "internal_error")
      × ((fail r (code_of (upstream e)) latency).status ≡ "failed")
unfolding write_error with_status code_text fail code_of
upstream-recorded_as_internal request_id e r latency lo hi = (
  (
    upstream_reply request_id e,
    rw (sendable-status e.status_code (inr (lo, hi))) refl,
    ground arith,
    refl,
    refl,
    refl,
  ),
  refl,
  refl,
)
