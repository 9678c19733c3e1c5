-- ===== src/Provider/Adapter.antt =====
-- internal/provider/{openai,anthropic,gemini}/adapter.go: what the three adapters have in common. The
-- three packages spell these steps out in the same words, and differ in their wire formats, which
-- are the types `Q` of a request and `R` of a response. JSON and HTTP are parameters.
pub mod Laws
use nexus_ai_gateway.Prelude.{
  ℕ, String, ◌^◌, Bool, true, false, not, ◌||◌, Option, none, some, List, [], ◌∷◌, eqb, ◌==◌,
  if◌then◌else◌, lookup, trim_end,
}
use nexus_ai_gateway.Domain.Errors.{Err, nil, upstream, wrapped, Result, ok, err}
use nexus_ai_gateway.Provider.{ChatResponse, Answer, ChatChunk}
use nexus_ai_gateway.Provider.Stream.{Feed}

-- The HTTP client has no state that the code reads: it is a parameter.
pub record Adapter : Type 0 where
  pub base_url : String
  pub api_key : String

unfoldable pub new_with_default : String → String → String → Adapter
new_with_default default base_url api_key = record {
  base_url = trim_end b'/' (if base_url == "" then default else base_url);
  api_key = api_key;
}

unfoldable pub is_status_code_retryable : ℕ → Bool
is_status_code_retryable code =
    eqb code 429 || eqb code 500 || eqb code 502 || eqb code 503 || eqb code 504

-- The caller's own key, if there is one that is not empty.
unfoldable pub custom_key : List (String × String) → String → Option String
custom_key keys name = elim (lookup name keys) [
  | none ↦ none
  | some key ↦ if key == "" then none else some key
]

unfoldable pub key_or : String → Option String → String
key_or default none = default
key_or default (some key) = key

-- A header is set only to a value that is not empty; `prefix` stands before the value.
unfoldable pub optional_header : String → String → String → List (String × String)
optional_header name prefix value = if value == "" then [] else (name, prefix ^ value) ∷ []

pub record HttpRequest : Type 0 where
  pub method : String
  pub url : String
  pub headers : List (String × String)
  pub body : String

-- `bytes` is what `io.ReadAll` reads of the body, up to `read_error`; `feed` is the same body, read
-- by lines.
pub record HttpResponse : Type 0 where
  pub status : ℕ
  pub bytes : String
  pub read_error : Err
  pub feed : Feed

-- What `httpClient.Do` returns: the text of an error, or a response.
pub data Exchange : Type 0 where
  unreachable : String → Exchange
  answered : HttpResponse → Exchange

-- `json.Marshal`; the error of `http.NewRequestWithContext`; `Do` at the n-th call of one request;
-- `json.Unmarshal`, which fills what it can before it fails.
pub record Transport (Q : Type 0) (R : Type 0) : Type 0 where
  pub marshal : Q → Result String
  pub build_error : HttpRequest → Err
  pub send : ℕ → HttpRequest → Exchange
  pub unmarshal : String → R × Err

unfoldable pub is_nil : Err → Bool
is_nil nil = true
is_nil _ = false

unfoldable pub refused : String → ℕ → String → Err
refused id status message = upstream record {
  status_code = status;
  message = message;
  retryable = is_status_code_retryable status;
  provider = id;
}

unfoldable pub timed_out : String → String → Err
timed_out id message =
    upstream record { status_code = 504; message = message; retryable = true; provider = id }

-- The message of the service's own error, and the raw body where it gives none.
unfoldable pub failure_text : Option String → String → String
failure_text none bytes = bytes
failure_text (some message) bytes = if message == "" then bytes else message

-- The texts of `fmt.Errorf`, in which the packages differ.
pub record Texts : Type 0 where
  pub marshal_failed : String
  pub read_failed : String
  pub decode_failed : String

module _ {Q R : Type 0} (id : String) (texts : Texts) (transport : Transport Q R) where
  -- The body is encoded, and the HTTP request made from it.
  unfoldable pub prepare : Q → (String → HttpRequest) → Result HttpRequest
  prepare wire make = elim (transport.marshal wire) [
    | err e ↦ err (wrapped texts.marshal_failed e)
    | ok body ↦
        if is_nil (transport.build_error (make body))
        then ok (make body)
        else err (wrapped "failed to create http request" (transport.build_error (make body)))
  ]

  module _ (error_of : R → Option String) (respond : R → ChatResponse) where
    unfoldable pub decoded : R × Err → Answer
    decoded reply =
        if is_nil reply.1
        then (some (respond reply.0), nil)
        else (none, wrapped texts.decode_failed reply.1)

    unfoldable pub received : HttpResponse → Answer
    received r =
        if not (is_nil r.read_error)
        then (none, wrapped texts.read_failed r.read_error)
        else if not (eqb r.status 200)
        then (
          none,
          refused id r.status (failure_text (error_of (transport.unmarshal r.bytes).0) r.bytes),
        )
        else decoded (transport.unmarshal r.bytes)

    unfoldable pub exchanged : Exchange → Answer
    exchanged (unreachable message) = (none, timed_out id message)
    exchanged (answered r) = received r

    -- `Chat`, from the encoding of its request on.
    unfoldable pub complete_chat : ℕ → Result HttpRequest → Answer
    complete_chat call (err e) = (none, e)
    complete_chat call (ok request) = exchanged (transport.send call request)

  -- `StreamChat`: the channel is the list of what is sent on it until it is closed.
  unfoldable pub open_stream : (Feed → List ChatChunk) → Exchange → Result (List ChatChunk)
  open_stream chunks (unreachable message) = err (timed_out id message)
  open_stream chunks (answered r) =
      if not (eqb r.status 200) then err (refused id r.status r.bytes) else ok (chunks r.feed)

  unfoldable pub start_stream :
      (Feed → List ChatChunk) → ℕ → Result HttpRequest → Result (List ChatChunk)
  start_stream chunks call (err e) = err e
  start_stream chunks call (ok request) = open_stream chunks (transport.send call request)
