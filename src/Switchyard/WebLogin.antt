-- ===== src/Switchyard/WebLogin.antt =====
-- cmd/switchyard/login_web.go: the login through a browser. The page, the printed lines and the URL
-- that is opened are left out. The handlers run beside the flow that waits: a save is one event, in
-- any order with the others and also behind the end of the flow; two saves that overlap are left out.
pub mod Laws
use nexus_ai_gateway.Prelude.{
  ℕ, zero, suc, ◌+◌, String, Bool, not, ◌||◌, Option, none, some, List, [], ◌∷◌, ◌==◌,
  if◌then◌else◌, trim_space, trim_end,
}
use nexus_ai_gateway.Domain.Errors.{Err, plain, wrapped, Result, ok, err}
use nexus_ai_gateway.Switchyard.Calls.{Credentials}

-- `callbackPayload`, and the query parameters of the same names.
pub record CallbackPayload : Type 0 where
  pub key : String
  pub project : String
  pub state : String

-- `none` for the body is one that does not decode.
pub record CallbackRequest : Type 0 where
  pub method : String
  pub body : Option CallbackPayload
  pub query : CallbackPayload

pub data CallbackReply : Type 0 where
  preflight invalid_state missing_key save_failed authorized : CallbackReply

unfoldable pub trimmed : CallbackPayload → CallbackPayload
trimmed p = record {
  key = trim_space p.key;
  project = trim_space p.project;
  state = trim_space p.state;
}

unfoldable pub posted : CallbackRequest → Option CallbackPayload
posted r = if r.method == "POST" then r.body else none

unfoldable pub or_query : CallbackPayload → Option CallbackPayload → CallbackPayload
or_query query none = trimmed query
or_query query (some p) = if trim_space p.key == "" then trimmed query else trimmed p

-- What the request presents: its body, or else its query.
unfoldable pub presented : CallbackRequest → CallbackPayload
presented r = or_query r.query (posted r)

unfoldable pub credentials_of : String → CallbackPayload → Credentials
credentials_of gateway_url p = record {
  api_key = p.key;
  project_id = p.project;
  base_url = gateway_url;
  provider_keys = [];
}

-- What comes of `saveCredentials`: `os.WriteFile` empties the file before it writes, so an error comes
-- before the file is touched, or leaves something in it that the next reading finds.
pub data Saving : Type 0 where
  saved : Saving
  not_opened : Err → Saving
  torn : Err → Option Credentials → Saving

-- The reply, what the handler sends on the channel, and the credentials that are stored afterwards.
pub record Handled : Type 0 where
  pub reply : CallbackReply
  pub result : Option (Result Credentials)
  pub stored : Option Credentials

unfoldable pub save_error : Err → Option Credentials → Handled
save_error e stored = record {
  reply = save_failed;
  result = some (err (wrapped "failed to save credentials" e));
  stored = stored;
}

unfoldable pub after_save : Option Credentials → Credentials → Saving → Handled
after_save stored creds saved = record {
  reply = authorized;
  result = some (ok creds);
  stored = some creds;
}
after_save stored creds (not_opened e) = save_error e stored
after_save stored creds (torn e left) = save_error e left

-- The handler of /callback, given what comes of saving.
unfoldable pub callback : String → String → Saving → Option Credentials → CallbackRequest → Handled
callback nonce gateway_url saving stored r =
    let p = presented r in
    if r.method == "OPTIONS"
    then record { reply = preflight; result = none; stored = stored }
    else if p.state == "" || not (p.state == nonce)
    then record { reply = invalid_state; result = none; stored = stored }
    else if p.key == ""
    then record { reply = missing_key; result = none; stored = stored }
    else after_save stored (credentials_of gateway_url p) saving

-- A handler runs up to its sending; the flow takes one of the results that were sent; the five minutes
-- pass; a signal comes.
pub data Event : Type 0 where
  called : Saving → CallbackRequest → Event
  delivered : ℕ → Event
  timed_out interrupted : Event

-- The stored credentials, the results that handlers send, and that of the flow, `none` while it waits.
pub record Login : Type 0 where
  pub stored : Option Credentials
  pub sent : List (Result Credentials)
  pub result : Option (Result Credentials)

-- The flow returns once.
unfoldable pub finish : Option (Result Credentials) → Login → Login
finish found login = elim login.result [ some _ ↦ login | none ↦ record login { result = found } ]

unfoldable pub nth_sent : List (Result Credentials) → ℕ → Option (Result Credentials)
nth_sent [] n = none
nth_sent (r ∷ rs) zero = some r
nth_sent (r ∷ rs) (suc n) = nth_sent rs n

unfoldable pub with_sent :
    Option (Result Credentials) → List (Result Credentials) → List (Result Credentials)
with_sent none sent = sent
with_sent (some r) sent = r ∷ sent

-- One event. A handler that runs on after the flow has returned still saves.
unfoldable pub react : String → String → Event → Login → Login
react nonce url (called saving r) login =
    let h = callback nonce url saving login.stored r in
    record login { stored = h.stored; sent = with_sent h.result login.sent }
react nonce url (delivered n) login = finish (nth_sent login.sent n) login
react nonce url timed_out login =
    finish (some (err (plain "authentication timed out after 5 minutes"))) login
react nonce url interrupted login =
    finish (some (err (plain "authentication cancelled by user"))) login

unfoldable pub await : String → String → Login → List Event → Login
await nonce url login [] = login
await nonce url login (e ∷ events) = await nonce url (react nonce url e login) events

-- The flow at its start, or as it fails before it waits.
unfoldable pub login_with : Option (Result Credentials) → Option Credentials → Login
login_with result stored = record { stored = stored; sent = []; result = result }

-- The first port that can be bound, from a port on, in so many attempts.
unfoldable pub bind_port : (ℕ → Bool) → ℕ → ℕ → Option ℕ
bind_port is_free zero port = none
bind_port is_free (suc n) port =
    let later = bind_port is_free n (port + 1) in if is_free port then some port else later

unfoldable pub with_nonce : Option String → String → Option Credentials → List Event → Login
with_nonce none url stored events =
    login_with (some (err (plain "failed to generate secure state nonce"))) stored
with_nonce (some nonce) url stored events = await nonce url (login_with none stored) events

unfoldable pub base_url_of : String → String
base_url_of url = trim_end b'/' (if url == "" then "http://localhost:8080" else url)

-- `StartWebAuthFlow`, given the ports that can be bound and the random nonce.
unfoldable pub start_web_auth_flow :
    (ℕ → Bool) → Option String → String → Option Credentials → List Event → Login
start_web_auth_flow is_free nonce url stored events = elim (bind_port is_free 11 45454) [
  | none ↦ login_with (some (err (plain "could not bind loopback port for authentication"))) stored
  | some port ↦ with_nonce nonce (base_url_of url) stored events
]
