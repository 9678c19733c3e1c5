-- ===== src/Examples/Login.antt =====
-- A user logs in for the first time, and a key is rotated.
use nexus_ai_gateway.Prelude.{
  String, ◌^◌, ◌≡◌, refl, true, false, none, some, [], ◌∷◌, ◌==◌, strip_prefix, trim_space,
}
use nexus_ai_gateway.Domain.Errors.{nil, plain, ok}
use nexus_ai_gateway.Domain.Keys.{is_active, is_expired}
use nexus_ai_gateway.Auth.Keys.{environment_prefix}
use nexus_ai_gateway.Storage.Rows.{find_row}
use nexus_ai_gateway.Storage.Tenancy.{Tables, has_hash}
use nexus_ai_gateway.Http.Provision.{Access}
use nexus_ai_gateway.Http.Supabase.{
  SupabaseUser, replied, Supabase, CliAuth, validate_supabase_token, judge_reply, decoded_user,
}
use nexus_ai_gateway.Http.AuthCli.{
  CliRequest, CliSurroundings, bearer_token, token_of, serve_cli_key, rotate_key,
}
use nexus_ai_gateway.Http.AuthCli.Laws.{IsRotated, rotate_key-IsRotated}
use nexus_ai_gateway.Http.AuthCli.Issued.{IsIssued, serve_cli_key-IsIssued}
use nexus_ai_gateway.Examples.Data.{api_key, project, organization}

abbrev hash : String → String
hash s = "h:" ^ s

-- Redis and the like are not met here; the revocation fails.
abbrev offline : CliSurroundings
offline = record {
  now = 10;
  uuid = "2";
  random = some "b";
  lookup_fault = nil;
  revoke_fault = plain "connection reset";
  store_fault = nil;
}

bearer : trim_space (bearer_token "Bearer ngk_live_a") ≡ "ngk_live_a"
unfolding trim_space bearer_token strip_prefix
bearer = refl

token-full : (trim_space (bearer_token "Bearer ngk_live_a") == "") ≡ false
unfolding trim_space bearer_token strip_prefix
token-full = refl

stored :
    find_row (has_hash (hash (trim_space (bearer_token "Bearer ngk_live_a")))) (api_key ∷ [])
    ≡ some api_key
unfolding trim_space bearer_token strip_prefix find_row has_hash
stored = refl

unused : find_row (has_hash (hash (environment_prefix "live" ^ "b"))) (api_key ∷ []) ≡ none
unfolding find_row has_hash environment_prefix
unused = refl

live : is_active offline.now api_key ≡ true
unfolding is_active is_expired
live = refl

rotate_key-IsRotated_example :
    IsRotated hash offline "b" api_key
      (hash (trim_space (bearer_token "Bearer ngk_live_a")))
      (rotate_key hash offline "r1" "Bearer ngk_live_a" (api_key ∷ []))
rotate_key-IsRotated_example =
    rotate_key-IsRotated hash offline "b" "r1" "Bearer ngk_live_a" api_key (api_key ∷ []) token-full
      stored live unused refl refl refl

abbrev user : SupabaseUser
user = record { id = "u1"; email = "ann@example.org" }

abbrev supabase : Supabase
supabase = λ url headers. replied 200 "{}" (ok user)

abbrev login : CliAuth
login = record { supabase_url = "http://supabase"; supabase_key = "" }

abbrev post : CliRequest
post = record { method = "POST"; authorization = "Bearer t"; body_token = none }

abbrev tables : Tables
tables = record { organizations = organization ∷ []; projects = project ∷ []; keys = api_key ∷ [] }

abbrev steady : {A : Type 0} → Access A
steady = record { read_fault = nil; create_fault = nil; reread_fault = nil; others = λ rows. rows }

accepted : validate_supabase_token supabase login (token_of post) ≡ ok user
unfolding validate_supabase_token judge_reply decoded_user
accepted = refl

post-full : (token_of post == "") ≡ false
unfolding token_of trim_space bearer_token strip_prefix
post-full = refl

serve_cli_key-IsIssued_example :
    IsIssued hash offline "b" user tables
      (serve_cli_key hash offline "r1" steady steady supabase login post tables)
serve_cli_key-IsIssued_example =
    serve_cli_key-IsIssued hash offline "b" "r1" steady steady user tables refl refl unused supabase
      login post refl post-full accepted (refl, refl) (refl, refl) (λ h. h) (λ h. h)
