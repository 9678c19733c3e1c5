-- ===== src/Http/Supabase.antt =====
-- internal/http/handlers/auth_cli.go: `validateSupabaseToken`. Supabase is a parameter.
use nexus_ai_gateway.Prelude.{
  ℕ, String, ◌^◌, not, List, [], ◌∷◌, ◌==◌, eqb, if◌then◌else◌, trim_end, decimal,
}
use nexus_ai_gateway.Domain.Errors.{Err, wrapped, plain, Result, ok, err}

pub record SupabaseUser : Type 0 where
  pub id : String
  pub email : String

-- What comes of the request to Supabase: it cannot be made, it is not answered, or it is answered
-- with a status, a body, and what the JSON decoder makes of the body.
pub data SupabaseReply : Type 0 where
  unmade : Err → SupabaseReply
  unanswered : Err → SupabaseReply
  replied : ℕ → String → Result SupabaseUser → SupabaseReply

-- The URL and the headers, to the reply.
abbrev pub Supabase : Type 0
Supabase = String → List (String × String) → SupabaseReply

-- Where Supabase is, and the key that the gateway presents there.
pub record CliAuth : Type 0 where
  pub supabase_url : String
  pub supabase_key : String

unfoldable pub new_cli_auth : String → String → CliAuth
new_cli_auth url key = record { supabase_url = trim_end b'/' url; supabase_key = key }

unfoldable pub supabase_headers : CliAuth → String → List (String × String)
supabase_headers h token =
    ("Authorization", "Bearer " ^ token)
    ∷ (if h.supabase_key == "" then [] else ("apikey", h.supabase_key) ∷ [])

unfoldable pub decoded_user : Result SupabaseUser → Result SupabaseUser
decoded_user (err e) = err (wrapped "decode supabase user response" e)
decoded_user (ok user) =
    if user.id == "" then err (plain "supabase returned empty user ID") else ok user

unfoldable pub judge_reply : SupabaseReply → Result SupabaseUser
judge_reply (unmade e) = err (wrapped "create supabase auth request" e)
judge_reply (unanswered e) = err (wrapped "contact supabase auth" e)
judge_reply (replied status body user) =
    if not (eqb status 200)
    then err (plain ("supabase auth rejected token (status " ^ (decimal status ^ ("): " ^ body))))
    else decoded_user user

unfoldable pub validate_supabase_token : Supabase → CliAuth → String → Result SupabaseUser
validate_supabase_token supabase h token =
    judge_reply (supabase (h.supabase_url ^ "/auth/v1/user") (supabase_headers h token))
