-- ===== src/Examples/Admin.antt =====
-- A key over HTTP, two requests without an identifier, the aliases' seed, usage, and a .env file.
use text.Mathlib.TextLemmas.{cons≢nil}
use nexus_ai_gateway.Prelude.{
  ℕ, ◌+◌, ◌*◌, ◌≤◌, String, ◌^◌, ◌≡◌, ◌≢◌, refl, none, some, [], ◌∷◌, arith, lookup, trim_space,
}
use nexus_ai_gateway.Prelude.Int.{pos}
use nexus_ai_gateway.Domain.Errors.{nil, plain, ok, err, err_key_revoked}
use nexus_ai_gateway.Domain.Keys.{new_api_key, validate_key}
use nexus_ai_gateway.Domain.Models.{default_model_aliases}
use nexus_ai_gateway.Domain.Requests.{RequestRecord, new_request_record}
use nexus_ai_gateway.Auth.Keys.{environment_prefix, extract_prefix}
use nexus_ai_gateway.Auth.Validator.{cached}
use nexus_ai_gateway.Storage.Rows.{find_row}
use nexus_ai_gateway.Storage.Tenancy.{has_hash}
use nexus_ai_gateway.Storage.Records.{is_request, merge_record, stored_record}
use nexus_ai_gateway.Storage.Merging.Laws.{merged_with}
use nexus_ai_gateway.Storage.Catalog.{is_alias, seed_defaults}
use nexus_ai_gateway.Storage.Catalog.Laws.{or_else, seed_defaults-settles}
use nexus_ai_gateway.Http.Admin.{answered}
use nexus_ai_gateway.Http.Admin.Keys.{KeyBody, KeySource, expiry_of, key_of, post_key, delete_key}
use nexus_ai_gateway.Http.Admin.Granted.{
  expiry_of-exact, granted, plain_key, verdict, post_key-granted,
}
use nexus_ai_gateway.Http.Admin.Usage.{Usage, show_usage}
use nexus_ai_gateway.Http.Admin.Totals.{IsUsage, show_usage-IsUsage}
use nexus_ai_gateway.Config.{Env, getenv, load_dot_env}
use nexus_ai_gateway.Config.Laws.{load_dot_env-kept}
use nexus_ai_gateway.Examples.Codec.{key_codec}
use nexus_ai_gateway.Examples.Cache.{redis}

abbrev hash : String → String
hash s = "h:" ^ s

abbrev source : KeySource
source = record { asked_at = 5; created_at = 6; uuid = "7"; random = some "b" }

abbrev body : KeyBody
body = record { project_id = "p1"; env = "test"; scopes = []; expires_in = none }

valid : validate_key (granted hash source "r1" body "b") ≡ nil
unfolding validate_key key_of new_api_key extract_prefix environment_prefix trim_space
valid = refl

unused : find_row (has_hash (hash (plain_key hash source "r1" body "b"))) [] ≡ none
unfolding find_row
unused = refl

missed : (t : ℕ) → cached redis key_codec t (hash (plain_key hash source "r1" body "b")) none ≡ none
unfolding cached
missed t = refl

unexpiring :
    (expiry : ℕ) → (granted hash source "r1" body "b").expires_at ≡ some expiry → 8 ≤ expiry
unfolding key_of new_api_key expiry_of
unexpiring expiry h = cc

post_key-granted_example :
    let (reply, rows) = post_key hash source nil "r1" (ok body) [] in
    (reply
      ≡ some (
          answered 201 (record {
            key = granted hash source "r1" body "b";
            plaintext = plain_key hash source "r1" body "b";
          })))
    × (verdict hash source "r1" body "b" redis key_codec 300 8 none rows
        ≡ ok (granted hash source "r1" body "b"))
    × (verdict hash source "r1" body "b" redis key_codec 300 9 none
          (delete_key nil "r1" (granted hash source "r1" body "b").id rows).1
        ≡ err err_key_revoked)
post_key-granted_example =
    post_key-granted hash source "r1" body "b" redis key_codec 300 [] 8 9 none none refl valid
      unused (missed 8) unexpiring (missed 9)

expiry_of-exact_example : expiry_of 10 (some (pos 60)) ≡ some (10 + 60 * 1000000000)
expiry_of-exact_example = expiry_of-exact 10 60 (omega arith) (omega arith)

-- Two requests of two projects, both without an identifier.
abbrev first : RequestRecord
first = new_request_record "1" 1 "" "p1"

abbrev second : RequestRecord
second = new_request_record "2" 2 "" "p2"

-- The second record is lost to its project: the row stays that of the first one.
kept_project :
    merged_with (merge_record second) (stored_record second) (find_row (is_request "") (first ∷ []))
    ≡ first
unfolding find_row is_request merge_record new_request_record
kept_project = refl

abbrev uuid : ℕ → String
uuid n = "u"

seed_defaults-settles_example :
    (find_row (is_alias "smart") (seed_defaults (λ _. nil) uuid 1 []).1
      ≡ or_else
          (find_row (is_alias "smart") [])
          (find_row (is_alias "smart") (default_model_aliases uuid 1)))
    × (seed_defaults (λ _. nil) uuid 9 (seed_defaults (λ _. nil) uuid 1 []).1
        ≡ (nil, (seed_defaults (λ _. nil) uuid 1 []).1))
seed_defaults-settles_example = seed_defaults-settles uuid uuid 1 9 [] "smart"

show_usage-IsUsage_example :
    (u : Usage) × (show_usage nil
        (plain "OFFSET must not be negative")
        "r1"
        "p1"
        (pos 0)
        (pos 0)
        (first ∷ second ∷ [])
      ≡ some (answered 200 u))
    × IsUsage "p1" (pos 0) u
show_usage-IsUsage_example =
    show_usage-IsUsage "p1" (pos 0) 0 (first ∷ second ∷ []) (plain "OFFSET must not be negative")
      "r1" cons≢nil

abbrev env : Env
env = ("REDIS_URL", "redis://cache:6379/0") ∷ []

set : getenv env "REDIS_URL" ≢ ""
unfolding getenv lookup
set = cons≢nil

load_dot_env-kept_example :
    getenv (load_dot_env (some ("REDIS_URL=redis://localhost" ∷ [])) env) "REDIS_URL"
    ≡ getenv env "REDIS_URL"
load_dot_env-kept_example =
    load_dot_env-kept (some ("REDIS_URL=redis://localhost" ∷ [])) env "REDIS_URL" set
