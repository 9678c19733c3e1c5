-- ===== src/Examples/Access.antt =====
-- The theorems on keys, tenants, limits and error responses, at concrete inputs.
use nexus_ai_gateway.Prelude.{
  ℕ, String, ◌^◌, ◌≡◌, ◌≢◌, ◌≤◌, ◌<◌, ◌↔◌, refl, true, false, none, some, List, [], ◌∷◌, arith, inr,
  length,
}
use Prim.Native.Nat.{min}
use text.Mathlib.TextLemmas.{cons≢nil}
use nexus_ai_gateway.Prelude.Int.{pos}
use nexus_ai_gateway.Domain.Errors.{nil, ok, ProviderError}
use nexus_ai_gateway.Auth.Keys.{generate_key, environment_prefix, extract_prefix}
use nexus_ai_gateway.Auth.Validator.{KeyStore, validate, cached, cache_key}
use nexus_ai_gateway.Auth.Validator.Laws.{IsKnown, IsLive, validate-ok_iff, validate-cached}
use nexus_ai_gateway.Storage.Redis.{get, set_with_ttl}
use nexus_ai_gateway.Tenant.{TenantContext, resolve}
use nexus_ai_gateway.Tenant.Laws.{IsTenant, resolve-ok_iff}
use nexus_ai_gateway.RateLimit.{Limit, check, judge, window_seconds, bucket}
use nexus_ai_gateway.RateLimit.Laws.{
  judge-fails_open, check-refuses_iff, admitted-bucket, admitted, InBucket, reply_at,
}
use nexus_ai_gateway.Http.Response.{ErrorResponse, write_error}
use nexus_ai_gateway.Http.Response.Laws.{write_error-status}
use nexus_ai_gateway.Examples.Codec.{key_codec}
use nexus_ai_gateway.Examples.Cache.{redis, redis_documented, empty_redis}
use nexus_ai_gateway.Examples.Data.{api_key, project, organization, gateway, outage}

abbrev hash : String → String
hash s = "h:" ^ s

abbrev no_keys : KeyStore
no_keys h = (none, nil)

tenant : TenantContext
tenant = record { organization = organization; project = project; api_key = api_key }

abbrev generated : String
generated = environment_prefix "test" ^ "c2VjcmV0"

generates : generate_key "test" (some "c2VjcmV0") ≡ ok (generated, extract_prefix generated)
unfolding generate_key
generates = refl

validate-ok_iff_example :
    ((validate redis key_codec hash 10 300 gateway.keys "ngk_live_a" (some empty_redis)).0
      ≡ ok api_key)
    ↔ (IsKnown redis key_codec hash 10 gateway.keys (hash "ngk_live_a") (some empty_redis) api_key
        × IsLive 10 api_key)
validate-ok_iff_example =
    validate-ok_iff redis key_codec hash 10 300 gateway.keys "ngk_live_a" (some empty_redis) api_key
      cons≢nil

not_cached : cached redis key_codec 10 (hash "ngk_live_a") (some empty_redis) ≡ none
unfolding cached get
not_cached = refl

api_key-IsLive : IsLive 20 api_key
api_key-IsLive = (refl, λ t e. ground arith)

stores :
    (set_with_ttl redis 10
      (cache_key (hash "ngk_live_a"))
      (key_codec.marshal api_key)
      300
      empty_redis).0
    ≡ nil
unfolding set_with_ttl
stores = refl

validate-cached_example :
    (validate redis key_codec hash 20 300 no_keys "ngk_live_a"
      (validate redis key_codec hash 10 300 gateway.keys "ngk_live_a" (some empty_redis)).1).0
    ≡ ok (record api_key { hash = "" })
validate-cached_example =
    validate-cached redis key_codec hash redis_documented 10 20 300 gateway.keys no_keys
      "ngk_live_a" empty_redis api_key cons≢nil not_cached refl stores (omega arith) (omega arith)
      api_key-IsLive

resolve-ok_iff_example :
    (resolve gateway.projects gateway.organizations (some api_key) ≡ ok tenant)
    ↔ IsTenant gateway.projects gateway.organizations api_key tenant
resolve-ok_iff_example = resolve-ok_iff gateway.projects gateway.organizations api_key tenant

abbrev twice_a_minute : Limit
twice_a_minute = record { requests = pos 2; window = pos 60000000000 }

third_refused : (judge 7 twice_a_minute (3, nil)).allowed ≡ false
unfolding judge
third_refused = refl

judge-fails_open_example : (nil ≡ nil) × (2 < 3)
judge-fails_open_example = judge-fails_open 7 3 twice_a_minute nil third_refused

check-refuses_iff_example :
    ((check redis 7 "project" "p1" twice_a_minute (some empty_redis)).0.allowed ≡ false) ↔ (
      (0 < 2)
      × (0 < 60000000000)
      × ((s : redis.State) × (some empty_redis ≡ some s)
          × ((reply_at redis 7 "project" "p1" twice_a_minute s).1 ≡ nil)
          × (2 < (reply_at redis 7 "project" "p1" twice_a_minute s).0)))
check-refuses_iff_example =
    check-refuses_iff redis 7 "project" "p1" twice_a_minute (some empty_redis)

abbrev three_times : List ℕ
three_times = 7 ∷ 8 ∷ 9 ∷ []

three_times-InBucket : InBucket redis 60000000000 0 7 three_times
unfolding bucket window_seconds
three_times-InBucket = (omega arith, refl, (omega arith, refl, (omega arith, refl, tt)))

admitted-bucket_example :
    admitted redis twice_a_minute "project" "p1" three_times (some empty_redis)
    ≡ min (length three_times) 2
admitted-bucket_example =
    admitted-bucket redis twice_a_minute "project" "p1" 0 7 three_times empty_redis redis_documented
      (λ now key ttl s. refl) (omega arith) (omega arith) three_times-InBucket (λ t le e. refl)

outage-ne_nil : outage ≢ nil
outage-ne_nil e = cc

write_error-status_example :
    (reply : ErrorResponse) × (write_error "r1" outage ≡ some reply)
    × (400 ≤ reply.status)
    × (reply.status < 600)
    × (reply.detail.request_id ≡ "r1")
write_error-status_example =
    write_error-status "r1" outage outage-ne_nil (inr (omega arith, omega arith))

abbrev overload : ProviderError
overload = record {
  status_code = 503;
  message = "overloaded";
  retryable = true;
  provider = "gemini";
}
