-- ===== src/RateLimit.antt =====
-- internal/ratelimit/limiter.go. Times are nanoseconds since the epoch; a limiter without a Redis
-- client is `none`, and one with a client carries the server's state.
pub mod Laws
use nexus_ai_gateway.Prelude.{
  ℕ, ◌+◌, ◌-◌, ◌*◌, ◌/◌, String, ◌^◌, Bool, true, ◌||◌, Option, none, some, eqb, leb, if◌then◌else◌,
  decimal,
}
use nexus_ai_gateway.Prelude.Int.{ℤ, pos_part}
use nexus_ai_gateway.Domain.Errors.{Err, nil}
use nexus_ai_gateway.Storage.Redis.{Redis, increment_with_expiry}

abbrev pub second : ℕ
second = 1000000000

pub record Limit : Type 0 where
  pub requests : ℤ
  pub window : ℤ

-- `remaining` is never negative where it is set from a positive limit.
pub record Result : Type 0 where
  pub allowed : Bool
  pub remaining : ℕ
  pub limit : ℤ
  pub reset_at : ℕ

-- `int64(limit.Window.Seconds())`, and 60 for a window below a second.
unfoldable pub window_seconds : ℕ → ℕ
window_seconds window = if eqb (window / second) 0 then 60 else window / second

-- The number of the bucket that a time falls into.
unfoldable pub bucket : ℕ → ℕ → ℕ
bucket window now = now / second / window_seconds window

unfoldable pub bucket_key : String → String → ℕ → String
bucket_key scope id b = "ratelimit:" ^ (scope ^ (":" ^ (id ^ (":" ^ decimal b))))

-- The result from the counter's reply, an error included.
unfoldable pub judge : ℕ → Limit → ℕ × Err → Result
judge now limit (count, nil) = record {
  allowed = leb count (pos_part limit.requests);
  remaining = pos_part limit.requests - count;
  limit = limit.requests;
  reset_at =
      (bucket (pos_part limit.window) now + 1) * window_seconds (pos_part limit.window) * second;
}
judge now limit (count, e) = record {
  allowed = true;
  remaining = pos_part limit.requests;
  limit = limit.requests;
  reset_at = now + pos_part limit.window;
}

-- The two results that no counter decides.
unfoldable pub unlimited : ℕ → Limit → Result
unlimited now limit = record {
  allowed = true;
  remaining = 999999;
  limit = limit.requests;
  reset_at = now + 60 * second;
}

unfoldable pub uncounted : ℕ → Limit → Result
uncounted now limit = record {
  allowed = true;
  remaining = pos_part limit.requests;
  limit = limit.requests;
  reset_at = now + pos_part limit.window;
}

module _ (r : Redis) where
  open r use {State}

  unfoldable pub check_counter : ℕ → String → String → Limit → Option State → Result × Option State
  check_counter now scope id limit none = (uncounted now limit, none)
  check_counter now scope id limit (some s) =
      let window = pos_part limit.window in
      let key = bucket_key scope id (bucket window now) in
      let (reply, s') = increment_with_expiry r now key (window * 2) s in
      (judge now limit reply, some s')

  -- `Check`
  unfoldable pub check : ℕ → String → String → Limit → Option State → Result × Option State
  check now scope id limit cache =
      if eqb (pos_part limit.requests) 0 || eqb (pos_part limit.window) 0
      then (unlimited now limit, cache)
      else check_counter now scope id limit cache
