-- ===== src/Storage/Redis.antt =====
-- internal/storage/redis/client.go. The server behind go-redis is not part of the program: its
-- state and its commands are a parameter, and `Documented` what the Redis manual says of them.
-- Times and lifetimes are in nanoseconds.
use nexus_ai_gateway.Prelude.{ℕ, ◌+◌, ◌≤◌, ◌<◌, String, ◌≡◌, refl}
use nexus_ai_gateway.Domain.Errors.{Err, nil}

-- The reply to GET; `missing` is the client library's `redis.Nil`.
pub data Reply : Type 0 where
  found : String → Reply
  missing : Reply
  failed : Err → Reply

pub record Redis : Type 1 where
  pub State : Type 0
  -- GET key, at a time
  pub read : ℕ → String → State → Reply
  -- SET key value with a lifetime, at a time
  pub write : ℕ → String → String → ℕ → State → Err × State
  -- INCR key and EXPIRE key lifetime in one pipeline, at a time
  pub incr_expire : ℕ → String → ℕ → State → Err × ℕ × State

module _ (r : Redis) where
  open r use {State, read, write, incr_expire}

  reply_result : Reply → String × Err
  reply_result (found v) = (v, nil)
  reply_result missing = ("", nil)
  reply_result (failed e) = ("", e)

  -- `Get`
  unfoldable pub get : ℕ → String → State → String × Err
  unfolding reply_result
  get now key s = reply_result (read now key s)

  -- `SetWithTTL`
  unfoldable pub set_with_ttl : ℕ → String → String → ℕ → State → Err × State
  set_with_ttl now key value ttl s = write now key value ttl s

  counted : Err × ℕ × State → (ℕ × Err) × State
  counted (nil, count, s) = ((count, nil), s)
  counted (e, count, s) = ((0, e), s)

  -- `IncrementWithExpiry`
  unfoldable pub increment_with_expiry : ℕ → String → ℕ → State → (ℕ × Err) × State
  unfolding counted
  increment_with_expiry now key ttl s = counted (incr_expire now key ttl s)

  counted-nil : (x : Err × ℕ × State) → x.0 ≡ nil → counted x ≡ ((x.1, nil), x.2)
  unfolding counted
  counted-nil (nil, count, s) h = refl
  counted-nil (_, count, s) h = cc

  -- Where the pipeline succeeds, the count and the state are its own.
  pub increment_with_expiry-nil :
      (now : ℕ) (key : String) (ttl : ℕ) (s : State)
      → (incr_expire now key ttl s).0 ≡ nil
      → increment_with_expiry now key ttl s
        ≡ (((incr_expire now key ttl s).1, nil), (incr_expire now key ttl s).2)
  unfolding increment_with_expiry
  increment_with_expiry-nil now key ttl s h = counted-nil (incr_expire now key ttl s) h

  -- A counter that is not there reads 0. A counter that INCR and EXPIRE have written holds its value
  -- for its lifetime, and a write to one key changes no other.
  pub record Documented : Type 0 where
    pub counter : ℕ → String → State → ℕ
    pub incr_replies :
        (now : ℕ) (key : String) (ttl : ℕ) (s : State)
        → (incr_expire now key ttl s).0 ≡ nil
        → (incr_expire now key ttl s).1 ≡ counter now key s + 1
    pub incr_lasts :
        (now t : ℕ) (key : String) (ttl : ℕ) (s : State)
        → (incr_expire now key ttl s).0 ≡ nil
        → now ≤ t
        → t < now + ttl
        → counter t key (incr_expire now key ttl s).2 ≡ counter now key s + 1
    pub write_lasts :
        (now t : ℕ) (key value : String) (ttl : ℕ) (s : State)
        → (write now key value ttl s).0 ≡ nil
        → now ≤ t
        → t < now + ttl
        → read t key (write now key value ttl s).1 ≡ found value
