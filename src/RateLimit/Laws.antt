-- ===== src/RateLimit/Laws.antt =====
-- What the limiter grants.
use Prim.Native.Nat.{min}
use mathlib.Core.Bool.{false≢true}
use native.Mathlib.Nat.{lt-div-mul-add, div-mul-le_self}
use nexus_ai_gateway.Prelude.{
  ℕ, ◌+◌, ◌-◌, ◌*◌, ◌/◌, ◌≤◌, ◌<◌, String, ◌≡◌, refl, ap, sym, ◌∙◌, ◌||◌, Bool-cases, inl, inr,
  true, false, Option, none, some, List, [], ◌∷◌, arith, eqb, leb, if◌then◌else◌, length, ◌↔◌,
}
use nexus_ai_gateway.Prelude.Int.{pos_part}
use nexus_ai_gateway.Domain.Errors.{Err, nil}
use nexus_ai_gateway.Storage.Redis.{
  Redis, Documented, increment_with_expiry, increment_with_expiry-nil,
}
use nexus_ai_gateway.RateLimit.{
  Limit, second, window_seconds, bucket, bucket_key, judge, unlimited, uncounted, check_counter,
  check,
}

-- Two times of one bucket are less than its width apart.
quotient_gap : (x y w : ℕ) → 0 < w → x / w ≡ y / w → y < x + w
quotient_gap x y w h e =
    omega (arith, lt-div-mul-add {a = y} h, div-mul-le_self x w, ap (λ (t : ℕ). t * w) e)

pub window_seconds-pos : (window : ℕ) → 0 < window_seconds window
unfolding window_seconds
window_seconds-pos window = ground arith

window_seconds_lem : (window : ℕ) → second ≤ window → window_seconds window ≡ window / second
unfolding window_seconds
window_seconds_lem window h = ground arith

bucket_gap :
    (window t u : ℕ) → second ≤ window → bucket window t ≡ bucket window u → u < t + window * 2
unfolding bucket
bucket_gap window t u h e = omega (
  arith,
  quotient_gap (t / second) (u / second) (window_seconds window) (window_seconds-pos window) e,
  window_seconds_lem window h,
)

-- The reset time of a counted request lies ahead, by the length of a bucket at most.
pub judge-reset_at :
    (now count : ℕ) (limit : Limit)
    → (now < (judge now limit (count, nil)).reset_at)
      × ((judge now limit (count, nil)).reset_at
          ≤ now + window_seconds (pos_part limit.window) * second)
unfolding judge bucket
judge-reset_at now count limit =
    let w = window_seconds (pos_part limit.window) in
    let n = now / second in
    let above = lt-div-mul-add {a = n} (window_seconds-pos (pos_part limit.window)) in
    let below = div-mul-le_self n w in (omega (arith, above, below), omega (arith, above, below))

-- Only a count beyond the limit is refused: every reply with an error is let through.
pub judge-fails_open :
    (now count : ℕ) (limit : Limit) (e : Err)
    → (judge now limit (count, e)).allowed ≡ false
    → (e ≡ nil) × (pos_part limit.requests < count)
unfolding judge
judge-fails_open now count limit nil h = (refl, ground arith)
judge-fails_open now count limit _ h = cc

judge-allowed :
    (now count : ℕ) (limit : Limit)
    → (judge now limit (count, nil)).allowed ≡ leb count (pos_part limit.requests)
unfolding judge
judge-allowed now count limit = refl

judge-refuses :
    (now : ℕ) (limit : Limit) (reply : ℕ × Err)
    → reply.1 ≡ nil
    → pos_part limit.requests < reply.0
    → (judge now limit reply).allowed ≡ false
unfolding judge
judge-refuses now limit (count, nil) e h = ground arith
judge-refuses now limit (count, _) e h = cc

module _ (r : Redis) where
  open r use {State}

  -- What the counter of a request's bucket replies.
  abbrev pub reply_at : ℕ → String → String → Limit → State → ℕ × Err
  reply_at now scope id limit s =
      (increment_with_expiry r now (bucket_key scope id (bucket (pos_part limit.window) now))
        (pos_part limit.window * 2) s).0

  -- With a limit and a client the counter decides.
  check-limited :
      (now : ℕ) (scope id : String) (limit : Limit) (s : State)
      → 0 < pos_part limit.requests
      → 0 < pos_part limit.window
      → check r now scope id limit (some s) ≡ (
        judge now limit (reply_at now scope id limit s),
        some
            (increment_with_expiry r now
              (bucket_key scope id (bucket (pos_part limit.window) now))
              (pos_part limit.window * 2)
              s).1,
      )
  unfolding check check_counter
  check-limited now scope id limit s p q =
      let e : eqb (pos_part limit.requests) 0 ≡ false = ground arith in
      let f : eqb (pos_part limit.window) 0 ≡ false = ground arith in rw e (rw f)

  check-unlimited :
      (now : ℕ) (scope id : String) (limit : Limit) (cache : Option State)
      → (eqb (pos_part limit.requests) 0 || eqb (pos_part limit.window) 0) ≡ true
      → (check r now scope id limit cache).0.allowed ≡ true
  unfolding check unlimited
  check-unlimited now scope id limit cache h = rw h

  check-no_client :
      (now : ℕ) (scope id : String) (limit : Limit)
      → (check r now scope id limit none).0.allowed ≡ true
  unfolding check check_counter uncounted unlimited
  check-no_client now scope id limit =
      elim (Bool-cases (eqb (pos_part limit.requests) 0 || eqb (pos_part limit.window) 0)) [
        | inl free ↦ rw free
        | inr bound ↦ rw bound
      ]

  check-refuses :
      (now : ℕ) (scope id : String) (limit : Limit) (cache : Option State)
      → (check r now scope id limit cache).0.allowed ≡ false
      → (0 < pos_part limit.requests)
        × (0 < pos_part limit.window)
        × ((s : State) × (cache ≡ some s)
            × ((reply_at now scope id limit s).1 ≡ nil)
            × (pos_part limit.requests < (reply_at now scope id limit s).0))
  check-refuses now scope id limit cache h =
      elim (Bool-cases (eqb (pos_part limit.requests) 0 || eqb (pos_part limit.window) 0)) [
        | inl free ↦ absurd (false≢true (sym h ∙ check-unlimited now scope id limit cache free))
        | inr bound ↦
            let p : 0 < pos_part limit.requests = ground arith in
            let q : 0 < pos_part limit.window = ground arith in (p, q, with_client cache h p q)
      ]
    where
      with_client :
          (cache : Option State)
          → (check r now scope id limit cache).0.allowed ≡ false
          → 0 < pos_part limit.requests
          → 0 < pos_part limit.window
          → (s : State) × (cache ≡ some s)
            × ((reply_at now scope id limit s).1 ≡ nil)
            × (pos_part limit.requests < (reply_at now scope id limit s).0)
      with_client none h p q = absurd (false≢true (sym h ∙ check-no_client now scope id limit))
      with_client (some s) h p q =
          let (e, l) =
            judge-fails_open now _ limit _
              (ap (λ x. x.0.allowed) (sym (check-limited now scope id limit s p q)) ∙ h) in
          (s, refl, e, l)

  -- A limiter refuses a request exactly if limit and window are positive, there is a client, and the
  -- counter replies without an error with a count beyond the limit.
  pub check-refuses_iff :
      (now : ℕ) (scope id : String) (limit : Limit) (cache : Option State)
      → ((check r now scope id limit cache).0.allowed ≡ false) ↔ (
          (0 < pos_part limit.requests)
          × (0 < pos_part limit.window)
          × ((s : State) × (cache ≡ some s)
              × ((reply_at now scope id limit s).1 ≡ nil)
              × (pos_part limit.requests < (reply_at now scope id limit s).0)))
  check-refuses_iff now scope id limit cache = (
    check-refuses now scope id limit cache,
    λ (p, q, (s, e, f, g)).
        rw e (rw (check-limited now scope id limit s p q) (judge-refuses now limit _ f g)),
  )

  -- Requests of one subject at these times, one after the other: how many are let through.
  pub admitted : Limit → String → String → List ℕ → Option State → ℕ
  admitted limit scope id [] cache = 0
  admitted limit scope id (now ∷ times) cache =
      let (result, cache') = check r now scope id limit cache in
      (if result.allowed then 1 else 0) + admitted limit scope id times cache'

  -- Times of one bucket, in order, none before `last`.
  abbrev pub InBucket : ℕ → ℕ → ℕ → List ℕ → Type 0
  InBucket window b last [] = Unit
  InBucket window b last (now ∷ times) =
      (last ≤ now) × (bucket window now ≡ b) × InBucket window b now times

  -- One request in a bucket whose counter stands at `c`, and the counter after it.
  module _ (d : Documented r)
      (up : (now : ℕ) (key : String) (ttl : ℕ) (s : State) → (r.incr_expire now key ttl s).0 ≡ nil)
      (limit : Limit) (scope id : String) (b : ℕ) (limited : 0 < pos_part limit.requests)
      (wide : second ≤ pos_part limit.window) where
    Stands : ℕ → ℕ → State → Type 0
    Stands last c s =
        (t : ℕ)
        → last ≤ t
        → bucket (pos_part limit.window) t ≡ b
        → d.counter t (bucket_key scope id b) s ≡ c

    after : ℕ → State → State
    after now s = (r.incr_expire now (bucket_key scope id b) (pos_part limit.window * 2) s).2

    check-counts :
        (now last c : ℕ) (s : State)
        → last ≤ now
        → bucket (pos_part limit.window) now ≡ b
        → Stands last c s
        → check r now scope id limit (some s) ≡ (judge now limit (c + 1, nil), some (after now s))
    unfolding Stands after
    check-counts now last c s le e h =
        let key = bucket_key scope id b in
        let ttl = pos_part limit.window * 2 in
        let fine = up now key ttl s in
        let count : (r.incr_expire now key ttl s).1 ≡ c + 1 =
          d.incr_replies now key ttl s fine ∙ ap (λ n. n + 1) (h now le e) in
        check-limited now scope id limit s limited (omega arith)
        ∙ ap (λ x. (judge now limit x.0, some x.1))
            (ap (λ n. increment_with_expiry r now (bucket_key scope id n) ttl s) e
              ∙ increment_with_expiry-nil r now key ttl s fine
              ∙ ap (λ n. ((n, nil), after now s)) count)

    Stands-after :
        (now last c : ℕ) (s : State)
        → last ≤ now
        → bucket (pos_part limit.window) now ≡ b
        → Stands last c s
        → Stands now (c + 1) (after now s)
    unfolding Stands after
    Stands-after now last c s le e h t le' e' =
        let key = bucket_key scope id b in
        let ttl = pos_part limit.window * 2 in
        d.incr_lasts now t key ttl s (up now key ttl s) le'
          (bucket_gap (pos_part limit.window) now t wide (e ∙ sym e'))
        ∙ ap (λ n. n + 1) (h now le e)

    admitted-eq-min :
        (times : List ℕ) (last c : ℕ) (s : State)
        → InBucket (pos_part limit.window) b last times
        → Stands last c s
        → admitted limit scope id times (some s) ≡ min (length times) (pos_part limit.requests - c)
    unfolding admitted
    admitted-eq-min [] last c s i h = omega arith
    admitted-eq-min (now ∷ times) last c s (le, e, i) h =
        let rest =
          admitted-eq-min times now (c + 1) (after now s) i (Stands-after now last c s le e h) in
        rw (check-counts now last c s le e h)
          (ground (arith, rest, judge-allowed now (c + 1) limit))

  -- Of any number of requests of one subject within one bucket, whose counter is not yet there, the
  -- limiter lets through exactly the first `limit.requests`, as long as Redis answers and the window
  -- is at least a second.
  pub admitted-bucket :
      (limit : Limit) (scope id : String) (b first : ℕ) (times : List ℕ) (s : State)
      → (d : Documented r)
      → ((now : ℕ) (key : String) (ttl : ℕ) (s : State) → (r.incr_expire now key ttl s).0 ≡ nil)
      → 0 < pos_part limit.requests
      → second ≤ pos_part limit.window
      → InBucket (pos_part limit.window) b first times
      → ((t : ℕ)
          → first ≤ t
          → bucket (pos_part limit.window) t ≡ b
          → d.counter t (bucket_key scope id b) s ≡ 0)
      → admitted limit scope id times (some s) ≡ min (length times) (pos_part limit.requests)
  unfolding Stands
  admitted-bucket limit scope id b first times s d up limited wide i fresh =
      omega (arith, admitted-eq-min d up limit scope id b limited wide times first 0 s i fresh)
