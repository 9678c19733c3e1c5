-- ===== src/Examples/Cache.antt =====
-- A small Redis: a function from keys to cells, of which each has a counter, a text and an expiry.
use nexus_ai_gateway.Prelude.{
  ℕ, ◌+◌, ◌<◌, String, ◌≡◌, refl, Option, none, some, ◌==◌, eq_refl, ltb, if◌then◌else◌, arith,
}
use nexus_ai_gateway.Domain.Errors.{nil}
use nexus_ai_gateway.Storage.Redis.{Reply, found, missing, Redis, Documented}

pub record Cell : Type 0 where
  pub count : ℕ
  pub content : String
  pub expires : ℕ

abbrev Cells : Type 0
Cells = String → Option Cell

abbrev count_at : ℕ → Option Cell → ℕ
count_at now none = 0
count_at now (some c) = if ltb now c.expires then c.count else 0

abbrev reply_at : ℕ → Option Cell → Reply
reply_at now none = missing
reply_at now (some c) = if ltb now c.expires then found c.content else missing

abbrev put : String → Cell → Cells → Cells
put key c s k = if key == k then some c else s k

-- The cells that INCR with EXPIRE, and SET, leave behind.
abbrev raised : ℕ → String → ℕ → Cells → Cell
raised now key ttl s = record {
  count = count_at now (s key) + 1;
  content = "";
  expires = now + ttl;
}

abbrev text_cell : ℕ → String → ℕ → Cell
text_cell now value ttl = record { count = 0; content = value; expires = now + ttl }

abbrev pub redis : Redis
redis = record {
  State = Cells;
  read = λ now key s. reply_at now (s key);
  write = λ now key value ttl s. (nil, put key (text_cell now value ttl) s);
  incr_expire = λ now key ttl s. (nil, count_at now (s key) + 1, put key (raised now key ttl s) s);
}

pub put-at : (key : String) (c : Cell) (s : Cells) → put key c s key ≡ some c
put-at key c s = rw (eq_refl key)

pub count_at-live : (t : ℕ) (c : Cell) → t < c.expires → count_at t (some c) ≡ c.count
count_at-live t c h = ground arith

pub reply_at-live : (t : ℕ) (c : Cell) → t < c.expires → reply_at t (some c) ≡ found c.content
reply_at-live t c h = ground arith

abbrev pub redis_documented : Documented redis
redis_documented = record {
  counter = λ now key s. count_at now (s key);
  incr_replies = λ now key ttl s e. refl;
  incr_lasts = λ now t key ttl s e le lt.
      rw (put-at key (raised now key ttl s) s) (count_at-live t (raised now key ttl s) lt);
  write_lasts = λ now t key value ttl s e le lt.
      rw (put-at key (text_cell now value ttl) s) (reply_at-live t (text_cell now value ttl) lt);
}

-- The server before anything was written.
abbrev pub empty_redis : redis.State
empty_redis key = none
