-- ===== src/RateLimiter.antt =====
-- src/v2hub_api/utils/rate_limiter.py: the limiter's connection to Redis, its sliding window and the
-- limits of public and internal requests.
pub mod Always
mod Log
mod Runs
mod Exact
mod Tests
use v2hub_api.Base.{
  ℕ, ◌+◌, ◌-◌, ◌*◌, ◌≤◌, ◌≡◌, ◌==◌, ◌||◌, Bool, true, false, Option, none, some, List, [], ◌∷◌,
  ◌++◌, Text, codes, leb, ltb, not, ◌&&◌, if◌then◌else◌, length, keep_if,
}
use v2hub_api.Models.{filled}

-- the sorted sets' times are in milliseconds
abbrev pub thousand : ℕ
thousand = 1000

abbrev pub contains_time : ℕ → List ℕ → Bool
contains_time x [] = false
contains_time x (y ∷ ys) = y == x || contains_time x ys

-- a member is in a sorted set once
abbrev pub add_time : ℕ → List ℕ → List ℕ
add_time x xs = if contains_time x xs then xs else xs ++ x ∷ []

-- The commands of Redis on sorted sets, each of whose members is the text of its score; `eval` runs
-- a script as one step, or raises. `Up s` says that Redis answers from the store `s` on. The laws
-- are what Redis documents of the key that a command names.
pub record SortedSets : Type 1 where
  pub Store : Type 0
  pub Up : Store → Type 0
  pub scores : Store → ℕ → Text → List ℕ
  pub zremrangebyscore : ℕ → Text → ℕ → Store → Store
  pub zcard : ℕ → Text → Store → ℕ
  pub zadd : ℕ → Text → ℕ → Store → Store
  pub expire : ℕ → Text → ℕ → Store → Store
  pub eval : (Store → Bool × Store) → Store → Option Bool × Store
  pub eval_answers :
      (script : Store → Bool × Store) (s : Store) → Up s → (eval script s).0 ≡ some (script s).0
  pub eval_runs :
      (script : Store → Bool × Store) (s : Store) → Up s → (eval script s).1 ≡ (script s).1
  pub eval_keeps_up : (script : Store → Bool × Store) (s : Store) → Up s → Up (eval script s).1
  pub zremrangebyscore_law :
      (now : ℕ) (k : Text) (max : ℕ) (s : Store) (t : ℕ)
      → now ≤ t
      → scores (zremrangebyscore now k max s) t k ≡ keep_if (λ x. ltb max x) (scores s t k)
  pub zcard_law : (now : ℕ) (k : Text) (s : Store) → zcard now k s ≡ length (scores s now k)
  pub zadd_law :
      (now : ℕ) (k : Text) (x : ℕ) (s : Store)
      → scores (zadd now k x s) now k ≡ add_time x (scores s now k)
  pub expire_law :
      (now : ℕ) (k : Text) (seconds : ℕ) (s : Store) (t : ℕ)
      → now ≤ t
      → scores (expire now k seconds s) t k
        ≡ (if ltb t (now + seconds * thousand) then scores s now k else [])

pub record RateLimitConfig : Type 0 where
  pub public_requests_per_second : ℕ
  pub public_window_seconds : ℕ
  pub internal_no_token_requests_per_second : ℕ
  pub internal_no_token_window_seconds : ℕ
  pub internal_with_token_requests_per_second : ℕ
  pub internal_with_token_window_seconds : ℕ

abbrev pub default_config : RateLimitConfig
default_config = record {
  public_requests_per_second = 3;
  public_window_seconds = 3;
  internal_no_token_requests_per_second = 1;
  internal_no_token_window_seconds = 3;
  internal_with_token_requests_per_second = 3;
  internal_with_token_window_seconds = 3;
}

-- The limiter's connection: whether it has a client, and since when Redis is known to be away.
pub record Connection : Type 0 where
  pub has_client : Bool
  pub redis_available : Bool
  pub redis_unavailable_since : ℕ

abbrev pub lost : ℕ → Connection
lost now = record { has_client = false; redis_available = false; redis_unavailable_since = now }

-- `_REDIS_RETRY_INTERVAL`, in milliseconds
abbrev pub retry_interval : ℕ
retry_interval = 30000

-- `connect` is what `get_redis_client` does: a client, no client, or an exception (`none`).
connected : ℕ → Option Bool → Connection → Connection
connected clock (some true) c = record c { has_client = true; redis_available = true }
connected clock _ c = lost clock

-- `clock` is `time.monotonic()`, in milliseconds.
unfoldable pub get_redis : ℕ → Option Bool → Connection → Connection
unfolding connected
get_redis clock connect c =
    if c.has_client
    then c
    else (if not c.redis_available && ltb (clock - c.redis_unavailable_since) retry_interval
        then c
        else connected clock connect c)

-- Each check runs at one instant `now`, which is also Redis's time; `connect` as above.
module _ (S : SortedSets) where
  pub record Limiter : Type 0 where
    pub connection : Connection
    pub store : S.Store

  -- `ZREMRANGEBYSCORE key 0 (current_time - window * 1000)`; a negative bound removes nothing.
  remove_old : Text → ℕ → ℕ → S.Store → S.Store
  remove_old key window now s =
      if leb (window * thousand) now
      then S.zremrangebyscore now key (now - window * thousand) s
      else s

  -- the Lua script
  unfoldable pub sliding_window : Text → ℕ → ℕ → ℕ → S.Store → Bool × S.Store
  unfolding remove_old
  sliding_window key max_requests window now s =
      let s1 = remove_old key window now s in
      if ltb (S.zcard now key s1) max_requests
      then (true, S.expire now key (window * 2) (S.zadd now key now s1))
      else (false, s1)

  evaluated : ℕ → Connection → Option Bool × S.Store → Bool × Limiter
  evaluated clock c (none, s) = (true, record { connection = lost clock; store = s })
  evaluated clock c (some allowed, s) = (allowed, record { connection = c; store = s })

  unfoldable pub check_limit_redis : Text → ℕ → ℕ → ℕ → ℕ → Option Bool → Limiter → Bool × Limiter
  unfolding evaluated
  check_limit_redis key max_requests window clock now connect l =
      let c = get_redis clock connect l.connection in
      let result = S.eval (sliding_window key max_requests window now) l.store in
      if not c.has_client then (true, record l { connection = c }) else evaluated clock c result

  -- The whitelist service, when there is one.
  module _ (whitelist : Option (Text → Bool)) (conf : RateLimitConfig) where
    unfoldable pub is_whitelisted : Text → Bool
    is_whitelisted [] = false
    is_whitelisted (c ∷ ip) = elim whitelist [ none ↦ false | some listed ↦ listed (c ∷ ip) ]

    unfoldable pub check_public_limit : Text → ℕ → ℕ → Option Bool → Limiter → Bool × Limiter
    check_public_limit ip clock now connect l =
        if is_whitelisted ip
        then (true, l)
        else check_limit_redis (codes "rate_limit:public:" ++ ip)
            (conf.public_requests_per_second * conf.public_window_seconds)
            conf.public_window_seconds clock now connect l

    check_token_limit : Text → Option Text → ℕ → ℕ → Option Bool → Limiter → Bool × Limiter
    check_token_limit ip none clock now connect l =
        check_limit_redis (codes "rate_limit:internal_no_token:" ++ ip)
          (conf.internal_no_token_requests_per_second * conf.internal_no_token_window_seconds)
          conf.internal_no_token_window_seconds clock now connect l
    check_token_limit ip (some token) clock now connect l =
        check_limit_redis (codes "rate_limit:internal_token:" ++ token)
          (conf.internal_with_token_requests_per_second * conf.internal_with_token_window_seconds)
          conf.internal_with_token_window_seconds clock now connect l

    unfoldable pub check_internal_limit :
        Text → Option Text → ℕ → ℕ → Option Bool → Limiter → Bool × Limiter
    unfolding check_token_limit
    check_internal_limit ip token clock now connect l =
        if is_whitelisted ip
        then (true, l)
        else check_token_limit ip (filled token) clock now connect l
