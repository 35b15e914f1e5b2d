-- ===== src/UrlRequestLimiter.antt =====
-- src/v2hub_api/utils/url_request_limiter.py: how often an address may make the service fetch
-- external URLs, and how many failed fetches are let pass.
mod Limits
mod Failures
mod Tests
use v2hub_api.Base.{
  ℕ, ◌==◌, Bool, true, false, Option, none, some, ◌++◌, Text, codes, leb, if◌then◌else◌,
}
use v2hub_api.Redis.{Redis, count, ◌>>=◌, return, try_or}

pub record Settings : Type 0 where
  pub requests_per_second : ℕ
  pub max_failures : ℕ
  pub failure_window : ℕ

-- the settings of `get_url_request_limiter`
abbrev pub limiter_settings : Settings
limiter_settings = record { requests_per_second = 1; max_failures = 3; failure_window = 60 }

unfoldable pub request_key : Text → Text
request_key ip = codes "url_request:" ++ ip

unfoldable pub failure_key : Text → Text
failure_key ip = codes "url_failures:" ++ ip

-- Each operation runs at one instant `now`, in microseconds.
module _ (R : Redis) (conf : Settings) where
  abbrev pub Action : Type 0 → Type 0
  Action A = R.Store → Option A × R.Store

  check_count : Text → ℕ → Option ℕ → Action Bool
  check_count ip now none = R.set now (request_key ip) 1 1 >>= λ stored. return true
  check_count ip now (some n) =
      if leb conf.requests_per_second n
      then return false
      else (R.incr now (request_key ip) >>= λ n'. return true)

  -- The message that comes with a refusal is a constant of the settings.
  unfoldable pub check_limit : Text → ℕ → R.Store → Bool × R.Store
  unfolding check_count
  check_limit ip now = try_or (R.get now (request_key ip) >>= check_count ip now) true

  start_window : Text → ℕ → ℕ → Action (Unit {0})
  start_window ip now failures =
      if failures == 1 then R.expire now (failure_key ip) conf.failure_window else return tt

  check_failures : Text → ℕ → ℕ → Action Bool
  check_failures ip now failures =
      if leb conf.max_failures failures
      then (R.delete now (failure_key ip) >>= λ deleted. return true)
      else return false

  unfoldable pub record_failure : Text → ℕ → R.Store → Bool × R.Store
  unfolding start_window check_failures
  record_failure ip now =
      try_or
        (R.incr now (failure_key ip) >>= λ failures.
          start_window ip now failures >>= λ started. check_failures ip now failures)
        false

  unfoldable pub clear_failures : Text → ℕ → R.Store → Unit {0} × R.Store
  clear_failures ip now = try_or (R.delete now (failure_key ip) >>= λ deleted. return tt) tt

  unfoldable pub get_failure_count : Text → ℕ → R.Store → ℕ × R.Store
  get_failure_count ip now = try_or (R.get now (failure_key ip) >>= λ n. return (count n)) 0
