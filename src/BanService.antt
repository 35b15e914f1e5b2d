-- ===== src/BanService.antt =====
-- src/v2hub_api/services/ban_service.py: violations of the rate limit are counted for each address,
-- and an address is banned when it has too many.
pub mod Counting
pub mod Bans
mod Runs
mod Tests
use v2hub_api.Base.{
  ℕ, ◌+◌, ◌-◌, ◌*◌, ◌/◌, ◌==◌, Bool, true, false, Option, none, some, ◌++◌, Text, codes, leb,
  if◌then◌else◌,
}
use v2hub_api.Redis.{Redis, second, count, ◌>>=◌, return, try_or, or_else}

pub record Settings : Type 0 where
  pub max_violations : ℕ
  pub violation_window : ℕ
  pub ban_duration : ℕ

-- the settings of `get_ban_service`
abbrev pub service_settings : Settings
service_settings = record {
  max_violations = 3;
  violation_window = 60 * 10;
  ban_duration = 60 * 60 * 3;
}

unfoldable pub ban_key : Text → Text
ban_key ip = codes "ban:" ++ ip

unfoldable pub violation_key : Text → Text
violation_key ip = codes "violations:" ++ ip

-- `banned_until` and `remaining_seconds` of `get_ban_info`
pub record BanInfo : Type 0 where
  pub ip : Text
  pub banned_until : ℕ
  pub remaining_seconds : ℕ

-- Each operation runs at one instant `now`, in microseconds.
module _ (R : Redis) (conf : Settings) where
  abbrev pub Action : Type 0 → Type 0
  Action A = R.Store → Option A × R.Store

  -- a ban that has run out is deleted
  check_ban : Text → ℕ → Option ℕ → Action Bool
  check_ban ip now none = return false
  check_ban ip now (some ban_until) =
      if leb ban_until now
      then (R.delete now (ban_key ip) >>= λ deleted. return false)
      else return true

  unfoldable pub is_banned : Text → ℕ → R.Store → Bool × R.Store
  unfolding check_ban
  is_banned ip now = try_or (R.get now (ban_key ip) >>= check_ban ip now) false

  ban_info : Text → ℕ → Option ℕ → Action (Option BanInfo)
  ban_info ip now none = return none
  ban_info ip now (some ban_until) =
      if leb ban_until now
      then (R.delete now (ban_key ip) >>= λ deleted. return none)
      else return (
          some (record {
            ip = ip;
            banned_until = ban_until;
            remaining_seconds = (ban_until - now) / second;
          }))

  unfoldable pub get_ban_info : Text → ℕ → R.Store → Option BanInfo × R.Store
  unfolding ban_info
  get_ban_info ip now = try_or (R.get now (ban_key ip) >>= ban_info ip now) none

  store_ban : Text → ℕ → ℕ → Action (Unit {0})
  store_ban ip now duration = R.set now (ban_key ip) (now + duration * second) duration

  -- `_ban_ip` logs an exception and goes on.
  unfoldable pub ban_automatically : Text → ℕ → Action (Unit {0})
  unfolding store_ban
  ban_automatically ip now s =
      let (done, s') = try_or (store_ban ip now conf.ban_duration) tt s in (some done, s')

  -- `ban_ip` raises it again.
  unfoldable pub ban_ip : Text → Option ℕ → ℕ → Action (Unit {0})
  unfolding store_ban
  ban_ip ip duration_seconds now = store_ban ip now (or_else duration_seconds conf.ban_duration)

  -- the counter gets its time to live with the first violation
  start_window : Text → ℕ → ℕ → Action (Unit {0})
  start_window ip now violations =
      if violations == 1 then R.expire now (violation_key ip) conf.violation_window else return tt

  check_violations : Text → ℕ → ℕ → Action Bool
  unfolding ban_automatically
  check_violations ip now violations =
      if leb conf.max_violations violations
      then (ban_automatically ip now >>= λ banned.
          R.delete now (violation_key ip) >>= λ deleted. return true)
      else return false

  unfoldable pub record_violation : Text → ℕ → R.Store → Bool × R.Store
  unfolding start_window check_violations
  record_violation ip now =
      try_or
        (R.incr now (violation_key ip) >>= λ violations.
          start_window ip now violations >>= λ started. check_violations ip now violations)
        false

  unfoldable pub unban_ip : Text → ℕ → R.Store → Bool × R.Store
  unban_ip ip now =
      try_or
        (R.delete now (ban_key ip) >>= λ ban_deleted.
          R.delete now (violation_key ip) >>= λ deleted. return ban_deleted)
        false

  unfoldable pub get_violation_count : Text → ℕ → R.Store → ℕ × R.Store
  get_violation_count ip now = try_or (R.get now (violation_key ip) >>= λ n. return (count n)) 0
