-- ===== src/RateLimitMiddleware.antt =====
-- src/v2hub_api/middlewares/rate_limit_middleware.py: the check that stands before an endpoint. A
-- banned address is turned away, and a request above the limit is a violation.
mod Answers
mod Tests
use v2hub_api.Base.{
  ℕ, Bool, true, false, Option, none, some, List, [], ◌∷◌, Text, codes, if◌then◌else◌,
}
use v2hub_api.Base.Strings.{strip, split_once}
use v2hub_api.Models.{filled}
use v2hub_api.Redis.{Redis}
use v2hub_api.BanService.{BanInfo, is_banned, get_ban_info, record_violation, Settings}
use v2hub_api.RateLimiter.{
  SortedSets, Limiter, RateLimitConfig, check_public_limit, check_internal_limit,
}

-- what is read of a request
pub record Request : Type 0 where
  pub real_ip : Option Text
  pub forwarded_for : Option Text
  pub client_host : Option Text
  pub api_token : Option Text

-- `text.split(",")[0]`
first_part : Text → Option (Text × Text) → Text
first_part text none = text
first_part text (some (first, rest)) = first

direct_ip : Option Text → Text
direct_ip none = codes "unknown"
direct_ip (some host) = host

forwarded_ip : Option Text → Option Text → Text
forwarded_ip none host = direct_ip host
forwarded_ip (some addresses) host = strip (first_part addresses (split_once (codes ",") addresses))

header_ip : Option Text → Request → Text
header_ip none request = forwarded_ip (filled request.forwarded_for) request.client_host
header_ip (some ip) request = strip ip

unfoldable pub get_client_ip : Request → Text
unfolding header_ip forwarded_ip direct_ip first_part
get_client_ip request = header_ip (filled request.real_ip) request

stripped : Option Text → Option Text
stripped none = none
stripped (some token) = some (strip token)

unfoldable pub get_api_token : Request → Option Text
unfolding stripped
get_api_token request = stripped (filled request.api_token)

-- `RateLimitError`, with the reason that its message gives
pub data RateLimitError : Type 0 where
  ip_banned : RateLimitError
  banned_until : ℕ → ℕ → RateLimitError
  too_many_requests : Bool → RateLimitError

-- `retry_after` of a request above the limit
abbrev pub retry_after : ℕ
retry_after = 120

module _ (R : Redis) (ban_settings : Settings) (S : SortedSets) where
  pub record State : Type 0 where
    pub bans : R.Store
    pub limiter : Limiter S

  -- the error for a banned address
  ban_error : Option BanInfo → RateLimitError
  ban_error none = ip_banned
  ban_error (some info) = banned_until info.banned_until info.remaining_seconds

  -- steps 2 and 3: `limit` is the limiter's check. There is no ban service without Redis.
  limit_refused : Bool → Text → ℕ → State → Option RateLimitError × State
  limit_refused false ip now st = (some (too_many_requests false), st)
  limit_refused true ip now st =
      let (was_banned, bans) = record_violation R ban_settings ip now st.bans in
      (some (too_many_requests was_banned), record st { bans = bans })

  limit_checked :
      Bool → Text → ℕ → (Limiter S → Bool × Limiter S) → State → Option RateLimitError × State
  unfolding limit_refused
  limit_checked ban_service ip now limit st =
      let (allowed, limiter) = limit st.limiter in
      let st' = record st { limiter = limiter } in
      if allowed then (none, st') else limit_refused ban_service ip now st'

  ban_refused : Text → ℕ → State → Option RateLimitError × State
  unfolding ban_error
  ban_refused ip now st =
      let (info, bans) = get_ban_info R ban_settings ip now st.bans in
      (some (ban_error info), record st { bans = bans })

  -- `none` lets the request pass.
  unfoldable pub check_rate_limit :
      Bool → Text → ℕ → (Limiter S → Bool × Limiter S) → State → Option RateLimitError × State
  unfolding limit_checked ban_refused
  check_rate_limit false ip now limit st = limit_checked false ip now limit st
  check_rate_limit true ip now limit st =
      let (banned, bans) = is_banned R ban_settings ip now st.bans in
      let st' = record st { bans = bans } in
      if banned then ban_refused ip now st' else limit_checked true ip now limit st'

  -- Bans are in microseconds, the limiter's times in milliseconds.
  module _ (whitelist : Option (Text → Bool)) (conf : RateLimitConfig) where
    pub check_public_rate_limit :
        Bool → ℕ → ℕ → ℕ → Option Bool → Request → State → Option RateLimitError × State
    check_public_rate_limit ban_service now clock now_ms connect request =
        let ip = get_client_ip request in
        check_rate_limit ban_service ip now
          (check_public_limit S whitelist conf ip clock now_ms connect)

    pub check_internal_rate_limit :
        Bool → ℕ → ℕ → ℕ → Option Bool → Request → State → Option RateLimitError × State
    check_internal_rate_limit ban_service now clock now_ms connect request =
        let ip = get_client_ip request in
        check_rate_limit ban_service ip now
          (check_internal_limit S whitelist conf ip (get_api_token request) clock now_ms connect)
