-- ===== src/RateLimitMiddleware/Tests.antt =====
-- The check before an endpoint at a concrete ban and request.
use v2hub_api.Base.{
  ◌-◌, ◌/◌, ◌≡◌, ◌↔◌, refl, Bool, true, false, ◌&&◌, none, some, [], Text, codes, text_eq, arith,
  if◌then◌else◌,
}
use v2hub_api.Base.Strings.{strip, lstrip, rstrip, put_before, is_space, split_once, after_prefix}
use v2hub_api.Redis.{View, second, always_up, until}
use v2hub_api.BanService.{service_settings, ban_key, violation_key, is_banned}
use v2hub_api.BanService.Counting.{HoldsBan}
use v2hub_api.RateLimiter.{Limiter}
use v2hub_api.RateLimiter.Always.{sets}
use v2hub_api.RateLimitMiddleware.{
  State, banned_until, check_rate_limit, get_client_ip, header_ip, forwarded_ip, first_part,
}
use v2hub_api.RateLimitMiddleware.Answers.{check_rate_limit_iff, check_rate_limit-banned}

abbrev ip : Text
ip = codes "10.0.0.1"

abbrev bans : View
bans t k =
    if text_eq (ban_key ip) k
    then until t 9000000 (some 9000000)
    else (if text_eq (violation_key ip) k then some 2 else none)

abbrev state : State always_up service_settings sets
state = record {
  bans = bans;
  limiter = record {
    connection = record { has_client = true; redis_available = true; redis_unavailable_since = 0 };
    store = λ t k. [];
  };
}

-- a limiter that admits every request
abbrev admit : Limiter sets → Bool × Limiter sets
admit l = (true, l)

bans-HoldsBan : HoldsBan always_up service_settings ip 9000000 5 bans
unfolding ban_key violation_key text_eq
bans-HoldsBan = record { up = tt; banned = λ t h. refl }

check_rate_limit-banned_example :
    ((check_rate_limit always_up service_settings sets true ip 7000000 admit state).0
      ≡ some (banned_until 9000000 ((9000000 - 7000000) / second)))
    × ((check_rate_limit always_up service_settings sets true ip 7000000 admit state).1.limiter
        ≡ state.limiter)
check_rate_limit-banned_example =
    check_rate_limit-banned always_up service_settings sets ip 9000000 5 7000000 admit state
      bans-HoldsBan (omega arith) (omega arith)

check_rate_limit_iff_example :
    ((check_rate_limit always_up service_settings sets true ip 7000000 admit state).0 ≡ none) ↔ (
      ((true && (is_banned always_up service_settings ip 7000000 bans).0) ≡ false)
      × ((admit state.limiter).0 ≡ true))
check_rate_limit_iff_example =
    check_rate_limit_iff always_up service_settings sets true ip 7000000 admit state

-- The first address of X-Forwarded-For is the client's, if there is no X-Real-IP.
client_ip :
    get_client_ip (record {
      real_ip = some [];
      forwarded_for = some (codes " 10.0.0.1 , 10.0.0.2");
      client_host = none;
      api_token = none;
    })
    ≡ ip
unfolding get_client_ip header_ip forwarded_ip first_part strip lstrip rstrip put_before is_space
    split_once after_prefix
client_ip = refl
