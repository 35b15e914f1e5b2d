-- ===== src/UrlRequestLimiter/Tests.antt =====
-- The URL limiter at a concrete store of Redis.
use v2hub_api.Base.{ℕ, ◌≡◌, refl, none, [], ◌∷◌, Text, codes, length, arith}
use v2hub_api.Redis.{View, always_up}
use v2hub_api.UrlRequestLimiter.{limiter_settings}
use v2hub_api.UrlRequestLimiter.Limits.{
  allowed, check_all, smaller, at_least_one, check_all-allowed,
}

abbrev nothing : View
nothing t k = none

abbrev ip : Text
ip = codes "10.0.0.1"

check_all-allowed_example :
    allowed (check_all always_up limiter_settings ip (5 ∷ 6 ∷ 7 ∷ []) nothing).0
    ≡ smaller (at_least_one limiter_settings.requests_per_second) (length {A = ℕ} (5 ∷ 6 ∷ 7 ∷ []))
check_all-allowed_example =
    check_all-allowed always_up limiter_settings ip 5 (6 ∷ 7 ∷ []) nothing tt refl
      (omega arith, (omega arith, tt)) (omega arith, (omega arith, tt))
