-- ===== src/RateLimiter/Tests.antt =====
-- The rate limiter over sorted sets that always answer.
use v2hub_api.Base.{ℕ, ◌≡◌, refl, true, false, none, List, [], ◌∷◌, Text, codes, arith}
use v2hub_api.RateLimiter.{Limiter}
use v2hub_api.RateLimiter.Always.{sets}
use v2hub_api.RateLimiter.Runs.{check_all, repeat, check_all-burst}
use v2hub_api.RateLimiter.Exact.{log_all, check_all-log}

abbrev key : Text
key = codes "rate_limit:internal_no_token:10.0.0.1"

abbrev fresh : Limiter sets
fresh = record {
  connection = record { has_client = true; redis_available = true; redis_unavailable_since = 0 };
  store = λ t k. [];
}

abbrev clock : ℕ → ℕ
clock t = t

abbrev times : List ℕ
times = 5000 ∷ 5001 ∷ 5002 ∷ 5003 ∷ 8001 ∷ []

check_all-log_example : (check_all sets key 3 3 clock none times fresh).0 ≡ log_all 3 3 times []
check_all-log_example =
    check_all-log sets key 3 3 clock none 5000 times fresh refl tt (λ t h. refl) (omega arith)
      (omega arith, (omega arith, (omega arith, (omega arith, (omega arith, tt)))))

-- The fourth request of the window is refused, and one is admitted when the first has left it.
log_answers : log_all 3 3 times [] ≡ true ∷ true ∷ true ∷ false ∷ true ∷ []
unfolding log_all
log_answers = refl

-- Requests of one millisecond count once: all five pass a limit of three.
burst : (check_all sets key 3 3 clock none (repeat 5 5000) fresh).0 ≡ repeat 5 true
burst =
    check_all-burst sets key 3 3 clock none 5 5000 fresh refl tt (λ t h. refl) (omega arith)
      (omega arith)
