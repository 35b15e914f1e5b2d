-- ===== src/RateLimiter/Exact.antt =====
-- rate_limiter.py, `_check_limit_redis`: requests of different milliseconds, compared with a log of
-- all admitted requests.
use v2hub_api.Base.{
  ℕ, suc, ◌≤◌, ◌<◌, ◌≡◌, refl, ap, ◌∙◌, inl, inr, Bool, true, false, Option, List, [], ◌∷◌, ◌++◌,
  Text, ltb, length, keep_if, Ascending, arith, Bool-cases, All, if◌then◌else◌,
}
use v2hub_api.RateLimiter.{SortedSets, Limiter, contains_time}
use v2hub_api.RateLimiter.Log.{recent}
use v2hub_api.RateLimiter.Runs.{once_all, check_all, check_all-once}

-- A log with one entry for each admitted request: a request is admitted if fewer than `max` entries
-- are within the window.
abbrev pub log_check : ℕ → ℕ → ℕ → List ℕ → Bool × List ℕ
log_check max window now log =
    if ltb (length (keep_if (recent window now) log)) max
    then (true, log ++ now ∷ [])
    else (false, log)

-- the requests at the given times, decided by the log
unfoldable pub log_all : ℕ → ℕ → List ℕ → List ℕ → List Bool
log_all max window [] log = []
log_all max window (t ∷ ts) log =
    let (allowed, log') = log_check max window t log in allowed ∷ log_all max window ts log'

-- The times start at `t` or later, and each is later than the one before.
abbrev pub Rising : ℕ → List ℕ → Type 0
Rising t [] = Unit
Rising t (u ∷ us) = (t ≤ u) × Rising (suc u) us

Rising-Ascending : (now t : ℕ) (ts : List ℕ) → now ≤ t → Rising t ts → Ascending now ts
Rising-Ascending now t [] h r = tt
Rising-Ascending now t (u ∷ us) h r =
    (omega (arith, r.0), Rising-Ascending u (suc u) us (omega arith) r.1)

new_time : (t u : ℕ) (log : List ℕ) → All (λ x. x < t) log → t ≤ u → contains_time u log ≡ false
new_time t u [] a h = refl
new_time t u (x ∷ xs) a h = ground (arith, new_time t u xs a.1 h, a.0)

earlier_snoc :
    (t u : ℕ) (log : List ℕ) → All (λ x. x < t) log → t ≤ u → All (λ x. x < suc u) (log ++ u ∷ [])
earlier_snoc t u [] a h = (omega arith, tt)
earlier_snoc t u (x ∷ xs) a h = (omega (arith, a.0), earlier_snoc t u xs a.1 h)

earlier_later : (t u : ℕ) (log : List ℕ) → All (λ x. x < t) log → t ≤ u → All (λ x. x < suc u) log
earlier_later t u [] a h = tt
earlier_later t u (x ∷ xs) a h = (omega (arith, a.0), earlier_later t u xs a.1 h)

once_all-eq-log_all :
    (max window t : ℕ) (ts log : List ℕ)
    → All (λ x. x < t) log
    → Rising t ts
    → (once_all max window ts log).0 ≡ log_all max window ts log
unfolding once_all log_all
once_all-eq-log_all max window t [] log a r = refl
once_all-eq-log_all max window t (u ∷ us) log a r =
    elim (Bool-cases (ltb (length (keep_if (recent window u) log)) max)) [
      | inl room ↦ rw room (
          rw (new_time t u log a r.0) (
            ap (λ bs. true ∷ bs)
              (once_all-eq-log_all max window (suc u) us (log ++ u ∷ [])
                (earlier_snoc t u log a r.0) r.1)))
      | inr full ↦ rw full (
          ap (λ bs. false ∷ bs)
            (once_all-eq-log_all max window (suc u) us log (earlier_later t u log a r.0) r.1))
    ]

module _ (S : SortedSets) (key : Text) (max window : ℕ) (clock : ℕ → ℕ)
    (connect : Option Bool) where
  -- The limiter has a client, Redis answers, the key's set is empty and the window is not. Then
  -- requests of which each comes in a later millisecond than the one before are decided as by a log
  -- of all admitted requests, which admits a request if fewer than the maximum of its entries are
  -- within the window.
  pub check_all-log :
      (now : ℕ) (ts : List ℕ) (l : Limiter S)
      → l.connection.has_client ≡ true
      → S.Up l.store
      → ((t : ℕ) → now ≤ t → S.scores l.store t key ≡ [])
      → 0 < window
      → Rising now ts
      → (check_all S key max window clock connect ts l).0 ≡ log_all max window ts []
  check_all-log now ts l client up fresh long rising =
      check_all-once S key max window clock connect now ts l client up fresh long
        (Rising-Ascending now now ts (omega arith) rising)
      ∙ once_all-eq-log_all max window now ts [] tt rising
