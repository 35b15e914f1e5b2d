-- ===== src/UrlRequestLimiter/Failures.antt =====
-- url_request_limiter.py, `record_failure`, `clear_failures` and `get_failure_count`: the
-- failures before and after a success.
use v2hub_api.Base.{
  ℕ, suc, ◌+◌, ◌*◌, ◌≤◌, ◌<◌, ◌≡◌, refl, ap, ◌∙◌, false, some, none, Text, ltb, gt→leb, arith,
  if◌then◌else◌,
}
use v2hub_api.Redis.{Redis, second, count, until, ◌>>=◌}
use v2hub_api.Redis.Keys.{incr_same, expire_same, delete_same}
use v2hub_api.UrlRequestLimiter.{
  Settings, failure_key, record_failure, clear_failures, get_failure_count, start_window,
  check_failures,
}

module _ (R : Redis) (conf : Settings) (ip : Text) where
  -- what a first failure leaves
  first_store : ℕ → R.Store → R.Store
  first_store t s =
      (R.expire t (failure_key ip) conf.failure_window (R.incr t (failure_key ip) s).1).1

  record_failure-first :
      (t : ℕ) (s : R.Store)
      → R.Up s
      → R.view s t (failure_key ip) ≡ none
      → 1 < conf.max_failures
      → record_failure R conf ip t s ≡ (false, first_store t s)
  unfolding record_failure start_window check_failures first_store
  record_failure-first t s up new two =
      let key = failure_key ip in
      let (answer, up', _) = R.incr_law t key s up in
      let (answer', _, _) = R.expire_law t key conf.failure_window (R.incr t key s).1 up' in
      rw (answer ∙ ap (λ o. some (suc (count o))) new, ◌>>=◌)
        (rw (answer', ◌>>=◌) (rw (gt→leb conf.max_failures 1 two) refl))

  -- Redis answers and one failure alone does not ban. After the failures of an address are cleared,
  -- its next failure is not reported as a ban, and it is counted as the only one until its window
  -- is over, when none is.
  pub record_failure-clear_failures :
      (t u v : ℕ) (s : R.Store)
      → R.Up s
      → t ≤ u
      → u ≤ v
      → 1 < conf.max_failures
      → let failed = record_failure R conf ip u (clear_failures R conf ip t s).1 in
        (failed.0 ≡ false)
        × ((get_failure_count R conf ip v failed.1).0
            ≡ (if ltb v (u + conf.failure_window * second) then 1 else 0))
  unfolding clear_failures get_failure_count first_store
  record_failure-clear_failures t u v s up h k two =
      let key = failure_key ip in
      let (answer, up1, _) = R.delete_law t key s up in
      let s1 = (R.delete t key s).1 in
      let new = delete_same R t key s up u h in
      let (_, up2, _) = R.incr_law u key s1 up1 in
      let s2 = (R.incr u key s1).1 in
      let (_, up3, _) = R.expire_law u key conf.failure_window s2 up2 in
      let (read, _, _) = R.get_law v key (first_store u s1) up3 in
      let counted : R.view (first_store u s1) v key
          ≡ until v (u + conf.failure_window * second) (some 1) =
        expire_same R u key s2 up2 conf.failure_window v k
        ∙ rw (incr_same R u key s1 up1 u (omega arith), new) refl in
      rw (answer, ◌>>=◌)
        (rw (record_failure-first u s1 up1 new two)
          (refl, rw (read ∙ ap some counted, ◌>>=◌) (ground arith)))
