-- ===== src/UrlRequestLimiter/Limits.antt =====
-- url_request_limiter.py, `check_limit`: how many requests are let through in a second.
use v2hub_api.Base.{
  ℕ, suc, ◌+◌, ◌-◌, ◌≤◌, ◌<◌, ◌≡◌, refl, ap, ◌∙◌, Bool, true, false, none, some, List, [], ◌∷◌,
  Text, leb, ◌==◌, arith, All, Ascending, Bool-cases, inl, inr, lt→ltb, le→leb, gt→leb, leb→le,
  leb→gt, if◌then◌else◌, length,
}
use v2hub_api.Redis.{Redis, second, until, ◌>>=◌}
use v2hub_api.Redis.Keys.{get_same, set_same, incr_same}
use v2hub_api.UrlRequestLimiter.{Settings, request_key, check_limit, check_count}

abbrev pub allowed : List Bool → ℕ
allowed [] = 0
allowed (true ∷ bs) = suc (allowed bs)
allowed (false ∷ bs) = allowed bs

abbrev pub smaller : ℕ → ℕ → ℕ
smaller a b = if leb a b then a else b

-- The first request of a second is let through also with a limit of 0.
abbrev pub at_least_one : ℕ → ℕ
at_least_one n = if n == 0 then 1 else n

module _ (R : Redis) (conf : Settings) (ip : Text) where
  -- one request after the other
  pub check_all : List ℕ → R.Store → List Bool × R.Store
  check_all [] s = ([], s)
  check_all (t ∷ ts) s =
      let (answer, s') = check_limit R conf ip t s in
      let (answers, s'') = check_all ts s' in (answer ∷ answers, s'')

  -- From `now` on, `n` requests are counted until `expiry`.
  pub record Counted (n expiry now : ℕ) (s : R.Store) : Type 0 where
    pub up : R.Up s
    pub reads : (t : ℕ) → now ≤ t → R.view s t (request_key ip) ≡ until t expiry (some n)

  Counted-now :
      (n expiry now t : ℕ) (s : R.Store)
      → Counted n expiry now s
      → now ≤ t
      → t < expiry
      → R.view s t (request_key ip) ≡ some n
  Counted-now n expiry now t s c h before = c.reads t h ∙ rw (lt→ltb t expiry before) refl

  Counted-get :
      (n expiry now t : ℕ) (s : R.Store)
      → Counted n expiry now s
      → now ≤ t
      → Counted n expiry t (R.get t (request_key ip) s).1
  Counted-get n expiry now t s c h =
      let (_, up, _) = R.get_law t (request_key ip) s c.up in
      record {
        up = up;
        reads = λ u k. get_same R t (request_key ip) s c.up u k ∙ c.reads u (omega arith);
      }

  -- what `check_limit` reads
  Counted-answer :
      (n expiry now t : ℕ) (s : R.Store)
      → Counted n expiry now s
      → now ≤ t
      → t < expiry
      → (R.get t (request_key ip) s).0 ≡ some (some n)
  Counted-answer n expiry now t s c h before =
      let (answer, _, _) = R.get_law t (request_key ip) s c.up in
      answer ∙ ap some (Counted-now n expiry now t s c h before)

  Counted-incr :
      (n expiry t : ℕ) (s : R.Store)
      → Counted n expiry t s
      → t < expiry
      → Counted (suc n) expiry t (R.incr t (request_key ip) s).1
  Counted-incr n expiry t s c before =
      let (_, up, _) = R.incr_law t (request_key ip) s c.up in
      record {
        up = up;
        reads = λ u k.
            incr_same R t (request_key ip) s c.up u k
            ∙ rw (Counted-now n expiry t t s c (omega arith) before, c.reads u k) (ground arith);
      }

  check_limit-refused :
      (n expiry now t : ℕ) (s : R.Store)
      → Counted n expiry now s
      → now ≤ t
      → t < expiry
      → conf.requests_per_second ≤ n
      → ((check_limit R conf ip t s).0 ≡ false) × Counted n expiry t (check_limit R conf ip t s).1
  unfolding check_limit check_count
  check_limit-refused n expiry now t s c h before full =
      rw (Counted-answer n expiry now t s c h before, ◌>>=◌)
        (rw (le→leb conf.requests_per_second n full, check_count)
          (refl, Counted-get n expiry now t s c h))

  check_limit-allowed :
      (n expiry now t : ℕ) (s : R.Store)
      → Counted n expiry now s
      → now ≤ t
      → t < expiry
      → n < conf.requests_per_second
      → ((check_limit R conf ip t s).0 ≡ true)
        × Counted (suc n) expiry t (check_limit R conf ip t s).1
  unfolding check_limit check_count
  check_limit-allowed n expiry now t s c h before room =
      let c' = Counted-get n expiry now t s c h in
      let (answer, _, _) = R.incr_law t (request_key ip) (R.get t (request_key ip) s).1 c'.up in
      rw (Counted-answer n expiry now t s c h before, ◌>>=◌)
        (rw (gt→leb conf.requests_per_second n room, check_count)
          (rw (answer, ◌>>=◌) (refl, Counted-incr n expiry t _ c' before)))

  check_limit-first :
      (t : ℕ) (s : R.Store)
      → R.Up s
      → R.view s t (request_key ip) ≡ none
      → ((check_limit R conf ip t s).0 ≡ true)
        × Counted 1 (t + second) t (check_limit R conf ip t s).1
  unfolding check_limit check_count
  check_limit-first t s up new =
      let (answer, up', _) = R.get_law t (request_key ip) s up in
      let s1 = (R.get t (request_key ip) s).1 in
      let (answer', up'', _) = R.set_law t (request_key ip) 1 1 s1 (omega arith) up' in
      rw (answer ∙ ap some new, ◌>>=◌)
        (rw (answer', ◌>>=◌)
          (
            refl,
            record {
              up = up'';
              reads = λ u k. set_same R t (request_key ip) s1 up' 1 1 (omega arith) u k;
            },
          ))

  check_all-Counted :
      (n expiry now : ℕ) (ts : List ℕ) (s : R.Store)
      → Counted n expiry now s
      → Ascending now ts
      → All (λ u. u < expiry) ts
      → allowed (check_all ts s).0 ≡ smaller (conf.requests_per_second - n) (length ts)
  unfolding check_all
  check_all-Counted n expiry now [] s c asc before = ground arith
  check_all-Counted n expiry now (t ∷ ts) s c asc before =
      elim (Bool-cases (leb conf.requests_per_second n)) [
        | inl full ↦
            let (answer, c') =
              check_limit-refused n expiry now t s c asc.0 before.0
                (leb→le conf.requests_per_second n full) in
            let rest = check_all-Counted n expiry t ts _ c' asc.1 before.1 in
            rw answer (rest ∙ ground (arith, leb→le conf.requests_per_second n full))
        | inr room ↦
            let below = leb→gt conf.requests_per_second n room in
            let (answer, c') = check_limit-allowed n expiry now t s c asc.0 before.0 below in
            let rest = check_all-Counted (suc n) expiry t ts _ c' asc.1 before.1 in
            rw answer (ap suc rest ∙ ground arith)
      ]

  -- Redis answers and no request of the address is counted. Of any requests within one second of
  -- the first, as many are let through as the limit allows, but one if the limit is 0, and all if
  -- there are no more.
  pub check_all-allowed :
      (t : ℕ) (ts : List ℕ) (s : R.Store)
      → R.Up s
      → R.view s t (request_key ip) ≡ none
      → Ascending t ts
      → All (λ u. u < t + second) ts
      → allowed (check_all (t ∷ ts) s).0
        ≡ smaller (at_least_one conf.requests_per_second) (length (t ∷ ts))
  unfolding check_all
  check_all-allowed t ts s up new asc before =
      let (answer, c) = check_limit-first t s up new in
      let rest = check_all-Counted 1 (t + second) t ts _ c asc before in
      rw answer (ap suc rest ∙ ground arith)
