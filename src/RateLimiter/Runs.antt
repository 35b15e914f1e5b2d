-- ===== src/RateLimiter/Runs.antt =====
-- rate_limiter.py, `_check_limit_redis`: sequences of requests of one key.
use v2hub_api.Base.{
  ℕ, zero, suc, ◌+◌, ◌*◌, ◌≤◌, ◌<◌, ◌==◌, ◌≡◌, refl, sym, ap, subst, ◌∙◌, inl, inr, Bool, true,
  false, Option, List, [], ◌∷◌, Text, ltb, length, keep_if, Ascending, arith, Bool-cases, ltb→lt,
  lt→ltb, length-append,
}
use v2hub_api.RateLimiter.{
  SortedSets, Limiter, thousand, contains_time, add_time, sliding_window, get_redis,
  check_limit_redis, evaluated,
}
use v2hub_api.RateLimiter.Log.{recent, once_check, Agrees, sliding_window-Agrees, keep_if-append}

-- the requests at the given times, decided by the log
unfoldable pub once_all : ℕ → ℕ → List ℕ → List ℕ → List Bool × List ℕ
once_all max window [] log = ([], log)
once_all max window (t ∷ ts) log =
    let (allowed, log') = once_check max window t log in
    let (answers, log'') = once_all max window ts log' in (allowed ∷ answers, log'')

-- the times, each once, whose answer is that the request is admitted
abbrev pub admitted : List ℕ → List Bool → List ℕ → List ℕ
admitted (t ∷ ts) (true ∷ bs) log = admitted ts bs (add_time t log)
admitted (t ∷ ts) (false ∷ bs) log = admitted ts bs log
admitted _ _ log = log

once_all-admitted :
    (max window : ℕ) (ts log : List ℕ)
    → (once_all max window ts log).1 ≡ admitted ts (once_all max window ts log).0 log
unfolding once_all
once_all-admitted max window [] log = refl
once_all-admitted max window (t ∷ ts) log =
    elim (Bool-cases (ltb (length (keep_if (recent window t) log)) max)) [
      | inl room ↦ rw room (once_all-admitted max window ts (add_time t log))
      | inr full ↦ rw full (once_all-admitted max window ts log)
    ]

length-recent_later :
    (window t u : ℕ) (xs : List ℕ)
    → t ≤ u
    → length (keep_if (recent window u) xs) ≤ length (keep_if (recent window t) xs)
length-recent_later window t u [] h = omega arith
length-recent_later window t u (x ∷ xs) h = ground (arith, length-recent_later window t u xs h)

-- one more time at most
length-add_time :
    (p : ℕ → Bool) (x : ℕ) (xs : List ℕ)
    → length (keep_if p (add_time x xs)) ≤ suc (length (keep_if p xs))
length-add_time p x xs = elim (Bool-cases (contains_time x xs)) [
  | inl old ↦ rw old (omega arith)
  | inr new ↦ rw (new, keep_if-append, length-append) (ground arith)
]

abbrev last : ℕ → List ℕ → ℕ
last t [] = t
last t (u ∷ us) = last u us

-- the log keeps within the limit
once_all-bounded :
    (max window now : ℕ) (ts log : List ℕ)
    → length (keep_if (recent window now) log) ≤ max
    → Ascending now ts
    → (u : ℕ) → last now ts ≤ u
    → length (keep_if (recent window u) (once_all max window ts log).1) ≤ max
unfolding once_all
once_all-bounded max window now [] log b asc u h =
    omega (arith, b, length-recent_later window now u log h)
once_all-bounded max window now (t ∷ ts) log b asc u h =
    elim (Bool-cases (ltb (length (keep_if (recent window t) log)) max)) [
      | inl room ↦ rw room (
          once_all-bounded max window t ts (add_time t log)
            (omega (
              arith,
              ltb→lt (length (keep_if (recent window t) log)) max room,
              length-add_time (recent window t) t log,
            ))
            asc.1 u h)
      | inr full ↦ rw full (
          once_all-bounded max window t ts log
            (omega (arith, b, length-recent_later window now t log asc.0)) asc.1 u h)
    ]

module _ (S : SortedSets) (key : Text) (max window : ℕ) (clock : ℕ → ℕ)
    (connect : Option Bool) where
  -- one request after the other, each at its time
  pub check_all : List ℕ → Limiter S → List Bool × Limiter S
  check_all [] l = ([], l)
  check_all (t ∷ ts) l =
      let (answer, l') = check_limit_redis S key max window (clock t) t connect l in
      let (answers, l'') = check_all ts l' in (answer ∷ answers, l'')

  -- The limiter has a client, Redis answers, and the set is that of the log.
  record Follows (log : List ℕ) (now : ℕ) (l : Limiter S) : Type 0 where
    pub client : l.connection.has_client ≡ true
    pub up : S.Up l.store
    pub agrees : Agrees S key window log now l.store

  check_limit_redis-Follows :
      (log : List ℕ) (now t : ℕ) (l : Limiter S)
      → 0 < window
      → Follows log now l
      → now ≤ t
      → ((check_limit_redis S key max window (clock t) t connect l).0
          ≡ (once_check max window t log).0)
        × Follows
            (once_check max window t log).1
            t
            (check_limit_redis S key max window (clock t) t connect l).1
  unfolding check_limit_redis evaluated get_redis
  check_limit_redis-Follows log now t l long f h =
      let script = sliding_window S key max window t in
      let (decides, agrees) =
        sliding_window-Agrees S key window max log now t l.store long f.agrees h in
      rw f.client (
        rw (S.eval_answers script l.store f.up, evaluated)
          (
            decides,
            record {
              client = refl;
              up = S.eval_keeps_up script l.store f.up;
              agrees =
                  subst (Agrees S key window (once_check max window t log).1 t)
                    (sym (S.eval_runs script l.store f.up)) agrees;
            },
          ))

  check_all-Follows :
      (log : List ℕ) (now : ℕ) (ts : List ℕ) (l : Limiter S)
      → 0 < window
      → Follows log now l
      → Ascending now ts
      → (check_all ts l).0 ≡ (once_all max window ts log).0
  unfolding check_all once_all
  check_all-Follows log now [] l long f asc = refl
  check_all-Follows log now (t ∷ ts) l long f asc =
      let (answer, f') = check_limit_redis-Follows log now t l long f asc.0 in
      let rest = check_all-Follows (once_check max window t log).1 t ts _ long f' asc.1 in
      cc (answer, rest)

  empty-Follows :
      (now : ℕ) (l : Limiter S)
      → l.connection.has_client ≡ true
      → S.Up l.store
      → ((t : ℕ) → now ≤ t → S.scores l.store t key ≡ [])
      → Follows [] now l
  empty-Follows now l client up fresh = record {
    client = client;
    up = up;
    agrees = record { past = tt; same = λ t h. rw (fresh t h) refl };
  }

  -- The limiter has a client, Redis answers, the key's set is empty and the window is not. Then the
  -- requests that come at ascending times are decided as by a log that keeps each admitted time
  -- once, and admits a request if fewer than the maximum of its times are within the window.
  pub check_all-once :
      (now : ℕ) (ts : List ℕ) (l : Limiter S)
      → l.connection.has_client ≡ true
      → S.Up l.store
      → ((t : ℕ) → now ≤ t → S.scores l.store t key ≡ [])
      → 0 < window
      → Ascending now ts
      → (check_all ts l).0 ≡ (once_all max window ts []).0
  check_all-once now ts l client up fresh long asc =
      check_all-Follows [] now ts l long (empty-Follows now l client up fresh) asc

  -- The limiter has a client, Redis answers, the key's set is empty and the window is not. After
  -- requests at ascending times, at most the maximum of different times at which one was admitted
  -- are within the window.
  pub check_all-bounded :
      (now : ℕ) (ts : List ℕ) (l : Limiter S)
      → l.connection.has_client ≡ true
      → S.Up l.store
      → ((t : ℕ) → now ≤ t → S.scores l.store t key ≡ [])
      → 0 < window
      → Ascending now ts
      → (u : ℕ) → last now ts ≤ u
      → length (keep_if (recent window u) (admitted ts (check_all ts l).0 [])) ≤ max
  check_all-bounded now ts l client up fresh long asc u h =
      subst (λ (log : List ℕ). length (keep_if (recent window u) log) ≤ max)
        (once_all-admitted max window ts []
          ∙ ap (λ answers. admitted ts answers [])
              (sym (check_all-once now ts l client up fresh long asc)))
        (once_all-bounded max window now ts [] (omega arith) asc u h)

-- `n` times the same
abbrev pub repeat : {A : Type 0} → ℕ → A → List A
repeat zero a = []
repeat (suc n) a = a ∷ repeat n a

repeat-Ascending : (n t : ℕ) → Ascending t (repeat n t)
repeat-Ascending zero t = tt
repeat-Ascending (suc n) t = (omega arith, repeat-Ascending n t)

once_all-repeat :
    (max window n t : ℕ)
    → 1 < max
    → 0 < window
    → (once_all max window (repeat n t) (t ∷ [])).0 ≡ repeat n true
unfolding once_all
once_all-repeat max window zero t two long = refl
once_all-repeat max window (suc n) t two long =
    rw (lt→ltb t (t + window * thousand) (omega (arith, long)), lt→ltb 1 max two, ge_self t)
      (ap (λ bs. true ∷ bs) (once_all-repeat max window n t two long))
  where
    ge_self : (t : ℕ) → (t == t) ≡ true
    ge_self t = ground arith

module _ (S : SortedSets) (key : Text) (max window : ℕ) (clock : ℕ → ℕ)
    (connect : Option Bool) where
  -- The limiter has a client, Redis answers, the key's set is empty, the window is not and the
  -- maximum is at least two. Then any number of requests in the same millisecond are all admitted.
  pub check_all-burst :
      (n t : ℕ) (l : Limiter S)
      → l.connection.has_client ≡ true
      → S.Up l.store
      → ((u : ℕ) → t ≤ u → S.scores l.store u key ≡ [])
      → 0 < window
      → 1 < max
      → (check_all S key max window clock connect (repeat n t) l).0 ≡ repeat n true
  unfolding once_all
  check_all-burst zero t l client up fresh long two =
      check_all-once S key max window clock connect t [] l client up fresh long tt
  check_all-burst (suc n) t l client up fresh long two =
      check_all-once S key max window clock connect t (repeat (suc n) t) l client up fresh long
        (repeat-Ascending (suc n) t)
      ∙ rw (lt→ltb 0 max (omega (arith, two)))
          (ap (λ bs. true ∷ bs) (once_all-repeat max window n t two long))
