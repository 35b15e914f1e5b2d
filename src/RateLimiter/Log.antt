-- ===== src/RateLimiter/Log.antt =====
-- rate_limiter.py, the Lua script, compared with a log of the admitted times, each kept once,
-- as the set keeps the requests of one millisecond as one member.
use v2hub_api.Base.{
  ℕ, ◌+◌, ◌-◌, ◌*◌, ◌≤◌, ◌<◌, ◌≡◌, refl, sym, ap, ◌∙◌, inl, inr, Bool, true, false, ◌==◌, List, [],
  ◌∷◌, ◌++◌, Text, leb, ltb, if◌then◌else◌, length, keep_if, All, arith, Bool-cases, ==_iff, leb→le,
  leb→gt, ltb→lt, ltb→ge, lt→ltb, ge→ltb,
}
use v2hub_api.RateLimiter.{
  SortedSets, thousand, contains_time, add_time, sliding_window, remove_old,
}

-- whether a time is within the window that ends now
abbrev pub recent : ℕ → ℕ → ℕ → Bool
recent window now x = ltb now (x + window * thousand)

-- The log, with each time once: a request is admitted if fewer than `max` of its times are within
-- the window.
abbrev pub once_check : ℕ → ℕ → ℕ → List ℕ → Bool × List ℕ
once_check max window now log =
    if ltb (length (keep_if (recent window now) log)) max
    then (true, add_time now log)
    else (false, log)

keep_if-keep_if :
    (p q : ℕ → Bool) (xs : List ℕ)
    → ((x : ℕ) → p x ≡ true → q x ≡ true)
    → keep_if p (keep_if q xs) ≡ keep_if p xs
keep_if-keep_if p q [] h = refl
keep_if-keep_if p q (x ∷ xs) h = ground (arith, h x, keep_if-keep_if p q xs h)

keep_if_cong : (p q : ℕ → Bool) (xs : List ℕ) → ((x : ℕ) → p x ≡ q x) → keep_if p xs ≡ keep_if q xs
keep_if_cong p q [] h = refl
keep_if_cong p q (x ∷ xs) h = rw h (ap (λ ys. if q x then x ∷ ys else ys) (keep_if_cong p q xs h))

keep_if_all : (p : ℕ → Bool) (xs : List ℕ) → ((x : ℕ) → p x ≡ true) → keep_if p xs ≡ xs
keep_if_all p [] h = refl
keep_if_all p (x ∷ xs) h = rw h (ap (λ ys. x ∷ ys) (keep_if_all p xs h))

contains_time-keep_if :
    (p : ℕ → Bool) (x : ℕ) (xs : List ℕ)
    → p x ≡ true
    → contains_time x (keep_if p xs) ≡ contains_time x xs
contains_time-keep_if p x [] h = refl
contains_time-keep_if p x (y ∷ ys) h = elim (Bool-cases (y == x)) [
  | inl same ↦ rw (ap p ((==_iff y x).0 same) ∙ h) (rw same refl)
  | inr other ↦ ground (arith, contains_time-keep_if p x ys h)
]

pub keep_if-append :
    (p : ℕ → Bool) (xs ys : List ℕ) → keep_if p (xs ++ ys) ≡ keep_if p xs ++ keep_if p ys
keep_if-append p [] ys = refl
keep_if-append p (x ∷ xs) ys = ground (arith, keep_if-append p xs ys)

keep_if-add_time :
    (p : ℕ → Bool) (x : ℕ) (xs : List ℕ)
    → p x ≡ true
    → keep_if p (add_time x xs) ≡ add_time x (keep_if p xs)
keep_if-add_time p x xs h =
    rw (contains_time-keep_if p x xs h) (elim (Bool-cases (contains_time x xs)) [
      | inl old ↦ rw old refl
      | inr new ↦ rw new (keep_if-append p xs (x ∷ []) ∙ rw h refl)
    ])

recent_later : (window t u x : ℕ) → t ≤ u → recent window u x ≡ true → recent window t x ≡ true
recent_later window t u x h e =
    lt→ltb t (x + window * thousand) (omega (arith, ltb→lt u (x + window * thousand) e))

past_later :
    (before now : ℕ) (log : List ℕ)
    → before ≤ now
    → All (λ x. x ≤ before) log
    → All (λ x. x ≤ now) log
past_later before now [] h a = tt
past_later before now (x ∷ xs) h a = (omega (arith, a.0), past_later before now xs h a.1)

past_snoc : (now : ℕ) (log : List ℕ) → All (λ x. x ≤ now) log → All (λ x. x ≤ now) (log ++ now ∷ [])
past_snoc now [] a = (omega arith, tt)
past_snoc now (x ∷ xs) a = (a.0, past_snoc now xs a.1)

past_add : (now : ℕ) (log : List ℕ) → All (λ x. x ≤ now) log → All (λ x. x ≤ now) (add_time now log)
past_add now log a = elim (Bool-cases (contains_time now log)) [
  | inl old ↦ rw old a
  | inr new ↦ rw new (past_snoc now log a)
]

-- a log is forgotten once it is older than the window
keep_if_none :
    (window now u : ℕ) (log : List ℕ)
    → All (λ x. x ≤ now) log
    → now + window * thousand ≤ u
    → keep_if (recent window u) log ≡ []
keep_if_none window now u [] a h = refl
keep_if_none window now u (x ∷ xs) a h =
    rw (ge→ltb u (x + window * thousand) (omega (arith, a.0, h)))
      (keep_if_none window now u xs a.1 h)

module _ (S : SortedSets) (key : Text) (window : ℕ) where
  -- From `now` on, the times of the log that are still within the window are those in the set.
  pub record Agrees (log : List ℕ) (now : ℕ) (s : S.Store) : Type 0 where
    pub past : All (λ x. x ≤ now) log
    pub same :
        (t : ℕ)
        → now ≤ t
        → keep_if (recent window t) (S.scores s t key) ≡ keep_if (recent window t) log

  -- what the removal leaves at a later time
  remove_old-recent :
      (now u : ℕ) (s : S.Store)
      → now ≤ u
      → S.scores (remove_old S key window now s) u key
        ≡ keep_if (recent window now) (S.scores s u key)
  unfolding remove_old
  remove_old-recent now u s h = elim (Bool-cases (leb (window * thousand) now)) [
    | inl started ↦ rw started (
        S.zremrangebyscore_law now key (now - window * thousand) s u h
        ∙ keep_if_cong _ (recent window now) (S.scores s u key)
            (λ x. ground (arith, leb→le (window * thousand) now started)))
    | inr early ↦ rw early (
        sym (
          keep_if_all (recent window now) (S.scores s u key)
            (λ x. ground (arith, leb→gt (window * thousand) now early))))
  ]

  remove_old-Agrees :
      (log : List ℕ) (before now : ℕ) (s : S.Store)
      → Agrees log before s
      → before ≤ now
      → Agrees log now (remove_old S key window now s)
  remove_old-Agrees log before now s a h = record {
    past = past_later before now log h a.past;
    same = λ u k.
        ap (keep_if (recent window u)) (remove_old-recent now u s k)
        ∙ keep_if-keep_if (recent window u) (recent window now) (S.scores s u key)
            (λ x. recent_later window now u x k)
        ∙ a.same u (omega arith);
  }

  admitted_store : ℕ → S.Store → S.Store
  admitted_store now s = S.expire now key (window * 2) (S.zadd now key now s)

  admitted-Agrees :
      (log : List ℕ) (now : ℕ) (s : S.Store)
      → 0 < window
      → Agrees log now s
      → S.scores s now key ≡ keep_if (recent window now) log
      → Agrees (add_time now log) now (admitted_store now s)
  unfolding admitted_store
  admitted-Agrees log now s open_window a exact = record {
    past = past_add now log a.past;
    same = λ u k.
        rw
          (
            S.expire_law now key (window * 2) (S.zadd now key now s) u k,
            S.zadd_law now key now s,
            exact,
          )
          (elim (Bool-cases (ltb u (now + window * 2 * thousand))) [
            | inl alive ↦ rw alive (
                ap (keep_if (recent window u))
                  (sym (keep_if-add_time (recent window now) now log (ground arith)))
                ∙ keep_if-keep_if (recent window u) (recent window now) (add_time now log)
                    (λ x. recent_later window now u x k))
            | inr gone ↦ rw gone (
                sym (
                  keep_if_none window now u (add_time now log) (past_add now log a.past)
                    (omega (arith, ltb→ge u (now + window * 2 * thousand) gone))))
          ]);
  }

  -- One check decides as the log does, and the set keeps agreeing with it.
  pub sliding_window-Agrees :
      (max : ℕ) (log : List ℕ) (before now : ℕ) (s : S.Store)
      → 0 < window
      → Agrees log before s
      → before ≤ now
      → ((sliding_window S key max window now s).0 ≡ (once_check max window now log).0)
        × Agrees (once_check max window now log).1 now (sliding_window S key max window now s).1
  unfolding sliding_window admitted_store
  sliding_window-Agrees max log before now s open_window a h =
      let s1 = remove_old S key window now s in
      let exact = remove_old-recent now now s (omega arith) ∙ a.same now h in
      let a1 = remove_old-Agrees log before now s a h in
      rw (S.zcard_law now key s1 ∙ ap length exact)
        (elim (Bool-cases (ltb (length (keep_if (recent window now) log)) max)) [
          | inl room ↦ rw room (refl, admitted-Agrees log now s1 open_window a1 exact)
          | inr full ↦ rw full (refl, a1)
        ])
