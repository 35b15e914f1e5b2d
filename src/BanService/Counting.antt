-- ===== src/BanService/Counting.antt =====
-- ban_service.py, `record_violation`: what one violation does to the counter and the ban of its
-- address, when Redis answers.
use v2hub_api.Base.{
  ℕ, zero, suc, ◌+◌, ◌*◌, ◌==◌, ◌≤◌, ◌<◌, ◌≡◌, refl, ap, true, false, Option, none, some, Text,
  text_eq, ◌∙◌, lt→ltb, gt→leb, le→leb, arith,
}
use v2hub_api.Redis.{Redis, second, count, until, ◌>>=◌, return, try_or}
use v2hub_api.Redis.Keys.{
  set_same, incr_same, incr_other, expire_same, expire_other, delete_same, delete_other,
}
use v2hub_api.BanService.{
  Settings, ban_key, violation_key, record_violation, ban_automatically, start_window,
  check_violations, store_ban,
}

pub key_apart : (ip jp : Text) → text_eq (violation_key ip) (ban_key jp) ≡ false
unfolding text_eq ban_key violation_key
key_apart ip jp = refl

pub key_apart_sym : (ip jp : Text) → text_eq (ban_key ip) (violation_key jp) ≡ false
unfolding text_eq ban_key violation_key
key_apart_sym ip jp = refl

-- what the counter holds after `n` violations
abbrev pub counter : ℕ → Option ℕ
counter zero = none
counter (suc n) = some (suc n)

ne_one : (n : ℕ) → (suc (suc n) == 1) ≡ false
ne_one n = ground arith

count-counter : (n : ℕ) → count (counter n) ≡ n
count-counter zero = refl
count-counter (suc n) = refl

module _ (R : Redis) (conf : Settings) (ip : Text) where
  -- From `now` on, `n` violations are counted, the first of them at `since`, and there is no ban.
  pub record Recorded (n since now : ℕ) (s : R.Store) : Type 0 where
    pub up : R.Up s
    pub counted :
        (t : ℕ)
        → now ≤ t
        → R.view s t (violation_key ip)
          ≡ until t (since + conf.violation_window * second) (counter n)
    pub unbanned : (t : ℕ) → now ≤ t → R.view s t (ban_key ip) ≡ none

  -- From `now` on, there is a ban until `expiry`.
  pub record HoldsBan (expiry now : ℕ) (s : R.Store) : Type 0 where
    pub up : R.Up s
    pub banned : (t : ℕ) → now ≤ t → R.view s t (ban_key ip) ≡ until t expiry (some expiry)

  -- From `now` on, there is a ban until `expiry`, and no violation is counted.
  pub record BannedUntil (expiry now : ℕ) (s : R.Store) : Type 0 where
    pub up : R.Up s
    pub banned : (t : ℕ) → now ≤ t → R.view s t (ban_key ip) ≡ until t expiry (some expiry)
    pub cleared : (t : ℕ) → now ≤ t → R.view s t (violation_key ip) ≡ none

  -- the counter, once it is incremented and, at first, given its time to live
  abbrev counted_store : ℕ → ℕ → R.Store → R.Store
  counted_store n t s =
      let s1 = (R.incr t (violation_key ip) s).1 in
      elim n [ zero ↦ (R.expire t (violation_key ip) conf.violation_window s1).1 | suc m ↦ s1 ]

  -- while the window is open, the counter reads `n`
  Recorded-now :
      (n since now t : ℕ) (s : R.Store)
      → Recorded n since now s
      → now ≤ t
      → t < since + conf.violation_window * second
      → R.view s t (violation_key ip) ≡ counter n
  Recorded-now n since now t s r h before =
      r.counted t h ∙ rw (lt→ltb t (since + conf.violation_window * second) before) refl

  Recorded-answer :
      (n since now t : ℕ) (s : R.Store)
      → Recorded n since now s
      → now ≤ t
      → t < since + conf.violation_window * second
      → (R.incr t (violation_key ip) s).0 ≡ some (suc n)
  Recorded-answer n since now t s r h before =
      let (answer, _, _) = R.incr_law t (violation_key ip) s r.up in
      answer
      ∙ ap (λ o. some (suc (count o))) (Recorded-now n since now t s r h before)
      ∙ ap (λ m. some (suc m)) (count-counter n)

  counted_store-Recorded :
      (n since now t : ℕ) (s : R.Store)
      → Recorded n since now s
      → now ≤ t
      → t < since + conf.violation_window * second
      → (n ≡ 0 → since ≡ t)
      → Recorded (suc n) since t (counted_store n t s)
  counted_store-Recorded zero since now t s r h before first =
      let key = violation_key ip in
      let (_, up, _) = R.incr_law t key s r.up in
      let s1 = (R.incr t key s).1 in
      let (_, up', _) = R.expire_law t key conf.violation_window s1 up in
      record {
        up = up';
        counted = λ u k.
            expire_same R t key s1 up conf.violation_window u k
            ∙ rw
                (
                  incr_same R t key s r.up t (omega arith),
                  Recorded-now 0 since now t s r h before,
                  first refl,
                )
                refl;
        unbanned = λ u k.
            expire_other R t key s1 up conf.violation_window (ban_key ip) u (key_apart ip ip) k
            ∙ incr_other R t key s r.up (ban_key ip) u (key_apart ip ip) k
            ∙ r.unbanned u (omega arith);
      }
  counted_store-Recorded (suc n) since now t s r h before first =
      let key = violation_key ip in
      let (_, up, _) = R.incr_law t key s r.up in
      record {
        up = up;
        counted = λ u k.
            incr_same R t key s r.up u k
            ∙ rw (Recorded-now (suc n) since now t s r h before, r.counted u (omega arith))
                (ground arith);
        unbanned = λ u k.
            incr_other R t key s r.up (ban_key ip) u (key_apart ip ip) k
            ∙ r.unbanned u (omega arith);
      }

  first-start_window :
      (t : ℕ) → start_window R conf ip t 1 ≡ R.expire t (violation_key ip) conf.violation_window
  unfolding start_window
  first-start_window t = refl

  later-start_window : (n t : ℕ) → start_window R conf ip t (suc (suc n)) ≡ return tt
  unfolding start_window
  later-start_window n t = rw (ne_one n) refl

  -- the violation is counted, and the check of the count decides
  record_violation-counted :
      (n since now t : ℕ) (s : R.Store)
      → Recorded n since now s
      → now ≤ t
      → t < since + conf.violation_window * second
      → record_violation R conf ip t s
        ≡ try_or (check_violations R conf ip t (suc n)) false (counted_store n t s)
  unfolding record_violation
  record_violation-counted zero since now t s r h before =
      let key = violation_key ip in
      let (_, up, _) = R.incr_law t key s r.up in
      let (answer, _, _) = R.expire_law t key conf.violation_window (R.incr t key s).1 up in
      rw (Recorded-answer 0 since now t s r h before, record_violation, ◌>>=◌)
        (rw (first-start_window t, record_violation, ◌>>=◌)
          (rw (answer, record_violation, ◌>>=◌) refl))
  record_violation-counted (suc n) since now t s r h before =
      rw (Recorded-answer (suc n) since now t s r h before, record_violation, ◌>>=◌)
        (rw (later-start_window n t, record_violation, ◌>>=◌) (rw (later-start_window n t) refl))

  -- A violation below the threshold is counted and bans nobody.
  pub record_violation-Recorded :
      (n since now t : ℕ) (s : R.Store)
      → Recorded n since now s
      → now ≤ t
      → t < since + conf.violation_window * second
      → (n ≡ 0 → since ≡ t)
      → suc n < conf.max_violations
      → ((record_violation R conf ip t s).0 ≡ false)
        × Recorded (suc n) since t (record_violation R conf ip t s).1
  unfolding check_violations
  record_violation-Recorded n since now t s r h before first below =
      rw
        (
          record_violation-counted n since now t s r h before,
          gt→leb conf.max_violations (suc n) below,
        )
        (refl, counted_store-Recorded n since now t s r h before first)

  ban_store : ℕ → R.Store → R.Store
  ban_store t s =
      (R.delete t (violation_key ip)
        (R.set t (ban_key ip) (t + conf.ban_duration * second) conf.ban_duration s).1).1

  ban_store-BannedUntil :
      (n since t : ℕ) (s : R.Store)
      → 0 < conf.ban_duration
      → Recorded n since t s
      → BannedUntil (t + conf.ban_duration * second) t (ban_store t s)
  unfolding ban_store
  ban_store-BannedUntil n since t s long r =
      let v = t + conf.ban_duration * second in
      let (_, up, _) = R.set_law t (ban_key ip) v conf.ban_duration s long r.up in
      let s1 = (R.set t (ban_key ip) v conf.ban_duration s).1 in
      let (_, up', _) = R.delete_law t (violation_key ip) s1 up in
      record {
        up = up';
        banned = λ u k.
            delete_other R t (violation_key ip) s1 up (ban_key ip) u (key_apart ip ip) k
            ∙ set_same R t (ban_key ip) s r.up v conf.ban_duration long u k;
        cleared = λ u k. delete_same R t (violation_key ip) s1 up u k;
      }

  -- The violation that reaches the threshold bans the address and clears its counter.
  pub record_violation-BannedUntil :
      (n since now t : ℕ) (s : R.Store)
      → 0 < conf.ban_duration
      → Recorded n since now s
      → now ≤ t
      → t < since + conf.violation_window * second
      → (n ≡ 0 → since ≡ t)
      → conf.max_violations ≤ suc n
      → ((record_violation R conf ip t s).0 ≡ true)
        × BannedUntil (t + conf.ban_duration * second) t (record_violation R conf ip t s).1
  unfolding check_violations ban_automatically store_ban ban_store
  record_violation-BannedUntil n since now t s long r h before first reached =
      let r' = counted_store-Recorded n since now t s r h before first in
      let v = t + conf.ban_duration * second in
      let s1 = counted_store n t s in
      let (_, up, _) = R.set_law t (ban_key ip) v conf.ban_duration s1 long r'.up in
      let (answer, _, _) =
        R.delete_law t (violation_key ip) (R.set t (ban_key ip) v conf.ban_duration s1).1 up in
      rw
        (
          record_violation-counted n since now t s r h before,
          le→leb conf.max_violations (suc n) reached,
          answer,
          ◌>>=◌,
        )
        (refl, ban_store-BannedUntil (suc n) since t s1 long r')
