-- ===== src/BanService/Bans.antt =====
-- ban_service.py, `is_banned` and `get_ban_info`: what they answer while a ban is held.
use v2hub_api.Base.{
  ℕ, ◌-◌, ◌/◌, ◌≤◌, ◌<◌, ◌≡◌, refl, ap, true, false, Option, some, Text, ◌∙◌, lt→ltb, ltb→lt,
  Bool-cases, Option-cases, inl, inr, leb→gt, gt→leb, ltb, leb, arith,
}
use v2hub_api.Redis.{Redis, second, ◌>>=◌, return, or_else}
use v2hub_api.BanService.{get_ban_info, ban_info, Settings, ban_key, is_banned, check_ban}
use v2hub_api.BanService.Counting.{Recorded, HoldsBan}

answers-false :
    {S A : Type 0} (m : S → Option A × S) (s : S)
    → or_else ((m >>= λ a. return false) s).0 false ≡ false
answers-false m s = elim (Option-cases (m s).0) [
  | inl raised ↦ rw (raised, ◌>>=◌) refl
  | inr (a, answered) ↦ rw (answered, ◌>>=◌) refl
]

module _ (R : Redis) (conf : Settings) (ip : Text) where
  -- Under a ban, the address is banned until the ban runs out.
  pub is_banned-HoldsBan :
      (expiry now t : ℕ) (s : R.Store)
      → HoldsBan R conf ip expiry now s
      → now ≤ t
      → (is_banned R conf ip t s).0 ≡ ltb t expiry
  unfolding is_banned check_ban
  is_banned-HoldsBan expiry now t s b h =
      let (answer, _, _) = R.get_law t (ban_key ip) s b.up in
      let read = answer ∙ ap some (b.banned t h) in
      elim (Bool-cases (ltb t expiry)) [
        | inl before ↦
            rw (read, ◌>>=◌)
              (rw (before, check_ban) (rw (gt→leb expiry t (ltb→lt t expiry before)) refl))
        | inr after ↦ rw (read, ◌>>=◌) (rw (after, check_ban) refl)
      ]

  pub is_banned-Recorded :
      (n since now t : ℕ) (s : R.Store)
      → Recorded R conf ip n since now s
      → now ≤ t
      → (is_banned R conf ip t s).0 ≡ false
  unfolding is_banned check_ban
  is_banned-Recorded n since now t s r h =
      let (answer, _, _) = R.get_law t (ban_key ip) s r.up in
      rw (answer ∙ ap some (r.unbanned t h), ◌>>=◌) refl

  -- Whatever Redis does, also when it raises, an address is reported as banned only if Redis holds
  -- a ban of it that has not run out.
  pub is_banned_sound :
      (t : ℕ) (s : R.Store)
      → (is_banned R conf ip t s).0 ≡ true
      → (expiry : ℕ) × (R.view s t (ban_key ip) ≡ some expiry) × (t < expiry)
  unfolding is_banned check_ban
  is_banned_sound t s e = elim (Option-cases (R.get t (ban_key ip) s).0) [
    | inl raised ↦ cc (rw (raised, ◌>>=◌) at e)
    | inr (o, answered) ↦ elim (Option-cases o) [
      | inl none_read ↦ cc (rw (none_read, check_ban) at (rw (answered, ◌>>=◌) at e))
      | inr (expiry, read) ↦ elim (Bool-cases (leb expiry t)) [
        | inl over ↦ cc (
          rw (over, check_ban) at (rw (read, check_ban) at (rw (answered, ◌>>=◌) at e)),
          answers-false (R.delete t (ban_key ip)) (R.get t (ban_key ip) s).1,
        )
        | inr running ↦
            (expiry, cc (R.get_reads t (ban_key ip) s o answered), leb→gt expiry t running)
      ]
    ]
  ]

  pub get_ban_info-HoldsBan :
      (expiry now t : ℕ) (s : R.Store)
      → HoldsBan R conf ip expiry now s
      → now ≤ t
      → t < expiry
      → (get_ban_info R conf ip t s).0
        ≡ some
            (record { ip = ip; banned_until = expiry; remaining_seconds = (expiry - t) / second })
  unfolding get_ban_info ban_info
  get_ban_info-HoldsBan expiry now t s b h before =
      let (answer, _, _) = R.get_law t (ban_key ip) s b.up in
      rw (answer ∙ ap some (b.banned t h), ◌>>=◌)
        (rw (lt→ltb t expiry before, ban_info) (rw (gt→leb expiry t before) refl))

  -- asking does not change what Redis holds
  pub is_banned-keeps :
      (expiry now t : ℕ) (s : R.Store)
      → HoldsBan R conf ip expiry now s
      → now ≤ t
      → t < expiry
      → HoldsBan R conf ip expiry t (is_banned R conf ip t s).1
  unfolding is_banned check_ban
  is_banned-keeps expiry now t s b h before =
      let (answer, up, holds) = R.get_law t (ban_key ip) s b.up in
      rw (answer ∙ ap some (b.banned t h), ◌>>=◌)
        (rw (lt→ltb t expiry before, check_ban)
          (rw (gt→leb expiry t before)
            record { up = up; banned = λ u k. holds u (ban_key ip) k ∙ b.banned u (omega arith) }))
