-- ===== src/BanService/Runs.antt =====
-- ban_service.py: a sequence of violations of one address, and the ban at its end.
use v2hub_api.Base.{
  ℕ, suc, ◌+◌, ◌*◌, ◌≤◌, ◌<◌, ◌≡◌, refl, ap, ◌∙◌, Bool, true, false, none, List, [], ◌∷◌, Text, ltb,
  length, arith, All, Ascending,
}
use v2hub_api.Redis.{Redis, second}
use v2hub_api.BanService.{Settings, ban_key, violation_key, record_violation, is_banned}
use v2hub_api.BanService.Counting.{
  Recorded, BannedUntil, record_violation-Recorded, record_violation-BannedUntil,
}
use v2hub_api.BanService.Bans.{is_banned-HoldsBan}

abbrev pub last : ℕ → List ℕ → ℕ
last t [] = t
last t (u ∷ us) = last u us

-- "not banned" for each violation but the last, which bans
abbrev pub last_bans : List ℕ → List Bool
last_bans [] = true ∷ []
last_bans (u ∷ us) = false ∷ last_bans us

module _ (R : Redis) (conf : Settings) (ip : Text) where
  -- one violation after the other
  pub record_all : List ℕ → R.Store → List Bool × R.Store
  record_all [] s = ([], s)
  record_all (t ∷ ts) s =
      let (banned, s') = record_violation R conf ip t s in
      let (answers, s'') = record_all ts s' in (banned ∷ answers, s'')

  record_all-BannedUntil :
      (n since now t : ℕ) (ts : List ℕ) (s : R.Store)
      → 0 < conf.ban_duration
      → Recorded R conf ip n since now s
      → Ascending now (t ∷ ts)
      → All (λ u. u < since + conf.violation_window * second) (t ∷ ts)
      → (n ≡ 0 → since ≡ t)
      → suc n + length ts ≡ conf.max_violations
      → ((record_all (t ∷ ts) s).0 ≡ last_bans ts)
        × BannedUntil R conf ip
            (last t ts + conf.ban_duration * second)
            (last t ts)
            (record_all (t ∷ ts) s).1
  unfolding record_all
  record_all-BannedUntil n since now t [] s long r asc within first exact =
      let (answer, b) =
        record_violation-BannedUntil R conf ip n since now t s long r asc.0 within.0 first
          (omega arith) in
      (ap (λ a. a ∷ []) answer, b)
  record_all-BannedUntil n since now t (u ∷ us) s long r asc within first exact =
      let (answer, r') =
        record_violation-Recorded R conf ip n since now t s r asc.0 within.0 first
          (omega (arith, exact)) in
      let (answers, b) =
        record_all-BannedUntil (suc n) since t u us _ long r' asc.1 within.1
          (λ e. absurd (omega (arith, e))) (omega (arith, exact)) in
      (cc (answer, answers), b)

  -- Redis answers, no violation of the address is counted and it is not banned. If as many
  -- violations follow as are allowed, all within the window that the first one opens, then each is
  -- answered with "not banned" but the last, and from then on the address is banned until the
  -- duration of the ban is over, and no longer.
  pub record_all-bans :
      (t : ℕ) (ts : List ℕ) (s : R.Store)
      → R.Up s
      → ((u : ℕ) → t ≤ u → R.view s u (violation_key ip) ≡ none)
      → ((u : ℕ) → t ≤ u → R.view s u (ban_key ip) ≡ none)
      → 0 < conf.ban_duration
      → Ascending t ts
      → All (λ u. u < t + conf.violation_window * second) (t ∷ ts)
      → suc (length ts) ≡ conf.max_violations
      → ((record_all (t ∷ ts) s).0 ≡ last_bans ts)
        × ((u : ℕ)
            → last t ts ≤ u
            → (is_banned R conf ip u (record_all (t ∷ ts) s).1).0
              ≡ ltb u (last t ts + conf.ban_duration * second))
  record_all-bans t ts s up uncounted unbanned long asc within exact =
      let r : Recorded R conf ip 0 t t s = record {
        up = up;
        counted = λ u h. uncounted u h ∙ ground arith;
        unbanned = unbanned;
      } in
      let (answers, b) =
        record_all-BannedUntil 0 t t t ts s long r (omega arith, asc) within (λ e. refl)
          (omega (arith, exact)) in
      (
        answers,
        λ u h.
            is_banned-HoldsBan R conf ip (last t ts + conf.ban_duration * second) (last t ts) u _
              (record { up = b.up; banned = b.banned }) h,
      )
