-- ===== src/BanService/Tests.antt =====
-- The ban service at a concrete store of Redis.
use v2hub_api.Base.{
  ℕ, ◌+◌, ◌*◌, ◌≤◌, ◌≡◌, refl, true, none, some, [], ◌∷◌, Text, codes, text_eq, ltb, arith,
  if◌then◌else◌,
}
use v2hub_api.Redis.{View, second, always_up}
use v2hub_api.BanService.{service_settings, ban_key, is_banned, check_ban}
use v2hub_api.BanService.Runs.{record_all, record_all-bans, last_bans}

abbrev nothing : View
nothing t k = none

abbrev ip : Text
ip = codes "10.0.0.1"

record_all-bans_example :
    ((record_all always_up service_settings ip (5 ∷ 6 ∷ 7 ∷ []) nothing).0 ≡ last_bans (6 ∷ 7 ∷ []))
    × ((u : ℕ)
        → 7 ≤ u
        → (is_banned always_up service_settings ip u
            (record_all always_up service_settings ip (5 ∷ 6 ∷ 7 ∷ []) nothing).1).0
          ≡ ltb u (7 + service_settings.ban_duration * second))
record_all-bans_example =
    record_all-bans always_up service_settings ip 5 (6 ∷ 7 ∷ []) nothing tt (λ u h. refl)
      (λ u h. refl) (omega arith) (omega arith, (omega arith, tt))
      (omega arith, (omega arith, (omega arith, tt))) refl

abbrev banned_store : View
banned_store t k = if text_eq (ban_key ip) k then some 9 else none

banned_now : (is_banned always_up service_settings ip 8 banned_store).0 ≡ true
unfolding is_banned check_ban ban_key text_eq
banned_now = refl
