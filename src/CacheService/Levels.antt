-- ===== src/CacheService/Levels.antt =====
-- cache_service.py: the two levels agree, and a read then answers what the table holds.
use v2hub_api.Base.{
  text_eq_iff, ◌*◌, ◌+◌, ◌<◌, ltb, arith, true, false, ℕ, ◌≤◌, ◌≡◌, refl, sym, ap, ◌∙◌, inl, inr,
  some, List, [], ◌∷◌, Text, text_eq, Bool-cases, Option-cases,
}
use v2hub_api.Models.{filled}
use v2hub_api.Redis.{second, ◌>>=◌}
use v2hub_api.HttpClient.Fetch.{Network}
use v2hub_api.CacheService.{
  set_to_redis, keep_in_redis, drop_from_redis, redis_key, Settings, get_from_redis, try_redis,
}
use v2hub_api.CacheService.Commands.{text_until, TextRedis}
use v2hub_api.CacheService.Repository.{ExternalCache, get_content}

-- Another URL's key is another key.
pub redis_key-text_eq : (h j : Text) → text_eq (redis_key h) (redis_key j) ≡ text_eq h j
unfolding redis_key text_eq
redis_key-text_eq h j = refl

module _ (M : TextRedis) (N : Network) (conf : Settings) where
  -- From a time on, a value in Redis that is not empty is the content in the table.
  abbrev pub Agrees : ℕ → M.Store → List ExternalCache → Type 0
  Agrees now s rows =
      (t : ℕ) (h c : Text)
      → now ≤ t
      → filled (M.view s t (redis_key h)) ≡ some c
      → get_content h rows ≡ some c

  pub try_redis_sound :
      (h c : Text) (now : ℕ) (s : M.Store)
      → (try_redis M N conf h now s).0 ≡ some c
      → (conf.has_redis ≡ true) × (filled (M.view s now (redis_key h)) ≡ some c)
  unfolding try_redis get_from_redis
  try_redis_sound h c now s e = elim (Bool-cases conf.has_redis) [
    | inr without ↦ cc (rw without at e)
    | inl with_redis ↦ elim (Option-cases (M.get now (redis_key h) s).0) [
      | inl raised ↦ cc (rw (get_from_redis, ◌>>=◌, raised) at (rw with_redis at e))
      | inr (r, answered) ↦
          let read : r ≡ M.view s now (redis_key h) = M.get_reads now (redis_key h) s r answered in
          (
            with_redis,
            ap filled (sym read) ∙ rw (get_from_redis, ◌>>=◌, answered) at (rw with_redis at e),
          )
    ]
  ]

  -- What the commands keep while Redis is up.
  pub try_redis-Agrees :
      (h : Text) (now : ℕ) (s : M.Store) (rows : List ExternalCache)
      → M.Up s
      → Agrees now s rows
      → M.Up (try_redis M N conf h now s).1 × Agrees now (try_redis M N conf h now s).1 rows
  unfolding try_redis get_from_redis
  try_redis-Agrees h now s rows up agrees = elim (Bool-cases conf.has_redis) [
    | inr without ↦ rw without (up, agrees)
    | inl with_redis ↦
        let (answered, up', same) = M.get_law now (redis_key h) s up in
        rw with_redis (
          rw (get_from_redis, ◌>>=◌, answered)
            (up', λ t j c le e. agrees t j c le (ap filled (sym (same t (redis_key j) le)) ∙ e)))
  ]

  -- The same for all keys but one URL's.
  abbrev pub AgreesBut : Text → ℕ → M.Store → List ExternalCache → Type 0
  AgreesBut h now s rows =
      (t : ℕ) (j c : Text)
      → now ≤ t
      → text_eq h j ≡ false
      → filled (M.view s t (redis_key j)) ≡ some c
      → get_content j rows ≡ some c

  filled-text_until : (t expiry : ℕ) (v c : Text) → filled (text_until t expiry v) ≡ some c → v ≡ c
  filled-text_until t expiry [] c e = ground (arith, e)
  filled-text_until t expiry (d ∷ v) c e = elim (Bool-cases (ltb t expiry)) [
    | inl live ↦ cc (rw live at e)
    | inr gone ↦ cc (rw gone at e)
  ]

  -- A stored value belongs to the content of the table.
  pub keep_in_redis-Agrees :
      (h v : Text) (now : ℕ) (s : M.Store) (rows : List ExternalCache)
      → conf.has_redis ≡ true
      → 0 < conf.redis_ttl
      → M.Up s
      → AgreesBut h now s rows
      → get_content h rows ≡ some v
      → M.Up (keep_in_redis M N conf h v now s) × Agrees now (keep_in_redis M N conf h v now s) rows
  unfolding keep_in_redis set_to_redis
  keep_in_redis-Agrees h v now s rows on long up agrees held =
      let (_, up', same) = M.setex_law now (redis_key h) conf.redis_ttl v s long up in
      rw on (
        up',
        λ t j c le e. elim (Bool-cases (text_eq h j)) [
          | inl hit ↦
              let live : filled (text_until t (now + conf.redis_ttl * second) v) ≡ some c =
                rw (same t (redis_key j) le, redis_key-text_eq h j, hit) at e in
              ap (λ k. get_content k rows) (sym ((text_eq_iff h j).0 hit))
              ∙ held
              ∙ ap some (filled-text_until t _ v c live)
          | inr other ↦
              agrees t j c le other
                (rw (same t (redis_key j) le, redis_key-text_eq h j, other) at e)
        ],
      )

  -- A deleted value is no value.
  pub drop_from_redis-Agrees :
      (h : Text) (now : ℕ) (s : M.Store) (rows : List ExternalCache)
      → conf.has_redis ≡ true
      → M.Up s
      → AgreesBut h now s rows
      → M.Up (drop_from_redis M N conf h now s) × Agrees now (drop_from_redis M N conf h now s) rows
  unfolding drop_from_redis
  drop_from_redis-Agrees h now s rows on up agrees =
      let (_, up', same) = M.delete_law now (redis_key h) s up in
      rw on (
        up',
        λ t j c le e. elim (Bool-cases (text_eq h j)) [
          | inl hit ↦ cc (rw (same t (redis_key j) le, redis_key-text_eq h j, hit) at e)
          | inr other ↦
              agrees t j c le other
                (rw (same t (redis_key j) le, redis_key-text_eq h j, other) at e)
        ],
      )
