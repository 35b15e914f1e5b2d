-- ===== src/CacheService/Tests.antt =====
-- The cache service at a concrete run over a Redis that always answers.
use v2hub_api.Base.{
  Bool-cases, inl, inr, ltb, sym, ap, ◌∙◌, ℕ, ◌≡◌, refl, true, none, some, List, [], ◌∷◌, Text,
  codes, text_eq, ok, arith, if◌then◌else◌,
}
use v2hub_api.Base.Strings.{strip, lstrip, rstrip, put_before, is_space}
use v2hub_api.ConfigParser.{get_url_hash}
use v2hub_api.HttpClient.Samples.{client, steady, steady-fetch}
use v2hub_api.CacheService.{
  Settings, State, redis_key, get_from_cache_only, get_from_redis, try_redis, after_redis,
  store_fetched, keep_content,
}
use v2hub_api.CacheService.Commands.{TextView, texts_up}
use v2hub_api.CacheService.Repository.{
  ExternalCache, get_by_url_hash, get_content, stored, create_or_update_cache,
}
use v2hub_api.CacheService.Levels.{redis_key-text_eq, Agrees}
use v2hub_api.CacheService.Steps.{get_from_cache_only-content}
use v2hub_api.CacheService.Refinement.{
  Operation, read, refreshing, deleting, Behaves, NeverEmpty, run-Behaves, Holds,
}

abbrev settings : Settings
settings = record { has_redis = true; redis_ttl = 60; blake2b = λ s. s; client = client }

abbrev url : Text
url = codes "https://a.b/s"

abbrev row : ExternalCache
row = record {
  url_hash = url;
  url = url;
  raw_content = some (codes "old");
  fetched_at = none;
  last_error = none;
  error_count = 0;
}

-- Redis holds the old content until the time 100.
abbrev view : TextView
view t k =
    if text_eq (redis_key url) k then (if ltb t 100 then some (codes "old") else none) else none

abbrev state : State texts_up steady settings
state = record { store = view; rows = row ∷ []; network = 0 }

view-Agrees : (now : ℕ) → Agrees texts_up steady settings now view (row ∷ [])
unfolding get_content get_by_url_hash
view-Agrees now t h c le e = elim (Bool-cases (text_eq url h)) [
  | inr other ↦ cc (rw (redis_key-text_eq url h, other) at e)
  | inl hit ↦ elim (Bool-cases (ltb t 100)) [
    | inl live ↦ rw hit (rw (redis_key-text_eq url h, hit, live) at e)
    | inr gone ↦ cc (rw (redis_key-text_eq url h, hit, gone) at e)
  ]
]

steady-NeverEmpty : NeverEmpty texts_up steady settings
steady-NeverEmpty u n e = cc (ap (λ r. r.0) (sym (steady-fetch u n)) ∙ e)

state-Holds : Holds texts_up steady settings state (λ j. get_content j (row ∷ []))
state-Holds j = refl

abbrev ops : List (ℕ × Operation)
ops =
    (5, read url)
    ∷ (7, refreshing url)
    ∷ (7, read url)
    ∷ (90000000, read url)
    ∷ (90000000, deleting url)
    ∷ []

run-Behaves_example : Behaves texts_up steady settings ops state (λ j. get_content j (row ∷ []))
run-Behaves_example =
    run-Behaves texts_up steady settings 0 ops state (λ j. get_content j (row ∷ [])) (omega arith)
      steady-NeverEmpty
      (omega arith, (omega arith, (omega arith, (omega arith, (omega arith, tt)))))
      (λ on. (tt, view-Agrees 0)) state-Holds

get_from_cache_only-content_example :
    (get_from_cache_only texts_up steady settings url 5 state).0
    ≡ get_content (get_url_hash settings.blake2b url) (row ∷ [])
get_from_cache_only-content_example =
    get_from_cache_only-content texts_up steady settings url 5 state (λ on. view-Agrees 5)

-- An empty answer replaces the content in the table and not the one in Redis, which is still read.
stale_after_empty :
    (get_from_cache_only texts_up steady settings url 6
      (store_fetched texts_up steady settings url url 5 (ok (some [])) state).1).0
    ≡ some (codes "old")
unfolding get_from_cache_only try_redis get_from_redis after_redis store_fetched keep_content
    redis_key text_eq get_url_hash strip lstrip rstrip put_before is_space
stale_after_empty = refl

-- A first fetch leaves no time of a fetch, and a later one leaves the error and its count.
first_fetch :
    create_or_update_cache url url (some (codes "x")) none 5 []
    ≡ record row { raw_content = some (codes "x") } ∷ []
unfolding create_or_update_cache stored get_by_url_hash
first_fetch = refl
