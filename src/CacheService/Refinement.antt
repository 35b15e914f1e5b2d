-- ===== src/CacheService/Refinement.antt =====
-- cache_service.py: the service over its two levels implements one map from hashes to contents.
use v2hub_api.CacheService.Commands.{TextRedis}
use v2hub_api.CacheService.Repository.{get_content, delete_by_url_hash}
use v2hub_api.CacheService.Rows.{get_content-delete_by_url_hash}
use v2hub_api.Base.{
  Ascending, map, ◌≡◌, ◌≢◌, refl, ap, ◌∙◌, Bool, true, false, Option, none, some, List, [], ◌∷◌,
  Text, text_eq, arith, if◌then◌else◌, Result, ok, ◌<◌, ◌≤◌, ℕ,
}
use v2hub_api.ConfigParser.{get_url_hash}
use v2hub_api.HttpClient.{Raised}
use v2hub_api.HttpClient.Fetch.{Network, fetch}
use v2hub_api.CacheService.{
  Settings, State, get_from_cache_only, fetch_and_cache, refresh, get_or_fetch, delete_cache,
  invalidate,
}
use v2hub_api.CacheService.Levels.{drop_from_redis-Agrees}
use v2hub_api.CacheService.Steps.{
  store_fetched_answer, Good, fetched_content, get_from_cache_only-content,
  get_from_cache_only-Good, store_fetched-rows, store_fetched-Good,
}

-- The operations of the service.
pub data Operation : Type 0 where
  read refreshing invalidating : Text → Operation
  reading : Text → Bool → Operation
  deleting : Text → Operation

abbrev pub Contents : Type 0
Contents = Text → Option Text

abbrev pub Answer : Type 0
Answer = Result Raised (Option Text)

abbrev pub put : Text → Option Text → Contents → Contents
put h content m j = if text_eq h j then content else m j

-- The specification: `fetched` is what the HTTP client gives for a URL, and `hash` is the hash.
module _ (hash : Text → Text) (fetched : Text → Answer) where
  abbrev pub fresh : Text → Contents → Answer × Contents
  fresh url m = (fetched url, put (hash url) (fetched_content (fetched url) (m (hash url))) m)

  abbrev pub abstract : Operation → Contents → Answer × Contents
  abstract (read url) m = (ok (m (hash url)), m)
  abstract (refreshing url) m = fresh url m
  abstract (reading url true) m = fresh url m
  abstract (reading url false) m = (ok (m (hash url)), m)
  abstract (invalidating url) m = (ok none, put (hash url) none m)
  abstract (deleting h) m = (ok none, put h none m)

module _ (M : TextRedis) (N : Network) (conf : Settings) where
  abbrev pub run : Operation → ℕ → State M N conf → Answer × State M N conf
  run (read url) now st =
      let (cached, st') = get_from_cache_only M N conf url now st in (ok cached, st')
  run (refreshing url) now st = refresh M N conf url now st
  run (reading url b) now st = get_or_fetch M N conf url b now st
  run (invalidating url) now st = (ok none, invalidate M N conf url now st)
  run (deleting h) now st = (ok none, delete_cache M N conf h now st)

  abbrev pub fetches : State M N conf → Text → Answer
  fetches st url = (fetch N conf.client url st.network).0

  abbrev pub spec : Operation → State M N conf → Contents → Answer × Contents
  spec op st m = abstract (get_url_hash conf.blake2b) (fetches st) op m

  abbrev pub Holds : State M N conf → Contents → Type 0
  Holds st m = (j : Text) → get_content j st.rows ≡ m j

  abbrev pub NeverEmpty : Type 0
  NeverEmpty = (url : Text) (n : N.State) → (fetch N conf.client url n).0 ≢ ok (some [])

  abbrev Simulates : Operation → ℕ → State M N conf → Contents → Type 0
  Simulates op now st m =
      Good M N conf now (run op now st).1
      × ((run op now st).0 ≡ (spec op st m).0)
      × Holds (run op now st).1 (spec op st m).1

  read-Simulates :
      (url : Text) (now : ℕ) (st : State M N conf) (m : Contents)
      → 0 < conf.redis_ttl
      → Good M N conf now st
      → Holds st m
      → Simulates (read url) now st m
  read-Simulates url now st m long good holds =
      let (good', same) = get_from_cache_only-Good M N conf url now st long good in
      (
        good',
        ap ok (
            get_from_cache_only-content M N conf url now st (λ on. (good on).1)
            ∙ holds (get_url_hash conf.blake2b url)),
        λ j. ap (get_content j) same ∙ holds j,
      )

  fresh-Simulates :
      (url : Text) (now : ℕ) (st : State M N conf) (m : Contents)
      → 0 < conf.redis_ttl
      → NeverEmpty
      → Good M N conf now st
      → Holds st m
      → Simulates (refreshing url) now st m
  unfolding refresh fetch_and_cache
  fresh-Simulates url now st m long full good holds = (
    store_fetched-Good M N conf url (get_url_hash conf.blake2b url) now (fetches st url) _ long
        (full url st.network) good,
    store_fetched_answer M N conf url (get_url_hash conf.blake2b url) now (fetches st url) _,
    λ j.
        store_fetched-rows M N conf url (get_url_hash conf.blake2b url) now (fetches st url) _ j
        ∙ rw (holds (get_url_hash conf.blake2b url), holds j) refl,
  )

  delete-Simulates :
      (h : Text) (now : ℕ) (st : State M N conf) (m : Contents)
      → Good M N conf now st
      → Holds st m
      → Simulates (deleting h) now st m
  unfolding delete_cache
  delete-Simulates h now st m good holds = (
    λ on.
        let (up, agrees) = good on in
        drop_from_redis-Agrees M N conf h now st.store (delete_by_url_hash h st.rows) on up
          (λ t j c le other e.
            get_content-delete_by_url_hash h st.rows j ∙ rw other (agrees t j c le e)),
    refl,
    λ j. get_content-delete_by_url_hash h st.rows j ∙ rw (holds j) refl,
  )

  -- If what Redis holds agrees with the table, every operation of the service answers what the map
  -- answers and leaves the contents that the map has, and the levels agree again; provided that
  -- Redis answers and that no fetch gives the empty text.
  pub run-Simulates :
      (op : Operation) (now : ℕ) (st : State M N conf) (m : Contents)
      → 0 < conf.redis_ttl
      → NeverEmpty
      → Good M N conf now st
      → Holds st m
      → Simulates op now st m
  unfolding get_or_fetch invalidate refresh
  run-Simulates (read url) now st m long full good holds =
      read-Simulates url now st m long good holds
  run-Simulates (refreshing url) now st m long full good holds =
      fresh-Simulates url now st m long full good holds
  run-Simulates (reading url true) now st m long full good holds =
      fresh-Simulates url now st m long full good holds
  run-Simulates (reading url false) now st m long full good holds =
      read-Simulates url now st m long good holds
  run-Simulates (invalidating url) now st m long full good holds =
      delete-Simulates (get_url_hash conf.blake2b url) now st m good holds
  run-Simulates (deleting h) now st m long full good holds = delete-Simulates h now st m good holds

  -- Every answer of a run is the map's, and so are the contents at its end.
  pub Behaves : List (ℕ × Operation) → State M N conf → Contents → Type 0
  Behaves [] st m = Holds st m
  Behaves ((now, op) ∷ ops) st m =
      ((run op now st).0 ≡ (spec op st m).0) × Behaves ops (run op now st).1 (spec op st m).1

  later-Good :
      (now later : ℕ) (st : State M N conf)
      → now ≤ later
      → Good M N conf now st
      → Good M N conf later st
  later-Good now later st le good on =
      let (up, agrees) = good on in (up, λ t h c l e. agrees t h c (omega (arith, le, l)) e)

  -- The service behaves like one map from hashes to contents over any run of its operations, at
  -- times that do not decrease, from a state whose levels agree: no answer depends on which level
  -- holds a content, nor on the time to live in Redis. Redis answers, or there is none, its time to
  -- live is positive, and no fetch gives the empty text.
  pub run-Behaves :
      (now : ℕ) (ops : List (ℕ × Operation)) (st : State M N conf) (m : Contents)
      → 0 < conf.redis_ttl
      → NeverEmpty
      → Ascending now (map (λ op. op.0) ops)
      → Good M N conf now st
      → Holds st m
      → Behaves ops st m
  unfolding Behaves
  run-Behaves now [] st m long full times good holds = holds
  run-Behaves now ((later, op) ∷ ops) st m long full times good holds =
      let (good', answer, holds') =
        run-Simulates op later st m long full (later-Good now later st times.0 good) holds in
      (
        answer,
        run-Behaves later ops (run op later st).1 (spec op st m).1 long full times.1 good' holds',
      )
