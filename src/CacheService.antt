-- ===== src/CacheService.antt =====
-- src/v2hub_api/services/cache_service.py: two levels of cached contents, Redis (L1) before the
-- table external_cache (L2), which the HTTP client fills. The table never raises.
pub mod Repository
pub mod Commands
mod Rows
mod Levels
mod Steps
mod Refinement
mod Tests
use v2hub_api.Base.{
  ℕ, Bool, true, false, ◌&&◌, Option, none, some, List, [], ◌∷◌, ◌++◌, Text, codes, Result, ok, err,
  if◌then◌else◌,
}
use v2hub_api.Base.Strings.{is_some}
use v2hub_api.Models.{filled}
use v2hub_api.ConfigParser.{get_url_hash}
use v2hub_api.HttpClient.{Raised, fetch_error, connection, uncaught, ExternalFetchError, Client}
use v2hub_api.HttpClient.Fetch.{Network, fetch}
use v2hub_api.Redis.{try_or, return, ◌>>=◌}
use v2hub_api.CacheService.Commands.{TextRedis}
use v2hub_api.CacheService.Repository.{
  ExternalCache, get_content, create_or_update_cache, delete_by_url_hash,
}

abbrev pub redis_prefix : Text
redis_prefix = codes "sub:"

unfoldable pub redis_key : Text → Text
redis_key url_hash = redis_prefix ++ url_hash

-- What the service is made with: whether it has a Redis client, the time to live of its keys in
-- seconds, the hash function of the library, and the HTTP client.
pub record Settings : Type 0 where
  pub has_redis : Bool
  pub redis_ttl : ℕ
  pub blake2b : Text → Text
  pub client : Client

module _ (M : TextRedis) (N : Network) (conf : Settings) where
  pub record State : Type 0 where
    pub store : M.Store
    pub rows : List ExternalCache
    pub network : N.State

  -- an empty value counts as none
  unfoldable pub get_from_redis : Text → ℕ → M.Store → Option (Option Text) × M.Store
  get_from_redis url_hash now =
      M.get now (redis_key url_hash) >>= λ content. return (filled content)

  unfoldable pub set_to_redis : Text → Text → ℕ → M.Store → Option (Unit {0}) × M.Store
  set_to_redis url_hash content now = M.setex now (redis_key url_hash) conf.redis_ttl content

  unfoldable pub try_redis : Text → ℕ → M.Store → Option Text × M.Store
  try_redis url_hash now s =
      if conf.has_redis then try_or (get_from_redis url_hash now) none s else (none, s)

  -- an exception is logged
  unfoldable pub keep_in_redis : Text → Text → ℕ → M.Store → M.Store
  keep_in_redis url_hash content now s =
      if conf.has_redis then (try_or (set_to_redis url_hash content now) tt s).1 else s

  unfoldable pub restored : Text → ℕ → Option Text → State → Option Text × State
  restored url_hash now none st = (none, st)
  restored url_hash now (some cached) st =
      (some cached, record st { store = keep_in_redis url_hash cached now st.store })

  unfoldable pub after_redis : Text → ℕ → Option Text → State → Option Text × State
  after_redis url_hash now none st = restored url_hash now (get_content url_hash st.rows) st
  after_redis url_hash now (some cached) st = (some cached, st)

  unfoldable pub get_from_cache_only : Text → ℕ → State → Option Text × State
  get_from_cache_only url now st =
      let url_hash = get_url_hash conf.blake2b url in
      let (cached, store) = try_redis url_hash now st.store in
      after_redis url_hash now cached (record st { store = store })

  -- the content is kept in Redis unless it is empty
  unfoldable pub keep_content : Text → Option Text → ℕ → M.Store → M.Store
  keep_content url_hash none now s = s
  keep_content url_hash (some content) now s = keep_in_redis url_hash content now s

  unfoldable pub store_fetched :
      Text → Text → ℕ → Result Raised (Option Text) → State → Result Raised (Option Text) × State
  store_fetched url url_hash now (ok content) st = (
    ok content,
    record st {
      rows = create_or_update_cache url_hash url content none now st.rows;
      store = keep_content url_hash (filled content) now st.store;
    },
  )
  store_fetched url url_hash now (err (fetch_error e)) st = (
    err (fetch_error e),
    record st { rows = create_or_update_cache url_hash url none (some e) now st.rows },
  )
  store_fetched url url_hash now (err (connection e)) st = (err (connection e), st)
  store_fetched url url_hash now (err (uncaught e)) st = (err (uncaught e), st)

  unfoldable pub fetch_and_cache : Text → Text → ℕ → State → Result Raised (Option Text) × State
  fetch_and_cache url url_hash now st =
      let (content, network) = fetch N conf.client url st.network in
      store_fetched url url_hash now content (record st { network = network })

  unfoldable pub refresh : Text → ℕ → State → Result Raised (Option Text) × State
  refresh url now st = fetch_and_cache url (get_url_hash conf.blake2b url) now st

  unfoldable pub get_or_fetch : Text → Bool → ℕ → State → Result Raised (Option Text) × State
  get_or_fetch url true now st = fetch_and_cache url (get_url_hash conf.blake2b url) now st
  get_or_fetch url false now st =
      let (cached, st') = get_from_cache_only url now st in (ok cached, st')

  unfoldable pub drop_from_redis : Text → ℕ → M.Store → M.Store
  drop_from_redis url_hash now s =
      if conf.has_redis then (try_or (M.delete now (redis_key url_hash)) false s).1 else s

  unfoldable pub delete_cache : Text → ℕ → State → State
  delete_cache url_hash now st = record st {
    store = drop_from_redis url_hash now st.store;
    rows = delete_by_url_hash url_hash st.rows;
  }

  unfoldable pub delete_multiple_caches : List Text → ℕ → State → State
  delete_multiple_caches [] now st = st
  delete_multiple_caches (h ∷ url_hashes) now st =
      delete_multiple_caches url_hashes now (delete_cache h now st)

  -- the entry is looked up and deleted in the table
  unfoldable pub invalidate : Text → ℕ → State → State
  invalidate url now st = delete_cache (get_url_hash conf.blake2b url) now st
