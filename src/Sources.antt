-- ===== src/Sources.antt =====
-- src/v2hub_api/services/subscription_service.py: adding, removing and replacing the sources of one
-- subscription. What is raised is an error value, after which the session keeps nothing.

mod Add
mod Replacement
mod Limits
mod Replace
mod Tests
use v2hub_api.Base.{
  true, not, leb, keep_if, length, ℕ, zero, suc, Bool, false, Option, none, some, List, [], ◌∷◌,
  ◌++◌, map, Text, codes, text_eq, has, Dict, insert, if◌then◌else◌, Result, ok, err, ◌>>=◌,
}
use v2hub_api.Base.Strings.{is_some, strip, after_prefix}
use v2hub_api.Enums.{SourceType}
use v2hub_api.Models.{Source, Subscription, filled}
use v2hub_api.ConfigParser.{
  detect_protocol, is_empty, get_config_hash, split_config_and_comment, get_url_hash,
  is_valid_proxy_uri,
}
use v2hub_api.Redis.{or_else}
use v2hub_api.References.{check_new_reference, CheckError}

pub record SourceCreateRequest : Type 0 where
  pub data_text : Text
  pub is_hidden : Option Bool
  pub max_depth : Option ℕ

pub data SourceError : Type 0 where
  too_many_sources : ℕ → ℕ → SourceError
  invalid_config invalid_url subscription_not_found fetch_failed : Text → SourceError
  check_failed : CheckError → SourceError

-- The sources of the subscription, and the comments of its configs.
pub record Rows : Type 0 where
  pub sources : List Source
  pub comments : Dict Text

-- What the service reads elsewhere: settings, other subscriptions, and the checks of URLs, which
-- stand on `urllib.parse` and the HTTP client.
pub record Env : Type 0 where
  pub domain : Text
  pub max_sources : ℕ
  pub max_nesting_depth : ℕ
  pub blake2b : Text → Text
  pub get_by_token : Text → Option Subscription
  pub is_internal : Text → Bool
  pub is_http_url : Text → Bool
  pub validate_proxy_config : Text → Bool
  pub validate_url_static : Text → Bool
  pub validate_external_url : Text → Bool
  -- whether `cache_service.refresh` of an URL that no subscription has yet raises
  pub refresh_raises : Text → Bool

abbrev pub ids : List Source → List Text
ids = map (λ s. s.id)

pub get_by_pk : Text → List Source → Option Source
get_by_pk id [] = none
get_by_pk id (s ∷ ss) = if text_eq s.id id then some s else get_by_pk id ss

-- `upsert_config`: the given fields of the row are set.
updated : SourceCreateRequest → ℕ → Source → Source
updated request index s = record s {
  is_hidden = or_else request.is_hidden s.is_hidden;
  max_depth = or_else request.max_depth s.max_depth;
  order_index = index;
}

pub upsert_config : Text → SourceCreateRequest → ℕ → List Source → List Source
unfolding updated
upsert_config id request index [] = []
upsert_config id request index (s ∷ ss) =
    if text_eq s.id id then updated request index s ∷ ss else s ∷ upsert_config id request index ss

unfoldable pub put_comment : Text → Option Text → Dict Text → Dict Text
put_comment config_hash none comments = comments
put_comment config_hash (some comment) comments = insert config_hash comment comments

-- `seen_ids.add(id)`
abbrev pub add_seen : Text → List Text → List Text
add_seen id seen = if has seen id then seen else seen ++ id ∷ []

-- `url.split("/sub/")[-1]`, when there are two parts or more; `skip` counts the characters of a
-- separator that are left to pass over.
last_part : ℕ → Text → Option Text
last_part skip [] = none
last_part (suc skip) (c ∷ s) = last_part skip s
last_part zero (c ∷ s) =
    let later = last_part 4 s in
    let further = last_part zero s in
    elim (after_prefix (codes "/sub/") (c ∷ s)) [
      | none ↦ further
      | some rest ↦ some (or_else later rest)
    ]

pub extract_token : Text → Option Text
unfolding last_part
extract_token url = filled (last_part zero url)

-- the default of the column `max_depth`
abbrev pub default_depth : ℕ
default_depth = 3
