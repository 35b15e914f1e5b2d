-- ===== src/Resolver/Fetch.antt =====
-- resolver_service.py, the I/O phase of a resolution: what is read for each source, with its error
-- as a value. The database and the cache are read through `World`; one resolution sees one
-- snapshot.
use v2hub_api.Base.{
  ℕ, ◌+◌, Bool, true, false, ◌||◌, Option, none, some, List, [], ◌∷◌, ◌++◌, map, Text, text_eq,
  Dict, lookup, dict_from, take, keep_if, leb,
}
use v2hub_api.Enums.{external_url, internal_token}
use v2hub_api.Models.{Source, Subscription, filled}
use v2hub_api.ConfigParser.{parse_subscription_content}

-- The settings, the clock and what is read from outside. `none` as a result of
-- `get_all_for_subscription` or `get_or_fetch` is an exception.
pub record World : Type 0 where
  pub domain : Text
  pub max_depth : ℕ
  pub max_configs : ℕ
  pub refresh_cooldown : ℕ
  pub now : ℕ
  pub get_by_token : Text → Option Subscription
  pub get_all_for_subscription : Text → Option (List (Text × Text))
  pub get_or_fetch : Text → Bool → Option (Option Text)
  pub external_cache : List (Text × ℕ)
  pub blake2b : Text → Text
  pub b64decode : Text → Option Text

pub data Outcome : Type 0 where
  external : Source → List Text → Bool → Outcome
  internal : Source → Dict Text → Bool → Outcome

-- `field.in_(values)`: a NULL among the values matches nothing.
abbrev pub is_in : List (Option Text) → Text → Bool
is_in [] k = false
is_in (none ∷ values) k = is_in values k
is_in (some v ∷ values) k = text_eq v k || is_in values k

module _ (w : World) where
  unfoldable pub fetched_content : Source → Option (Option Text) → Outcome
  fetched_content source none = external source [] true
  fetched_content source (some none) = external source [] false
  fetched_content source (some (some content)) =
      external source (parse_subscription_content w.b64decode content) false

  unfoldable pub fetch_external_url : Source → Bool → Option Text → Outcome
  fetch_external_url source refresh none = external source [] false
  fetch_external_url source refresh (some url) = fetched_content source (w.get_or_fetch url refresh)

  unfoldable pub fetch_external_source : Source → Bool → Outcome
  unfolding fetched_content fetch_external_url
  fetch_external_source source refresh =
      fetch_external_url source refresh (filled source.external_url)

  unfoldable pub fetched_comments : Source → Option (List (Text × Text)) → Outcome
  fetched_comments source none = internal source [] true
  fetched_comments source (some rows) = internal source (dict_from [] rows) false

  unfoldable pub fetch_internal_token : Source → Option Text → Outcome
  fetch_internal_token source none = internal source [] false
  fetch_internal_token source (some token) =
      fetched_comments source (w.get_all_for_subscription token)

  unfoldable pub fetch_internal_source_comments : Source → Outcome
  unfolding fetched_comments fetch_internal_token
  fetch_internal_source_comments source = fetch_internal_token source (filled source.internal_token)

  -- `get_all_by_field` asks for 100 rows at most.
  unfoldable pub external_update_date : List Source → Dict ℕ
  external_update_date external_sources = dict_from [] (
      take 100 (
        keep_if (λ row. is_in (map (λ s. s.external_url) external_sources) row.0) w.external_cache))

  unfoldable pub is_stale : Option ℕ → Bool
  is_stale none = true
  is_stale (some updated_at) = leb (updated_at + w.refresh_cooldown) w.now

  unfoldable pub should_refresh : List Source → Source → Bool
  unfolding is_stale external_update_date
  should_refresh external_sources source =
      is_stale (lookup source.id (external_update_date external_sources))

abbrev pub is_external : Source → Bool
is_external s = elim s.source_type [ external_url ↦ true | _ ↦ false ]

abbrev pub is_internal : Source → Bool
is_internal s = elim s.source_type [ internal_token ↦ true | _ ↦ false ]

abbrev pub outcome_source : Outcome → Source
outcome_source (external s configs error) = s
outcome_source (internal s comments error) = s

abbrev pub keyed : List Outcome → List (Text × Outcome)
keyed [] = []
keyed (o ∷ outcomes) = ((outcome_source o).id, o) ∷ keyed outcomes

-- The I/O phase. The helpers catch their exceptions, so `gather` returns an outcome for each.
unfoldable pub fetch_all : World → List Source → Dict Outcome
fetch_all w eligible =
    let external_sources = keep_if is_external eligible in
    let internal_sources = keep_if is_internal eligible in
    dict_from [] (
      keyed (
        map (λ s. fetch_external_source w s (should_refresh w external_sources s)) external_sources
        ++ map (fetch_internal_source_comments w) internal_sources))
