-- ===== src/Resolver.antt =====
-- src/v2hub_api/services/resolver_service.py: a subscription is resolved to a flat list of configs,
-- its nested subscriptions included. `Fetch` has the I/O phase.
pub mod Fetch
mod Origin
mod Rule
mod Valid
mod Levels
mod Provided
mod Supply
mod Refresh
mod Tests
use v2hub_api.Base.{
  ℕ, zero, suc, ◌+◌, ◌-◌, ◌==◌, Bool, true, false, ◌&&◌, not, Option, none, some, List, [], ◌∷◌,
  ◌++◌, Text, text_eq, has, Dict, lookup, insert, dict_from, length, take, keep_if, ltb, leb,
  if◌then◌else◌,
}
use v2hub_api.Enums.{SourceType, external_url, internal_token}
use v2hub_api.Models.{Source, Subscription, filled}
use v2hub_api.ConfigParser.{get_config_hash, hash_sign}
use Fetch.{World, Outcome, external, internal, fetch_all}

pub record ResolvedConfig : Type 0 where
  pub hash : Text
  pub config : Text
  pub is_hidden : Bool
  pub max_depth : ℕ

-- `seen_hashes` is a set; it is kept in the order of insertion.
pub record ResolveResult : Type 0 where
  pub configs : List ResolvedConfig
  pub seen_hashes : List Text
  pub description : Text
  pub truncated : Bool
  pub depth_exceeded : Bool

-- What the recursion shares and mutates.
pub record State : Type 0 where
  pub result : ResolveResult
  pub resolved_subscriptions : List Text
  pub root_comment_map : Dict Text

abbrev pub truncate : ResolveResult → ResolveResult
truncate r = record r { truncated = true }

abbrev pub exceed_depth : ResolveResult → ResolveResult
exceed_depth r = record r { depth_exceeded = true }

abbrev pub with_result : State → ResolveResult → State
with_result st r = record st { result = r }

-- Adds a config unless its hash was seen.
pub add_resolved : ResolvedConfig → ResolveResult → ResolveResult
add_resolved c r =
    if has r.seen_hashes c.hash
    then r
    else record r { seen_hashes = r.seen_hashes ++ c.hash ∷ []; configs = r.configs ++ c ∷ [] }

-- `f"{base_config}#{comment}" if comment else base_config`
pub full_config : Text → Option Text → Text
full_config base none = base
full_config base (some comment) = base ++ hash_sign ++ comment

config_entry : Source → Dict Text → Text → Text → ResolvedConfig
unfolding full_config
config_entry source comments base config_hash = record {
  hash = config_hash;
  config = full_config base (filled (lookup config_hash comments));
  is_hidden = source.is_hidden;
  max_depth = source.max_depth;
}

apply_config_parts : Option Text → Option Text → Source → Dict Text → ResolveResult → ResolveResult
apply_config_parts (some base) (some config_hash) source comments r =
    add_resolved (config_entry source comments base config_hash) r
apply_config_parts _ _ source comments r = r

pub apply_config_source : Source → Dict Text → ResolveResult → ResolveResult
unfolding apply_config_parts config_entry
apply_config_source source comments r =
    apply_config_parts source.proxy_config (filled source.config_hash) source comments r

module _ (w : World) where
  abbrev pub is_full : ResolveResult → Bool
  is_full r = leb w.max_configs (length r.configs)

  -- `configs[:remaining]`; a negative bound counts from the end.
  slice_remaining : ResolveResult → List Text → List Text
  slice_remaining r configs =
      let count = length r.configs in
      if leb count w.max_configs
      then take (w.max_configs - count) configs
      else take (length configs - (count - w.max_configs)) configs

  -- `len(configs) > remaining`
  exceeds_remaining : ResolveResult → List Text → Bool
  exceeds_remaining r configs = ltb w.max_configs (length configs + length r.configs)

  pub external_entry : Source → Text → ResolvedConfig
  external_entry source uri = record {
    hash = get_config_hash w.blake2b uri;
    config = uri;
    is_hidden = source.is_hidden;
    max_depth = source.max_depth;
  }

  pub add_external : Source → List Text → ResolveResult → ResolveResult
  add_external source [] r = r
  add_external source (uri ∷ uris) r =
      add_external source uris (add_resolved (external_entry source uri) r)

  apply_fetched : Source → List Text → ResolveResult → ResolveResult
  apply_fetched source configs r =
      let r' = add_external source (slice_remaining r configs) r in
      if exceeds_remaining r configs then truncate r' else r'

  pub apply_external_outcome : Source → List Text → Bool → ResolveResult → ResolveResult
  unfolding apply_fetched
  apply_external_outcome source configs true r = r
  apply_external_outcome source [] false r = r
  apply_external_outcome source (uri ∷ uris) false r = apply_fetched source (uri ∷ uris) r

-- `sorted(…, key=lambda s: s.order_index)` is stable.
place : Source → List Source → List Source
place s [] = s ∷ []
place s (t ∷ ts) = if leb s.order_index t.order_index then s ∷ t ∷ ts else t ∷ place s ts

pub sort_by_index : List Source → List Source
sort_by_index [] = []
sort_by_index (s ∷ ss) = place s (sort_by_index ss)

-- Whether a source takes part at this depth.
pub is_eligible : ℕ → Source → Bool
is_eligible depth s = not (ltb s.max_depth depth) && not (depth == 0 && s.is_hidden)

pub eligible_sources : ℕ → Subscription → List Source
eligible_sources depth sub = sort_by_index (keep_if (is_eligible depth) sub.sources)

merge_value : Option Text → Text → Text → Dict Text → Dict Text
merge_value none key v comments = insert key v comments
merge_value (some old) key v comments = comments

pub merge_comments : Dict Text → Dict Text → Dict Text
unfolding merge_value
merge_comments [] comments = comments
merge_comments ((key, v) ∷ rows) comments =
    merge_comments rows (merge_value (filled (lookup key comments)) key v comments)

describe_text : Option Text → Text → Text → Text
describe_text none domain old = old
describe_text (some new) domain old = if text_eq old domain then new else old

-- the first description found replaces the domain
pub describe : World → Subscription → ResolveResult → ResolveResult
unfolding describe_text
describe w sub r = record r {
  description = describe_text (filled sub.description) w.domain r.description;
}

-- The apply phase; `self` is the recursive call for a nested token.
module _ (w : World) (self : Text → State → State) where
  apply_internal_token : Dict Text → Option Text → State → State
  apply_internal_token comments none st = st
  apply_internal_token comments (some token) st =
      self token (record st { root_comment_map = merge_comments comments st.root_comment_map })

  apply_internal_outcome : Source → Dict Text → Bool → State → State
  unfolding apply_internal_token
  apply_internal_outcome source comments true st = st
  apply_internal_outcome source comments false st =
      apply_internal_token comments (filled source.internal_token) st

  -- Ids are a key of the sources, so a source finds its own outcome, which is of its kind.
  apply_external_found : Option Outcome → State → State
  apply_external_found (some (external s configs error)) st =
      with_result st (apply_external_outcome w s configs error st.result)
  apply_external_found _ st = st

  apply_internal_found : Option Outcome → State → State
  unfolding apply_internal_outcome
  apply_internal_found (some (internal s comments error)) st =
      apply_internal_outcome s comments error st
  apply_internal_found _ st = st

  apply_by_type : SourceType → Dict Outcome → Source → State → State
  unfolding apply_external_found apply_internal_found
  apply_by_type SourceType.config outcomes s st =
      with_result st (apply_config_source s st.root_comment_map st.result)
  apply_by_type external_url outcomes s st = apply_external_found (lookup s.id outcomes) st
  apply_by_type internal_token outcomes s st = apply_internal_found (lookup s.id outcomes) st

  apply_source : Dict Outcome → Source → State → State
  unfolding apply_by_type
  apply_source outcomes s st = apply_by_type s.source_type outcomes s st

  apply_sources : Dict Outcome → List Source → State → State
  unfolding apply_source
  apply_sources outcomes [] st = st
  apply_sources outcomes (s ∷ ss) st =
      let rest = apply_sources outcomes ss (apply_source outcomes s st) in
      if is_full w st.result then with_result st (truncate st.result) else rest

  expand_found : Text → ℕ → Option Subscription → State → State
  expand_found token depth none st = st
  expand_found token depth (some sub) st =
      let eligible = eligible_sources depth sub in
      apply_sources (fetch_all w eligible) eligible (with_result st (describe w sub st.result))

  -- `_resolve_recursive` behind its checks
  expand : Text → ℕ → State → State
  unfolding expand_found
  expand token depth st =
      expand_found token depth (w.get_by_token token)
        (record st { resolved_subscriptions = st.resolved_subscriptions ++ token ∷ [] })

-- `levels` counts the levels left: with none left `depth` is above `max_depth`.
pub resolve_recursive : World → ℕ → Text → ℕ → State → State
resolve_recursive w zero token depth st =
    if is_full w st.result
    then with_result st (truncate st.result)
    else with_result st (exceed_depth st.result)
resolve_recursive w (suc levels) token depth st =
    let rest = expand w (λ t s. resolve_recursive w levels t (suc depth) s) token depth st in
    if is_full w st.result
    then with_result st (truncate st.result)
    else (if ltb w.max_depth depth
        then with_result st (exceed_depth st.result)
        else (if has st.resolved_subscriptions token then st else rest))

pub start : World → List (Text × Text) → State
start w rows = record {
  result = record {
    configs = [];
    seen_hashes = [];
    description = w.domain;
    truncated = false;
    depth_exceeded = false;
  };
  resolved_subscriptions = [];
  root_comment_map = dict_from [] rows;
}

resolve_with : World → Text → Option (List (Text × Text)) → Option ResolveResult
resolve_with w token none = none
resolve_with w token (some rows) =
    some (resolve_recursive w (suc w.max_depth) token 0 (start w rows)).result

-- `none` is an exception of the first read of the comments.
pub resolve : World → Text → Option ResolveResult
unfolding resolve_with
resolve w token = resolve_with w token (w.get_all_for_subscription token)
