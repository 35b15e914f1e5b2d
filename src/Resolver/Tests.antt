-- ===== src/Resolver/Tests.antt =====
-- Resolutions at concrete inputs: the theorems' witnesses, and runs of the code.
use v2hub_api.Base.{
  ℕ, ◌≤◌, ◌≡◌, refl, true, false, none, some, List, [], ◌∷◌, Text, codes, has, Dict, arith, text_eq,
  lookup, insert, dict_from, length, Distinct, All,
}
use v2hub_api.Base.Strings.{
  strip, lstrip, rstrip, put_before, is_space, split_once, after_prefix, contains, lower,
  lower_char, splitlines, lines_from, is_line_break,
}
use v2hub_api.Enums.{SourceType, from_uri, scheme_protocol, value}
use v2hub_api.Models.{Source, Subscription}
use v2hub_api.ConfigParser.{
  get_config_hash, parse_subscription_content, decode_base64_subscription, normalize_config,
  is_valid_proxy_uri,
}
use v2hub_api.Resolver.Fetch.{
  keyed, World, fetch_all, should_refresh, fetch_external_source, fetch_internal_source_comments,
}
use v2hub_api.Resolver.{
  ResolvedConfig, ResolveResult, State, resolve, resolve_recursive, start, expand, apply_sources,
  apply_config_source, add_resolved, apply_external_outcome, add_external, slice_remaining,
  exceeds_remaining, external_entry, merge_comments, eligible_sources, is_eligible, sort_by_index,
  place, describe,
}
use v2hub_api.Resolver.Valid.{config_hashes, resolve_bounded}
use v2hub_api.Resolver.Levels.{resolve_recursive-levels}
use v2hub_api.Resolver.Supply.{HasSource, resolve_sourced}
use v2hub_api.Resolver.Refresh.{fetch_all-refreshes}

abbrev config_source : Text → Text → ℕ → Source
config_source h uri order = record {
  id = h;
  source_type = SourceType.config;
  config_hash = some h;
  internal_token = none;
  external_url = none;
  is_hidden = false;
  max_depth = 3;
  order_index = order;
  proxy_config = some uri;
}

abbrev url_source : Source
url_source = record {
  id = codes "u";
  source_type = SourceType.external_url;
  config_hash = none;
  internal_token = none;
  external_url = some (codes "https://x.io");
  is_hidden = false;
  max_depth = 3;
  order_index = 1;
  proxy_config = none;
}

-- a link to "b"
abbrev link_source : Source
link_source = record {
  id = codes "l";
  source_type = SourceType.internal_token;
  config_hash = none;
  internal_token = some (codes "b");
  external_url = none;
  is_hidden = false;
  max_depth = 3;
  order_index = 0;
  proxy_config = none;
}

abbrev subscription : Text → List Source → Subscription
subscription token sources = record {
  token = token;
  name = codes "n";
  user_hash = codes "user";
  provider_hash = none;
  description = none;
  sources = sources;
}

-- "a" has a config, a URL and a link to "b"; "b" has a config, and links back to "a".
abbrev rows : Dict Subscription
rows =
    (
      codes "a",
      subscription (codes "a")
          (config_source (codes "h2") (codes "ss://two") 2 ∷ url_source ∷ link_source ∷ []),
    )
    ∷ (
      codes "b",
      subscription (codes "b") (
          config_source (codes "h1") (codes "ss://one") 0
          ∷ record link_source { internal_token = some (codes "a") }
          ∷ []),
    )
    ∷ []

abbrev world : World
world = record {
  domain = codes "d";
  max_depth = 3;
  max_configs = 2;
  refresh_cooldown = 900;
  now = 1000;
  get_by_token = λ token. lookup token rows;
  get_all_for_subscription = λ token. some ((codes "h1", codes "first") ∷ []);
  get_or_fetch = λ url refresh. some (some (codes "vless://x"));
  external_cache = (codes "u", 999) ∷ [];
  blake2b = λ text. text;
  b64decode = λ text. none;
}

abbrev entry : Text → Text → ResolvedConfig
entry h uri = record { hash = h; config = uri; is_hidden = false; max_depth = 3 }

-- In the order of the indexes: the link first, then the URL; the limit of two cuts the last config.
abbrev resolved : ResolveResult
resolved = record {
  configs =
      entry (codes "h1") (codes "ss://one#first")
      ∷ entry (codes "vless://x") (codes "vless://x")
      ∷ [];
  seen_hashes = codes "h1" ∷ codes "vless://x" ∷ [];
  description = codes "d";
  truncated = true;
  depth_exceeded = false;
}

resolve_a : resolve world (codes "a") ≡ some resolved
unfolding resolve resolve_recursive start expand apply_sources apply_config_source add_resolved
    apply_external_outcome add_external slice_remaining exceeds_remaining external_entry
    merge_comments eligible_sources is_eligible sort_by_index place describe fetch_all
    fetch_external_source fetch_internal_source_comments should_refresh lookup insert dict_from
    text_eq has get_config_hash normalize_config parse_subscription_content
    decode_base64_subscription is_valid_proxy_uri from_uri scheme_protocol value strip lstrip rstrip
    put_before is_space split_once after_prefix contains lower lower_char splitlines lines_from
    is_line_break
resolve_a = refl

resolve_bounded_example : (length resolved.configs ≤ 2) × Distinct (config_hashes resolved.configs)
resolve_bounded_example = resolve_bounded world (codes "a") resolved resolve_a

resolve_sourced_example : All (HasSource world (codes "a")) resolved.configs
resolve_sourced_example = resolve_sourced world (codes "a") resolved resolve_a

resolve_recursive-levels_example :
    resolve_recursive world 4 (codes "a") 0 (start world [])
    ≡ resolve_recursive world 9 (codes "a") 0 (start world [])
resolve_recursive-levels_example =
    resolve_recursive-levels world 4 9 (codes "a") 0 (start world []) (omega arith) (omega arith)

abbrev half_way : State
half_way = record {
  result = record resolved {
    truncated = false;
    configs = entry (codes "h9") (codes "ss://nine") ∷ [];
    seen_hashes = codes "h9" ∷ [];
  };
  resolved_subscriptions = [];
  root_comment_map = [];
}

-- The row of the cache is one second old, and the cooldown is 900 seconds.
fetch_all-refreshes_example :
    fetch_all world (url_source ∷ link_source ∷ [])
    ≡ dict_from [] (
        keyed (
          fetch_external_source world url_source true
          ∷ fetch_internal_source_comments world link_source
          ∷ []))
unfolding text_eq
fetch_all-refreshes_example = fetch_all-refreshes world (url_source ∷ link_source ∷ []) (refl, tt)
