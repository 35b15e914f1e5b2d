-- ===== src/Sources/Tests.antt =====
-- Adding and replacing sources at a concrete subscription; the digest is the text itself.
use v2hub_api.Base.{
  ℕ, ◌≤◌, ◌≡◌, refl, ap, true, false, none, some, [], ◌∷◌, Text, codes, text_eq, has, lookup,
  insert, length, Result, ok, err, Distinct, keep_if, All, arith,
}
use v2hub_api.Base.Strings.{
  strip, lstrip, rstrip, put_before, is_space, split_once, after_prefix, contains, lower,
  lower_char,
}
use v2hub_api.Enums.{SourceType, from_uri, scheme_protocol, value}
use v2hub_api.Models.{Source}
use v2hub_api.ConfigParser.{
  detect_protocol, is_valid_proxy_uri, split_config_and_comment, parts, normalize_config,
  get_config_hash, is_empty,
}
use v2hub_api.Sources.{
  Env, Rows, SourceError, SourceCreateRequest, too_many_sources, ids, get_by_pk, put_comment,
}
use v2hub_api.Sources.Add.{
  add_sources_internal, add_each, add_source, add_config_source, config_source, new_source, store,
  detect_source_type,
}
use v2hub_api.Sources.Replacement.{replace_sources, preserved_ids, source_id}
use v2hub_api.Sources.Limits.{add_sources_internal-Good}
use v2hub_api.Sources.Replace.{replace_sources-err, replace_sources-full}

abbrev env : Env
env = record {
  domain = codes "hub";
  max_sources = 2;
  max_nesting_depth = 3;
  blake2b = λ s. s;
  get_by_token = λ t. none;
  is_internal = λ s. false;
  is_http_url = λ s. false;
  validate_proxy_config = λ s. true;
  validate_url_static = λ s. true;
  validate_external_url = λ s. true;
  refresh_raises = λ s. false;
}

abbrev a : Text
a = codes "vless://a"

abbrev b : Text
b = codes "vless://b"

abbrev token : Text
token = codes "token"

abbrev request : Text → SourceCreateRequest
request s = record { data_text = s; is_hidden = none; max_depth = none }

abbrev config_row : Text → ℕ → Source
config_row s index = record {
  id = s;
  source_type = SourceType.config;
  config_hash = some s;
  internal_token = none;
  external_url = none;
  is_hidden = false;
  max_depth = 3;
  order_index = index;
  proxy_config = some s;
}

abbrev no_rows : Rows
no_rows = record { sources = []; comments = [] }

abbrev full_rows : Rows
full_rows = record {
  sources = config_row a 0 ∷ config_row b 1 ∷ [];
  comments = (a, codes "hub") ∷ (b, codes "hub") ∷ [];
}

added :
    add_sources_internal env token false (request a ∷ request b ∷ request a ∷ []) no_rows
    ≡ err (too_many_sources 2 2)
unfolding add_sources_internal add_each add_source add_config_source config_source new_source store
    put_comment get_by_pk detect_source_type is_valid_proxy_uri detect_protocol
    split_config_and_comment parts normalize_config get_config_hash is_empty strip lstrip rstrip
    put_before is_space split_once after_prefix contains lower lower_char from_uri scheme_protocol
    value text_eq has lookup
added = refl

added_two : add_sources_internal env token false (request a ∷ request b ∷ []) no_rows ≡ ok full_rows
unfolding add_sources_internal add_each add_source add_config_source config_source new_source store
    put_comment get_by_pk detect_source_type is_valid_proxy_uri detect_protocol
    split_config_and_comment parts normalize_config get_config_hash is_empty strip lstrip rstrip
    put_before is_space split_once after_prefix contains lower lower_char from_uri scheme_protocol
    value text_eq has lookup insert
added_two = refl

add_sources_internal-Good_example :
    Distinct (ids full_rows.sources) × (length full_rows.sources ≤ 2)
add_sources_internal-Good_example =
    add_sources_internal-Good env token false (request a ∷ request b ∷ []) no_rows full_rows tt
      added_two

planned : preserved_ids env (request b ∷ request a ∷ []) ≡ ok (b ∷ a ∷ [])
unfolding preserved_ids source_id detect_source_type is_valid_proxy_uri detect_protocol
    split_config_and_comment parts normalize_config get_config_hash strip lstrip rstrip put_before
    is_space split_once after_prefix contains lower lower_char from_uri scheme_protocol value
    text_eq has lookup
planned = refl

wanted_rows : All (λ s. has (b ∷ a ∷ []) s.id ≡ true) full_rows.sources
unfolding has text_eq
wanted_rows = (refl, (refl, tt))

refused :
    (replace_sources env token (request b ∷ request a ∷ []) full_rows).0
    ≡ err (too_many_sources 2 2)
refused =
    ap (λ (r : Result SourceError Rows × Rows). r.0)
      (replace_sources-full env token (request b ∷ request a ∷ []) full_rows (b ∷ a ∷ []) planned
        wanted_rows (omega arith))

replace_sources-err_example :
    (replace_sources env token (request b ∷ request a ∷ []) full_rows).1
    ≡ record full_rows { sources = keep_if (λ s. has (b ∷ a ∷ []) s.id) full_rows.sources }
replace_sources-err_example =
    replace_sources-err env token (request b ∷ request a ∷ []) full_rows (b ∷ a ∷ [])
      (too_many_sources 2 2) planned refused
