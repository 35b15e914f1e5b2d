-- ===== src/ConfigParser.antt =====
-- src/v2hub_api/utils/config_parser.py: splitting a proxy URI from its comment, the hash by which
-- configs are compared, and the parsing of a subscription's text.
mod Comment
mod Dedup
mod Lines
mod Sources
mod Normalized
mod Listed
mod Validators
mod Tests
use v2hub_api.Base.{
  ℕ, zero, suc, ◌-◌, ◌%◌, Bool, true, false, ◌&&◌, ◌||◌, not, Option, none, some, List, [], ◌∷◌,
  ◌++◌, Text, codes, has, length, if◌then◌else◌,
}
use v2hub_api.Base.Strings.{
  strip, split_once, contains, is_some, is_space, splitlines, after_prefix,
}
use v2hub_api.Enums.{ProxyProtocol, from_uri, separator, known_uri_schemes}

-- `detect_protocol` repeats the guard of `from_uri`.
unfoldable pub detect_protocol : Text → Option ProxyProtocol
detect_protocol uri = if not (contains separator uri) then none else from_uri uri

unfoldable pub is_valid_proxy_uri : Text → Bool
unfolding detect_protocol
is_valid_proxy_uri uri = is_some (detect_protocol uri)

abbrev pub hash_sign : Text
hash_sign = codes "#"

unfoldable pub parts : Text → Option (Text × Text) → Text × Option Text
parts config none = (config, none)
parts config (some (base, comment)) = (strip base, some (strip comment))

unfoldable pub split_config_and_comment : Text → Text × Option Text
unfolding parts
split_config_and_comment config =
    let stripped = strip config in parts stripped (split_once hash_sign stripped)

unfoldable pub normalize_config : Text → Text
unfolding split_config_and_comment
normalize_config config = (split_config_and_comment config).0

-- `hashlib.blake2b(….encode("utf-8"), digest_size=16).hexdigest()`
module _ (blake2b : Text → Text) where
  unfoldable pub get_config_hash : Text → Text
  get_config_hash config = blake2b (normalize_config config)

  unfoldable pub get_url_hash : Text → Text
  get_url_hash url = blake2b (strip url)

-- `"".join(content.split())`
remove_spaces : Text → Text
remove_spaces [] = []
remove_spaces (c ∷ s) = let rest = remove_spaces s in if is_space c then rest else c ∷ rest

abbrev equals_signs : ℕ → Text
equals_signs zero = []
equals_signs (suc n) = b'=' ∷ equals_signs n

-- `compact + "=" * padding`
pad : Text → Text
pad compact = compact ++ equals_signs ((4 - length compact % 4) % 4)

-- whether some known scheme, with "://" behind it, stands in the text
mentions_scheme : List Text → Text → Bool
mentions_scheme [] decoded = false
mentions_scheme (scheme ∷ schemes) decoded =
    contains (scheme ++ separator) decoded || mentions_scheme schemes decoded

accept_decoded : Text → Option Text → Text
accept_decoded content none = content
accept_decoded content (some decoded) =
    if mentions_scheme known_uri_schemes decoded then decoded else content

-- `base64.b64decode(…, validate=True)` and `.decode("utf-8")`; `none` is an exception of either.
module _ (b64decode : Text → Option Text) where
  unfoldable pub decode_base64_subscription : Text → Text
  unfolding accept_decoded remove_spaces pad mentions_scheme
  decode_base64_subscription raw =
      let content = strip raw in
      let decoded = accept_decoded content (b64decode (pad (remove_spaces content))) in
      if contains separator content || contains (10 ∷ []) content then content else decoded

pub starts_with_hash : Text → Bool
starts_with_hash s = is_some (after_prefix hash_sign s)

unfoldable pub is_empty : Text → Bool
is_empty [] = true
is_empty (c ∷ s) = false

-- the loop over the lines
keep_lines : List Text → List Text
unfolding is_empty starts_with_hash
keep_lines [] = []
keep_lines (raw ∷ lines) =
    let line = strip raw in
    let rest = keep_lines lines in
    if is_empty line || starts_with_hash line
    then rest
    else (if is_valid_proxy_uri line then line ∷ rest else rest)

module _ (b64decode : Text → Option Text) where
  unfoldable pub parse_subscription_content : Text → List Text
  unfolding keep_lines
  parse_subscription_content content =
      keep_lines (splitlines (decode_base64_subscription b64decode content))

-- The loop of `deduplicate_configs`, with its set and its output.
module _ (blake2b : Text → Text) where
  dedup_from : List Text → List Text → List Text → List Text
  dedup_from seen unique [] = unique
  dedup_from seen unique (config ∷ configs) =
      let h = get_config_hash blake2b config in
      let old = dedup_from seen unique configs in
      let new = dedup_from (seen ++ h ∷ []) (unique ++ config ∷ []) configs in
      if has seen h then old else new

  pub deduplicate_configs : List Text → List Text
  deduplicate_configs configs = dedup_from [] [] configs

-- The loop of `_clean_sources`.
clean_from : List Text → List Text → List Text → List Text
clean_from seen cleaned [] = cleaned
clean_from seen cleaned (item ∷ items) =
    let v = strip item in
    let new = clean_from (seen ++ v ∷ []) (cleaned ++ v ∷ []) items in
    let old = clean_from seen cleaned items in
    if not (is_empty v) && not (has seen v) then new else old

pub clean_sources : List Text → List Text
unfolding clean_from is_empty
clean_sources items = clean_from [] [] items
