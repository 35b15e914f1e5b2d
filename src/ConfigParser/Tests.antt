-- ===== src/ConfigParser/Tests.antt =====
-- config_parser.py at concrete configs; the digest is the text itself, and no text is base64.
use v2hub_api.ConfigParser.Validators.Accepted.{Requires, validate_proxy_config_iff}
use v2hub_api.ConfigParser.Validators.{
  is_http_url, ParsedUri, valid, check_trojan, validate_trojan_config, validate_protocol,
  validate_proxy_config,
}
use v2hub_api.Enums.{ProxyProtocol, from_uri, scheme_protocol, value}
use v2hub_api.ConfigParser.Normalized.{Ends, normalize_source-Ends}
use v2hub_api.ConfigParser.Sources.{
  comment_too_long, unquote_all, restore, normalize_source, string, dict, key_of, normalize_from,
  normalize_sources,
}
use v2hub_api.Base.Unquote.{
  unquote, tokens, decode_tokens, escaped, two_digits, hex_value, plain, flush,
}
use v2hub_api.Base.Utf8.{next_byte, lead_byte}
use v2hub_api.Base.Strings.{
  strip, lstrip, rstrip, put_before, is_space, split_once, after_prefix, contains, lower,
  lower_char,
}
use v2hub_api.Base.{
  false, some, ok, err, ◌↔◌, text_eq, lookup, Result, ◌≡◌, refl, none, Option, List, [], ◌∷◌, Text,
  codes, has, true, All, map, Distinct, Memᴰ, Sublistᴰ,
}
use v2hub_api.Base.Strip.{HashFree}
use v2hub_api.ConfigParser.{
  is_empty, detect_protocol, get_config_hash, deduplicate_configs, parse_subscription_content,
}
use v2hub_api.ConfigParser.Dedup.{deduplicate_configs_correct}
use v2hub_api.ConfigParser.Lines.{IsConfigLine, parse_subscription_content-IsConfigLine}

abbrev base : Text
base = codes " vless://id@host"

abbrev comment : Text
comment = codes " Server 1 "

abbrev digest : Text → Text
digest s = s

abbrev no_base64 : Text → Option Text
no_base64 s = none

base-HashFree : HashFree base
base-HashFree = (
  refl,
  (
    refl,
    (
      refl,
      (
        refl,
        (
          refl,
          (
            refl,
            (refl, (refl, (refl, (refl, (refl, (refl, (refl, (refl, (refl, (refl, tt)))))))))),
          ),
        ),
      ),
    ),
  ),
)

abbrev configs : List Text
configs = codes "a#1" ∷ codes "b" ∷ codes "a#2" ∷ []

deduplicate_configs_correct_example :
    let out = deduplicate_configs digest configs in
    Sublistᴰ out configs
    × Distinct (map (get_config_hash digest) out)
    × ((c : Text)
        → Memᴰ c configs
        → has (map (get_config_hash digest) out) (get_config_hash digest c) ≡ true)
deduplicate_configs_correct_example = deduplicate_configs_correct digest configs

abbrev content : Text
content = codes "vless://a#x\n\n# note\nhttp://b\n  trojan://c  \n"

parse_subscription_content-IsConfigLine_example :
    All IsConfigLine (parse_subscription_content no_base64 content)
parse_subscription_content-IsConfigLine_example =
    parse_subscription_content-IsConfigLine no_base64 content

abbrev encoded : Text
encoded = codes "vless://h#%2541%20"

normalize_source-Ends_example : Ends (some 16) encoded (normalize_source (some 16) encoded)
normalize_source-Ends_example = normalize_source-Ends (some 16) encoded

decoded_twice : normalize_source (some 16) encoded ≡ ok (codes "vless://h#A")
unfolding normalize_source restore unquote_all unquote tokens decode_tokens next_byte lead_byte
    escaped two_digits hex_value plain flush strip lstrip rstrip put_before is_space split_once
    after_prefix text_eq
decoded_twice = refl

too_long : normalize_source (some 3) (codes "h#abcd") ≡ err (comment_too_long 3)
unfolding normalize_source restore unquote_all unquote tokens decode_tokens next_byte lead_byte
    escaped two_digits hex_value plain flush strip lstrip rstrip put_before is_space split_once
    after_prefix text_eq
too_long = refl

-- Values that differ only in how often the comment is encoded give the same entry twice.
repeated :
    normalize_sources {F = Unit} none
      (string (codes "h#%41") ∷ dict (some (codes " h#A")) tt ∷ string (codes "h#A") ∷ [])
    ≡ ok ((codes "h#A", none) ∷ (codes "h#A", some tt) ∷ [])
unfolding normalize_sources normalize_from key_of is_empty has normalize_source restore unquote_all
    unquote tokens decode_tokens next_byte lead_byte escaped two_digits hex_value plain flush strip
    lstrip rstrip put_before is_space split_once after_prefix text_eq
repeated = refl

abbrev trojan_parts : ParsedUri
trojan_parts = record {
  scheme = codes "trojan";
  netloc = codes "pw@h:443";
  username = some (codes "pw");
  hostname = some (codes "h");
}

abbrev trojan_parser : Text → Result Text ParsedUri
trojan_parser uri = ok trojan_parts

abbrev trojan_uri : Text
trojan_uri = codes "trojan://pw@h:443"

validate_proxy_config_iff_example : (validate_proxy_config trojan_parser trojan_uri).0 ≡ true ↔ (
    (protocol : ProxyProtocol) × (detect_protocol trojan_uri ≡ some protocol)
    × Requires trojan_parser protocol trojan_uri)
validate_proxy_config_iff_example = validate_proxy_config_iff trojan_parser trojan_uri

trojan_valid : validate_proxy_config trojan_parser trojan_uri ≡ valid
unfolding validate_proxy_config validate_protocol validate_trojan_config check_trojan
    detect_protocol contains from_uri scheme_protocol value lower lower_char split_once after_prefix
    text_eq is_empty lookup
trojan_valid = refl

trojan_no_http : is_http_url trojan_parser trojan_uri ≡ false
unfolding is_http_url text_eq
trojan_no_http = refl
