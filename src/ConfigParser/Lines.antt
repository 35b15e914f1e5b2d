-- ===== src/ConfigParser/Lines.antt =====
-- config_parser.py, `parse_subscription_content`: what a parsed line looks like.
use v2hub_api.Base.{◌≡◌, true, false, Option, List, [], ◌∷◌, Text, arith, All}
use v2hub_api.Base.Strings.{strip, splitlines}
use v2hub_api.Base.Strip.{strip-strip}
use v2hub_api.ConfigParser.{
  keep_lines, is_empty, starts_with_hash, is_valid_proxy_uri, parse_subscription_content,
  decode_base64_subscription,
}

-- A line that the parser may return: stripped, not empty, no comment line, of a known protocol.
pub record IsConfigLine (line : Text) : Type 0 where
  pub stripped : strip line ≡ line
  pub filled : is_empty line ≡ false
  pub no_comment : starts_with_hash line ≡ false
  pub valid : is_valid_proxy_uri line ≡ true

strip-IsConfigLine :
    (raw : Text)
    → is_empty (strip raw) ≡ false
    → starts_with_hash (strip raw) ≡ false
    → is_valid_proxy_uri (strip raw) ≡ true
    → IsConfigLine (strip raw)
strip-IsConfigLine raw e h v = record {
  stripped = strip-strip raw;
  filled = e;
  no_comment = h;
  valid = v;
}

keep_lines-IsConfigLine : (lines : List Text) → All IsConfigLine (keep_lines lines)
unfolding keep_lines
keep_lines-IsConfigLine [] = tt
keep_lines-IsConfigLine (raw ∷ lines) =
    ground (arith, strip-IsConfigLine raw, keep_lines-IsConfigLine lines)

module _ (b64decode : Text → Option Text) where
  -- Every entry that `parse_subscription_content` returns is stripped, not empty, does not start
  -- with "#" and has the scheme of a known protocol, whatever the decoding yields.
  pub parse_subscription_content-IsConfigLine :
      (content : Text) → All IsConfigLine (parse_subscription_content b64decode content)
  unfolding parse_subscription_content
  parse_subscription_content-IsConfigLine content =
      keep_lines-IsConfigLine (splitlines (decode_base64_subscription b64decode content))
