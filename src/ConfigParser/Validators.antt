-- ===== src/ConfigParser/Validators.antt =====
-- src/v2hub_api/utils/config_parser.py, `is_http_url`, `validate_proxy_config` and
-- the validators of the protocols.
-- `urlparse` of Python's library is a parameter; an exception of it, or of what is read of its
-- result, is the text of the exception.
pub mod Accepted
use v2hub_api.Base.{
  ◌&&◌, ℕ, Bool, true, false, ◌||◌, not, Option, none, some, Text, [], codes, length, ◌==◌, text_eq,
  if◌then◌else◌, Result, ok, err,
}
use v2hub_api.Base.Strings.{strip, after_prefix, is_some}
use v2hub_api.Enums.{ProxyProtocol, vless, vmess, trojan, shadowsocks, hysteria, hysteria2, tuic}
use v2hub_api.ConfigParser.{detect_protocol, is_empty}

pub record ParsedUri : Type 0 where
  pub scheme : Text
  pub netloc : Text
  pub username : Option Text
  pub hostname : Option Text

-- `(is_valid, error_message)`
abbrev pub Verdict : Type 0
Verdict = Bool × Option Text

abbrev pub valid : Verdict
valid = (true, none)

abbrev pub invalid : Text → Verdict
invalid message = (false, some message)

-- the username, which Python takes for false where it is missing or empty
abbrev pub filled : Option Text → Text
filled none = []
filled (some s) = s

unfoldable pub check_vless : ParsedUri → Verdict
check_vless p =
    if not (text_eq p.scheme (codes "vless"))
    then invalid (codes "Invalid scheme")
    else (if is_empty p.netloc
        then invalid (codes "Missing server address")
        else (if is_empty (filled p.username) || not (length (filled p.username) == 36)
            then invalid (codes "Invalid UUID")
            else valid))

unfoldable pub check_vmess : ParsedUri → Verdict
check_vmess p = if is_empty p.netloc then invalid (codes "Missing server address") else valid

unfoldable pub check_trojan : ParsedUri → Verdict
check_trojan p =
    if not (text_eq p.scheme (codes "trojan"))
    then invalid (codes "Invalid scheme")
    else (if is_empty p.netloc
        then invalid (codes "Missing server address")
        else (if is_empty (filled p.username) then invalid (codes "Missing password") else valid))

unfoldable pub check_shadowsocks : ParsedUri → Verdict
check_shadowsocks p =
    if not (text_eq p.scheme (codes "ss") || text_eq p.scheme (codes "shadowsocks"))
    then invalid (codes "Invalid scheme")
    else (if is_empty p.netloc then invalid (codes "Missing server address") else valid)

-- the `try` around each validator
abbrev pub guarded : (ParsedUri → Verdict) → Result Text ParsedUri → Verdict
guarded check (ok p) = check p
guarded check (err message) = invalid message

module _ (urlparse : Text → Result Text ParsedUri) where
  unfoldable pub validate_vless_config : Text → Verdict
  validate_vless_config uri = guarded check_vless (urlparse uri)

  unfoldable pub validate_vmess_config : Text → Verdict
  validate_vmess_config uri =
      if is_some (after_prefix (codes "vmess://") uri)
      then guarded check_vmess (urlparse uri)
      else invalid (codes "Invalid VMess format")

  unfoldable pub validate_trojan_config : Text → Verdict
  validate_trojan_config uri = guarded check_trojan (urlparse uri)

  unfoldable pub validate_shadowsocks_config : Text → Verdict
  validate_shadowsocks_config uri = guarded check_shadowsocks (urlparse uri)

  -- `validators.get(protocol)`, and the answer without a validator
  unfoldable pub validate_protocol : ProxyProtocol → Text → Verdict
  validate_protocol vless uri = validate_vless_config uri
  validate_protocol vmess uri = validate_vmess_config uri
  validate_protocol trojan uri = validate_trojan_config uri
  validate_protocol shadowsocks uri = validate_shadowsocks_config uri
  validate_protocol hysteria uri = valid
  validate_protocol hysteria2 uri = valid
  validate_protocol tuic uri = valid

  unfoldable pub validate_proxy_config : Text → Verdict
  validate_proxy_config uri = elim (detect_protocol uri) [
    | none ↦ invalid (codes "Unknown or invalid protocol")
    | some protocol ↦ validate_protocol protocol uri
  ]

  unfoldable pub is_http_url : Text → Bool
  is_http_url text = elim (urlparse (strip text)) [
    | ok p ↦
        (text_eq p.scheme (codes "http") || text_eq p.scheme (codes "https"))
        && not (is_empty p.netloc)
        && not (is_empty (filled p.hostname))
    | err e ↦ false
  ]
