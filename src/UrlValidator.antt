-- ===== src/UrlValidator.antt =====
-- src/v2hub_api/utils/url_validator.py: which URLs may be stored as external sources. `urlparse` and
-- `ipaddress.ip_address` of Python's library are parameters, where `none` is an exception, and so is
-- the class of decimal digits of the regular expressions.
mod Hosts
mod Tests
use v2hub_api.Base.{
  ℕ, ◌==◌, ◌/◌, ◌%◌, Bool, true, false, not, ◌&&◌, ◌||◌, Option, none, some, List, [], ◌∷◌, ◌++◌,
  Text, codes, text_eq, has, leb, if◌then◌else◌, Result, ok, err, ◌>>=◌,
}
use Prim.Native.Nat.{◌^◌}
use v2hub_api.Base.Strings.{lower}
use v2hub_api.Models.{filled}
use v2hub_api.HttpClient.{IpAddress, v4, v6, ParsedUrl}
use v2hub_api.HttpClient.Addresses.{
  in_network, in_any, private_v4, public_v4, private_v6, public_v6, reserved_v6, quad, groups,
}
use v2hub_api.HttpClient.Patterns.{Matcher, literal, many1}

pub record Library : Type 0 where
  pub urlparse : Text → Option ParsedUrl
  pub ip_address : Text → Option IpAddress
  pub is_decimal : ℕ → Bool

pub data InvalidUrl : Type 0 where
  invalid_format no_hostname localhost private_address ipv6_localhost : InvalidUrl
  invalid_scheme private_ip not_allowed : Text → InvalidUrl

-- `$`, which also matches before a line feed at the end
unfoldable pub at_end : Matcher
at_end [] = true
at_end (c ∷ []) = c == 10
at_end (c ∷ d ∷ s) = false

module _ (L : Library) where
  -- `\d+\.` and so on
  unfoldable pub one_part : Matcher
  one_part s = many1 L.is_decimal at_end s

  unfoldable pub two_parts : Matcher
  two_parts s = many1 L.is_decimal (literal (codes ".") one_part) s

  unfoldable pub three_parts : Matcher
  three_parts s = many1 L.is_decimal (literal (codes ".") two_parts) s

  unfoldable pub four_parts : Matcher
  four_parts s = many1 L.is_decimal (literal (codes ".") three_parts) s

  -- LOCALHOST_PATTERN; of the letters that match without regard to case, those of ASCII
  unfoldable pub is_localhost : Matcher
  is_localhost s = literal (codes "localhost") at_end s || literal (codes "127.") three_parts s

  -- `(1[6-9]|2[0-9]|3[0-1])`
  unfoldable pub sixteen_to_31 : Matcher → Matcher
  sixteen_to_31 k [] = false
  sixteen_to_31 k (c ∷ []) = false
  sixteen_to_31 k (c ∷ d ∷ s) =
      ((c == 49 && leb 54 d && leb d 57)
        || (c == 50 && leb 48 d && leb d 57)
        || (c == 51 && leb 48 d && leb d 49))
      && k s

  -- PRIVATE_IP_PATTERN
  unfoldable pub is_private_text : Matcher
  is_private_text s =
      literal (codes "10.") three_parts s
      || literal (codes "172.") (sixteen_to_31 (literal (codes ".") two_parts)) s
      || literal (codes "192.168.") two_parts s
      || literal (codes "169.254.") two_parts s
      || literal (codes "0.0.0.0") at_end s
      || literal (codes "255.255.255.255") at_end s

  -- is_private, is_loopback, is_link_local, is_reserved, is_multicast
  unfoldable pub is_private_v4 : ℕ → Bool
  is_private_v4 n =
      (in_any n private_v4 && not (in_any n public_v4))
      || in_network n (quad 127 0 0 0, 24)
      || in_network n (quad 169 254 0 0, 16)
      || in_network n (quad 240 0 0 0, 28)
      || in_network n (quad 224 0 0 0, 28)

  unfoldable pub is_private_v6 : ℕ → Bool
  is_private_v6 n =
      if n / 2 ^ 32 == 0xffff
      then is_private_v4 (n % 2 ^ 32)
      else ((in_any n private_v6 && not (in_any n public_v6))
          || n == 1
          || in_network n (groups 0xfe80 0 0, 118)
          || in_any n reserved_v6
          || in_network n (groups 0xff00 0 0, 120))

  unfoldable pub is_private_address : Option IpAddress → Bool
  is_private_address none = false
  is_private_address (some (v4 n)) = is_private_v4 n
  is_private_address (some (v6 n)) = is_private_v6 n

  unfoldable pub is_private_ip : Text → Bool
  is_private_ip ip_str = is_private_address (L.ip_address ip_str)

  abbrev pub ipv6_names : List Text
  ipv6_names = codes "::1" ∷ codes "::ffff:127.0.0.1" ∷ []

  abbrev pub other_names : List Text
  other_names = codes "0.0.0.0" ∷ codes "0000.0000.0000.0000" ∷ codes "broadcasthost" ∷ []

  unfoldable pub check_host : Text → Result InvalidUrl (Unit {0})
  check_host hostname =
      if is_localhost hostname
      then err localhost
      else (if is_private_text hostname
          then err private_address
          else (if four_parts hostname && is_private_ip hostname
              then err (private_ip hostname)
              else (if has ipv6_names (lower hostname)
                  then err ipv6_localhost
                  else (if has other_names (lower hostname)
                      then err (not_allowed hostname)
                      else ok tt))))

  unfoldable pub check_hostname : Option Text → Result InvalidUrl (Unit {0})
  check_hostname none = err no_hostname
  check_hostname (some hostname) = check_host hostname

  unfoldable pub check_parsed : Option ParsedUrl → Result InvalidUrl (Unit {0})
  check_parsed none = err invalid_format
  check_parsed (some parsed) =
      if has (codes "http" ∷ codes "https" ∷ []) parsed.scheme
      then check_hostname (filled parsed.hostname)
      else err (invalid_scheme parsed.scheme)

  unfoldable pub validate_external_url : Text → Result InvalidUrl (Unit {0})
  validate_external_url url = check_parsed (L.urlparse url)

  unfoldable pub is_url_safe : Text → Bool
  is_url_safe url = elim (validate_external_url url) [ ok valid ↦ true | err e ↦ false ]

  lowered : Option Text → Option Text
  lowered none = none
  lowered (some s) = some (lower s)

  bare_hostname : Option ParsedUrl → Option Text
  unfolding lowered
  bare_hostname none = none
  bare_hostname (some parsed) = lowered (filled parsed.hostname)

  -- without a scheme, the text is parsed again after "//"
  found_hostname : Text → Option ParsedUrl → Option Text
  unfolding bare_hostname
  found_hostname url none = none
  found_hostname url (some parsed) = elim (filled parsed.hostname) [
    | some hostname ↦ some (lower hostname)
    | none ↦ bare_hostname (L.urlparse (codes "//" ++ url))
  ]

  unfoldable pub extract_hostname : Text → Option Text
  unfolding found_hostname
  extract_hostname url = found_hostname url (L.urlparse url)

  unfoldable pub same_host : Option Text → Option Text → Bool
  same_host none none = true
  same_host none (some t) = false
  same_host (some s) none = false
  same_host (some s) (some t) = text_eq s t

  unfoldable pub is_internal : Text → Text → Bool
  is_internal source domain = same_host (extract_hostname source) (extract_hostname domain)
