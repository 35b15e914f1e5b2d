-- ===== src/UrlValidator/Tests.antt =====
-- Hosts that pass and hosts that do not.
use v2hub_api.Base.{
  arith, ◌≡◌, ◌≢◌, refl, true, false, ◌&&◌, none, some, [], ◌∷◌, Text, codes, text_eq, has, leb,
  if◌then◌else◌, ok, err,
}
use v2hub_api.Base.Strings.{lower, lower_char}
use v2hub_api.Models.{filled}
use v2hub_api.HttpClient.{v4, ParsedUrl}
use v2hub_api.HttpClient.Addresses.{quad}
use v2hub_api.HttpClient.Patterns.{literal, many, many1}
use v2hub_api.UrlValidator.{
  Library, at_end, one_part, two_parts, three_parts, four_parts, is_localhost, sixteen_to_31,
  is_private_text, is_private_v4, is_private_address, is_private_ip, ipv6_names, other_names,
  check_host, check_hostname, check_parsed, validate_external_url, private_address, localhost,
  private_ip,
}
use v2hub_api.UrlValidator.Hosts.{dotless, check_host-dotless, validate_external_url-ok}

abbrev parsed : ParsedUrl
parsed = record {
  scheme = codes "https";
  hostname = some (codes "8.8.8.8");
  username = none;
  password = none;
}

abbrev library : Library
library = record {
  urlparse = λ u. some parsed;
  ip_address = λ s.
      if text_eq s (codes "203.0.113.5")
      then some (v4 (quad 203 0 113 5))
      else some (v4 (quad 8 8 8 8));
  is_decimal = λ c. leb 48 c && leb c 57;
}

accepted : validate_external_url library (codes "https://8.8.8.8/") ≡ ok tt
unfolding validate_external_url check_parsed check_hostname check_host is_localhost is_private_text
    is_private_ip is_private_address is_private_v4 four_parts three_parts two_parts one_part at_end
    sixteen_to_31 literal many many1 has text_eq lower lower_char
accepted = refl

validate_external_url-ok_example :
    (p : ParsedUrl) × (host : Text) × (library.urlparse (codes "https://8.8.8.8/") ≡ some p)
    × (has (codes "http" ∷ codes "https" ∷ []) p.scheme ≡ true)
    × (filled p.hostname ≡ some host)
    × (is_localhost library host ≡ false)
    × (is_private_text library host ≡ false)
    × (four_parts library host ≡ true → is_private_ip library host ≡ false)
validate_external_url-ok_example =
    validate_external_url-ok library (codes "https://8.8.8.8/") tt accepted

refused :
    (check_host library (codes "172.20.0.1") ≡ err private_address)
    × (check_host library (codes "127.0.0.1") ≡ err localhost)
    × (check_host library (codes "203.0.113.5") ≡ err (private_ip (codes "203.0.113.5")))
unfolding check_host is_localhost is_private_text is_private_ip is_private_address is_private_v4
    four_parts three_parts two_parts one_part at_end sixteen_to_31 literal many many1 has text_eq
    lower lower_char
refused = (refl, refl, refl)

fd00_dotless : dotless (codes "fd00::1") ≡ true
unfolding lower_char
fd00_dotless = refl

not_l : lower_char 102 ≢ 108
unfolding lower_char
not_l e = ground arith

not_listed :
    (has (ipv6_names library) (lower (codes "fd00::1")) ≡ false)
    × (has (other_names library) (lower (codes "fd00::1")) ≡ false)
unfolding lower lower_char has text_eq
not_listed = (refl, refl)

-- The private address fd00::1 passes.
check_host-dotless_example : check_host library (codes "fd00::1") ≡ ok tt
check_host-dotless_example =
    check_host-dotless library 102 (codes "d00::1") fd00_dotless not_l not_listed.0 not_listed.1
