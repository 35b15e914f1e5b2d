-- ===== src/Enums.antt =====
-- src/v2hub_api/core/enums.py: the kinds of source, the proxy protocols with their URI schemes and
-- aliases, and the states of a provider's authorization.
mod Laws
mod Tests
use v2hub_api.Base.{
  ℕ, ◌≡◌, refl, Bool, true, false, ◌&&◌, not, Option, none, some, List, [], ◌∷◌, ◌++◌, map, Text,
  codes, text_eq, if◌then◌else◌, Dict, lookup,
}
use v2hub_api.Base.Strings.{split_once, contains, lower, is_some}

pub data SourceType : Type 0 where
  config external_url internal_token : SourceType

pub data ProxyProtocol : Type 0 where
  vless vmess trojan shadowsocks hysteria hysteria2 tuic : ProxyProtocol

pub data ProviderAuthorizationStatus : Type 0 where
  pending approved revoked : ProviderAuthorizationStatus

-- `member.value`
unfoldable pub value : ProxyProtocol → Text
value vless = codes "vless"
value vmess = codes "vmess"
value trojan = codes "trojan"
value shadowsocks = codes "ss"
value hysteria = codes "hysteria"
value hysteria2 = codes "hysteria2"
value tuic = codes "tuic"

abbrev pub members : List ProxyProtocol
members = vless ∷ vmess ∷ trojan ∷ shadowsocks ∷ hysteria ∷ hysteria2 ∷ tuic ∷ []

abbrev pub scheme_aliases : Dict Text
scheme_aliases = (codes "hy2", codes "hysteria2") ∷ []

-- `cls(scheme)`: the first member with that value, `none` for the ValueError
find_value : List ProxyProtocol → Text → Option ProxyProtocol
find_value [] scheme = none
find_value (m ∷ ms) scheme = if text_eq (value m) scheme then some m else find_value ms scheme

abbrev pub get_or_self : Option Text → Text → Text
get_or_self none scheme = scheme
get_or_self (some canonical) scheme = canonical

unfoldable pub scheme_protocol : Text → Option ProxyProtocol
unfolding find_value
scheme_protocol scheme = find_value members (get_or_self (lookup scheme scheme_aliases) scheme)

abbrev pub separator : Text
separator = codes "://"

from_uri_parts : Option (Text × Text) → Option ProxyProtocol
from_uri_parts none = none
from_uri_parts (some (scheme, rest)) = scheme_protocol (lower scheme)

-- An empty URI has no separator either, so the two guards are one.
unfoldable pub from_uri : Text → Option ProxyProtocol
unfolding from_uri_parts
from_uri uri = from_uri_parts (split_once separator uri)

abbrev pub keys {ℓ} : {V : Type ℓ} → Dict V → List Text
keys [] = []
keys ((k, v) ∷ d) = k ∷ keys d

-- every scheme that `from_uri` knows, the aliases included
unfoldable pub known_uri_schemes : List Text
unfolding value
known_uri_schemes = map value members ++ keys scheme_aliases
