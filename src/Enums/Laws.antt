-- ===== src/Enums/Laws.antt =====
-- core/enums.py: the schemes of the protocols and what a URI is read as.
use v2hub_api.Base.{
  ◌≡◌, refl, inl, inr, some, ◌++◌, Text, codes, text_eq, text_eq_iff, has, arith, lookup,
  Bool-cases, subst,
}
use v2hub_api.Base.Strings.{split_once, lower, after_prefix, lower_char, is_some}
use v2hub_api.Enums.{
  ProxyProtocol, vless, vmess, trojan, shadowsocks, hysteria, hysteria2, tuic, value, separator,
  from_uri, scheme_protocol, known_uri_schemes,
}

-- For every protocol, a URI that starts with its scheme and "://" is detected as that protocol.
pub from_uri-value :
    (p : ProxyProtocol) (rest : Text) → from_uri (value p ++ separator ++ rest) ≡ some p
unfolding from_uri value scheme_protocol split_once lower lower_char after_prefix lookup text_eq
from_uri-value vless rest = refl
from_uri-value vmess rest = refl
from_uri-value trojan rest = refl
from_uri-value shadowsocks rest = refl
from_uri-value hysteria rest = refl
from_uri-value hysteria2 rest = refl
from_uri-value tuic rest = refl

-- The alias "hy2" is detected as the canonical protocol.
pub from_uri-alias : (rest : Text) → from_uri (codes "hy2" ++ separator ++ rest) ≡ some hysteria2
unfolding from_uri value scheme_protocol split_once lower lower_char after_prefix lookup text_eq
from_uri-alias rest = refl

known_alias : has known_uri_schemes (codes "hy2") ≡ is_some (scheme_protocol (codes "hy2"))
unfolding scheme_protocol has lookup value known_uri_schemes text_eq
known_alias = refl

-- The known schemes are exactly those that are mapped to a protocol.
pub has-known_uri_schemes :
    (scheme : Text) → has known_uri_schemes scheme ≡ is_some (scheme_protocol scheme)
unfolding scheme_protocol has lookup value known_uri_schemes
has-known_uri_schemes scheme = elim (Bool-cases (text_eq (codes "hy2") scheme)) [
  | inl alias ↦
      subst (λ (s : Text). has known_uri_schemes s ≡ is_some (scheme_protocol s))
        ((text_eq_iff (codes "hy2") scheme).0 alias) known_alias
  | inr other ↦ rw other (ground arith)
]
