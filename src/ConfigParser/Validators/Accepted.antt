-- ===== src/ConfigParser/Validators/Accepted.antt =====
-- config_parser.py, `validate_proxy_config`: which configs it accepts.
use v2hub_api.Base.{
  ◌≡◌, subst, Bool-cases, ◌∷◌, [], ◌↔◌, refl, inl, inr, Bool, true, false, ◌||◌, ◌&&◌, not, some,
  Text, codes, length, ◌==◌, text_eq, Result, ok, arith, Option-cases, Result-cases,
}
use v2hub_api.Base.Strings.{after_prefix, is_some}
use v2hub_api.Enums.{ProxyProtocol, vless, vmess, trojan, shadowsocks, hysteria, hysteria2, tuic}
use v2hub_api.ConfigParser.{detect_protocol, is_empty}
use v2hub_api.ConfigParser.Validators.{
  ParsedUri, Verdict, filled, check_vless, check_vmess, check_trojan, check_shadowsocks, guarded,
  validate_vless_config, validate_vmess_config, validate_trojan_config, validate_shadowsocks_config,
  validate_protocol, validate_proxy_config,
}

module _ (urlparse : Text → Result Text ParsedUri) where
  -- The URI has the scheme and names a server.
  abbrev pub HasServer : (ParsedUri → Bool) → Text → Type 0
  HasServer test uri =
      (p : ParsedUri) × (urlparse uri ≡ ok p) × (test p ≡ true) × (is_empty p.netloc ≡ false)

  -- what a URI of each protocol must have
  abbrev pub Requires : ProxyProtocol → Text → Type 0
  Requires vless uri =
      HasServer (λ p. text_eq p.scheme (codes "vless") && length (filled p.username) == 36) uri
  Requires vmess uri =
      (is_some (after_prefix (codes "vmess://") uri) ≡ true) × HasServer (λ p. true) uri
  Requires trojan uri =
      HasServer (λ p. text_eq p.scheme (codes "trojan") && not (is_empty (filled p.username))) uri
  Requires shadowsocks uri =
      HasServer (λ p. text_eq p.scheme (codes "ss") || text_eq p.scheme (codes "shadowsocks")) uri
  Requires hysteria uri = Unit
  Requires hysteria2 uri = Unit
  Requires tuic uri = Unit

  is_empty-length : (s : Text) → length s ≡ 36 → is_empty s ≡ false
  unfolding is_empty
  is_empty-length [] e = absurd (omega (arith, e))
  is_empty-length (c ∷ s) e = refl

  guarded-ok :
      (check : ParsedUri → Verdict) (test : ParsedUri → Bool) (uri : Text)
      → ((p : ParsedUri) → ((check p).0 ≡ (test p && not (is_empty p.netloc))))
      → (guarded check (urlparse uri)).0 ≡ true ↔ HasServer test uri
  guarded-ok check test uri h = elim (Result-cases (urlparse uri)) [
    | inl (p, e) ↦ (
      λ v. (
        p,
        e,
        (let c : (check p).0 ≡ true = (rw e at v) in ground (arith, h p)),
        (let c : (check p).0 ≡ true = (rw e at v) in ground (arith, h p)),
      ),
      λ (q, eq, t, n). rw e (ground (arith, h p)),
    )
    | inr (m, e) ↦ (λ v. cc (rw e at v), λ (q, eq, t, n). cc)
  ]

  check_vless-eq :
      (p : ParsedUri)
      → (check_vless p).0 ≡ (
          (text_eq p.scheme (codes "vless") && length (filled p.username) == 36)
          && not (is_empty p.netloc))
  unfolding check_vless
  check_vless-eq p = ground (arith, is_empty-length (filled p.username))

  check_trojan-eq :
      (p : ParsedUri)
      → (check_trojan p).0 ≡ (
          (text_eq p.scheme (codes "trojan") && not (is_empty (filled p.username)))
          && not (is_empty p.netloc))
  unfolding check_trojan
  check_trojan-eq p = ground arith

  validate_protocol_iff :
      (protocol : ProxyProtocol) (uri : Text)
      → (validate_protocol urlparse protocol uri).0 ≡ true ↔ Requires protocol uri
  unfolding validate_protocol validate_vless_config validate_vmess_config validate_trojan_config
      validate_shadowsocks_config check_vmess check_shadowsocks
  validate_protocol_iff vless uri =
      guarded-ok check_vless
        (λ p. text_eq p.scheme (codes "vless") && length (filled p.username) == 36) uri
        check_vless-eq
  validate_protocol_iff vmess uri =
      elim (Bool-cases (is_some (after_prefix (codes "vmess://") uri))) [
        | inr other ↦ rw other ((λ v. cc v), (λ (b, h). cc b))
        | inl prefixed ↦
            let (to, from) = guarded-ok check_vmess (λ p. true) uri (λ p. ground arith) in
            rw prefixed ((λ v. (refl, to v)), (λ (b, h). from h))
      ]
  validate_protocol_iff trojan uri =
      guarded-ok check_trojan
        (λ p. text_eq p.scheme (codes "trojan") && not (is_empty (filled p.username))) uri
        check_trojan-eq
  validate_protocol_iff shadowsocks uri =
      guarded-ok check_shadowsocks
        (λ p. text_eq p.scheme (codes "ss") || text_eq p.scheme (codes "shadowsocks")) uri
        (λ p. ground arith)
  validate_protocol_iff hysteria uri = (λ v. tt, λ h. refl)
  validate_protocol_iff hysteria2 uri = (λ v. tt, λ h. refl)
  validate_protocol_iff tuic uri = (λ v. tt, λ h. refl)

  -- A config is valid exactly if the protocol of its scheme is known and the URI has what this
  -- protocol requires: a server for the first four; for VLESS also a username of 36 characters, for
  -- Trojan one that is not empty; for these two and Shadowsocks a scheme that the parser reads as
  -- theirs; and for VMess a scheme in small letters.
  pub validate_proxy_config_iff :
      (uri : Text)
      → (validate_proxy_config urlparse uri).0 ≡ true ↔ (
          (protocol : ProxyProtocol) × (detect_protocol uri ≡ some protocol)
          × Requires protocol uri)
  unfolding validate_proxy_config
  validate_proxy_config_iff uri = elim (Option-cases (detect_protocol uri)) [
    | inl e ↦ rw (validate_proxy_config, e) ((λ v. cc v), (λ (p, eq, h). cc eq))
    | inr (protocol, e) ↦
        let (to, from) = validate_protocol_iff protocol uri in
        rw (validate_proxy_config, e)
          (
            (λ v. (protocol, refl, to v)),
            (λ (p, eq, h).
                let same : p ≡ protocol = cc eq in from (subst (λ q. Requires q uri) same h)),
          )
  ]
