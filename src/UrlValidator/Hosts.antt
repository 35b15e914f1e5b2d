-- ===== src/UrlValidator/Hosts.antt =====
-- url_validator.py: which hosts pass, and the IPv6 addresses that do.
use v2hub_api.Base.{
  ℕ, ◌==◌, ◌≡◌, ◌≢◌, refl, inl, inr, Bool, true, false, not, ◌&&◌, some, [], ◌∷◌, ◌++◌, Text, codes,
  has, ok, Bool-cases, Option-cases, arith,
}
use v2hub_api.Base.Strings.{lower, lower_char}
use v2hub_api.Models.{filled}
use v2hub_api.HttpClient.{ParsedUrl}
use v2hub_api.HttpClient.Patterns.{Matcher, literal, many, many1}
use v2hub_api.UrlValidator.{
  Library, at_end, two_parts, three_parts, four_parts, is_localhost, sixteen_to_31, is_private_text,
  is_private_ip, ipv6_names, other_names, check_host, check_hostname, check_parsed,
  validate_external_url,
}

-- No character of the text is a dot.
abbrev pub dotless : Text → Bool
dotless [] = true
dotless (c ∷ s) = not (lower_char c == 46) && dotless s

-- A matcher that needs a dot.
abbrev NeedsDot : Matcher → Type 0
NeedsDot m = (s : Text) → dotless s ≡ true → m s ≡ false

literal-NeedsDot : (k : Matcher) → NeedsDot (literal (codes ".") k)
unfolding literal
literal-NeedsDot k [] h = refl
literal-NeedsDot k (c ∷ s) h = ground arith

many-NeedsDot : (p : ℕ → Bool) (k : Matcher) → NeedsDot k → NeedsDot (many p k)
unfolding many
many-NeedsDot p k needs [] h = needs [] h
many-NeedsDot p k needs (c ∷ s) h =
    let rest : dotless s ≡ true = ground arith in
    ground (arith, needs (c ∷ s) h, many-NeedsDot p k needs s rest)

many1-NeedsDot : (p : ℕ → Bool) (k : Matcher) → NeedsDot k → NeedsDot (many1 p k)
unfolding many1
many1-NeedsDot p k needs [] h = refl
many1-NeedsDot p k needs (c ∷ s) h =
    let rest : dotless s ≡ true = ground arith in ground (arith, many-NeedsDot p k needs s rest)

-- a literal that contains a dot
dotted_literal-NeedsDot : (a b : Text) (k : Matcher) → NeedsDot (literal (a ++ 46 ∷ b) k)
unfolding literal
dotted_literal-NeedsDot [] b k [] h = refl
dotted_literal-NeedsDot [] b k (c ∷ s) h = ground arith
dotted_literal-NeedsDot (p ∷ a) b k [] h = refl
dotted_literal-NeedsDot (p ∷ a) b k (c ∷ s) h =
    let rest : dotless s ≡ true = ground arith in
    ground (arith, dotted_literal-NeedsDot a b k s rest)

not_l : (c : ℕ) (s : Text) → lower_char c ≢ 108 → literal (codes "localhost") at_end (c ∷ s) ≡ false
unfolding literal
not_l c s first = ground arith

module _ (L : Library) where
  four_parts-NeedsDot : NeedsDot (four_parts L)
  unfolding four_parts
  four_parts-NeedsDot s h =
      many1-NeedsDot L.is_decimal (literal (codes ".") (three_parts L))
        (literal-NeedsDot (three_parts L)) s h

  is_private_text-NeedsDot : NeedsDot (is_private_text L)
  unfolding is_private_text
  is_private_text-NeedsDot s h =
      rw
        (
          dotted_literal-NeedsDot (codes "10") [] (three_parts L) s h,
          dotted_literal-NeedsDot (codes "172") []
              (sixteen_to_31 L (literal (codes ".") (two_parts L))) s h,
          dotted_literal-NeedsDot (codes "192") (codes "168.") (two_parts L) s h,
          dotted_literal-NeedsDot (codes "169") (codes "254.") (two_parts L) s h,
          dotted_literal-NeedsDot (codes "0") (codes "0.0.0") at_end s h,
          dotted_literal-NeedsDot (codes "255") (codes "255.255.255") at_end s h,
        )
        refl

  -- A hostname without a dot that does not begin with "l" and is none of the listed names, such as
  -- "::1" or "broadcasthost", is accepted, also if it is a private address of IPv6.
  pub check_host-dotless :
      (c : ℕ) (s : Text)
      → dotless (c ∷ s) ≡ true
      → lower_char c ≢ 108
      → has (ipv6_names L) (lower (c ∷ s)) ≡ false
      → has (other_names L) (lower (c ∷ s)) ≡ false
      → check_host L (c ∷ s) ≡ ok tt
  unfolding check_host is_localhost
  check_host-dotless c s h first loopback other =
      let literal_l : literal (codes "localhost") at_end (c ∷ s) ≡ false = not_l c s first in
      rw
        (
          literal_l,
          dotted_literal-NeedsDot (codes "127") [] (three_parts L) (c ∷ s) h,
          is_private_text-NeedsDot (c ∷ s) h,
          four_parts-NeedsDot (c ∷ s) h,
          loopback,
          other,
        )
        refl

  check_host-ok :
      (host : Text) (u : Unit {0})
      → check_host L host ≡ ok u
      → (is_localhost L host ≡ false)
        × (is_private_text L host ≡ false)
        × (four_parts L host ≡ true → is_private_ip L host ≡ false)
  unfolding check_host
  check_host-ok host u e = elim (Bool-cases (is_localhost L host)) [
    | inl near ↦ cc (rw near at e)
    | inr far ↦ elim (Bool-cases (is_private_text L host)) [
      | inl hidden ↦ cc (rw hidden at (rw far at e))
      | inr open_text ↦ elim (Bool-cases (four_parts L host && is_private_ip L host)) [
        | inl private ↦ cc (rw private at (rw open_text at (rw far at e)))
        | inr public_ip ↦ (far, open_text, λ dotted. ground arith)
      ]
    ]
  ]

  -- A URL is accepted only if it has the scheme http or https and a hostname, which is not localhost,
  -- not of the form of a private address, and not four parts of digits whose address is private.
  pub validate_external_url-ok :
      (url : Text) (u : Unit {0})
      → validate_external_url L url ≡ ok u
      → (parsed : ParsedUrl) × (host : Text) × (L.urlparse url ≡ some parsed)
        × (has (codes "http" ∷ codes "https" ∷ []) parsed.scheme ≡ true)
        × (filled parsed.hostname ≡ some host)
        × (is_localhost L host ≡ false)
        × (is_private_text L host ≡ false)
        × (four_parts L host ≡ true → is_private_ip L host ≡ false)
  unfolding validate_external_url check_parsed check_hostname
  validate_external_url-ok url u e = elim (Option-cases (L.urlparse url)) [
    | inl wrong ↦ cc (rw (check_parsed, wrong) at e)
    | inr (parsed, right) ↦
        elim (Bool-cases (has (codes "http" ∷ codes "https" ∷ []) parsed.scheme)) [
          | inr other ↦ cc (rw other at (rw (check_parsed, right) at e))
          | inl scheme ↦ elim (Option-cases (filled parsed.hostname)) [
            | inl missing ↦
                cc (rw (check_hostname, missing) at (rw scheme at (rw (check_parsed, right) at e)))
            | inr (host, named) ↦
                let (far, open_text, public_ip) =
                  check_host-ok host u (
                    rw (check_hostname, named) at (rw scheme at (rw (check_parsed, right) at e))) in
                (parsed, host, right, scheme, named, far, open_text, public_ip)
          ]
        ]
  ]
