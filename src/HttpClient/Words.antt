-- ===== src/HttpClient/Words.antt =====
-- http_client.py, `_MALICIOUS_PATTERNS`: the patterns that are plain words, compared with `in`.
use v2hub_api.Base.{
  ℕ, ◌≡◌, refl, sym, ◌∙◌, inl, inr, false, ◌||◌, Option, none, some, List, [], ◌∷◌, Text, codes,
  All, arith, Option-cases,
}
use v2hub_api.Base.Strings.{
  is_some, lower, lower_char, after_prefix, split_once, contains, put_left,
}
use v2hub_api.HttpClient.Patterns.{
  Matcher, literal, matched, search_in, finds_any, malicious_patterns,
}

-- What `re.search` finds of a literal is what Python's `in` finds in the text in lower case.
literal-matched : (p s : Text) → literal p matched s ≡ is_some (after_prefix p (lower s))
unfolding literal matched after_prefix lower
literal-matched [] s = refl
literal-matched (p ∷ ps) [] = refl
literal-matched (p ∷ ps) (c ∷ s) = ground (arith, literal-matched ps s)

is_some-put_left : (c : ℕ) (o : Option (Text × Text)) → is_some (put_left c o) ≡ is_some o
is_some-put_left c none = refl
is_some-put_left c (some (a, b)) = refl

contains-cons :
    (sep : Text) (c : ℕ) (s : Text)
    → contains sep (c ∷ s) ≡ (is_some (after_prefix sep (c ∷ s)) || contains sep s)
unfolding contains split_once
contains-cons sep c s = elim (Option-cases (after_prefix sep (c ∷ s))) [
  | inr (rest, e) ↦ rw (split_once, e) refl
  | inl e ↦ rw (split_once, e) (is_some-put_left c (split_once sep s))
]

search_in-literal :
    (p : ℕ) (ps s : Text) → search_in (literal (p ∷ ps) matched) s ≡ contains (p ∷ ps) (lower s)
unfolding search_in contains split_once lower literal
search_in-literal p ps [] = refl
search_in-literal p ps (c ∷ s) =
    rw (literal-matched (p ∷ ps) (c ∷ s), search_in-literal p ps s)
      (sym (contains-cons (p ∷ ps) (lower_char c) (lower s)))

finds_any-cons :
    (m : Matcher) (ms : List Matcher) (s : Text)
    → finds_any (m ∷ ms) s ≡ false
    → (search_in m s ≡ false) × (finds_any ms s ≡ false)
unfolding finds_any
finds_any-cons m ms s e = ground arith

-- The plain words that no accepted body has, in any case.
abbrev pub script_words : List Text
script_words = codes "javascript:" ∷ codes "vbscript:" ∷ codes "<iframe" ∷ codes "__import__" ∷ []

no_word :
    (p : ℕ) (ps s : Text)
    → search_in (literal (p ∷ ps) matched) s ≡ false
    → contains (p ∷ ps) (lower s) ≡ false
no_word p ps s e = sym (search_in-literal p ps s) ∙ e

pub no_script_words :
    (s : Text)
    → finds_any malicious_patterns s ≡ false
    → All (λ word. contains word (lower s) ≡ false) script_words
no_script_words s e =
    let (_, e1) = finds_any-cons _ _ s e in
    let (javascript, e2) = finds_any-cons _ _ s e1 in
    let (vbscript, e3) = finds_any-cons _ _ s e2 in
    let (_, e4) = finds_any-cons _ _ s e3 in
    let (iframe, e5) = finds_any-cons _ _ s e4 in
    let (_, e6) = finds_any-cons _ _ s e5 in
    let (_, e7) = finds_any-cons _ _ s e6 in
    let (_, e8) = finds_any-cons _ _ s e7 in
    let (imports, _) = finds_any-cons _ _ s e8 in
    (
      no_word _ _ s javascript,
      (no_word _ _ s vbscript, (no_word _ _ s iframe, (no_word _ _ s imports, tt))),
    )
