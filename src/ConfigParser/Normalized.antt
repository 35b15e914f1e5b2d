-- ===== src/ConfigParser/Normalized.antt =====
-- config_parser.py, `normalize_source`: the loop ends, and what it gives has nothing left to decode.
use v2hub_api.Base.{
  ℕ, zero, suc, ◌<◌, ◌≤◌, ◌≡◌, refl, ap, ◌⊎◌, inl, inr, false, Option, none, some, [], ◌∷◌, ◌++◌,
  Text, length, ltb, text_eq, text_eq_iff, text_eq_self, Result, ok, err, arith, Bool-cases,
  Option-cases, List-cases,
}
use v2hub_api.Base.Strings.{strip, after_prefix, lstrip, rstrip, put_before, is_space, split_once}
use v2hub_api.Base.Strip.{HashFree, strip-strip}
use v2hub_api.Base.Unquote.{unquote, starts_escape, has_escape}
use v2hub_api.Base.Unquoted.{shorter_unquote, plain_unquote}
use v2hub_api.ConfigParser.{hash_sign}
use v2hub_api.ConfigParser.Comment.{
  split_once_hash-append, split_once_hash-none, split_once-HashFree, none-HashFree,
}
use v2hub_api.ConfigParser.Sources.{
  NormalizeError, comment_too_long, not_a_source, endless, unquote_all, exceeds, restore,
  normalize_source,
}

unquote_all_of_plain : (n : ℕ) (s : Text) → has_escape s ≡ false → unquote_all (suc n) s ≡ some s
unfolding unquote_all
unquote_all_of_plain n s plain = rw (unquote_all, plain_unquote s plain, text_eq_self s) refl

-- The loop ends with a text that has no escape.
pub unquote_all_plain :
    (n : ℕ) (s : Text)
    → length s < n
    → (t : Text) × (unquote_all n s ≡ some t) × (has_escape t ≡ false)
unfolding unquote_all
unquote_all_plain zero s h = absurd (omega (arith, h))
unquote_all_plain (suc n) s h = elim (Bool-cases (has_escape s)) [
  | inr plain ↦ (s, unquote_all_of_plain n s plain, plain)
  | inl more ↦ elim (Bool-cases (text_eq s (unquote s))) [
    | inl same ↦
        absurd
          (omega (arith, shorter_unquote s more, ap length ((text_eq_iff s (unquote s)).0 same)))
    | inr differs ↦
        let (t, e, plain) =
          unquote_all_plain n (unquote s) (omega (arith, shorter_unquote s more)) in
        (t, rw (unquote_all, differs) e, plain)
  ]
]

has_escape-lstrip : (s : Text) → has_escape s ≡ false → has_escape (lstrip s) ≡ false
unfolding lstrip has_escape
has_escape-lstrip [] h = refl
has_escape-lstrip (c ∷ s) h = elim (Bool-cases (is_space c)) [
  | inl space ↦ rw space (has_escape-lstrip s (ground arith))
  | inr solid ↦ rw solid h
]

starts_escape-rstrip :
    (c : ℕ) (s : Text) → starts_escape (c ∷ s) ≡ false → starts_escape (c ∷ rstrip s) ≡ false
unfolding starts_escape rstrip put_before
starts_escape-rstrip c [] h = refl
starts_escape-rstrip c (d ∷ []) h = ground arith
starts_escape-rstrip c (d ∷ e ∷ s) h = elim (List-cases (rstrip s)) [
  | inr (x, r, eq) ↦ rw eq h
  | inl eq ↦ rw eq (ground arith)
]

starts_escape-alone : (c : ℕ) → starts_escape (c ∷ []) ≡ false
unfolding starts_escape
starts_escape-alone c = refl

has_escape-rstrip : (s : Text) → has_escape s ≡ false → has_escape (rstrip s) ≡ false
unfolding rstrip put_before has_escape
has_escape-rstrip [] h = refl
has_escape-rstrip (c ∷ s) h = elim (List-cases (rstrip s)) [
  | inl e ↦ rw e (ground (arith, starts_escape-alone c))
  | inr (d, r, e) ↦
      let starts : starts_escape (c ∷ d ∷ r) ≡ false =
        (rw e at (starts_escape-rstrip c s (ground arith))) in
      let rest : has_escape (d ∷ r) ≡ false = (rw e at (has_escape-rstrip s (ground arith))) in
      rw e (ground arith)
]

has_escape-strip : (s : Text) → has_escape s ≡ false → has_escape (strip s) ≡ false
unfolding strip
has_escape-strip s h = has_escape-rstrip (lstrip s) (has_escape-lstrip s h)

split_once-append : (s a b : Text) → split_once hash_sign s ≡ some (a, b) → s ≡ a ++ b'#' ∷ b
unfolding split_once after_prefix
split_once-append [] a b h = cc
split_once-append (c ∷ s) a b h = elim (Option-cases (split_once hash_sign s)) [
  | inl e ↦ ground arith
  | inr ((x, y), e) ↦ ground (arith, split_once-append s x y e)
]

abbrev pub Within : Option ℕ → ℕ → Type 0
Within none n = Unit
Within (some max_length) n = n ≤ max_length

-- A comment with nothing left to strip or to decode, of at most the greatest length.
abbrev pub IsClean : Option ℕ → Text → Type 0
IsClean max_length comment =
    (strip comment ≡ comment) × (has_escape comment ≡ false) × Within max_length (length comment)

-- What a source becomes: itself without a "#", and else its URL with a clean comment.
abbrev pub Decoded : Option ℕ → Text → Text → Type 0
Decoded max_length source out =
    (HashFree source × (out ≡ source))
    ⊎ ((url comment raw : Text) × HashFree url
        × (source ≡ url ++ b'#' ∷ raw)
        × (out ≡ url ++ b'#' ∷ comment)
        × IsClean max_length comment)

exceeds-cases :
    (max_length : Option ℕ) (n : ℕ)
    → ((exceeds max_length n ≡ ok tt) × Within max_length n)
      ⊎ ((m : ℕ) × (exceeds max_length n ≡ err (comment_too_long m)) × (max_length ≡ some m))
exceeds-cases none n = inl (refl, tt)
exceeds-cases (some m) n = elim (Bool-cases (ltb m n)) [
  | inl long ↦ inr (m, rw long refl, refl)
  | inr short ↦ inl (rw short refl, ground arith)
]

exceeds_of_Within :
    (max_length : Option ℕ) (n : ℕ) → Within max_length n → exceeds max_length n ≡ ok tt
exceeds_of_Within none n fits = refl
exceeds_of_Within (some m) n fits = let short : ltb m n ≡ false = ground arith in rw short refl

normalize_source-clean :
    (max_length : Option ℕ) (url comment : Text)
    → HashFree url
    → IsClean max_length comment
    → normalize_source max_length (url ++ b'#' ∷ comment) ≡ ok (url ++ b'#' ∷ comment)
unfolding normalize_source restore
normalize_source-clean max_length url comment h (stripped, plain, fits) =
    rw (normalize_source, split_once_hash-append url comment h)
      (rw (unquote_all_of_plain (length comment) comment plain, restore)
        (rw (stripped, exceeds_of_Within max_length (length comment) fits) refl))

normalize_source-Decoded :
    (max_length : Option ℕ) (source out : Text)
    → Decoded max_length source out
    → normalize_source max_length out ≡ ok out
unfolding normalize_source
normalize_source-Decoded max_length source out (inl (free, same)) =
    rw same (rw (normalize_source, split_once_hash-none source free) refl)
normalize_source-Decoded max_length source out (inr (url, comment, raw, free, eq, same, clean)) =
    rw same (normalize_source-clean max_length url comment free clean)

-- How the call ends: with a decoded source, which a second call leaves as it is, or with the error
-- for a comment of more than the greatest length.
abbrev pub Ends : Option ℕ → Text → Result NormalizeError Text → Type 0
Ends max_length source (ok out) =
    Decoded max_length source out × (normalize_source max_length out ≡ ok out)
Ends max_length source (err (comment_too_long m)) = max_length ≡ some m
Ends max_length source (err not_a_source) = ⊥
Ends max_length source (err endless) = ⊥

-- `normalize_source` on a source always comes to an end. It raises nothing but the error for a
-- comment of more than the greatest length. Where it returns, a source without a "#" is returned as
-- it is; of any other, the text before the first "#" is kept and the comment after it becomes one
-- within the greatest length that has no escape and nothing to strip. What it returns is returned
-- unchanged by a second call.
pub normalize_source-Ends :
    (max_length : Option ℕ) (source : Text)
    → Ends max_length source (normalize_source max_length source)
unfolding normalize_source restore
normalize_source-Ends max_length source = elim (Option-cases (split_once hash_sign source)) [
  | inl e ↦
      let decoded : Decoded max_length source source = inl (none-HashFree source e, refl) in
      rw (normalize_source, e) (decoded, normalize_source-Decoded max_length source source decoded)
  | inr ((url, raw), e) ↦
      let (t, all, plain) = unquote_all_plain (suc (length raw)) raw (omega arith) in
      rw (normalize_source, e)
        (rw (all, restore)
          (elim (exceeds-cases max_length (length (strip t))) [
            | inr (m, long, is) ↦ rw long is
            | inl (short, fits) ↦
                let out = url ++ b'#' ∷ strip t in
                let decoded : Decoded max_length source out = inr (
                  url,
                  strip t,
                  raw,
                  split_once-HashFree source url raw e,
                  split_once-append source url raw e,
                  refl,
                  (strip-strip t, has_escape-strip t plain, fits),
                ) in
                rw short (decoded, normalize_source-Decoded max_length source out decoded)
          ]))
]
