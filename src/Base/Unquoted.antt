-- ===== src/Base/Unquoted.antt =====
-- `unquote` shortens a text that has an escape, and leaves any other as it is.
use Prim.Native.Nat.{ℕ, ◌+◌, ◌≤◌, ◌<◌}
use mathlib.Core.Path.{◌≡◌, refl, ap, ◌∙◌}
use mathlib.Core.Logic.{inl, inr}
use mathlib.Core.Bool.{◌&&◌, true, false}
use mathlib.Core.Option.{Option, none, some}
use mathlib.Core.List.{List, [], ◌∷◌, map}
use native.Mathlib.Omega.{arith}
use v2hub_api.Base.Tests.{leb, ◌==◌, ltb, if◌then◌else◌, Bool-cases, Option-cases}
use v2hub_api.Base.Texts.{Text}
use v2hub_api.Base.Lists.{length}
use v2hub_api.Base.Utf8.{Pending, complete, next_byte, lead_byte}
use v2hub_api.Base.Unquote.{
  escaped, Token, byte, char, plain, tokens, replacement, emit, flush, decode_tokens, unquote,
  starts_escape, has_escape,
}

-- one for a sequence that is not complete
abbrev waiting : Pending → ℕ
waiting p = if p.missing == 0 then 0 else 1

abbrev size : Option ℕ → ℕ
size none = 0
size (some c) = 1

-- A step gives no more characters than the bytes that it uses up.
abbrev Fits : Pending → Option (Option ℕ × Pending) → Type 0
Fits p none = Unit
Fits p (some (c, p')) = size c + waiting p' ≤ 1 + waiting p

lead_byte-Fits : (p : Pending) (b : ℕ) → Fits p (lead_byte b)
unfolding lead_byte
lead_byte-Fits p b = elim (Bool-cases (ltb b 0x80)) [
  | inl ascii ↦ rw ascii (omega arith)
  | inr high ↦ rw high (elim (Bool-cases (leb 0xc2 b && leb b 0xdf)) [
    | inl two ↦ rw two (omega arith)
    | inr no_two ↦ rw no_two (elim (Bool-cases (leb 0xe0 b && leb b 0xef)) [
      | inl three ↦ rw three (omega arith)
      | inr no_three ↦ rw no_three (elim (Bool-cases (leb 0xf0 b && leb b 0xf4)) [
        | inl four ↦ rw four (omega arith)
        | inr invalid ↦ rw invalid tt
      ])
    ])
  ])
]

next_byte-Fits : (p : Pending) (b : ℕ) → Fits p (next_byte p b)
unfolding next_byte
next_byte-Fits p b = elim (Bool-cases (p.missing == 0)) [
  | inl start ↦ rw start (lead_byte-Fits p b)
  | inr inside ↦ rw inside (elim (Bool-cases (leb p.low b && leb b p.high)) [
    | inr invalid ↦ rw invalid tt
    | inl valid ↦ rw valid (elim (Bool-cases (p.missing == 1)) [
      | inl last_byte ↦ rw last_byte (ground arith)
      | inr more ↦ rw more (ground arith)
    ])
  ])
]

length-emit : (c : Option ℕ) (s : Text) → length (emit c s) ≡ size c + length s
length-emit none s = omega arith
length-emit (some c) s = omega arith

length-flush : (p : Pending) (s : Text) → length (flush p s) ≡ waiting p + length s
unfolding flush
length-flush p s = ground arith

length-decode_tokens :
    (p : Pending) (ts : List Token) → length (decode_tokens p ts) ≤ length ts + waiting p
unfolding decode_tokens
length-decode_tokens p [] = omega (arith, length-flush p [])
length-decode_tokens p (char c ∷ ts) =
    omega (arith, length-flush p (c ∷ decode_tokens complete ts), length-decode_tokens complete ts)
length-decode_tokens p (byte b ∷ ts) = elim (Option-cases (next_byte p b)) [
  | inr ((c, p'), e) ↦
      let fits : size c + waiting p' ≤ 1 + waiting p = (rw e at (next_byte-Fits p b)) in
      rw (decode_tokens, e)
        (omega (arith, fits, length-emit c (decode_tokens p' ts), length-decode_tokens p' ts))
  | inl none_now ↦ elim (Option-cases (next_byte complete b)) [
    | inr ((c, p'), e) ↦
        let fits : size c + waiting p' ≤ 1 + waiting complete =
          (rw e at (next_byte-Fits complete b)) in
        rw (decode_tokens, none_now)
          (rw e (
            omega (
              arith,
              fits,
              length-flush p (emit c (decode_tokens p' ts)),
              length-emit c (decode_tokens p' ts),
              length-decode_tokens p' ts,
            )))
    | inl invalid ↦
        rw (decode_tokens, none_now)
          (rw invalid (
            omega (
              arith,
              length-flush p (replacement ∷ decode_tokens complete ts),
              length-decode_tokens complete ts,
            )))
  ]
]

length-tokens : (s : Text) → length (tokens s) ≤ length s
unfolding tokens
length-tokens [] = omega arith
length-tokens (c ∷ []) = omega arith
length-tokens (c ∷ d ∷ []) = omega arith
length-tokens (c ∷ d ∷ e ∷ s) = elim (Option-cases (escaped c d e)) [
  | inl no_escape ↦ rw (tokens, no_escape) (omega (arith, length-tokens (d ∷ e ∷ s)))
  | inr (b, escape) ↦ rw (tokens, escape) (omega (arith, length-tokens s))
]

fewer_tokens : (s : Text) → has_escape s ≡ true → length (tokens s) < length s
unfolding tokens has_escape starts_escape
fewer_tokens [] h = cc h
fewer_tokens (c ∷ []) h = cc h
fewer_tokens (c ∷ d ∷ []) h = cc h
fewer_tokens (c ∷ d ∷ e ∷ s) h = elim (Option-cases (escaped c d e)) [
  | inl no_escape ↦
      rw (tokens, no_escape)
        (omega (arith, fewer_tokens (d ∷ e ∷ s) (rw (has_escape, starts_escape, no_escape) at h)))
  | inr (b, escape) ↦ rw (tokens, escape) (omega (arith, length-tokens s))
]

-- A text that has an escape becomes shorter.
pub shorter_unquote : (s : Text) → has_escape s ≡ true → length (unquote s) < length s
unfolding unquote
shorter_unquote s h = omega (arith, length-decode_tokens complete (tokens s), fewer_tokens s h)

tokens-plain : (s : Text) → has_escape s ≡ false → tokens s ≡ map plain s
unfolding tokens has_escape starts_escape
tokens-plain [] h = refl
tokens-plain (c ∷ []) h = refl
tokens-plain (c ∷ d ∷ []) h = refl
tokens-plain (c ∷ d ∷ e ∷ s) h = elim (Option-cases (escaped c d e)) [
  | inl no_escape ↦
      rw (tokens, no_escape)
        (ap (λ ts. plain c ∷ ts)
          (tokens-plain (d ∷ e ∷ s) (rw (has_escape, starts_escape, no_escape) at h)))
  | inr (b, escape) ↦ cc (rw (has_escape, starts_escape, escape) at h)
]

next_byte-ascii : (c : ℕ) → ltb c 128 ≡ true → next_byte complete c ≡ some (some c, complete)
unfolding next_byte lead_byte
next_byte-ascii c ascii = rw ascii refl

decode_tokens-plain : (s : Text) → decode_tokens complete (map plain s) ≡ s
unfolding decode_tokens flush plain
decode_tokens-plain [] = refl
decode_tokens-plain (c ∷ s) = elim (Bool-cases (ltb c 128)) [
  | inl ascii ↦
      rw ascii
        (rw (decode_tokens, next_byte-ascii c ascii) (ap (λ t. c ∷ t) (decode_tokens-plain s)))
  | inr other ↦ rw other (ap (λ t. c ∷ t) (decode_tokens-plain s))
]

-- A text without an escape stays as it is.
pub plain_unquote : (s : Text) → has_escape s ≡ false → unquote s ≡ s
unfolding unquote
plain_unquote s h = ap (decode_tokens complete) (tokens-plain s h) ∙ decode_tokens-plain s
