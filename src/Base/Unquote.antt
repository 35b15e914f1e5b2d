-- ===== src/Base/Unquote.antt =====
-- Python's `urllib.parse.unquote`: percent-decoding as UTF-8, where what is no UTF-8 is replaced.
use Prim.Native.Nat.{ℕ, ◌+◌, ◌-◌, ◌*◌}
use mathlib.Core.Bool.{Bool, false, ◌&&◌, ◌||◌}
use mathlib.Core.Option.{Option, none, some}
use mathlib.Core.List.{List, [], ◌∷◌}
use v2hub_api.Base.Tests.{◌==◌, leb, ltb, if◌then◌else◌}
use v2hub_api.Base.Texts.{Text}
use v2hub_api.Base.Strings.{is_some}
use v2hub_api.Base.Utf8.{Pending, complete, next_byte}

-- the value of a hexadecimal digit
unfoldable pub hex_value : ℕ → Option ℕ
hex_value c =
    if leb 48 c && leb c 57
    then some (c - 48)
    else (if leb 65 c && leb c 70
        then some (c - 55)
        else (if leb 97 c && leb c 102 then some (c - 87) else none))

unfoldable pub two_digits : Option ℕ → Option ℕ → Option ℕ
two_digits none e = none
two_digits (some d) none = none
two_digits (some d) (some e) = some (d * 16 + e)

-- the byte that "%" and two digits stand for
unfoldable pub escaped : ℕ → ℕ → ℕ → Option ℕ
escaped c d e = if c == 37 then two_digits (hex_value d) (hex_value e) else none

-- A character outside of ASCII is no byte.
pub data Token : Type 0 where
  byte char : ℕ → Token

unfoldable pub plain : ℕ → Token
plain c = if ltb c 128 then byte c else char c

unfoldable pub tokens : Text → List Token
tokens [] = []
tokens (c ∷ []) = plain c ∷ []
tokens (c ∷ d ∷ []) = plain c ∷ plain d ∷ []
tokens (c ∷ d ∷ e ∷ s) = elim (escaped c d e) [
  | some b ↦ byte b ∷ tokens s
  | none ↦ plain c ∷ tokens (d ∷ e ∷ s)
]

abbrev pub replacement : ℕ
replacement = 0xfffd

abbrev pub emit : Option ℕ → Text → Text
emit none s = s
emit (some c) s = c ∷ s

-- an incomplete sequence is replaced
unfoldable pub flush : Pending → Text → Text
flush p s = if p.missing == 0 then s else replacement ∷ s

-- A byte that does not continue a sequence ends it and is read anew.
unfoldable pub decode_tokens : Pending → List Token → Text
decode_tokens p [] = flush p []
decode_tokens p (char c ∷ ts) = flush p (c ∷ decode_tokens complete ts)
decode_tokens p (byte b ∷ ts) = elim (next_byte p b) [
  | some (c, p') ↦ emit c (decode_tokens p' ts)
  | none ↦ flush p (elim (next_byte complete b) [
    | some (c, p') ↦ emit c (decode_tokens p' ts)
    | none ↦ replacement ∷ decode_tokens complete ts
  ])
]

unfoldable pub unquote : Text → Text
unquote s = decode_tokens complete (tokens s)

unfoldable pub starts_escape : Text → Bool
starts_escape [] = false
starts_escape (c ∷ []) = false
starts_escape (c ∷ d ∷ []) = false
starts_escape (c ∷ d ∷ e ∷ s) = is_some (escaped c d e)

-- whether "%" and two hexadecimal digits stand anywhere in the text
unfoldable pub has_escape : Text → Bool
has_escape [] = false
has_escape (c ∷ s) = starts_escape (c ∷ s) || has_escape s
