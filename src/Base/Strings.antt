-- ===== src/Base/Strings.antt =====
-- The methods of Python's `str` that the code calls, on code points.
use Prim.Native.Nat.{ℕ, ◌+◌}
use mathlib.Core.Bool.{Bool, true, false, ◌&&◌, ◌||◌}
use mathlib.Core.Option.{Option, none, some}
use mathlib.Core.List.{List, [], ◌∷◌, ◌++◌}
use v2hub_api.Base.Tests.{◌==◌, leb, if◌then◌else◌}
use v2hub_api.Base.Texts.{Text}

-- The white space of `str.strip`.
unfoldable pub is_space : ℕ → Bool
is_space c =
    (leb 9 c && leb c 13)
    || (leb 28 c && leb c 32)
    || c == 0x85
    || c == 0xa0
    || c == 0x1680
    || (leb 0x2000 c && leb c 0x200a)
    || c == 0x2028
    || c == 0x2029
    || c == 0x202f
    || c == 0x205f
    || c == 0x3000

-- `s.lstrip()`
unfoldable pub lstrip : Text → Text
lstrip [] = []
lstrip (c ∷ s) = if is_space c then lstrip s else c ∷ s

-- the character before a text that is already stripped at its right end
unfoldable pub put_before : ℕ → Text → Text
put_before c [] = if is_space c then [] else c ∷ []
put_before c (d ∷ s) = c ∷ d ∷ s

-- `s.rstrip()`
unfoldable pub rstrip : Text → Text
rstrip [] = []
rstrip (c ∷ s) = put_before c (rstrip s)

-- `s.strip()`
unfoldable pub strip : Text → Text
strip s = rstrip (lstrip s)

-- What follows the prefix `p` in `s`, if `s.startswith(p)`.
unfoldable pub after_prefix : Text → Text → Option Text
after_prefix [] s = some s
after_prefix (c ∷ p) [] = none
after_prefix (c ∷ p) (d ∷ s) = if c == d then after_prefix p s else none

abbrev pub put_left : ℕ → Option (Text × Text) → Option (Text × Text)
put_left c none = none
put_left c (some (a, b)) = some (c ∷ a, b)

-- `s.split(sep, 1)` where `sep in s`, for a `sep` that is not empty; `none` where it is not.
unfoldable pub split_once : Text → Text → Option (Text × Text)
split_once sep [] = none
split_once sep (c ∷ s) = elim (after_prefix sep (c ∷ s)) [
  | some rest ↦ some ([], rest)
  | none ↦ put_left c (split_once sep s)
]

abbrev pub is_some {ℓ} : {A : Type ℓ} → Option A → Bool
is_some none = false
is_some (some _) = true

-- `sep in s`
unfoldable pub contains : Text → Text → Bool
contains sep s = is_some (split_once sep s)

-- `s.lower()` on ASCII letters
unfoldable pub lower_char : ℕ → ℕ
lower_char c = if leb 65 c && leb c 90 then c + 32 else c

unfoldable pub lower : Text → Text
lower [] = []
lower (c ∷ s) = lower_char c ∷ lower s

-- The characters at which `s.splitlines()` breaks, and "\r\n" as one break.
unfoldable pub is_line_break : ℕ → Bool
is_line_break c =
    (leb 10 c && leb c 13) || (leb 28 c && leb c 30) || c == 0x85 || c == 0x2028 || c == 0x2029

-- `line` is the line read so far; `cr` says that the last
-- character was "\r".
unfoldable pub lines_from : Bool → Text → Text → List Text
lines_from cr [] [] = []
lines_from cr (c ∷ line) [] = (c ∷ line) ∷ []
lines_from cr line (d ∷ s) =
    let skipped = lines_from false line s in
    let broken = line ∷ lines_from (d == 13) [] s in
    let longer = lines_from false (line ++ d ∷ []) s in
    if cr && d == 10 then skipped else if is_line_break d then broken else longer

-- `s.splitlines()`
unfoldable pub splitlines : Text → List Text
splitlines s = lines_from false [] s
