-- ===== src/Base/Utf8.antt =====
-- Python's decoding of UTF-8, on bytes as numbers.
use Prim.Native.Nat.{ℕ, ◌+◌, ◌-◌, ◌*◌}
use mathlib.Core.Bool.{◌&&◌}
use mathlib.Core.Option.{Option, none, some}
use mathlib.Core.List.{[], ◌∷◌}
use v2hub_api.Base.Tests.{◌==◌, leb, ltb, if◌then◌else◌}
use v2hub_api.Base.Texts.{Text}

-- The decoding of UTF-8, byte by byte: how many bytes are missing, the bounds of the next one, and
-- the bits read so far.
pub record Pending : Type 0 where
  pub missing : ℕ
  pub low : ℕ
  pub high : ℕ
  pub bits : ℕ

abbrev pub complete : Pending
complete = record { missing = 0; low = 0x80; high = 0xbf; bits = 0 }

abbrev pub expect : ℕ → ℕ → ℕ → ℕ → Option (Option ℕ × Pending)
expect missing low high bits =
    some (none, record { missing = missing; low = low; high = high; bits = bits })

unfoldable pub lead_byte : ℕ → Option (Option ℕ × Pending)
lead_byte b =
    if ltb b 0x80
    then some (some b, complete)
    else (if leb 0xc2 b && leb b 0xdf
        then expect 1 0x80 0xbf (b - 0xc0)
        else (if leb 0xe0 b && leb b 0xef
            then expect 2 (if b == 0xe0 then 0xa0 else 0x80) (if b == 0xed then 0x9f else 0xbf)
                (b - 0xe0)
            else (if leb 0xf0 b && leb b 0xf4
                then expect 3 (if b == 0xf0 then 0x90 else 0x80) (if b == 0xf4 then 0x8f else 0xbf)
                    (b - 0xf0)
                else none)))

unfoldable pub next_byte : Pending → ℕ → Option (Option ℕ × Pending)
unfolding lead_byte
next_byte p b =
    if p.missing == 0
    then lead_byte b
    else (if leb p.low b && leb b p.high
        then (let bits = p.bits * 64 + (b - 0x80) in
            if p.missing == 1
            then some (some bits, complete)
            else expect (p.missing - 1) 0x80 0xbf bits)
        else none)

abbrev pub put : Option ℕ → Option Text → Option Text
put c none = none
put none (some s) = some s
put (some c) (some s) = some (c ∷ s)

unfoldable pub utf8_from : Pending → Text → Option Text
unfolding next_byte
utf8_from p [] = if p.missing == 0 then some [] else none
utf8_from p (b ∷ s) = elim (next_byte p b) [ none ↦ none | some (c, p') ↦ put c (utf8_from p' s) ]

-- `raw.decode("utf-8", errors="strict")`, where `none` is a UnicodeDecodeError
unfoldable pub decode_utf8 : Text → Option Text
unfolding utf8_from
decode_utf8 raw = utf8_from complete raw
