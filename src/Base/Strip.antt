-- ===== src/Base/Strip.antt =====
-- `strip` on both sides: what is stripped stays as it is, and a "#" stops both directions.
use Prim.Native.Nat.{ℕ}
use mathlib.Core.Path.{◌≡◌, refl}
use mathlib.Core.Bool.{false}
use mathlib.Core.Logic.{inl, inr}
use mathlib.Core.List.{[], ◌∷◌, ◌++◌}
use native.Mathlib.Omega.{arith}
use v2hub_api.Base.Tests.{◌==◌, Bool-cases, List-cases}
use v2hub_api.Base.Lists.{All}
use v2hub_api.Base.Texts.{Text}
use v2hub_api.Base.Strings.{is_space, lstrip, rstrip, strip, put_before}

-- The text is empty or starts with a character that is no space.
abbrev pub Starts : Text → Type 0
Starts [] = Unit
Starts (c ∷ s) = is_space c ≡ false

pub lstrip-Starts : (s : Text) → Starts (lstrip s)
unfolding lstrip
lstrip-Starts [] = tt
lstrip-Starts (c ∷ s) = elim (Bool-cases (is_space c)) [
  | inl space ↦ rw space (lstrip-Starts s)
  | inr solid ↦ rw solid solid
]

pub lstrip_of_Starts : (s : Text) → Starts s → lstrip s ≡ s
unfolding lstrip
lstrip_of_Starts [] h = refl
lstrip_of_Starts (c ∷ s) h = rw h

pub Starts-rstrip : (s : Text) → Starts s → Starts (rstrip s)
unfolding rstrip put_before
Starts-rstrip [] h = tt
Starts-rstrip (c ∷ s) h = elim (List-cases (rstrip s)) [
  | inl e ↦ rw (e, h) h
  | inr (d, r, e) ↦ rw e h
]

pub rstrip-rstrip : (s : Text) → rstrip (rstrip s) ≡ rstrip s
unfolding rstrip put_before
rstrip-rstrip [] = refl
rstrip-rstrip (c ∷ s) = elim (List-cases (rstrip s)) [
  | inl e ↦ rw e (ground arith)
  | inr (d, r, e) ↦ ground (arith, rstrip-rstrip s)
]

pub lstrip-rstrip : (s : Text) → lstrip (rstrip s) ≡ rstrip (lstrip s)
unfolding rstrip lstrip put_before
lstrip-rstrip [] = refl
lstrip-rstrip (c ∷ s) = ground (arith, lstrip-rstrip s)

pub strip-strip : (s : Text) → strip (strip s) ≡ strip s
unfolding strip
strip-strip s =
    rw (lstrip_of_Starts (rstrip (lstrip s)) (Starts-rstrip (lstrip s) (lstrip-Starts s)))
      (rstrip-rstrip (lstrip s))

pub strip-lstrip : (s : Text) → strip (lstrip s) ≡ strip s
unfolding strip
strip-lstrip s = rw (lstrip_of_Starts (lstrip s) (lstrip-Starts s))

pub strip-rstrip : (s : Text) → strip (rstrip s) ≡ strip s
unfolding strip
strip-rstrip s = rw lstrip-rstrip (rstrip-rstrip (lstrip s))

-- "#" is no space.
pub lstrip-hash : (a b : Text) → lstrip (a ++ b'#' ∷ b) ≡ lstrip a ++ b'#' ∷ b
unfolding lstrip is_space
lstrip-hash [] b = refl
lstrip-hash (c ∷ a) b = elim (Bool-cases (is_space c)) [
  | inl space ↦ rw space (lstrip-hash a b)
  | inr solid ↦ rw solid
]

pub rstrip-hash : (a b : Text) → rstrip (a ++ b'#' ∷ b) ≡ a ++ b'#' ∷ rstrip b
unfolding rstrip put_before is_space
rstrip-hash [] b = elim (List-cases (rstrip b)) [ inl e ↦ rw e | inr (d, r, e) ↦ rw e ]
rstrip-hash (c ∷ []) b = rw (rstrip-hash [] b)
rstrip-hash (c ∷ d ∷ a) b = rw (rstrip-hash (d ∷ a) b)

module _ {κ} (P : ℕ → Type κ) where
  lstrip-All : (s : Text) → All P s → All P (lstrip s)
  unfolding lstrip
  lstrip-All [] h = tt
  lstrip-All (c ∷ s) h = elim (Bool-cases (is_space c)) [
    | inl space ↦ rw space (lstrip-All s h.1)
    | inr solid ↦ rw solid h
  ]

  put_before-All : (c : ℕ) (s : Text) → P c → All P s → All P (put_before c s)
  unfolding put_before
  put_before-All c [] p h = elim (Bool-cases (is_space c)) [
    | inl space ↦ rw space tt
    | inr solid ↦ rw solid (p, tt)
  ]
  put_before-All c (d ∷ s) p h = (p, h)

  rstrip-All : (s : Text) → All P s → All P (rstrip s)
  unfolding rstrip
  rstrip-All [] h = tt
  rstrip-All (c ∷ s) h = put_before-All c (rstrip s) h.0 (rstrip-All s h.1)

  -- What holds of every character still holds after the text is stripped.
  pub strip-All : (s : Text) → All P s → All P (strip s)
  unfolding strip
  strip-All s h = rstrip-All (lstrip s) (lstrip-All s h)

-- No character of the text is a "#".
abbrev pub HashFree : Text → Type 0
HashFree = All (λ c. (b'#' == c) ≡ false)

pub lstrip-HashFree : (s : Text) → HashFree s → HashFree (lstrip s)
unfolding lstrip
lstrip-HashFree [] h = tt
lstrip-HashFree (c ∷ s) h = elim (Bool-cases (is_space c)) [
  | inl space ↦ rw space (lstrip-HashFree s h.1)
  | inr solid ↦ rw solid h
]

pub rstrip-HashFree : (s : Text) → HashFree s → HashFree (rstrip s)
unfolding rstrip put_before
rstrip-HashFree [] h = tt
rstrip-HashFree (c ∷ s) h = ground (arith, rstrip-HashFree s h.1)

pub strip-HashFree : (s : Text) → HashFree s → HashFree (strip s)
unfolding strip
strip-HashFree s h = rstrip-HashFree (lstrip s) (lstrip-HashFree s h)
