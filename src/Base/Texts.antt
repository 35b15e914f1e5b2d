-- ===== src/Base/Texts.antt =====
-- Text as a list of code points, and sets of texts as lists.
use Prim.Native.Nat.{ℕ}
use Prim.Native.Char.{code}
use Prim.Native.String.{String}
use mathlib.Core.Path.{◌≡◌, refl}
use mathlib.Core.Bool.{Bool, true, false, ◌&&◌, ◌||◌}
use mathlib.Core.Logic.{◌↔◌, ◌≢◌}
use mathlib.Core.List.{List, [], ◌∷◌, ◌++◌}
use native.Mathlib.Omega.{arith}
use v2hub_api.Base.Tests.{◌==◌}

abbrev pub Text : Type 0
Text = List ℕ

abbrev pub codes : String → Text
codes String.[] = []
codes (String.◌∷◌ c s) = code c ∷ codes s

-- `s == t` on strings
unfoldable pub text_eq : Text → Text → Bool
text_eq [] [] = true
text_eq [] (d ∷ t) = false
text_eq (c ∷ s) [] = false
text_eq (c ∷ s) (d ∷ t) = (c == d) && text_eq s t

pub text_eq_iff : (s t : Text) → (text_eq s t ≡ true) ↔ (s ≡ t)
unfolding text_eq
text_eq_iff [] [] = (λ _. refl, λ _. refl)
text_eq_iff [] (d ∷ t) = (λ e. cc, λ e. cc)
text_eq_iff (c ∷ s) [] = (λ e. cc, λ e. cc)
text_eq_iff (c ∷ s) (d ∷ t) = ground (arith, text_eq_iff s t)

pub text_eq_self : (s : Text) → text_eq s s ≡ true
text_eq_self s = (text_eq_iff s s).1 refl

-- `x in xs`, for a set of strings kept as a list
unfoldable pub has : List Text → Text → Bool
has [] k = false
has (x ∷ xs) k = text_eq x k || has xs k

pub has-append : (xs ys : List Text) (k : Text) → has (xs ++ ys) k ≡ (has xs k || has ys k)
unfolding has
has-append [] ys k = refl
has-append (x ∷ xs) ys k = ground (arith, has-append xs ys k)

pub has-snoc : (xs : List Text) (x k : Text) → has (xs ++ x ∷ []) k ≡ (has xs k || text_eq x k)
unfolding has
has-snoc [] x k = ground arith
has-snoc (y ∷ xs) x k = ground (arith, has-snoc xs x k)

-- No text stands twice in the list.
abbrev pub Distinct : List Text → Type 0
Distinct [] = Unit
Distinct (x ∷ xs) = (has xs x ≡ false) × Distinct xs

pub Distinct-snoc :
    (xs : List Text) (x : Text) → Distinct xs → has xs x ≡ false → Distinct (xs ++ x ∷ [])
unfolding has
Distinct-snoc [] x d h = (refl, tt)
Distinct-snoc (y ∷ xs) x d h = (
  ground (arith, has-snoc xs x y, text_eq_iff x y, text_eq_iff y x, text_eq_self x),
  Distinct-snoc xs x d.1 (ground arith),
)

pub ne_of_text_eq : (s t : Text) → text_eq s t ≡ false → s ≢ t
ne_of_text_eq s t h q = cc ((text_eq_iff s t).1 q)
