-- ===== src/Base/Lists.antt =====
-- Lists over native numbers: length, take, and predicates on all elements.
use Prim.Native.Nat.{ℕ, zero, suc, ◌+◌, ◌≤◌}
use mathlib.Core.Path.{◌≡◌}
use mathlib.Core.Bool.{Bool, true}
use mathlib.Core.Logic.{◌↔◌, ◌⊎◌, ⊎_elim}
use mathlib.Core.List.{List, [], ◌∷◌, ◌++◌, Memᴰ}
use mathlib.Core.List.Memᴰ
use native.Mathlib.Omega.{arith}
use v2hub_api.Base.Tests.{if◌then◌else◌}

module _ {ℓ} {A : Type ℓ} where
  abbrev pub length : List A → ℕ
  length [] = 0
  length (x ∷ xs) = suc (length xs)

  abbrev pub take : ℕ → List A → List A
  take zero xs = []
  take (suc n) [] = []
  take (suc n) (x ∷ xs) = x ∷ take n xs

  -- `[x for x in xs if p(x)]`
  abbrev pub keep_if : (A → Bool) → List A → List A
  keep_if p [] = []
  keep_if p (x ∷ xs) = if p x then x ∷ keep_if p xs else keep_if p xs

  pub length-append : (xs ys : List A) → length (xs ++ ys) ≡ length xs + length ys
  length-append [] ys = omega arith
  length-append (x ∷ xs) ys = omega (arith, length-append xs ys)

  pub length-take : (n : ℕ) (xs : List A) → length (take n xs) ≤ n
  length-take zero xs = omega arith
  length-take (suc n) [] = omega arith
  length-take (suc n) (x ∷ xs) = omega (arith, length-take n xs)

  pub Memᴰ-cons : (a x : A) (xs : List A) → Memᴰ a (x ∷ xs) ↔ ((a ≡ x) ⊎ Memᴰ a xs)
  Memᴰ-cons a x xs = (Memᴰ.cases_cons, ⊎_elim Memᴰ.head Memᴰ.tail)

  pub not-Memᴰ-nil : (a : A) → ¬ Memᴰ a []
  not-Memᴰ-nil a m = Memᴰ.not-nil m

  pub Memᴰ-take : (n : ℕ) (xs : List A) (a : A) → Memᴰ a (take n xs) → Memᴰ a xs
  Memᴰ-take zero xs a m = absurd (Memᴰ.not-nil m)
  Memᴰ-take (suc n) [] a m = m
  Memᴰ-take (suc n) (x ∷ xs) a m =
      ⊎_elim Memᴰ.head (λ r. Memᴰ.tail (Memᴰ-take n xs a r)) (Memᴰ.cases_cons m)

  pub Memᴰ-keep_if :
      (p : A → Bool) (xs : List A) (a : A) → Memᴰ a (keep_if p xs) → Memᴰ a xs × (p a ≡ true)
  Memᴰ-keep_if p [] a m = absurd (Memᴰ.not-nil m)
  Memᴰ-keep_if p (x ∷ xs) a m =
      ground (arith, Memᴰ-keep_if p xs a, Memᴰ-cons a x xs, Memᴰ-cons a x (keep_if p xs))

-- A predicate on every element computes to a tuple.
abbrev pub All {ℓ κ} : {A : Type ℓ} → (A → Type κ) → List A → Type κ
All P [] = Unit
All P (x ∷ xs) = P x × All P xs

module _ {ℓ κ} {A : Type ℓ} (P : A → Type κ) where
  pub All-append : (xs ys : List A) → All P xs → All P ys → All P (xs ++ ys)
  All-append [] ys h k = k
  All-append (x ∷ xs) ys h k = (h.0, All-append xs ys h.1 k)

-- The numbers, from a first one on, do not decrease.
abbrev pub Ascending : ℕ → List ℕ → Type 0
Ascending first [] = Unit
Ascending first (n ∷ ns) = (first ≤ n) × Ascending n ns
