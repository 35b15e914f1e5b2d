-- ===== src/Base/Tables.antt =====
-- Tables of a database as lists of rows: a look-up, and UPDATE and DELETE of the rows with a key.
use mathlib.Core.Path.{◌≡◌, refl, sym, ap, ◌∙◌}
use mathlib.Core.Bool.{Bool, true, false}
use mathlib.Core.Logic.{◌⊎◌, inl, inr}
use mathlib.Core.Option.{Option, none, some}
use mathlib.Core.List.{List, [], ◌∷◌, ◌++◌, Memᴰ}
use mathlib.Core.List.Memᴰ
use native.Mathlib.Omega.{arith}
use v2hub_api.Base.Tests.{Bool-cases, if◌then◌else◌, Option-cases}
use v2hub_api.Base.Lists.{Memᴰ-cons}

module _ {ℓ} {A : Type ℓ} where
  unfoldable pub find : (A → Bool) → List A → Option A
  find p [] = none
  find p (a ∷ rows) = if p a then some a else find p rows

  unfoldable pub replace : (A → Bool) → A → List A → List A
  replace p new [] = []
  replace p new (a ∷ rows) = (if p a then new else a) ∷ replace p new rows

  unfoldable pub remove : (A → Bool) → List A → List A
  remove p [] = []
  remove p (a ∷ rows) = if p a then remove p rows else a ∷ remove p rows

  pub find-some :
      (p : A → Bool) (rows : List A) (a : A) → find p rows ≡ some a → Memᴰ a rows × (p a ≡ true)
  unfolding find
  find-some p [] a e = cc e
  find-some p (b ∷ rows) a e = ground (arith, find-some p rows a, Memᴰ-cons a b rows)

  pub find-none :
      (p : A → Bool) (rows : List A) (a : A) → find p rows ≡ none → Memᴰ a rows → p a ≡ false
  unfolding find
  find-none p [] a e m = absurd (Memᴰ.not-nil m)
  find-none p (b ∷ rows) a e m = ground (arith, find-none p rows a, Memᴰ-cons a b rows)

  -- A row that only one row can be is found.
  pub find-only :
      (p : A → Bool) (rows : List A) (a : A)
      → Memᴰ a rows
      → p a ≡ true
      → ((b : A) → Memᴰ b rows → p b ≡ true → b ≡ a)
      → find p rows ≡ some a
  find-only p rows a m h only = elim (Option-cases (find p rows)) [
    | inl missing ↦ cc (find-none p rows a missing m, h)
    | inr (b, e) ↦ let (mb, hb) = find-some p rows b e in e ∙ ap some (only b mb hb)
  ]

  pub find-missing :
      (p : A → Bool) (rows : List A) → ((b : A) → Memᴰ b rows → p b ≡ false) → find p rows ≡ none
  find-missing p rows h = elim (Option-cases (find p rows)) [
    | inl missing ↦ missing
    | inr (b, e) ↦ let (mb, hb) = find-some p rows b e in cc (h b mb, hb)
  ]

  pub Memᴰ-append : (xs : List A) (x a : A) → Memᴰ a (xs ++ x ∷ []) → Memᴰ a xs ⊎ (a ≡ x)
  Memᴰ-append [] x a m = elim (Memᴰ.cases_cons m) [
    | inl e ↦ inr e
    | inr n ↦ absurd (Memᴰ.not-nil n)
  ]
  Memᴰ-append (y ∷ xs) x a m = elim (Memᴰ.cases_cons m) [
    | inl e ↦ inl (Memᴰ.head e)
    | inr n ↦ elim (Memᴰ-append xs x a n) [ inl k ↦ inl (Memᴰ.tail k) | inr e ↦ inr e ]
  ]

  pub Memᴰ-replace :
      (p : A → Bool) (new : A) (rows : List A) (a : A)
      → Memᴰ a (replace p new rows)
      → (a ≡ new) ⊎ (Memᴰ a rows × (p a ≡ false))
  unfolding replace
  Memᴰ-replace p new [] a m = absurd (Memᴰ.not-nil m)
  Memᴰ-replace p new (b ∷ rows) a m = ground (
    arith,
    Memᴰ-replace p new rows a,
    Memᴰ-cons a (if p b then new else b) (replace p new rows),
    Memᴰ-cons a b rows,
  )

  pub new-Memᴰ :
      (p : A → Bool) (new : A) (rows : List A) (a : A)
      → Memᴰ a rows
      → p a ≡ true
      → Memᴰ new (replace p new rows)
  unfolding replace
  new-Memᴰ p new [] a m h = absurd (Memᴰ.not-nil m)
  new-Memᴰ p new (b ∷ rows) a m h = ground (
    arith,
    new-Memᴰ p new rows a,
    Memᴰ-cons new (if p b then new else b) (replace p new rows),
    Memᴰ-cons a b rows,
  )

  pub old-Memᴰ :
      (p : A → Bool) (new : A) (rows : List A) (a : A)
      → Memᴰ a rows
      → p a ≡ false
      → Memᴰ a (replace p new rows)
  unfolding replace
  old-Memᴰ p new [] a m h = absurd (Memᴰ.not-nil m)
  old-Memᴰ p new (b ∷ rows) a m h = ground (
    arith,
    old-Memᴰ p new rows a,
    Memᴰ-cons a (if p b then new else b) (replace p new rows),
    Memᴰ-cons a b rows,
  )

  pub Memᴰ-remove :
      (p : A → Bool) (rows : List A) (a : A) → Memᴰ a (remove p rows) → Memᴰ a rows × (p a ≡ false)
  unfolding remove
  Memᴰ-remove p [] a m = absurd (Memᴰ.not-nil m)
  Memᴰ-remove p (b ∷ rows) a m =
      ground (arith, Memᴰ-remove p rows a, Memᴰ-cons a b (remove p rows), Memᴰ-cons a b rows)

  -- A look-up that meets neither the new row nor those that it replaces.
  pub find-replace :
      (p q : A → Bool) (new : A) (rows : List A)
      → p new ≡ false
      → ((b : A) → Memᴰ b rows → q b ≡ true → p b ≡ false)
      → find p (replace q new rows) ≡ find p rows
  unfolding find replace
  find-replace p q new [] h k = refl
  find-replace p q new (b ∷ rows) h k =
      let rest : find p (replace q new rows) ≡ find p rows =
        find-replace p q new rows h (λ c m. k c (Memᴰ.tail m)) in
      elim (Bool-cases (q b)) [
        | inl hit ↦ rw (hit, h, k b (Memᴰ.head refl) hit) rest
        | inr other ↦ rw (other, rest) refl
      ]

  pub replace_same :
      (q : A → Bool) (new : A) (rows : List A)
      → ((b : A) → Memᴰ b rows → q b ≡ true → b ≡ new)
      → replace q new rows ≡ rows
  unfolding replace
  replace_same q new [] k = refl
  replace_same q new (b ∷ rows) k =
      let rest : replace q new rows ≡ rows = replace_same q new rows (λ c m. k c (Memᴰ.tail m)) in
      elim (Bool-cases (q b)) [
        | inl hit ↦ rw (hit, rest) (ap (λ c. c ∷ rows) (sym (k b (Memᴰ.head refl) hit)))
        | inr other ↦ rw (other, rest) refl
      ]
