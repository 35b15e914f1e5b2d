-- ===== src/Base/Keys.antt =====
-- Tables with unique keys: what inserts, updates and deletes keep. `same a b` says that `b` has the
-- primary key of `a`, and `clash a b` that the table cannot hold both as two rows.
use mathlib.Core.Path.{◌≡◌, sym, ap, ◌∙◌}
use mathlib.Core.Bool.{Bool, true, false, not, ◌&&◌}
use mathlib.Core.Logic.{inl, inr}
use mathlib.Core.Option.{none, some}
use mathlib.Core.List.{List, [], ◌∷◌, ◌++◌, Memᴰ}
use native.Mathlib.Omega.{arith}
use v2hub_api.Base.Tables.{
  find, replace, remove, find-none, find-only, Memᴰ-append, Memᴰ-replace, Memᴰ-remove, new-Memᴰ,
}

module _ {A : Type 0} (same clash : A → A → Bool) where
  -- Rows that share a key are one row.
  abbrev pub OneRow : List A → Type 0
  OneRow rows = (a b : A) → Memᴰ a rows → Memᴰ b rows → clash a b ≡ true → a ≡ b

  abbrev pub taken_by_other : A → A → Bool
  taken_by_other new a = not (same new a) && clash new a

  abbrev pub Symmetric : Type 0
  Symmetric = (a b : A) → clash a b ≡ true → clash b a ≡ true

  pub append-OneRow :
      (new : A) (rows : List A)
      → Symmetric
      → find (clash new) rows ≡ none
      → OneRow rows
      → OneRow (rows ++ new ∷ [])
  append-OneRow new rows turn free unique u v mu mv h = elim (Memᴰ-append rows new u mu) [
    | inl nu ↦ elim (Memᴰ-append rows new v mv) [
      | inl nv ↦ unique u v nu nv h
      | inr ev ↦
          cc (find-none (clash new) rows u free nu, ap (λ w. clash w u) (sym ev) ∙ turn u v h)
    ]
    | inr eu ↦ elim (Memᴰ-append rows new v mv) [
      | inl nv ↦ cc (find-none (clash new) rows v free nv, ap (λ w. clash w v) (sym eu) ∙ h)
      | inr ev ↦ eu ∙ sym ev
    ]
  ]

  pub others_free :
      (new : A) (rows : List A) (a : A)
      → find (taken_by_other new) rows ≡ none
      → Memᴰ a rows
      → same new a ≡ false
      → clash new a ≡ false
  others_free new rows a free m other =
      let alone : taken_by_other new a ≡ false = find-none (taken_by_other new) rows a free m in
      ground arith

  pub replace-OneRow :
      (new : A) (rows : List A)
      → Symmetric
      → find (taken_by_other new) rows ≡ none
      → OneRow rows
      → OneRow (replace (same new) new rows)
  replace-OneRow new rows turn free unique u v mu mv h =
      elim (Memᴰ-replace (same new) new rows u mu) [
        | inr (nu, hu) ↦ elim (Memᴰ-replace (same new) new rows v mv) [
          | inr (nv, hv) ↦ unique u v nu nv h
          | inl ev ↦
              cc (others_free new rows u free nu hu, ap (λ w. clash w u) (sym ev) ∙ turn u v h)
        ]
        | inl eu ↦ elim (Memᴰ-replace (same new) new rows v mv) [
          | inr (nv, hv) ↦ cc (others_free new rows v free nv hv, ap (λ w. clash w v) (sym eu) ∙ h)
          | inl ev ↦ eu ∙ sym ev
        ]
      ]

  pub remove-OneRow : (p : A → Bool) (rows : List A) → OneRow rows → OneRow (remove p rows)
  remove-OneRow p rows unique u v mu mv h =
      unique u v (Memᴰ-remove p rows u mu).0 (Memᴰ-remove p rows v mv).0 h

  -- An updated row is the only one that a key of it finds.
  pub replaced-found :
      (p : A → Bool) (new old : A) (rows : List A)
      → find (taken_by_other new) rows ≡ none
      → Memᴰ old rows
      → same new old ≡ true
      → p new ≡ true
      → ((a : A) → p a ≡ true → clash new a ≡ true)
      → find p (replace (same new) new rows) ≡ some new
  replaced-found p new old rows free m hit h narrow =
      find-only p (replace (same new) new rows) new (new-Memᴰ (same new) new rows old m hit) h
        (λ b mb hb. elim (Memᴰ-replace (same new) new rows b mb) [
          | inl e ↦ e
          | inr (old_b, other) ↦ cc (others_free new rows b free old_b other, narrow b hb)
        ])
