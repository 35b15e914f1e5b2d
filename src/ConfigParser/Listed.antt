-- ===== src/ConfigParser/Listed.antt =====
-- config_parser.py, `_normalize_sources`: what the loop over the values gives.
use v2hub_api.Base.{
  ℕ, ◌≤◌, ◌≡◌, refl, inl, inr, Bool, true, false, ◌||◌, Option, none, some, List, [], ◌∷◌, ◌++◌,
  Text, has, length, Result, ok, err, ◌>>=◌, arith, Bool-cases, Option-cases, All,
}
use v2hub_api.ConfigParser.{is_empty}
use v2hub_api.ConfigParser.Sources.{
  NormalizeError, comment_too_long, not_a_source, endless, SourceValue, string, dict, other,
  normalize_source, key_of, fields_of, normalize_from, normalize_sources,
}
use v2hub_api.ConfigParser.Normalized.{Ends, normalize_source-Ends}

module _ {F : Type 0} where
  -- whether a value is neither a string nor a dict
  unfoldable pub has_other : List (SourceValue F) → Bool
  has_other [] = false
  has_other (string s ∷ items) = has_other items
  has_other (dict data_ fields ∷ items) = has_other items
  has_other (other ∷ items) = true

  -- How a call on the values ends: with entries that `normalize_source` leaves as they are, not
  -- more than the values, or with an error that one of the values explains.
  abbrev pub Listed :
      Option ℕ → List (SourceValue F) → Result NormalizeError (List (Text × Option F)) → Type 0
  Listed max_length values (ok out) =
      All (λ e. normalize_source max_length e.0 ≡ ok e.0) out × (length out ≤ length values)
  Listed max_length values (err (comment_too_long m)) = max_length ≡ some m
  Listed max_length values (err not_a_source) = has_other values ≡ true
  Listed max_length values (err endless) = ⊥

  key_of-other :
      (item : SourceValue F) (items : List (SourceValue F))
      → key_of item ≡ none
      → has_other (item ∷ items) ≡ true
  unfolding has_other key_of
  key_of-other (string s) items e = cc e
  key_of-other (dict data_ fields) items e = cc e
  key_of-other other items e = refl

  has_other-cons :
      (item : SourceValue F) (items : List (SourceValue F))
      → has_other items ≡ true
      → has_other (item ∷ items) ≡ true
  unfolding has_other
  has_other-cons (string s) items e = e
  has_other-cons (dict data_ fields) items e = e
  has_other-cons other items e = refl

  Listed-skip :
      (max_length : Option ℕ) (item : SourceValue F) (items : List (SourceValue F))
      (r : Result NormalizeError (List (Text × Option F)))
      → Listed max_length items r
      → Listed max_length (item ∷ items) r
  Listed-skip max_length item items (ok out) (all, fits) = (all, omega (arith, fits))
  Listed-skip max_length item items (err (comment_too_long m)) h = h
  Listed-skip max_length item items (err not_a_source) h = has_other-cons item items h
  Listed-skip max_length item items (err endless) h = h

  Listed-cons :
      (max_length : Option ℕ) (key : Text) (item : SourceValue F) (items : List (SourceValue F))
      (data_ : Result NormalizeError Text) (r : Result NormalizeError (List (Text × Option F)))
      → Ends max_length key data_
      → Listed max_length items r
      → Listed max_length
          (item ∷ items)
          (data_ >>= (λ d. r >>= (λ rest. ok ((d, fields_of item) ∷ rest))))
  Listed-cons max_length key item items (ok d) (ok out) (decoded, same) (all, fits) =
      ((same, all), omega (arith, fits))
  Listed-cons max_length key item items (ok d) (err e) h l =
      Listed-skip max_length item items (err e) l
  Listed-cons max_length key item items (err (comment_too_long m)) r h l = h
  Listed-cons max_length key item items (err not_a_source) r h l = absurd h
  Listed-cons max_length key item items (err endless) r h l = h

  normalize_from-Listed :
      (max_length : Option ℕ) (seen : List Text) (items : List (SourceValue F))
      → Listed max_length items (normalize_from max_length seen items)
  unfolding normalize_from
  normalize_from-Listed max_length seen [] = (tt, omega arith)
  normalize_from-Listed max_length seen (item ∷ items) = elim (Option-cases (key_of item)) [
    | inl e ↦ rw (normalize_from, e) (key_of-other item items e)
    | inr (key, e) ↦
        rw (normalize_from, e)
          (elim (Bool-cases (is_empty key || has seen key)) [
            | inl skip ↦ rw skip (
                Listed-skip max_length item items (normalize_from max_length seen items)
                  (normalize_from-Listed max_length seen items))
            | inr new ↦ rw new (
                Listed-cons max_length key item items (normalize_source max_length key)
                  (normalize_from max_length (seen ++ key ∷ []) items)
                  (normalize_source-Ends max_length key)
                  (normalize_from-Listed max_length (seen ++ key ∷ []) items))
          ])
  ]

  -- `_normalize_sources` on values always comes to an end. Where it returns, it gives at most as
  -- many entries as there are values, and `normalize_source` leaves the data of each unchanged. It
  -- raises a TypeError only where a value is neither a string nor a dict, and a ValueError only
  -- with the greatest length that it was given.
  pub normalize_sources-Listed :
      (max_length : Option ℕ) (values : List (SourceValue F))
      → Listed max_length values (normalize_sources max_length values)
  unfolding normalize_sources
  normalize_sources-Listed max_length values = normalize_from-Listed max_length [] values
