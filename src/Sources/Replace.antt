-- ===== src/Sources/Replace.antt =====
-- subscription_service.py, `replace_sources`: what is removed, and what stays when adding fails.
use v2hub_api.Base.{
  ◌≤◌, ◌≡◌, refl, ap, ◌∙◌, inl, inr, Bool, true, not, ◌&&◌, List, [], ◌∷◌, Text, text_eq,
  text_eq_iff, has, length, le→leb, Result, ok, err, Result-cases, Bool-cases, arith, keep_if,
  text_eq_self, All,
}
use v2hub_api.Models.{Source}
use v2hub_api.Sources.{Env, Rows, SourceError, too_many_sources, SourceCreateRequest, ids}
use v2hub_api.Sources.Add.{add_sources_internal}
use v2hub_api.Sources.Replacement.{remove_sources, replace_sources, replaced, preserved_ids}

has-keep_if :
    (p : Text → Bool) (xs : List Text) (k : Text) → has (keep_if p xs) k ≡ (has xs k && p k)
unfolding has
has-keep_if p [] k = refl
has-keep_if p (x ∷ xs) k = elim (Bool-cases (text_eq x k)) [
  | inl same ↦ ground (arith, ap p ((text_eq_iff x k).0 same), has-keep_if p xs k)
  | inr other ↦ ground (arith, has-keep_if p xs k)
]

-- the unwanted sources are removed: those stay whose id is wanted
keep_wanted :
    (preserved all : List Text) (ss : List Source)
    → All (λ s. has all s.id ≡ true) ss
    → keep_if (λ s. not (has (keep_if (λ id. not (has preserved id)) all) s.id)) ss
      ≡ keep_if (λ s. has preserved s.id) ss
keep_wanted preserved all [] a = refl
keep_wanted preserved all (s ∷ ss) a =
    rw (has-keep_if (λ id. not (has preserved id)) all s.id, a.0)
      (ground (arith, keep_wanted preserved all ss a.1))

has-later :
    (x : Text) (all : List Text) (ss : List Source)
    → All (λ s. has all s.id ≡ true) ss
    → All (λ s. has (x ∷ all) s.id ≡ true) ss
unfolding has
has-later x all [] a = tt
has-later x all (s ∷ ss) a = (ground (arith, a.0), has-later x all ss a.1)

has-ids : (ss : List Source) → All (λ s. has (ids ss) s.id ≡ true) ss
unfolding has
has-ids [] = tt
has-ids (s ∷ ss) = (ground (arith, text_eq_self s.id), has-later s.id (ids ss) ss (has-ids ss))

keep_if-kept :
    (preserved : List Text) (ss : List Source)
    → All (λ s. has preserved s.id ≡ true) ss
    → keep_if (λ s. has preserved s.id) ss ≡ ss
keep_if-kept preserved [] a = refl
keep_if-kept preserved (s ∷ ss) a = rw a.0 (ap (λ ts. s ∷ ts) (keep_if-kept preserved ss a.1))

module _ (env : Env) where
  -- the rows that are left when adding begins
  abbrev wanted : List Text → Rows → Rows
  wanted preserved rows = record rows { sources = keep_if (λ s. has preserved s.id) rows.sources }

  replace_sources-planned :
      (token : Text) (requests : List SourceCreateRequest) (rows : Rows) (preserved : List Text)
      → preserved_ids env requests ≡ ok preserved
      → replace_sources env token requests rows
        ≡ replaced env token requests
            (wanted preserved rows)
            (add_sources_internal env token true requests (wanted preserved rows))
  unfolding replace_sources remove_sources
  replace_sources-planned token requests rows preserved e =
      rw (e, replace_sources)
        (ap
          (λ ss.
            replaced env token requests (record rows { sources = ss })
              (add_sources_internal env token true requests (record rows { sources = ss })))
          (keep_wanted preserved (ids rows.sources) rows.sources (has-ids rows.sources)))

  -- When a replacement fails after its sources were recognised, the sources that it does not name
  -- are removed all the same, and the others stay as they were.
  pub replace_sources-err :
      (token : Text) (requests : List SourceCreateRequest) (rows : Rows) (preserved : List Text)
      (e : SourceError)
      → preserved_ids env requests ≡ ok preserved
      → (replace_sources env token requests rows).0 ≡ err e
      → (replace_sources env token requests rows).1
        ≡ record rows { sources = keep_if (λ s. has preserved s.id) rows.sources }
  unfolding replaced
  replace_sources-err token requests rows preserved e planned failed =
      let plan = replace_sources-planned token requests rows preserved planned in
      elim (Result-cases (add_sources_internal env token true requests (wanted preserved rows))) [
        | inl (rows', added) ↦ cc (rw (added, replaced) at (rw plan at failed))
        | inr (e', refused) ↦
            ap (λ (r : Result SourceError Rows × Rows). r.1) plan ∙ rw (refused, replaced) refl
      ]

  -- A replacement that keeps every source of a subscription with as many as are allowed is refused,
  -- whatever it asks for, and changes nothing.
  pub replace_sources-full :
      (token : Text) (requests : List SourceCreateRequest) (rows : Rows) (preserved : List Text)
      → preserved_ids env requests ≡ ok preserved
      → All (λ s. has preserved s.id ≡ true) rows.sources
      → env.max_sources ≤ length rows.sources
      → replace_sources env token requests rows
        ≡ (err (too_many_sources (length rows.sources) env.max_sources), rows)
  unfolding replaced add_sources_internal
  replace_sources-full token requests rows preserved planned all_kept full =
      replace_sources-planned token requests rows preserved planned
      ∙ rw (keep_if-kept preserved rows.sources all_kept)
          (rw (le→leb env.max_sources (length rows.sources) full) refl)
