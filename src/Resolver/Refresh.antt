-- ===== src/Resolver/Refresh.antt =====
-- resolver_service.py, the cooldown of external URLs: the rows of the cache are asked for by URL,
-- though their key `url_hash` is the hash that is a source's id.
use v2hub_api.Base.{
  keep_if, ◌++◌, ℕ, zero, suc, ◌≡◌, refl, inl, inr, true, false, Option, none, List, [], ◌∷◌, map,
  Text, Dict, lookup, insert, dict_from, text_eq, text_eq_iff, take, All, Bool-cases, ap,
}
use v2hub_api.Models.{Source}
use v2hub_api.Resolver.Fetch.{
  is_external, is_internal, keyed, fetch_all, fetch_external_source, fetch_internal_source_comments,
  World, is_in, should_refresh,
}
use v2hub_api.Resolver.Origin.{All-keep_if, All-mono}

-- No key of the dict is `k`.
abbrev Misses {ℓ} : {V : Type ℓ} → Text → List (Text × V) → Type 0
Misses k d = All (λ e. text_eq e.0 k ≡ false) d

module _ {ℓ} {V : Type ℓ} (k : Text) where
  lookup-Misses : (d : Dict V) → Misses k d → lookup k d ≡ none
  unfolding lookup
  lookup-Misses [] h = refl
  lookup-Misses ((j, v) ∷ d) h = rw (h.0, lookup-Misses d h.1)

  insert-Misses :
      (j : Text) (v : V) (d : Dict V) → text_eq j k ≡ false → Misses k d → Misses k (insert j v d)
  unfolding insert
  insert-Misses j v [] e h = (e, tt)
  insert-Misses j v ((i, x) ∷ d) e h = elim (Bool-cases (text_eq i j)) [
    | inl same ↦ rw same (h.0, h.1)
    | inr other ↦ rw other (h.0, insert-Misses j v d e h.1)
  ]

  dict_from-Misses : (d ps : Dict V) → Misses k d → Misses k ps → Misses k (dict_from d ps)
  unfolding dict_from
  dict_from-Misses d [] h g = h
  dict_from-Misses d ((j, v) ∷ ps) h g =
      dict_from-Misses (insert j v d) ps (insert-Misses j v d g.0 h) g.1

  take-Misses : (n : ℕ) (ps : List (Text × V)) → Misses k ps → Misses k (take n ps)
  take-Misses zero ps h = tt
  take-Misses (suc n) [] h = tt
  take-Misses (suc n) (p ∷ ps) h = (h.0, take-Misses n ps h.1)

All-any {ℓ} : {A : Type ℓ} (xs : List A) → All (λ _. Unit {0}) xs
All-any [] = tt
All-any (x ∷ xs) = (tt, All-any xs)

text_ne :
    (values : List (Option Text)) (j k : Text)
    → is_in values j ≡ true
    → is_in values k ≡ false
    → text_eq j k ≡ false
text_ne values j k h g = elim (Bool-cases (text_eq j k)) [
  | inl same ↦ cc (ap (is_in values) ((text_eq_iff j k).0 same))
  | inr other ↦ other
]

module _ (w : World) where
  -- A source is taken for stale, however fresh its row in the cache is, unless its id is the URL of
  -- one of the external sources.
  should_refresh-always :
      (external_sources : List Source) (source : Source)
      → is_in (map (λ s. s.external_url) external_sources) source.id ≡ false
      → should_refresh w external_sources source ≡ true
  unfolding should_refresh
  should_refresh-always external_sources source h =
      let urls = map (λ s. s.external_url) external_sources in
      let asked =
        All-keep_if (λ _. Unit {0}) (λ (row : Text × ℕ). is_in urls row.0) w.external_cache
          (All-any w.external_cache) in
      let missed =
        All-mono _ (λ (row : Text × ℕ). text_eq row.0 source.id ≡ false)
          (λ row e. text_ne urls row.0 source.id e.1 h) _ asked in
      rw (
        lookup-Misses source.id _
          (dict_from-Misses source.id [] _ tt (take-Misses source.id 100 _ missed)))

  -- no external source has the URL of one as its id
  abbrev pub NoIdIsUrl : List Source → Type 0
  NoIdIsUrl external_sources =
      All (λ s. is_in (map (λ s. s.external_url) external_sources) s.id ≡ false) external_sources

  every_refreshed :
      (external_sources ss : List Source)
      → All (λ s. is_in (map (λ s. s.external_url) external_sources) s.id ≡ false) ss
      → map (λ s. fetch_external_source w s (should_refresh w external_sources s)) ss
        ≡ map (λ s. fetch_external_source w s true) ss
  every_refreshed external_sources [] h = refl
  every_refreshed external_sources (s ∷ ss) h =
      rw (should_refresh-always external_sources s h.0)
        (ap (λ os. fetch_external_source w s true ∷ os) (every_refreshed external_sources ss h.1))

  -- The I/O phase of a resolution calls the cache service with `refresh` for every external source
  -- that takes part, whatever rows the cache holds, whenever they were updated and however long the
  -- cooldown is: unless the id of one of these sources is the URL of one of them.
  pub fetch_all-refreshes :
      (eligible : List Source)
      → NoIdIsUrl (keep_if is_external eligible)
      → fetch_all w eligible
        ≡ dict_from [] (
            keyed (
              map (λ s. fetch_external_source w s true) (keep_if is_external eligible)
              ++ map (fetch_internal_source_comments w) (keep_if is_internal eligible)))
  unfolding fetch_all
  fetch_all-refreshes eligible h =
      let internals = map (fetch_internal_source_comments w) (keep_if is_internal eligible) in
      let external_sources = keep_if is_external eligible in
      ap (λ outcomes. dict_from [] (keyed (outcomes ++ internals)))
        (every_refreshed external_sources external_sources h)
