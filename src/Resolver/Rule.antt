-- ===== src/Resolver/Rule.antt =====
-- resolver_service.py: a rule for properties of the shared state. What every step of a resolution
-- keeps holds at its end; a step may use where its source comes from.
use v2hub_api.Base.{
  refl, ℕ, zero, suc, ◌++◌, ◌≡◌, inl, inr, Bool, true, false, some, List, [], ◌∷◌, Text, Dict,
  lookup, has, ltb, All, Bool-cases, Option-cases,
}
use v2hub_api.Enums.{SourceType, external_url, internal_token}
use v2hub_api.Models.{Source, Subscription, filled}
use v2hub_api.Resolver.Fetch.{World, Outcome, external, internal, fetch_all}
use v2hub_api.Resolver.{
  State, is_full, truncate, exceed_depth, with_result, apply_config_source, apply_external_outcome,
  merge_comments, apply_external_found, apply_internal_found, apply_by_type, apply_source,
  apply_sources, expand, describe, eligible_sources, resolve_recursive,
}
use v2hub_api.Resolver.Origin.{
  Reaches, Supplied, nested, IsFetched, AllValues, AllValues-lookup, fetch_all-IsFetched,
  eligible-Supplied,
}

module _ (w : World) (root : Text) where
  -- What each step keeps.
  pub record Keeps {ℓ} (P : State → Type ℓ) : Type ℓ where
    pub on_truncate : (st : State) → P st → P (with_result st (truncate st.result))
    pub on_exceed_depth : (st : State) → P st → P (with_result st (exceed_depth st.result))
    pub on_visit :
        (st : State) (token : Text)
        → has st.resolved_subscriptions token ≡ false
        → P st
        → P (record st { resolved_subscriptions = st.resolved_subscriptions ++ token ∷ [] })
    pub on_describe :
        (st : State) (sub : Subscription) → P st → P (with_result st (describe w sub st.result))
    pub on_config :
        (st : State) (d : ℕ) (s : Source)
        → Supplied w root d s
        → s.source_type ≡ SourceType.config
        → ltb w.max_depth d ≡ false
        → is_full w st.result ≡ false
        → P st
        → P (with_result st (apply_config_source s st.root_comment_map st.result))
    pub on_external :
        (st : State) (d : ℕ) (s : Source) (uris : List Text) (error : Bool)
        → IsFetched w root d (external s uris error)
        → ltb w.max_depth d ≡ false
        → is_full w st.result ≡ false
        → P st
        → P (with_result st (apply_external_outcome w s uris error st.result))
    pub on_merge :
        (st : State) (comments : Dict Text)
        → P st
        → P (record st { root_comment_map = merge_comments comments st.root_comment_map })

module _ {ℓ} (w : World) (root : Text) (P : State → Type ℓ) (keeps : Keeps w root P) where
  -- The recursive call keeps the property for tokens that are reached.
  abbrev Recurs : ℕ → (Text → State → State) → Type ℓ
  Recurs d self = (t : Text) (st : State) → Reaches w root (suc d) t → P st → P (self t st)

  module _ (d : ℕ) (self : Text → State → State) (shallow : ltb w.max_depth d ≡ false)
      (recurs : Recurs d self) where
    external_found_keeps :
        (o : Outcome) (st : State)
        → IsFetched w root d o
        → is_full w st.result ≡ false
        → P st
        → P (apply_external_found w self (some o) st)
    unfolding apply_external_found
    external_found_keeps (external s uris error) st f room p =
        keeps.on_external st d s uris error f shallow room p
    external_found_keeps (internal s comments error) st f room p = p

    internal_found_keeps :
        (o : Outcome) (st : State)
        → IsFetched w root d o
        → P st
        → P (apply_internal_found w self (some o) st)
    unfolding apply_internal_found
    internal_found_keeps (external s uris error) st f p = p
    internal_found_keeps (internal s comments true) st f p = p
    internal_found_keeps (internal s comments false) st f p =
        elim (Option-cases (filled s.internal_token)) [
          | inl e ↦ rw e p
          | inr (token, e) ↦ rw e (recurs token _ (nested f.0 f.1 e) (keeps.on_merge st comments p))
        ]

    by_type_keeps :
        (t : SourceType) (outcomes : Dict Outcome) (s : Source) (st : State)
        → AllValues (IsFetched w root d) outcomes
        → Supplied w root d s
        → s.source_type ≡ t
        → is_full w st.result ≡ false
        → P st
        → P (apply_by_type w self t outcomes s st)
    unfolding apply_by_type
    by_type_keeps SourceType.config outcomes s st f from kind room p =
        keeps.on_config st d s from kind shallow room p
    by_type_keeps external_url outcomes s st f from kind room p =
        elim (Option-cases (lookup s.id outcomes)) [
          | inl e ↦ rw e p
          | inr (o, e) ↦ rw e (
              external_found_keeps o st (AllValues-lookup (IsFetched w root d) s.id outcomes f e)
                room p)
        ]
    by_type_keeps internal_token outcomes s st f from kind room p =
        elim (Option-cases (lookup s.id outcomes)) [
          | inl e ↦ rw e p
          | inr (o, e) ↦ rw e (
              internal_found_keeps o st (AllValues-lookup (IsFetched w root d) s.id outcomes f e) p)
        ]

    apply_sources_keeps :
        (outcomes : Dict Outcome) (ss : List Source) (st : State)
        → AllValues (IsFetched w root d) outcomes
        → All (Supplied w root d) ss
        → P st
        → P (apply_sources w self outcomes ss st)
    unfolding apply_sources
    apply_sources_keeps outcomes [] st f from p = p
    apply_sources_keeps outcomes (s ∷ ss) st f from p = elim (Bool-cases (is_full w st.result)) [
      | inl full ↦ rw full (keeps.on_truncate st p)
      | inr room ↦ rw room (
          apply_sources_keeps outcomes ss (apply_source w self outcomes s st) f from.1
            (by_type_keeps s.source_type outcomes s st f from.0 refl room p))
    ]

    expand_keeps :
        (token : Text) (st : State)
        → Reaches w root d token
        → has st.resolved_subscriptions token ≡ false
        → P st
        → P (expand w self token d st)
    unfolding expand
    expand_keeps token st r new p = elim (Option-cases (w.get_by_token token)) [
      | inl e ↦ rw e (keeps.on_visit st token new p)
      | inr (sub, e) ↦
          let from = eligible-Supplied w root d sub r e in
          rw e (
            apply_sources_keeps (fetch_all w (eligible_sources d sub)) (eligible_sources d sub) _
              (fetch_all-IsFetched w root d (eligible_sources d sub) from) from
              (keeps.on_describe _ sub (keeps.on_visit st token new p)))
    ]

  pub resolve_recursive_keeps :
      (levels : ℕ) (token : Text) (d : ℕ) (st : State)
      → Reaches w root d token
      → P st
      → P (resolve_recursive w levels token d st)
  unfolding resolve_recursive
  resolve_recursive_keeps zero token d st r p = elim (Bool-cases (is_full w st.result)) [
    | inl full ↦ rw full (keeps.on_truncate st p)
    | inr room ↦ rw room (keeps.on_exceed_depth st p)
  ]
  resolve_recursive_keeps (suc levels) token d st r p = elim (Bool-cases (is_full w st.result)) [
    | inl full ↦ rw full (keeps.on_truncate st p)
    | inr room ↦ rw room (elim (Bool-cases (ltb w.max_depth d)) [
      | inl deep ↦ rw deep (keeps.on_exceed_depth st p)
      | inr shallow ↦ rw shallow (elim (Bool-cases (has st.resolved_subscriptions token)) [
        | inl old ↦ rw old p
        | inr new ↦ rw new (
            expand_keeps d (λ t s. resolve_recursive w levels t (suc d) s) shallow
              (λ t s r' p'. resolve_recursive_keeps levels t (suc d) s r' p') token st r new p)
      ])
    ])
  ]
