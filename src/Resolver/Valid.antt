-- ===== src/Resolver/Valid.antt =====
-- resolver_service.py: the hashes and the number of the accumulated configs, and the tokens visited.
use v2hub_api.Base.{
  ℕ, suc, ◌+◌, ◌-◌, ◌≤◌, ◌≡◌, refl, subst, inl, inr, Bool, true, false, some, List, [], ◌∷◌, map,
  map-append, Text, Dict, has, length, length-append, length-take, leb→gt, le→leb, Distinct,
  Distinct-snoc, Bool-cases, Option-cases, arith,
}
use v2hub_api.Models.{Source, filled}
use v2hub_api.Resolver.Fetch.{World}
use v2hub_api.Resolver.{
  ResolvedConfig, ResolveResult, State, is_full, with_result, add_resolved, add_external,
  apply_config_source, apply_external_outcome, apply_fetched, apply_config_parts, exceeds_remaining,
  describe, resolve_with, slice_remaining, external_entry, config_entry, start, resolve,
  resolve_recursive,
}
use v2hub_api.Resolver.Origin.{Reaches, top, some-eq}
use v2hub_api.Resolver.Rule.{Keeps, resolve_recursive_keeps}

abbrev pub config_hashes : List ResolvedConfig → List Text
config_hashes = map (λ c. c.hash)

-- The set of hashes is the set of the configs' hashes, and no hash is repeated.
pub record IsCoherent (r : ResolveResult) : Type 0 where
  pub seen : r.seen_hashes ≡ config_hashes r.configs
  pub distinct : Distinct r.seen_hashes

add_resolved-IsCoherent :
    (c : ResolvedConfig) (r : ResolveResult) → IsCoherent r → IsCoherent (add_resolved c r)
unfolding add_resolved
add_resolved-IsCoherent c r h = elim (Bool-cases (has r.seen_hashes c.hash)) [
  | inl old ↦ rw old h
  | inr new ↦ rw new (record {
    seen = rw (map-append, h.seen);
    distinct = Distinct-snoc r.seen_hashes c.hash h.distinct new;
  })
]

length-add_resolved :
    (c : ResolvedConfig) (r : ResolveResult)
    → length (add_resolved c r).configs ≤ suc (length r.configs)
unfolding add_resolved
length-add_resolved c r = ground (arith, length-append r.configs (c ∷ []))

module _ (w : World) where
  add_external-IsCoherent :
      (s : Source) (uris : List Text) (r : ResolveResult)
      → IsCoherent r
      → IsCoherent (add_external w s uris r)
  unfolding add_external
  add_external-IsCoherent s [] r h = h
  add_external-IsCoherent s (u ∷ us) r h =
      add_external-IsCoherent s us (add_resolved (external_entry w s u) r)
        (add_resolved-IsCoherent (external_entry w s u) r h)

  length-add_external :
      (s : Source) (uris : List Text) (r : ResolveResult)
      → length (add_external w s uris r).configs ≤ length uris + length r.configs
  unfolding add_external
  length-add_external s [] r = omega arith
  length-add_external s (u ∷ us) r = omega (
    arith,
    length-add_external s us (add_resolved (external_entry w s u) r),
    length-add_resolved (external_entry w s u) r,
  )

  pub record IsValid (st : State) : Type 0 where
    pub coherent : IsCoherent st.result
    pub bounded : length st.result.configs ≤ w.max_configs
    pub visited : Distinct st.resolved_subscriptions

  -- a result that may replace the one of a valid state
  record IsNext (r : ResolveResult) : Type 0 where
    is_coherent : IsCoherent r
    is_bounded : length r.configs ≤ w.max_configs

  added-IsNext :
      (c : ResolvedConfig) (r : ResolveResult)
      → IsCoherent r
      → is_full w r ≡ false
      → IsNext (add_resolved c r)
  added-IsNext c r h room = record {
    is_coherent = add_resolved-IsCoherent c r h;
    is_bounded =
        omega (arith, length-add_resolved c r, leb→gt w.max_configs (length r.configs) room);
  }

  same-IsNext : (r : ResolveResult) → IsCoherent r → is_full w r ≡ false → IsNext r
  same-IsNext r h room = record {
    is_coherent = h;
    is_bounded = omega (arith, leb→gt w.max_configs (length r.configs) room);
  }

  config-IsNext :
      (s : Source) (comments : Dict Text) (r : ResolveResult)
      → IsCoherent r
      → is_full w r ≡ false
      → IsNext (apply_config_source s comments r)
  unfolding apply_config_source
  config-IsNext s comments r h room = elim (Option-cases s.proxy_config) [
    | inl e ↦ rw (e, apply_config_parts) (same-IsNext r h room)
    | inr (base, e) ↦ elim (Option-cases (filled s.config_hash)) [
      | inl f ↦ rw (e, f, apply_config_parts) (same-IsNext r h room)
      | inr (k, f) ↦
          rw (e, f, apply_config_parts) (added-IsNext (config_entry s comments base k) r h room)
    ]
  ]

  length-slice_remaining :
      (r : ResolveResult) (uris : List Text)
      → is_full w r ≡ false
      → length (slice_remaining w r uris) + length r.configs ≤ w.max_configs
  unfolding slice_remaining
  length-slice_remaining r uris room =
      let free = leb→gt w.max_configs (length r.configs) room in
      rw (le→leb (length r.configs) w.max_configs (omega arith))
        (omega (arith, length-take (w.max_configs - length r.configs) uris))

  fetched-IsNext :
      (s : Source) (uris : List Text) (r : ResolveResult)
      → IsCoherent r
      → is_full w r ≡ false
      → IsNext (apply_fetched w s uris r)
  unfolding apply_fetched
  fetched-IsNext s uris r h room =
      let more = slice_remaining w r uris in
      let coherent = add_external-IsCoherent s more r h in
      let bounded : length (add_external w s more r).configs ≤ w.max_configs =
        omega (arith, length-add_external s more r, length-slice_remaining r uris room) in
      elim (Bool-cases (exceeds_remaining w r uris)) [
        | inl over ↦ rw over (record {
          is_coherent = record { seen = coherent.seen; distinct = coherent.distinct };
          is_bounded = bounded;
        })
        | inr fits ↦ rw fits (record { is_coherent = coherent; is_bounded = bounded })
      ]

  external-IsNext :
      (s : Source) (uris : List Text) (error : Bool) (r : ResolveResult)
      → IsCoherent r
      → is_full w r ≡ false
      → IsNext (apply_external_outcome w s uris error r)
  unfolding apply_external_outcome
  external-IsNext s uris true r h room = same-IsNext r h room
  external-IsNext s [] false r h room = same-IsNext r h room
  external-IsNext s (u ∷ us) false r h room = fetched-IsNext s (u ∷ us) r h room

  next-IsValid :
      (st : State) (r : ResolveResult) → IsValid st → IsNext r → IsValid (with_result st r)
  next-IsValid st r v n = record {
    coherent = n.is_coherent;
    bounded = n.is_bounded;
    visited = v.visited;
  }

  IsValid-Keeps : (root : Text) → Keeps w root IsValid
  unfolding describe
  IsValid-Keeps root = record {
    on_truncate = λ st v. record {
      coherent = record { seen = v.coherent.seen; distinct = v.coherent.distinct };
      bounded = v.bounded;
      visited = v.visited;
    };
    on_exceed_depth = λ st v. record {
      coherent = record { seen = v.coherent.seen; distinct = v.coherent.distinct };
      bounded = v.bounded;
      visited = v.visited;
    };
    on_visit = λ st token new v. record {
      coherent = v.coherent;
      bounded = v.bounded;
      visited = Distinct-snoc st.resolved_subscriptions token v.visited new;
    };
    on_describe = λ st sub v. record {
      coherent = record { seen = v.coherent.seen; distinct = v.coherent.distinct };
      bounded = v.bounded;
      visited = v.visited;
    };
    on_config = λ st d s from kind shallow room v.
        next-IsValid st _ v (config-IsNext s st.root_comment_map st.result v.coherent room);
    on_external = λ st d s uris error from shallow room v.
        next-IsValid st _ v (external-IsNext s uris error st.result v.coherent room);
    on_merge =
        λ st comments v. record { coherent = v.coherent; bounded = v.bounded; visited = v.visited };
  }

  start-IsValid : (rows : List (Text × Text)) → IsValid (start w rows)
  unfolding start
  start-IsValid rows = record {
    coherent = record { seen = refl; distinct = tt };
    bounded = omega arith;
    visited = tt;
  }

  -- One call of the recursion, from a valid state and for a token that the root reaches: the hashes
  -- stay those of the configs and distinct, there are at most `max_configs` configs, and no token
  -- is visited twice.
  pub resolve_recursive-IsValid :
      (root token : Text) (levels d : ℕ) (st : State)
      → Reaches w root d token
      → IsValid st
      → IsValid (resolve_recursive w levels token d st)
  resolve_recursive-IsValid root token levels d st r v =
      resolve_recursive_keeps w root IsValid (IsValid-Keeps root) levels token d st r v

  -- What `resolve` returns has at most `max_configs` configs, with hashes that are all distinct.
  pub resolve_bounded :
      (token : Text) (r : ResolveResult)
      → resolve w token ≡ some r
      → (length r.configs ≤ w.max_configs) × Distinct (config_hashes r.configs)
  unfolding resolve
  resolve_bounded token r e = elim (Option-cases (w.get_all_for_subscription token)) [
    | inl none_read ↦ cc (rw (none_read, resolve_with) at e)
    | inr (rows, read) ↦
        let v =
          resolve_recursive-IsValid token token (suc w.max_depth) 0 (start w rows) top
            (start-IsValid rows) in
        let same = some-eq (rw (read, resolve_with) at e) in
        subst
          (λ (r : ResolveResult).
            (length r.configs ≤ w.max_configs) × Distinct (config_hashes r.configs))
          same (v.bounded, subst Distinct v.coherent.seen v.coherent.distinct)
  ]
