-- ===== src/Resolver/Levels.antt =====
-- resolver_service.py: the levels of the recursion, and what a nested call does to the configs.
use mathlib.Core.Path.{fun_ext}
use v2hub_api.Base.{
  ℕ, zero, suc, ◌+◌, ◌≤◌, ◌++◌, ◌≡◌, refl, ap, sym, ◌∙◌, inl, inr, Bool, true, false, List, [], ◌∷◌,
  Text, Dict, has, ltb, lt→ltb, append-nil, append_assoc, Bool-cases, Option-cases, arith,
  if◌then◌else◌,
}
use v2hub_api.Models.{Source, filled}
use v2hub_api.Resolver.Fetch.{World}
use v2hub_api.Resolver.{
  ResolvedConfig, ResolveResult, State, is_full, truncate, exceed_depth, with_result, add_resolved,
  add_external, apply_config_source, apply_config_parts, config_entry, apply_external_outcome,
  slice_remaining, exceeds_remaining, external_entry, describe, expand, resolve_recursive,
}
use v2hub_api.Resolver.Origin.{Reaches}
use v2hub_api.Resolver.Rule.{Keeps, resolve_recursive_keeps}

module _ (w : World) where
  deep-resolve_recursive :
      (l : ℕ) (token : Text) (d : ℕ) (st : State)
      → w.max_depth + 1 ≤ d
      → resolve_recursive w l token d st ≡ resolve_recursive w zero token d st
  unfolding resolve_recursive
  deep-resolve_recursive zero token d st h = refl
  deep-resolve_recursive (suc l) token d st h = rw (lt→ltb w.max_depth d (omega arith))

  -- Any two numbers of levels that cover the depths up to `max_depth` give the same result: the
  -- recursion is ended by its depth check, never by the count of levels.
  pub resolve_recursive-levels :
      (l m : ℕ) (token : Text) (d : ℕ) (st : State)
      → w.max_depth + 1 ≤ l + d
      → w.max_depth + 1 ≤ m + d
      → resolve_recursive w l token d st ≡ resolve_recursive w m token d st
  resolve_recursive-levels zero m token d st h k =
      sym (deep-resolve_recursive m token d st (omega arith))
  resolve_recursive-levels (suc l) zero token d st h k =
      deep-resolve_recursive (suc l) token d st (omega arith)
  resolve_recursive-levels (suc l) (suc m) token d st h k = suc_levels (
      fun_ext
        (λ t. fun_ext (λ s. resolve_recursive-levels l m t (suc d) s (omega arith) (omega arith))))
    where
      suc_levels :
          ◌≡◌ {A = Text → State → State}
            (λ t s. resolve_recursive w l t (suc d) s)
            (λ t s. resolve_recursive w m t (suc d) s)
          → resolve_recursive w (suc l) token d st ≡ resolve_recursive w (suc m) token d st
      suc_levels e =
          unfold resolve_recursive in
          ap
            (λ (self : Text → State → State).
              if is_full w st.result
              then with_result st (truncate st.result)
              else (if ltb w.max_depth d
                  then with_result st (exceed_depth st.result)
                  else (if has st.resolved_subscriptions token
                      then st
                      else expand w self token d st)))
            e

-- `r'` has the configs of `r`, in their order, and then others.
abbrev pub Extends : List ResolvedConfig → State → Type 0
Extends old st = (more : List ResolvedConfig) × (st.result.configs ≡ old ++ more)

abbrev ExtendsResult : List ResolvedConfig → ResolveResult → Type 0
ExtendsResult old r = (more : List ResolvedConfig) × (r.configs ≡ old ++ more)

module _ (old : List ResolvedConfig) where
  added-Extends :
      (c : ResolvedConfig) (r : ResolveResult)
      → ExtendsResult old r
      → ExtendsResult old (add_resolved c r)
  unfolding add_resolved
  added-Extends c r (more, e) = elim (Bool-cases (has r.seen_hashes c.hash)) [
    | inl seen ↦ rw seen (more, e)
    | inr new ↦ rw new (
      more ++ c ∷ [],
      ap (λ (l : List ResolvedConfig). l ++ c ∷ []) e ∙ append_assoc old more (c ∷ []),
    )
  ]

  config-Extends :
      (s : Source) (comments : Dict Text) (r : ResolveResult)
      → ExtendsResult old r
      → ExtendsResult old (apply_config_source s comments r)
  unfolding apply_config_source
  config-Extends s comments r h = elim (Option-cases s.proxy_config) [
    | inl e ↦ rw (e, apply_config_parts) h
    | inr (base, e) ↦ elim (Option-cases (filled s.config_hash)) [
      | inl f ↦ rw (e, f, apply_config_parts) h
      | inr (k, f) ↦
          rw (e, f, apply_config_parts) (added-Extends (config_entry s comments base k) r h)
    ]
  ]

  module _ (w : World) where
    add_external-Extends :
        (s : Source) (uris : List Text) (r : ResolveResult)
        → ExtendsResult old r
        → ExtendsResult old (add_external w s uris r)
    unfolding add_external
    add_external-Extends s [] r h = h
    add_external-Extends s (u ∷ us) r h =
        add_external-Extends s us _ (added-Extends (external_entry w s u) r h)

    external-Extends :
        (s : Source) (uris : List Text) (error : Bool) (r : ResolveResult)
        → ExtendsResult old r
        → ExtendsResult old (apply_external_outcome w s uris error r)
    unfolding apply_external_outcome
    external-Extends s uris true r h = h
    external-Extends s [] false r h = h
    external-Extends s (u ∷ us) false r h = elim (Bool-cases (exceeds_remaining w r (u ∷ us))) [
      | inl over ↦ rw over (add_external-Extends s (slice_remaining w r (u ∷ us)) r h)
      | inr fits ↦ rw fits (add_external-Extends s (slice_remaining w r (u ∷ us)) r h)
    ]

    Extends-Keeps : (root : Text) → Keeps w root (Extends old)
    unfolding describe
    Extends-Keeps root = record {
      on_truncate = λ st h. h;
      on_exceed_depth = λ st h. h;
      on_visit = λ st token new h. h;
      on_describe = λ st sub h. h;
      on_config =
          λ st d s from kind shallow room h. config-Extends s st.root_comment_map st.result h;
      on_external =
          λ st d s uris error from shallow room h. external-Extends s uris error st.result h;
      on_merge = λ st comments h. h;
    }

-- A call of the recursion for a token that the root reaches leaves the configs found so far in
-- place and appends to them.
pub resolve_recursive-Extends :
    (w : World) (root token : Text) (levels d : ℕ) (st : State)
    → Reaches w root d token
    → Extends st.result.configs (resolve_recursive w levels token d st)
resolve_recursive-Extends w root token levels d st r =
    resolve_recursive_keeps w root (Extends st.result.configs)
      (Extends-Keeps st.result.configs w root) levels token d st r
      ([], sym (append-nil st.result.configs))
