-- ===== src/Resolver/Supply.antt =====
-- resolver_service.py: the sources that supply the configs of a result.
use v2hub_api.Enums.{SourceType, external_url}
use v2hub_api.Resolver.Provided.{Gives, Offered, All-take, external-kind, fetched-Offered}
use v2hub_api.Base.{
  sym, leb, length, ◌-◌, lookup, ℕ, suc, ◌≤◌, ◌≡◌, refl, subst, inl, inr, Bool, true, false, some,
  List, [], ◌∷◌, Text, Dict, has, All, All-append, ltb, ltb→ge, Bool-cases, Option-cases, arith,
}
use v2hub_api.Models.{Source, filled}
use v2hub_api.Resolver.Fetch.{World}
use v2hub_api.Resolver.{
  ResolvedConfig, ResolveResult, add_resolved, add_external, apply_config_source,
  apply_config_parts, config_entry, apply_external_outcome, slice_remaining, exceeds_remaining,
  external_entry, describe, is_eligible, start, resolve, resolve_with,
}
use v2hub_api.Resolver.Origin.{Supplied, supplied, top, some-eq}
use v2hub_api.Resolver.Rule.{Keeps, resolve_recursive_keeps}

module _ (w : World) (root : Text) where
  -- The entry `c` comes from the source `s`, which takes part at depth `d`.
  pub record IsFrom (c : ResolvedConfig) (d : ℕ) (s : Source) : Type 0 where
    pub from : Supplied w root d s
    pub shallow : d ≤ w.max_depth
    pub allowed : d ≤ s.max_depth
    pub shown : d ≡ 0 → s.is_hidden ≡ false
    pub hidden : c.is_hidden ≡ s.is_hidden
    pub depth : c.max_depth ≡ s.max_depth
    pub given : Gives w s.source_type s c

  abbrev pub HasSource : ResolvedConfig → Type 0
  HasSource c = (d : ℕ) × (s : Source) × IsFrom c d s

  abbrev AllSourced : ResolveResult → Type 0
  AllSourced r = All HasSource r.configs

  eligible-le : (d : ℕ) (s : Source) → is_eligible d s ≡ true → d ≤ s.max_depth
  unfolding is_eligible
  eligible-le d s e = ground arith

  eligible-shown : (d : ℕ) (s : Source) → is_eligible d s ≡ true → d ≡ 0 → s.is_hidden ≡ false
  unfolding is_eligible
  eligible-shown d s e z = ground arith

  Supplied-eligible : (d : ℕ) (s : Source) → Supplied w root d s → is_eligible d s ≡ true
  Supplied-eligible d s (supplied r f m e) = e

  added-AllSourced :
      (c : ResolvedConfig) (r : ResolveResult)
      → HasSource c
      → AllSourced r
      → AllSourced (add_resolved c r)
  unfolding add_resolved
  added-AllSourced c r f h = elim (Bool-cases (has r.seen_hashes c.hash)) [
    | inl seen ↦ rw seen h
    | inr new ↦ rw new (All-append HasSource r.configs (c ∷ []) h (f, tt))
  ]

  module _ (d : ℕ) (s : Source) (from : Supplied w root d s)
      (shallow : ltb w.max_depth d ≡ false) where
    entry-IsFrom :
        (c : ResolvedConfig)
        → c.is_hidden ≡ s.is_hidden
        → c.max_depth ≡ s.max_depth
        → Gives w s.source_type s c
        → HasSource c
    entry-IsFrom c h m k = (
      d,
      s,
      record {
        from = from;
        shallow = ltb→ge w.max_depth d shallow;
        allowed = eligible-le d s (Supplied-eligible d s from);
        shown = eligible-shown d s (Supplied-eligible d s from);
        hidden = h;
        depth = m;
        given = k;
      },
    )

    config-AllSourced :
        (comments : Dict Text) (r : ResolveResult)
        → s.source_type ≡ SourceType.config
        → AllSourced r
        → AllSourced (apply_config_source s comments r)
    unfolding apply_config_source
    config-AllSourced comments r kind h = elim (Option-cases s.proxy_config) [
      | inl e ↦ rw (e, apply_config_parts) h
      | inr (base, e) ↦ elim (Option-cases (filled s.config_hash)) [
        | inl f ↦ rw (e, f, apply_config_parts) h
        | inr (k, f) ↦
            rw (e, f, apply_config_parts)
              (added-AllSourced (config_entry s comments base k) r
                (entry-IsFrom _ refl refl (
                  subst (λ t. Gives w t s (config_entry s comments base k)) (sym kind)
                    (f, (base, filled (lookup k comments), e, refl))))
                h)
      ]
    ]

    add_external-AllSourced :
        (uris : List Text) (r : ResolveResult)
        → s.source_type ≡ external_url
        → All (Offered w s) uris
        → AllSourced r
        → AllSourced (add_external w s uris r)
    unfolding add_external external_entry
    add_external-AllSourced [] r kind offered h = h
    add_external-AllSourced (u ∷ us) r kind offered h =
        add_external-AllSourced us _ kind offered.1 (
          added-AllSourced (external_entry w s u) r
            (entry-IsFrom _ refl refl
              (subst (λ t. Gives w t s (external_entry w s u)) (sym kind) (refl, offered.0)))
            h)

    -- a part of the configs
    sliced-Offered :
        (uris : List Text) (r : ResolveResult)
        → All (Offered w s) uris
        → All (Offered w s) (slice_remaining w r uris)
    unfolding slice_remaining
    sliced-Offered uris r offered = elim (Bool-cases (leb (length r.configs) w.max_configs)) [
      | inl within ↦
          rw within (All-take (Offered w s) (w.max_configs - length r.configs) uris offered)
      | inr beyond ↦
          rw beyond
            (All-take (Offered w s) (length uris - (length r.configs - w.max_configs)) uris offered)
    ]

    external-AllSourced :
        (uris : List Text) (error : Bool) (r : ResolveResult)
        → s.source_type ≡ external_url
        → All (Offered w s) uris
        → AllSourced r
        → AllSourced (apply_external_outcome w s uris error r)
    unfolding apply_external_outcome
    external-AllSourced uris true r kind offered h = h
    external-AllSourced [] false r kind offered h = h
    external-AllSourced (u ∷ us) false r kind offered h =
        let sliced = sliced-Offered (u ∷ us) r offered in
        let added = add_external-AllSourced (slice_remaining w r (u ∷ us)) r kind sliced h in
        elim (Bool-cases (exceeds_remaining w r (u ∷ us))) [
          | inl over ↦ rw over added
          | inr fits ↦ rw fits added
        ]

  AllSourced-Keeps : Keeps w root (λ st. AllSourced st.result)
  unfolding describe
  AllSourced-Keeps = record {
    on_truncate = λ st h. h;
    on_exceed_depth = λ st h. h;
    on_visit = λ st token new h. h;
    on_describe = λ st sub h. h;
    on_config = λ st d s from kind shallow room h.
        config-AllSourced d s from shallow st.root_comment_map st.result kind h;
    on_external = λ st d s uris error (from, kind, (refresh, fetched)) shallow room h.
        external-AllSourced d s from shallow uris error st.result (external-kind s kind)
          (fetched-Offered w s refresh error uris fetched) h;
    on_merge = λ st comments h. h;
  }

-- Every config that `resolve` returns comes from a source of a subscription that the resolved one
-- reaches at some depth `d`, itself at depth 0: `d` is at most the nesting limit and at most the
-- source's `max_depth`, the source is not hidden if `d` is 0, and the entry has the source's flags.
-- If the source is a config, the entry has its hash, and is its config with or without a comment. If
-- it is a URL, the entry is one of the configs in a content that the cache service answers for the
-- URL, and its hash is that of its text. No entry comes from a link itself.
pub resolve_sourced :
    (w : World) (token : Text) (r : ResolveResult)
    → resolve w token ≡ some r
    → All (HasSource w token) r.configs
unfolding resolve start
resolve_sourced w token r e = elim (Option-cases (w.get_all_for_subscription token)) [
  | inl none_read ↦ cc (rw (none_read, resolve_with) at e)
  | inr (rows, read) ↦
      subst (λ (r : ResolveResult). All (HasSource w token) r.configs)
        (some-eq (rw (read, resolve_with) at e))
        (resolve_recursive_keeps w token (λ st. All (HasSource w token) st.result.configs)
          (AllSourced-Keeps w token) (suc w.max_depth) token 0 (start w rows) top tt)
]
