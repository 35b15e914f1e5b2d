-- ===== src/References/Sound.antt =====
-- subscription_service.py, `_check_circular_reference`: what a check that passes says of the walks
-- from the new target.
use v2hub_api.Base.{
  ℕ, zero, suc, ◌-◌, ◌≡◌, refl, sym, subst, inl, inr, ⊎_elim, true, false, Option, none, some, List,
  [], ◌∷◌, ◌++◌, Text, has, All, Memᴰ, Memᴰ-cons, not-Memᴰ-nil, text_eq, text_eq_iff, text_eq_self,
  Dict, lookup, insert, ltb, Bool-cases, Option-cases, Result, ok, Result-cases, has-snoc,
}
use v2hub_api.Models.{Source, Subscription}
use v2hub_api.References.{
  nested_token, covers, CheckError, check_sources, check_found, check_circular_reference,
  check_new_reference,
}
use v2hub_api.References.Graph.{internal_tokens, links, Walk, Avoids, Avoids-of_links}

module _ (get_by_token : Text → Option Subscription) (max_depth : ℕ) (avoid : List Text) where
  -- The memo holds only tokens that were verified.
  abbrev Verified : Dict ℕ → Type 0
  Verified = All (λ e. Avoids get_by_token avoid e.0)

  Verified-lookup :
      (t : Text) (c : Dict ℕ) {b : ℕ}
      → Verified c
      → lookup t c ≡ some b
      → Avoids get_by_token avoid t
  unfolding lookup
  Verified-lookup t [] v e = cc
  Verified-lookup t ((j, x) ∷ c) v e = elim (Bool-cases (text_eq j t)) [
    | inl same ↦ subst (Avoids get_by_token avoid) ((text_eq_iff j t).0 same) v.0
    | inr other ↦ Verified-lookup t c v.1 (rw other at e)
  ]

  Verified-insert :
      (t : Text) (b : ℕ) (c : Dict ℕ)
      → Avoids get_by_token avoid t
      → Verified c
      → Verified (insert t b c)
  unfolding insert
  Verified-insert t b [] h v = (h, tt)
  Verified-insert t b ((j, x) ∷ c) h v = elim (Bool-cases (text_eq j t)) [
    | inl same ↦ rw same (subst (Avoids get_by_token avoid) (sym ((text_eq_iff j t).0 same)) h, v.1)
    | inr other ↦ rw other (v.0, Verified-insert t b c h v.1)
  ]

  -- A call that passes has verified its target.
  abbrev Verifies : (Text → Dict ℕ → Result CheckError (Dict ℕ)) → Type 0
  Verifies self =
      (t : Text) (c c' : Dict ℕ)
      → Verified c
      → self t c ≡ ok c'
      → Avoids get_by_token avoid t × Verified c'

  not_avoided :
      (t : Text) (visited : List Text)
      → ((k : Text) → has avoid k ≡ true → has visited k ≡ true)
      → has visited t ≡ false
      → has avoid t ≡ false
  not_avoided t visited sub new = elim (Bool-cases (has avoid t)) [
    | inl e ↦ cc (sub t e)
    | inr e ↦ e
  ]

  check_sources-Verified :
      (self : Text → Dict ℕ → Result CheckError (Dict ℕ))
      → Verifies self
      → (ss : List Source) (c c' : Dict ℕ) → Verified c
      → check_sources self ss c ≡ ok c'
      → ((t : Text) → Memᴰ t (internal_tokens ss) → Avoids get_by_token avoid t) × Verified c'
  unfolding check_sources internal_tokens
  check_sources-Verified self f [] c c' v e =
      (λ t m. absurd (not-Memᴰ-nil t m), subst Verified (cc e) v)
  check_sources-Verified self f (s ∷ ss) c c' v e = elim (Option-cases (nested_token s)) [
    | inl n ↦
        rw (n, internal_tokens)
          (check_sources-Verified self f ss c c' v (rw (n, check_sources) at e))
    | inr (t, n) ↦ elim (Result-cases (self t c)) [
      | inl (c1, r) ↦
          let (clear, v1) = f t c c1 v r in
          let (rest, v') =
            check_sources-Verified self f ss c1 c' v1 (rw r at (rw (n, check_sources) at e)) in
          rw (n, internal_tokens)
            (
              λ u m.
                  ⊎_elim (λ (same : u ≡ t). subst (Avoids get_by_token avoid) (sym same) clear)
                    (rest u) ((Memᴰ-cons u t (internal_tokens ss)).0 m),
              v',
            )
      | inr (x, r) ↦ cc (rw r at (rw (n, check_sources) at e))
    ]
  ]

  found-Verified :
      (self : Text → Dict ℕ → Result CheckError (Dict ℕ)) (target : Text) (budget : ℕ)
      (c c' : Dict ℕ) (found : Option Subscription)
      → Verifies self
      → has avoid target ≡ false
      → Verified c
      → get_by_token target ≡ found
      → check_found get_by_token max_depth self target budget found c ≡ ok c'
      → Avoids get_by_token avoid target × Verified c'
  unfolding check_found links
  found-Verified self target budget c c' none f new v g e =
      let clear =
        Avoids-of_links get_by_token avoid target new
          (λ u m. absurd (not-Memᴰ-nil u (rw (g, links) at m))) in
      (clear, subst Verified (cc e) (Verified-insert target budget c clear v))
  found-Verified self target budget c c' (some sub) f new v g e =
      elim (Result-cases (check_sources self sub.sources c)) [
        | inl (c1, r) ↦
            let (below, v1) = check_sources-Verified self f sub.sources c c1 v r in
            let clear =
              Avoids-of_links get_by_token avoid target new (λ u m. below u (rw (g, links) at m)) in
            (clear, subst Verified (cc (rw r at e)) (Verified-insert target budget c1 clear v1))
        | inr (x, r) ↦ cc (rw r at e)
      ]

  covered-Verified :
      (target : Text) (c : Dict ℕ) (b : ℕ)
      → Verified c
      → covers (lookup target c) b ≡ true
      → Avoids get_by_token avoid target
  covered-Verified target c b v h = elim (Option-cases (lookup target c)) [
    | inl e ↦ cc (rw e at h)
    | inr (k, e) ↦ Verified-lookup target c v e
  ]

  -- The check of one target, for any memo that holds verified tokens.
  check-Verified :
      (levels : ℕ) (target : Text) (visited : List Text) (c c' : Dict ℕ) (depth : ℕ)
      → ((k : Text) → has avoid k ≡ true → has visited k ≡ true)
      → Verified c
      → check_circular_reference get_by_token max_depth levels target visited c depth ≡ ok c'
      → Avoids get_by_token avoid target × Verified c'
  unfolding check_circular_reference
  check-Verified zero target visited c c' depth sub v e = cc
  check-Verified (suc levels) target visited c c' depth sub v e =
      elim (Bool-cases (ltb max_depth depth)) [
        | inl deep ↦ cc (rw deep at e)
        | inr shallow ↦ elim (Bool-cases (has visited target)) [
          | inl old ↦ cc (rw (shallow, old) at e)
          | inr new ↦ elim (Bool-cases (covers (lookup target c) (max_depth - depth))) [
            | inl covered ↦ (
              covered-Verified target c (max_depth - depth) v covered,
              subst Verified (cc (rw (shallow, new, covered) at e)) v,
            )
            | inr open_yet ↦
                found-Verified _ target (max_depth - depth) c c' (get_by_token target)
                  (λ t d d' w r.
                    check-Verified levels t (visited ++ target ∷ []) d d' (suc depth)
                      (λ k h. rw (has-snoc, sub k h) refl) w r)
                  (not_avoided target visited sub new) v refl (rw (shallow, new, open_yet) at e)
          ]
        ]
      ]

-- If the check of a new link passes, no walk along the links leads from the link's target to the
-- subscription that gets the link: the link closes no cycle.
pub check_new_reference-acyclic :
    (get_by_token : Text → Option Subscription) (max_depth : ℕ)
    (subscription_token internal_token : Text) (c : Dict ℕ)
    → check_new_reference get_by_token max_depth subscription_token internal_token ≡ ok c
    → (m : ℕ) → ¬ Walk get_by_token m internal_token subscription_token
unfolding check_new_reference has
check_new_reference-acyclic get_by_token max_depth subscription_token internal_token c e m p =
    let (avoids, _) =
      check-Verified get_by_token max_depth (subscription_token ∷ []) (suc max_depth) internal_token
        (subscription_token ∷ []) [] c 0 (λ k h. h) tt e in
    cc (avoids m subscription_token p, text_eq_self subscription_token)
