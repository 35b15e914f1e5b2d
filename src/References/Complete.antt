-- ===== src/References/Complete.antt =====
-- subscription_service.py, `_check_circular_reference`: which links pass the check.
use v2hub_api.Base.{
  ℕ, zero, suc, ◌+◌, ◌-◌, ◌≤◌, ◌<◌, ◌≡◌, ◌≢◌, refl, sym, subst, inl, inr, Option, none, some, List,
  [], ◌∷◌, ◌++◌, Text, has, has-snoc, Memᴰ, arith, text_eq, text_eq_iff, Dict, lookup, insert,
  ge→ltb, Bool-cases, Option-cases, Result, ok,
}
use v2hub_api.Models.{Source, Subscription}
use v2hub_api.References.{
  nested_token, covers, CheckError, check_sources, check_found, check_circular_reference,
  check_new_reference,
}
use v2hub_api.References.Graph.{internal_tokens, links, Walk, here, step, Clear, Clear-acyclic}

abbrev Passes : Result CheckError (Dict ℕ) → Type 0
Passes r = (c' : Dict ℕ) × (r ≡ ok c')

check_sources-Passes :
    (self : Text → Dict ℕ → Result CheckError (Dict ℕ)) (ss : List Source)
    → ((t : Text) (c : Dict ℕ) → Memᴰ t (internal_tokens ss) → Passes (self t c))
    → (c : Dict ℕ) → Passes (check_sources self ss c)
unfolding check_sources internal_tokens
check_sources-Passes self [] f c = (c, refl)
check_sources-Passes self (s ∷ ss) f c = elim (Option-cases (nested_token s)) [
  | inl n ↦
      rw (n, check_sources)
        (check_sources-Passes self ss (λ t d m. f t d (rw (n, internal_tokens) m)) c)
  | inr (t, n) ↦
      let (c1, r) = f t c (rw (n, internal_tokens) (Memᴰ.head refl)) in
      rw (n, check_sources)
        (rw r (
          check_sources-Passes self ss (λ u d m. f u d (rw (n, internal_tokens) (Memᴰ.tail m))) c1))
]

module _ (get_by_token : Text → Option Subscription) (max_depth : ℕ) where
  Clear-child :
      (visited : List Text) (n : ℕ) (t u : Text)
      → Clear get_by_token visited n t
      → Memᴰ u (links get_by_token t)
      → (0 < n) × Clear get_by_token (visited ++ t ∷ []) (n - 1) u
  Clear-child visited n t u c e = (
    (c 1 u (step e here)).0,
    λ m v p.
        let (short, free) = c (suc m) v (step e p) in
        (
          omega arith,
          elim (Bool-cases (text_eq t v)) [
            | inl same ↦ absurd (
                Clear-acyclic get_by_token visited n t c
                  (subst (Walk get_by_token (suc m) t) (sym ((text_eq_iff t v).0 same)) (step e p)))
            | inr other ↦ rw (has-snoc, free, other) refl
          ],
        ),
  )

  found-Passes :
      (self : Text → Dict ℕ → Result CheckError (Dict ℕ)) (target : Text) (budget : ℕ)
      (found : Option Subscription)
      → get_by_token target ≡ found
      → ((t : Text) (c : Dict ℕ) → Memᴰ t (links get_by_token target) → Passes (self t c))
      → (c : Dict ℕ) → Passes (check_found get_by_token max_depth self target budget found c)
  unfolding check_found links
  found-Passes self target budget none g f c = (insert target budget c, refl)
  found-Passes self target budget (some sub) g f c =
      let (c1, r) = check_sources-Passes self sub.sources (λ t d m. f t d (rw (g, links) m)) c in
      rw r (insert target budget c1, refl)

  check-Passes :
      (levels : ℕ) (target : Text) (visited : List Text) (c : Dict ℕ) (depth : ℕ)
      → depth ≤ max_depth
      → max_depth < levels + depth
      → Clear get_by_token visited (max_depth - depth) target
      → Passes (check_circular_reference get_by_token max_depth levels target visited c depth)
  unfolding check_circular_reference
  check-Passes zero target visited c depth h l clear = absurd (omega arith)
  check-Passes (suc levels) target visited c depth h l clear = rw (ge→ltb max_depth depth h) (
      rw (clear zero target here).1
        (elim (Bool-cases (covers (lookup target c) (max_depth - depth))) [
          | inl covered ↦ rw covered (c, refl)
          | inr open_yet ↦ rw open_yet (
              found-Passes _ target (max_depth - depth) (get_by_token target) refl
                (λ t d m.
                  let (room, below) = Clear-child visited (max_depth - depth) target t clear m in
                  check-Passes levels t (visited ++ target ∷ []) d (suc depth) (omega arith)
                    (omega arith)
                    (subst (λ (n : ℕ). Clear get_by_token (visited ++ target ∷ []) n t)
                      (omega arith) below))
                c)
        ]))

-- If every walk along the links from the target has at most `max_depth` links and does not end at
-- the subscription that gets the link, the check of the new link passes.
pub check_new_reference_complete :
    (get_by_token : Text → Option Subscription) (max_depth : ℕ)
    (subscription_token internal_token : Text)
    → ((m : ℕ) (u : Text)
        → Walk get_by_token m internal_token u
        → (m ≤ max_depth) × (subscription_token ≢ u))
    → (c : Dict ℕ) × (check_new_reference get_by_token max_depth subscription_token internal_token
        ≡ ok c)
unfolding check_new_reference has
check_new_reference_complete get_by_token max_depth subscription_token internal_token h =
    check-Passes get_by_token max_depth (suc max_depth) internal_token (subscription_token ∷ []) []
      0 (omega arith) (omega arith)
      (λ m u p.
        let (short, apart) = h m u p in
        (omega arith, ground (arith, text_eq_iff subscription_token u)))
