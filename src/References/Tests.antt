-- ===== src/References/Tests.antt =====
-- The reference check at concrete graphs.
use mathlib.Core.List.Memᴰ
use v2hub_api.Base.{
  ℕ, suc, ◌≤◌, ◌≡◌, ◌≢◌, refl, Option, [], ◌∷◌, Text, has, Dict, arith, ok, err, text_eq, lookup,
  insert, not-Memᴰ-nil, subst, ◌∙◌, ne_of_text_eq,
}
use v2hub_api.Models.{Subscription}
use v2hub_api.References.{
  check_new_reference, check_sources, check_circular_reference, circular_reference,
}
use v2hub_api.References.Graph.{Walk, here, step, links, internal_tokens}
use v2hub_api.References.Sound.{check_new_reference-acyclic}
use v2hub_api.References.Complete.{check_new_reference_complete}
use v2hub_api.References.Unbounded.{link, linked, a, b, r, diamond, diamond_memo, diamond_passes}

check_new_reference-acyclic_example : ¬ Walk diamond 2 a r
check_new_reference-acyclic_example =
    check_new_reference-acyclic diamond 3 r a diamond_memo diamond_passes 2

abbrev pair_rows : Dict Subscription
pair_rows = (a, linked a (link b ∷ [])) ∷ (b, linked b []) ∷ []

pair : Text → Option Subscription
pair t = lookup t pair_rows

Walk-from_b : {m : ℕ} {u : Text} → Walk pair m b u → (m ≤ 0) × (u ≡ b)
unfolding links internal_tokens lookup text_eq pair
Walk-from_b here = (omega arith, refl)
Walk-from_b (step h p) = absurd (not-Memᴰ-nil _ h)

Walk-from_a : (m : ℕ) (u : Text) → Walk pair m a u → (m ≤ 1) × (r ≢ u)
unfolding links internal_tokens lookup text_eq pair
Walk-from_a m u here = (omega arith, ne_of_text_eq r a refl)
Walk-from_a (suc m) u (step {u = v} h p) =
    let same = Memᴰ.eq_of_singleton h in
    let (short, last) = Walk-from_b (subst (λ (t : Text). Walk pair m t u) same p) in
    (omega arith, λ q. ne_of_text_eq r b refl (q ∙ last))

check_new_reference_complete_example : (memo : Dict ℕ) × (check_new_reference pair 1 r a ≡ ok memo)
check_new_reference_complete_example = check_new_reference_complete pair 1 r a Walk-from_a

self_link : check_new_reference pair 1 b a ≡ err (circular_reference (b ∷ a ∷ b ∷ []))
unfolding check_new_reference check_circular_reference check_sources lookup insert has text_eq pair
self_link = refl
