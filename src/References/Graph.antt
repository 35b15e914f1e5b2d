-- ===== src/References/Graph.antt =====
-- The links between subscriptions, the walks along them, and what the check promises.
use v2hub_api.Base.{
  ℕ, zero, suc, ◌+◌, ◌≤◌, ◌≡◌, subst, false, Option, none, some, List, [], ◌∷◌, Text, has, Memᴰ,
  arith,
}
use v2hub_api.Models.{Source, Subscription}
use v2hub_api.References.{nested_token}

unfoldable pub internal_tokens : List Source → List Text
internal_tokens [] = []
internal_tokens (s ∷ ss) = elim (nested_token s) [
  | none ↦ internal_tokens ss
  | some t ↦ t ∷ internal_tokens ss
]

abbrev pub found_links : Option Subscription → List Text
found_links none = []
found_links (some sub) = internal_tokens sub.sources

module _ (get_by_token : Text → Option Subscription) where
  -- the tokens that the sources of a subscription link to
  unfoldable pub links : Text → List Text
  links t = found_links (get_by_token t)

  -- `Walk n t u`: n links lead from t to u.
  pub data Walk : ℕ → Text → Text → Type 0 where
    here : {t : Text} → Walk zero t t
    step : {n : ℕ} {t u v : Text} → Memᴰ u (links t) → Walk n u v → Walk (suc n) t v

  Walk-cast : {m n : ℕ} {t u : Text} → m ≡ n → Walk m t u → Walk n t u
  Walk-cast {t = t} {u = u} e p = subst (λ (k : ℕ). Walk k t u) e p

  pub Walk-append : {m n : ℕ} {t u v : Text} → Walk m t u → Walk n u v → Walk (m + n) t v
  Walk-append here q = Walk-cast (omega arith) q
  Walk-append (step e p) q = Walk-cast (omega arith) (step e (Walk-append p q))

  -- Every walk from `t` has at most `n` links and ends outside `avoid`.
  abbrev pub Clear : List Text → ℕ → Text → Type 0
  Clear avoid n t = (m : ℕ) (u : Text) → Walk m t u → (m ≤ n) × (has avoid u ≡ false)

  -- No walk from `t` ends in `avoid`.
  abbrev pub Avoids : List Text → Text → Type 0
  Avoids avoid t = (m : ℕ) (u : Text) → Walk m t u → has avoid u ≡ false

  -- From the targets of the links to their origin.
  pub Avoids-of_links :
      (avoid : List Text) (t : Text)
      → has avoid t ≡ false
      → ((u : Text) → Memᴰ u (links t) → Avoids avoid u)
      → Avoids avoid t
  Avoids-of_links avoid t h f m u here = h
  Avoids-of_links avoid t h f m u (step {n = k} {u = v} e p) = f v e k u p

  repeat : (j : ℕ) {m : ℕ} {t : Text} → Walk (suc m) t t → (k : ℕ) × (j ≤ k) × Walk k t t
  repeat zero p = (zero, omega arith, here)
  repeat (suc j) {m} p = let (k, h, q) = repeat j p in (suc m + k, omega arith, Walk-append p q)

  -- A walk that leads back would be walked again and again.
  pub Clear-acyclic :
      (avoid : List Text) (n : ℕ) (t : Text) → Clear avoid n t → {m : ℕ} → ¬ Walk (suc m) t t
  Clear-acyclic avoid n t c p =
      let (k, h, q) = repeat (suc n) p in absurd (omega (arith, (c k t q).0))
