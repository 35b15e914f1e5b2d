-- ===== src/Resolver/Origin.antt =====
-- resolver_service.py: which subscriptions a resolution reaches, and which sources supply its
-- configs.
use v2hub_api.Base.{
  false, ℕ, zero, suc, ◌≡◌, refl, sym, inl, inr, Bool, true, none, some, List, [], ◌∷◌, map, Text,
  Dict, lookup, insert, dict_from, text_eq, keep_if, leb, All, All-append, subst, Memᴰ, Bool-cases,
  Option-cases,
}
use v2hub_api.Models.{Source, Subscription, filled}
use v2hub_api.ConfigParser.{parse_subscription_content}
use v2hub_api.Resolver.Fetch.{
  World, Outcome, external, internal, keyed, is_external, is_internal, fetch_all,
  fetch_external_source, fetch_internal_source_comments, should_refresh,
}
use v2hub_api.Resolver.{is_eligible, eligible_sources, sort_by_index, place}

-- `Supplied d s`: `s` is an eligible source of a subscription that is reached at depth `d`.
module _ (w : World) (root : Text) where
  mutual
    pub data Reaches : ℕ → Text → Type 0 where
      top : Reaches zero root
      nested :
          {d : ℕ} {s : Source} {token : Text}
          → Supplied d s
          → is_internal s ≡ true
          → filled s.internal_token ≡ some token
          → Reaches (suc d) token

    pub data Supplied : ℕ → Source → Type 0 where
      supplied :
          {d : ℕ} {s : Source} {token : Text} {sub : Subscription}
          → Reaches d token
          → w.get_by_token token ≡ some sub
          → Memᴰ s sub.sources
          → is_eligible d s ≡ true
          → Supplied d s

-- Predicates on all elements, through the list functions of the resolver.
module _ {ℓ κ} {A : Type ℓ} (P : A → Type κ) where
  pub All-map {μ} :
      {B : Type μ} (f : B → A) (xs : List B) → All (λ b. P (f b)) xs → All P (map f xs)
  All-map f [] h = tt
  All-map f (x ∷ xs) h = (h.0, All-map f xs h.1)

  pub All-keep_if :
      (p : A → Bool) (xs : List A) → All P xs → All (λ a. P a × (p a ≡ true)) (keep_if p xs)
  All-keep_if p [] h = tt
  All-keep_if p (x ∷ xs) h = elim (Bool-cases (p x)) [
    | inl e ↦ rw e ((h.0, e), All-keep_if p xs h.1)
    | inr e ↦ rw e (All-keep_if p xs h.1)
  ]

  pub All-of_Memᴰ : (xs : List A) → ((a : A) → Memᴰ a xs → P a) → All P xs
  All-of_Memᴰ [] f = tt
  All-of_Memᴰ (x ∷ xs) f = (f x (Memᴰ.head refl), All-of_Memᴰ xs (λ a m. f a (Memᴰ.tail m)))

pub All-mono {ℓ κ μ} :
    {A : Type ℓ} (P : A → Type κ) (Q : A → Type μ)
    → ((a : A) → P a → Q a)
    → (xs : List A) → All P xs
    → All Q xs
All-mono P Q f [] h = tt
All-mono P Q f (x ∷ xs) h = (f x h.0, All-mono P Q f xs h.1)

pub some-eq {ℓ} : {A : Type ℓ} {x y : A} → some x ≡ some y → x ≡ y
some-eq e = cc

-- A predicate on the values of a dict.
module _ {ℓ κ} {V : Type ℓ} (P : V → Type κ) where
  abbrev pub AllValues : Dict V → Type κ
  AllValues = All (λ e. P e.1)

  AllValues-insert : (k : Text) (v : V) (d : Dict V) → P v → AllValues d → AllValues (insert k v d)
  unfolding insert
  AllValues-insert k v [] p h = (p, tt)
  AllValues-insert k v ((j, x) ∷ d) p h = elim (Bool-cases (text_eq j k)) [
    | inl e ↦ rw e (p, h.1)
    | inr e ↦ rw e (h.0, AllValues-insert k v d p h.1)
  ]

  pub AllValues-dict_from :
      (d : Dict V) (ps : List (Text × V)) → AllValues d → AllValues ps → AllValues (dict_from d ps)
  unfolding dict_from
  AllValues-dict_from d [] h k = h
  AllValues-dict_from d ((j, v) ∷ ps) h k =
      AllValues-dict_from (insert j v d) ps (AllValues-insert j v d k.0 h) k.1

  pub AllValues-lookup : (k : Text) (d : Dict V) {v : V} → AllValues d → lookup k d ≡ some v → P v
  unfolding lookup
  AllValues-lookup k [] h e = cc
  AllValues-lookup k ((j, x) ∷ d) {v} h e = elim (Bool-cases (text_eq j k)) [
    | inl same ↦ subst P (some-eq (rw same at e)) h.0
    | inr other ↦ AllValues-lookup k d h.1 (rw other at e)
  ]

module _ (P : Source → Type 0) where
  All-place : (s : Source) (ss : List Source) → P s → All P ss → All P (place s ss)
  unfolding place
  All-place s [] p h = (p, tt)
  All-place s (t ∷ ts) p h = elim (Bool-cases (leb s.order_index t.order_index)) [
    | inl e ↦ rw e (p, h)
    | inr e ↦ rw e (h.0, All-place s ts p h.1)
  ]

  All-sort_by_index : (ss : List Source) → All P ss → All P (sort_by_index ss)
  unfolding sort_by_index
  All-sort_by_index [] h = tt
  All-sort_by_index (s ∷ ss) h = All-place s (sort_by_index ss) h.0 (All-sort_by_index ss h.1)

module _ (w : World) (root : Text) (d : ℕ) where
  -- What is fetched names a source that takes part, is of the source's kind, and is what the
  -- fetch of its URL gives.
  abbrev pub IsFetched : Outcome → Type 0
  IsFetched (external s uris error) =
      Supplied w root d s
      × (is_external s ≡ true)
      × ((refresh : Bool) × (fetch_external_source w s refresh ≡ external s uris error))
  IsFetched (internal s comments error) = Supplied w root d s × (is_internal s ≡ true)

  pub eligible-Supplied :
      {token : Text} (sub : Subscription)
      → Reaches w root d token
      → w.get_by_token token ≡ some sub
      → All (Supplied w root d) (eligible_sources d sub)
  unfolding eligible_sources
  eligible-Supplied sub r e =
      All-sort_by_index (Supplied w root d) (keep_if (is_eligible d) sub.sources) (
        All-mono _ _ (λ s h. supplied r e h.0 h.1) _
          (All-keep_if (λ s. Memᴰ s sub.sources) (is_eligible d) sub.sources
            (All-of_Memᴰ _ sub.sources (λ s m. m))))

  keyed-IsFetched :
      (outcomes : List Outcome) → All IsFetched outcomes → AllValues IsFetched (keyed outcomes)
  keyed-IsFetched [] h = tt
  keyed-IsFetched (o ∷ os) h = (h.0, keyed-IsFetched os h.1)

  -- The fetch of a source gives an outcome of that source.
  fetched-external :
      (s : Source) (refresh : Bool)
      → (uris : List Text) × (error : Bool) × (fetch_external_source w s refresh
          ≡ external s uris error)
  unfolding fetch_external_source
  fetched-external s refresh = elim (Option-cases (filled s.external_url)) [
    | inl e ↦ ([], false, rw e refl)
    | inr (url, e) ↦ elim (Option-cases (w.get_or_fetch url refresh)) [
      | inl f ↦ ([], true, rw e (rw f refl))
      | inr (none, f) ↦ ([], false, rw e (rw f refl))
      | inr (some c, f) ↦ (parse_subscription_content w.b64decode c, false, rw e (rw f refl))
    ]
  ]

  external-IsFetched :
      (s : Source) (refresh : Bool)
      → Supplied w root d s × (is_external s ≡ true)
      → IsFetched (fetch_external_source w s refresh)
  external-IsFetched s refresh h =
      let (uris, error, e) = fetched-external s refresh in
      subst IsFetched (sym e) (h.0, h.1, (refresh, e))

  internal-IsFetched :
      (s : Source)
      → Supplied w root d s × (is_internal s ≡ true)
      → IsFetched (fetch_internal_source_comments w s)
  unfolding fetch_internal_source_comments
  internal-IsFetched s h = elim (Option-cases (filled s.internal_token)) [
    | inl e ↦ rw e h
    | inr (token, e) ↦ rw e (elim (Option-cases (w.get_all_for_subscription token)) [
      | inl f ↦ rw f h
      | inr (rows, f) ↦ rw f h
    ])
  ]

  pub fetch_all-IsFetched :
      (ss : List Source) → All (Supplied w root d) ss → AllValues IsFetched (fetch_all w ss)
  unfolding fetch_all
  fetch_all-IsFetched ss h =
      let ext = keep_if is_external ss in
      AllValues-dict_from IsFetched [] _ tt (
        keyed-IsFetched _ (
          All-append IsFetched _ _
            (All-map IsFetched (λ s. fetch_external_source w s (should_refresh w ext s)) ext
              (All-mono _ _ (λ s. external-IsFetched s (should_refresh w ext s)) ext
                (All-keep_if (Supplied w root d) is_external ss h)))
            (All-map IsFetched (fetch_internal_source_comments w) (keep_if is_internal ss) (
              All-mono _ _ internal-IsFetched (keep_if is_internal ss)
                (All-keep_if (Supplied w root d) is_internal ss h)))))
