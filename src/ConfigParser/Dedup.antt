-- ===== src/ConfigParser/Dedup.antt =====
-- config_parser.py, `deduplicate_configs`: which configs the loop keeps.
use v2hub_api.Base.{
  ◌≡◌, refl, sym, ◌∙◌, inl, inr, true, ◌||◌, List, [], ◌∷◌, ◌++◌, map, append-nil, append_assoc,
  Text, arith, Bool-cases, if◌then◌else◌, has, has-snoc, text_eq_self, Distinct, Distinct-snoc,
  Memᴰ, Memᴰ-cons, not-Memᴰ-nil, Sublistᴰ,
}
use v2hub_api.ConfigParser.{get_config_hash, dedup_from, deduplicate_configs}

module _ (blake2b : Text → Text) where
  -- The configs that the loop will add, once it has seen the given hashes.
  pub firsts : List Text → List Text → List Text
  firsts seen [] = []
  firsts seen (config ∷ configs) =
      let h = get_config_hash blake2b config in
      let old = firsts seen configs in
      let new = config ∷ firsts (seen ++ h ∷ []) configs in if has seen h then old else new

  dedup_from-eq-firsts :
      (seen unique configs : List Text)
      → dedup_from blake2b seen unique configs ≡ unique ++ firsts seen configs
  unfolding dedup_from firsts
  dedup_from-eq-firsts seen unique [] = sym (append-nil unique)
  dedup_from-eq-firsts seen unique (c ∷ cs) =
      elim (Bool-cases (has seen (get_config_hash blake2b c))) [
        | inl old ↦ rw old (dedup_from-eq-firsts seen unique cs)
        | inr new ↦ rw new (
            dedup_from-eq-firsts (seen ++ get_config_hash blake2b c ∷ []) (unique ++ c ∷ []) cs
            ∙ append_assoc unique (c ∷ []) (firsts (seen ++ get_config_hash blake2b c ∷ []) cs))
      ]

  abbrev hashes : List Text → List Text
  hashes = map (get_config_hash blake2b)

  Distinct-firsts :
      (seen configs : List Text) → Distinct seen → Distinct (seen ++ hashes (firsts seen configs))
  unfolding firsts
  Distinct-firsts seen [] d = rw append-nil d
  Distinct-firsts seen (c ∷ cs) d = elim (Bool-cases (has seen (get_config_hash blake2b c))) [
    | inl old ↦ rw old (Distinct-firsts seen cs d)
    | inr new ↦ rw new (
        rw append_assoc at (
          Distinct-firsts (seen ++ get_config_hash blake2b c ∷ []) cs
            (Distinct-snoc seen (get_config_hash blake2b c) d new)))
  ]

  -- every hash of the configs is seen, or kept
  has-firsts :
      (seen configs : List Text) (config : Text)
      → Memᴰ config configs
      → (has seen (get_config_hash blake2b config)
          || has (hashes (firsts seen configs)) (get_config_hash blake2b config))
        ≡ true
  unfolding firsts has
  has-firsts seen [] config m = absurd (not-Memᴰ-nil config m)
  has-firsts seen (c ∷ cs) config m =
      let h = get_config_hash blake2b c in
      ground (
        arith,
        (Memᴰ-cons config c cs).0 m,
        has-firsts seen cs config,
        has-firsts (seen ++ h ∷ []) cs config,
        has-snoc seen h (get_config_hash blake2b config),
        text_eq_self h,
      )

  Sublistᴰ-firsts : (seen configs : List Text) → Sublistᴰ (firsts seen configs) configs
  unfolding firsts
  Sublistᴰ-firsts seen [] = Sublistᴰ.slnil
  Sublistᴰ-firsts seen (c ∷ cs) = elim (Bool-cases (has seen (get_config_hash blake2b c))) [
    | inl old ↦ rw old (Sublistᴰ.cons (Sublistᴰ-firsts seen cs))
    | inr new ↦
        rw new
          (Sublistᴰ.cons-cons refl (Sublistᴰ-firsts (seen ++ get_config_hash blake2b c ∷ []) cs))
  ]

  -- The result of `deduplicate_configs` is a subsequence of the configs (so their order is kept),
  -- no two of it have the same hash, and every config's hash is the hash of a kept one.
  pub deduplicate_configs_correct :
      (configs : List Text)
      → let out = deduplicate_configs blake2b configs in
        Sublistᴰ out configs
        × Distinct (map (get_config_hash blake2b) out)
        × ((c : Text)
            → Memᴰ c configs
            → has (map (get_config_hash blake2b) out) (get_config_hash blake2b c) ≡ true)
  unfolding deduplicate_configs has
  deduplicate_configs_correct configs =
      rw (dedup_from-eq-firsts [] [] configs)
        (Sublistᴰ-firsts [] configs, Distinct-firsts [] configs tt, has-firsts [] configs)
