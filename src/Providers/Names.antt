-- ===== src/Providers/Names.antt =====
-- provider_service.py, `update_provider_name`, on every branch.
use v2hub_api.Base.{
  ne_of_text_eq, ◌≡◌, ◌≢◌, refl, sym, ap, ◌∙◌, inl, inr, ◌⊎◌, true, false, none, some, Text,
  text_eq, text_eq_iff, text_eq_self, Result, ok, err, arith, Bool-cases, Option-cases, Memᴰ,
}
use v2hub_api.Base.Tables.{find, find-some, find-none, find-only, find-missing}
use v2hub_api.Base.Keys.{replaced-found}
use v2hub_api.Providers.{
  Provider, Providers, ProviderError, not_found, duplicate_name, has_hash, has_name, clashes,
  clashes_with_other, update_provider, get_by_hash, get_by_name, with_provider, change_name,
  update_provider_name,
}
use v2hub_api.Providers.Unique.{IsUnique, same_hash}

-- What a change of `p`'s name to `name` gives: the provider with the name, which is then found by it,
-- or the error that another provider has the name, and no change.
abbrev pub Named : Text → Provider → Providers → Result ProviderError Provider × Providers → Type 0
Named name p providers (ok q, providers') =
    (q ≡ record p { provider_name = name }) × (get_by_name name providers' ≡ some q)
Named name p providers (err e, providers') =
    (e ≡ duplicate_name)
    × (providers' ≡ providers)
    × (p.provider_name ≢ name)
    × ((other : Provider) × Memᴰ other providers × (other.provider_name ≡ name))

-- the new name of a row clashes with no other row
free_name :
    (name : Text) (p : Provider) (providers : Providers)
    → IsUnique providers
    → Memᴰ p providers
    → get_by_name name providers ≡ none
    → find (clashes_with_other (record p { provider_name = name })) providers ≡ none
unfolding get_by_name
free_name name p providers unique m free =
    find-missing (clashes_with_other (record p { provider_name = name })) providers (λ q mq.
      let unnamed : has_name name q ≡ false = find-none (has_name name) providers q free mq in
      elim (Bool-cases (clashes p q)) [
        | inr apart ↦ ground arith
        | inl clash ↦
            let same : p ≡ q = unique p q m mq clash in
            let hit : has_hash p.provider_hash q ≡ true =
              ap (has_hash p.provider_hash) (sym same) ∙ text_eq_self p.provider_hash in
            ground arith
      ])

change_name-Named :
    (name : Text) (p : Provider) (providers : Providers)
    → IsUnique providers
    → Memᴰ p providers
    → Named name p providers (change_name name p providers)
unfolding change_name update_provider get_by_name
change_name-Named name p providers unique m = elim (Bool-cases (text_eq p.provider_name name)) [
  | inl same ↦ rw same (
    ap (λ n. record p { provider_name = n }) ((text_eq_iff p.provider_name name).0 same),
    find-only (has_name name) providers p m same (λ q mq h. sym (
        unique p q m mq (
          ground (
            arith,
            text_eq_iff p.provider_name name,
            text_eq_iff q.provider_name name,
            text_eq_iff q.provider_name p.provider_name,
          )))),
  )
  | inr new ↦ elim (Option-cases (get_by_name name providers)) [
    | inr (other, taken) ↦
        let (mo, ho) = find-some (has_name name) providers other taken in
        rw new (
          rw taken (
            refl,
            refl,
            ne_of_text_eq p.provider_name name new,
            (other, mo, (text_eq_iff other.provider_name name).0 ho),
          ))
    | inl free ↦
        let named = record p { provider_name = name } in
        let room = free_name name p providers unique m free in
        rw new (
          rw free (
            rw room (
              refl,
              replaced-found same_hash clashes (has_name name) named p providers room m
                  (text_eq_self p.provider_hash) (text_eq_self name) (λ q h. ground arith),
            )))
  ]
]

-- In a table with unique keys: an unknown provider is an error and changes nothing; a known one gets
-- the name, unless another provider has it. The database never refuses the row.
pub update_provider_name-Named :
    (hash name : Text) (providers : Providers)
    → IsUnique providers
    → ((get_by_hash hash providers ≡ none)
        × (update_provider_name hash name providers ≡ (err not_found, providers)))
      ⊎ ((p : Provider) × (get_by_hash hash providers ≡ some p)
          × Named name p providers (update_provider_name hash name providers))
unfolding update_provider_name with_provider get_by_hash
update_provider_name-Named hash name providers unique =
    elim (Option-cases (get_by_hash hash providers)) [
      | inl missing ↦ inl (missing, rw (with_provider, missing) refl)
      | inr (p, found) ↦ inr (
        p,
        found,
        rw (with_provider, found)
            (change_name-Named name p providers unique
              (find-some (has_hash hash) providers p found).0),
      )
    ]
