-- ===== src/Providers/Unique.antt =====
-- provider_service.py: hashes, owners, names and tokens stay unique under every operation.
use v2hub_api.Base.{
  ◌≡◌, refl, sym, subst, inl, inr, Bool, true, false, Option, none, some, Text, text_eq,
  text_eq_iff, if◌then◌else◌, Result, ok, err, arith, Bool-cases, Option-cases,
}
use v2hub_api.Base.Strings.{is_some}
use v2hub_api.Base.Tables.{find}
use v2hub_api.Base.Keys.{OneRow, append-OneRow, replace-OneRow, remove-OneRow}
use v2hub_api.Users.{Users, is_already}
use v2hub_api.Users as Accounts
use v2hub_api.Providers.{
  Provider, Providers, ProviderError, has_hash, clashes, clashes_with_other, insert_provider,
  update_provider, get_by_hash, get_by_owner_hash, get_by_name, create_missing, create_provider,
  with_provider, change_active, set_active, same_url, change_url, update_provider_url, change_name,
  update_provider_name, delete_found, delete_provider, answer_token, refresh_found,
  refresh_provider_token,
}

-- whether the second provider has the hash of the first
abbrev pub same_hash : Provider → Provider → Bool
same_hash a b = has_hash a.provider_hash b

-- Rows that share a hash, an owner, a name or a token are one row.
abbrev pub IsUnique : Providers → Type 0
IsUnique providers = OneRow same_hash clashes providers

pub clashes_sym : (p q : Provider) → clashes p q ≡ true → clashes q p ≡ true
clashes_sym p q h = ground (
  arith,
  text_eq_iff q.provider_hash p.provider_hash,
  text_eq_iff p.provider_hash q.provider_hash,
  text_eq_iff q.owner_hash p.owner_hash,
  text_eq_iff p.owner_hash q.owner_hash,
  text_eq_iff q.provider_name p.provider_name,
  text_eq_iff p.provider_name q.provider_name,
  text_eq_iff q.api_token p.api_token,
  text_eq_iff p.api_token q.api_token,
)

insert_provider-IsUnique :
    (users : Users) (new : Provider) (providers : Providers)
    → IsUnique providers
    → IsUnique (insert_provider users new providers).1
unfolding insert_provider
insert_provider-IsUnique users new providers unique =
    elim (Option-cases (find (clashes new) providers)) [
      | inr (old, e) ↦ rw e unique
      | inl free ↦
          rw free (elim (Bool-cases (is_some (Accounts.get_by_hash new.owner_hash users))) [
            | inl owner ↦
                rw owner (append-OneRow same_hash clashes new providers clashes_sym free unique)
            | inr nobody ↦ rw nobody unique
          ])
    ]

update_provider-IsUnique :
    (new : Provider) (providers : Providers)
    → IsUnique providers
    → IsUnique (update_provider new providers).1
unfolding update_provider
update_provider-IsUnique new providers unique =
    elim (Option-cases (find (clashes_with_other new) providers)) [
      | inr (old, e) ↦ rw e unique
      | inl free ↦ rw free (replace-OneRow same_hash clashes new providers clashes_sym free unique)
    ]

create_missing-IsUnique :
    (existing : Option Provider) (users : Users) (new : Provider) (providers : Providers)
    → IsUnique providers
    → IsUnique (create_missing existing users new providers).1
unfolding create_missing
create_missing-IsUnique (some old) users new providers unique = unique
create_missing-IsUnique none users new providers unique =
    insert_provider-IsUnique users new providers unique

with_provider-IsUnique :
    {A : Type 0} (change : Provider → Providers → Result ProviderError A × Providers) (hash : Text)
    (providers : Providers)
    → ((p : Provider) → IsUnique (change p providers).1)
    → IsUnique providers
    → IsUnique (with_provider change hash providers).1
unfolding with_provider
with_provider-IsUnique change hash providers keeps unique =
    elim (Option-cases (get_by_hash hash providers)) [
      | inl missing ↦ rw (with_provider, missing) unique
      | inr (p, found) ↦ rw (with_provider, found) (keeps p)
    ]

-- A change that is made unless it is one already.
abbrev if_new : Bool → Provider → Provider → Providers → Result ProviderError Provider × Providers
if_new done p new providers = if done then (ok p, providers) else update_provider new providers

if_new-IsUnique :
    (done : Bool) (p new : Provider) (providers : Providers)
    → IsUnique providers
    → IsUnique (if_new done p new providers).1
if_new-IsUnique true p new providers unique = unique
if_new-IsUnique false p new providers unique = update_provider-IsUnique new providers unique

change_name-IsUnique :
    (name : Text) (p : Provider) (providers : Providers)
    → IsUnique providers
    → IsUnique (change_name name p providers).1
unfolding change_name
change_name-IsUnique name p providers unique = elim (Bool-cases (text_eq p.provider_name name)) [
  | inl same ↦ rw same unique
  | inr new ↦ rw new (elim (Bool-cases (is_some (get_by_name name providers))) [
    | inl taken ↦ rw taken unique
    | inr free ↦ rw free (update_provider-IsUnique _ providers unique)
  ])
]

answer_token-providers :
    (token : Text) (r : Result ProviderError Provider × Providers) → (answer_token token r).1 ≡ r.1
answer_token-providers token (ok p, providers) = refl
answer_token-providers token (err e, providers) = refl

-- The operations of the service that change the table; `creating` has the generated hash and token.
pub data Operation : Type 0 where
  creating : Text → Text → Text → Text → Option Text → Operation
  setting : Text → Bool → Operation
  linking : Text → Option Text → Operation
  naming refreshing : Text → Text → Operation
  deleting : Text → Operation

abbrev pub act : Users → Operation → Providers → Providers
act users (creating hash token owner name url) providers =
    (create_provider users hash token owner name url providers).1
act users (setting hash active) providers = (set_active hash active providers).1
act users (linking hash url) providers = (update_provider_url hash url providers).1
act users (naming hash name) providers = (update_provider_name hash name providers).1
act users (refreshing hash token) providers = (refresh_provider_token hash token providers).1
act users (deleting hash) providers = (delete_provider hash providers).1

-- Every operation, also one that fails, keeps hashes, owners, names and tokens unique.
pub act-IsUnique :
    (users : Users) (op : Operation) (providers : Providers)
    → IsUnique providers
    → IsUnique (act users op providers)
unfolding create_provider set_active change_active update_provider_url change_url
    update_provider_name refresh_provider_token refresh_found delete_provider delete_found
act-IsUnique users (creating hash token owner name url) providers unique =
    create_missing-IsUnique (get_by_owner_hash owner providers) users _ providers unique
act-IsUnique users (setting hash active) providers unique =
    with_provider-IsUnique _ hash providers
      (λ p. if_new-IsUnique (is_already active p.is_active) p _ providers unique) unique
act-IsUnique users (linking hash url) providers unique =
    with_provider-IsUnique _ hash providers
      (λ p. if_new-IsUnique (same_url p.provider_url url) p _ providers unique) unique
act-IsUnique users (naming hash name) providers unique =
    with_provider-IsUnique _ hash providers (λ p. change_name-IsUnique name p providers unique)
      unique
act-IsUnique users (refreshing hash token) providers unique =
    with_provider-IsUnique _ hash providers
      (λ p.
        subst IsUnique
          (sym (
            answer_token-providers token
              (update_provider (record p { api_token = token }) providers)))
          (update_provider-IsUnique (record p { api_token = token }) providers unique))
      unique
act-IsUnique users (deleting hash) providers unique =
    with_provider-IsUnique _ hash providers
      (λ p. remove-OneRow same_hash clashes (has_hash p.provider_hash) providers unique) unique
