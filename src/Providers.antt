-- ===== src/Providers.antt =====
-- src/v2hub_api/services/provider_service.py over db/repositories/provider_repository.py: the accounts
-- of providers, and whom a provider acts for. The table refuses a second row with the same hash,
-- owner, name or token, and a row whose owner is no user; generated hashes and tokens are arguments.
mod Unique
mod Names
mod Managed
mod Tests
use v2hub_api.Base.{
  ℕ, Bool, true, false, not, ◌&&◌, ◌||◌, Option, none, some, List, [], ◌∷◌, ◌++◌, Text, text_eq,
  take, if◌then◌else◌, Result, ok, err,
}
use v2hub_api.Base.Strings.{is_some}
use v2hub_api.Base.Tables.{find, replace, remove}
use v2hub_api.Users.{User, Users, get_by_user_id, is_already}
use v2hub_api.Users as Accounts
use v2hub_api.Authorizations.{Authorization, Table, ServiceError, require_authorized}

pub record Provider : Type 0 where
  pub provider_hash : Text
  pub owner_hash : Text
  pub provider_name : Text
  pub api_token : Text
  pub provider_url : Option Text
  pub is_active : Bool

-- `integrity_error` is the database's refusal of a row, `refused` an error of the authorization.
pub data ProviderError : Type 0 where
  validation_error not_found duplicate_name invalid_token inactive integrity_error no_user :
      ProviderError
  refused : ServiceError → ProviderError

abbrev pub Providers : Type 0
Providers = List Provider

-- the repository
abbrev pub has_hash : Text → Provider → Bool
has_hash provider_hash p = text_eq p.provider_hash provider_hash

abbrev pub has_owner : Text → Provider → Bool
has_owner owner_hash p = text_eq p.owner_hash owner_hash

abbrev pub has_name : Text → Provider → Bool
has_name provider_name p = text_eq p.provider_name provider_name

abbrev pub has_token : Text → Provider → Bool
has_token api_token p = text_eq p.api_token api_token

unfoldable pub get_by_hash : Text → Providers → Option Provider
get_by_hash provider_hash providers = find (has_hash provider_hash) providers

unfoldable pub get_by_owner_hash : Text → Providers → Option Provider
get_by_owner_hash owner_hash providers = find (has_owner owner_hash) providers

unfoldable pub get_by_name : Text → Providers → Option Provider
get_by_name provider_name providers = find (has_name provider_name) providers

unfoldable pub get_by_api_token : Text → Providers → Option Provider
get_by_api_token api_token providers = find (has_token api_token) providers

-- whether the table cannot hold both rows
abbrev pub clashes : Provider → Provider → Bool
clashes new p =
    has_hash new.provider_hash p
    || has_owner new.owner_hash p
    || has_name new.provider_name p
    || has_token new.api_token p

abbrev pub clashes_with_other : Provider → Provider → Bool
clashes_with_other new p = not (has_hash new.provider_hash p) && clashes new p

unfoldable pub insert_provider :
    Users → Provider → Providers → Result ProviderError Provider × Providers
insert_provider users new providers =
    if is_some (find (clashes new) providers)
      || not (is_some (Accounts.get_by_hash new.owner_hash users))
    then (err integrity_error, providers)
    else (ok new, providers ++ new ∷ [])

unfoldable pub update_provider : Provider → Providers → Result ProviderError Provider × Providers
update_provider new providers =
    if is_some (find (clashes_with_other new) providers)
    then (err integrity_error, providers)
    else (ok new, replace (has_hash new.provider_hash) new providers)

-- the service
unfoldable pub create_missing :
    Option Provider → Users → Provider → Providers → Result ProviderError Provider × Providers
create_missing (some existing) users new providers = (err validation_error, providers)
create_missing none users new providers = insert_provider users new providers

-- the column's default makes a new provider active
unfoldable pub create_provider :
    Users
    → Text
    → Text
    → Text
    → Text
    → Option Text
    → Providers
    → Result ProviderError Provider × Providers
create_provider users provider_hash api_token owner_hash provider_name provider_url providers =
    create_missing (get_by_owner_hash owner_hash providers) users
      (record {
        provider_hash = provider_hash;
        owner_hash = owner_hash;
        provider_name = provider_name;
        api_token = api_token;
        provider_url = provider_url;
        is_active = true;
      })
      providers

unfoldable pub get_all_providers : Providers → Providers
get_all_providers providers = take 1000 providers

unfoldable pub or_not_found : Option Provider → Result ProviderError Provider
or_not_found none = err not_found
or_not_found (some p) = ok p

unfoldable pub get_provider : Text → Providers → Result ProviderError Provider
get_provider provider_hash providers = or_not_found (get_by_hash provider_hash providers)

-- what is done with the provider of a hash, if there is one
unfoldable pub with_provider :
    {A : Type 0}
    → (Provider → Providers → Result ProviderError A × Providers)
    → Text
    → Providers
    → Result ProviderError A × Providers
with_provider change provider_hash providers = elim (get_by_hash provider_hash providers) [
  | none ↦ (err not_found, providers)
  | some p ↦ change p providers
]

unfoldable pub change_active :
    Bool → Provider → Providers → Result ProviderError Provider × Providers
change_active active p providers =
    if is_already active p.is_active
    then (ok p, providers)
    else update_provider (record p { is_active = active }) providers

unfoldable pub set_active : Text → Bool → Providers → Result ProviderError Provider × Providers
set_active provider_hash active providers =
    with_provider (change_active active) provider_hash providers

unfoldable pub same_url : Option Text → Option Text → Bool
same_url none none = true
same_url none (some t) = false
same_url (some s) none = false
same_url (some s) (some t) = text_eq s t

unfoldable pub change_url :
    Option Text → Provider → Providers → Result ProviderError Provider × Providers
change_url provider_url p providers =
    if same_url p.provider_url provider_url
    then (ok p, providers)
    else update_provider (record p { provider_url = provider_url }) providers

unfoldable pub update_provider_url :
    Text → Option Text → Providers → Result ProviderError Provider × Providers
update_provider_url provider_hash provider_url providers =
    with_provider (change_url provider_url) provider_hash providers

unfoldable pub change_name : Text → Provider → Providers → Result ProviderError Provider × Providers
change_name provider_name p providers =
    if text_eq p.provider_name provider_name
    then (ok p, providers)
    else (if is_some (get_by_name provider_name providers)
        then (err duplicate_name, providers)
        else update_provider (record p { provider_name = provider_name }) providers)

unfoldable pub update_provider_name :
    Text → Text → Providers → Result ProviderError Provider × Providers
update_provider_name provider_hash provider_name providers =
    with_provider (change_name provider_name) provider_hash providers

unfoldable pub delete_found : Provider → Providers → Result ProviderError (Unit {0}) × Providers
delete_found p providers = (ok tt, remove (has_hash p.provider_hash) providers)

unfoldable pub delete_provider : Text → Providers → Result ProviderError (Unit {0}) × Providers
delete_provider provider_hash providers = with_provider delete_found provider_hash providers

abbrev pub answer_token :
    Text → Result ProviderError Provider × Providers → Result ProviderError Text × Providers
answer_token token (ok p, providers) = (ok token, providers)
answer_token token (err e, providers) = (err e, providers)

unfoldable pub refresh_found : Text → Provider → Providers → Result ProviderError Text × Providers
refresh_found token p providers =
    answer_token token (update_provider (record p { api_token = token }) providers)

unfoldable pub refresh_provider_token :
    Text → Text → Providers → Result ProviderError Text × Providers
refresh_provider_token provider_hash token providers =
    with_provider (refresh_found token) provider_hash providers

unfoldable pub authenticated : Option Provider → Result ProviderError Provider
authenticated none = err invalid_token
authenticated (some p) = if p.is_active then ok p else err inactive

unfoldable pub authenticate_provider : Text → Providers → Result ProviderError Provider
authenticate_provider api_token providers = authenticated (get_by_api_token api_token providers)

unfoldable pub deactivate_provider : Text → Providers → Result ProviderError Provider × Providers
deactivate_provider provider_hash providers = set_active provider_hash false providers

unfoldable pub activate_provider : Text → Providers → Result ProviderError Provider × Providers
activate_provider provider_hash providers = set_active provider_hash true providers

unfoldable pub managed_hash : User → Result ServiceError Authorization → Result ProviderError Text
managed_hash u (err e) = err (refused e)
managed_hash u (ok a) = ok u.user_hash

unfoldable pub managed_user : Provider → Table → Option User → Result ProviderError Text
managed_user p rows none = err no_user
managed_user p rows (some u) = managed_hash u (require_authorized p.provider_hash u.user_hash rows)

unfoldable pub resolve_managed_user_hash : Provider → ℕ → Users → Table → Result ProviderError Text
resolve_managed_user_hash p user_id users rows = managed_user p rows (get_by_user_id user_id users)
