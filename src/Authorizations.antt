-- ===== src/Authorizations.antt =====
-- src/v2hub_api/services/provider_authorization_service.py over
-- db/repositories/provider_authorization_repository.py: which providers may act for which users.
-- The table is the list of its rows; the pair of hashes is its primary key, so an update or a
-- delete of a row concerns the first row with its key.
pub mod Rows
mod Quota
pub mod Access
mod Lifecycle
mod Tests
use v2hub_api.Base.{
  ℕ, zero, suc, Bool, true, false, ◌&&◌, Option, none, some, List, [], ◌∷◌, ◌++◌, map, Text,
  text_eq, keep_if, length, leb, if◌then◌else◌, Result, ok, err,
}
use v2hub_api.Base.Strings.{is_some}
use v2hub_api.Enums.{ProviderAuthorizationStatus, pending, approved, revoked}
use v2hub_api.Models.{Subscription}

pub record Authorization : Type 0 where
  pub provider_hash : Text
  pub user_hash : Text
  pub status : ProviderAuthorizationStatus

-- `integrity_error` is the database's refusal of a second row with the same key.
pub data ServiceError : Type 0 where
  not_found authorization_error integrity_error : ServiceError
  too_many_providers : ℕ → ℕ → ServiceError

abbrev pub Table : Type 0
Table = List Authorization

abbrev pub is_approved : Authorization → Bool
is_approved a = elim a.status [ approved ↦ true | _ ↦ false ]

abbrev pub is_revoked : Authorization → Bool
is_revoked a = elim a.status [ revoked ↦ true | _ ↦ false ]

abbrev pub is_of : Text → Text → Authorization → Bool
is_of provider user a = text_eq a.provider_hash provider && text_eq a.user_hash user

-- the repository
unfoldable pub get_by_hash : Text → Text → Table → Option Authorization
get_by_hash provider user [] = none
get_by_hash provider user (a ∷ rows) =
    if is_of provider user a then some a else get_by_hash provider user rows

unfoldable pub get_approved : Text → Text → Table → Option Authorization
get_approved provider user [] = none
get_approved provider user (a ∷ rows) =
    if is_of provider user a && is_approved a then some a else get_approved provider user rows

pub is_approved_by : Text → Authorization → Bool
is_approved_by user a = text_eq a.user_hash user && is_approved a

pub is_approved_for : Text → Authorization → Bool
is_approved_for provider a = text_eq a.provider_hash provider && is_approved a

unfoldable pub get_approved_provider_hashes : Text → Table → List Text
unfolding is_approved_by
get_approved_provider_hashes user rows =
    map (λ a. a.provider_hash) (keep_if (is_approved_by user) rows)

pub get_user_approved_providers_count : Text → Table → ℕ
unfolding is_approved_by
get_user_approved_providers_count user rows = length (keep_if (is_approved_by user) rows)

pub get_approved_user_hashes : Text → Table → List Text
unfolding is_approved_for
get_approved_user_hashes provider rows =
    map (λ a. a.user_hash) (keep_if (is_approved_for provider) rows)

pub get_provider_approved_users_count : Text → Table → ℕ
unfolding is_approved_for
get_provider_approved_users_count provider rows = length (keep_if (is_approved_for provider) rows)

pub get_all_for_user : Text → Table → Table
get_all_for_user user rows = keep_if (λ a. text_eq a.user_hash user) rows

pub get_all_for_provider : Text → Table → Table
get_all_for_provider provider rows = keep_if (λ a. text_eq a.provider_hash provider) rows

unfoldable pub set_status : Text → Text → ProviderAuthorizationStatus → Table → Table
set_status provider user status [] = []
set_status provider user status (a ∷ rows) =
    if is_of provider user a
    then record a { status = status } ∷ rows
    else a ∷ set_status provider user status rows

pub delete_row : Text → Text → Table → Table
delete_row provider user [] = []
delete_row provider user (a ∷ rows) =
    if is_of provider user a then rows else a ∷ delete_row provider user rows

create_checked :
    Option Authorization → Authorization → Table → Result ServiceError Authorization × Table
create_checked (some old) a rows = (err integrity_error, rows)
create_checked none a rows = (ok a, rows ++ a ∷ [])

pub create : Authorization → Table → Result ServiceError Authorization × Table
unfolding create_checked
create a rows = create_checked (get_by_hash a.provider_hash a.user_hash rows) a rows

-- the service; an omitted status falls back to the column's default
abbrev pub default_status : Option ProviderAuthorizationStatus → ProviderAuthorizationStatus
default_status none = pending
default_status (some status) = status

pub add_authorization :
    Text
    → Text
    → Option ProviderAuthorizationStatus
    → Table
    → Result ServiceError Authorization × Table
unfolding create
add_authorization provider user status rows =
    create (record { provider_hash = provider; user_hash = user; status = default_status status })
      rows

abbrev is_created_by : Text → Text → Subscription → Bool
is_created_by provider user sub =
    elim sub.provider_hash [ none ↦ false | some p ↦ text_eq p provider ]
    && text_eq sub.user_hash user

-- `SubscriptionRepository.delete_by_provider`
pub delete_by_provider : Text → Text → List Subscription → List Subscription
delete_by_provider provider user [] = []
delete_by_provider provider user (sub ∷ subs) =
    if is_created_by provider user sub
    then delete_by_provider provider user subs
    else sub ∷ delete_by_provider provider user subs

delete_found :
    Option Authorization
    → Text
    → Text
    → Table
    → List Subscription
    → Result ServiceError (Unit {0}) × Table × List Subscription
delete_found none provider user rows subs = (err not_found, rows, subs)
delete_found (some a) provider user rows subs =
    (ok tt, delete_row provider user rows, delete_by_provider provider user subs)

pub delete_authorization :
    Text
    → Text
    → Table
    → List Subscription
    → Result ServiceError (Unit {0}) × Table × List Subscription
unfolding delete_found
delete_authorization provider user rows subs =
    delete_found (get_by_hash provider user rows) provider user rows subs

pub reinitialize_authorization : Authorization → Table → Authorization × Table
reinitialize_authorization a rows =
    (record a { status = pending }, set_status a.provider_hash a.user_hash pending rows)

module _ (max_providers_per_user : ℕ) where
  over_quota : Text → Table → Bool
  over_quota user rows = leb max_providers_per_user (get_user_approved_providers_count user rows)

  quota_error : Text → Table → ServiceError
  quota_error user rows =
      too_many_providers (get_user_approved_providers_count user rows) max_providers_per_user

  grant_found :
      Option Authorization → Text → Text → Table → Result ServiceError Authorization × Table
  unfolding over_quota quota_error
  grant_found none provider user rows =
      if over_quota user rows
      then (err (quota_error user rows), rows)
      else create (record { provider_hash = provider; user_hash = user; status = approved }) rows
  grant_found (some a) provider user rows =
      if is_approved a
      then (ok a, rows)
      else (if over_quota user rows
          then (err (quota_error user rows), rows)
          else (ok (record a { status = approved }), set_status provider user approved rows))

  pub grant : Text → Text → Table → Result ServiceError Authorization × Table
  unfolding grant_found
  grant provider user rows = grant_found (get_by_hash provider user rows) provider user rows

revoke_found :
    Option Authorization → Text → Text → Table → Result ServiceError Authorization × Table
revoke_found none provider user rows = (err not_found, rows)
revoke_found (some a) provider user rows =
    if is_revoked a
    then (ok a, rows)
    else (ok (record a { status = revoked }), set_status provider user revoked rows)

unfoldable pub revoke : Text → Text → Table → Result ServiceError Authorization × Table
unfolding revoke_found
revoke provider user rows = revoke_found (get_by_hash provider user rows) provider user rows

abbrev pub or_error : Option Authorization → Result ServiceError Authorization
or_error none = err authorization_error
or_error (some a) = ok a

unfoldable pub require_authorized : Text → Text → Table → Result ServiceError Authorization
require_authorized provider user rows = or_error (get_approved provider user rows)

unfoldable pub is_authorized : Text → Text → Table → Bool
is_authorized provider user rows = is_some (get_approved provider user rows)

abbrev status_of : Option Authorization → Result ServiceError ProviderAuthorizationStatus
status_of none = err authorization_error
status_of (some a) = ok a.status

pub get_status : Text → Text → Table → Result ServiceError ProviderAuthorizationStatus
get_status provider user rows = status_of (get_by_hash provider user rows)
