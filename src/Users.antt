-- ===== src/Users.antt =====
-- src/v2hub_api/services/user_service.py over db/repositories/user_repository.py: the accounts of
-- users. The table refuses a second row with the same hash, user id or token; the generated hashes
-- and tokens are arguments. A user id is a natural number.
mod Unique
mod Tokens
mod Creation
mod Activity
mod Tests
use v2hub_api.Base.{
  ℕ, ◌==◌, Bool, true, false, not, ◌&&◌, ◌||◌, Option, none, some, List, [], ◌∷◌, ◌++◌, Text,
  text_eq, if◌then◌else◌, Result, ok, err,
}
use v2hub_api.Base.Strings.{is_some}
use v2hub_api.Base.Tables.{find, replace, remove}

pub record User : Type 0 where
  pub user_hash : Text
  pub user_id : ℕ
  pub api_token : Text
  pub is_active : Bool

-- `validation_error` where a user exists already, or is to be deleted and does not exist;
-- `integrity_error` is the database's refusal of a row.
pub data UserError : Type 0 where
  validation_error not_found : ℕ → UserError
  invalid_token no_user inactive integrity_error : UserError

abbrev pub Users : Type 0
Users = List User

-- the repository
abbrev pub has_hash : Text → User → Bool
has_hash user_hash u = text_eq u.user_hash user_hash

abbrev pub has_id : ℕ → User → Bool
has_id user_id u = u.user_id == user_id

abbrev pub has_token : Text → User → Bool
has_token api_token u = text_eq u.api_token api_token

unfoldable pub get_by_hash : Text → Users → Option User
get_by_hash user_hash users = find (has_hash user_hash) users

unfoldable pub get_by_user_id : ℕ → Users → Option User
get_by_user_id user_id users = find (has_id user_id) users

unfoldable pub get_by_api_token : Text → Users → Option User
get_by_api_token api_token users = find (has_token api_token) users

-- whether the table cannot hold both rows
abbrev pub clashes : User → User → Bool
clashes new u = has_hash new.user_hash u || has_id new.user_id u || has_token new.api_token u

abbrev pub clashes_with_other : User → User → Bool
clashes_with_other new u = not (has_hash new.user_hash u) && clashes new u

unfoldable pub insert_user : User → Users → Result UserError User × Users
insert_user new users =
    if is_some (find (clashes new) users)
    then (err integrity_error, users)
    else (ok new, users ++ new ∷ [])

unfoldable pub update_user : User → Users → Result UserError User × Users
update_user new users =
    if is_some (find (clashes_with_other new) users)
    then (err integrity_error, users)
    else (ok new, replace (has_hash new.user_hash) new users)

-- the service
unfoldable pub create_missing :
    Option User → Text → ℕ → Text → Users → Result UserError User × Users
create_missing (some existing) user_hash user_id api_token users =
    (err (validation_error user_id), users)
create_missing none user_hash user_id api_token users =
    insert_user
      (record { user_hash = user_hash; user_id = user_id; api_token = api_token; is_active = true })
      users

unfoldable pub create_user : Text → ℕ → Text → Users → Result UserError User × Users
unfolding create_missing
create_user user_hash user_id api_token users =
    create_missing (get_by_user_id user_id users) user_hash user_id api_token users

unfoldable pub or_error : {A : Type 0} → UserError → Option A → Result UserError A
or_error e none = err e
or_error e (some a) = ok a

unfoldable pub get_user : ℕ → Users → Result UserError User
get_user user_id users = or_error (not_found user_id) (get_by_user_id user_id users)

-- what is done with the user of an id, if there is one
unfoldable pub with_user :
    {A : Type 0}
    → UserError
    → (User → Users → Result UserError A × Users)
    → ℕ
    → Users
    → Result UserError A × Users
with_user e change user_id users = elim (get_by_user_id user_id users) [
  | none ↦ (err e, users)
  | some u ↦ change u users
]

abbrev pub is_already : Bool → Bool → Bool
is_already true active = active
is_already false active = not active

unfoldable pub change_active : Bool → User → Users → Result UserError User × Users
change_active active u users =
    if is_already active u.is_active
    then (ok u, users)
    else update_user (record u { is_active = active }) users

unfoldable pub set_active : ℕ → Bool → Users → Result UserError User × Users
set_active user_id active users = with_user (not_found user_id) (change_active active) user_id users

unfoldable pub delete_found : User → Users → Result UserError (Unit {0}) × Users
delete_found u users = (ok tt, remove (has_hash u.user_hash) users)

unfoldable pub delete_user : ℕ → Users → Result UserError (Unit {0}) × Users
delete_user user_id users = with_user (validation_error user_id) delete_found user_id users

abbrev pub answer_token : Text → Result UserError User × Users → Result UserError Text × Users
answer_token token (ok u, users) = (ok token, users)
answer_token token (err e, users) = (err e, users)

unfoldable pub refresh_found : Text → User → Users → Result UserError Text × Users
refresh_found token u users =
    answer_token token (update_user (record u { api_token = token }) users)

unfoldable pub refresh_token : ℕ → Text → Users → Result UserError Text × Users
refresh_token user_id token users =
    with_user (not_found user_id) (refresh_found token) user_id users

unfoldable pub check_active : User → Result UserError User
check_active u = if u.is_active then ok u else err inactive

abbrev pub authenticated : UserError → Option User → Result UserError User
authenticated e none = err e
authenticated e (some u) = check_active u

unfoldable pub authenticate_user : Text → Users → Result UserError User
authenticate_user api_token users = authenticated invalid_token (get_by_api_token api_token users)

unfoldable pub authenticate_user_by_id : ℕ → Users → Result UserError User
authenticate_user_by_id user_id users = authenticated no_user (get_by_user_id user_id users)

unfoldable pub deactivate_user : ℕ → Users → Result UserError User × Users
deactivate_user user_id users =
    with_user (not_found user_id) (λ u. update_user (record u { is_active = false })) user_id users

unfoldable pub activate_user : ℕ → Users → Result UserError User × Users
activate_user user_id users =
    with_user (not_found user_id) (λ u. update_user (record u { is_active = true })) user_id users
