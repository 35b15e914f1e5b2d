-- ===== src/Users/Creation.antt =====
-- user_service.py, `create_user`: what a new account changes.
use v2hub_api.Base.{ℕ, ◌≡◌, ◌≢◌, true, ◌||◌, none, Text, Result, ok, err}
use v2hub_api.Base.Strings.{is_some}
use v2hub_api.Users.{
  User, Users, UserError, validation_error, not_found, invalid_token, no_user, inactive,
  integrity_error, get_by_hash, get_by_user_id, get_by_api_token, authenticate_user,
  authenticate_user_by_id,
}

abbrev pub new_user : Text → ℕ → Text → User
new_user hash user_id token = record {
  user_hash = hash;
  user_id = user_id;
  api_token = token;
  is_active = true;
}

-- How the creation of an account ends: the table has the new account and is else read as before, or
-- it is unchanged, because the id, or what was generated as the hash or the token, is taken.
abbrev pub Created : Text → ℕ → Text → Users → Result UserError User × Users → Type 0
Created hash user_id token users (ok u, users') =
    (get_by_user_id user_id users ≡ none)
    × (u ≡ new_user hash user_id token)
    × (authenticate_user_by_id user_id users' ≡ ok u)
    × (authenticate_user token users' ≡ ok u)
    × ((id : ℕ)
        → id ≢ user_id
        → authenticate_user_by_id id users' ≡ authenticate_user_by_id id users)
    × ((t : Text) → t ≢ token → authenticate_user t users' ≡ authenticate_user t users)
Created hash user_id token users (err (validation_error id), users') =
    (id ≡ user_id) × (is_some (get_by_user_id user_id users) ≡ true) × (users' ≡ users)
Created hash user_id token users (err integrity_error, users') =
    (get_by_user_id user_id users ≡ none)
    × ((is_some (get_by_hash hash users) || is_some (get_by_api_token token users)) ≡ true)
    × (users' ≡ users)
Created hash user_id token users (err (not_found id), users') = ⊥
Created hash user_id token users (err invalid_token, users') = ⊥
Created hash user_id token users (err no_user, users') = ⊥
Created hash user_id token users (err inactive, users') = ⊥
