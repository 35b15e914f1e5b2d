-- ===== src/Users/Unique.antt =====
-- user_service.py: hashes, user ids and tokens stay unique under every operation.
use v2hub_api.Base.{
  ℕ, ◌≡◌, refl, sym, subst, inl, inr, Bool, true, Text, text_eq_iff, Result, ok, err, arith,
  Bool-cases, Option-cases,
}
use v2hub_api.Base.Keys.{OneRow, append-OneRow, replace-OneRow, remove-OneRow}
use v2hub_api.Base.Tables.{find}
use v2hub_api.Users.{
  User, Users, UserError, has_hash, clashes, clashes_with_other, insert_user, update_user,
  get_by_user_id, create_missing, create_user, with_user, change_active, set_active, delete_found,
  delete_user, refresh_found, refresh_token, answer_token, deactivate_user, activate_user,
  is_already,
}

-- whether the second user has the hash of the first
abbrev pub same_hash : User → User → Bool
same_hash a b = has_hash a.user_hash b

-- Rows that share a hash, a user id or a token are one row.
abbrev pub IsUnique : Users → Type 0
IsUnique users = OneRow same_hash clashes users

clashes_sym : (u v : User) → clashes u v ≡ true → clashes v u ≡ true
clashes_sym u v h = ground (
  arith,
  text_eq_iff v.user_hash u.user_hash,
  text_eq_iff u.user_hash v.user_hash,
  text_eq_iff v.api_token u.api_token,
  text_eq_iff u.api_token v.api_token,
)

insert_user-IsUnique :
    (new : User) (users : Users) → IsUnique users → IsUnique (insert_user new users).1
unfolding insert_user
insert_user-IsUnique new users unique = elim (Option-cases (find (clashes new) users)) [
  | inr (old, e) ↦ rw e unique
  | inl free ↦ rw free (append-OneRow same_hash clashes new users clashes_sym free unique)
]

update_user-IsUnique :
    (new : User) (users : Users) → IsUnique users → IsUnique (update_user new users).1
unfolding update_user
update_user-IsUnique new users unique = elim (Option-cases (find (clashes_with_other new) users)) [
  | inr (old, e) ↦ rw e unique
  | inl free ↦ rw free (replace-OneRow same_hash clashes new users clashes_sym free unique)
]

delete_found-IsUnique :
    (u : User) (users : Users) → IsUnique users → IsUnique (delete_found u users).1
unfolding delete_found
delete_found-IsUnique u users unique =
    remove-OneRow same_hash clashes (has_hash u.user_hash) users unique

with_user-IsUnique :
    {A : Type 0} (e : UserError) (change : User → Users → Result UserError A × Users) (user_id : ℕ)
    (users : Users)
    → ((u : User) → IsUnique (change u users).1)
    → IsUnique users
    → IsUnique (with_user e change user_id users).1
unfolding with_user
with_user-IsUnique e change user_id users keeps unique =
    elim (Option-cases (get_by_user_id user_id users)) [
      | inl missing ↦ rw (with_user, missing) unique
      | inr (u, found) ↦ rw (with_user, found) (keeps u)
    ]

change_active-IsUnique :
    (active : Bool) (u : User) (users : Users)
    → IsUnique users
    → IsUnique (change_active active u users).1
unfolding change_active
change_active-IsUnique active u users unique = elim (Bool-cases (is_already active u.is_active)) [
  | inl done ↦ rw done unique
  | inr new ↦ rw new (update_user-IsUnique _ users unique)
]

create_user-IsUnique :
    (hash : Text) (user_id : ℕ) (token : Text) (users : Users)
    → IsUnique users
    → IsUnique (create_user hash user_id token users).1
unfolding create_user create_missing
create_user-IsUnique hash user_id token users unique =
    elim (Option-cases (get_by_user_id user_id users)) [
      | inl free ↦ rw (create_missing, free) (insert_user-IsUnique _ users unique)
      | inr (old, taken) ↦ rw (create_missing, taken) unique
    ]

answer_token-users :
    (token : Text) (r : Result UserError User × Users) → (answer_token token r).1 ≡ r.1
answer_token-users token (ok u, users) = refl
answer_token-users token (err e, users) = refl

-- The operations of the service that change the table.
data Operation : Type 0 where
  creating : Text → ℕ → Text → Operation
  setting : ℕ → Bool → Operation
  deleting deactivating activating : ℕ → Operation
  refreshing : ℕ → Text → Operation

abbrev run : Operation → Users → Users
run (creating hash user_id token) users = (create_user hash user_id token users).1
run (setting user_id active) users = (set_active user_id active users).1
run (deleting user_id) users = (delete_user user_id users).1
run (deactivating user_id) users = (deactivate_user user_id users).1
run (activating user_id) users = (activate_user user_id users).1
run (refreshing user_id token) users = (refresh_token user_id token users).1

-- Every operation keeps hashes, user ids and tokens unique, since the table refuses any other row.
run-IsUnique : (op : Operation) (users : Users) → IsUnique users → IsUnique (run op users)
unfolding set_active delete_user deactivate_user activate_user refresh_token refresh_found
run-IsUnique (creating hash user_id token) users unique =
    create_user-IsUnique hash user_id token users unique
run-IsUnique (setting user_id active) users unique =
    with_user-IsUnique _ _ user_id users (λ u. change_active-IsUnique active u users unique) unique
run-IsUnique (deleting user_id) users unique =
    with_user-IsUnique _ _ user_id users (λ u. delete_found-IsUnique u users unique) unique
run-IsUnique (deactivating user_id) users unique =
    with_user-IsUnique _ _ user_id users (λ u. update_user-IsUnique _ users unique) unique
run-IsUnique (activating user_id) users unique =
    with_user-IsUnique _ _ user_id users (λ u. update_user-IsUnique _ users unique) unique
run-IsUnique (refreshing user_id token) users unique =
    with_user-IsUnique _ _ user_id users
      (λ u.
        subst IsUnique
          (sym (answer_token-users token (update_user (record u { api_token = token }) users)))
          (update_user-IsUnique (record u { api_token = token }) users unique))
      unique
