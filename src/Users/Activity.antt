-- ===== src/Users/Activity.antt =====
-- user_service.py: an account's status, and whom it lets in.
use v2hub_api.Base.{
  ℕ, ◌≡◌, refl, sym, ap, ◌∙◌, subst, inl, inr, Bool, true, false, none, text_eq_self, if◌then◌else◌,
  Result, ok, err, arith, Bool-cases, Option-cases, Memᴰ,
}
use v2hub_api.Base.Tables.{find, find-some, find-missing, replace_same}
use v2hub_api.Users.{
  User, Users, UserError, inactive, not_found, has_hash, has_id, clashes, clashes_with_other,
  update_user, get_by_user_id, with_user, change_active, set_active, authenticate_user,
  authenticate_user_by_id, deactivate_user, activate_user, is_already,
}
use v2hub_api.Users.Unique.{IsUnique}
use v2hub_api.Users.Tokens.{only_row}

is_already_iff : (active b : Bool) → is_already active b ≡ true → b ≡ active
is_already_iff true b h = h
is_already_iff false b h = ground arith

-- the user with the status that it has is the user
same_user : (u : User) (active : Bool) → u.is_active ≡ active → record u { is_active = active } ≡ u
same_user u active e = ap (λ b. record u { is_active = b }) (sym e)

update_user_same :
    (u : User) (users : Users) → IsUnique users → Memᴰ u users → update_user u users ≡ (ok u, users)
unfolding update_user
update_user_same u users unique m =
    let free : find (clashes_with_other u) users ≡ none =
      find-missing (clashes_with_other u) users (λ b mb. elim (Bool-cases (clashes u b)) [
        | inr apart ↦ ground arith
        | inl clash ↦
            let same : u ≡ b = unique u b m mb clash in
            subst (λ v. clashes_with_other u v ≡ false) same (rw (text_eq_self u.user_hash) refl)
      ]) in
    rw
      (
        free,
        replace_same (has_hash u.user_hash) u users (λ b mb h. only_row u b users unique m mb h),
      )
      refl

-- `set_active` without the test whether the status is new.
update_active_lem :
    (active : Bool) (u : User) (users : Users)
    → IsUnique users
    → Memᴰ u users
    → change_active active u users ≡ update_user (record u { is_active = active }) users
unfolding change_active
update_active_lem active u users unique m = elim (Bool-cases (is_already active u.is_active)) [
  | inr new ↦ rw new refl
  | inl done ↦
      let same : record u { is_active = active } ≡ u =
        same_user u active (is_already_iff active u.is_active done) in
      rw done (sym (ap (λ v. update_user v users) same ∙ update_user_same u users unique m))
]

with_user_cong :
    {A : Type 0} (e : UserError) (f g : User → Users → Result UserError A × Users) (user_id : ℕ)
    (users : Users)
    → ((u : User) → Memᴰ u users → f u users ≡ g u users)
    → with_user e f user_id users ≡ with_user e g user_id users
unfolding with_user get_by_user_id
with_user_cong e f g user_id users same = elim (Option-cases (get_by_user_id user_id users)) [
  | inl missing ↦ rw (with_user, missing) refl
  | inr (u, found) ↦ rw (with_user, found) (same u (find-some (has_id user_id) users u found).0)
]

-- In a table with unique keys, `activate_user` and `deactivate_user` do what `set_active` does.
pub set_active-update_user :
    (user_id : ℕ) (users : Users)
    → IsUnique users
    → (activate_user user_id users ≡ set_active user_id true users)
      × (deactivate_user user_id users ≡ set_active user_id false users)
unfolding activate_user deactivate_user set_active
set_active-update_user user_id users unique = (
  with_user_cong (not_found user_id) _ _ user_id users
      (λ u m. sym (update_active_lem true u users unique m)),
  with_user_cong (not_found user_id) _ _ user_id users
      (λ u m. sym (update_active_lem false u users unique m)),
)

-- what the two ways to authenticate say of a user
abbrev pub Admits : Bool → User → Users → Type 0
Admits active u users =
    (u.is_active ≡ active)
    × (authenticate_user_by_id u.user_id users ≡ (if active then ok u else err inactive))
    × (authenticate_user u.api_token users ≡ (if active then ok u else err inactive))
