-- ===== src/Users/Tests.antt =====
-- Two accounts, and what the operations do to them.
use v2hub_api.Base.{
  sym, ap, ◌∙◌, not-Memᴰ-nil, ◌≡◌, ◌≢◌, refl, true, false, some, [], ◌∷◌, codes, text_eq, Memᴰ, ok,
  err, inl, inr, Memᴰ-cons,
}
use v2hub_api.Base.Tables.{find, replace}
use v2hub_api.Users.{
  User, Users, validation_error, integrity_error, update_user, get_by_user_id, with_user,
  create_user, create_missing, insert_user, refresh_token, refresh_found, delete_user, delete_found,
  clashes,
}
use v2hub_api.Users.Unique.{IsUnique}
use v2hub_api.Users.Creation.{new_user}
use v2hub_api.Users.Tokens.{Rotated, refresh_token-Rotated}

abbrev ann : User
ann = record { user_hash = codes "a"; user_id = 1; api_token = codes "t1"; is_active = true }

abbrev bob : User
bob = record { user_hash = codes "b"; user_id = 2; api_token = codes "t2"; is_active = false }

abbrev users : Users
users = ann ∷ bob ∷ []

users-IsUnique : IsUnique users
unfolding text_eq
users-IsUnique u v mu mv h = elim ((Memᴰ-cons u ann (bob ∷ [])).0 mu) [
  | inl ua ↦ elim ((Memᴰ-cons v ann (bob ∷ [])).0 mv) [
    | inl va ↦ ua ∙ sym va
    | inr vb ↦ absurd (ann_not_bob u v ua (only_bob v vb) h)
  ]
  | inr ub ↦ elim ((Memᴰ-cons v ann (bob ∷ [])).0 mv) [
    | inl va ↦ absurd (bob_not_ann u v (only_bob u ub) va h)
    | inr vb ↦ only_bob u ub ∙ sym (only_bob v vb)
  ]
]
  where
    only_bob : (u : User) → Memᴰ u (bob ∷ []) → u ≡ bob
    only_bob u m = elim ((Memᴰ-cons u bob []).0 m) [ inl e ↦ e | inr n ↦ absurd (not-Memᴰ-nil u n) ]

    ann_not_bob : (u v : User) → u ≡ ann → v ≡ bob → clashes u v ≢ true
    ann_not_bob u v ua vb h =
        let differ : clashes ann bob ≡ false = refl in
        cc (differ, ap (λ w. clashes w v) (sym ua) ∙ h, ap (clashes ann) vb)

    bob_not_ann : (u v : User) → u ≡ bob → v ≡ ann → clashes u v ≢ true
    bob_not_ann u v ub va h =
        let differ : clashes bob ann ≡ false = refl in
        cc (differ, ap (λ w. clashes w v) (sym ub) ∙ h, ap (clashes bob) va)

refreshed :
    refresh_token 1 (codes "t3") users
    ≡ (ok (codes "t3"), record ann { api_token = codes "t3" } ∷ bob ∷ [])
unfolding refresh_token refresh_found with_user get_by_user_id find update_user replace text_eq
refreshed = refl

refresh_token-Rotated_example :
    (u : User) × (get_by_user_id 1 users ≡ some u)
    × Rotated u (codes "t3") (codes "t3") users (record ann { api_token = codes "t3" } ∷ bob ∷ [])
refresh_token-Rotated_example =
    refresh_token-Rotated 1 (codes "t3") (codes "t3") users _ users-IsUnique refreshed

created : create_user (codes "c") 3 (codes "t3") users ≡ (
  ok (new_user (codes "c") 3 (codes "t3")),
  ann ∷ bob ∷ new_user (codes "c") 3 (codes "t3") ∷ [],
)
unfolding create_user create_missing insert_user get_by_user_id find text_eq
created = refl

-- A token that another user has is refused by the table, and a user that is not there by the service.
refusals :
    (refresh_token 1 (codes "t2") users ≡ (err integrity_error, users))
    × (delete_user 3 users ≡ (err (validation_error 3), users))
    × (create_user (codes "c") 2 (codes "t3") users ≡ (err (validation_error 2), users))
unfolding refresh_token refresh_found with_user get_by_user_id find update_user replace text_eq
    delete_user delete_found create_user create_missing
refusals = (refl, refl, refl)
