-- ===== src/Users/Tokens.antt =====
-- user_service.py: whom a token and a user id admit, after a new token and after a change of status.
use v2hub_api.Base.{
  ℕ, ◌≡◌, ◌≢◌, sym, ap, ◌∙◌, inl, inr, true, false, none, some, Text, text_eq, text_eq_iff,
  text_eq_self, Result, ok, err, arith, Bool-cases, Option-cases, Memᴰ,
}
use v2hub_api.Base.Keys.{replaced-found}
use v2hub_api.Base.Tables.{find, replace, find-some, find-missing, find-replace, Memᴰ-replace}
use v2hub_api.Users.{
  User, Users, UserError, invalid_token, has_hash, has_id, has_token, clashes, clashes_with_other,
  update_user, get_by_user_id, get_by_api_token, with_user, refresh_found, refresh_token,
  answer_token, check_active, authenticated, authenticate_user,
}
use v2hub_api.Users.Unique.{IsUnique, same_hash}

-- What an update that succeeds does.
pub update_user-ok :
    (new : User) (users : Users) (x : User) (users' : Users)
    → update_user new users ≡ (ok x, users')
    → (find (clashes_with_other new) users ≡ none)
      × (x ≡ new)
      × (users' ≡ replace (has_hash new.user_hash) new users)
unfolding update_user
update_user-ok new users x users' e = elim (Option-cases (find (clashes_with_other new) users)) [
  | inr (old, taken) ↦ cc (rw taken at e)
  | inl free ↦
      let done : (ok new, replace (has_hash new.user_hash) new users) ≡ (ok x, users') =
        rw free at e in
      (free, cc (ap (λ r. r.0) done), sym (ap (λ r. r.1) done))
]

pub updated-by_id :
    (new old : User) (users : Users)
    → find (clashes_with_other new) users ≡ none
    → Memᴰ old users
    → has_hash new.user_hash old ≡ true
    → get_by_user_id new.user_id (replace (has_hash new.user_hash) new users) ≡ some new
unfolding get_by_user_id
updated-by_id new old users free m same =
    replaced-found same_hash clashes (has_id new.user_id) new old users free m same (ground arith)
      (λ u h. ground arith)

pub updated-by_token :
    (new old : User) (users : Users)
    → find (clashes_with_other new) users ≡ none
    → Memᴰ old users
    → has_hash new.user_hash old ≡ true
    → get_by_api_token new.api_token (replace (has_hash new.user_hash) new users) ≡ some new
unfolding get_by_api_token
updated-by_token new old users free m same =
    replaced-found same_hash clashes (has_token new.api_token) new old users free m same
      (text_eq_self new.api_token) (λ u h. ground arith)

answer_token-ok :
    (token t : Text) (r : Result UserError User × Users) (users' : Users)
    → answer_token token r ≡ (ok t, users')
    → (x : User) × (r ≡ (ok x, users')) × (t ≡ token)
answer_token-ok token t (ok x, users) users' e = (x, ap (λ p. (ok x, p.1)) e, cc (ap (λ p. p.0) e))
answer_token-ok token t (err x, users) users' e = cc (ap (λ p. p.0) e)

-- In a table with unique keys the rows with a user's hash are that user.
pub only_row :
    (u b : User) (users : Users)
    → IsUnique users
    → Memᴰ u users
    → Memᴰ b users
    → has_hash u.user_hash b ≡ true
    → b ≡ u
only_row u b users unique mu mb h = sym (unique u b mu mb (ground arith))

not_token : (s t : Text) → s ≢ t → text_eq t s ≡ false
not_token s t h = elim (Bool-cases (text_eq t s)) [
  | inl same ↦ absurd (h (sym ((text_eq_iff t s).0 same)))
  | inr other ↦ other
]

old_token_missing :
    (token : Text) (u : User) (users : Users)
    → IsUnique users
    → Memᴰ u users
    → u.api_token ≢ token
    → get_by_api_token u.api_token
        (replace (has_hash u.user_hash) (record u { api_token = token }) users)
      ≡ none
unfolding get_by_api_token
old_token_missing token u users unique m new = find-missing (has_token u.api_token) _ (λ b mb.
    elim (Memᴰ-replace (has_hash u.user_hash) (record u { api_token = token }) users b mb) [
      | inl e ↦ ap (has_token u.api_token) e ∙ not_token u.api_token token new
      | inr (old, other) ↦ elim (Bool-cases (has_token u.api_token b)) [
        | inr not_old ↦ not_old
        | inl hit ↦
            let same : u ≡ b = unique u b m old (ground arith) in
            cc (text_eq_self u.user_hash, ap (has_hash u.user_hash) same, other)
      ]
    ])

other_token :
    (token other : Text) (u : User) (users : Users)
    → IsUnique users
    → Memᴰ u users
    → other ≢ u.api_token
    → other ≢ token
    → get_by_api_token other (replace (has_hash u.user_hash) (record u { api_token = token }) users)
      ≡ get_by_api_token other users
unfolding get_by_api_token
other_token token other u users unique m old new =
    find-replace (has_token other) (has_hash u.user_hash) (record u { api_token = token }) users
      (not_token other token new)
      (λ b mb h.
        ap (has_token other) (only_row u b users unique m mb h) ∙ not_token other u.api_token old)

-- The token `t` was given in place of `u`'s: it admits `u` as before, the old one is rejected if it is
-- another one, and every further token admits whom it admitted.
abbrev pub Rotated : User → Text → Text → Users → Users → Type 0
Rotated u token t users users' =
    (t ≡ token)
    × (authenticate_user token users' ≡ check_active (record u { api_token = token }))
    × (u.api_token ≢ token → authenticate_user u.api_token users' ≡ err invalid_token)
    × ((other : Text)
        → other ≢ u.api_token
        → other ≢ token
        → authenticate_user other users' ≡ authenticate_user other users)

refresh_found-Rotated :
    (token t : Text) (u : User) (users users' : Users)
    → IsUnique users
    → Memᴰ u users
    → refresh_found token u users ≡ (ok t, users')
    → Rotated u token t users users'
unfolding refresh_found authenticate_user
refresh_found-Rotated token t u users users' unique m e =
    let new = record u { api_token = token } in
    let (x, written, same) = answer_token-ok token t (update_user new users) users' e in
    let (free, _, now) = update_user-ok new users x users' written in
    (
      same,
      ap (λ s. authenticated invalid_token (get_by_api_token token s)) now
          ∙ ap (authenticated invalid_token)
              (updated-by_token new u users free m (text_eq_self u.user_hash)),
      λ h.
          ap (λ s. authenticated invalid_token (get_by_api_token u.api_token s)) now
          ∙ ap (authenticated invalid_token) (old_token_missing token u users unique m h),
      λ other old fresh.
          ap (λ s. authenticated invalid_token (get_by_api_token other s)) now
          ∙ ap (authenticated invalid_token) (other_token token other u users unique m old fresh),
    )

-- In a table with unique keys, a refresh that succeeds finds the user of the id and answers the new
-- token. That token then admits this user, if active; the old one is rejected, if it is another
-- one; and every further token admits whom it admitted.
pub refresh_token-Rotated :
    (user_id : ℕ) (token t : Text) (users users' : Users)
    → IsUnique users
    → refresh_token user_id token users ≡ (ok t, users')
    → (u : User) × (get_by_user_id user_id users ≡ some u) × Rotated u token t users users'
unfolding refresh_token with_user get_by_user_id
refresh_token-Rotated user_id token t users users' unique e =
    elim (Option-cases (get_by_user_id user_id users)) [
      | inl missing ↦ cc (rw (with_user, missing) at e)
      | inr (u, found) ↦ (
        u,
        found,
        refresh_found-Rotated token t u users users' unique
            (find-some (has_id user_id) users u found).0 (rw (with_user, found) at e),
      )
    ]
