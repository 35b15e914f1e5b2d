-- ===== src/Authorizations/Rows.antt =====
-- provider_authorization_repository.py: what a new row, a new status and a deletion do to the
-- look-ups and to the counts.
use v2hub_api.Base.{
  ℕ, ◌+◌, ◌≤◌, ◌≡◌, refl, Bool, true, false, ◌&&◌, Option, none, some, [], ◌∷◌, ◌++◌, Text, text_eq,
  text_eq_iff, arith, if◌then◌else◌,
}
use v2hub_api.Enums.{ProviderAuthorizationStatus, approved}
use v2hub_api.Authorizations.{
  Authorization, Table, is_of, is_approved, get_by_hash, get_approved, set_status, delete_row,
  get_user_approved_providers_count,
}

abbrev pub one_if : Bool → ℕ
one_if true = 1
one_if false = 0

abbrev pub is_approval : ProviderAuthorizationStatus → Bool
is_approval approved = true
is_approval _ = false

pub count-snoc :
    (user : Text) (rows : Table) (a : Authorization)
    → get_user_approved_providers_count user (rows ++ a ∷ [])
      ≡ get_user_approved_providers_count user rows
        + one_if (text_eq a.user_hash user && is_approved a)
unfolding get_user_approved_providers_count
count-snoc user [] a = ground arith
count-snoc user (b ∷ rows) a = ground (arith, count-snoc user rows a)

-- One row changes its status, and one user's count changes by it.
pub count-set_status :
    (user provider owner : Text) (s : ProviderAuthorizationStatus) (rows : Table)
    (a : Authorization)
    → get_by_hash provider owner rows ≡ some a
    → get_user_approved_providers_count user (set_status provider owner s rows)
        + one_if (text_eq owner user && is_approved a)
      ≡ get_user_approved_providers_count user rows + one_if (text_eq owner user && is_approval s)
unfolding get_user_approved_providers_count get_by_hash set_status
count-set_status user provider owner s [] a e = cc
count-set_status user provider owner s (b ∷ rows) a e =
    ground (arith, count-set_status user provider owner s rows a, text_eq_iff b.user_hash owner)

pub set_status-none :
    (provider owner : Text) (s : ProviderAuthorizationStatus) (rows : Table)
    → get_by_hash provider owner rows ≡ none
    → set_status provider owner s rows ≡ rows
unfolding get_by_hash set_status
set_status-none provider owner s [] e = refl
set_status-none provider owner s (b ∷ rows) e =
    ground (arith, set_status-none provider owner s rows)

pub count-delete_row :
    (user provider owner : Text) (rows : Table)
    → get_user_approved_providers_count user (delete_row provider owner rows)
      ≤ get_user_approved_providers_count user rows
unfolding get_user_approved_providers_count delete_row
count-delete_row user provider owner [] = omega arith
count-delete_row user provider owner (b ∷ rows) =
    ground (arith, count-delete_row user provider owner rows)

abbrev pub with_status : ProviderAuthorizationStatus → Option Authorization → Option Authorization
with_status s none = none
with_status s (some a) = some (record a { status = s })

pub get_by_hash-set_status :
    (p u provider owner : Text) (s : ProviderAuthorizationStatus) (rows : Table)
    → get_by_hash p u (set_status provider owner s rows) ≡ (
        if text_eq provider p && text_eq owner u
        then with_status s (get_by_hash provider owner rows)
        else get_by_hash p u rows)
unfolding get_by_hash set_status
get_by_hash-set_status p u provider owner s [] = ground arith
get_by_hash-set_status p u provider owner s (b ∷ rows) = ground (
  arith,
  get_by_hash-set_status p u provider owner s rows,
  text_eq_iff b.provider_hash provider,
  text_eq_iff b.user_hash owner,
  text_eq_iff provider p,
  text_eq_iff owner u,
)

pub get_by_hash-snoc :
    (p u : Text) (rows : Table) (a : Authorization)
    → get_by_hash p u (rows ++ a ∷ []) ≡ elim (get_by_hash p u rows) [
      | none ↦ if is_of p u a then some a else none
      | some b ↦ some b
    ]
unfolding get_by_hash
get_by_hash-snoc p u [] a = refl
get_by_hash-snoc p u (b ∷ rows) a = ground (arith, get_by_hash-snoc p u rows a)

-- No two rows have the same key.
abbrev pub IsKeyed : Table → Type 0
IsKeyed [] = Unit
IsKeyed (a ∷ rows) = (get_by_hash a.provider_hash a.user_hash rows ≡ none) × IsKeyed rows

-- the approved one of the key's rows is the key's row
abbrev pub if_approved : Option Authorization → Option Authorization
if_approved none = none
if_approved (some a) = if is_approved a then some a else none

pub get_approved_lem :
    (p u : Text) (rows : Table)
    → IsKeyed rows
    → get_approved p u rows ≡ if_approved (get_by_hash p u rows)
unfolding get_approved get_by_hash
get_approved_lem p u [] k = refl
get_approved_lem p u (a ∷ rows) k =
    ground (
      arith,
      get_approved_lem p u rows k.1,
      text_eq_iff a.provider_hash p,
      text_eq_iff a.user_hash u,
    )
