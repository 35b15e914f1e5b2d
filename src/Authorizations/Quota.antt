-- ===== src/Authorizations/Quota.antt =====
-- provider_authorization_service.py: the number of approved providers of a user.
use v2hub_api.Base.{
  ℕ, ◌≤◌, ◌≡◌, ◌≢◌, inl, inr, Option, none, some, List, [], ◌∷◌, ◌++◌, Text, text_eq_iff, leb→gt,
  arith, Bool-cases, Option-cases, ok,
}
use v2hub_api.Enums.{ProviderAuthorizationStatus, pending, approved, revoked}
use v2hub_api.Models.{Subscription}
use v2hub_api.Authorizations.{
  Authorization, Table, default_status, get_by_hash, create, get_user_approved_providers_count,
  add_authorization, delete_authorization, reinitialize_authorization, over_quota, grant_found,
  grant, revoke,
}
use v2hub_api.Authorizations.Rows.{count-snoc, count-set_status, set_status-none, count-delete_row}

-- Every user has at most `max` approved providers.
abbrev pub WithinQuota : ℕ → Table → Type 0
WithinQuota max rows = (user : Text) → get_user_approved_providers_count user rows ≤ max

pub create_new :
    (a : Authorization) (rows : Table)
    → get_by_hash a.provider_hash a.user_hash rows ≡ none
    → create a rows ≡ (ok a, rows ++ a ∷ [])
unfolding create
create_new a rows e = rw e

grant_new-WithinQuota :
    (max : ℕ) (provider owner : Text) (rows : Table)
    → get_by_hash provider owner rows ≡ none
    → WithinQuota max rows
    → WithinQuota max (grant_found max none provider owner rows).1
unfolding grant_found
grant_new-WithinQuota max provider owner rows e w user =
    let a : Authorization = record {
      provider_hash = provider;
      user_hash = owner;
      status = approved;
    } in
    elim (Bool-cases (over_quota max owner rows)) [
      | inl over ↦ rw over (w user)
      | inr free ↦ rw free (
          rw (create_new a rows e) (
            ground (
              arith,
              w user,
              count-snoc user rows a,
              text_eq_iff owner user,
              leb→gt max (get_user_approved_providers_count owner rows) free,
            )))
    ]

-- A grant, whether it succeeds or not, leaves every user within the quota.
pub grant-WithinQuota :
    (max : ℕ) (provider owner : Text) (rows : Table)
    → WithinQuota max rows
    → WithinQuota max (grant max provider owner rows).1
unfolding grant
grant-WithinQuota max provider owner rows w user =
    elim (Option-cases (get_by_hash provider owner rows)) [
      | inl e ↦ rw (e, grant) (grant_new-WithinQuota max provider owner rows e w user)
      | inr (a, e) ↦ ground (
        arith,
        w user,
        w owner,
        text_eq_iff owner user,
        count-set_status user provider owner approved rows a e,
      )
    ]

pub revoke-WithinQuota :
    (max : ℕ) (provider owner : Text) (rows : Table)
    → WithinQuota max rows
    → WithinQuota max (revoke provider owner rows).1
unfolding revoke
revoke-WithinQuota max provider owner rows w user =
    elim (Option-cases (get_by_hash provider owner rows)) [
      | inl e ↦ ground (arith, w user)
      | inr (a, e) ↦ ground (arith, w user, count-set_status user provider owner revoked rows a e)
    ]

pub reinitialize-WithinQuota :
    (max : ℕ) (a : Authorization) (rows : Table)
    → WithinQuota max rows
    → WithinQuota max (reinitialize_authorization a rows).1
unfolding reinitialize_authorization
reinitialize-WithinQuota max a rows w user =
    elim (Option-cases (get_by_hash a.provider_hash a.user_hash rows)) [
      | inl e ↦ ground (arith, w user, set_status-none a.provider_hash a.user_hash pending rows e)
      | inr (b, e) ↦
          ground (arith, w user, count-set_status user a.provider_hash a.user_hash pending rows b e)
    ]

pub delete-WithinQuota :
    (max : ℕ) (provider owner : Text) (rows : Table) (subs : List Subscription)
    → WithinQuota max rows
    → WithinQuota max (delete_authorization provider owner rows subs).1
unfolding delete_authorization
delete-WithinQuota max provider owner rows subs w user =
    ground (arith, w user, count-delete_row user provider owner rows)

-- A new row that is not approved at once.
pub add-WithinQuota :
    (max : ℕ) (provider owner : Text) (s : Option ProviderAuthorizationStatus) (rows : Table)
    → s ≢ some approved
    → WithinQuota max rows
    → WithinQuota max (add_authorization provider owner s rows).1
unfolding add_authorization
add-WithinQuota max provider owner s rows ne w user = ground (
  arith,
  w user,
  count-snoc user rows
      (record { provider_hash = provider; user_hash = owner; status = default_status s }),
)
