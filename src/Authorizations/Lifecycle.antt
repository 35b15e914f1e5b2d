-- ===== src/Authorizations/Lifecycle.antt =====
-- provider_authorization_service.py as a state machine: the table after any sequence of service
-- calls.
use v2hub_api.Base.{
  ℕ, ◌≡◌, ◌≢◌, refl, inl, inr, Option, none, some, List, [], ◌∷◌, ◌++◌, Text, text_eq_iff,
  text_eq_self, arith, Bool-cases, Option-cases,
}
use v2hub_api.Enums.{ProviderAuthorizationStatus, pending, approved, revoked}
use v2hub_api.Models.{Subscription}
use v2hub_api.Authorizations.{
  Authorization, Table, get_by_hash, set_status, delete_row, create,
  get_user_approved_providers_count, add_authorization, delete_authorization,
  reinitialize_authorization, grant, grant_found, over_quota, revoke,
}
use v2hub_api.Authorizations.Rows.{get_by_hash-snoc, IsKeyed}
use v2hub_api.Authorizations.Quota.{
  WithinQuota, create_new, grant-WithinQuota, revoke-WithinQuota, reinitialize-WithinQuota,
  delete-WithinQuota, add-WithinQuota,
}

snoc-IsKeyed :
    (rows : Table) (a : Authorization)
    → get_by_hash a.provider_hash a.user_hash rows ≡ none
    → IsKeyed rows
    → IsKeyed (rows ++ a ∷ [])
unfolding get_by_hash
snoc-IsKeyed [] a e k = (refl, tt)
snoc-IsKeyed (b ∷ rows) a e k = (
  ground (
    arith,
    get_by_hash-snoc b.provider_hash b.user_hash rows a,
    k.0,
    text_eq_iff a.provider_hash b.provider_hash,
    text_eq_iff a.user_hash b.user_hash,
    text_eq_self a.provider_hash,
    text_eq_self a.user_hash,
  ),
  snoc-IsKeyed rows a (ground arith) k.1,
)

set_status-none_iff :
    (p u provider owner : Text) (s : ProviderAuthorizationStatus) (rows : Table)
    → get_by_hash p u rows ≡ none
    → get_by_hash p u (set_status provider owner s rows) ≡ none
unfolding get_by_hash set_status
set_status-none_iff p u provider owner s [] e = refl
set_status-none_iff p u provider owner s (b ∷ rows) e =
    ground (arith, set_status-none_iff p u provider owner s rows)

set_status-IsKeyed :
    (provider owner : Text) (s : ProviderAuthorizationStatus) (rows : Table)
    → IsKeyed rows
    → IsKeyed (set_status provider owner s rows)
unfolding set_status
set_status-IsKeyed provider owner s [] k = tt
set_status-IsKeyed provider owner s (b ∷ rows) k = ground (
  arith,
  set_status-IsKeyed provider owner s rows k.1,
  set_status-none_iff b.provider_hash b.user_hash provider owner s rows k.0,
)

delete_row-none :
    (p u provider owner : Text) (rows : Table)
    → get_by_hash p u rows ≡ none
    → get_by_hash p u (delete_row provider owner rows) ≡ none
unfolding get_by_hash delete_row
delete_row-none p u provider owner [] e = refl
delete_row-none p u provider owner (b ∷ rows) e =
    ground (arith, delete_row-none p u provider owner rows)

delete_row-IsKeyed :
    (provider owner : Text) (rows : Table) → IsKeyed rows → IsKeyed (delete_row provider owner rows)
unfolding delete_row
delete_row-IsKeyed provider owner [] k = tt
delete_row-IsKeyed provider owner (b ∷ rows) k = ground (
  arith,
  delete_row-IsKeyed provider owner rows k.1,
  delete_row-none b.provider_hash b.user_hash provider owner rows k.0,
)

create-IsKeyed : (a : Authorization) (rows : Table) → IsKeyed rows → IsKeyed (create a rows).1
create-IsKeyed a rows k = elim (Option-cases (get_by_hash a.provider_hash a.user_hash rows)) [
  | inl e ↦ rw (create_new a rows e) (snoc-IsKeyed rows a e k)
  | inr (b, e) ↦ unfold create in rw (e, create) k
]

grant-IsKeyed :
    (max : ℕ) (provider owner : Text) (rows : Table)
    → IsKeyed rows
    → IsKeyed (grant max provider owner rows).1
unfolding grant
grant-IsKeyed max provider owner rows k = elim (Option-cases (get_by_hash provider owner rows)) [
  | inl e ↦
      rw (e, grant)
        (elim (Bool-cases (over_quota max owner rows)) [
          | inl over ↦ rw (over, grant_found) k
          | inr free ↦
              rw (free, grant_found)
                (create-IsKeyed
                  (record { provider_hash = provider; user_hash = owner; status = approved }) rows
                  k)
        ])
  | inr (a, e) ↦ ground (arith, set_status-IsKeyed provider owner approved rows k)
]

revoke-IsKeyed :
    (provider owner : Text) (rows : Table) → IsKeyed rows → IsKeyed (revoke provider owner rows).1
unfolding revoke
revoke-IsKeyed provider owner rows k =
    ground (arith, set_status-IsKeyed provider owner revoked rows k)

-- One call of the service. A row is added as the endpoints add it, not approved at once.
pub data Step (max : ℕ) : Table → Table → Type 0 where
  add :
      (p u : Text) (s : Option ProviderAuthorizationStatus) (rows : Table)
      → s ≢ some approved
      → Step max rows (add_authorization p u s rows).1
  delete :
      (p u : Text) (rows : Table) (subs : List Subscription)
      → Step max rows (delete_authorization p u rows subs).1
  reinitialize :
      (a : Authorization) (rows : Table) → Step max rows (reinitialize_authorization a rows).1
  grant_access : (p u : Text) (rows : Table) → Step max rows (grant max p u rows).1
  revoke_access : (p u : Text) (rows : Table) → Step max rows (revoke p u rows).1

pub data Reachable (max : ℕ) : Table → Type 0 where
  empty : Reachable max []
  next : {rows rows' : Table} → Reachable max rows → Step max rows rows' → Reachable max rows'

pub record IsSound (max : ℕ) (rows : Table) : Type 0 where
  pub keyed : IsKeyed rows
  pub within : WithinQuota max rows

Step-IsSound :
    {max : ℕ} {rows rows' : Table} → Step max rows rows' → IsSound max rows → IsSound max rows'
unfolding add_authorization delete_authorization reinitialize_authorization
Step-IsSound {max} (add p u s rows ne) h = record {
  keyed = create-IsKeyed _ rows h.keyed;
  within = add-WithinQuota max p u s rows ne h.within;
}
Step-IsSound {max} (delete p u rows subs) h = record {
  keyed = ground (arith, h.keyed, delete_row-IsKeyed p u rows h.keyed);
  within = delete-WithinQuota max p u rows subs h.within;
}
Step-IsSound {max} (reinitialize a rows) h = record {
  keyed = set_status-IsKeyed a.provider_hash a.user_hash pending rows h.keyed;
  within = reinitialize-WithinQuota max a rows h.within;
}
Step-IsSound {max} (grant_access p u rows) h = record {
  keyed = grant-IsKeyed max p u rows h.keyed;
  within = grant-WithinQuota max p u rows h.within;
}
Step-IsSound {max} (revoke_access p u rows) h = record {
  keyed = revoke-IsKeyed p u rows h.keyed;
  within = revoke-WithinQuota max p u rows h.within;
}

-- After any sequence of calls of the service, in which no row is added as approved, no two rows
-- have the same key and no user has more approved providers than the quota.
pub Reachable-IsSound : {max : ℕ} {rows : Table} → Reachable max rows → IsSound max rows
unfolding get_user_approved_providers_count
Reachable-IsSound empty = record { keyed = tt; within = λ user. omega arith }
Reachable-IsSound (next r st) = Step-IsSound st (Reachable-IsSound r)
