-- ===== src/Providers/Managed.antt =====
-- provider_service.py, `resolve_managed_user_hash`: for whom a provider may act.
use v2hub_api.Base.{
  if◌then◌else◌, ℕ, ◌≡◌, ◌↔◌, refl, sym, ap, ◌∙◌, subst, inl, inr, some, Text, ok, err, Bool-cases,
  Option-cases,
}
use v2hub_api.Enums.{approved}
use v2hub_api.Users.{User, Users, get_by_user_id}
use v2hub_api.Authorizations as Grants
use v2hub_api.Authorizations.{
  Authorization, Table, authorization_error, get_approved, is_authorized, require_authorized,
  revoke,
}
use v2hub_api.Authorizations.Rows.{IsKeyed}
use v2hub_api.Authorizations.Access.{is_authorized_iff, revoke-is_authorized}
use v2hub_api.Providers.{Provider, refused, managed_hash, managed_user, resolve_managed_user_hash}

managed_hash_lem :
    (p : Provider) (u : User) (rows : Table)
    → managed_hash u (require_authorized p.provider_hash u.user_hash rows) ≡ (
        if is_authorized p.provider_hash u.user_hash rows
        then ok u.user_hash
        else err (refused authorization_error))
unfolding managed_hash require_authorized is_authorized
managed_hash_lem p u rows = elim (Option-cases (get_approved p.provider_hash u.user_hash rows)) [
  | inl missing ↦ rw (require_authorized, is_authorized, missing) refl
  | inr (a, found) ↦ rw (require_authorized, is_authorized, found) refl
]

allowed_iff :
    (p : Provider) (u : User) (hash : Text) (rows : Table)
    → IsKeyed rows
    → ((if is_authorized p.provider_hash u.user_hash rows
          then ok u.user_hash
          else err (refused authorization_error))
        ≡ ok hash)
      ↔ ((a : Authorization) × (u.user_hash ≡ hash)
          × (Grants.get_by_hash p.provider_hash hash rows ≡ some a)
          × (a.status ≡ approved))
allowed_iff p u hash rows keyed =
    let iff = is_authorized_iff p.provider_hash u.user_hash rows keyed in
    elim (Bool-cases (is_authorized p.provider_hash u.user_hash rows)) [
      | inl through ↦ (
        λ e.
            let (a, found, status) = iff.0 through in
            let same : u.user_hash ≡ hash = cc (rw through at e) in
            (
              a,
              same,
              subst (λ h. Grants.get_by_hash p.provider_hash h rows ≡ some a) same found,
              status,
            ),
        λ (a, same, found, status). rw through (ap ok same),
      )
      | inr stopped ↦ (
        λ e. cc (rw stopped at e),
        λ (a, same, found, status). cc (
          stopped,
          iff.1 (
            a,
            subst (λ h. Grants.get_by_hash p.provider_hash h rows ≡ some a) (sym same) found,
            status,
          ),
        ),
      )
    ]

-- In a table of authorizations with unique keys, a user id is resolved to a hash exactly if it is the
-- hash of the user with this id, and the provider's authorization for this user is approved.
pub resolve_managed_user_hash_iff :
    (p : Provider) (user_id : ℕ) (hash : Text) (users : Users) (rows : Table)
    → IsKeyed rows
    → (resolve_managed_user_hash p user_id users rows ≡ ok hash) ↔ (
        (u : User) × (a : Authorization) × (get_by_user_id user_id users ≡ some u)
        × (u.user_hash ≡ hash)
        × (Grants.get_by_hash p.provider_hash hash rows ≡ some a)
        × (a.status ≡ approved))
unfolding resolve_managed_user_hash managed_user
resolve_managed_user_hash_iff p user_id hash users rows keyed =
    elim (Option-cases (get_by_user_id user_id users)) [
      | inl missing ↦ (λ e. cc (rw missing at e), λ (_, _, found, _, _, _). cc found)
      | inr (u, found) ↦ rw found (
          rw (managed_hash_lem p u rows) (
            λ e.
                let (a, same, granted, status) = (allowed_iff p u hash rows keyed).0 e in
                (u, a, refl, same, granted, status),
            λ (v, a, this, same, granted, status).
                let one : u ≡ v = cc this in
                (allowed_iff p u hash rows keyed).1
                  (a, ap (λ w. w.user_hash) one ∙ same, granted, status),
          ))
    ]

-- After a revocation that succeeds, the provider is refused for the user, with an authorization error.
pub resolve_managed_user_hash-revoke :
    (p : Provider) (user_id : ℕ) (u : User) (users : Users) (rows rows' : Table) (a : Authorization)
    → IsKeyed rows'
    → get_by_user_id user_id users ≡ some u
    → revoke p.provider_hash u.user_hash rows ≡ (ok a, rows')
    → resolve_managed_user_hash p user_id users rows' ≡ err (refused authorization_error)
unfolding resolve_managed_user_hash managed_user
resolve_managed_user_hash-revoke p user_id u users rows rows' a keyed found revoked = rw found (
    managed_hash_lem p u rows'
    ∙ rw (revoke-is_authorized p.provider_hash u.user_hash rows rows' a keyed revoked) refl)
