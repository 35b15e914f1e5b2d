-- ===== src/Authorizations/Access.antt =====
-- provider_authorization_service.py: what a grant and a revocation do, on every branch.
use v2hub_api.Base.{
  ◌↔◌, ℕ, ◌≤◌, ◌≡◌, refl, subst, ◌↔◌, inl, inr, true, false, ◌&&◌, none, some, [], ◌∷◌, ◌++◌, Text,
  text_eq, text_eq_self, leb→le, arith, Bool-cases, Option-cases, Result, ok, err,
}
use v2hub_api.Enums.{ProviderAuthorizationStatus, approved, revoked}
use v2hub_api.Authorizations.{
  Authorization, Table, ServiceError, not_found, too_many_providers, is_approved, is_revoked,
  get_by_hash, set_status, get_user_approved_providers_count, over_quota, quota_error, grant_found,
  grant, revoke, is_authorized,
}
use v2hub_api.Authorizations.Rows.{
  get_by_hash-set_status, get_by_hash-snoc, IsKeyed, if_approved, get_approved_lem,
}
use v2hub_api.Authorizations.Quota.{create_new}

-- The rows of all other keys are found as before.
abbrev pub OthersKept : Text → Text → Table → Table → Type 0
OthersKept provider owner rows rows' =
    (p u : Text)
    → (text_eq provider p && text_eq owner u) ≡ false
    → get_by_hash p u rows' ≡ get_by_hash p u rows

abbrev pub Granted : ℕ → Text → Text → Table → Result ServiceError Authorization × Table → Type 0
Granted max provider owner rows (ok a, rows') =
    (a.status ≡ approved)
    × (get_by_hash provider owner rows' ≡ some a)
    × OthersKept provider owner rows rows'
Granted max provider owner rows (err e, rows') =
    (rows' ≡ rows)
    × (e ≡ too_many_providers (get_user_approved_providers_count owner rows) max)
    × (max ≤ get_user_approved_providers_count owner rows)
    × (if_approved (get_by_hash provider owner rows) ≡ none)

set_status-OthersKept :
    (provider owner : Text) (s : ProviderAuthorizationStatus) (rows : Table)
    → OthersKept provider owner rows (set_status provider owner s rows)
set_status-OthersKept provider owner s rows p u h =
    rw (get_by_hash-set_status p u provider owner s rows, h)

set_status-found :
    (provider owner : Text) (s : ProviderAuthorizationStatus) (rows : Table) (a : Authorization)
    → get_by_hash provider owner rows ≡ some a
    → get_by_hash provider owner (set_status provider owner s rows) ≡ some (record a { status = s })
set_status-found provider owner s rows a e = ground (
  arith,
  get_by_hash-set_status provider owner provider owner s rows,
  text_eq_self provider,
  text_eq_self owner,
)

snoc-OthersKept :
    (rows : Table) (a : Authorization)
    → OthersKept a.provider_hash a.user_hash rows (rows ++ a ∷ [])
snoc-OthersKept rows a p u h = ground (arith, get_by_hash-snoc p u rows a)

snoc-found :
    (rows : Table) (a : Authorization)
    → get_by_hash a.provider_hash a.user_hash rows ≡ none
    → get_by_hash a.provider_hash a.user_hash (rows ++ a ∷ []) ≡ some a
snoc-found rows a e = ground (
  arith,
  get_by_hash-snoc a.provider_hash a.user_hash rows a,
  text_eq_self a.provider_hash,
  text_eq_self a.user_hash,
)

grant_none-Granted :
    (max : ℕ) (provider owner : Text) (rows : Table)
    → get_by_hash provider owner rows ≡ none
    → Granted max provider owner rows (grant_found max none provider owner rows)
unfolding grant_found over_quota quota_error
grant_none-Granted max provider owner rows e =
    let a : Authorization = record {
      provider_hash = provider;
      user_hash = owner;
      status = approved;
    } in
    elim (Bool-cases (over_quota max owner rows)) [
      | inl over ↦
          rw over (refl, refl, leb→le max (get_user_approved_providers_count owner rows) over, rw e)
      | inr free ↦
          rw free (rw (create_new a rows e) (refl, snoc-found rows a e, snoc-OthersKept rows a))
    ]

grant_some-Granted :
    (max : ℕ) (provider owner : Text) (rows : Table) (a : Authorization)
    → get_by_hash provider owner rows ≡ some a
    → Granted max provider owner rows (grant_found max (some a) provider owner rows)
unfolding grant_found over_quota quota_error
grant_some-Granted max provider owner rows a e = elim (Bool-cases (is_approved a)) [
  | inl old ↦ rw old (ground arith, e, λ p u h. refl)
  | inr new ↦ rw new (elim (Bool-cases (over_quota max owner rows)) [
    | inl over ↦
        rw over (
          refl,
          refl,
          leb→le max (get_user_approved_providers_count owner rows) over,
          rw e (rw new),
        )
    | inr free ↦ rw free (
      refl,
      set_status-found provider owner approved rows a e,
      set_status-OthersKept provider owner approved rows,
    )
  ])
]

-- A grant either returns an approved row, which is then the row of the two hashes, or is refused
-- because the user has reached the quota and the provider was not approved, and then changes
-- nothing; other rows never change.
pub grant-Granted :
    (max : ℕ) (provider owner : Text) (rows : Table)
    → Granted max provider owner rows (grant max provider owner rows)
unfolding grant
grant-Granted max provider owner rows = elim (Option-cases (get_by_hash provider owner rows)) [
  | inl e ↦ rw (e, grant) (grant_none-Granted max provider owner rows e)
  | inr (a, e) ↦ rw (e, grant) (grant_some-Granted max provider owner rows a e)
]

abbrev pub Revoked : Text → Text → Table → Result ServiceError Authorization × Table → Type 0
Revoked provider owner rows (ok a, rows') =
    (a.status ≡ revoked)
    × (get_by_hash provider owner rows' ≡ some a)
    × OthersKept provider owner rows rows'
Revoked provider owner rows (err e, rows') =
    (rows' ≡ rows) × (e ≡ not_found) × (get_by_hash provider owner rows ≡ none)

-- A revocation either finds no row and changes nothing, or leaves the row of the two hashes
-- revoked, whatever its status was; other rows never change.
pub revoke-Revoked :
    (provider owner : Text) (rows : Table)
    → Revoked provider owner rows (revoke provider owner rows)
unfolding revoke
revoke-Revoked provider owner rows = elim (Option-cases (get_by_hash provider owner rows)) [
  | inl e ↦ rw (e, revoke) (refl, refl, e)
  | inr (a, e) ↦
      rw (e, revoke)
        (elim (Bool-cases (is_revoked a)) [
          | inl old ↦ rw old (ground arith, e, λ p u h. refl)
          | inr new ↦ rw new (
            refl,
            set_status-found provider owner revoked rows a e,
            set_status-OthersKept provider owner revoked rows,
          )
        ])
]

-- In a table with unique keys a provider is let through for a user exactly if their row exists and
-- is approved.
pub is_authorized_iff :
    (provider owner : Text) (rows : Table)
    → IsKeyed rows
    → (is_authorized provider owner rows ≡ true)
      ↔ ((a : Authorization) × (get_by_hash provider owner rows ≡ some a) × (a.status ≡ approved))
unfolding is_authorized
is_authorized_iff provider owner rows k = elim (Option-cases (get_by_hash provider owner rows)) [
  | inl e ↦ (
    λ h. cc (rw (get_approved_lem provider owner rows k, e, is_authorized) at h),
    λ (a, q, s). cc (e, q),
  )
  | inr (a, e) ↦ elim (Bool-cases (is_approved a)) [
    | inl old ↦ (
      λ h. (a, e, ground arith),
      λ h. rw (get_approved_lem provider owner rows k, e, is_authorized) (rw old),
    )
    | inr new ↦ (
      λ h. cc (rw new at (rw (get_approved_lem provider owner rows k, e, is_authorized) at h)),
      λ (b, q, s). ground arith,
    )
  ]
]

-- After a revocation that succeeds the provider is not let through.
pub revoke-is_authorized :
    (provider owner : Text) (rows rows' : Table) (a : Authorization)
    → IsKeyed rows'
    → revoke provider owner rows ≡ (ok a, rows')
    → is_authorized provider owner rows' ≡ false
revoke-is_authorized provider owner rows rows' a k e =
    let (status, found, _) =
      subst (Revoked provider owner rows) e (revoke-Revoked provider owner rows) in
    elim (Bool-cases (is_authorized provider owner rows')) [
      | inl through ↦
          let (b, q, s) = (is_authorized_iff provider owner rows' k).0 through in ground arith
      | inr stopped ↦ stopped
    ]
