-- ===== src/Actors/Access.antt =====
-- dependencies.py, `get_provider_actor`: for whom a provider may act.
use v2hub_api.Base.{
  ℕ, ◌≡◌, ◌↔◌, refl, ap, subst, inl, inr, Bool, true, false, none, some, Text, ok, err, bind-ok,
  Option-cases, Bool-cases, if◌then◌else◌,
}
use v2hub_api.Enums.{approved}
use v2hub_api.Authorizations as Grants
use v2hub_api.Authorizations.{
  Authorization, Table, ServiceError, authorization_error, get_approved, is_authorized,
  require_authorized,
}
use v2hub_api.Authorizations.Rows.{IsKeyed}
use v2hub_api.Authorizations.Access.{is_authorized_iff}
use v2hub_api.Users as Accounts
use v2hub_api.Users.{User, Users, UserError, get_by_user_id, check_active, authenticate_user_by_id}
use v2hub_api.Providers as Parties
use v2hub_api.Providers.{
  Provider, Providers, ProviderError, get_by_api_token, authenticate_provider, authenticated,
}
use v2hub_api.Actors.{
  of_users, of_providers, of_authorizations, get_provider_and_user, get_provider_actor,
}

err-ok : {E A : Type 0} {e : E} {a : A} → err e ≡ ok a → ⊥
err-ok h = cc h

none-some : {A : Type 0} {a : A} → none ≡ some a → ⊥
none-some h = cc h

some-eq : {A : Type 0} {a b : A} → some a ≡ some b → a ≡ b
some-eq h = cc h

check_active_active : (u : User) → u.is_active ≡ true → check_active u ≡ ok u
unfolding check_active
check_active_active u on = ap (λ (b : Bool). if b then ok u else err Accounts.inactive) on

check_active_inactive : (u : User) → u.is_active ≡ false → check_active u ≡ err Accounts.inactive
unfolding check_active
check_active_inactive u off = ap (λ (b : Bool). if b then ok u else err Accounts.inactive) off

active_user_iff :
    (v u : User) → (of_users (check_active v) ≡ ok u) ↔ ((v ≡ u) × (u.is_active ≡ true))
active_user_iff v u = elim (Bool-cases v.is_active) [
  | inl on ↦ simp (check_active_active v on) (
    (λ h. let same : v ≡ u = cc h in (same, subst (λ (w : User). w.is_active ≡ true) same on)),
    (λ (h, a). ap ok h),
  )
  | inr off ↦
      simp (check_active_inactive v off)
        ((λ h. cc h), (λ (h, a). cc (ap (λ (w : User). w.is_active) h, off, a)))
]

user_by_id_iff :
    (user_id : ℕ) (users : Users) (u : User)
    → (of_users (authenticate_user_by_id user_id users) ≡ ok u)
      ↔ ((get_by_user_id user_id users ≡ some u) × (u.is_active ≡ true))
unfolding authenticate_user_by_id
user_by_id_iff user_id users u = elim (Option-cases (get_by_user_id user_id users)) [
  | inl e ↦
      rw (authenticate_user_by_id, e) ((λ h. absurd (err-ok h)), (λ (h, a). absurd (none-some h)))
  | inr (v, e) ↦
      rw (authenticate_user_by_id, e)
        (
          (λ h. let (same, on) = (active_user_iff v u).0 h in (ap some same, on)),
          (λ (h, on). (active_user_iff v u).1 (some-eq h, on)),
        )
]

authenticated_active : (p : Provider) → p.is_active ≡ true → authenticated (some p) ≡ ok p
unfolding authenticated
authenticated_active p on = ap (λ (b : Bool). if b then ok p else err Parties.inactive) on

authenticated_inactive :
    (p : Provider) → p.is_active ≡ false → authenticated (some p) ≡ err Parties.inactive
unfolding authenticated
authenticated_inactive p off = ap (λ (b : Bool). if b then ok p else err Parties.inactive) off

active_provider_iff :
    (v p : Provider)
    → (of_providers (authenticated (some v)) ≡ ok p) ↔ ((v ≡ p) × (p.is_active ≡ true))
active_provider_iff v p = elim (Bool-cases v.is_active) [
  | inl on ↦ simp (authenticated_active v on) (
    (λ h. let same : v ≡ p = cc h in (same, subst (λ (w : Provider). w.is_active ≡ true) same on)),
    (λ (h, a). ap ok h),
  )
  | inr off ↦
      simp (authenticated_inactive v off)
        ((λ h. cc h), (λ (h, a). cc (ap (λ (w : Provider). w.is_active) h, off, a)))
]

provider_by_token_iff :
    (api_token : Text) (providers : Providers) (p : Provider)
    → (of_providers (authenticate_provider api_token providers) ≡ ok p)
      ↔ ((get_by_api_token api_token providers ≡ some p) × (p.is_active ≡ true))
unfolding authenticate_provider authenticated
provider_by_token_iff api_token providers p =
    elim (Option-cases (get_by_api_token api_token providers)) [
      | inl e ↦
          rw (authenticate_provider, e) ((λ h. absurd (err-ok h)), (λ (h, a). absurd (none-some h)))
      | inr (v, e) ↦
          rw (authenticate_provider, e)
            (
              (λ h. let (same, on) = (active_provider_iff v p).0 h in (ap some same, on)),
              (λ (h, on). (active_provider_iff v p).1 (some-eq h, on)),
            )
    ]

authorized_iff :
    (provider user : Text) (rows : Table)
    → IsKeyed rows
    → ((a : Authorization) × (of_authorizations (require_authorized provider user rows) ≡ ok a)) ↔ (
        (a : Authorization) × (Grants.get_by_hash provider user rows ≡ some a)
        × (a.status ≡ approved))
unfolding require_authorized is_authorized
authorized_iff provider user rows keyed =
    let (to, from) = is_authorized_iff provider user rows keyed in
    elim (Option-cases (get_approved provider user rows)) [
      | inl e ↦ (
        λ (a, h). cc (rw (require_authorized, e) at h),
        λ granted. cc (rw (is_authorized, e) at (from granted)),
      )
      | inr (a, e) ↦
          (λ h. to (rw (is_authorized, e) refl), λ granted. (a, rw (require_authorized, e) refl))
    ]

-- The token is an active provider's, the id is an active user's, and the user approves the provider.
abbrev pub Lets : ℕ → Text → Users → Providers → Table → Provider → User → Type 0
Lets user_id api_token users providers rows p u =
    (get_by_api_token api_token providers ≡ some p)
    × (p.is_active ≡ true)
    × (get_by_user_id user_id users ≡ some u)
    × (u.is_active ≡ true)
    × ((a : Authorization) × (Grants.get_by_hash p.provider_hash u.user_hash rows ≡ some a)
        × (a.status ≡ approved))

-- A request by a provider for a user is let through, in the name of that provider and that user,
-- exactly if the token is an active provider's, the id is an active user's, and the user's row for
-- this provider is approved; provided that no two rows of the authorizations have the same keys.
pub get_provider_actor_iff :
    (user_id : ℕ) (api_token : Text) (users : Users) (providers : Providers) (rows : Table)
    (p : Provider) (u : User)
    → IsKeyed rows
    → (get_provider_actor user_id api_token users providers rows
        ≡ ok (record { user = u; provider = some p }))
      ↔ Lets user_id api_token users providers rows p u
unfolding get_provider_actor get_provider_and_user
get_provider_actor_iff user_id api_token users providers rows p u keyed = (
  λ h.
      let (both, h1, made) =
        bind-ok (get_provider_and_user user_id api_token users providers rows) _ _ h in
      let (q, of_token, h2) =
        bind-ok (of_providers (authenticate_provider api_token providers)) _ _ h1 in
      let (v, of_id, h3) = bind-ok (of_users (authenticate_user_by_id user_id users)) _ _ h2 in
      let (a, granted, pair) =
        bind-ok (of_authorizations (require_authorized q.provider_hash v.user_hash rows)) _ _ h3 in
      let same_p : q ≡ p = cc (pair, made) in
      let same_u : v ≡ u = cc (pair, made) in
      let (t, pa) = (provider_by_token_iff api_token providers q).0 of_token in
      let (i, ua) = (user_by_id_iff user_id users v).0 of_id in
      let facts : Lets user_id api_token users providers rows q v =
        (t, pa, i, ua, (authorized_iff q.provider_hash v.user_hash rows keyed).0 (a, granted)) in
      subst (λ (w : User). Lets user_id api_token users providers rows p w) same_u
        (subst (λ (r : Provider). Lets user_id api_token users providers rows r v) same_p facts),
  λ (t, pa, i, ua, granted).
      let of_token = (provider_by_token_iff api_token providers p).1 (t, pa) in
      let of_id = (user_by_id_iff user_id users u).1 (i, ua) in
      let (a, allowed) = (authorized_iff p.provider_hash u.user_hash rows keyed).1 granted in
      rw (get_provider_actor, get_provider_and_user, of_token, of_id, allowed) refl,
)
