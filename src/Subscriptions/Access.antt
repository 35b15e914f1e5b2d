-- ===== src/Subscriptions/Access.antt =====
-- subscription_service.py, `get_subscription` and `get_managed_subscription`: who gets which
-- subscription.
use v2hub_api.Base.{
  subst, ◌≡◌, ◌↔◌, refl, ap, inl, inr, true, false, Option, none, some, List, Text, text_eq,
  text_eq_iff, text_eq_self, Result, ok, err, ◌>>=◌, Bool-cases, Option-cases,
}
use v2hub_api.Base.Strings.{is_some}
use v2hub_api.Models.{Subscription, filled}
use v2hub_api.Authorizations.{Authorization, Table, is_authorized, get_approved, revoke}
use v2hub_api.Authorizations.Rows.{IsKeyed}
use v2hub_api.Authorizations.Access.{revoke-is_authorized}
use v2hub_api.Subscriptions.{
  subscription_not_found, same_hash, get_by_token, load_subscription, is_withheld, get_subscription,
  get_managed_subscription,
}

pub ok-eq : {E A : Type 0} {a b : A} → ◌≡◌ {A = Result E A} (ok a) (ok b) → a ≡ b
ok-eq e = cc e

pub same_hash_iff : (a b : Option Text) → (same_hash a b ≡ true) ↔ (a ≡ b)
same_hash_iff none none = (λ e. refl, λ e. refl)
same_hash_iff none (some b) = (λ e. cc e, λ e. cc e)
same_hash_iff (some a) none = (λ e. cc e, λ e. cc e)
same_hash_iff (some a) (some b) =
    (λ e. ap some ((text_eq_iff a b).0 e), λ e. (text_eq_iff a b).1 (cc e))

load_missing :
    (token : Text) (subs : List Subscription)
    → get_by_token token subs ≡ none
    → load_subscription token subs ≡ err subscription_not_found
unfolding load_subscription
load_missing token subs e = rw (e, load_subscription) refl

load_found :
    (token : Text) (subs : List Subscription) (sub : Subscription)
    → get_by_token token subs ≡ some sub
    → load_subscription token subs ≡ ok sub
unfolding load_subscription
load_found token subs sub e = rw (e, load_subscription) refl

shown-approved :
    (user : Text) (rows : Table) (sub : Subscription)
    → is_withheld user rows sub ≡ false
    → (p : Text) → filled sub.provider_hash ≡ some p
    → is_authorized p user rows ≡ true
unfolding is_withheld is_authorized
shown-approved user rows sub shown p made = elim (Bool-cases (is_some (get_approved p user rows))) [
  | inl through ↦ through
  | inr stopped ↦ cc (rw stopped at (rw (made, is_withheld) at shown))
]

-- A subscription that `get_subscription` returns is the one of the token and belongs to the user,
-- and if a provider made it, then that provider is authorized for the user.
pub get_subscription-access :
    (token user : Text) (rows : Table) (subs : List Subscription) (sub : Subscription)
    → get_subscription token user rows subs ≡ ok sub
    → (get_by_token token subs ≡ some sub)
      × (sub.user_hash ≡ user)
      × ((p : Text) → filled sub.provider_hash ≡ some p → is_authorized p user rows ≡ true)
unfolding get_subscription
get_subscription-access token user rows subs sub e = elim (Option-cases (get_by_token token subs)) [
  | inl missing ↦ cc (rw (load_missing token subs missing, get_subscription, ◌>>=◌) at e)
  | inr (s, found) ↦ elim (Bool-cases (text_eq s.user_hash user)) [
    | inr foreign ↦
        cc (rw foreign at (rw (load_found token subs s found, get_subscription, ◌>>=◌) at e))
    | inl own ↦ elim (Bool-cases (is_withheld user rows s)) [
      | inl withheld ↦ cc (
          rw withheld at
            (rw own at (rw (load_found token subs s found, get_subscription, ◌>>=◌) at e)))
      | inr shown ↦
          subst
            (λ (s : Subscription).
              (get_by_token token subs ≡ some s)
              × (s.user_hash ≡ user)
              × ((p : Text) → filled s.provider_hash ≡ some p → is_authorized p user rows ≡ true))
            (ok-eq (
              rw shown at
                (rw own at (rw (load_found token subs s found, get_subscription, ◌>>=◌) at e))))
            (found, (text_eq_iff s.user_hash user).0 own, shown-approved user rows s shown)
    ]
  ]
]

-- A subscription is managed exactly by its user and, if a provider made it, through that provider
-- alone: the call returns the subscription of the token if both hashes are its own.
pub get_managed_subscription_iff :
    (token user : Text) (provider : Option Text) (subs : List Subscription) (sub : Subscription)
    → (get_managed_subscription token user provider subs ≡ ok sub) ↔ (
        (get_by_token token subs ≡ some sub)
        × (sub.user_hash ≡ user)
        × (sub.provider_hash ≡ provider))
unfolding get_managed_subscription
get_managed_subscription_iff token user provider subs sub = (
  λ e. elim (Option-cases (get_by_token token subs)) [
    | inl missing ↦ cc (rw (load_missing token subs missing, get_managed_subscription, ◌>>=◌) at e)
    | inr (s, found) ↦ elim (Bool-cases (text_eq s.user_hash user)) [
      | inr foreign ↦
          cc (
            rw foreign at
              (rw (load_found token subs s found, get_managed_subscription, ◌>>=◌) at e))
      | inl own ↦ elim (Bool-cases (same_hash s.provider_hash provider)) [
        | inr apart ↦ cc (
            rw apart at (
              rw own at (rw (load_found token subs s found, get_managed_subscription, ◌>>=◌) at e)))
        | inl same ↦
            subst
              (λ (s : Subscription).
                (get_by_token token subs ≡ some s)
                × (s.user_hash ≡ user)
                × (s.provider_hash ≡ provider))
              (ok-eq (
                rw same at (
                  rw own at
                    (rw (load_found token subs s found, get_managed_subscription, ◌>>=◌) at e))))
              (
                found,
                (text_eq_iff s.user_hash user).0 own,
                (same_hash_iff s.provider_hash provider).0 same,
              )
      ]
    ]
  ],
  λ (found, own, same).
      rw (load_found token subs sub found, get_managed_subscription, ◌>>=◌)
        (rw (own, same) (rw (text_eq_self user, (same_hash_iff provider provider).1 refl) refl)),
)

-- Once the user has revoked a provider, a subscription that the provider made for them is not found
-- any more.
pub get_subscription-revoked :
    (token user provider : Text) (rows rows' : Table) (a : Authorization) (subs : List Subscription)
    (sub : Subscription)
    → IsKeyed rows'
    → revoke provider user rows ≡ (ok a, rows')
    → get_by_token token subs ≡ some sub
    → sub.user_hash ≡ user
    → filled sub.provider_hash ≡ some provider
    → get_subscription token user rows' subs ≡ err subscription_not_found
unfolding get_subscription is_withheld is_authorized
get_subscription-revoked token user provider rows rows' a subs sub keyed gone found own made =
    rw (load_found token subs sub found, get_subscription, ◌>>=◌)
      (rw own (
        rw (text_eq_self user) (
          rw (made, is_withheld)
            (rw (revoke-is_authorized provider user rows rows' a keyed gone, is_withheld) refl))))
