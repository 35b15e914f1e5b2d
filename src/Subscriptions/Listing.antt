-- ===== src/Subscriptions/Listing.antt =====
-- subscription_service.py, `list_subscriptions`: what is listed, and what may be read.
use v2hub_api.Base.{
  ◌≡◌, refl, ◌∙◌, inl, inr, Bool, true, false, not, ◌&&◌, none, List, [], ◌∷◌, Text, text_eq, has,
  Bool-cases, Option-cases, arith, All, keep_if,
}
use v2hub_api.Base.Strings.{is_some}
use v2hub_api.Models.{Subscription, filled}
use v2hub_api.Authorizations.{Table, get_approved, get_approved_provider_hashes}
use v2hub_api.Subscriptions.{list_by_user, list_subscriptions, is_listed, is_withheld, all_own}

-- the two queries for approved providers agree
has-get_approved_provider_hashes :
    (user p : Text) (rows : Table)
    → has (get_approved_provider_hashes user rows) p ≡ is_some (get_approved p user rows)
unfolding has get_approved get_approved_provider_hashes
has-get_approved_provider_hashes user p [] = refl
has-get_approved_provider_hashes user p (a ∷ rows) =
    ground (arith, has-get_approved_provider_hashes user p rows)

not-not : (b : Bool) → b ≡ not (not b)
not-not true = refl
not-not false = refl

-- The provider's hash, if there is one, is not empty.
abbrev pub HasFilledProvider : Subscription → Type 0
HasFilledProvider sub = filled sub.provider_hash ≡ sub.provider_hash

is_listed-shown :
    (user : Text) (rows : Table) (sub : Subscription)
    → HasFilledProvider sub
    → is_listed (get_approved_provider_hashes user rows) sub ≡ not (is_withheld user rows sub)
unfolding is_listed is_withheld
is_listed-shown user rows sub full = elim (Option-cases sub.provider_hash) [
  | inl own ↦ rw (own, is_listed, is_withheld) refl
  | inr (p, made) ↦
      rw (full ∙ made, is_withheld)
        (rw (made, is_listed)
          (has-get_approved_provider_hashes user p rows
            ∙ not-not (is_some (get_approved p user rows))))
]

own-shown :
    (user : Text) (rows : Table) (sub : Subscription)
    → is_some sub.provider_hash ≡ false
    → is_withheld user rows sub ≡ false
unfolding is_withheld
own-shown user rows sub own = elim (Option-cases sub.provider_hash) [
  | inl absent ↦ rw (absent, is_withheld) refl
  | inr (p, made) ↦ cc (rw made at own)
]

abbrev pub readable : Text → Table → Subscription → Bool
readable user rows sub = text_eq sub.user_hash user && not (is_withheld user rows sub)

listed-readable :
    (user : Text) (rows : Table) (subs : List Subscription)
    → All HasFilledProvider subs
    → keep_if (is_listed (get_approved_provider_hashes user rows)) (list_by_user user true subs)
      ≡ keep_if (readable user rows) subs
listed-readable user rows [] full = refl
listed-readable user rows (sub ∷ subs) full =
    ground (arith, is_listed-shown user rows sub full.0, listed-readable user rows subs full.1)

own-readable :
    (user : Text) (rows : Table) (subs : List Subscription)
    → all_own (list_by_user user true subs) ≡ true
    → list_by_user user true subs ≡ keep_if (readable user rows) subs
unfolding all_own
own-readable user rows [] e = refl
own-readable user rows (sub ∷ subs) e =
    ground (arith, own-shown user rows sub, own-readable user rows subs)

-- If no subscription has an empty provider's hash, then the subscriptions that are listed for a
-- user are exactly those that belong to the user and are not withheld by a missing authorization,
-- in the same order.
pub list_subscriptions-readable :
    (user : Text) (rows : Table) (subs : List Subscription)
    → All HasFilledProvider subs
    → list_subscriptions user none rows subs ≡ keep_if (readable user rows) subs
unfolding list_subscriptions
list_subscriptions-readable user rows subs full =
    elim (Bool-cases (all_own (list_by_user user true subs))) [
      | inl own ↦ rw own (own-readable user rows subs own)
      | inr mixed ↦ rw mixed (listed-readable user rows subs full)
    ]
