-- ===== src/Subscriptions.antt =====
-- src/v2hub_api/services/subscription_service.py: who may read and manage a subscription, and its
-- creation, update and deletion, over the table of subscriptions, the newest first.
mod Access
mod Deletion
mod Names
mod Settings
mod Listing
mod Tests
use v2hub_api.Base.{
  ℕ, Bool, true, false, not, ◌&&◌, ◌||◌, Option, none, some, List, [], ◌∷◌, map, Text, text_eq, has,
  length, keep_if, leb, if◌then◌else◌, Result, ok, err, ◌>>=◌,
}
use v2hub_api.Base.Strings.{is_some}
use v2hub_api.Models.{Source, Subscription, filled}
use v2hub_api.Redis.{or_else}
use v2hub_api.Authorizations.{Table, get_approved, get_approved_provider_hashes}

pub data SubscriptionError : Type 0 where
  authorization_error subscription_not_found : SubscriptionError
  too_many_subscriptions : ℕ → ℕ → SubscriptionError
  duplicate_name : Text → SubscriptionError

-- `a == b` on optional hashes
abbrev pub same_hash : Option Text → Option Text → Bool
same_hash none none = true
same_hash (some a) (some b) = text_eq a b
same_hash _ _ = false

unfoldable pub get_by_token : Text → List Subscription → Option Subscription
get_by_token token [] = none
get_by_token token (sub ∷ subs) =
    if text_eq sub.token token then some sub else get_by_token token subs

abbrev pub is_named : Text → Option Text → Text → Subscription → Bool
is_named user provider name sub =
    text_eq sub.user_hash user && text_eq sub.name name && same_hash sub.provider_hash provider

unfoldable pub get_by_name : Text → Option Text → Text → List Subscription → Option Subscription
get_by_name user provider name [] = none
get_by_name user provider name (sub ∷ subs) =
    if is_named user provider name sub then some sub else get_by_name user provider name subs

abbrev pub list_by_user : Text → Bool → List Subscription → List Subscription
list_by_user user include_provider_subscriptions = keep_if (λ sub.
    text_eq sub.user_hash user
    && (include_provider_subscriptions || not (is_some sub.provider_hash)))

abbrev pub list_by_provider : Text → Text → List Subscription → List Subscription
list_by_provider provider user =
    keep_if (λ sub. same_hash sub.provider_hash (some provider) && text_eq sub.user_hash user)

load_subscription : Text → List Subscription → Result SubscriptionError Subscription
load_subscription token subs = elim (get_by_token token subs) [
  | none ↦ err subscription_not_found
  | some sub ↦ ok sub
]

-- whether the provider that made the subscription, if any, is not approved by the user
pub is_withheld : Text → Table → Subscription → Bool
is_withheld user rows sub = elim (filled sub.provider_hash) [
  | none ↦ false
  | some provider ↦ not (is_some (get_approved provider user rows))
]

pub get_subscription :
    Text → Text → Table → List Subscription → Result SubscriptionError Subscription
unfolding load_subscription
get_subscription token user rows subs = load_subscription token subs >>= λ sub.
    if not (text_eq sub.user_hash user)
    then err authorization_error
    else (if is_withheld user rows sub then err subscription_not_found else ok sub)

pub get_managed_subscription :
    Text → Text → Option Text → List Subscription → Result SubscriptionError Subscription
unfolding load_subscription
get_managed_subscription token user provider subs = load_subscription token subs >>= λ sub.
    if not (text_eq sub.user_hash user) || not (same_hash sub.provider_hash provider)
    then err authorization_error
    else ok sub

all_own : List Subscription → Bool
all_own [] = true
all_own (sub ∷ subs) = not (is_some sub.provider_hash) && all_own subs

is_listed : List Text → Subscription → Bool
is_listed approved sub = elim sub.provider_hash [
  | none ↦ true
  | some provider ↦ has approved provider
]

pub list_subscriptions : Text → Option Text → Table → List Subscription → List Subscription
unfolding all_own is_listed
list_subscriptions user provider rows subs = elim (filled provider) [
  | some p ↦ list_by_provider p user subs
  | none ↦
      let found = list_by_user user true subs in
      if all_own found
      then found
      else keep_if (is_listed (get_approved_provider_hashes user rows)) found
]

-- the subscriptions that count for the limit
pub counted : Text → Option Text → List Subscription → List Subscription
counted user provider subs = elim (filled provider) [
  | some p ↦ list_by_provider p user subs
  | none ↦ list_by_user user false subs
]

abbrev pub new_subscription :
    Text → Text → Option Text → Text → Option Text → List Source → Subscription
new_subscription token user provider name description sources = record {
  token = token;
  name = name;
  user_hash = user;
  provider_hash = provider;
  description = description;
  sources = sources;
}

-- `token` is what `generate_unique_token` returns. `sources` is what adding the initial sources
-- leaves, which is checked on its own.
pub create_subscription :
    ℕ
    → Text
    → Text
    → Option Text
    → Text
    → Option Text
    → Result SubscriptionError (List Source)
    → List Subscription
    → Result SubscriptionError (List Subscription)
create_subscription max token user provider name description sources subs =
    let count = length (counted user provider subs) in
    if leb max count
    then err (too_many_subscriptions count max)
    else (if is_some (get_by_name user provider name subs)
        then err (duplicate_name name)
        else (sources >>= λ rows.
            ok (new_subscription token user provider name description rows ∷ subs)))

put_subscription : Text → Option Text → Option Text → List Subscription → List Subscription
put_subscription token name description [] = []
put_subscription token name description (sub ∷ subs) =
    if text_eq sub.token token
    then record sub {
      name = or_else name sub.name;
      description = elim description [ none ↦ sub.description | some d ↦ some d ];
    }
      ∷ subs
    else sub ∷ put_subscription token name description subs

-- `if name and name != subscription.name`
new_name : Option Text → Subscription → Option Text
new_name name sub = elim (filled name) [
  | none ↦ none
  | some n ↦ if text_eq n sub.name then none else some n
]

name_taken : Text → Option Text → Option Text → List Subscription → Bool
name_taken user provider name subs = elim name [
  | none ↦ false
  | some n ↦ is_some (get_by_name user provider n subs)
]

pub update_subscription :
    Text
    → Text
    → Option Text
    → Option Text
    → Option Text
    → List Subscription
    → Result SubscriptionError (List Subscription)
unfolding put_subscription new_name name_taken
update_subscription token user provider name description subs =
    get_managed_subscription token user provider subs >>= λ sub.
    if name_taken user provider (new_name name sub) subs
    then err (duplicate_name (or_else name []))
    else ok (put_subscription token (new_name name sub) description subs)

-- `delete_internal_references`: no source links to the token any more.
unlinked : Text → Subscription → Subscription
unlinked token sub = record sub {
  sources = keep_if (λ s. not (same_hash s.internal_token (some token))) sub.sources;
}

pub delete_row : Text → List Subscription → List Subscription
delete_row token = keep_if (λ sub. not (text_eq sub.token token))

pub delete_subscription :
    Text → Text → Option Text → List Subscription → Result SubscriptionError (List Subscription)
unfolding unlinked delete_row
delete_subscription token user provider subs =
    get_managed_subscription token user provider subs >>= λ sub.
    ok (map (unlinked token) (delete_row token subs))
