-- ===== src/Subscriptions/Tests.antt =====
-- The subscriptions of one user, one of them made by a provider.
use v2hub_api.Base.{
  has, keep_if, ◌≡◌, refl, true, false, none, some, List, [], ◌∷◌, Text, codes, text_eq, ok, arith,
  All,
}
use v2hub_api.Models.{Source, Subscription, filled}
use v2hub_api.Enums.{SourceType, approved, revoked}
use v2hub_api.Authorizations.{
  get_approved_provider_hashes, Authorization, Table, is_authorized, get_by_hash, get_approved,
  revoke, set_status,
}
use v2hub_api.Authorizations.Rows.{IsKeyed}
use v2hub_api.Subscriptions.{
  get_by_token, get_by_name, get_subscription, get_managed_subscription, create_subscription,
  new_subscription, delete_subscription, delete_row, unlinked, counted, load_subscription,
  is_withheld, list_subscriptions, all_own, is_listed,
}
use v2hub_api.Subscriptions.Access.{get_subscription-access}
use v2hub_api.Subscriptions.Deletion.{HasNoLink, delete_subscription-gone}
use v2hub_api.Subscriptions.Listing.{readable, list_subscriptions-readable}
use v2hub_api.Subscriptions.Names.{HasUniqueNames, WithinLimit, create_subscription-keeps}

abbrev user : Text
user = codes "u"

abbrev provider : Text
provider = codes "p"

abbrev made : Subscription
made = new_subscription (codes "t") user (some provider) (codes "work") none []

abbrev subs : List Subscription
subs = made ∷ []

abbrev row : Authorization
row = record { provider_hash = provider; user_hash = user; status = approved }

abbrev rows : Table
rows = row ∷ []

abbrev rows_after : Table
rows_after = record row { status = revoked } ∷ []

shown : get_subscription (codes "t") user rows subs ≡ ok made
unfolding get_subscription load_subscription is_withheld get_by_token get_approved text_eq
shown = refl

get_subscription-access_example :
    (get_by_token (codes "t") subs ≡ some made)
    × (made.user_hash ≡ user)
    × ((p : Text) → filled made.provider_hash ≡ some p → is_authorized p user rows ≡ true)
get_subscription-access_example = get_subscription-access (codes "t") user rows subs made shown

revoked_row : revoke provider user rows ≡ (ok (record row { status = revoked }), rows_after)
unfolding revoke set_status get_by_hash text_eq
revoked_row = refl

rows_after-IsKeyed : IsKeyed rows_after
unfolding get_by_hash text_eq
rows_after-IsKeyed = (refl, tt)

by_token : get_by_token (codes "t") subs ≡ some made
unfolding get_by_token text_eq
by_token = refl

abbrev link : Source
link = record {
  id = codes "i";
  source_type = SourceType.internal_token;
  config_hash = none;
  internal_token = some (codes "t");
  external_url = none;
  is_hidden = false;
  max_depth = 3;
  order_index = 0;
  proxy_config = none;
}

abbrev own : Subscription
own = new_subscription (codes "s") user none (codes "home") none (link ∷ [])

deleted :
    delete_subscription (codes "t") user (some provider) (own ∷ subs)
    ≡ ok (record own { sources = [] } ∷ [])
unfolding delete_subscription delete_row unlinked get_managed_subscription load_subscription
    get_by_token text_eq
deleted = refl

delete_subscription-gone_example :
    (get_by_token (codes "t") (record own { sources = [] } ∷ []) ≡ none)
    × All (HasNoLink (codes "t")) (record own { sources = [] } ∷ [])
delete_subscription-gone_example =
    delete_subscription-gone (codes "t") user (some provider) (own ∷ subs)
      (record own { sources = [] } ∷ []) deleted

created :
    create_subscription 1 (codes "s") user none (codes "home") none (ok (link ∷ [])) []
    ≡ ok (own ∷ [])
unfolding create_subscription counted get_by_name
created = refl

empty-WithinLimit : WithinLimit 1 []
unfolding counted
empty-WithinLimit u none = omega arith
empty-WithinLimit u (some []) = omega arith
empty-WithinLimit u (some (c ∷ s)) = omega arith

create_subscription-keeps_example : HasUniqueNames (own ∷ []) × WithinLimit 1 (own ∷ [])
create_subscription-keeps_example =
    create_subscription-keeps 1 (codes "s") user none (codes "home") none (ok (link ∷ [])) []
      (own ∷ []) tt empty-WithinLimit created

list_subscriptions-readable_example :
    list_subscriptions user none rows_after (own ∷ subs)
    ≡ keep_if (readable user rows_after) (own ∷ subs)
list_subscriptions-readable_example =
    list_subscriptions-readable user rows_after (own ∷ subs) (refl, (refl, tt))

-- The provider's subscription is not listed once the provider is revoked.
listed : list_subscriptions user none rows_after (own ∷ subs) ≡ own ∷ []
unfolding list_subscriptions all_own is_listed get_approved_provider_hashes text_eq has
listed = refl
