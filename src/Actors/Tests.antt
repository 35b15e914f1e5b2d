-- ===== src/Actors/Tests.antt =====
-- A request of a provider for a user.
use v2hub_api.Base.{◌≡◌, ◌↔◌, refl, true, none, some, [], ◌∷◌, codes, text_eq, ok, err}
use v2hub_api.Base.Tables.{find}
use v2hub_api.Enums.{approved}
use v2hub_api.Authorizations as Grants
use v2hub_api.Authorizations.{
  Authorization, Table, authorization_error, require_authorized, get_approved,
}
use v2hub_api.Authorizations.Rows.{IsKeyed}
use v2hub_api.Users.{User, get_by_user_id, authenticate_user_by_id, check_active}
use v2hub_api.Providers.{Provider, get_by_api_token, authenticate_provider, authenticated}
use v2hub_api.Actors.{get_provider_actor, get_provider_and_user, not_authorized}
use v2hub_api.Actors.Access.{Lets, get_provider_actor_iff}

abbrev bot : Provider
bot = record {
  provider_hash = codes "p";
  owner_hash = codes "o";
  provider_name = codes "Bot";
  api_token = codes "t";
  provider_url = none;
  is_active = true;
}

abbrev client : User
client = record { user_hash = codes "u"; user_id = 7; api_token = codes "x"; is_active = true }

abbrev grants : Table
grants = record { provider_hash = codes "p"; user_hash = codes "u"; status = approved } ∷ []

grants-IsKeyed : IsKeyed grants
unfolding Grants.get_by_hash
grants-IsKeyed = (refl, tt)

get_provider_actor_iff_example :
    (get_provider_actor 7 (codes "t") (client ∷ []) (bot ∷ []) grants
      ≡ ok (record { user = client; provider = some bot }))
    ↔ Lets 7 (codes "t") (client ∷ []) (bot ∷ []) grants bot client
get_provider_actor_iff_example =
    get_provider_actor_iff 7 (codes "t") (client ∷ []) (bot ∷ []) grants bot client grants-IsKeyed

let_through :
    get_provider_actor 7 (codes "t") (client ∷ []) (bot ∷ []) grants
    ≡ ok (record { user = client; provider = some bot })
unfolding get_provider_actor get_provider_and_user authenticate_provider authenticated
    get_by_api_token authenticate_user_by_id check_active get_by_user_id require_authorized
    get_approved find text_eq
let_through = refl

without_grant :
    get_provider_actor 7 (codes "t") (client ∷ []) (bot ∷ []) []
    ≡ err (not_authorized authorization_error)
unfolding get_provider_actor get_provider_and_user authenticate_provider authenticated
    get_by_api_token authenticate_user_by_id check_active get_by_user_id require_authorized
    get_approved find text_eq
without_grant = refl
