-- ===== src/Actors.antt =====
-- src/v2hub_api/api/dependencies.py: who makes a request, and for which user. An exception is an
-- error value, before it becomes an HTTP status.
mod Access
mod Tests
use v2hub_api.Base.{ℕ, Option, none, some, Text, Result, ok, err, ◌>>=◌}
use v2hub_api.Authorizations.{Authorization, Table, ServiceError, require_authorized}
use v2hub_api.Users.{User, Users, UserError, authenticate_user, authenticate_user_by_id}
use v2hub_api.Providers.{Provider, Providers, ProviderError, authenticate_provider}

pub data ActorError : Type 0 where
  user_error : UserError → ActorError
  provider_error : ProviderError → ActorError
  not_authorized : ServiceError → ActorError

pub record SubscriptionActor : Type 0 where
  pub user : User
  pub provider : Option Provider

abbrev pub of_users : {A : Type 0} → Result UserError A → Result ActorError A
of_users (ok a) = ok a
of_users (err e) = err (user_error e)

abbrev pub of_providers : {A : Type 0} → Result ProviderError A → Result ActorError A
of_providers (ok a) = ok a
of_providers (err e) = err (provider_error e)

abbrev pub of_authorizations : {A : Type 0} → Result ServiceError A → Result ActorError A
of_authorizations (ok a) = ok a
of_authorizations (err e) = err (not_authorized e)

unfoldable pub get_current_user : Text → Users → Result ActorError User
get_current_user api_token users = of_users (authenticate_user api_token users)

unfoldable pub get_current_provider : Text → Providers → Result ActorError Provider
get_current_provider api_token providers = of_providers (authenticate_provider api_token providers)

unfoldable pub get_provider_and_user :
    ℕ → Text → Users → Providers → Table → Result ActorError (Provider × User)
get_provider_and_user user_id api_token users providers rows =
    of_providers (authenticate_provider api_token providers) >>= λ provider.
    of_users (authenticate_user_by_id user_id users) >>= λ user.
    of_authorizations (require_authorized provider.provider_hash user.user_hash rows) >>= λ a.
    ok (provider, user)

unfoldable pub get_actor : Text → Users → Result ActorError SubscriptionActor
unfolding get_current_user
get_actor api_token users =
    get_current_user api_token users >>= λ user. ok (record { user = user; provider = none })

unfoldable pub get_provider_actor :
    ℕ → Text → Users → Providers → Table → Result ActorError SubscriptionActor
unfolding get_provider_and_user
get_provider_actor user_id api_token users providers rows =
    get_provider_and_user user_id api_token users providers rows >>= λ both.
    ok (record { user = both.1; provider = some both.0 })
