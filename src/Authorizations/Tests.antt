-- ===== src/Authorizations/Tests.antt =====
-- The authorization service at concrete tables: the theorems' witnesses, and runs of the code.
use v2hub_api.Base.{◌≡◌, refl, none, [], ◌∷◌, codes, text_eq, ok, err}
use v2hub_api.Enums.{approved, pending, revoked}
use v2hub_api.Authorizations.{
  Authorization, Table, too_many_providers, get_by_hash, set_status, grant, revoke,
  get_user_approved_providers_count, add_authorization,
}
use v2hub_api.Authorizations.Rows.{IsKeyed}
use v2hub_api.Authorizations.Access.{Granted, grant-Granted}
use v2hub_api.Authorizations.Lifecycle.{
  Reachable, empty, next, add, grant_access, IsSound, Reachable-IsSound,
}

abbrev first : Authorization
first = record { provider_hash = codes "p"; user_hash = codes "u"; status = approved }

abbrev second : Authorization
second = record { provider_hash = codes "q"; user_hash = codes "u"; status = pending }

abbrev table : Table
table = first ∷ second ∷ []

-- With a quota of one, the second provider is refused until the first is revoked.
grant_refused : grant 1 (codes "q") (codes "u") table ≡ (err (too_many_providers 1 1), table)
unfolding grant get_by_hash get_user_approved_providers_count text_eq
grant_refused = refl

grant_after_revoke : grant 1 (codes "q") (codes "u") (revoke (codes "p") (codes "u") table).1 ≡ (
  ok (record second { status = approved }),
  record first { status = revoked } ∷ record second { status = approved } ∷ [],
)
unfolding grant revoke set_status get_by_hash get_user_approved_providers_count text_eq
grant_after_revoke = refl

grant-Granted_example :
    Granted 2 (codes "q") (codes "u") table (grant 2 (codes "q") (codes "u") table)
grant-Granted_example = grant-Granted 2 (codes "q") (codes "u") table

table-IsKeyed : IsKeyed table
unfolding get_by_hash text_eq
table-IsKeyed = (refl, (refl, tt))

abbrev revoked_table : Table
revoked_table = record first { status = revoked } ∷ second ∷ []

revoke-first :
    revoke (codes "p") (codes "u") table ≡ (ok (record first { status = revoked }), revoked_table)
unfolding revoke set_status get_by_hash text_eq
revoke-first = refl

revoked_table-IsKeyed : IsKeyed revoked_table
unfolding get_by_hash text_eq
revoked_table-IsKeyed = (refl, (refl, tt))

abbrev asked : Table
asked = (add_authorization (codes "p") (codes "u") none []).1

abbrev granted : Table
granted = (grant 1 (codes "p") (codes "u") asked).1

granted-Reachable : Reachable 1 granted
granted-Reachable =
    next (next empty (add (codes "p") (codes "u") none [] (λ e. cc)))
      (grant_access (codes "p") (codes "u") asked)

Reachable-IsSound_example : IsSound 1 granted
Reachable-IsSound_example = Reachable-IsSound granted-Reachable
