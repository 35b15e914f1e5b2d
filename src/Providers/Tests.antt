-- ===== src/Providers/Tests.antt =====
-- Two providers, and what the operations do to them.
use v2hub_api.Authorizations.Rows.{IsKeyed}
use v2hub_api.Base.{
  ◌≡◌, ◌≢◌, ◌↔◌, ◌⊎◌, refl, sym, ap, ◌∙◌, true, false, none, some, [], ◌∷◌, codes, text_eq, Memᴰ,
  ok, err, inl, inr, Memᴰ-cons, not-Memᴰ-nil,
}
use v2hub_api.Base.Tables.{find}
use v2hub_api.Enums.{approved, revoked}
use v2hub_api.Users as Accounts
use v2hub_api.Users.{User, Users, get_by_user_id}
use v2hub_api.Authorizations as Grants
use v2hub_api.Authorizations.{
  Authorization, Table, authorization_error, revoke, is_authorized, require_authorized,
}
use v2hub_api.Providers.{
  Provider, Providers, not_found, get_by_hash, clashes, update_provider_name,
  resolve_managed_user_hash, authenticate_provider, authenticated, get_by_api_token, inactive,
  create_provider, create_missing, insert_provider, get_by_owner_hash, integrity_error,
}
use v2hub_api.Providers.Unique.{IsUnique}
use v2hub_api.Providers.Names.{Named, update_provider_name-Named}
use v2hub_api.Providers.Managed.{resolve_managed_user_hash_iff}

abbrev one : Provider
one = record {
  provider_hash = codes "p";
  owner_hash = codes "a";
  provider_name = codes "One";
  api_token = codes "t1";
  provider_url = none;
  is_active = true;
}

abbrev two : Provider
two = record {
  provider_hash = codes "q";
  owner_hash = codes "b";
  provider_name = codes "Two";
  api_token = codes "t2";
  provider_url = none;
  is_active = false;
}

abbrev providers : Providers
providers = one ∷ two ∷ []

abbrev ann : User
ann = record { user_hash = codes "a"; user_id = 7; api_token = codes "u1"; is_active = true }

abbrev grant_row : Authorization
grant_row = record { provider_hash = codes "p"; user_hash = codes "a"; status = approved }

row-IsKeyed : (a : Authorization) → IsKeyed (a ∷ [])
unfolding Grants.get_by_hash
row-IsKeyed a = (refl, tt)

only_two : (u : Provider) → Memᴰ u (two ∷ []) → u ≡ two
only_two u m = elim ((Memᴰ-cons u two []).0 m) [ inl e ↦ e | inr n ↦ absurd (not-Memᴰ-nil u n) ]

apart : (a b u v : Provider) → clashes a b ≡ false → u ≡ a → v ≡ b → clashes u v ≢ true
apart a b u v differ ua vb h = cc (differ, ap (λ w. clashes w v) (sym ua) ∙ h, ap (clashes a) vb)

providers-IsUnique : IsUnique providers
unfolding text_eq
providers-IsUnique u v mu mv h = elim ((Memᴰ-cons u one (two ∷ [])).0 mu) [
  | inl ua ↦ elim ((Memᴰ-cons v one (two ∷ [])).0 mv) [
    | inl va ↦ ua ∙ sym va
    | inr vb ↦ absurd (apart one two u v refl ua (only_two v vb) h)
  ]
  | inr ub ↦ elim ((Memᴰ-cons v one (two ∷ [])).0 mv) [
    | inl va ↦ absurd (apart two one u v refl (only_two u ub) va h)
    | inr vb ↦ only_two u ub ∙ sym (only_two v vb)
  ]
]

update_provider_name-Named_example :
    ((get_by_hash (codes "q") providers ≡ none)
      × (update_provider_name (codes "q") (codes "One") providers ≡ (err not_found, providers)))
    ⊎ ((p : Provider) × (get_by_hash (codes "q") providers ≡ some p)
        × Named
            (codes "One")
            p
            providers
            (update_provider_name (codes "q") (codes "One") providers))
update_provider_name-Named_example =
    update_provider_name-Named (codes "q") (codes "One") providers providers-IsUnique

resolve_managed_user_hash_iff_example :
    (resolve_managed_user_hash one 7 (ann ∷ []) (grant_row ∷ []) ≡ ok (codes "a")) ↔ (
      (u : User) × (a : Authorization) × (get_by_user_id 7 (ann ∷ []) ≡ some u)
      × (u.user_hash ≡ codes "a")
      × (Grants.get_by_hash (codes "p") (codes "a") (grant_row ∷ []) ≡ some a)
      × (a.status ≡ approved))
resolve_managed_user_hash_iff_example =
    resolve_managed_user_hash_iff one 7 (codes "a") (ann ∷ []) (grant_row ∷ [])
      (row-IsKeyed grant_row)

found : get_by_user_id 7 (ann ∷ []) ≡ some ann
unfolding get_by_user_id find
found = refl

withdrawn :
    revoke (codes "p") (codes "a") (grant_row ∷ [])
    ≡ (ok (record grant_row { status = revoked }), record grant_row { status = revoked } ∷ [])
unfolding revoke Grants.get_by_hash Grants.set_status text_eq
withdrawn = refl

-- An inactive provider is refused, and a provider without an owner among the users.
refusals :
    (authenticate_provider (codes "t2") providers ≡ err inactive)
    × (create_provider
          (ann ∷ [])
          (codes "r")
          (codes "t3")
          (codes "c")
          (codes "Three")
          none
          providers
        ≡ (err integrity_error, providers))
unfolding authenticate_provider authenticated get_by_api_token find text_eq create_provider
    create_missing insert_provider get_by_owner_hash Accounts.get_by_hash
refusals = (refl, refl)
