-- ===== src/Subscriptions/Settings/Settled.antt =====
-- subscription_service.py, `update_config` and `update_config_comment`: how an update of one source
-- ends.
use v2hub_api.Subscriptions.Settings.Comments.{IsRefused, put_given-cases}
use v2hub_api.Base.{
  if◌then◌else◌, ◌>>=◌, ℕ, ◌≡◌, refl, sym, inl, inr, ◌∙◌, Bool, true, false, Option, none, some,
  List, [], ◌∷◌, map, Text, has, Result, ok, err, Result-cases, arith, Bool-cases,
}
use v2hub_api.Base.Strings.{is_some}
use v2hub_api.Models.{Source, Subscription}
use v2hub_api.Subscriptions.{get_by_token, get_managed_subscription}
use v2hub_api.Subscriptions.Access.{get_managed_subscription_iff}
use v2hub_api.Subscriptions.Settings.{
  managed, ConfigComment, integrity_error, put_given, put_fields, upsert_comment, Stored,
  SettingsError, not_managed, config_not_found, set_fields, set_source, upsert_source, check_source,
  update_config_comment, update_given, update_config,
}
use v2hub_api.Subscriptions.Settings.Updates.{read_source, Reads, committed-Reads, has-find_source}

module _ (token user : Text) (provider : Option Text) (config_hash : Text) where
  -- How an update ends: with the rows changed at one source and its comment, or with the error of
  -- who may not manage the subscription, or for a source that the subscription has not.
  abbrev pub Settled :
      Option Text → Option Bool → Option ℕ → Stored → Result SettingsError Stored → Type 0
  Settled comment is_hidden max_depth db (ok after) =
      Reads token config_hash comment is_hidden max_depth db after
      × (is_some (read_source token config_hash db) ≡ true)
      × ((sub : Subscription) × (get_managed_subscription token user provider db.subscriptions
            ≡ ok sub))
  Settled comment is_hidden max_depth db (err (not_managed e)) =
      get_managed_subscription token user provider db.subscriptions ≡ err e
  Settled comment is_hidden max_depth db (err (integrity_error id)) =
      (id ≡ config_hash) × IsRefused token config_hash comment db.config_hashes db.comments
  Settled comment is_hidden max_depth db (err (config_not_found id)) =
      (id ≡ config_hash) × (is_some (read_source token config_hash db) ≡ false)

  found-source :
      (db : Stored) (sub : Subscription)
      → get_managed_subscription token user provider db.subscriptions ≡ ok sub
      → has (map (λ s. s.id) sub.sources) config_hash ≡ is_some (read_source token config_hash db)
  unfolding read_source
  found-source db sub e =
      let found : get_by_token token db.subscriptions ≡ some sub =
        ((get_managed_subscription_iff token user provider db.subscriptions sub).0 e).0 in
      rw found (has-find_source config_hash sub.sources)

  -- `update_config` succeeds only for a subscription that the user, or the provider for the user,
  -- manages, and a source that it has. Then the comment and the two settings that are given are
  -- read for this source, those that are not given stay, and every other comment and source, also
  -- of other subscriptions, is read as before. Else it is the error of the management, or that the
  -- subscription has no such source, or the database's refusal of a first comment for a source that
  -- is no stored config.
  pub update_config-Settled :
      (comment : Option Text) (is_hidden : Option Bool) (max_depth : Option ℕ) (db : Stored)
      → Settled comment is_hidden max_depth db
          (update_config token user provider config_hash comment is_hidden max_depth db)
  unfolding update_config check_source
  update_config-Settled comment is_hidden max_depth db =
      elim (Result-cases (get_managed_subscription token user provider db.subscriptions)) [
        | inr (x, e) ↦ rw (update_config, e) e
        | inl (sub, e) ↦
            rw (update_config, e)
              (elim (Bool-cases (has (map (λ s. s.id) sub.sources) config_hash)) [
                | inr missing ↦
                    rw (check_source, missing) (refl, sym (found-source db sub e) ∙ missing)
                | inl there ↦
                    rw (check_source, there)
                      (elim (put_given-cases token config_hash comment db.config_hashes
                        db.comments) [
                          | inr (failed, refused) ↦ rw (update_given, failed) (refl, refused)
                          | inl (out, written, put) ↦
                              rw (update_given, written)
                                (
                                  committed-Reads token config_hash comment is_hidden max_depth db
                                      out put,
                                  sym (found-source db sub e) ∙ there,
                                  (sub, e),
                                )
                        ])
              ])
      ]

set_source-same :
    (id : Text) (sources : List Source) → set_source (set_fields none none) id sources ≡ sources
unfolding set_source
set_source-same id [] = refl
set_source-same id (s ∷ ss) = ground (arith, set_source-same id ss)

upsert_source-same :
    (token id : Text) (subs : List Subscription)
    → upsert_source (set_fields none none) token id subs ≡ subs
unfolding upsert_source
upsert_source-same token id [] = refl
upsert_source-same token id (sub ∷ subs) =
    ground (arith, upsert_source-same token id subs, set_source-same id sub.sources)

bind-eq :
    {E A B : Type 0} (r : Result E A) (f g : A → Result E B)
    → ((a : A) → f a ≡ g a)
    → (r >>= f) ≡ (r >>= g)
bind-eq (ok a) f g h = h a
bind-eq (err e) f g h = refl

abbrev flagged : Text → Text → Stored → List ConfigComment → Result SettingsError (Bool × Stored)
flagged token config_hash db comments =
    ok (true, put_fields token config_hash none none db comments)

written-eq :
    (token config_hash : Text) (db : Stored) (written : Result SettingsError (List ConfigComment))
    → (written >>= (λ comments. ok (record db { comments = comments }))) ≡ (
        (written >>= flagged token config_hash db)
        >>= (λ updated. ok (if updated.0 then updated.1 else db)))
unfolding put_fields
written-eq token config_hash db (err e) = refl
written-eq token config_hash db (ok comments) =
    rw (upsert_source-same token config_hash db.subscriptions) refl

-- `update_config_comment` is `update_config` with nothing given but the comment.
pub update_config_comment-eq :
    (token user : Text) (provider : Option Text) (config_hash comment : Text) (db : Stored)
    → update_config_comment token user provider config_hash comment db
      ≡ update_config token user provider config_hash (some comment) none none db
unfolding update_config_comment update_config update_given put_given
update_config_comment-eq token user provider config_hash comment db =
    bind-eq (managed (get_managed_subscription token user provider db.subscriptions)) _ _ (λ sub.
      bind-eq (check_source sub config_hash) _ _ (λ found.
        written-eq token config_hash db
          (upsert_comment token config_hash comment db.config_hashes db.comments)))
