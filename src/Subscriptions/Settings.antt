-- ===== src/Subscriptions/Settings.antt =====
-- subscription_service.py, `check_source`, `update_config_comment` and `update_config`, with
-- src/v2hub_api/db/repositories/config_comment_repository.py: the settings of one source.
mod Comments
mod Updates
pub mod Settled
mod Tests
use v2hub_api.Base.{
  ℕ, Bool, true, false, not, ◌&&◌, ◌||◌, Option, none, some, List, [], ◌∷◌, ◌++◌, map, Text,
  text_eq, has, if◌then◌else◌, Result, ok, err, ◌>>=◌,
}
use v2hub_api.Base.Strings.{is_some}
use v2hub_api.Base.Tables.{find, replace}
use v2hub_api.Models.{Source, Subscription}
use v2hub_api.Redis.{or_else}
use v2hub_api.Subscriptions.{SubscriptionError, get_managed_subscription}

pub record ConfigComment : Type 0 where
  pub subscription_token : Text
  pub config_hash : Text
  pub comment : Text

pub record Stored : Type 0 where
  pub subscriptions : List Subscription
  pub comments : List ConfigComment
  -- the keys of the table proxy_configs, which a comment refers to
  pub config_hashes : List Text

pub data SettingsError : Type 0 where
  not_managed : SubscriptionError → SettingsError
  config_not_found : Text → SettingsError
  -- the database's refusal of a comment for a hash that is no config's
  integrity_error : Text → SettingsError

abbrev pub has_key : Text → Text → ConfigComment → Bool
has_key token config_hash c =
    text_eq c.subscription_token token && text_eq c.config_hash config_hash

unfoldable pub get_comment : Text → Text → List ConfigComment → Option ConfigComment
get_comment token config_hash = find (has_key token config_hash)

unfoldable pub write_comment : Text → Text → Text → List ConfigComment → List ConfigComment
unfolding get_comment
write_comment token config_hash comment comments = elim (get_comment token config_hash comments) [
  | some existing ↦
      replace (has_key token config_hash) (record existing { comment = comment }) comments
  | none ↦
      comments
      ++ (record { subscription_token = token; config_hash = config_hash; comment = comment }) ∷ []
]

unfoldable pub upsert_comment :
    Text → Text → Text → List Text → List ConfigComment → Result SettingsError (List ConfigComment)
unfolding get_comment write_comment
upsert_comment token config_hash comment config_hashes comments =
    if is_some (get_comment token config_hash comments) || has config_hashes config_hash
    then ok (write_comment token config_hash comment comments)
    else err (integrity_error config_hash)

-- the fields of a source that are given
abbrev pub set_fields : Option Bool → Option ℕ → Source → Source
set_fields is_hidden max_depth s = record s {
  is_hidden = or_else is_hidden s.is_hidden;
  max_depth = or_else max_depth s.max_depth;
}

-- The row is the one with the two keys, so the first that has them.
unfoldable pub set_source : (Source → Source) → Text → List Source → List Source
set_source set config_hash [] = []
set_source set config_hash (s ∷ ss) =
    if text_eq s.id config_hash then set s ∷ ss else s ∷ set_source set config_hash ss

unfoldable pub upsert_source :
    (Source → Source) → Text → Text → List Subscription → List Subscription
unfolding set_source
upsert_source set token config_hash [] = []
upsert_source set token config_hash (sub ∷ subs) =
    if text_eq sub.token token
    then record sub { sources = set_source set config_hash sub.sources } ∷ subs
    else sub ∷ upsert_source set token config_hash subs

unfoldable pub check_source : Subscription → Text → Result SettingsError Bool
check_source subscription config_hash =
    if has (map (λ s. s.id) subscription.sources) config_hash
    then ok true
    else err (config_not_found config_hash)

abbrev pub managed : Result SubscriptionError Subscription → Result SettingsError Subscription
managed (ok sub) = ok sub
managed (err e) = err (not_managed e)

unfoldable pub update_config_comment :
    Text → Text → Option Text → Text → Text → Stored → Result SettingsError Stored
unfolding check_source upsert_comment
update_config_comment token user provider config_hash comment db =
    managed (get_managed_subscription token user provider db.subscriptions) >>= λ sub.
    check_source sub config_hash >>= λ found.
    upsert_comment token config_hash comment db.config_hashes db.comments >>= λ comments.
    ok (record db { comments = comments })

unfoldable pub put_given :
    Text
    → Text
    → Option Text
    → List Text
    → List ConfigComment
    → Result SettingsError (List ConfigComment)
unfolding upsert_comment
put_given token config_hash none config_hashes comments = ok comments
put_given token config_hash (some comment) config_hashes comments =
    upsert_comment token config_hash comment config_hashes comments

-- the rows, after the comment is written
unfoldable pub put_fields :
    Text → Text → Option Bool → Option ℕ → Stored → List ConfigComment → Stored
unfolding upsert_source
put_fields token config_hash is_hidden max_depth db comments = record db {
  subscriptions = upsert_source (set_fields is_hidden max_depth) token config_hash db.subscriptions;
  comments = comments;
}

-- `_update_config`: whether a value is given, and the rows
unfoldable pub update_given :
    Text
    → Text
    → Option Text
    → Option Bool
    → Option ℕ
    → Stored
    → Result SettingsError (Bool × Stored)
unfolding put_given put_fields
update_given token config_hash comment is_hidden max_depth db =
    put_given token config_hash comment db.config_hashes db.comments >>= λ comments. ok (
      is_some comment || is_some is_hidden || is_some max_depth,
      put_fields token config_hash is_hidden max_depth db comments,
    )

-- Without a value nothing is committed.
unfoldable pub update_config :
    Text
    → Text
    → Option Text
    → Text
    → Option Text
    → Option Bool
    → Option ℕ
    → Stored
    → Result SettingsError Stored
unfolding check_source update_given
update_config token user provider config_hash comment is_hidden max_depth db =
    managed (get_managed_subscription token user provider db.subscriptions) >>= λ sub.
    check_source sub config_hash >>= λ found.
    update_given token config_hash comment is_hidden max_depth db >>= λ updated.
    ok (if updated.0 then updated.1 else db)
