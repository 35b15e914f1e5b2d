-- ===== src/Subscriptions/Settings/Tests.antt =====
-- The settings of one source of a concrete subscription.
use v2hub_api.Base.{◌≡◌, refl, true, false, none, some, [], ◌∷◌, Text, codes, text_eq, has, ok, err}
use v2hub_api.Base.Tables.{find, replace}
use v2hub_api.Enums.{SourceType}
use v2hub_api.Models.{Source, Subscription}
use v2hub_api.Subscriptions.{
  get_by_token, get_managed_subscription, load_subscription, authorization_error,
}
use v2hub_api.Subscriptions.Settings.{
  integrity_error, write_comment, put_given, put_fields, Stored, ConfigComment, not_managed,
  config_not_found, get_comment, upsert_comment, set_source, upsert_source, check_source,
  update_config_comment, update_given, update_config,
}
use v2hub_api.Subscriptions.Settings.Settled.{Settled, update_config-Settled}

abbrev link : Text → Source
link id = record {
  id = id;
  source_type = SourceType.config;
  config_hash = some id;
  internal_token = none;
  external_url = none;
  is_hidden = false;
  max_depth = 3;
  order_index = 0;
  proxy_config = some id;
}

abbrev subscription : Subscription
subscription = record {
  token = codes "t";
  name = codes "work";
  user_hash = codes "u";
  provider_hash = none;
  description = none;
  sources = link (codes "a") ∷ link (codes "b") ∷ [];
}

abbrev note : Text → Text → ConfigComment
note id text = record { subscription_token = codes "t"; config_hash = id; comment = text }

abbrev two_sources : Stored
two_sources = record {
  subscriptions = subscription ∷ [];
  comments = note (codes "b") (codes "old") ∷ [];
  config_hashes = codes "a" ∷ codes "b" ∷ [];
}

abbrev hidden_and_renamed : Stored
hidden_and_renamed = record {
  subscriptions =
      record subscription {
        sources = link (codes "a") ∷ record (link (codes "b")) { is_hidden = true } ∷ [];
      }
      ∷ [];
  comments = note (codes "b") (codes "new") ∷ [];
  config_hashes = codes "a" ∷ codes "b" ∷ [];
}

update_config-Settled_example :
    Settled
      (codes "t")
      (codes "u")
      none
      (codes "b")
      (some (codes "new"))
      (some true)
      none
      two_sources
      (update_config
        (codes "t")
        (codes "u")
        none
        (codes "b")
        (some (codes "new"))
        (some true)
        none
        two_sources)
update_config-Settled_example =
    update_config-Settled (codes "t") (codes "u") none (codes "b") (some (codes "new")) (some true)
      none two_sources

both_changed :
    update_config
      (codes "t")
      (codes "u")
      none
      (codes "b")
      (some (codes "new"))
      (some true)
      none
      two_sources
    ≡ ok hidden_and_renamed
unfolding update_config update_given put_given put_fields write_comment upsert_source set_source
    upsert_comment get_comment find replace check_source get_managed_subscription load_subscription
    get_by_token has text_eq
both_changed = refl

first_comment :
    update_config_comment (codes "t") (codes "u") none (codes "a") (codes "x") two_sources
    ≡ ok (record two_sources {
      comments = note (codes "b") (codes "old") ∷ note (codes "a") (codes "x") ∷ [];
    })
unfolding update_config_comment write_comment upsert_comment get_comment find replace check_source
    get_managed_subscription load_subscription get_by_token has text_eq
first_comment = refl

foreign_user :
    update_config_comment (codes "t") (codes "v") none (codes "a") (codes "x") two_sources
    ≡ err (not_managed authorization_error)
unfolding update_config_comment get_managed_subscription load_subscription get_by_token text_eq
foreign_user = refl

no_source :
    update_config_comment (codes "t") (codes "u") none (codes "c") (codes "x") two_sources
    ≡ err (config_not_found (codes "c"))
unfolding update_config_comment check_source get_managed_subscription load_subscription get_by_token
    has text_eq
no_source = refl

abbrev no_configs : Stored
no_configs = record two_sources { config_hashes = [] }

-- The comment of a source that is no stored config is refused by the database.
refused_comment :
    update_config_comment (codes "t") (codes "u") none (codes "a") (codes "x") no_configs
    ≡ err (integrity_error (codes "a"))
unfolding update_config_comment upsert_comment get_comment find check_source
    get_managed_subscription load_subscription get_by_token has text_eq
refused_comment = refl
