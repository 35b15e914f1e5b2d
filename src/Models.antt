-- ===== src/Models.antt =====
-- src/v2hub_api/db/models/source.py and subscription.py: the rows that the services work on.
use v2hub_api.Base.{ℕ, Bool, Option, none, some, List, [], ◌∷◌, Text}
use v2hub_api.Enums.{SourceType}

-- `proxy_config` is the `config_data` of the related row of proxy_configs.
pub record Source : Type 0 where
  pub id : Text
  pub source_type : SourceType
  pub config_hash : Option Text
  pub internal_token : Option Text
  pub external_url : Option Text
  pub is_hidden : Bool
  pub max_depth : ℕ
  pub order_index : ℕ
  pub proxy_config : Option Text

pub record Subscription : Type 0 where
  pub token : Text
  pub name : Text
  pub user_hash : Text
  pub provider_hash : Option Text
  pub description : Option Text
  pub sources : List Source

-- An optional text as a condition: the empty text counts as none.
abbrev pub filled : Option Text → Option Text
filled none = none
filled (some []) = none
filled (some (c ∷ s)) = some (c ∷ s)
