-- ===== src/Sources/Add.antt =====
-- subscription_service.py, `_add_sources_internal` and the functions that it calls for each kind of
-- source.
use v2hub_api.Base.{
  not, leb, length, ℕ, suc, Bool, false, Option, none, some, List, [], ◌∷◌, ◌++◌, Text, has,
  if◌then◌else◌, Result, ok, err, ◌>>=◌,
}
use v2hub_api.Base.Strings.{is_some, strip}
use v2hub_api.Enums.{SourceType}
use v2hub_api.Models.{Source, Subscription, filled}
use v2hub_api.ConfigParser.{
  detect_protocol, is_empty, get_config_hash, split_config_and_comment, get_url_hash,
  is_valid_proxy_uri,
}
use v2hub_api.Redis.{or_else}
use v2hub_api.References.{check_new_reference}
use v2hub_api.Sources.{
  SourceCreateRequest, SourceError, too_many_sources, invalid_config, invalid_url,
  subscription_not_found, fetch_failed, check_failed, Rows, Env, ids, get_by_pk, upsert_config,
  put_comment, add_seen, extract_token, default_depth,
}

module _ (env : Env) where
  unfoldable pub new_source : Text → SourceType → SourceCreateRequest → ℕ → Source
  new_source id source_type request index = record {
    id = id;
    source_type = source_type;
    config_hash = none;
    internal_token = none;
    external_url = none;
    is_hidden = or_else request.is_hidden false;
    max_depth = or_else request.max_depth default_depth;
    order_index = index;
    proxy_config = none;
  }

  unfoldable pub detect_source_type : Text → Result SourceError SourceType
  detect_source_type source =
      if is_valid_proxy_uri source
      then ok SourceType.config
      else (if env.is_internal source
          then ok SourceType.internal_token
          else (if env.is_http_url source
              then (if env.validate_url_static source
                  then ok SourceType.external_url
                  else err (fetch_failed source))
              else err (invalid_config source)))

  -- a source that is there is updated, one that the request has had already is passed over
  unfoldable pub store :
      Text
      → Option Text
      → Source
      → SourceCreateRequest
      → ℕ
      → Result SourceError (Option Text)
      → List Text × Rows
      → Result SourceError (List Text × Rows)
  store id comment new request index allowed (seen, rows) = elim (get_by_pk id rows.sources) [
    | some existing ↦ ok (
      add_seen id seen,
      record {
        sources = upsert_config id request index rows.sources;
        comments = put_comment id comment rows.comments;
      },
    )
    | none ↦
        if has seen id
        then ok (seen, rows)
        else (allowed >>= λ new_comment. ok (
          add_seen id seen,
          record {
            sources = rows.sources ++ new ∷ [];
            comments = put_comment id new_comment rows.comments;
          },
        ))
  ]

  unfoldable pub config_source : Text → Text → SourceCreateRequest → ℕ → Source
  unfolding new_source
  config_source id base request index = record (new_source id SourceType.config request index) {
    config_hash = some id;
    proxy_config = some base;
  }

  unfoldable pub add_config_source :
      SourceCreateRequest → ℕ → List Text × Rows → Result SourceError (List Text × Rows)
  unfolding store config_source
  add_config_source request index st =
      let (base, comment) = split_config_and_comment request.data_text in
      let id = get_config_hash env.blake2b base in
      let new_comment = some (or_else (filled comment) env.domain) in
      if not (env.validate_proxy_config request.data_text)
      then err (invalid_config request.data_text)
      else store id comment (config_source id base request index) request index
          (if is_some (detect_protocol base)
            then ok new_comment
            else err (invalid_config request.data_text))
          st

  unfoldable pub add_external_source :
      SourceCreateRequest → ℕ → List Text × Rows → Result SourceError (List Text × Rows)
  unfolding store new_source
  add_external_source request index st =
      let url = request.data_text in
      let id = get_url_hash env.blake2b url in
      if not (env.is_http_url url)
      then err (invalid_url url)
      else (if not (env.validate_external_url url)
          then err (invalid_url url)
          else store id none
              (record (new_source id SourceType.external_url request index) {
                external_url = some url;
              })
              request index (if env.refresh_raises url then err (fetch_failed url) else ok none) st)

  unfoldable pub add_linked :
      Text
      → Text
      → Option Subscription
      → SourceCreateRequest
      → ℕ
      → List Text × Rows
      → Result SourceError (List Text × Rows)
  unfolding store new_source
  add_linked subscription_token token none request index st =
      err (subscription_not_found request.data_text)
  add_linked subscription_token token (some sub) request index st =
      let id = get_url_hash env.blake2b request.data_text in
      elim (check_new_reference env.get_by_token env.max_nesting_depth subscription_token token) [
        | err e ↦ err (check_failed e)
        | ok checked ↦
            store id none
              (record (new_source id SourceType.internal_token request index) {
                internal_token = some token;
              })
              request index (ok none) st
      ]

  unfoldable pub add_token :
      Text
      → Option Text
      → SourceCreateRequest
      → ℕ
      → List Text × Rows
      → Result SourceError (List Text × Rows)
  unfolding add_linked
  add_token subscription_token none request index st =
      err (subscription_not_found request.data_text)
  add_token subscription_token (some token) request index st =
      add_linked subscription_token token (env.get_by_token token) request index st

  unfoldable pub add_internal_source :
      Text → SourceCreateRequest → ℕ → List Text × Rows → Result SourceError (List Text × Rows)
  unfolding add_token
  add_internal_source subscription_token request index st =
      add_token subscription_token (extract_token request.data_text) request index st

  unfoldable pub add_source :
      Text
      → SourceType
      → SourceCreateRequest
      → ℕ
      → List Text × Rows
      → Result SourceError (List Text × Rows)
  unfolding add_config_source add_external_source add_internal_source
  add_source token SourceType.config request index st = add_config_source request index st
  add_source token SourceType.external_url request index st = add_external_source request index st
  add_source token SourceType.internal_token request index st =
      add_internal_source token request index st

  -- the loop of `_add_sources_internal`
  unfoldable pub add_each :
      Text → List SourceCreateRequest → ℕ → List Text × Rows → Result SourceError (List Text × Rows)
  unfolding add_source
  add_each token [] index st = ok st
  add_each token (request ∷ requests) index st =
      let skipped = add_each token requests index st in
      let added = detect_source_type (strip request.data_text) >>= λ source_type.
      add_source token source_type request index st >>= λ st'.
      add_each token requests (suc index) st' in
      if is_empty (strip request.data_text)
      then skipped
      else (if leb env.max_sources (length st.0)
          then err (too_many_sources (length st.0) env.max_sources)
          else added)

  unfoldable pub add_sources_internal :
      Text → Bool → List SourceCreateRequest → Rows → Result SourceError Rows
  unfolding add_each
  add_sources_internal token reset_indexes requests rows =
      let count = length rows.sources in
      if leb env.max_sources count
      then err (too_many_sources count env.max_sources)
      else (add_each token requests (if reset_indexes then 0 else count) (ids rows.sources, rows)
          >>= λ st. ok st.1)
