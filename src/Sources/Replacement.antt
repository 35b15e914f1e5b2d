-- ===== src/Sources/Replacement.antt =====
-- subscription_service.py, `remove_sources` and `replace_sources`.
use v2hub_api.Base.{true, not, keep_if, List, [], ◌∷◌, Text, has, Result, ok, err, ◌>>=◌}
use v2hub_api.Enums.{SourceType}
use v2hub_api.ConfigParser.{get_config_hash, split_config_and_comment, get_url_hash}
use v2hub_api.Sources.{SourceCreateRequest, SourceError, Rows, Env, ids}
use v2hub_api.Sources.Add.{detect_source_type, add_sources_internal}

module _ (env : Env) where
  unfoldable pub remove_sources : List Text → Rows → Rows
  remove_sources source_ids rows = record rows {
    sources = keep_if (λ s. not (has source_ids s.id)) rows.sources;
  }

  unfoldable pub source_id : SourceType → Text → Text
  source_id SourceType.config text = get_config_hash env.blake2b (split_config_and_comment text).0
  source_id SourceType.external_url text = get_url_hash env.blake2b text
  source_id SourceType.internal_token text = get_url_hash env.blake2b text

  unfoldable pub preserved_ids : List SourceCreateRequest → Result SourceError (List Text)
  unfolding source_id
  preserved_ids [] = ok []
  preserved_ids (request ∷ requests) = detect_source_type env request.data_text >>= λ source_type.
      preserved_ids requests >>= λ rest. ok (source_id source_type request.data_text ∷ rest)

  -- The removal is committed before the sources are added, so the rows that stay come too.
  unfoldable pub replaced :
      Text
      → List SourceCreateRequest
      → Rows
      → Result SourceError Rows
      → Result SourceError Rows × Rows
  replaced token requests rows (ok rows') = (ok rows', rows')
  replaced token requests rows (err e) = (err e, rows)

  unfoldable pub replace_sources :
      Text → List SourceCreateRequest → Rows → Result SourceError Rows × Rows
  unfolding preserved_ids replaced
  replace_sources token requests rows = elim (preserved_ids requests) [
    | err e ↦ (err e, rows)
    | ok preserved ↦
        let unwanted = keep_if (λ id. not (has preserved id)) (ids rows.sources) in
        let left = remove_sources unwanted rows in
        replaced token requests left (add_sources_internal env token true requests left)
  ]
