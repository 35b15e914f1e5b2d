-- ===== src/CacheService/Repository.antt =====
-- db/repositories/external_cache_repository.py over db/models/external_cache.py: the table of cached
-- contents. `url_hash` is its primary key, by which rows are updated and deleted.
use v2hub_api.Base.{ℕ, suc, Option, none, some, List, [], ◌∷◌, ◌++◌, Text, text_eq, if◌then◌else◌}
use v2hub_api.HttpClient.{ExternalFetchError}

-- `last_error` is the message of the error, kept as the error that it is made from.
pub record ExternalCache : Type 0 where
  pub url_hash : Text
  pub url : Text
  pub raw_content : Option Text
  pub fetched_at : Option ℕ
  pub last_error : Option ExternalFetchError
  pub error_count : ℕ

unfoldable pub get_by_url_hash : Text → List ExternalCache → Option ExternalCache
get_by_url_hash url_hash [] = none
get_by_url_hash url_hash (row ∷ rows) =
    if text_eq row.url_hash url_hash then some row else get_by_url_hash url_hash rows

abbrev pub content_of : Option ExternalCache → Option Text
content_of none = none
content_of (some row) = row.raw_content

-- `_get_from_db` of the service
unfoldable pub get_content : Text → List ExternalCache → Option Text
get_content url_hash rows = content_of (get_by_url_hash url_hash rows)

-- UPDATE by the primary key
unfoldable pub update_row : ExternalCache → List ExternalCache → List ExternalCache
update_row new [] = []
update_row new (row ∷ rows) =
    (if text_eq row.url_hash new.url_hash then new else row) ∷ update_row new rows

unfoldable pub updated :
    Text → Option Text → Option ExternalFetchError → ℕ → ExternalCache → ExternalCache
updated url none none now old = record old { url = url }
updated url none (some e) now old = record old {
  url = url;
  last_error = some e;
  error_count = suc old.error_count;
}
updated url (some content) last_error now old = record old {
  url = url;
  raw_content = some content;
  fetched_at = some now;
}

abbrev pub first_count : Option ExternalFetchError → ℕ
first_count none = 0
first_count (some e) = 1

abbrev pub new_row : Text → Text → Option Text → Option ExternalFetchError → ExternalCache
new_row url_hash url raw_content last_error = record {
  url_hash = url_hash;
  url = url;
  raw_content = raw_content;
  fetched_at = none;
  last_error = last_error;
  error_count = first_count last_error;
}

unfoldable pub stored :
    Text
    → Text
    → Option Text
    → Option ExternalFetchError
    → ℕ
    → Option ExternalCache
    → List ExternalCache
    → List ExternalCache
stored url_hash url raw_content last_error now (some old) rows =
    update_row (updated url raw_content last_error now old) rows
stored url_hash url raw_content last_error now none rows =
    rows ++ new_row url_hash url raw_content last_error ∷ []

unfoldable pub create_or_update_cache :
    Text
    → Text
    → Option Text
    → Option ExternalFetchError
    → ℕ
    → List ExternalCache
    → List ExternalCache
create_or_update_cache url_hash url raw_content last_error now rows =
    stored url_hash url raw_content last_error now (get_by_url_hash url_hash rows) rows

-- DELETE by the primary key
unfoldable pub delete_by_url_hash : Text → List ExternalCache → List ExternalCache
delete_by_url_hash url_hash [] = []
delete_by_url_hash url_hash (row ∷ rows) =
    if text_eq row.url_hash url_hash
    then delete_by_url_hash url_hash rows
    else row ∷ delete_by_url_hash url_hash rows
