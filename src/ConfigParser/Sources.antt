-- ===== src/ConfigParser/Sources.antt =====
-- src/v2hub_api/utils/config_parser.py, `normalize_source` and `_normalize_sources`: the comments
-- that clients have percent-encoded, once or more often.
use v2hub_api.Base.{
  ℕ, zero, suc, true, false, ◌||◌, Option, none, some, List, [], ◌∷◌, ◌++◌, Text, has, length,
  if◌then◌else◌, ltb, text_eq, Result, ok, err, ◌>>=◌,
}
use v2hub_api.Base.Strings.{strip, split_once}
use v2hub_api.Base.Unquote.{unquote}
use v2hub_api.ConfigParser.{hash_sign, is_empty}

-- A ValueError with the greatest length, a TypeError, and a loop that has not ended.
pub data NormalizeError : Type 0 where
  comment_too_long : ℕ → NormalizeError
  not_a_source endless : NormalizeError

-- `while prev != comment`, with a bound on its rounds
unfoldable pub unquote_all : ℕ → Text → Option Text
unquote_all zero comment = none
unquote_all (suc n) comment = elim (text_eq comment (unquote comment)) [
  | true ↦ some comment
  | false ↦ unquote_all n (unquote comment)
]

abbrev pub exceeds : Option ℕ → ℕ → Result NormalizeError Unit
exceeds none n = ok tt
exceeds (some max_length) n = if ltb max_length n then err (comment_too_long max_length) else ok tt

unfoldable pub restore : Option ℕ → Text → Option Text → Result NormalizeError Text
restore max_length url none = err endless
restore max_length url (some comment) =
    exceeds max_length (length (strip comment)) >>= (λ _. ok (url ++ b'#' ∷ strip comment))

unfoldable pub normalize_source : Option ℕ → Text → Result NormalizeError Text
normalize_source max_length source = elim (split_once hash_sign source) [
  | none ↦ ok source
  | some (url, comment) ↦ restore max_length url (unquote_all (suc (length comment)) comment)
]

-- A value is a string, a dict with its "data" (a string where it has any) and its other fields, or
-- anything else.
pub data SourceValue (F : Type 0) : Type 0 where
  string : Text → SourceValue F
  dict : Option Text → F → SourceValue F
  other : SourceValue F

abbrev get_data : Option Text → Text
get_data none = []
get_data (some data_) = data_

module _ {F : Type 0} where
  unfoldable pub key_of : SourceValue F → Option Text
  key_of (string s) = some (strip s)
  key_of (dict data_ fields) = some (strip (get_data data_))
  key_of other = none

  abbrev pub fields_of : SourceValue F → Option F
  fields_of (string s) = none
  fields_of (dict data_ fields) = some fields
  fields_of other = none

  unfoldable pub normalize_from :
      Option ℕ → List Text → List (SourceValue F) → Result NormalizeError (List (Text × Option F))
  normalize_from max_length seen [] = ok []
  normalize_from max_length seen (item ∷ items) = elim (key_of item) [
    | none ↦ err not_a_source
    | some key ↦ elim (is_empty key || has seen key) [
      | true ↦ normalize_from max_length seen items
      | false ↦ normalize_source max_length key >>= (λ data_.
          normalize_from max_length (seen ++ key ∷ []) items
          >>= (λ rest. ok ((data_, fields_of item) ∷ rest)))
    ]
  ]

  unfoldable pub normalize_sources :
      Option ℕ → List (SourceValue F) → Result NormalizeError (List (Text × Option F))
  normalize_sources max_length values = normalize_from max_length [] values
