-- ===== src/Subscriptions/Settings/Updates.antt =====
-- subscription_service.py, `update_config`: what is read after an update of one source.
use v2hub_api.Base.{
  ◌||◌, ℕ, ◌≡◌, refl, sym, Bool, true, false, Option, none, some, List, [], ◌∷◌, map, Text, text_eq,
  text_eq_iff, has, if◌then◌else◌, arith,
}
use v2hub_api.Base.Strings.{is_some}
use v2hub_api.Base.Tables.{find}
use v2hub_api.Models.{Source, Subscription}
use v2hub_api.Subscriptions.{get_by_token}
use v2hub_api.Subscriptions.Settings.{
  ConfigComment, put_fields, Stored, get_comment, set_fields, set_source, upsert_source,
}
use v2hub_api.Subscriptions.Settings.Comments.{IsPut, text_of, same_keys, given}

abbrev pub read_comment : Text → Text → Stored → Option Text
read_comment token config_hash db = text_of (get_comment token config_hash db.comments)

unfoldable pub find_source : Text → List Source → Option Source
find_source config_hash = find (λ s. text_eq s.id config_hash)

abbrev pub sources_of : Option Subscription → List Source
sources_of none = []
sources_of (some sub) = sub.sources

unfoldable pub read_source : Text → Text → Stored → Option Source
unfolding find_source
read_source token config_hash db =
    find_source config_hash (sources_of (get_by_token token db.subscriptions))

abbrev pub apply : (Source → Source) → Option Source → Option Source
apply set none = none
apply set (some s) = some (set s)

find-set_source :
    (set : Source → Source) (h config_hash : Text) (sources : List Source)
    → ((s : Source) → (set s).id ≡ s.id)
    → find_source h (set_source set config_hash sources)
      ≡ (if text_eq config_hash h then apply set (find_source h sources) else find_source h sources)
unfolding find_source find set_source
find-set_source set h config_hash [] keeps = ground arith
find-set_source set h config_hash (s ∷ ss) keeps = ground (
  arith,
  find-set_source set h config_hash ss keeps,
  keeps s,
  text_eq_iff config_hash h,
  text_eq_iff s.id h,
  text_eq_iff s.id config_hash,
)

find-nothing :
    (set : Source → Source) (h : Text) (b : Bool)
    → find_source h [] ≡ (if b then apply set (find_source h []) else find_source h [])
unfolding find_source find
find-nothing set h true = refl
find-nothing set h false = refl

read-upsert_source :
    (set : Source → Source) (t h token config_hash : Text) (subs : List Subscription)
    → ((s : Source) → (set s).id ≡ s.id)
    → find_source h (sources_of (get_by_token t (upsert_source set token config_hash subs))) ≡ (
        if same_keys token config_hash t h
        then apply set (find_source h (sources_of (get_by_token t subs)))
        else find_source h (sources_of (get_by_token t subs)))
unfolding get_by_token upsert_source
read-upsert_source set t h token config_hash [] keeps =
    find-nothing set h (same_keys token config_hash t h)
read-upsert_source set t h token config_hash (sub ∷ subs) keeps = ground (
  arith,
  read-upsert_source set t h token config_hash subs keeps,
  find-set_source set h config_hash sub.sources keeps,
  text_eq_iff token t,
  text_eq_iff sub.token t,
  text_eq_iff sub.token token,
)

-- What is read of the rows is what was read before, but for the given values at the two keys.
abbrev pub Reads : Text → Text → Option Text → Option Bool → Option ℕ → Stored → Stored → Type 0
Reads token config_hash comment is_hidden max_depth db after =
    ((t h : Text)
      → read_comment t h after ≡ (
          if same_keys token config_hash t h
          then given comment (read_comment t h db)
          else read_comment t h db))
    × ((t h : Text)
        → read_source t h after ≡ (
            if same_keys token config_hash t h
            then apply (set_fields is_hidden max_depth) (read_source t h db)
            else read_source t h db))

put_fields-Reads :
    (token config_hash : Text) (comment : Option Text) (is_hidden : Option Bool)
    (max_depth : Option ℕ) (db : Stored) (out : List ConfigComment)
    → IsPut token config_hash comment db.comments out
    → Reads token config_hash comment is_hidden max_depth db
        (put_fields token config_hash is_hidden max_depth db out)
unfolding put_fields read_source
put_fields-Reads token config_hash comment is_hidden max_depth db out h = (
  h,
  λ t i.
      read-upsert_source (set_fields is_hidden max_depth) t i token config_hash db.subscriptions
        (λ s. refl),
)

apply-nothing : (o : Option Source) → apply (set_fields none none) o ≡ o
apply-nothing none = refl
apply-nothing (some s) = refl

same_either : {A : Type 0} (b : Bool) (x y : A) → y ≡ x → x ≡ (if b then y else x)
same_either true x y e = sym e
same_either false x y e = refl

pub committed-Reads :
    (token config_hash : Text) (comment : Option Text) (is_hidden : Option Bool)
    (max_depth : Option ℕ) (db : Stored) (out : List ConfigComment)
    → IsPut token config_hash comment db.comments out
    → Reads token config_hash comment is_hidden max_depth db (
        if is_some comment || is_some is_hidden || is_some max_depth
        then put_fields token config_hash is_hidden max_depth db out
        else db)
committed-Reads token config_hash none none none db out h = (
  λ t i.
      same_either (same_keys token config_hash t i) (read_comment t i db) (read_comment t i db)
        refl,
  λ t i.
      same_either (same_keys token config_hash t i) (read_source t i db)
        (apply (set_fields none none) (read_source t i db)) (apply-nothing (read_source t i db)),
)
committed-Reads token config_hash (some c) hidden depth db out h =
    put_fields-Reads token config_hash (some c) hidden depth db out h
committed-Reads token config_hash none (some b) depth db out h =
    put_fields-Reads token config_hash none (some b) depth db out h
committed-Reads token config_hash none none (some d) db out h =
    put_fields-Reads token config_hash none none (some d) db out h

pub has-find_source :
    (config_hash : Text) (sources : List Source)
    → has (map (λ s. s.id) sources) config_hash ≡ is_some (find_source config_hash sources)
unfolding has find_source find
has-find_source config_hash [] = refl
has-find_source config_hash (s ∷ ss) = ground (arith, has-find_source config_hash ss)
