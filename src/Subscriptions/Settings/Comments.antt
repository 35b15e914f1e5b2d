-- ===== src/Subscriptions/Settings/Comments.antt =====
-- config_comment_repository.py: what comment is read after one is stored.
use v2hub_api.Base.{
  ok, err, has, ◌⊎◌, ◌||◌, ◌≡◌, refl, inl, inr, ap, Bool, true, false, ◌&&◌, Option, none, some,
  List, [], ◌∷◌, ◌++◌, Text, text_eq, text_eq_iff, if◌then◌else◌, arith, Bool-cases, Option-cases,
}
use v2hub_api.Base.Strings.{is_some}
use v2hub_api.Base.Tables.{find, replace, find-replace, find-some}
use v2hub_api.Subscriptions.Settings.{
  upsert_comment, integrity_error, ConfigComment, has_key, get_comment, write_comment, put_given,
}

-- The comment that is stored for a config of a subscription, and the source that is.
abbrev pub text_of : Option ConfigComment → Option Text
text_of none = none
text_of (some c) = some c.comment

-- whether two pairs of keys are the same
abbrev pub same_keys : Text → Text → Text → Text → Bool
same_keys token config_hash t h = text_eq token t && text_eq config_hash h

find-append :
    (t h token config_hash comment : Text) (comments : List ConfigComment)
    → get_comment token config_hash comments ≡ none
    → text_of (
        get_comment t h (
          comments
          ++ (record { subscription_token = token; config_hash = config_hash; comment = comment })
            ∷ []))
      ≡ (if same_keys token config_hash t h
          then some comment
          else text_of (get_comment t h comments))
unfolding get_comment find
find-append t h token config_hash comment [] e = ground arith
find-append t h token config_hash comment (c ∷ cs) e =
    elim (Bool-cases (has_key token config_hash c)) [
      | inl same ↦ cc (rw (find, same) at e)
      | inr other ↦
          let rest = find-append t h token config_hash comment cs (rw (find, other) at e) in
          ground (arith, rest, text_eq_iff token t, text_eq_iff config_hash h)
    ]

-- A row with one pair of keys has no other pair.
has_key-apart :
    (t h token config_hash : Text) (c : ConfigComment)
    → same_keys token config_hash t h ≡ false
    → has_key token config_hash c ≡ true
    → has_key t h c ≡ false
has_key-apart t h token config_hash c apart key = ground (
  arith,
  text_eq_iff token t,
  text_eq_iff config_hash h,
  text_eq_iff c.subscription_token token,
  text_eq_iff c.config_hash config_hash,
  text_eq_iff c.subscription_token t,
  text_eq_iff c.config_hash h,
)

find-replaced :
    (p : ConfigComment → Bool) (new : ConfigComment) (comments : List ConfigComment)
    → p new ≡ true
    → is_some (find p comments) ≡ true
    → find p (replace p new comments) ≡ some new
unfolding find replace
find-replaced p new [] k e = cc e
find-replaced p new (c ∷ cs) k e = ground (arith, find-replaced p new cs k)

find-replace_comment :
    (t h token config_hash : Text) (new : ConfigComment) (comments : List ConfigComment)
    → has_key token config_hash new ≡ true
    → is_some (get_comment token config_hash comments) ≡ true
    → text_of (get_comment t h (replace (has_key token config_hash) new comments)) ≡ (
        if same_keys token config_hash t h
        then some new.comment
        else text_of (get_comment t h comments))
unfolding get_comment
find-replace_comment t h token config_hash new comments key e =
    elim (Bool-cases (same_keys token config_hash t h)) [
      | inl wanted ↦
          let same_token : token ≡ t = ground (arith, text_eq_iff token t) in
          let same_hash : config_hash ≡ h = ground (arith, text_eq_iff config_hash h) in
          rw wanted (
            rw (← same_token, ← same_hash)
              (ap text_of (find-replaced (has_key token config_hash) new comments key e)))
      | inr apart ↦ rw apart (
          ap text_of (
            find-replace (has_key t h) (has_key token config_hash) new comments
              (has_key-apart t h token config_hash new apart key)
              (λ b m. has_key-apart t h token config_hash b apart)))
    ]

abbrev pub given : Option Text → Option Text → Option Text
given none old = old
given (some comment) old = some comment

get_comment-key :
    (token config_hash : Text) (comments : List ConfigComment) (existing : ConfigComment)
    → get_comment token config_hash comments ≡ some existing
    → has_key token config_hash existing ≡ true
unfolding get_comment
get_comment-key token config_hash comments existing e =
    (find-some (has_key token config_hash) comments existing e).1

read_comment-write_comment :
    (t h token config_hash comment : Text) (comments : List ConfigComment)
    → text_of (get_comment t h (write_comment token config_hash comment comments)) ≡ (
        if same_keys token config_hash t h
        then some comment
        else text_of (get_comment t h comments))
unfolding write_comment
read_comment-write_comment t h token config_hash comment comments =
    elim (Option-cases (get_comment token config_hash comments)) [
      | inl missing ↦
          rw (write_comment, missing) (find-append t h token config_hash comment comments missing)
      | inr (existing, e) ↦
          let key : has_key token config_hash existing ≡ true =
            get_comment-key token config_hash comments existing e in
          rw (write_comment, e)
            (find-replace_comment t h token config_hash (record existing { comment = comment })
              comments key (rw e refl))
    ]

-- The comments in which a given one is read at its keys, and all others as before.
abbrev pub IsPut : Text → Text → Option Text → List ConfigComment → List ConfigComment → Type 0
IsPut token config_hash comment comments out =
    (t h : Text)
    → text_of (get_comment t h out) ≡ (
        if same_keys token config_hash t h
        then given comment (text_of (get_comment t h comments))
        else text_of (get_comment t h comments))

-- A comment that cannot be stored: there is none yet, and its hash is no config's.
abbrev pub IsRefused : Text → Text → Option Text → List Text → List ConfigComment → Type 0
IsRefused token config_hash comment config_hashes comments =
    (is_some comment ≡ true)
    × (is_some (get_comment token config_hash comments) ≡ false)
    × (has config_hashes config_hash ≡ false)

pub put_given-cases :
    (token config_hash : Text) (comment : Option Text) (config_hashes : List Text)
    (comments : List ConfigComment)
    → ((out : List ConfigComment) × (put_given token config_hash comment config_hashes comments
          ≡ ok out)
        × IsPut token config_hash comment comments out)
      ⊎ ((put_given token config_hash comment config_hashes comments
            ≡ err (integrity_error config_hash))
          × IsRefused token config_hash comment config_hashes comments)
unfolding put_given upsert_comment
put_given-cases token config_hash none config_hashes comments =
    inl (comments, refl, (λ t h. ground arith))
put_given-cases token config_hash (some comment) config_hashes comments =
    elim (Bool-cases
      (is_some (get_comment token config_hash comments) || has config_hashes config_hash)) [
        | inl stored ↦ inl (
          write_comment token config_hash comment comments,
          rw stored refl,
          (λ t h. read_comment-write_comment t h token config_hash comment comments),
        )
        | inr refused ↦ inr (rw refused refl, (refl, ground arith, ground arith))
      ]
