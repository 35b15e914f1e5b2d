-- ===== src/CacheService/Rows.antt =====
-- external_cache_repository.py: what a stored result and a deletion do to the contents that are read.
use v2hub_api.Base.{
  subst, ℕ, ◌≡◌, refl, ◌∙◌, inl, inr, Option, none, some, List, [], ◌∷◌, ◌++◌, Text, text_eq,
  text_eq_iff, arith, if◌then◌else◌, Bool-cases, Option-cases,
}
use v2hub_api.HttpClient.{ExternalFetchError}
use v2hub_api.CacheService.Repository.{
  ExternalCache, get_by_url_hash, get_content, update_row, updated, new_row, stored,
  create_or_update_cache, delete_by_url_hash,
}

-- the content after a result is stored over an old content
abbrev pub kept : Option Text → Option Text → Option Text
kept none old = old
kept (some content) old = some content

found-hash :
    (h : Text) (rows : List ExternalCache) (old : ExternalCache)
    → get_by_url_hash h rows ≡ some old
    → old.url_hash ≡ h
unfolding get_by_url_hash
found-hash h [] old e = cc e
found-hash h (row ∷ rows) old e = ground (arith, text_eq_iff row.url_hash h, found-hash h rows old)

get-update_row :
    (new : ExternalCache) (rows : List ExternalCache) (j : Text)
    → get_by_url_hash j (update_row new rows) ≡ (
        if text_eq new.url_hash j
        then (elim (get_by_url_hash j rows) [ none ↦ none | some old ↦ some new ])
        else get_by_url_hash j rows)
unfolding get_by_url_hash update_row
get-update_row new [] j = ground arith
get-update_row new (row ∷ rows) j = ground (
  arith,
  get-update_row new rows j,
  text_eq_iff row.url_hash new.url_hash,
  text_eq_iff new.url_hash j,
  text_eq_iff row.url_hash j,
)

get-append :
    (rows : List ExternalCache) (row : ExternalCache) (j : Text)
    → get_by_url_hash j (rows ++ row ∷ []) ≡ (elim (get_by_url_hash j rows) [
      | none ↦ if text_eq row.url_hash j then some row else none
      | some old ↦ some old
    ])
unfolding get_by_url_hash
get-append [] row j = ground arith
get-append (r ∷ rows) row j = ground (arith, get-append rows row j)

get-delete_by_url_hash :
    (h : Text) (rows : List ExternalCache) (j : Text)
    → get_by_url_hash j (delete_by_url_hash h rows)
      ≡ (if text_eq h j then none else get_by_url_hash j rows)
unfolding get_by_url_hash delete_by_url_hash
get-delete_by_url_hash h [] j = ground arith
get-delete_by_url_hash h (row ∷ rows) j = ground (
  arith,
  get-delete_by_url_hash h rows j,
  text_eq_iff row.url_hash h,
  text_eq_iff h j,
  text_eq_iff row.url_hash j,
)

pub get_content-delete_by_url_hash :
    (h : Text) (rows : List ExternalCache) (j : Text)
    → get_content j (delete_by_url_hash h rows) ≡ (if text_eq h j then none else get_content j rows)
unfolding get_content
get_content-delete_by_url_hash h rows j =
    rw (get-delete_by_url_hash h rows j)
      (elim (Bool-cases (text_eq h j)) [ inl same ↦ rw same refl | inr other ↦ rw other refl ])

updated-hash :
    (url : Text) (c : Option Text) (e : Option ExternalFetchError) (now : ℕ) (old : ExternalCache)
    → (updated url c e now old).url_hash ≡ old.url_hash
unfolding updated
updated-hash url none none now old = refl
updated-hash url none (some x) now old = refl
updated-hash url (some s) e now old = refl

updated-content :
    (url : Text) (c : Option Text) (e : Option ExternalFetchError) (now : ℕ) (old : ExternalCache)
    → (updated url c e now old).raw_content ≡ kept c old.raw_content
unfolding updated
updated-content url none none now old = refl
updated-content url none (some x) now old = refl
updated-content url (some s) e now old = refl

kept-none : (c : Option Text) → c ≡ kept c none
kept-none none = refl
kept-none (some s) = refl

stored-content :
    (h url : Text) (c : Option Text) (e : Option ExternalFetchError) (now : ℕ)
    (found : Option ExternalCache) (rows : List ExternalCache) (j : Text)
    → get_by_url_hash h rows ≡ found
    → get_content j (stored h url c e now found rows)
      ≡ (if text_eq h j then kept c (get_content h rows) else get_content j rows)
unfolding stored get_content
stored-content h url c e now (some old) rows j f =
    let same : (updated url c e now old).url_hash ≡ h =
      updated-hash url c e now old ∙ found-hash h rows old f in
    rw (get-update_row (updated url c e now old) rows j, same, f)
      (elim (Bool-cases (text_eq h j)) [
        | inr other ↦ rw other refl
        | inl hit ↦
            let read : get_by_url_hash j rows ≡ some old =
              subst (λ k. get_by_url_hash k rows ≡ some old) ((text_eq_iff h j).0 hit) f in
            rw (hit, read) (updated-content url c e now old)
      ])
stored-content h url c e now none rows j f =
    rw (get-append rows (new_row h url c e) j, f)
      (elim (Bool-cases (text_eq h j)) [
        | inr other ↦ rw other (elim (Option-cases (get_by_url_hash j rows)) [
          | inl missing ↦ rw (missing, other) refl
          | inr (row, read) ↦ rw read refl
        ])
        | inl hit ↦
            let read : get_by_url_hash j rows ≡ none =
              subst (λ k. get_by_url_hash k rows ≡ none) ((text_eq_iff h j).0 hit) f in
            rw (read, hit) (kept-none c)
      ])

pub get_content-create_or_update_cache :
    (h url : Text) (c : Option Text) (e : Option ExternalFetchError) (now : ℕ)
    (rows : List ExternalCache) (j : Text)
    → get_content j (create_or_update_cache h url c e now rows)
      ≡ (if text_eq h j then kept c (get_content h rows) else get_content j rows)
unfolding create_or_update_cache
get_content-create_or_update_cache h url c e now rows j =
    stored-content h url c e now (get_by_url_hash h rows) rows j refl
