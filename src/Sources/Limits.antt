-- ===== src/Sources/Limits.antt =====
-- subscription_service.py, `_add_sources_internal`: the ids of the sources and their limit.
use v2hub_api.Base.{
  ℕ, suc, ◌≤◌, ◌<◌, ◌≡◌, refl, sym, ap, subst, ◌∙◌, inl, inr, Bool, true, Option, none, some, List,
  [], ◌∷◌, map-append, Text, text_eq, has, length, length-append, leb, leb→gt, if◌then◌else◌,
  Result, ok, err, Result-cases, Distinct, Distinct-snoc, Bool-cases, Option-cases, arith,
}
use v2hub_api.Base.Strings.{strip}
use v2hub_api.Enums.{SourceType, config, external_url, internal_token}
use v2hub_api.Models.{Source}
use v2hub_api.ConfigParser.{is_empty, get_url_hash}
use v2hub_api.References.{check_new_reference}
use v2hub_api.Sources.{
  Env, Rows, SourceError, SourceCreateRequest, ids, get_by_pk, upsert_config, updated,
  extract_token,
}
use v2hub_api.Sources.Add.{
  store, new_source, config_source, add_config_source, add_external_source, add_linked, add_token,
  add_internal_source, add_source, add_each, add_sources_internal, detect_source_type,
}

ids-upsert_config :
    (id : Text) (request : SourceCreateRequest) (index : ℕ) (ss : List Source)
    → ids (upsert_config id request index ss) ≡ ids ss
unfolding upsert_config updated
ids-upsert_config id request index [] = refl
ids-upsert_config id request index (s ∷ ss) = elim (Bool-cases (text_eq s.id id)) [
  | inl same ↦ rw same refl
  | inr other ↦ rw other (ap (λ xs. s.id ∷ xs) (ids-upsert_config id request index ss))
]

get_by_pk-has :
    (id : Text) (ss : List Source) (s : Source) → get_by_pk id ss ≡ some s → has (ids ss) id ≡ true
unfolding get_by_pk has
get_by_pk-has id [] s e = cc e
get_by_pk-has id (t ∷ ss) s e = ground (arith, get_by_pk-has id ss s)

length-ids : (ss : List Source) → length (ids ss) ≡ length ss
length-ids [] = refl
length-ids (s ∷ ss) = ap suc (length-ids ss)

ok-eq : {E A : Type 0} {a b : A} → ◌≡◌ {A = Result E A} (ok a) (ok b) → a ≡ b
ok-eq e = cc e

-- The ids seen are those of the rows, each once, and there are not too many.
pub record Fits (max : ℕ) (st : List Text × Rows) : Type 0 where
  pub known : ids st.1.sources ≡ st.0
  pub distinct : Distinct st.0
  pub bounded : length st.0 ≤ max

-- If a call returns, its state fits.
abbrev pub Good : ℕ → Result SourceError (List Text × Rows) → Type 0
Good max (ok st) = Fits max st
Good max (err e) = Unit

module _ (env : Env) where
  store-Good :
      (id : Text) (comment : Option Text) (new : Source) (request : SourceCreateRequest) (index : ℕ)
      (allowed : Result SourceError (Option Text)) (st : List Text × Rows)
      → new.id ≡ id
      → Fits env.max_sources st
      → length st.0 < env.max_sources
      → Good env.max_sources (store env id comment new request index allowed st)
  unfolding store
  store-Good id comment new request index allowed (seen, rows) e f room =
      elim (Option-cases (get_by_pk id rows.sources)) [
        | inr (s, found) ↦
            let old = ap (λ xs. has xs id) (sym f.known) ∙ get_by_pk-has id rows.sources s found in
            rw (found, store)
              (rw old (record {
                known = ids-upsert_config id request index rows.sources ∙ f.known;
                distinct = f.distinct;
                bounded = f.bounded;
              }))
        | inl missing ↦
            rw (missing, store)
              (elim (Bool-cases (has seen id)) [
                | inl old ↦ rw old f
                | inr new_id ↦ rw new_id (elim (Result-cases allowed) [
                  | inr (error, refused) ↦ rw refused tt
                  | inl (c, accepted) ↦ rw accepted (record {
                    known =
                        map-append (λ (s : Source). s.id) rows.sources (new ∷ []) ∙ cc (f.known, e);
                    distinct = Distinct-snoc seen id f.distinct new_id;
                    bounded = omega (arith, room, length-append seen (id ∷ []));
                  })
                ])
              ])
      ]

  add_config_source-Good :
      (request : SourceCreateRequest) (index : ℕ) (st : List Text × Rows)
      → Fits env.max_sources st
      → length st.0 < env.max_sources
      → Good env.max_sources (add_config_source env request index st)
  unfolding add_config_source config_source new_source
  add_config_source-Good request index st f room =
      elim (Bool-cases (env.validate_proxy_config request.data_text)) [
        | inl valid ↦ rw valid (store-Good _ _ _ request index _ st refl f room)
        | inr invalid ↦ rw invalid tt
      ]

  add_external_source-Good :
      (request : SourceCreateRequest) (index : ℕ) (st : List Text × Rows)
      → Fits env.max_sources st
      → length st.0 < env.max_sources
      → Good env.max_sources (add_external_source env request index st)
  unfolding add_external_source new_source
  add_external_source-Good request index st f room =
      elim (Bool-cases (env.is_http_url request.data_text)) [
        | inr invalid ↦ rw invalid tt
        | inl valid ↦ rw valid (elim (Bool-cases (env.validate_external_url request.data_text)) [
          | inr unsafe ↦ rw unsafe tt
          | inl safe ↦ rw safe (store-Good _ _ _ request index _ st refl f room)
        ])
      ]

  add_internal_source-Good :
      (token : Text) (request : SourceCreateRequest) (index : ℕ) (st : List Text × Rows)
      → Fits env.max_sources st
      → length st.0 < env.max_sources
      → Good env.max_sources (add_internal_source env token request index st)
  unfolding add_internal_source add_token add_linked new_source
  add_internal_source-Good token request index st f room =
      elim (Option-cases (extract_token request.data_text)) [
        | inl unreadable ↦ rw (unreadable, add_token) tt
        | inr (t, read) ↦
            rw (read, add_token)
              (elim (Option-cases (env.get_by_token t)) [
                | inl unknown ↦ rw (unknown, add_linked) tt
                | inr (sub, found) ↦
                    rw (found, add_linked)
                      (elim (Result-cases
                        (check_new_reference env.get_by_token env.max_nesting_depth token t)) [
                          | inr (e, failed) ↦ rw failed tt
                          | inl (c, passed) ↦ rw passed (
                              let id = get_url_hash env.blake2b request.data_text in
                              store-Good id none
                                (record (new_source env id internal_token request index) {
                                  internal_token = some t;
                                })
                                request index (ok none) st refl f room)
                        ])
              ])
      ]

  add_source-Good :
      (token : Text) (source_type : SourceType) (request : SourceCreateRequest) (index : ℕ)
      (st : List Text × Rows)
      → Fits env.max_sources st
      → length st.0 < env.max_sources
      → Good env.max_sources (add_source env token source_type request index st)
  unfolding add_source
  add_source-Good token config request index st f room =
      add_config_source-Good request index st f room
  add_source-Good token external_url request index st f room =
      add_external_source-Good request index st f room
  add_source-Good token internal_token request index st f room =
      add_internal_source-Good token request index st f room

  add_each-Good :
      (token : Text) (requests : List SourceCreateRequest) (index : ℕ) (st : List Text × Rows)
      → Fits env.max_sources st
      → Good env.max_sources (add_each env token requests index st)
  unfolding add_each
  add_each-Good token [] index st f = f
  add_each-Good token (request ∷ requests) index st f =
      elim (Bool-cases (is_empty (strip request.data_text))) [
        | inl blank ↦ rw blank (add_each-Good token requests index st f)
        | inr text ↦ rw text (elim (Bool-cases (leb env.max_sources (length st.0))) [
          | inl full ↦ rw full tt
          | inr room ↦
              rw room (elim (Result-cases (detect_source_type env (strip request.data_text))) [
                | inr (e, unclear) ↦ rw unclear tt
                | inl (ty, clear) ↦
                    rw clear (elim (Result-cases (add_source env token ty request index st)) [
                      | inr (e, refused) ↦ rw refused tt
                      | inl (st', added) ↦ rw added (
                          add_each-Good token requests (suc index) st' (
                            subst (Good env.max_sources) added (
                              add_source-Good token ty request index st f
                                (leb→gt env.max_sources (length st.0) room))))
                    ])
              ])
        ])
      ]

  -- If the sources of a subscription have distinct ids, then adding sources, when it returns,
  -- leaves them with distinct ids and not more of them than the maximum.
  pub add_sources_internal-Good :
      (token : Text) (reset_indexes : Bool) (requests : List SourceCreateRequest)
      (rows rows' : Rows)
      → Distinct (ids rows.sources)
      → add_sources_internal env token reset_indexes requests rows ≡ ok rows'
      → Distinct (ids rows'.sources) × (length rows'.sources ≤ env.max_sources)
  unfolding add_sources_internal
  add_sources_internal-Good token reset_indexes requests rows rows' d e =
      let count = length rows.sources in
      elim (Bool-cases (leb env.max_sources count)) [
        | inl full ↦ cc (rw full at e)
        | inr room ↦
            let index = if reset_indexes then 0 else count in
            let first : Fits env.max_sources (ids rows.sources, rows) = record {
              known = refl;
              distinct = d;
              bounded = omega (arith, leb→gt env.max_sources count room, length-ids rows.sources);
            } in
            let good = add_each-Good token requests index (ids rows.sources, rows) first in
            elim (Result-cases (add_each env token requests index (ids rows.sources, rows))) [
              | inr (error, refused) ↦ cc (rw (room, refused) at e)
              | inl (st, added) ↦
                  let f = subst (Good env.max_sources) added good in
                  subst
                    (λ (rows : Rows).
                      Distinct (ids rows.sources) × (length rows.sources ≤ env.max_sources))
                    (ok-eq (rw added at (rw room at e)))
                    (
                      subst Distinct (sym f.known) f.distinct,
                      omega (arith, f.bounded, ap length f.known, length-ids st.1.sources),
                    )
            ]
      ]
