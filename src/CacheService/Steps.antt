-- ===== src/CacheService/Steps.antt =====
-- cache_service.py: what a read answers, and what each operation does to the two levels.
use v2hub_api.HttpClient.{Raised, fetch_error, connection, uncaught}
use v2hub_api.CacheService.Rows.{kept, get_content-create_or_update_cache}
use v2hub_api.Base.{
  ap, ◌∙◌, ◌∷◌, text_eq, text_eq_iff, text_eq_self, if◌then◌else◌, Bool-cases, err, [], ok, ◌≢◌,
  List, Result, ℕ, ◌<◌, ◌≡◌, refl, sym, inl, inr, true, Option, none, some, Text, arith,
  Option-cases,
}
use v2hub_api.ConfigParser.{get_url_hash}
use v2hub_api.HttpClient.Fetch.{Network}
use v2hub_api.CacheService.{
  keep_content, Raised, ExternalCache, store_fetched, Settings, State, try_redis, restored,
  after_redis, get_from_cache_only,
}
use v2hub_api.CacheService.Commands.{TextRedis}
use v2hub_api.CacheService.Repository.{ExternalCache, create_or_update_cache, get_content}
use v2hub_api.CacheService.Levels.{try_redis-Agrees, Agrees, try_redis_sound, keep_in_redis-Agrees}

kept_by :
    (h j : Text) (rows : List ExternalCache)
    → get_content j rows ≡ (if text_eq h j then get_content h rows else get_content j rows)
kept_by h j rows = elim (Bool-cases (text_eq h j)) [
  | inl hit ↦ rw hit (ap (λ k. get_content k rows) (sym ((text_eq_iff h j).0 hit)))
  | inr other ↦ rw other refl
]

-- what a finished fetch leaves of an old content
abbrev pub fetched_content : Result Raised (Option Text) → Option Text → Option Text
fetched_content (ok content) old = kept content old
fetched_content (err e) old = old

module _ (M : TextRedis) (N : Network) (conf : Settings) where
  -- While there is a Redis client, Redis answers, and what it holds is what the table holds.
  abbrev pub Good : ℕ → State M N conf → Type 0
  Good now st = conf.has_redis ≡ true → M.Up st.store × Agrees M N conf now st.store st.rows

  after_redis-content :
      (h : Text) (now : ℕ) (cached : Option Text) (st : State M N conf)
      → ((c : Text) → cached ≡ some c → get_content h st.rows ≡ some c)
      → (after_redis M N conf h now cached st).0 ≡ get_content h st.rows
  unfolding after_redis restored
  after_redis-content h now (some c) st sound = sym (sound c refl)
  after_redis-content h now none st sound = elim (Option-cases (get_content h st.rows)) [
    | inl missing ↦ rw missing refl
    | inr (c, held) ↦ rw held refl
  ]

  after_redis-Good :
      (h : Text) (now : ℕ) (cached : Option Text) (st : State M N conf)
      → 0 < conf.redis_ttl
      → Good now st
      → Good now (after_redis M N conf h now cached st).1
        × ((after_redis M N conf h now cached st).1.rows ≡ st.rows)
  unfolding after_redis restored
  after_redis-Good h now (some c) st long good = (good, refl)
  after_redis-Good h now none st long good = elim (Option-cases (get_content h st.rows)) [
    | inl missing ↦ rw missing (good, refl)
    | inr (c, held) ↦ rw held (
      λ on.
          let (up, agrees) = good on in
          keep_in_redis-Agrees M N conf h c now st.store st.rows on long up
            (λ t j d le other e. agrees t j d le e) held,
      refl,
    )
  ]

  -- Whatever Redis answers, and also if it raises or there is none: if what it holds agrees with the
  -- table, then a read answers the content in the table.
  pub get_from_cache_only-content :
      (url : Text) (now : ℕ) (st : State M N conf)
      → (conf.has_redis ≡ true → Agrees M N conf now st.store st.rows)
      → (get_from_cache_only M N conf url now st).0
        ≡ get_content (get_url_hash conf.blake2b url) st.rows
  unfolding get_from_cache_only
  get_from_cache_only-content url now st agrees =
      let h = get_url_hash conf.blake2b url in
      after_redis-content h now (try_redis M N conf h now st.store).0 _ (λ c e.
        let (on, seen) = try_redis_sound M N conf h c now st.store e in
        agrees on now h c (omega arith) seen)

  pub get_from_cache_only-Good :
      (url : Text) (now : ℕ) (st : State M N conf)
      → 0 < conf.redis_ttl
      → Good now st
      → Good now (get_from_cache_only M N conf url now st).1
        × ((get_from_cache_only M N conf url now st).1.rows ≡ st.rows)
  unfolding get_from_cache_only
  get_from_cache_only-Good url now st long good =
      let h = get_url_hash conf.blake2b url in
      after_redis-Good h now (try_redis M N conf h now st.store).0
        (record st { store = (try_redis M N conf h now st.store).1 }) long
        (λ on.
          let (up, agrees) = good on in try_redis-Agrees M N conf h now st.store st.rows up agrees)

  pub store_fetched_answer :
      (url h : Text) (now : ℕ) (r : Result Raised (Option Text)) (st : State M N conf)
      → (store_fetched M N conf url h now r st).0 ≡ r
  unfolding store_fetched
  store_fetched_answer url h now (ok content) st = refl
  store_fetched_answer url h now (err (fetch_error e)) st = refl
  store_fetched_answer url h now (err (connection e)) st = refl
  store_fetched_answer url h now (err (uncaught e)) st = refl

  pub store_fetched-rows :
      (url h : Text) (now : ℕ) (r : Result Raised (Option Text)) (st : State M N conf) (j : Text)
      → get_content j (store_fetched M N conf url h now r st).1.rows
        ≡ (if text_eq h j then fetched_content r (get_content h st.rows) else get_content j st.rows)
  unfolding store_fetched
  store_fetched-rows url h now (ok content) st j =
      get_content-create_or_update_cache h url content none now st.rows j
  store_fetched-rows url h now (err (fetch_error e)) st j =
      get_content-create_or_update_cache h url none (some e) now st.rows j
  store_fetched-rows url h now (err (connection e)) st j = kept_by h j st.rows
  store_fetched-rows url h now (err (uncaught e)) st j = kept_by h j st.rows

  same-Agrees :
      (now : ℕ) (s : M.Store) (rows rows' : List ExternalCache)
      → Agrees M N conf now s rows
      → ((j : Text) → get_content j rows' ≡ get_content j rows)
      → Agrees M N conf now s rows'
  same-Agrees now s rows rows' agrees same t h c le e = same h ∙ agrees t h c le e

  pub store_fetched-Good :
      (url h : Text) (now : ℕ) (r : Result Raised (Option Text)) (st : State M N conf)
      → 0 < conf.redis_ttl
      → r ≢ ok (some [])
      → Good now st
      → Good now (store_fetched M N conf url h now r st).1
  unfolding store_fetched keep_content
  store_fetched-Good url h now (ok none) st long full good on =
      let (up, agrees) = good on in
      (
        up,
        same-Agrees now st.store _ _ agrees (λ j.
            get_content-create_or_update_cache h url none none now st.rows j
            ∙ sym (kept_by h j st.rows)),
      )
  store_fetched-Good url h now (ok (some [])) st long full good on = absurd (full refl)
  store_fetched-Good url h now (ok (some (c ∷ content))) st long full good on =
      let (up, agrees) = good on in
      let rows = create_or_update_cache h url (some (c ∷ content)) none now st.rows in
      keep_in_redis-Agrees M N conf h (c ∷ content) now st.store rows on long up
        (λ t j d le other e.
          get_content-create_or_update_cache h url (some (c ∷ content)) none now st.rows j
          ∙ rw other (agrees t j d le e))
        (get_content-create_or_update_cache h url (some (c ∷ content)) none now st.rows h
          ∙ rw (text_eq_self h) refl)
  store_fetched-Good url h now (err (fetch_error e)) st long full good on =
      let (up, agrees) = good on in
      (
        up,
        same-Agrees now st.store _ _ agrees (λ j.
            get_content-create_or_update_cache h url none (some e) now st.rows j
            ∙ sym (kept_by h j st.rows)),
      )
  store_fetched-Good url h now (err (connection e)) st long full good on = good on
  store_fetched-Good url h now (err (uncaught e)) st long full good on = good on
