-- ===== src/Redis/Keys.antt =====
-- What a command of Redis does to the key it names and to the others.
use v2hub_api.Base.{
  ℕ, ◌+◌, ◌*◌, ◌≤◌, ◌<◌, ◌≡◌, refl, false, none, some, Text, text_eq, text_eq_self, ◌∙◌,
}
use v2hub_api.Redis.{Redis, second, until, incremented}

module _ (R : Redis) (now : ℕ) (k : Text) (s : R.Store) (up : R.Up s) where
  pub get_same : (t : ℕ) → now ≤ t → R.view (R.get now k s).1 t k ≡ R.view s t k
  get_same t h = let (_, _, holds) = R.get_law now k s up in holds t k h

  pub get_other :
      (j : Text) (t : ℕ)
      → text_eq k j ≡ false
      → now ≤ t
      → R.view (R.get now k s).1 t j ≡ R.view s t j
  get_other j t e h = let (_, _, holds) = R.get_law now k s up in holds t j h

  pub set_same :
      (v ex : ℕ) (long : 0 < ex) (t : ℕ)
      → now ≤ t
      → R.view (R.set now k v ex s).1 t k ≡ until t (now + ex * second) (some v)
  set_same v ex long t h =
      let (_, _, holds) = R.set_law now k v ex s long up in holds t k h ∙ rw (text_eq_self k) refl

  pub set_other :
      (v ex : ℕ) (long : 0 < ex) (j : Text) (t : ℕ)
      → text_eq k j ≡ false
      → now ≤ t
      → R.view (R.set now k v ex s).1 t j ≡ R.view s t j
  set_other v ex long j t e h =
      let (_, _, holds) = R.set_law now k v ex s long up in holds t j h ∙ rw e refl

  pub incr_same :
      (t : ℕ)
      → now ≤ t
      → R.view (R.incr now k s).1 t k ≡ incremented (R.view s now k) (R.view s t k)
  incr_same t h =
      let (_, _, holds) = R.incr_law now k s up in holds t k h ∙ rw (text_eq_self k) refl

  pub incr_other :
      (j : Text) (t : ℕ)
      → text_eq k j ≡ false
      → now ≤ t
      → R.view (R.incr now k s).1 t j ≡ R.view s t j
  incr_other j t e h = let (_, _, holds) = R.incr_law now k s up in holds t j h ∙ rw e refl

  pub expire_same :
      (ex : ℕ) (t : ℕ)
      → now ≤ t
      → R.view (R.expire now k ex s).1 t k ≡ until t (now + ex * second) (R.view s now k)
  expire_same ex t h =
      let (_, _, holds) = R.expire_law now k ex s up in holds t k h ∙ rw (text_eq_self k) refl

  pub expire_other :
      (ex : ℕ) (j : Text) (t : ℕ)
      → text_eq k j ≡ false
      → now ≤ t
      → R.view (R.expire now k ex s).1 t j ≡ R.view s t j
  expire_other ex j t e h =
      let (_, _, holds) = R.expire_law now k ex s up in holds t j h ∙ rw e refl

  pub delete_same : (t : ℕ) → now ≤ t → R.view (R.delete now k s).1 t k ≡ none
  delete_same t h =
      let (_, _, holds) = R.delete_law now k s up in holds t k h ∙ rw (text_eq_self k) refl

  pub delete_other :
      (j : Text) (t : ℕ)
      → text_eq k j ≡ false
      → now ≤ t
      → R.view (R.delete now k s).1 t j ≡ R.view s t j
  delete_other j t e h = let (_, _, holds) = R.delete_law now k s up in holds t j h ∙ rw e refl
