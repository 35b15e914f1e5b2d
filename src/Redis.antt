-- ===== src/Redis.antt =====
-- The commands of Redis that the ban service and the URL limiter send, as an interface: the
-- `redis.asyncio` client is not part of the repository. A key holds a number, kept as its text.
pub mod Keys
use v2hub_api.Base.{
  ℕ, suc, ◌+◌, ◌*◌, ◌≤◌, ◌<◌, ◌≡◌, refl, Bool, Option, none, some, Text, text_eq, ltb,
  if◌then◌else◌,
}
use v2hub_api.Base.Strings.{is_some}

-- What a key holds at a time, in microseconds, if no command is sent until then.
abbrev pub View : Type 0
View = ℕ → Text → Option ℕ

abbrev pub second : ℕ
second = 1000000

abbrev pub count : Option ℕ → ℕ
count none = 0
count (some n) = n

-- A value that a command stores with a time to live.
abbrev pub until : ℕ → ℕ → Option ℕ → Option ℕ
until t expiry v = if ltb t expiry then v else none

abbrev pub set_view : ℕ → Text → ℕ → ℕ → View → View
set_view now k v ex f t j = if text_eq k j then until t (now + ex * second) (some v) else f t j

-- a missing key is created with 1 and no time to live; another keeps its time to live
abbrev pub incremented : Option ℕ → Option ℕ → Option ℕ
incremented none later = some 1
incremented (some n) none = none
incremented (some n) (some later) = some (suc later)

abbrev pub incr_view : ℕ → Text → View → View
incr_view now k f t j = if text_eq k j then incremented (f now k) (f t k) else f t j

abbrev pub expire_view : ℕ → Text → ℕ → View → View
expire_view now k ex f t j = if text_eq k j then until t (now + ex * second) (f now k) else f t j

abbrev pub delete_view : Text → View → View
delete_view k f t j = if text_eq k j then none else f t j

-- From a time on, a store holds what the view says.
abbrev pub Holds : ℕ → View → View → Type 0
Holds now f g = (t : ℕ) (j : Text) → now ≤ t → f t j ≡ g t j

-- A command answers or raises (`none`), and leaves a store. `Up s` says that Redis answers from
-- the store `s` on; the laws are what Redis documents of an answered command.
pub record Redis : Type 1 where
  pub Store : Type 0
  pub view : Store → View
  pub Up : Store → Type 0
  pub get : ℕ → Text → Store → Option (Option ℕ) × Store
  pub set : ℕ → Text → ℕ → ℕ → Store → Option (Unit {0}) × Store
  pub incr : ℕ → Text → Store → Option ℕ × Store
  pub expire : ℕ → Text → ℕ → Store → Option (Unit {0}) × Store
  pub delete : ℕ → Text → Store → Option Bool × Store
  pub get_reads :
      (now : ℕ) (k : Text) (s : Store) (r : Option ℕ) → (get now k s).0 ≡ some r → r ≡ view s now k
  pub get_law :
      (now : ℕ) (k : Text) (s : Store)
      → Up s
      → ((get now k s).0 ≡ some (view s now k))
        × Up (get now k s).1
        × Holds now (view (get now k s).1) (view s)
  pub set_law :
      (now : ℕ) (k : Text) (v ex : ℕ) (s : Store)
      → 0 < ex
      → Up s
      → ((set now k v ex s).0 ≡ some tt)
        × Up (set now k v ex s).1
        × Holds now (view (set now k v ex s).1) (set_view now k v ex (view s))
  pub incr_law :
      (now : ℕ) (k : Text) (s : Store)
      → Up s
      → ((incr now k s).0 ≡ some (suc (count (view s now k))))
        × Up (incr now k s).1
        × Holds now (view (incr now k s).1) (incr_view now k (view s))
  pub expire_law :
      (now : ℕ) (k : Text) (ex : ℕ) (s : Store)
      → Up s
      → ((expire now k ex s).0 ≡ some tt)
        × Up (expire now k ex s).1
        × Holds now (view (expire now k ex s).1) (expire_view now k ex (view s))
  pub delete_law :
      (now : ℕ) (k : Text) (s : Store)
      → Up s
      → ((delete now k s).0 ≡ some (is_some (view s now k)))
        × Up (delete now k s).1
        × Holds now (view (delete now k s).1) (delete_view k (view s))

abbrev pub or_else {ℓ} : {A : Type ℓ} → Option A → A → A
or_else none a = a
or_else (some b) a = b

-- Sequences of commands, and `try: … except Exception: …`.
module _ {S : Type 0} where
  infixl 5 ◌>>=◌
  abbrev pub ◌>>=◌ : {A B : Type 0} → (S → Option A × S) → (A → S → Option B × S) → S → Option B × S
  (m >>= f) s = elim (m s).0 [ none ↦ (none, (m s).1) | some a ↦ f a (m s).1 ]

  abbrev pub return : {A : Type 0} → A → S → Option A × S
  return a s = (some a, s)

  abbrev pub try_or : {A : Type 0} → (S → Option A × S) → A → S → A × S
  try_or m a s = (or_else (m s).0 a, (m s).1)

-- Redis as its view, which always answers.
abbrev pub always_up : Redis
always_up = record {
  Store = View;
  view = λ s. s;
  Up = λ s. Unit {0};
  get = λ now k s. (some (s now k), s);
  set = λ now k v ex s. (some tt, set_view now k v ex s);
  incr = λ now k s. (some (suc (count (s now k))), incr_view now k s);
  expire = λ now k ex s. (some tt, expire_view now k ex s);
  delete = λ now k s. (some (is_some (s now k)), delete_view k s);
  get_reads = λ now k s r e. cc e;
  get_law = λ now k s u. (refl, u, λ t j h. refl);
  set_law = λ now k v ex s p u. (refl, u, λ t j h. refl);
  incr_law = λ now k s u. (refl, u, λ t j h. refl);
  expire_law = λ now k ex s u. (refl, u, λ t j h. refl);
  delete_law = λ now k s u. (refl, u, λ t j h. refl);
}
