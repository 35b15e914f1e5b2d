-- ===== src/CacheService/Commands.antt =====
-- The commands of Redis that the cache service sends, as an interface: the `redis.asyncio` client is
-- not part of the repository. A key holds a text, kept as its UTF-8 bytes.
use v2hub_api.Base.{
  ℕ, ◌+◌, ◌*◌, ◌≤◌, ◌<◌, ◌≡◌, refl, Bool, Option, none, some, Text, text_eq, ltb, if◌then◌else◌,
}
use v2hub_api.Base.Strings.{is_some}
use v2hub_api.Redis.{second}

-- What a key holds at a time, in microseconds, if no command is sent until then.
abbrev pub TextView : Type 0
TextView = ℕ → Text → Option Text

abbrev pub text_until : ℕ → ℕ → Text → Option Text
text_until t expiry v = if ltb t expiry then some v else none

abbrev pub setex_view : ℕ → Text → ℕ → Text → TextView → TextView
setex_view now k ex v f t j = if text_eq k j then text_until t (now + ex * second) v else f t j

abbrev pub dropped_view : Text → TextView → TextView
dropped_view k f t j = if text_eq k j then none else f t j

abbrev pub Same : ℕ → TextView → TextView → Type 0
Same now f g = (t : ℕ) (j : Text) → now ≤ t → f t j ≡ g t j

-- A command answers or raises (`none`), and leaves a store. `Up s` says that Redis answers from the
-- store `s` on; the laws are what Redis documents of an answered command.
pub record TextRedis : Type 1 where
  pub Store : Type 0
  pub view : Store → TextView
  pub Up : Store → Type 0
  pub get : ℕ → Text → Store → Option (Option Text) × Store
  pub setex : ℕ → Text → ℕ → Text → Store → Option (Unit {0}) × Store
  pub delete : ℕ → Text → Store → Option Bool × Store
  pub get_reads :
      (now : ℕ) (k : Text) (s : Store) (r : Option Text)
      → (get now k s).0 ≡ some r
      → r ≡ view s now k
  pub get_law :
      (now : ℕ) (k : Text) (s : Store)
      → Up s
      → ((get now k s).0 ≡ some (view s now k))
        × Up (get now k s).1
        × Same now (view (get now k s).1) (view s)
  pub setex_law :
      (now : ℕ) (k : Text) (ex : ℕ) (v : Text) (s : Store)
      → 0 < ex
      → Up s
      → ((setex now k ex v s).0 ≡ some tt)
        × Up (setex now k ex v s).1
        × Same now (view (setex now k ex v s).1) (setex_view now k ex v (view s))
  pub delete_law :
      (now : ℕ) (k : Text) (s : Store)
      → Up s
      → ((delete now k s).0 ≡ some (is_some (view s now k)))
        × Up (delete now k s).1
        × Same now (view (delete now k s).1) (dropped_view k (view s))

-- Redis as its view, which always answers.
abbrev pub texts_up : TextRedis
texts_up = record {
  Store = TextView;
  view = λ s. s;
  Up = λ s. Unit {0};
  get = λ now k s. (some (s now k), s);
  setex = λ now k ex v s. (some tt, setex_view now k ex v s);
  delete = λ now k s. (some (is_some (s now k)), dropped_view k s);
  get_reads = λ now k s r e. cc e;
  get_law = λ now k s u. (refl, u, λ t j h. refl);
  setex_law = λ now k ex v s p u. (refl, u, λ t j h. refl);
  delete_law = λ now k s u. (refl, u, λ t j h. refl);
}
