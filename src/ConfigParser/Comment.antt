-- ===== src/ConfigParser/Comment.antt =====
-- config_parser.py, `split_config_and_comment`, `normalize_config` and `get_config_hash`: how a
-- config and its comment are separated.
use v2hub_api.Base.{
  ◌≡◌, refl, ap, sym, ◌∙◌, inl, inr, none, some, Option, [], ◌∷◌, ◌++◌, Text, arith, Option-cases,
}
use v2hub_api.Base.Strings.{strip, lstrip, rstrip, split_once, after_prefix}
use v2hub_api.Base.Strip.{
  HashFree, strip-HashFree, lstrip-HashFree, lstrip-hash, rstrip-hash, strip-strip, strip-lstrip,
  strip-rstrip,
}
use v2hub_api.ConfigParser.{hash_sign, split_config_and_comment, normalize_config, get_config_hash}

pub split_once_hash-append :
    (a b : Text) → HashFree a → split_once hash_sign (a ++ b'#' ∷ b) ≡ some (a, b)
unfolding split_once after_prefix
split_once_hash-append [] b h = refl
split_once_hash-append (c ∷ a) b h = ground (arith, split_once_hash-append a b h.1)

pub split_once_hash-none : (s : Text) → HashFree s → split_once hash_sign s ≡ none
unfolding split_once after_prefix
split_once_hash-none [] h = refl
split_once_hash-none (c ∷ s) h = ground (arith, split_once_hash-none s h.1)

-- What `split("#", 1)` leaves before the first "#".
pub split_once-HashFree : (s a b : Text) → split_once hash_sign s ≡ some (a, b) → HashFree a
unfolding split_once after_prefix
split_once-HashFree [] a b h = cc
split_once-HashFree (c ∷ s) a b h = elim (Option-cases (split_once hash_sign s)) [
  | inl e ↦ ground arith
  | inr ((x, y), e) ↦ ground (arith, split_once-HashFree s x y e)
]

pub none-HashFree : (s : Text) → split_once hash_sign s ≡ none → HashFree s
unfolding split_once after_prefix
none-HashFree [] h = tt
none-HashFree (c ∷ s) h = ground (arith, none-HashFree s)

-- A config written as a base without "#", a "#" and a comment is split into the two, stripped.
pub split_config_and_comment-append :
    (base comment : Text)
    → HashFree base
    → split_config_and_comment (base ++ b'#' ∷ comment) ≡ (strip base, some (strip comment))
unfolding split_config_and_comment strip
split_config_and_comment-append base comment h = rw lstrip-hash (
    rw rstrip-hash (
      rw (split_once_hash-append (lstrip base) (rstrip comment) (lstrip-HashFree base h))
        (cc (strip-lstrip base, strip-rstrip comment))))

pub normalize_config_of_HashFree :
    (base : Text) → HashFree base → normalize_config base ≡ strip base
unfolding normalize_config
normalize_config_of_HashFree base h =
    rw (split_once_hash-none (strip base) (strip-HashFree base h), normalize_config)

-- The normal form of any config holds no "#".
pub normalize_config-HashFree : (config : Text) → HashFree (normalize_config config)
unfolding normalize_config
normalize_config-HashFree config = elim (Option-cases (split_once hash_sign (strip config))) [
  | inl e ↦ rw (e, normalize_config) (none-HashFree (strip config) e)
  | inr ((a, b), e) ↦
      rw (e, normalize_config) (strip-HashFree a (split_once-HashFree (strip config) a b e))
]

strip-normalize_config : (config : Text) → strip (normalize_config config) ≡ normalize_config config
unfolding normalize_config
strip-normalize_config config = elim (Option-cases (split_once hash_sign (strip config))) [
  | inl e ↦ rw (e, normalize_config) (strip-strip config)
  | inr ((a, b), e) ↦ rw (e, normalize_config) (strip-strip a)
]

normalize_config-append :
    (base comment : Text) → HashFree base → normalize_config (base ++ b'#' ∷ comment) ≡ strip base
unfolding normalize_config
normalize_config-append base comment h =
    ap (λ (p : Text × Option Text). p.0) (split_config_and_comment-append base comment h)

-- Normalising twice is normalising once.
pub normalize_config_idem :
    (config : Text) → normalize_config (normalize_config config) ≡ normalize_config config
normalize_config_idem config =
    normalize_config_of_HashFree (normalize_config config) (normalize_config-HashFree config)
    ∙ strip-normalize_config config

module _ (blake2b : Text → Text) where
  -- A config has the hash of its base with the comment left out.
  pub get_config_hash-append :
      (base comment : Text)
      → HashFree base
      → get_config_hash blake2b (base ++ b'#' ∷ comment) ≡ get_config_hash blake2b base
  unfolding get_config_hash
  get_config_hash-append base comment h =
      ap blake2b
        (normalize_config-append base comment h ∙ sym (normalize_config_of_HashFree base h))
