-- ===== src/Resolver/Provided.antt =====
-- resolver_service.py: what a source of each kind provides for the result.
use v2hub_api.Base.{
  ℕ, zero, suc, ◌≡◌, refl, subst, inl, inr, Bool, true, false, Option, none, some, List, [], ◌∷◌,
  Text, take, All, Option-cases, Memᴰ,
}
use v2hub_api.Enums.{SourceType, external_url, internal_token}
use v2hub_api.Models.{Source, filled}
use v2hub_api.ConfigParser.{get_config_hash, parse_subscription_content}
use v2hub_api.Resolver.Fetch.{World, external, is_external, fetch_external_source}
use v2hub_api.Resolver.{ResolvedConfig, full_config}
use v2hub_api.Resolver.Origin.{All-of_Memᴰ}

module _ (w : World) where
  -- The cache service answers a call for the source's URL with a content that holds the config.
  pub record Offered (s : Source) (uri : Text) : Type 0 where
    pub url : Text
    pub refresh : Bool
    pub content : Text
    pub has_url : filled s.external_url ≡ some url
    pub answered : w.get_or_fetch url refresh ≡ some (some content)
    pub listed : Memᴰ uri (parse_subscription_content w.b64decode content)

  -- An entry of a config source has the source's hash, and is its config with or without a comment;
  -- one of a URL has the hash of its own text, which is in a content of the URL.
  abbrev pub Gives : SourceType → Source → ResolvedConfig → Type 0
  Gives SourceType.config s c =
      (filled s.config_hash ≡ some c.hash)
      × ((base : Text) × (comment : Option Text) × (s.proxy_config ≡ some base)
          × (c.config ≡ full_config base comment))
  Gives external_url s c = (c.hash ≡ get_config_hash w.blake2b c.config) × Offered s c.config
  Gives internal_token s c = ⊥

  -- every config of a fetched outcome
  pub fetched-Offered :
      (s : Source) (refresh error : Bool) (uris : List Text)
      → fetch_external_source w s refresh ≡ external s uris error
      → All (Offered s) uris
  unfolding fetch_external_source
  fetched-Offered s refresh error uris e = elim (Option-cases (filled s.external_url)) [
    | inl none_given ↦ subst (All (Offered s)) (uris_of (rw none_given at e)) tt
    | inr (url, given) ↦ elim (Option-cases (w.get_or_fetch url refresh)) [
      | inl raised ↦ subst (All (Offered s)) (uris_of (rw raised at (rw given at e))) tt
      | inr (none, nothing) ↦ subst (All (Offered s)) (uris_of (rw nothing at (rw given at e))) tt
      | inr (some content, answered) ↦
          subst (All (Offered s)) (uris_of (rw answered at (rw given at e))) (
            All-of_Memᴰ (Offered s) (parse_subscription_content w.b64decode content) (λ u m.
              record {
                url = url;
                refresh = refresh;
                content = content;
                has_url = given;
                answered = answered;
                listed = m;
              }))
    ]
  ]
    where
      uris_of :
          {r t : Source} {xs ys : List Text} {a b : Bool}
          → external r xs a ≡ external t ys b
          → xs ≡ ys
      uris_of h = cc h

pub All-take : (P : Text → Type 0) (n : ℕ) (xs : List Text) → All P xs → All P (take n xs)
All-take P zero xs h = tt
All-take P (suc n) [] h = tt
All-take P (suc n) (x ∷ xs) h = (h.0, All-take P n xs h.1)

pub external-kind : (s : Source) → is_external s ≡ true → s.source_type ≡ external_url
external-kind s e = by_type s.source_type e
  where
    by_type :
        (t : SourceType) → (elim t [ external_url ↦ true | _ ↦ false ]) ≡ true → t ≡ external_url
    by_type external_url e = refl
    by_type SourceType.config e = cc e
    by_type internal_token e = cc e
