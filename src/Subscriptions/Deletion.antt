-- ===== src/Subscriptions/Deletion.antt =====
-- subscription_service.py, `delete_subscription`: what is left of the subscription.
use v2hub_api.Base.{
  ◌≡◌, refl, subst, inl, inr, false, not, Option, none, some, List, [], ◌∷◌, map, Text, text_eq, ok,
  ◌>>=◌, Result-cases, Bool-cases, All, keep_if,
}
use v2hub_api.Models.{Source, Subscription}
use v2hub_api.Subscriptions.Access.{ok-eq}
use v2hub_api.Subscriptions.{
  same_hash, get_by_token, get_managed_subscription, delete_subscription, delete_row, unlinked,
}

-- no source of the subscription links to the token
abbrev pub HasNoLink : Text → Subscription → Type 0
HasNoLink token sub =
    All (λ (s : Source). same_hash s.internal_token (some token) ≡ false) sub.sources

kept-linkless :
    (token : Text) (ss : List Source)
    → All
        (λ (s : Source). same_hash s.internal_token (some token) ≡ false)
        (keep_if (λ s. not (same_hash s.internal_token (some token))) ss)
kept-linkless token [] = tt
kept-linkless token (s ∷ ss) = elim (Bool-cases (same_hash s.internal_token (some token))) [
  | inl link ↦ rw link (kept-linkless token ss)
  | inr other ↦ rw other (other, kept-linkless token ss)
]

unlinked-HasNoLink :
    (token : Text) (subs : List Subscription) → All (HasNoLink token) (map (unlinked token) subs)
unfolding unlinked
unlinked-HasNoLink token [] = tt
unlinked-HasNoLink token (sub ∷ subs) =
    (kept-linkless token sub.sources, unlinked-HasNoLink token subs)

deleted-get_by_token :
    (token : Text) (subs : List Subscription)
    → get_by_token token (map (unlinked token) (delete_row token subs)) ≡ none
unfolding get_by_token delete_row unlinked
deleted-get_by_token token [] = refl
deleted-get_by_token token (sub ∷ subs) = elim (Bool-cases (text_eq sub.token token)) [
  | inl same ↦ rw same (deleted-get_by_token token subs)
  | inr other ↦ rw other (rw other (deleted-get_by_token token subs))
]

-- After a deletion that succeeds, no subscription has the token and no source of any subscription
-- links to it.
pub delete_subscription-gone :
    (token user : Text) (provider : Option Text) (subs subs' : List Subscription)
    → delete_subscription token user provider subs ≡ ok subs'
    → (get_by_token token subs' ≡ none) × All (HasNoLink token) subs'
unfolding delete_subscription
delete_subscription-gone token user provider subs subs' e =
    elim (Result-cases (get_managed_subscription token user provider subs)) [
      | inr (error, refused) ↦ cc (rw (refused, ◌>>=◌) at e)
      | inl (sub, managed) ↦
          subst
            (λ (subs : List Subscription).
              (get_by_token token subs ≡ none) × All (HasNoLink token) subs)
            (ok-eq (rw (managed, ◌>>=◌) at e))
            (deleted-get_by_token token subs, unlinked-HasNoLink token (delete_row token subs))
    ]
