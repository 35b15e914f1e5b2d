-- ===== src/Subscriptions/Names.antt =====
-- subscription_service.py, `create_subscription`: the names and the limit.
use v2hub_api.Base.{
  ℕ, suc, ◌≤◌, ◌≡◌, refl, sym, ap, ◌∙◌, subst, inl, inr, Bool, true, false, not, ◌&&◌, ◌||◌, Option,
  none, some, List, [], ◌∷◌, Text, text_eq, text_eq_iff, length, leb, leb→gt, Result, ok,
  Result-cases, Bool-cases, Option-cases, &&-left, &&-right, if◌then◌else◌,
}
use v2hub_api.Base.Strings.{is_some}
use v2hub_api.Models.{Source, Subscription, filled}
use v2hub_api.Subscriptions.{
  SubscriptionError, same_hash, get_by_name, list_by_user, list_by_provider, counted,
  create_subscription, new_subscription,
}
use v2hub_api.Subscriptions.Access.{same_hash_iff, ok-eq}

-- No two subscriptions of a user that the same provider made, or none, have the same name.
abbrev pub HasUniqueNames : List Subscription → Type 0
HasUniqueNames [] = Unit
HasUniqueNames (sub ∷ subs) =
    (get_by_name sub.user_hash sub.provider_hash sub.name subs ≡ none) × HasUniqueNames subs

-- No user has more subscriptions than the limit, of their own or made by one provider.
abbrev pub WithinLimit : ℕ → List Subscription → Type 0
WithinLimit max subs =
    (user : Text) (provider : Option Text) → length (counted user provider subs) ≤ max

filled-some : (o : Option Text) (p : Text) → filled o ≡ some p → o ≡ some p
filled-some none p e = cc e
filled-some (some []) p e = cc e
filled-some (some (c ∷ s)) p e = e

counted-own :
    (user : Text) (provider : Option Text) (subs : List Subscription)
    → filled provider ≡ none
    → counted user provider subs ≡ list_by_user user false subs
unfolding counted
counted-own user provider subs e = rw (e, counted) refl

counted-made :
    (user : Text) (provider : Option Text) (p : Text) (subs : List Subscription)
    → filled provider ≡ some p
    → counted user provider subs ≡ list_by_provider p user subs
unfolding counted
counted-made user provider p subs e = rw (e, counted) refl

length-if :
    (max : ℕ) (c : Bool) (sub : Subscription) (subs : List Subscription)
    → length subs ≤ max
    → (c ≡ true → suc (length subs) ≤ max)
    → length (if c then sub ∷ subs else subs) ≤ max
length-if max true sub subs h k = k refl
length-if max false sub subs h k = h

not_some-none : (o : Option Text) → not (is_some o) ≡ true → o ≡ none
not_some-none none e = refl
not_some-none (some a) e = cc e

new-WithinLimit :
    (max : ℕ) (token user name : Text) (provider description : Option Text) (rows : List Source)
    (subs : List Subscription)
    → WithinLimit max subs
    → suc (length (counted user provider subs)) ≤ max
    → WithinLimit max (new_subscription token user provider name description rows ∷ subs)
new-WithinLimit max token user name provider description rows subs w room user' provider' =
    let new = new_subscription token user provider name description rows in
    elim (Option-cases (filled provider')) [
      | inl own ↦
          subst (λ (ss : List Subscription). length ss ≤ max)
            (sym (counted-own user' provider' (new ∷ subs) own))
            (length-if max (text_eq user user' && (false || not (is_some provider))) new
              (list_by_user user' false subs)
              (subst (λ (ss : List Subscription). length ss ≤ max)
                (counted-own user' provider' subs own) (w user' provider'))
              (λ c.
                subst (λ (u : Text). suc (length (list_by_user u false subs)) ≤ max)
                  ((text_eq_iff user user').0 (&&-left (text_eq user user') _ c))
                  (subst (λ (ss : List Subscription). suc (length ss) ≤ max)
                    (counted-own user provider subs
                      (ap filled (not_some-none provider (&&-right (text_eq user user') _ c))))
                    room)))
      | inr (p, made) ↦
          subst (λ (ss : List Subscription). length ss ≤ max)
            (sym (counted-made user' provider' p (new ∷ subs) made))
            (length-if max (same_hash provider (some p) && text_eq user user') new
              (list_by_provider p user' subs)
              (subst (λ (ss : List Subscription). length ss ≤ max)
                (counted-made user' provider' p subs made) (w user' provider'))
              (λ c.
                subst (λ (u : Text). suc (length (list_by_provider p u subs)) ≤ max)
                  ((text_eq_iff user user').0 (&&-right (same_hash provider (some p)) _ c))
                  (subst (λ (ss : List Subscription). suc (length ss) ≤ max)
                    (counted-made user provider p subs (
                      ap filled (
                        (same_hash_iff provider (some p)).0
                          (&&-left (same_hash provider (some p)) _ c)
                        ∙ sym (filled-some provider' p made))
                      ∙ made))
                    room)))
    ]

-- If names are unique and the limit is kept, then a creation that succeeds keeps both.
pub create_subscription-keeps :
    (max : ℕ) (token user : Text) (provider : Option Text) (name : Text) (description : Option Text)
    (sources : Result SubscriptionError (List Source)) (subs subs' : List Subscription)
    → HasUniqueNames subs
    → WithinLimit max subs
    → create_subscription max token user provider name description sources subs ≡ ok subs'
    → HasUniqueNames subs' × WithinLimit max subs'
unfolding create_subscription
create_subscription-keeps max token user provider name description sources subs subs' u w e =
    elim (Bool-cases (leb max (length (counted user provider subs)))) [
      | inl full ↦ cc (rw full at e)
      | inr room ↦ elim (Option-cases (get_by_name user provider name subs)) [
        | inr (taken, found) ↦ cc (rw found at (rw room at e))
        | inl free ↦ elim (Result-cases sources) [
          | inr (error, refused) ↦ cc (rw refused at (rw free at (rw room at e)))
          | inl (rows, added) ↦
              subst (λ (subs : List Subscription). HasUniqueNames subs × WithinLimit max subs)
                (ok-eq (rw added at (rw free at (rw room at e))))
                (
                  (free, u),
                  new-WithinLimit max token user name provider description rows subs w
                      (leb→gt max (length (counted user provider subs)) room),
                )
        ]
      ]
    ]
