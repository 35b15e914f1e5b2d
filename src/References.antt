-- ===== src/References.antt =====
-- src/v2hub_api/services/subscription_service.py, `_check_circular_reference`: the depth-first
-- search that runs before a link to another subscription is added.
mod Graph
mod Sound
mod Complete
mod Unbounded
mod Tests
use v2hub_api.Base.{
  ℕ, zero, suc, ◌-◌, Bool, true, false, Option, none, some, List, [], ◌∷◌, ◌++◌, Text, has, Dict,
  lookup, insert, ltb, leb, if◌then◌else◌, Result, ok, err, ◌>>=◌,
}
use v2hub_api.Models.{Source, Subscription, filled}
use v2hub_api.Resolver.Fetch.{is_internal}

pub data CheckError : Type 0 where
  nesting_too_deep : ℕ → ℕ → CheckError
  circular_reference : List Text → CheckError

-- The token of a source that links to another subscription.
abbrev pub nested_token : Source → Option Text
nested_token s = if is_internal s then filled s.internal_token else none

-- `checked.get(target_token, -1) >= remaining_budget`
abbrev pub covers : Option ℕ → ℕ → Bool
covers none budget = false
covers (some b) budget = leb budget b

-- The loop over the sources; `self` is the recursive call, one level down.
pub check_sources :
    (Text → Dict ℕ → Result CheckError (Dict ℕ)) → List Source → Dict ℕ → Result CheckError (Dict ℕ)
check_sources self [] checked = ok checked
check_sources self (s ∷ ss) checked = elim (nested_token s) [
  | none ↦ check_sources self ss checked
  | some token ↦ self token checked >>= check_sources self ss
]

module _ (get_by_token : Text → Option Subscription) (max_depth : ℕ) where
  -- behind the checks: `self` has the extended `visited`
  check_found :
      (Text → Dict ℕ → Result CheckError (Dict ℕ))
      → Text
      → ℕ
      → Option Subscription
      → Dict ℕ
      → Result CheckError (Dict ℕ)
  check_found self target budget none checked = ok (insert target budget checked)
  check_found self target budget (some sub) checked = do
    checked' ← check_sources self sub.sources checked
    ok (insert target budget checked')

  -- `visited` is restored by the `finally`, so it is an argument; `checked` is the memo that the
  -- calls share. `levels` counts the levels left: with none left `depth` is above `max_depth`.
  pub check_circular_reference : ℕ → Text → List Text → Dict ℕ → ℕ → Result CheckError (Dict ℕ)
  unfolding check_found
  check_circular_reference zero target visited checked depth =
      err (nesting_too_deep depth max_depth)
  check_circular_reference (suc levels) target visited checked depth =
      let budget = max_depth - depth in
      let below =
        check_found
          (λ t c. check_circular_reference levels t (visited ++ target ∷ []) c (suc depth)) target
          budget (get_by_token target) checked in
      if ltb max_depth depth
      then err (nesting_too_deep depth max_depth)
      else (if has visited target
          then err (circular_reference (visited ++ target ∷ []))
          else (if covers (lookup target checked) budget then ok checked else below))

  -- The call that `_add_internal_source` makes.
  pub check_new_reference : Text → Text → Result CheckError (Dict ℕ)
  check_new_reference subscription_token internal_token =
      check_circular_reference (suc max_depth) internal_token (subscription_token ∷ []) [] 0
