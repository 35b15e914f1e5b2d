-- ===== src/References/Unbounded.antt =====
-- subscription_service.py, `_check_circular_reference`: a graph in which the nesting is deeper
-- than the limit.
use v2hub_api.Base.{
  ℕ, ◌≤◌, ◌≡◌, refl, false, Option, none, some, List, [], ◌∷◌, Text, codes, has, Dict, arith, ok,
  text_eq, lookup, insert, Memᴰ,
}
use v2hub_api.Enums.{SourceType}
use v2hub_api.Models.{Source, Subscription}
use v2hub_api.References.{check_new_reference, check_sources, check_circular_reference}
use v2hub_api.References.Graph.{Walk, here, step, links, internal_tokens}

abbrev pub link : Text → Source
link t = record {
  id = t;
  source_type = SourceType.internal_token;
  config_hash = none;
  internal_token = some t;
  external_url = none;
  is_hidden = false;
  max_depth = 3;
  order_index = 0;
  proxy_config = none;
}

abbrev pub linked : Text → List Source → Subscription
linked t ss = record {
  token = t;
  name = t;
  user_hash = codes "user";
  provider_hash = none;
  description = none;
  sources = ss;
}

abbrev pub a : Text
a = codes "a"

abbrev pub b : Text
b = codes "b"

abbrev pub c : Text
c = codes "c"

abbrev pub d : Text
d = codes "d"

abbrev pub e : Text
e = codes "e"

abbrev pub f : Text
f = codes "f"

abbrev pub r : Text
r = codes "r"

-- "a" links to "b" and "c", "c" to "d", "d" to "b", and from "b" a chain leads to "e" and "f".
abbrev pub diamond_rows : Dict Subscription
diamond_rows =
    (a, linked a (link b ∷ link c ∷ []))
    ∷ (b, linked b (link e ∷ []))
    ∷ (c, linked c (link d ∷ []))
    ∷ (d, linked d (link b ∷ []))
    ∷ (e, linked e (link f ∷ []))
    ∷ []

pub diamond : Text → Option Subscription
diamond t = lookup t diamond_rows

abbrev pub diamond_memo : Dict ℕ
diamond_memo = (f, 0) ∷ (e, 1) ∷ (b, 2) ∷ (d, 1) ∷ (c, 2) ∷ (a, 3) ∷ []

pub diamond_passes : check_new_reference diamond 3 r a ≡ ok diamond_memo
unfolding check_new_reference check_circular_reference check_sources lookup insert has text_eq
    diamond
diamond_passes = refl

long-Walk : Walk diamond 5 a f
unfolding links internal_tokens lookup text_eq diamond
long-Walk = step {u = c} (Memᴰ.tail (Memᴰ.head refl)) (
    step {u = d} (Memᴰ.head refl) (
      step {u = b} (Memᴰ.head refl)
        (step {u = e} (Memᴰ.head refl) (step {u = f} (Memᴰ.head refl) here))))

-- A check that passes does not bound the nesting by `max_depth`: a token that was verified with a
-- larger budget is not searched again where less of the budget is left.
pub check_new_reference-not_bounded : ¬ (
    (get_by_token : Text → Option Subscription) (max_depth : ℕ)
    (subscription_token internal_token : Text) (memo : Dict ℕ)
    → check_new_reference get_by_token max_depth subscription_token internal_token ≡ ok memo
    → (m : ℕ) (u : Text) → Walk get_by_token m internal_token u
    → m ≤ max_depth)
check_new_reference-not_bounded all =
    absurd (omega (arith, all diamond 3 r a diamond_memo diamond_passes 5 f long-Walk))
