-- ===== src/RateLimiter/Always.antt =====
-- Sorted sets that always answer: a store is what each key holds at each time.
use v2hub_api.Base.{
  ℕ, ◌+◌, ◌*◌, refl, some, List, [], Text, text_eq, text_eq_self, ltb, length, keep_if,
  if◌then◌else◌,
}
use v2hub_api.RateLimiter.{SortedSets, thousand, add_time}

-- what each key holds at each time, if no command is sent until then
abbrev pub Times : Type 0
Times = ℕ → Text → List ℕ

abbrev pub sets : SortedSets
sets = record {
  Store = Times;
  Up = λ s. Unit {0};
  scores = λ s. s;
  zremrangebyscore =
      λ now k max s t j. if text_eq k j then keep_if (λ x. ltb max x) (s t j) else s t j;
  zcard = λ now k s. length (s now k);
  zadd = λ now k x s t j. if text_eq k j then add_time x (s t j) else s t j;
  expire = λ now k seconds s t j.
      if text_eq k j then (if ltb t (now + seconds * thousand) then s now j else []) else s t j;
  eval = λ script s. (some (script s).0, (script s).1);
  eval_answers = λ script s up. refl;
  eval_runs = λ script s up. refl;
  eval_keeps_up = λ script s up. tt;
  zremrangebyscore_law = λ now k max s t h. rw (text_eq_self k) refl;
  zcard_law = λ now k s. refl;
  zadd_law = λ now k x s. rw (text_eq_self k) refl;
  expire_law = λ now k seconds s t h. rw (text_eq_self k) refl;
}
