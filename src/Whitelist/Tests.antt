-- ===== src/Whitelist/Tests.antt =====
-- The whitelist at concrete entries, over a Redis that always answers.
use v2hub_api.Base.{
  Bool-cases, inl, inr, ap, sym, ◌∙◌, ◌≡◌, refl, true, not, ◌&&◌, ◌||◌, Option, none, some, List,
  [], ◌∷◌, ◌++◌, Text, codes, text_eq, text_eq_iff, has, has-snoc, keep_if, if◌then◌else◌, ok,
  arith,
}
use v2hub_api.Base.Strings.{contains, split_once, after_prefix}
use v2hub_api.HttpClient.{v4}
use v2hub_api.HttpClient.Addresses.{quad}
use v2hub_api.Whitelist.{
  Ipaddress, net4, is_whitelisted, is_valid, add, ip_in_cidr, both_inside, is_inside, covers,
  list_all, entries_of, entry_of, sort_entries, insert_entry, text_leb,
}
use v2hub_api.Whitelist.Sets.{SetRedis, Description}
use v2hub_api.Whitelist.Entries.{add_listed}

abbrev Entries : Type 0
Entries = List Text × (Text → Option Description)

abbrev with_entry : Text → List Text → List Text
with_entry ip xs = if has xs ip then xs else xs ++ ip ∷ []

has-with_entry :
    (ip : Text) (xs : List Text) (j : Text) → has (with_entry ip xs) j ≡ (has xs j || text_eq ip j)
has-with_entry ip xs j = elim (Bool-cases (has xs ip)) [
  | inr new ↦ rw new (has-snoc xs ip j)
  | inl old ↦ rw old (elim (Bool-cases (text_eq ip j)) [
    | inl same ↦ rw same (ap (has xs) (sym ((text_eq_iff ip j).0 same)) ∙ old ∙ ground arith)
    | inr other ↦ rw other (ground arith)
  ])
]

without_entry-has :
    (ip : Text) (xs : List Text) (j : Text)
    → has (keep_if (λ x. not (text_eq ip x)) xs) j ≡ (has xs j && not (text_eq ip j))
unfolding has
without_entry-has ip [] j = refl
without_entry-has ip (x ∷ xs) j =
    ground (arith, without_entry-has ip xs j, text_eq_iff ip x, text_eq_iff x j, text_eq_iff ip j)

-- Redis as its set and its descriptions, which always answers.
abbrev entries_up : SetRedis
entries_up = record {
  Store = Entries;
  members = λ s. s.0;
  Up = λ s. Unit {0};
  sismember = λ ip s. (some (has s.0 ip), s);
  smembers = λ s. (some s.0, s);
  sadd = λ ip s. (some (not (has s.0 ip)), (with_entry ip s.0, s.1));
  srem = λ ip s. (some (has s.0 ip), (keep_if (λ x. not (text_eq ip x)) s.0, s.1));
  drop_set = λ s. (some true, ([], s.1));
  hset = λ ip d s. (some tt, (s.0, λ j. if text_eq ip j then some d else s.1 j));
  hgetall = λ ip s. (some (s.1 ip), s);
  drop_meta = λ ip s. (some true, (s.0, λ j. if text_eq ip j then none else s.1 j));
  sismember_law = λ ip s u. (refl, u, refl);
  smembers_law = λ s u. (refl, u, refl);
  sadd_law = λ ip s u. (refl, u, λ j. has-with_entry ip s.0 j);
  srem_law = λ ip s u. (refl, u, λ j. without_entry-has ip s.0 j);
  drop_set_law = λ s u. ((true, refl), u, refl);
  hset_law = λ ip d s u. (refl, u, refl);
  drop_meta_law = λ ip s u. ((true, refl), u, refl);
}

abbrev library : Ipaddress
library = record {
  ip_address = λ s. some (v4 (quad 10 0 0 7));
  ip_network = λ s. some (net4 (quad 10 0 0 0, 8));
}

abbrev network : Text
network = codes "10.0.0.0/24"

abbrev nothing : Entries
nothing = ([], λ j. none)

network-valid : is_valid entries_up library network ≡ true
unfolding is_valid contains split_once after_prefix
network-valid = refl

add_listed_example :
    ((add entries_up library network none (codes "now") nothing).0 ≡ ok (not (has [] network)))
    × ((is_whitelisted entries_up library network
          (add entries_up library network none (codes "now") nothing).1).0
        ≡ true)
    × ((address : Text)
        → contains (codes "/") network ≡ true
        → ip_in_cidr entries_up library address network ≡ true
        → (is_whitelisted entries_up library address
            (add entries_up library network none (codes "now") nothing).1).0
          ≡ true)
add_listed_example =
    add_listed entries_up library network none (codes "now") nothing tt network-valid

covered : covers entries_up library (codes "10.0.0.7") (network ∷ []) ≡ true
unfolding covers contains split_once after_prefix ip_in_cidr both_inside is_inside
covered = refl

-- The entries are listed with the newest first.
abbrev described : Text → Option Description
described j =
    if text_eq j (codes "a")
    then some (record { description = codes "x"; added_at = codes "2024" })
    else some (record { description = codes "y"; added_at = codes "2025" })

listed :
    (list_all entries_up library (codes "now") (codes "a" ∷ codes "b" ∷ [], described)).0
    ≡ record { ip_address = codes "b"; description = some (codes "y"); added_at = codes "2025" }
      ∷ record { ip_address = codes "a"; description = some (codes "x"); added_at = codes "2024" }
      ∷ []
unfolding list_all entries_of entry_of sort_entries insert_entry text_leb text_eq
listed = refl
