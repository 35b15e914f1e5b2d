-- ===== src/Whitelist.antt =====
-- src/v2hub_api/services/whitelist_service.py: the addresses and networks that the rate limit passes
-- over, as a set in Redis, with a description of each.
pub mod Sets
mod Entries
mod Tests
use v2hub_api.Base.{
  ℕ, ◌+◌, Bool, true, false, ◌&&◌, ◌||◌, Option, none, some, List, [], ◌∷◌, ◌++◌, Text, codes,
  length, leb, ltb, ◌==◌, if◌then◌else◌, Result, ok, err,
}
use v2hub_api.Base.Strings.{contains}
use v2hub_api.Models.{filled}
use v2hub_api.HttpClient.{IpAddress, v4, v6}
use v2hub_api.HttpClient.Addresses.{Network, in_network}
use v2hub_api.Redis.{◌>>=◌, return, try_or}
use v2hub_api.Whitelist.Sets.{SetRedis, Description}

pub data IpNetwork : Type 0 where
  net4 net6 : Network → IpNetwork

-- `ipaddress.ip_address` and `ip_network` of Python's library; `none` is a ValueError.
pub record Ipaddress : Type 0 where
  pub ip_address : Text → Option IpAddress
  pub ip_network : Text → Option IpNetwork

unfoldable pub is_inside : IpAddress → IpNetwork → Bool
is_inside (v4 n) (net4 net) = in_network n net
is_inside (v6 n) (net6 net) = in_network n net
is_inside (v4 n) (net6 net) = false
is_inside (v6 n) (net4 net) = false

unfoldable pub both_inside : Option IpAddress → Option IpNetwork → Bool
both_inside (some ip) (some net) = is_inside ip net
both_inside (some ip) none = false
both_inside none net = false

-- one entry of `list_all`
pub record WhitelistEntry : Type 0 where
  pub ip_address : Text
  pub description : Option Text
  pub added_at : Text

-- what an operation raises
pub data WhitelistError : Type 0 where
  invalid_format redis_error : WhitelistError

-- the order of strings
unfoldable pub text_leb : Text → Text → Bool
text_leb [] t = true
text_leb (c ∷ s) [] = false
text_leb (c ∷ s) (d ∷ t) = ltb c d || ((c == d) && text_leb s t)

-- `sorted(..., reverse=True)` by the time, which keeps the order of equal times
unfoldable pub insert_entry : WhitelistEntry → List WhitelistEntry → List WhitelistEntry
insert_entry e [] = e ∷ []
insert_entry e (f ∷ entries) =
    if text_leb f.added_at e.added_at then e ∷ f ∷ entries else f ∷ insert_entry e entries

unfoldable pub sort_entries : List WhitelistEntry → List WhitelistEntry
sort_entries [] = []
sort_entries (e ∷ entries) = insert_entry e (sort_entries entries)

module _ (R : SetRedis) (L : Ipaddress) where
  abbrev pub Action : Type 0 → Type 0
  Action A = R.Store → Option A × R.Store

  unfoldable pub ip_in_cidr : Text → Text → Bool
  ip_in_cidr ip cidr = both_inside (L.ip_address ip) (L.ip_network cidr)

  unfoldable pub covers : Text → List Text → Bool
  covers ip [] = false
  covers ip (entry ∷ entries) =
      (contains (codes "/") entry && ip_in_cidr ip entry) || covers ip entries

  unfoldable pub check_ranges : Text → Bool → Action Bool
  check_ranges ip true = return true
  check_ranges ip false = R.smembers >>= λ entries. return (covers ip entries)

  -- an exception is logged, and the address is not whitelisted
  unfoldable pub is_whitelisted : Text → R.Store → Bool × R.Store
  is_whitelisted ip = try_or (R.sismember ip >>= check_ranges ip) false

  unfoldable pub is_valid : Text → Bool
  is_valid ip_address =
      if contains (codes "/") ip_address
      then (elim (L.ip_network ip_address) [ none ↦ false | some net ↦ true ])
      else (elim (L.ip_address ip_address) [ none ↦ false | some ip ↦ true ])

  unfoldable pub describe_entry : Text → Option Text → Text → Action (Unit {0})
  describe_entry ip_address none now = return tt
  describe_entry ip_address (some description) now =
      R.hset ip_address (record { description = description; added_at = now })

  unfoldable pub add_valid : Text → Option Text → Text → Action Bool
  add_valid ip_address description now = R.sadd ip_address >>= λ added.
      describe_entry ip_address (filled description) now >>= λ described. return added

  unfoldable pub raised_or : {A : Type 0} → Option A × R.Store → Result WhitelistError A × R.Store
  raised_or (none, s) = (err redis_error, s)
  raised_or (some a, s) = (ok a, s)

  unfoldable pub add : Text → Option Text → Text → R.Store → Result WhitelistError Bool × R.Store
  add ip_address description now s =
      if is_valid ip_address
      then raised_or (add_valid ip_address description now s)
      else (err invalid_format, s)

  unfoldable pub remove : Text → R.Store → Result WhitelistError Bool × R.Store
  remove ip_address s =
      raised_or
        ((R.srem ip_address >>= λ removed. R.drop_meta ip_address >>= λ dropped. return removed) s)

  unfoldable pub entry_of : Text → Text → Option Description → WhitelistEntry
  entry_of now ip none = record { ip_address = ip; description = none; added_at = now }
  entry_of now ip (some meta) = record {
    ip_address = ip;
    description = some meta.description;
    added_at = meta.added_at;
  }

  unfoldable pub entries_of : Text → List Text → Action (List WhitelistEntry)
  entries_of now [] = return []
  entries_of now (ip ∷ ips) =
      R.hgetall ip >>= λ meta. entries_of now ips >>= λ rest. return (entry_of now ip meta ∷ rest)

  unfoldable pub list_all : Text → R.Store → List WhitelistEntry × R.Store
  list_all now =
      try_or
        (R.smembers >>= λ entries.
          entries_of now entries >>= λ result. return (sort_entries result))
        []

  unfoldable pub drop_metas : List Text → Action (Unit {0})
  drop_metas [] = return tt
  drop_metas (ip ∷ ips) = R.drop_meta ip >>= λ dropped. drop_metas ips

  unfoldable pub clear : R.Store → Result WhitelistError ℕ × R.Store
  clear s = raised_or (
      (R.smembers >>= λ entries.
      drop_metas entries >>= λ dropped. R.drop_set >>= λ gone. return (length entries))
        s)
