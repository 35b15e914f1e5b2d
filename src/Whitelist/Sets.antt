-- ===== src/Whitelist/Sets.antt =====
-- The commands of Redis that the whitelist sends, as an interface: the `redis.asyncio` client is not
-- part of the repository. The keys are "whitelist:ips" and, for the description of an entry,
-- "whitelist:meta:" with the entry.
use v2hub_api.Base.{◌≡◌, Bool, not, ◌&&◌, ◌||◌, Option, some, List, [], Text, text_eq, has}

pub record Description : Type 0 where
  pub description : Text
  pub added_at : Text

-- A command answers or raises (`none`), and leaves a store. `Up s` says that Redis answers from the
-- store `s` on; the laws are what Redis documents of an answered command.
pub record SetRedis : Type 1 where
  pub Store : Type 0
  pub members : Store → List Text
  pub Up : Store → Type 0
  pub sismember : Text → Store → Option Bool × Store
  pub smembers : Store → Option (List Text) × Store
  pub sadd : Text → Store → Option Bool × Store
  pub srem : Text → Store → Option Bool × Store
  pub drop_set : Store → Option Bool × Store
  pub hset : Text → Description → Store → Option (Unit {0}) × Store
  pub hgetall : Text → Store → Option (Option Description) × Store
  pub drop_meta : Text → Store → Option Bool × Store
  pub sismember_law :
      (ip : Text) (s : Store)
      → Up s
      → ((sismember ip s).0 ≡ some (has (members s) ip))
        × Up (sismember ip s).1
        × (members (sismember ip s).1 ≡ members s)
  pub smembers_law :
      (s : Store)
      → Up s
      → ((smembers s).0 ≡ some (members s))
        × Up (smembers s).1
        × (members (smembers s).1 ≡ members s)
  pub sadd_law :
      (ip : Text) (s : Store)
      → Up s
      → ((sadd ip s).0 ≡ some (not (has (members s) ip)))
        × Up (sadd ip s).1
        × ((j : Text) → has (members (sadd ip s).1) j ≡ (has (members s) j || text_eq ip j))
  pub srem_law :
      (ip : Text) (s : Store)
      → Up s
      → ((srem ip s).0 ≡ some (has (members s) ip))
        × Up (srem ip s).1
        × ((j : Text) → has (members (srem ip s).1) j ≡ (has (members s) j && not (text_eq ip j)))
  pub drop_set_law :
      (s : Store)
      → Up s
      → ((b : Bool) × ((drop_set s).0 ≡ some b)) × Up (drop_set s).1 × (members (drop_set s).1 ≡ [])
  pub hset_law :
      (ip : Text) (d : Description) (s : Store)
      → Up s
      → ((hset ip d s).0 ≡ some tt) × Up (hset ip d s).1 × (members (hset ip d s).1 ≡ members s)
  pub drop_meta_law :
      (ip : Text) (s : Store)
      → Up s
      → ((b : Bool) × ((drop_meta ip s).0 ≡ some b))
        × Up (drop_meta ip s).1
        × (members (drop_meta ip s).1 ≡ members s)
