-- ===== src/Whitelist/Entries.antt =====
-- whitelist_service.py: which addresses are whitelisted, and what adding and removing do.
use v2hub_api.Models.{filled}
use v2hub_api.Base.{
  false, not, text_eq_self, ok, Option, none, some, ◌≡◌, refl, ap, ◌∙◌, inl, inr, true, ◌||◌, List,
  [], ◌∷◌, Text, codes, text_eq, text_eq_iff, has, Bool-cases, arith,
}
use v2hub_api.Base.Strings.{contains}
use v2hub_api.Redis.{◌>>=◌}
use v2hub_api.Whitelist.{
  describe_entry, add_valid, raised_or, add, remove, is_valid, Ipaddress, ip_in_cidr, covers,
  check_ranges, is_whitelisted,
}
use v2hub_api.Whitelist.Sets.{SetRedis}

module _ (R : SetRedis) (L : Ipaddress) where
  -- While Redis answers, an address is whitelisted exactly if it is an entry itself or lies in a
  -- network that is an entry.
  pub is_whitelisted_lem :
      (ip : Text) (s : R.Store)
      → R.Up s
      → (is_whitelisted R L ip s).0 ≡ (has (R.members s) ip || covers R L ip (R.members s))
  unfolding is_whitelisted check_ranges
  is_whitelisted_lem ip s up =
      let (member, up', same) = R.sismember_law ip s up in
      let (listed, _, _) = R.smembers_law (R.sismember ip s).1 up' in
      rw (◌>>=◌, member)
        (elim (Bool-cases (has (R.members s) ip)) [
          | inl entry ↦ rw entry refl
          | inr other ↦ rw other (rw (◌>>=◌, listed) (ap (covers R L ip) same))
        ])

  covers-has :
      (ip entry : Text) (entries : List Text)
      → has entries entry ≡ true
      → contains (codes "/") entry ≡ true
      → ip_in_cidr R L ip entry ≡ true
      → covers R L ip entries ≡ true
  unfolding covers has
  covers-has ip entry [] m slash inside = cc m
  covers-has ip entry (e ∷ entries) m slash inside = elim (Bool-cases (text_eq e entry)) [
    | inl same ↦
        let one : e ≡ entry = (text_eq_iff e entry).0 same in
        rw (ap (contains (codes "/")) one ∙ slash, ap (ip_in_cidr R L ip) one ∙ inside) refl
    | inr other ↦
        let rest : covers R L ip entries ≡ true =
          covers-has ip entry entries (ground (arith, m)) slash inside in
        ground arith
  ]

  -- the members after an addition
  abbrev pub Added : Text → R.Store → R.Store → Type 0
  Added ip s s' =
      R.Up s' × ((j : Text) → has (R.members s') j ≡ (has (R.members s) j || text_eq ip j))

  describe_entry-Added :
      (ip : Text) (description : Option Text) (now : Text) (s s' : R.Store)
      → Added ip s s'
      → ((describe_entry R L ip description now s').0 ≡ some tt)
        × Added ip s (describe_entry R L ip description now s').1
  unfolding describe_entry
  describe_entry-Added ip none now s s' (up, law) = (refl, (up, law))
  describe_entry-Added ip (some d) now s s' (up, law) =
      let (done, up', same) = R.hset_law ip (record { description = d; added_at = now }) s' up in
      (done, (up', λ j. ap (λ xs. has xs j) same ∙ law j))

  add_valid-Added :
      (ip : Text) (description : Option Text) (now : Text) (s : R.Store)
      → R.Up s
      → ((add_valid R L ip description now s).0 ≡ some (not (has (R.members s) ip)))
        × Added ip s (add_valid R L ip description now s).1
  unfolding add_valid
  add_valid-Added ip description now s up =
      let (added, up', law) = R.sadd_law ip s up in
      let (done, result) =
        describe_entry-Added ip (filled description) now s (R.sadd ip s).1 (up', law) in
      rw (◌>>=◌, added) (rw (◌>>=◌, done) (refl, result))

  -- While Redis answers, adding a valid entry says whether it is new; then the entry is whitelisted,
  -- and so is every address in it, if it is a network.
  pub add_listed :
      (ip : Text) (description : Option Text) (now : Text) (s : R.Store)
      → R.Up s
      → is_valid R L ip ≡ true
      → ((add R L ip description now s).0 ≡ ok (not (has (R.members s) ip)))
        × ((is_whitelisted R L ip (add R L ip description now s).1).0 ≡ true)
        × ((address : Text)
            → contains (codes "/") ip ≡ true
            → ip_in_cidr R L address ip ≡ true
            → (is_whitelisted R L address (add R L ip description now s).1).0 ≡ true)
  unfolding add raised_or
  add_listed ip description now s up valid =
      let (done, (up', law)) = add_valid-Added ip description now s up in
      let member : has (R.members (add_valid R L ip description now s).1) ip ≡ true =
        law ip ∙ rw (text_eq_self ip) (ground arith) in
      rw valid (
        rw (raised_or, done)
          (
            refl,
            is_whitelisted_lem ip _ up' ∙ rw member refl,
            λ address slash inside.
                is_whitelisted_lem address _ up'
                ∙ rw (covers-has address ip _ member slash inside) (ground arith),
          ))

  -- While Redis answers, removing an entry says whether it was there; then its text is whitelisted only
  -- if it lies in a network that is still an entry.
  pub remove_unlisted :
      (ip : Text) (s : R.Store)
      → R.Up s
      → ((remove R L ip s).0 ≡ ok (has (R.members s) ip))
        × (has (R.members (remove R L ip s).1) ip ≡ false)
        × ((is_whitelisted R L ip (remove R L ip s).1).0
            ≡ covers R L ip (R.members (remove R L ip s).1))
  unfolding remove raised_or
  remove_unlisted ip s up =
      let (removed, up', law) = R.srem_law ip s up in
      let ((b, dropped), up2, same) = R.drop_meta_law ip (R.srem ip s).1 up' in
      let gone : has (R.members (R.drop_meta ip (R.srem ip s).1).1) ip ≡ false =
        ap (λ xs. has xs ip) same ∙ law ip ∙ rw (text_eq_self ip) (ground arith) in
      rw (raised_or, ◌>>=◌, removed)
        (rw (◌>>=◌, dropped) (refl, gone, is_whitelisted_lem ip _ up2 ∙ rw gone refl))
