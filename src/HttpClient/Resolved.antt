-- ===== src/HttpClient/Resolved.antt =====
-- http_client.py, `_is_blocked_ip` and `_GuardedResolver.resolve`: no name leads to a blocked address.
use Prim.Native.Nat.{◌^◌}
use v2hub_api.Base.{
  &&-right, sym, subst, text_eq_self, ◌==◌, ℕ, ◌+◌, ◌*◌, ◌/◌, ◌%◌, ◌<◌, ◌≡◌, ◌≢◌, refl, ◌∙◌, inl,
  inr, true, false, ◌||◌, List, [], ◌∷◌, map, Text, text_eq_iff, has, All, Result, ok, bind-ok,
  arith, Bool-cases,
}
use v2hub_api.HttpClient.{v4, v6, Raised, Client, normalize_host, is_blocked_hostname}
use v2hub_api.HttpClient.Addresses.{
  refuse_empty, some_answers, is_seen, Network, quad, in_any, is_blocked_v4, is_blocked_ip,
  metadata_v6, Info, distinct_from, extract_ips_from_getaddrinfo, blocked_text, check_ips,
  validate_resolved_ips, ResolveResult, answers_from, has_all, same_set, answers, resolve,
}

-- The networks of a host itself, of local networks and of links.
abbrev local_networks : List Network
local_networks =
    (quad 10 0 0 0, 24)
    ∷ (quad 127 0 0 0, 24)
    ∷ (quad 169 254 0 0, 16)
    ∷ (quad 172 16 0 0, 20)
    ∷ (quad 192 168 0 0, 16)
    ∷ []

is_blocked_v4_local : (n : ℕ) → in_any n local_networks ≡ true → is_blocked_v4 n ≡ true
unfolding is_blocked_v4
is_blocked_v4_local n h = ground arith

is_blocked_ip-mapped :
    (n : ℕ) → n < 2 ^ 32 → is_blocked_ip (v6 (0xffff * 2 ^ 32 + n)) ≡ is_blocked_v4 n
unfolding is_blocked_ip
is_blocked_ip-mapped n h = rw (metadata, prefix, rest) refl
  where
    metadata : ((0xffff * 2 ^ 32 + n) == metadata_v6) ≡ false
    metadata = ground arith

    prefix : (0xffff * 2 ^ 32 + n) / 2 ^ 32 ≡ 0xffff
    prefix = omega arith

    rest : (0xffff * 2 ^ 32 + n) % 2 ^ 32 ≡ n
    rest = omega arith

-- Every address of a loopback, private or link-local network is blocked, also when it is written as
-- an IPv4-mapped IPv6 address.
pub is_blocked_ip_local :
    (n : ℕ)
    → n < 2 ^ 32
    → in_any n local_networks ≡ true
    → (is_blocked_ip (v4 n) ≡ true) × (is_blocked_ip (v6 (0xffff * 2 ^ 32 + n)) ≡ true)
unfolding is_blocked_ip
is_blocked_ip_local n small h =
    (is_blocked_v4_local n h, is_blocked_ip-mapped n small ∙ is_blocked_v4_local n h)

module _ (client : Client) (host : Text) where
  check_ips-ok :
      (ips : List Text) (u : Unit {0})
      → check_ips client host ips ≡ ok u
      → (x : Text) → has ips x ≡ true
      → blocked_text client x ≡ false
  unfolding check_ips has
  check_ips-ok [] u e x m = cc m
  check_ips-ok (ip ∷ ips) u e x m =
      ground
        (arith, text_eq_iff ip x, λ (e : check_ips client host ips ≡ ok u). check_ips-ok ips u e x)

  validate_resolved_ips-ok :
      (ips : List Text) (u : Unit {0})
      → validate_resolved_ips client host ips ≡ ok u
      → (x : Text) → has ips x ≡ true
      → blocked_text client x ≡ false
  unfolding validate_resolved_ips has
  validate_resolved_ips-ok [] u e x m = cc m
  validate_resolved_ips-ok (ip ∷ ips) u e x m = check_ips-ok (ip ∷ ips) u e x m

has-distinct_from :
    (seen ips : List Text) (x : Text)
    → (has seen x || has (distinct_from seen ips) x) ≡ (has seen x || has ips x)
unfolding distinct_from has
has-distinct_from seen [] x = refl
has-distinct_from seen (ip ∷ ips) x =
    ground
      (arith, text_eq_iff ip x, has-distinct_from seen ips x, has-distinct_from (ip ∷ seen) ips x)

has-has_all :
    (xs ys : List Text) (x : Text) → has_all xs ys ≡ true → has ys x ≡ true → has xs x ≡ true
unfolding has_all has
has-has_all xs [] x h m = cc m
has-has_all xs (y ∷ ys) x h m = ground (arith, text_eq_iff y x, has-has_all xs ys x)

has-extract :
    (infos : List Info) (x : Text)
    → has (extract_ips_from_getaddrinfo infos) x ≡ has (map (λ info. info.ip) infos) x
unfolding extract_ips_from_getaddrinfo has
has-extract infos x = has-distinct_from [] (map (λ info. info.ip) infos) x

answers_from-All :
    (P : Text → Type 0) (name : Text) (port : ℕ) (seen infos : List Info)
    → ((x : Text) → has (map (λ info. info.ip) infos) x ≡ true → P x)
    → All (λ r. P r.host) (answers_from name port seen infos)
unfolding answers_from has
answers_from-All P name port seen [] h = tt
answers_from-All P name port seen (info ∷ infos) h = elim (Bool-cases (is_seen info seen)) [
  | inl old ↦ rw old (answers_from-All P name port seen infos later)
  | inr new ↦ rw new (
    h info.ip (rw (text_eq_self info.ip) refl),
    answers_from-All P name port (info ∷ seen) infos later,
  )
]
  where
    later : (x : Text) → has (map (λ i. i.ip) infos) x ≡ true → P x
    later x m = h x (ground (arith, m))

-- the list of addresses in a list of answers
abbrev pub ips : List Info → List Text
ips infos = map (λ info. info.ip) infos

some_answers-ok :
    (host : Text) (found results : List ResolveResult)
    → some_answers host found ≡ ok results
    → (found ≡ results) × (results ≢ [])
unfolding some_answers
some_answers-ok host [] results e = cc e
some_answers-ok host (r ∷ found) results e = (cc e, λ q. cc (e, q))

answers-Public :
    (client : Client) (host name : Text) (port : ℕ) (infos_1 infos_2 : List Info)
    (results : List ResolveResult)
    → ((x : Text)
        → has (extract_ips_from_getaddrinfo infos_1) x ≡ true
        → blocked_text client x ≡ false)
    → answers host name port infos_1 infos_2 ≡ ok results
    → All (λ r. (blocked_text client r.host ≡ false) × (has (ips infos_2) r.host ≡ true)) results
      × (results ≢ [])
unfolding answers same_set
answers-Public client host name port infos_1 infos_2 results valid e =
    elim (Bool-cases
      (same_set (extract_ips_from_getaddrinfo infos_1) (extract_ips_from_getaddrinfo infos_2))) [
        | inl same ↦
            let (found, some_of) = some_answers-ok host _ results (rw same at e) in
            (
              subst
                  (All
                    (λ r. (blocked_text client r.host ≡ false) × (has (ips infos_2) r.host ≡ true)))
                  found
                  (answers_from-All
                    (λ x. (blocked_text client x ≡ false) × (has (ips infos_2) x ≡ true)) name port
                    [] infos_1
                    (λ x m.
                      let known : has (extract_ips_from_getaddrinfo infos_1) x ≡ true =
                        has-extract infos_1 x ∙ m in
                      (
                        valid x known,
                        sym (has-extract infos_2 x)
                            ∙ has-has_all (extract_ips_from_getaddrinfo infos_2)
                                (extract_ips_from_getaddrinfo infos_1) x (&&-right _ _ same) known,
                      ))),
              some_of,
            )
        | inr other ↦ cc (rw other at e)
      ]

-- If the resolver gives addresses, then it gives at least one, none of them is the text of a blocked
-- address, and each of them is also an answer of the second look-up.
pub resolve-Public :
    (client : Client) (host : Text) (port : ℕ) (first second : Result Raised (List Info))
    (results : List ResolveResult)
    → resolve client host port first second ≡ ok results
    → (infos : List Info) × (second ≡ ok infos)
      × All (λ r. (blocked_text client r.host ≡ false) × (has (ips infos) r.host ≡ true)) results
      × (results ≢ [])
unfolding resolve
resolve-Public client host port first second results e =
    elim (Bool-cases (is_blocked_hostname (normalize_host host))) [
      | inl blocked ↦ cc (rw blocked at e)
      | inr free ↦
          let (infos_1, _, e1) = bind-ok first _ results (rw free at e) in
          let (_, _, e2) =
            bind-ok (refuse_empty host (extract_ips_from_getaddrinfo infos_1)) _ results e1 in
          let (u, valid, e3) =
            bind-ok
              (validate_resolved_ips client (normalize_host host)
                (extract_ips_from_getaddrinfo infos_1))
              _ results e2 in
          let (infos_2, answered, e4) = bind-ok second _ results e3 in
          let (safe, found) =
            answers-Public client host (normalize_host host) port infos_1 infos_2 results
              (validate_resolved_ips-ok client (normalize_host host) _ u valid) e4 in
          (infos_2, answered, safe, found)
    ]
