-- ===== src/HttpClient/Addresses.antt =====
-- http_client.py, `_is_blocked_ip` and `_GuardedResolver`: the addresses that may be connected to.
-- An IPv4 address is a number below 2 ^ 32, an IPv6 address one below 2 ^ 128. The networks are
-- those of `ipaddress` in Python 3.13.
use v2hub_api.Base.{
  ℕ, ◌+◌, ◌*◌, ◌/◌, ◌%◌, ◌==◌, Bool, true, false, not, ◌&&◌, ◌||◌, none, some, List, [], ◌∷◌, map,
  Text, text_eq, has, leb, ltb, if◌then◌else◌, Result, ok, ◌>>=◌,
}
use Prim.Native.Nat.{◌^◌}
use v2hub_api.HttpClient.{
  IpAddress, v4, v6, Raised, fail, blocked_hostname, not_resolved, rebinding, no_answers,
  blocked_target_ip, Client, normalize_host, is_blocked_hostname,
}

-- a network: its first address, and how many bits are free
abbrev pub Network : Type 0
Network = ℕ × ℕ

abbrev pub in_network : ℕ → Network → Bool
in_network n (first, bits) = leb first n && ltb n (first + 2 ^ bits)

abbrev pub in_any : ℕ → List Network → Bool
in_any n [] = false
in_any n (net ∷ nets) = in_network n net || in_any n nets

abbrev pub quad : ℕ → ℕ → ℕ → ℕ → ℕ
quad a b c d = ((a * 256 + b) * 256 + c) * 256 + d

-- an IPv6 address whose first three groups are given
abbrev pub groups : ℕ → ℕ → ℕ → ℕ
groups a b c = a * 2 ^ 112 + b * 2 ^ 96 + c * 2 ^ 80

abbrev pub private_v4 : List Network
private_v4 =
    (0, 24)
    ∷ (quad 10 0 0 0, 24)
    ∷ (quad 127 0 0 0, 24)
    ∷ (quad 169 254 0 0, 16)
    ∷ (quad 172 16 0 0, 20)
    ∷ (quad 192 0 0 0, 8)
    ∷ (quad 192 0 0 170, 1)
    ∷ (quad 192 0 2 0, 8)
    ∷ (quad 192 168 0 0, 16)
    ∷ (quad 198 18 0 0, 17)
    ∷ (quad 198 51 100 0, 8)
    ∷ (quad 203 0 113 0, 8)
    ∷ (quad 240 0 0 0, 28)
    ∷ (quad 255 255 255 255, 0)
    ∷ []

abbrev pub public_v4 : List Network
public_v4 = (quad 192 0 0 9, 0) ∷ (quad 192 0 0 10, 0) ∷ []

abbrev pub private_v6 : List Network
private_v6 =
    (1, 0)
    ∷ (0, 0)
    ∷ (0xffff * 2 ^ 32, 32)
    ∷ (groups 0x64 0xff9b 1, 80)
    ∷ (groups 0x100 0 0, 64)
    ∷ (groups 0x2001 0 0, 105)
    ∷ (groups 0x2001 0xdb8 0, 96)
    ∷ (groups 0x2002 0 0, 112)
    ∷ (groups 0x3fff 0 0, 108)
    ∷ (groups 0xfc00 0 0, 121)
    ∷ (groups 0xfe80 0 0, 118)
    ∷ []

abbrev pub public_v6 : List Network
public_v6 =
    (groups 0x2001 1 0 + 1, 0)
    ∷ (groups 0x2001 1 0 + 2, 0)
    ∷ (groups 0x2001 3 0, 96)
    ∷ (groups 0x2001 4 0x112, 80)
    ∷ (groups 0x2001 0x20 0, 100)
    ∷ (groups 0x2001 0x30 0, 100)
    ∷ []

abbrev pub reserved_v6 : List Network
reserved_v6 =
    (0, 120)
    ∷ (groups 0x100 0 0, 120)
    ∷ (groups 0x200 0 0, 121)
    ∷ (groups 0x400 0 0, 122)
    ∷ (groups 0x800 0 0, 123)
    ∷ (groups 0x1000 0 0, 124)
    ∷ (groups 0x4000 0 0, 125)
    ∷ (groups 0x6000 0 0, 125)
    ∷ (groups 0x8000 0 0, 125)
    ∷ (groups 0xa000 0 0, 125)
    ∷ (groups 0xc000 0 0, 125)
    ∷ (groups 0xe000 0 0, 124)
    ∷ (groups 0xf000 0 0, 123)
    ∷ (groups 0xf800 0 0, 122)
    ∷ (groups 0xfe00 0 0, 119)
    ∷ []

abbrev metadata_v4 : ℕ
metadata_v4 = quad 169 254 169 254

abbrev pub metadata_v6 : ℕ
metadata_v6 = groups 0xfd00 0xec2 0 + 0x254

-- is_private, is_loopback, is_link_local, is_multicast, is_unspecified, is_reserved
unfoldable pub is_blocked_v4 : ℕ → Bool
is_blocked_v4 n =
    n == metadata_v4
    || (in_any n private_v4 && not (in_any n public_v4))
    || in_network n (quad 127 0 0 0, 24)
    || in_network n (quad 169 254 0 0, 16)
    || in_network n (quad 224 0 0 0, 28)
    || n == 0
    || in_network n (quad 240 0 0 0, 28)

-- the same, and is_site_local
unfoldable pub is_not_public_v6 : ℕ → Bool
is_not_public_v6 n =
    (in_any n private_v6 && not (in_any n public_v6))
    || n == 1
    || in_network n (groups 0xfe80 0 0, 118)
    || in_network n (groups 0xff00 0 0, 120)
    || n == 0
    || in_any n reserved_v6
    || in_network n (groups 0xfec0 0 0, 118)

unfoldable pub is_blocked_ip : IpAddress → Bool
unfolding is_not_public_v6
is_blocked_ip (v4 n) = is_blocked_v4 n
is_blocked_ip (v6 n) =
    if n == metadata_v6
    then true
    else (if n / 2 ^ 32 == 0xffff then is_blocked_v4 (n % 2 ^ 32) else is_not_public_v6 n)

-- one answer of getaddrinfo
pub record Info : Type 0 where
  pub family : ℕ
  pub socktype : ℕ
  pub proto : ℕ
  pub ip : Text

-- `list(dict.fromkeys(ips))`, after the texts seen so far
unfoldable pub distinct_from : List Text → List Text → List Text
distinct_from seen [] = []
distinct_from seen (ip ∷ ips) =
    let skipped = distinct_from seen ips in
    let kept = ip ∷ distinct_from (ip ∷ seen) ips in if has seen ip then skipped else kept

unfoldable pub extract_ips_from_getaddrinfo : List Info → List Text
extract_ips_from_getaddrinfo infos = distinct_from [] (map (λ info. info.ip) infos)

unfoldable pub blocked_text : Client → Text → Bool
blocked_text client ip = elim (client.ip_address ip) [
  | none ↦ false
  | some address ↦ is_blocked_ip address
]

unfoldable pub check_ips : Client → Text → List Text → Result Raised (Unit {0})
check_ips client host [] = ok tt
check_ips client host (ip ∷ ips) =
    if blocked_text client ip then fail host (blocked_target_ip ip) else check_ips client host ips

unfoldable pub validate_resolved_ips : Client → Text → List Text → Result Raised (Unit {0})
validate_resolved_ips client host [] = fail host not_resolved
validate_resolved_ips client host (ip ∷ ips) = check_ips client host (ip ∷ ips)

pub record ResolveResult : Type 0 where
  pub hostname : Text
  pub host : Text
  pub port : ℕ
  pub family : ℕ
  pub proto : ℕ
  pub flags : ℕ

unfoldable pub same_answer : Info → Info → Bool
same_answer a b =
    text_eq a.ip b.ip && a.family == b.family && a.socktype == b.socktype && a.proto == b.proto

unfoldable pub is_seen : Info → List Info → Bool
unfolding same_answer
is_seen info [] = false
is_seen info (other ∷ seen) = same_answer info other || is_seen info seen

unfoldable pub answers_from : Text → ℕ → List Info → List Info → List ResolveResult
unfolding is_seen
answers_from host port seen [] = []
answers_from host port seen (info ∷ infos) =
    let skipped = answers_from host port seen infos in
    let kept =
      (record {
        hostname = host;
        host = info.ip;
        port = port;
        family = info.family;
        proto = info.proto;
        flags = 0;
      })
      ∷ answers_from host port (info ∷ seen) infos in
    if is_seen info seen then skipped else kept

unfoldable pub has_all : List Text → List Text → Bool
has_all xs [] = true
has_all xs (y ∷ ys) = has xs y && has_all xs ys

unfoldable pub same_set : List Text → List Text → Bool
same_set xs ys = has_all xs ys && has_all ys xs

unfoldable pub some_answers : Text → List ResolveResult → Result Raised (List ResolveResult)
some_answers host [] = fail host no_answers
some_answers host (r ∷ results) = ok (r ∷ results)

unfoldable pub answers :
    Text → Text → ℕ → List Info → List Info → Result Raised (List ResolveResult)
unfolding some_answers
answers host name port infos_1 infos_2 =
    if same_set (extract_ips_from_getaddrinfo infos_1) (extract_ips_from_getaddrinfo infos_2)
    then some_answers host (answers_from name port [] infos_1)
    else fail host rebinding

unfoldable pub refuse_empty : Text → List Text → Result Raised (Unit {0})
refuse_empty host [] = fail host not_resolved
refuse_empty host (ip ∷ ips) = ok tt

-- What the two calls of getaddrinfo give or raise is an argument; the second is made only after the
-- first has been checked.
unfoldable pub resolve :
    Client
    → Text
    → ℕ
    → Result Raised (List Info)
    → Result Raised (List Info)
    → Result Raised (List ResolveResult)
unfolding refuse_empty
resolve client host port first second =
    if is_blocked_hostname (normalize_host host)
    then fail host blocked_hostname
    else (first >>= λ infos_1. refuse_empty host (extract_ips_from_getaddrinfo infos_1) >>= λ found.
        validate_resolved_ips client (normalize_host host) (extract_ips_from_getaddrinfo infos_1)
        >>= λ valid. second >>= λ infos_2. answers host (normalize_host host) port infos_1 infos_2)
