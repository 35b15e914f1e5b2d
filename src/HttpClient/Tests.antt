-- ===== src/HttpClient/Tests.antt =====
-- The HTTP client at a concrete network: two connections fail, and then a subscription is read.
use Prim.Native.Nat.{◌^◌}
use v2hub_api.Base.{
  Result, ℕ, zero, suc, ◌+◌, ◌*◌, ◌≡◌, ◌≢◌, refl, true, false, none, List, [], ◌∷◌, codes, text_eq,
  has, All, ok, err, ◌>>=◌, arith,
}
use v2hub_api.Base.Utf8.{decode_utf8, utf8_from, next_byte, lead_byte}
use v2hub_api.Base.Strings.{contains, split_once, after_prefix, lower, lower_char}
use v2hub_api.HttpClient.Patterns.{
  finds_any, search_in, literal, many, many1, one_of, matched, is_white, is_word,
}
use v2hub_api.HttpClient.Samples.{client, response, url}
use v2hub_api.HttpClient.{
  Raised, v4, v6, connection, validate_url, parse, validate_no_ip_literal_in_url,
  is_blocked_hostname, fail, check_parsed, check_hostname, refuse_literal, refuse_address,
  normalize_host, strip_dots, put_before_dot, malicious_content,
}
use v2hub_api.HttpClient.Addresses.{
  quad, groups, is_blocked_ip, Info, ResolveResult, blocked_text, resolve, is_blocked_v4,
  is_not_public_v6, refuse_empty, extract_ips_from_getaddrinfo, distinct_from,
  validate_resolved_ips, check_ips, answers, same_set, has_all, some_answers, answers_from, is_seen,
  same_answer,
}
use v2hub_api.HttpClient.Content.{check_malicious_patterns, decode, decoded_or, decode_latin1}
use v2hub_api.HttpClient.Fetch.{Network, fetch}
use v2hub_api.HttpClient.Resolved.{is_blocked_ip_local, resolve-Public, ips}
use v2hub_api.HttpClient.Retries.{Decided, fetch-Decided}
use v2hub_api.HttpClient.Clean.{Clean}

-- The state is the number of requests so far; the third one is answered.
abbrev network : Network
network = record {
  State = ℕ;
  get = λ u n. elim n [
    | zero ↦ (err (connection (codes "TimeoutError")), 1)
    | suc zero ↦ (err (connection (codes "TimeoutError")), 2)
    | suc (suc m) ↦ (ok response, 3)
  ];
  sleep = λ seconds n. n;
}

url_passes : (validate_url client url >>= λ valid. validate_no_ip_literal_in_url client url) ≡ ok tt
unfolding validate_url parse check_parsed check_hostname text_eq contains split_once after_prefix
    validate_no_ip_literal_in_url refuse_literal refuse_address
url_passes = refl

fetch-Decided_example :
    Decided network client url 0 (fetch network client url 0)
    × ((fetch network client url 0).0 ≢ ok none)
fetch-Decided_example = fetch-Decided network client url tt 0 url_passes

is_blocked_ip_local_example :
    (is_blocked_ip (v4 (quad 10 0 0 1)) ≡ true)
    × (is_blocked_ip (v6 (0xffff * 2 ^ 32 + quad 10 0 0 1)) ≡ true)
is_blocked_ip_local_example = is_blocked_ip_local (quad 10 0 0 1) (omega arith) refl

-- the addresses of Google's and Cloudflare's name servers pass, a metadata service's does not
public_addresses :
    (is_blocked_ip (v4 (quad 8 8 8 8)) ≡ false)
    × (is_blocked_ip (v6 (groups 0x2606 0x4700 0x4700 + 0x1111)) ≡ false)
    × (is_blocked_ip (v6 (groups 0xfd00 0xec2 0 + 0x254)) ≡ true)
unfolding is_blocked_ip is_blocked_v4 is_not_public_v6
public_addresses = (refl, refl, refl)

abbrev info : Info
info = record { family = 2; socktype = 1; proto = 6; ip = codes "8.8.8.8" }

abbrev result : ResolveResult
result = record {
  hostname = codes "a.b";
  host = codes "8.8.8.8";
  port = 443;
  family = 2;
  proto = 6;
  flags = 0;
}

resolved :
    resolve client (codes "A.b.") 443 (ok (info ∷ info ∷ [])) (ok (info ∷ [])) ≡ ok (result ∷ [])
unfolding resolve is_blocked_hostname normalize_host strip_dots put_before_dot lower lower_char has
    text_eq refuse_empty extract_ips_from_getaddrinfo distinct_from validate_resolved_ips check_ips
    blocked_text answers same_set has_all some_answers answers_from is_seen same_answer
resolved = refl

resolve-Public_example :
    (infos : List Info) × (◌≡◌ {A = Result Raised (List Info)} (ok (info ∷ [])) (ok infos))
    × All
        (λ r. (blocked_text client r.host ≡ false) × (has (ips infos) r.host ≡ true))
        (result ∷ [])
    × ((result ∷ []) ≢ [])
resolve-Public_example =
    resolve-Public client (codes "A.b.") 443 (ok (info ∷ info ∷ [])) (ok (info ∷ [])) (result ∷ [])
      resolved

-- A base64 list that has "on", word characters and "=" in a row is taken for an event handler.
base64_refused : check_malicious_patterns (codes "dmxlc3Mon2Q=") url ≡ fail url malicious_content
unfolding check_malicious_patterns finds_any search_in literal many many1 one_of matched is_white
    is_word lower_char
base64_refused = refl

-- Two euro signs in UTF-8, and a lone byte in latin-1.
decoded : (decode (0xe2 ∷ 0x82 ∷ 0xac ∷ []) ≡ 0x20ac ∷ []) × (decode (0xe9 ∷ []) ≡ 0xe9 ∷ [])
unfolding decode decode_utf8 utf8_from next_byte lead_byte decoded_or decode_latin1
decoded = (refl, refl)

-- "localhost." passes the test for a dot, and is refused as a blocked name.
localhost_refused : is_blocked_hostname (codes "LocalHost.") ≡ true
unfolding is_blocked_hostname normalize_host strip_dots put_before_dot lower lower_char has text_eq
localhost_refused = refl
