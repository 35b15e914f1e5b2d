-- ===== src/HttpClient/Samples.antt =====
-- A client, a response and a network that always gives it, for tests.
use v2hub_api.Base.{
  ℕ, ◌≡◌, refl, true, none, some, [], ◌∷◌, Text, codes, text_eq, has, ok, if◌then◌else◌,
}
use v2hub_api.Base.Utf8.{decode_utf8, utf8_from, next_byte, lead_byte}
use v2hub_api.Base.Strings.{
  contains, split_once, after_prefix, lower, lower_char, strip, lstrip, rstrip, put_before,
  is_space,
}
use v2hub_api.HttpClient.Patterns.{
  finds_any, search_in, literal, many, many1, one_of, matched, is_white, is_word,
}
use v2hub_api.HttpClient.{
  v4, Client, ParsedUrl, validate_url, parse, validate_no_ip_literal_in_url, is_blocked_hostname,
  check_parsed, check_hostname, refuse_literal, refuse_address, refuse_blocked, normalize_host,
  strip_dots, put_before_dot,
}
use v2hub_api.HttpClient.Addresses.{quad}
use v2hub_api.HttpClient.Content.{
  check_malicious_patterns, validate_content_type, decode, base_type, first_part,
  validate_content_encoding, check_executable_signature, starts_with_any,
  validate_content_structure, line_count, unique_count, has_char, decoded_or, sanitize_content,
  is_kept,
}
use v2hub_api.HttpClient.Fetch.{
  Response, Network, fetch, attempt, fetch_valid, attempts, send, fetch_once, read_response,
  is_redirect, check_status, read_chunks, end_of_body, read_text,
}

abbrev pub url : Text
url = codes "https://a.b/s"

abbrev pub parsed : ParsedUrl
parsed = record {
  scheme = codes "https";
  hostname = some (codes "a.b");
  username = none;
  password = none;
}

abbrev pub client : Client
client = record {
  urlparse = λ u. some parsed;
  ip_address = λ s. if text_eq s (codes "10.0.0.1") then some (v4 (quad 10 0 0 1)) else none;
  is_production = true;
  max_bytes = 100;
}

abbrev pub response : Response
response = record {
  status = 200;
  content_type = some (codes "Text/Plain; charset=utf-8");
  content_encoding = none;
  chunks = codes " vless://x" ∷ (10 ∷ 0 ∷ []) ∷ [];
  raised = none;
}

abbrev pub steady : Network
steady = record { State = ℕ; get = λ u n. (ok response, n); sleep = λ seconds n. n }

pub steady-fetch : (u : Text) (n : ℕ) → fetch steady client u n ≡ (ok (some (codes "vless://x")), n)
unfolding fetch fetch_valid validate_url parse check_parsed check_hostname text_eq contains
    split_once after_prefix lower lower_char validate_no_ip_literal_in_url refuse_literal
    refuse_address refuse_blocked is_blocked_hostname has normalize_host strip_dots put_before_dot
    attempts attempt send fetch_once read_response is_redirect check_status strip lstrip rstrip
    put_before is_space validate_content_type base_type first_part validate_content_encoding
    read_chunks end_of_body read_text check_executable_signature starts_with_any
    check_malicious_patterns finds_any search_in literal many many1 one_of matched is_white is_word
    validate_content_structure line_count unique_count has_char decode decode_utf8 utf8_from
    next_byte lead_byte decoded_or sanitize_content is_kept
steady-fetch u n = refl
