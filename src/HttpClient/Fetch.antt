-- ===== src/HttpClient/Fetch.antt =====
-- http_client.py, `_fetch_once` and `fetch`, over a network whose state the requests and the pauses
-- change. The session, which is created once, is part of the network.
use v2hub_api.Base.{
  ℕ, zero, suc, ◌+◌, ◌==◌, Bool, Option, none, some, List, [], ◌∷◌, ◌++◌, Text, length, ltb,
  if◌then◌else◌, not, ◌||◌, Result, ok, err, ◌>>=◌,
}
use Prim.Native.Nat.{◌^◌}
use v2hub_api.Base.Strings.{strip}
use v2hub_api.HttpClient.{
  Raised, Reason, fetch_error, connection, uncaught, Client, validate_url,
  validate_no_ip_literal_in_url, refuse_blocked, response_too_large, redirect, http_status,
  network_error,
}
use v2hub_api.HttpClient.Content.{
  validate_content_type, validate_content_encoding, check_executable_signature,
  check_malicious_patterns, validate_content_structure, sanitize_content, decode,
}

-- `raised` is what reading the body raises after the chunks, if anything.
pub record Response : Type 0 where
  pub status : ℕ
  pub content_type : Option Text
  pub content_encoding : Option Text
  pub chunks : List Text
  pub raised : Option Raised

pub record Network : Type 1 where
  pub State : Type 0
  pub get : Text → State → Result Raised Response × State
  pub sleep : ℕ → State → State

unfoldable pub is_redirect : ℕ → Bool
is_redirect status =
    (status == 301) || (status == 302) || (status == 303) || (status == 307) || (status == 308)

abbrev pub fail_with : {A : Type 0} → Text → Reason → ℕ → Result Raised A
fail_with url reason status =
    err (fetch_error (record { url = url; reason = reason; status_code = some status }))

unfoldable pub end_of_body : Option Raised → Result Raised Text
end_of_body none = ok []
end_of_body (some e) = err e

-- `total` bytes have been read
unfoldable pub read_chunks : Client → Text → ℕ → ℕ → List Text → Option Raised → Result Raised Text
unfolding end_of_body
read_chunks client url status total [] raised = end_of_body raised
read_chunks client url status total (chunk ∷ chunks) raised =
    let rest = read_chunks client url status (total + length chunk) chunks raised in
    if ltb client.max_bytes (total + length chunk)
    then fail_with url (response_too_large client.max_bytes) status
    else (rest >>= λ raw. ok (chunk ++ raw))

unfoldable pub read_text : Text → Text → Result Raised Text
read_text url raw = check_executable_signature raw url >>= λ plain.
    check_malicious_patterns raw url >>= λ harmless.
    validate_content_structure (decode raw) url >>= λ regular. ok (sanitize_content (decode raw))

-- the status and the body
unfoldable pub read_response : Client → Text → Response → Result Raised (ℕ × Text)
read_response client url response =
    if is_redirect response.status || not (response.status == 200)
    then ok (response.status, [])
    else (validate_content_type response.content_type url >>= λ typed.
        validate_content_encoding response.content_encoding url >>= λ encoded.
        read_chunks client url response.status 0 response.chunks response.raised >>= λ raw.
        read_text url raw >>= λ text. ok (response.status, text))

unfoldable pub check_status : Text → ℕ × Text → Result Raised Text
check_status url (status, body) =
    if is_redirect status
    then fail_with url redirect status
    else (if not (status == 200)
        then fail_with url (http_status status) status
        else ok (strip body))

module _ (N : Network) (client : Client) where
  unfoldable pub fetch_once : Text → N.State → Result Raised (ℕ × Text) × N.State
  fetch_once url st = let (answer, st') = N.get url st in (answer >>= read_response client url, st')

  unfoldable pub send : Text → Result Raised (Unit {0}) → N.State → Result Raised Text × N.State
  send url (err e) st = (err e, st)
  send url (ok _) st = let (answer, st') = fetch_once url st in (answer >>= check_status url, st')

  -- the body of `try`
  unfoldable pub attempt : Text → N.State → Result Raised Text × N.State
  unfolding send
  attempt url st = send url (refuse_blocked client url) st

  -- the loop, with `left` attempts left; it returns None after the last
  unfoldable pub attempts : ℕ → ℕ → Text → N.State → Result Raised (Option Text) × N.State
  attempts zero n url st = (ok none, st)
  attempts (suc left) n url st = elim (attempt url st).0 [
    | ok content ↦ (ok (some content), (attempt url st).1)
    | err (connection e) ↦ elim (n == 2) [
      | Bool.true ↦ (
        err (fetch_error (record { url = url; reason = network_error e; status_code = none })),
        (attempt url st).1,
      )
      | Bool.false ↦ attempts left (suc n) url (N.sleep (2 ^ n) (attempt url st).1)
    ]
    | err (fetch_error e) ↦ (err (fetch_error e), (attempt url st).1)
    | err (uncaught e) ↦ (err (uncaught e), (attempt url st).1)
  ]

  unfoldable pub fetch_valid :
      Text → Result Raised (Unit {0}) → N.State → Result Raised (Option Text) × N.State
  fetch_valid url (err e) st = (err e, st)
  fetch_valid url (ok _) st = attempts 3 0 url st

  unfoldable pub fetch : Text → N.State → Result Raised (Option Text) × N.State
  unfolding fetch_valid
  fetch url st =
      fetch_valid url
        (validate_url client url >>= λ valid. validate_no_ip_literal_in_url client url) st
