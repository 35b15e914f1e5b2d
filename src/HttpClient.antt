-- ===== src/HttpClient.antt =====
-- src/v2hub_api/utils/http_client.py: the client that fetches external subscriptions. This file has
-- its errors and the checks of a URL; the children have the addresses, the content and `fetch`.
-- `urlparse` and `ipaddress.ip_address` of Python's library are parameters; `none` is a ValueError.
pub mod Addresses
pub mod Patterns
pub mod Content
pub mod Fetch
mod Resolved
mod Retries
mod Words
mod Clean
mod Safety
pub mod Samples
mod Tests
use v2hub_api.Base.{
  ℕ, Bool, true, false, not, ◌&&◌, ◌||◌, Option, none, some, List, [], ◌∷◌, ◌++◌, Text, codes,
  text_eq, has, if◌then◌else◌, Result, ok, err, ◌>>=◌,
}
use v2hub_api.Base.Strings.{is_some, contains, lower}
use v2hub_api.Models.{filled}

pub data IpAddress : Type 0 where
  v4 v6 : ℕ → IpAddress

pub data Reason : Type 0 where
  blocked_hostname not_resolved rebinding no_answers : Reason
  invalid_scheme missing_hostname invalid_hostname credentials : Reason
  executable_content malicious_content too_many_lines suspicious_content redirect : Reason
  blocked_target_ip unsupported_content_type suspicious_encoding network_error : Text → Reason
  direct_ip : IpAddress → Reason
  response_too_large http_status : ℕ → Reason

pub record ExternalFetchError : Type 0 where
  pub url : Text
  pub reason : Reason
  pub status_code : Option ℕ

-- What is raised: the client's error, one of the connection errors that `fetch` catches, by the name
-- of its type, or anything else.
pub data Raised : Type 0 where
  fetch_error : ExternalFetchError → Raised
  connection uncaught : Text → Raised

abbrev pub fail : {A : Type 0} → Text → Reason → Result Raised A
fail url reason = err (fetch_error (record { url = url; reason = reason; status_code = none }))

pub record ParsedUrl : Type 0 where
  pub scheme : Text
  pub hostname : Option Text
  pub username : Option Text
  pub password : Option Text

pub record Client : Type 0 where
  pub urlparse : Text → Option ParsedUrl
  pub ip_address : Text → Option IpAddress
  pub is_production : Bool
  pub max_bytes : ℕ

abbrev dot : ℕ
dot = 46

unfoldable pub put_before_dot : ℕ → Text → Text
put_before_dot c [] = if (text_eq (c ∷ []) (dot ∷ [])) then [] else c ∷ []
put_before_dot c (d ∷ s) = c ∷ d ∷ s

-- `host.rstrip(".")`
unfoldable pub strip_dots : Text → Text
unfolding put_before_dot
strip_dots [] = []
strip_dots (c ∷ s) = put_before_dot c (strip_dots s)

unfoldable pub normalize_host : Text → Text
unfolding strip_dots
normalize_host host = lower (strip_dots host)

abbrev pub blocked_hostnames : List Text
blocked_hostnames = codes "localhost" ∷ codes "metadata.google.internal" ∷ []

unfoldable pub is_blocked_hostname : Text → Bool
unfolding normalize_host
is_blocked_hostname host = has blocked_hostnames (normalize_host host)

-- an optional text where the empty text stands for none
abbrev pub or_empty : Option Text → Text
or_empty none = []
or_empty (some s) = s

unfoldable pub parse : Client → Text → Result Raised ParsedUrl
parse client url = elim (client.urlparse url) [
  | none ↦ err (uncaught (codes "ValueError"))
  | some parsed ↦ ok parsed
]

unfoldable pub check_hostname : Text → ParsedUrl → Option Text → Result Raised (Unit {0})
check_hostname url parsed none = fail url missing_hostname
check_hostname url parsed (some hostname) =
    if not (contains (dot ∷ []) hostname)
    then fail url invalid_hostname
    else (if is_some (filled parsed.username) || is_some (filled parsed.password)
        then fail url credentials
        else ok tt)

unfoldable pub check_parsed : Text → ParsedUrl → Result Raised (Unit {0})
unfolding check_hostname
check_parsed url parsed =
    if text_eq parsed.scheme (codes "http") || text_eq parsed.scheme (codes "https")
    then check_hostname url parsed (filled parsed.hostname)
    else fail url invalid_scheme

unfoldable pub validate_url : Client → Text → Result Raised (Unit {0})
unfolding check_parsed
validate_url client url = parse client url >>= λ parsed. check_parsed url parsed

unfoldable pub refuse_address : Text → Option IpAddress → Result Raised (Unit {0})
refuse_address url none = ok tt
refuse_address url (some ip) = fail url (direct_ip ip)

unfoldable pub refuse_literal : Client → Text → Option Text → Result Raised (Unit {0})
unfolding refuse_address
refuse_literal client url none = ok tt
refuse_literal client url (some host) = refuse_address url (client.ip_address host)

unfoldable pub validate_no_ip_literal_in_url : Client → Text → Result Raised (Unit {0})
unfolding refuse_literal
validate_no_ip_literal_in_url client url =
    if client.is_production
    then (parse client url >>= λ parsed. refuse_literal client url (filled parsed.hostname))
    else ok tt

unfoldable pub refuse_blocked : Client → Text → Result Raised (Unit {0})
refuse_blocked client url = parse client url >>= λ parsed.
    if is_blocked_hostname (or_empty parsed.hostname) then fail url blocked_hostname else ok tt

unfoldable pub validate_url_static : Client → Text → Result Raised (Unit {0})
validate_url_static client url = validate_url client url >>= λ valid.
    validate_no_ip_literal_in_url client url >>= λ named. refuse_blocked client url
