-- ===== src/HttpClient/Safety.antt =====
-- http_client.py, `fetch`: what holds of a URL and of a response whose content is returned.
use v2hub_api.Base.{◌≡◌, true, false, ◌||◌, none, some, Text, codes, text_eq}
use v2hub_api.Base.Strings.{is_some, contains}
use v2hub_api.HttpClient.{is_blocked_hostname, filled, ParsedUrl, Client}
use v2hub_api.HttpClient.Clean.{Clean}

-- What is known of a URL that passes the checks before a request.
pub record SafeTarget (client : Client) (url : Text) : Type 0 where
  pub parsed : ParsedUrl
  pub host : Text
  pub parses : client.urlparse url ≡ some parsed
  pub scheme :
      (text_eq parsed.scheme (codes "http") || text_eq parsed.scheme (codes "https")) ≡ true
  pub named : parsed.hostname ≡ some host
  pub dotted : contains (codes ".") host ≡ true
  pub anonymous : (is_some (filled parsed.username) || is_some (filled parsed.password)) ≡ false
  pub allowed : is_blocked_hostname host ≡ false
  pub no_literal : client.is_production ≡ true → client.ip_address host ≡ none
