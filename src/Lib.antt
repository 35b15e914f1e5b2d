-- ===== src/Lib.antt =====
-- V2Hub API: a subscription service for proxy configs. A subscription has sources, each a config, an
-- external URL or the token of another subscription; resolving it gives a flat list of configs.
--
-- Enums models src/v2hub_api/core/enums.py: the kinds of source, the protocols with their schemes.
-- ConfigParser models src/v2hub_api/utils/config_parser.py, under the names of its functions: how a
--   URI is split from its comment, normalised, hashed, parsed from a text, deduplicated, and
--   validated. ConfigParser.Sources decodes a comment until nothing changes; one round more than its
--   length is enough.
-- Models has the columns of src/v2hub_api/db/models/source.py and subscription.py that are read.
-- Resolver models src/v2hub_api/services/resolver_service.py. `State` is what `_resolve_recursive`
--   shares and mutates: the result, the tokens visited and the comments. Resolver.Fetch is its I/O
--   phase. What the service reads of the database, the cache and the settings is the record `World`.
--   An exception of a read is `none`. The recursion is on a number of levels; `resolve` starts with
--   one more than `max_depth`, which its own depth check uses up.
--   Resolver.Rule is an induction principle for it, on which the other files build.
-- References models `_check_circular_reference` of src/v2hub_api/services/subscription_service.py,
--   which is called before a link to another subscription is stored: a depth-first search with a set
--   of visited tokens and a memo of the verified ones, passed on explicitly. It also starts with one
--   more than `max_depth` levels. References.Graph has the walks that the theorems speak of.
-- Sources models how src/v2hub_api/services/subscription_service.py adds, removes and replaces the
--   sources of one subscription: `Rows` are its sources and comments, an exception is an error value,
--   after which only what was committed stays. The checks of URLs are functions of `Env`.
-- Authorizations models src/v2hub_api/services/provider_authorization_service.py and
--   src/v2hub_api/db/repositories/provider_authorization_repository.py over a list of rows. An
--   operation returns the row or an error, and the table. Each call is one step: concurrent calls are
--   not interleaved. Authorizations.Lifecycle has the steps as a relation.
-- Subscriptions models the rest of src/v2hub_api/services/subscription_service.py, but for the refresh
--   of sources, with src/v2hub_api/db/repositories/subscription_repository.py: reading and managing, over
--   the table of authorizations, and listing, creating, updating and deleting, over a list of rows.
--   Subscriptions.Settings has the updates of one source, with
--   src/v2hub_api/db/repositories/config_comment_repository.py.
-- Redis is the interface of the commands that the next two send: a command answers or raises, and its
--   laws hold from a store that is `Up`. A store is seen as what each key holds at each time, in
--   microseconds. One operation runs at one instant, and the service and Redis have the same clock.
-- BanService models src/v2hub_api/services/ban_service.py, and UrlRequestLimiter
--   src/v2hub_api/utils/url_request_limiter.py.
-- RateLimiter models src/v2hub_api/utils/rate_limiter.py over an interface of sorted sets, the Lua
--   script included, in milliseconds. RateLimiter.Exact has the log that the script is compared with,
--   RateLimiter.Log one that keeps the requests of a millisecond once, as the sorted set does.
-- RateLimitMiddleware models src/v2hub_api/middlewares/rate_limit_middleware.py: the ban, the limit
--   and the recording of a violation, in the order of the code.
-- HttpClient models src/v2hub_api/utils/http_client.py: the checks of a URL, then Addresses (the guarded
--   resolver, with the networks of Python's `ipaddress`), Patterns and Content (the checks of a body)
--   and Fetch (the attempts, over a network whose state a request and a pause change).
-- CacheService models src/v2hub_api/services/cache_service.py over Redis (Commands) and the table of
--   src/v2hub_api/db/repositories/external_cache_repository.py (Repository); it fetches with HttpClient.
-- Users and Providers model src/v2hub_api/services/user_service.py and provider_service.py with their
--   repositories: tables with unique keys (Base.Tables, Base.Keys), which the database enforces. What
--   uuid and secrets generate is an argument. A deletion concerns the row of the account only.
-- Actors models the authentication in src/v2hub_api/api/dependencies.py: the three services composed.
-- UrlValidator models src/v2hub_api/utils/url_validator.py, its regular expressions as matchers, and
-- Whitelist src/v2hub_api/services/whitelist_service.py over an interface of sets (Whitelist.Sets).
-- Base has the shared types: Text is a list of code points, Dict an association list in the order
--   of insertion, Result a value or an error, Base.Strip the lemmas on `str.strip`,
--   and Base.Utf8 and Base.Unquote the decoding of UTF-8 and of percent-escapes of Python's library.
--
-- Parameters: Redis, the whitelist that the limiter asks, `blake2b` for the digest, `b64decode` for base64 and UTF-8
-- decoding, `urlparse`, the parsing of an IP address, `getaddrinfo`, the network, and the reads of the
-- database by the resolver. Not modelled: the HTTP endpoints, the schemas, the emptying of the whole
-- cache, the cascades of a deletion, the refresh of sources, logs, timestamps of rows, and transactions.
pub mod Base
pub mod Enums
pub mod ConfigParser
pub mod Models
pub mod Resolver
pub mod References
pub mod Sources
pub mod Authorizations
pub mod Subscriptions
pub mod Redis
pub mod BanService
pub mod UrlRequestLimiter
pub mod RateLimiter
pub mod RateLimitMiddleware
pub mod HttpClient
pub mod CacheService
pub mod Users
pub mod Providers
pub mod UrlValidator
pub mod Whitelist
pub mod Actors
