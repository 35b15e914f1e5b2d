-- ===== src/Enums/Tests.antt =====
-- core/enums.py at concrete URIs.
use v2hub_api.Base.{◌≡◌, refl, some, none, codes, text_eq, lookup}
use v2hub_api.Base.Strings.{split_once, lower, lower_char, after_prefix}
use v2hub_api.Enums.{trojan, value, from_uri, scheme_protocol}

-- The scheme is compared without regard to case.
from_uri_upper : from_uri (codes "Trojan://x") ≡ some trojan
unfolding from_uri value scheme_protocol split_once lower after_prefix lookup text_eq lower_char
from_uri_upper = refl

from_uri_unknown : from_uri (codes "socks://x") ≡ none
unfolding from_uri value scheme_protocol split_once lower after_prefix lookup text_eq lower_char
from_uri_unknown = refl
