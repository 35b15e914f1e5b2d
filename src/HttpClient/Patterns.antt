-- ===== src/HttpClient/Patterns.antt =====
-- http_client.py, `_MALICIOUS_PATTERNS`: the regular expressions, on bytes and without regard to
-- case, as functions that say whether the rest of a pattern matches at the head of the text.
use v2hub_api.Base.{ℕ, ◌==◌, Bool, true, false, not, ◌&&◌, ◌||◌, List, [], ◌∷◌, Text, codes, leb}
use v2hub_api.Base.Strings.{lower_char}

abbrev pub Matcher : Type 0
Matcher = Text → Bool

unfoldable pub matched : Matcher
matched s = true

-- a literal, given in lower case
unfoldable pub literal : Text → Matcher → Matcher
literal [] k s = k s
literal (p ∷ ps) k [] = false
literal (p ∷ ps) k (c ∷ s) = (p == lower_char c) && literal ps k s

-- `[...]*` and `[...]+`
unfoldable pub many : (ℕ → Bool) → Matcher → Matcher
many p k [] = k []
many p k (c ∷ s) = k (c ∷ s) || (p c && many p k s)

unfoldable pub many1 : (ℕ → Bool) → Matcher → Matcher
many1 p k [] = false
many1 p k (c ∷ s) = p c && many p k s

-- `(a|b|...)`
unfoldable pub one_of : List Text → Matcher → Matcher
one_of [] k s = false
one_of (p ∷ ps) k s = literal p k s || one_of ps k s

-- `pattern.search(s)`
unfoldable pub search_in : Matcher → Text → Bool
search_in m [] = m []
search_in m (c ∷ s) = m (c ∷ s) || search_in m s

-- `\s` and `\w` on bytes
unfoldable pub is_white : ℕ → Bool
is_white c = (leb 9 c && leb c 13) || c == 32

unfoldable pub is_word : ℕ → Bool
is_word c = (leb 48 c && leb c 57) || (leb 65 c && leb c 90) || (leb 97 c && leb c 122) || c == 95

abbrev pub malicious_patterns : List Matcher
malicious_patterns =
    literal (codes "<script") (many (λ c. not (c == 62)) (literal (codes ">") matched))
    ∷ literal (codes "javascript:") matched
    ∷ literal (codes "vbscript:") matched
    ∷ literal (codes "on") (many1 is_word (many is_white (literal (codes "=") matched)))
    ∷ literal (codes "<iframe") matched
    ∷ literal (codes "eval") (many is_white (literal (codes "(") matched))
    ∷ literal (codes "exec") (many is_white (literal (codes "(") matched))
    ∷ literal (codes "system") (many is_white (literal (codes "(") matched))
    ∷ literal (codes "__import__") matched
    ∷ literal (codes "union") (many1 is_white (literal (codes "select") matched))
    ∷ literal (codes "drop") (many1 is_white (literal (codes "table") matched))
    ∷ literal (codes ";") (
        many is_white
          (one_of (codes "rm" ∷ codes "del" ∷ codes "format" ∷ codes "mkfs" ∷ []) matched))
    ∷ []

unfoldable pub finds_any : List Matcher → Text → Bool
finds_any [] s = false
finds_any (m ∷ ms) s = search_in m s || finds_any ms s
