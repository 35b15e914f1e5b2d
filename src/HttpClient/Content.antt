-- ===== src/HttpClient/Content.antt =====
-- http_client.py: the checks of a response's headers and body, and its decoding.
use v2hub_api.Base.{
  ℕ, suc, ◌==◌, Bool, false, not, ◌&&◌, ◌||◌, Option, none, some, List, [], ◌∷◌, Text, codes,
  text_eq, has, length, take, keep_if, ltb, if◌then◌else◌, Result, ok,
}
use v2hub_api.Base.Utf8.{decode_utf8}
use v2hub_api.Base.Strings.{is_some, strip, lower, after_prefix, split_once}
use v2hub_api.HttpClient.{
  Raised, fail, executable_content, malicious_content, too_many_lines, suspicious_content,
  unsupported_content_type, suspicious_encoding, or_empty,
}
use v2hub_api.HttpClient.Patterns.{finds_any, malicious_patterns}

unfoldable pub first_part : Text → Option (Text × Text) → Text
first_part s none = s
first_part s (some (a, b)) = a

unfoldable pub base_type : Option Text → Text
unfolding first_part
base_type header =
    let content_type = lower (or_empty header) in
    strip (first_part content_type (split_once (codes ";") content_type))

unfoldable pub validate_content_type : Option Text → Text → Result Raised (Unit {0})
validate_content_type header url =
    if has (codes "text/plain" ∷ []) (base_type header)
    then ok tt
    else fail url (unsupported_content_type (base_type header))

abbrev pub allowed_encodings : List Text
allowed_encodings = codes "gzip" ∷ codes "deflate" ∷ codes "br" ∷ codes "identity" ∷ [] ∷ []

unfoldable pub validate_content_encoding : Option Text → Text → Result Raised (Unit {0})
validate_content_encoding header url =
    let encoding = lower (or_empty header) in
    if not (text_eq encoding []) && not (has allowed_encodings encoding)
    then fail url (suspicious_encoding encoding)
    else ok tt

abbrev pub executable_signatures : List Text
executable_signatures =
    codes "MZ"
    ∷ (0x7f ∷ codes "ELF")
    ∷ (0xca ∷ 0xfe ∷ 0xba ∷ 0xbe ∷ [])
    ∷ (0xfe ∷ 0xed ∷ 0xfa ∷ [])
    ∷ codes "#!/"
    ∷ codes "<?php"
    ∷ codes "<script"
    ∷ codes "javascript:"
    ∷ codes "vbscript:"
    ∷ []

unfoldable pub starts_with_any : List Text → Text → Bool
starts_with_any [] s = false
starts_with_any (p ∷ ps) s = is_some (after_prefix p s) || starts_with_any ps s

unfoldable pub check_executable_signature : Text → Text → Result Raised (Unit {0})
check_executable_signature content url =
    if ltb (length content) 4
    then ok tt
    else (if starts_with_any executable_signatures content
        then fail url executable_content
        else ok tt)

abbrev pub sample_size : ℕ
sample_size = 100000

unfoldable pub check_malicious_patterns : Text → Text → Result Raised (Unit {0})
check_malicious_patterns content url =
    if finds_any malicious_patterns (take sample_size content)
    then fail url malicious_content
    else ok tt

-- `len(content.split("\n"))`
unfoldable pub line_count : Text → ℕ
line_count [] = 1
line_count (c ∷ s) = if c == 10 then suc (line_count s) else line_count s

unfoldable pub has_char : ℕ → Text → Bool
has_char c [] = false
has_char c (d ∷ s) = (d == c) || has_char c s

-- `len(set(s))`, without the characters seen so far
unfoldable pub unique_count : Text → Text → ℕ
unfolding has_char
unique_count seen [] = 0
unique_count seen (c ∷ s) =
    if has_char c seen then unique_count seen s else suc (unique_count (c ∷ seen) s)

abbrev pub max_lines : ℕ
max_lines = 50000

unfoldable pub validate_content_structure : Text → Text → Result Raised (Unit {0})
validate_content_structure content url =
    if ltb max_lines (line_count content)
    then fail url too_many_lines
    else (if ltb 1000 (length content) && ltb (unique_count [] (take 10000 content)) 10
        then fail url suspicious_content
        else ok tt)

unfoldable pub is_kept : ℕ → Bool
is_kept c = (c == 10) || (c == 13) || (c == 9) || not (ltb c 32)

unfoldable pub sanitize_content : Text → Text
sanitize_content content = strip (keep_if is_kept (keep_if (λ c. not (c == 0)) content))

-- latin-1, the first of the other encodings, reads every byte as a character, so it never fails
unfoldable pub decode_latin1 : Text → Text
decode_latin1 raw = raw

unfoldable pub decoded_or : Option Text → Text → Text
decoded_or none raw = decode_latin1 raw
decoded_or (some text) raw = text

unfoldable pub decode : Text → Text
unfolding decoded_or
decode raw = decoded_or (decode_utf8 raw) raw
