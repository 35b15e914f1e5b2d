-- ===== src/HttpClient/Clean.antt =====
-- http_client.py, `_fetch_once`: what holds of a response whose text is returned.
use v2hub_api.Base.{
  subst, ◌≢◌, ==_iff, ◌==◌, ℕ, ◌+◌, ◌≤◌, ◌≡◌, refl, sym, ap, ◌∙◌, inl, inr, Bool, true, false, not,
  ◌||◌, Option, none, some, List, [], ◌∷◌, ◌++◌, Text, codes, text_eq, text_eq_iff, has, length,
  take, keep_if, All, ltb, ok, ◌>>=◌, bind-ok, Bool-cases, arith, length-append,
}
use v2hub_api.Base.Strings.{strip, lower, contains}
use v2hub_api.Base.Strip.{strip-strip, strip-All}
use v2hub_api.HttpClient.{Raised, Client}
use v2hub_api.HttpClient.Patterns.{finds_any, malicious_patterns}
use v2hub_api.HttpClient.Words.{script_words, no_script_words}
use v2hub_api.HttpClient.Content.{
  validate_content_encoding, validate_content_structure, base_type, validate_content_type,
  check_executable_signature, check_malicious_patterns, sample_size, decode, sanitize_content,
  is_kept,
}
use v2hub_api.HttpClient.Fetch.{
  Response, is_redirect, read_chunks, read_text, read_response, check_status, end_of_body,
}

abbrev pub concat : List Text → Text
concat [] = []
concat (s ∷ rest) = s ++ concat rest

read_chunks-ok :
    (client : Client) (url : Text) (status total : ℕ) (chunks : List Text) (raised : Option Raised)
    (raw : Text)
    → total ≤ client.max_bytes
    → read_chunks client url status total chunks raised ≡ ok raw
    → (raw ≡ concat chunks) × (total + length raw ≤ client.max_bytes) × (raised ≡ none)
unfolding read_chunks end_of_body
read_chunks-ok client url status total [] none raw small e =
    let empty : raw ≡ [] = cc e in (empty, rw empty (omega arith), refl)
read_chunks-ok client url status total [] (some x) raw small e = cc e
read_chunks-ok client url status total (chunk ∷ chunks) raised raw small e =
    elim (Bool-cases (ltb client.max_bytes (total + length chunk))) [
      | inl large ↦ cc (rw large at e)
      | inr room ↦
          let (rest, e1, e2) =
            bind-ok (read_chunks client url status (total + length chunk) chunks raised) _ raw
              (rw room at e) in
          let (same, bound, whole) =
            read_chunks-ok client url status (total + length chunk) chunks raised rest
              (ground arith) e1 in
          let all : raw ≡ chunk ++ rest = cc e2 in
          (all ∙ ap (λ s. chunk ++ s) same, rw all (omega (arith, length-append chunk rest)), whole)
    ]

keep_if-All : (p : ℕ → Bool) (s : Text) → All (λ c. p c ≡ true) (keep_if p s)
keep_if-All p [] = tt
keep_if-All p (c ∷ s) = elim (Bool-cases (p c)) [
  | inl kept ↦ rw kept (kept, keep_if-All p s)
  | inr left ↦ rw left (keep_if-All p s)
]

-- What is known of a response and of the text that is returned for it.
pub record Clean (client : Client) (response : Response) (content : Text) : Type 0 where
  pub status : response.status ≡ 200
  pub content_type : base_type response.content_type ≡ codes "text/plain"
  pub size : length (concat response.chunks) ≤ client.max_bytes
  pub whole : response.raised ≡ none
  pub words :
      All
        (λ word. contains word (lower (take sample_size (concat response.chunks))) ≡ false)
        script_words
  pub printable : All (λ c. is_kept c ≡ true) content
  pub stripped : strip content ≡ content

validate_content_type-ok :
    (header : Option Text) (url : Text) (u : Unit {0})
    → validate_content_type header url ≡ ok u
    → base_type header ≡ codes "text/plain"
unfolding validate_content_type has
validate_content_type-ok header url u e =
    elim (Bool-cases (text_eq (codes "text/plain") (base_type header))) [
      | inl same ↦ sym ((text_eq_iff _ _).0 same)
      | inr other ↦ cc (rw other at e)
    ]

check_malicious_patterns-ok :
    (content url : Text) (u : Unit {0})
    → check_malicious_patterns content url ≡ ok u
    → finds_any malicious_patterns (take sample_size content) ≡ false
unfolding check_malicious_patterns
check_malicious_patterns-ok content url u e =
    elim (Bool-cases (finds_any malicious_patterns (take sample_size content))) [
      | inl found ↦ cc (rw found at e)
      | inr harmless ↦ harmless
    ]

read_text-ok :
    (url raw text : Text)
    → read_text url raw ≡ ok text
    → (finds_any malicious_patterns (take sample_size raw) ≡ false)
      × (text ≡ sanitize_content (decode raw))
unfolding read_text
read_text-ok url raw text e =
    let (_, _, e1) = bind-ok (check_executable_signature raw url) _ text e in
    let (u, harmless, e2) = bind-ok (check_malicious_patterns raw url) _ text e1 in
    let (_, _, e3) = bind-ok (validate_content_structure (decode raw) url) _ text e2 in
    (check_malicious_patterns-ok raw url u harmless, cc e3)

sanitize_content-All : (s : Text) → All (λ c. is_kept c ≡ true) (sanitize_content s)
unfolding sanitize_content
sanitize_content-All s = strip-All (λ c. is_kept c ≡ true) _ (keep_if-All is_kept _)

check_status-ok :
    (url : Text) (status : ℕ) (body content : Text)
    → check_status url (status, body) ≡ ok content
    → (is_redirect status ≡ false) × (status ≡ 200) × (content ≡ strip body)
unfolding check_status
check_status-ok url status body content e = elim (Bool-cases (is_redirect status)) [
  | inl redirected ↦ cc (rw redirected at e)
  | inr direct ↦ elim (Bool-cases (status == 200)) [
    | inr other ↦ cc (rw other at (rw direct at e))
    | inl fine ↦ (direct, (==_iff status 200).0 fine, cc (rw fine at (rw direct at e)))
  ]
]

body-Clean :
    (client : Client) (url : Text) (response : Response) (content : Text) (r : ℕ × Text)
    → response.status ≡ 200
    → content ≡ strip r.1
    → (validate_content_type response.content_type url >>= λ typed.
        validate_content_encoding response.content_encoding url >>= λ encoded.
        read_chunks client url response.status 0 response.chunks response.raised >>= λ raw.
        read_text url raw >>= λ text. ok (response.status, text))
      ≡ ok r
    → Clean client response content
unfolding sanitize_content
body-Clean client url response content r fine same e =
    let (u, typed, e1) = bind-ok (validate_content_type response.content_type url) _ r e in
    let (_, _, e2) = bind-ok (validate_content_encoding response.content_encoding url) _ r e1 in
    let (raw, read, e3) =
      bind-ok (read_chunks client url response.status 0 response.chunks response.raised) _ r e2 in
    let (text, seen, e4) = bind-ok (read_text url raw) _ r e3 in
    let (all, bound, whole) =
      read_chunks-ok client url response.status 0 response.chunks response.raised raw (omega arith)
        read in
    let (harmless, sanitized) = read_text-ok url raw text seen in
    let answered : (response.status, text) ≡ r = cc e4 in
    let stripped : content ≡ strip (sanitize_content (decode raw)) =
      same ∙ ap (λ p. strip p.1) (sym answered) ∙ ap strip sanitized in
    record {
      status = fine;
      content_type = validate_content_type-ok response.content_type url u typed;
      size = subst (λ s. length s ≤ client.max_bytes) all (omega (arith, bound));
      whole = whole;
      words =
          subst (λ s. All (λ word. contains word (lower (take sample_size s)) ≡ false) script_words)
            all (no_script_words (take sample_size raw) harmless);
      printable =
          subst (All (λ c. is_kept c ≡ true)) (sym stripped)
            (strip-All (λ c. is_kept c ≡ true) _ (sanitize_content-All (decode raw)));
      stripped = ap strip stripped ∙ strip-strip (sanitize_content (decode raw)) ∙ sym stripped;
    }

other-Status :
    (status : ℕ)
    → (is_redirect status || not (status == 200)) ≡ true
    → is_redirect status ≡ false
    → status ≢ 200
other-Status status other direct = ground arith

pub read_response-Clean :
    (client : Client) (url : Text) (response : Response) (content : Text)
    → (read_response client url response >>= check_status url) ≡ ok content
    → Clean client response content
unfolding read_response
read_response-Clean client url response content e =
    let (r, e1, e2) = bind-ok (read_response client url response) (check_status url) content e in
    elim (Bool-cases (is_redirect response.status || not (response.status == 200))) [
      | inr direct ↦
          body-Clean client url response content r (ground arith)
            (check_status-ok url r.0 r.1 content e2).2 (rw direct at e1)
      | inl other ↦
          let same : (response.status, []) ≡ r = cc (rw other at e1) in
          let (direct, fine, _) = check_status-ok url r.0 r.1 content e2 in
          absurd (
            other-Status response.status other (ap (λ p. is_redirect p.0) same ∙ direct)
              (ap (λ p. p.0) same ∙ fine))
    ]
