-- ===== src/HttpClient/Retries.antt =====
-- http_client.py, the loop of `fetch`: which attempt decides, and the pauses before it.
use Prim.Native.Nat.{◌^◌}
use v2hub_api.Base.{
  ==_iff, ℕ, zero, suc, ◌+◌, ◌<◌, ◌≡◌, ◌≢◌, refl, sym, ap, ◌∙◌, ◌⊎◌, inl, inr, false, Option, none,
  some, Text, Result, ok, err, arith, Bool-cases, Result-cases, ◌==◌, ◌>>=◌,
}
use v2hub_api.HttpClient.{
  Raised, fetch_error, connection, uncaught, Client, network_error, validate_url,
  validate_no_ip_literal_in_url,
}
use v2hub_api.HttpClient.Fetch.{Network, attempt, attempts, fetch, fetch_valid}

module _ (N : Network) (client : Client) (url : Text) where
  -- `n` attempts have failed to connect, each followed by its pause.
  pub data Failed : ℕ → N.State → N.State → Type 0 where
    start : (st : N.State) → Failed zero st st
    again :
        (n : ℕ) (st now : N.State) (e : Text)
        → Failed n st now
        → (attempt N client url now).0 ≡ err (connection e)
        → Failed (suc n) st (N.sleep (2 ^ n) (attempt N client url now).1)

  -- What `fetch` answers for an attempt that is not tried again.
  unfoldable pub final : Result Raised Text → Result Raised (Option Text)
  final (ok content) = ok (some content)
  final (err (fetch_error e)) = err (fetch_error e)
  final (err (uncaught e)) = err (uncaught e)
  final (err (connection e)) =
      err (fetch_error (record { url = url; reason = network_error e; status_code = none }))

  abbrev pub Decided : N.State → Result Raised (Option Text) × N.State → Type 0
  Decided st r =
      (n : ℕ) × (now : N.State) × (n < 3)
      × Failed n st now
      × (r ≡ (final (attempt N client url now).0, (attempt N client url now).1))
      × (((e : Text) → (attempt N client url now).0 ≢ err (connection e)) ⊎ (n ≡ 2))

  attempt-Decided :
      (left n : ℕ) (st now : N.State)
      → n < 3
      → Failed n st now
      → ((x : Text)
          → (attempt N client url now).0 ≡ err (connection x)
          → (n == 2) ≡ false
          → Decided st
              (attempts N client left (suc n) url (N.sleep (2 ^ n) (attempt N client url now).1)))
      → Decided st (attempts N client (suc left) n url now)
  unfolding attempts final
  attempt-Decided left n st now small failed later =
      elim (Result-cases (attempt N client url now).0) [
        | inl (c, e) ↦ (n, now, small, failed, rw (attempts, e) refl, inl (λ x q. cc (e, q)))
        | inr (fetch_error x, e) ↦
            (n, now, small, failed, rw (attempts, e) refl, inl (λ y q. cc (e, q)))
        | inr (uncaught x, e) ↦
            (n, now, small, failed, rw (attempts, e) refl, inl (λ y q. cc (e, q)))
        | inr (connection x, e) ↦ elim (Bool-cases (n == 2)) [
          | inl last ↦
              (n, now, small, failed, rw (attempts, e) (rw last refl), inr ((==_iff n 2).0 last))
          | inr more ↦ rw (attempts, e) (rw more (later x e more))
        ]
      ]

  attempts-Decided :
      (left n : ℕ) (st now : N.State)
      → suc left + n ≡ 3
      → Failed n st now
      → Decided st (attempts N client (suc left) n url now)
  attempts-Decided zero n st now sum failed =
      attempt-Decided zero n st now (omega arith) failed (λ x e more. absurd (ground arith))
  attempts-Decided (suc left) n st now sum failed =
      attempt-Decided (suc left) n st now (omega arith) failed (λ x e more.
        attempts-Decided left (suc n) st _ (omega arith) (Failed.again n st now x failed e))

  final-some : (r : Result Raised Text) → final r ≢ ok none
  unfolding final
  final-some (ok content) e = cc e
  final-some (err (fetch_error x)) e = cc e
  final-some (err (connection x)) e = cc e
  final-some (err (uncaught x)) e = cc e

  -- For a URL that passes the checks, the first of three attempts that does not fail to connect
  -- decides, or the third one: its answer is the answer of `fetch`. The pauses before it are 1 and
  -- 2 seconds, and `fetch` never returns None.
  pub fetch-Decided :
      (u : Unit {0}) (st : N.State)
      → (validate_url client url >>= λ valid. validate_no_ip_literal_in_url client url) ≡ ok u
      → Decided st (fetch N client url st) × ((fetch N client url st).0 ≢ ok none)
  unfolding fetch fetch_valid
  fetch-Decided u st valid =
      let decided : Decided st (fetch N client url st) =
        rw valid (attempts-Decided 2 0 st st (omega arith) (Failed.start st)) in
      let (_, now, _, _, same, _) = decided in
      (decided, λ e. final-some (attempt N client url now).0 (sym (ap (λ r. r.0) same) ∙ e))
