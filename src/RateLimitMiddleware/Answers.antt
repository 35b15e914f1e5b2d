-- ===== src/RateLimitMiddleware/Answers.antt =====
-- rate_limit_middleware.py: which requests pass, and what a banned address is told.
use v2hub_api.Base.{
  ℕ, ◌-◌, ◌/◌, ◌≤◌, ◌<◌, ◌≡◌, ◌↔◌, ◌≢◌, refl, ap, ◌∙◌, inl, inr, Bool, true, false, ◌&&◌, none,
  some, Text, arith, Bool-cases, lt→ltb,
}
use v2hub_api.Redis.{Redis, second}
use v2hub_api.BanService.{Settings, is_banned}
use v2hub_api.BanService.Counting.{HoldsBan}
use v2hub_api.BanService.Bans.{is_banned-HoldsBan, is_banned-keeps, get_ban_info-HoldsBan}
use v2hub_api.RateLimiter.{SortedSets, Limiter}
use v2hub_api.RateLimitMiddleware.{
  State, banned_until, check_rate_limit, limit_checked, limit_refused, ban_refused, ban_error,
}

module _ (R : Redis) (conf : Settings) (S : SortedSets) where
  limit_refused-fails :
      (ban_service : Bool) (ip : Text) (now : ℕ) (st : State R conf S)
      → (limit_refused R conf S ban_service ip now st).0 ≢ none
  unfolding limit_refused
  limit_refused-fails true ip now st e = cc e
  limit_refused-fails false ip now st e = cc e

  limit_checked_iff :
      (ban_service : Bool) (ip : Text) (now : ℕ) (limit : Limiter S → Bool × Limiter S)
      (st : State R conf S)
      → ((limit_checked R conf S ban_service ip now limit st).0 ≡ none)
        ↔ ((limit st.limiter).0 ≡ true)
  unfolding limit_checked limit_refused
  limit_checked_iff ban_service ip now limit st = elim (Bool-cases (limit st.limiter).0) [
    | inl allowed ↦ (λ e. allowed, λ e. rw allowed refl)
    | inr refused ↦
        (λ e. absurd (limit_refused-fails ban_service ip now _ (rw refused at e)), λ e. cc e)
  ]

  -- A request passes exactly if its address is not reported as banned, where there is a ban
  -- service, and the limiter admits it.
  pub check_rate_limit_iff :
      (ban_service : Bool) (ip : Text) (now : ℕ) (limit : Limiter S → Bool × Limiter S)
      (st : State R conf S)
      → ((check_rate_limit R conf S ban_service ip now limit st).0 ≡ none) ↔ (
          ((ban_service && (is_banned R conf ip now st.bans).0) ≡ false)
          × ((limit st.limiter).0 ≡ true))
  unfolding check_rate_limit ban_refused
  check_rate_limit_iff false ip now limit st =
      let iff = limit_checked_iff false ip now limit st in (λ e. (refl, iff.0 e), λ (_, e). iff.1 e)
  check_rate_limit_iff true ip now limit st =
      elim (Bool-cases (is_banned R conf ip now st.bans).0) [
        | inl banned ↦ (λ e. cc (rw banned at e), λ (e, _). cc (banned, e))
        | inr free ↦
            let iff =
              limit_checked_iff true ip now limit
                (record st { bans = (is_banned R conf ip now st.bans).1 }) in
            rw free (λ e. (refl, iff.0 e), λ (_, e). iff.1 e)
      ]

  -- While Redis answers and holds a ban of the address until the time that the ban states, a request
  -- of it is turned away with this time and the seconds that remain, and the limiter does not count
  -- it. Violations may be counted or not.
  pub check_rate_limit-banned :
      (ip : Text) (expiry now t : ℕ) (limit : Limiter S → Bool × Limiter S) (st : State R conf S)
      → HoldsBan R conf ip expiry now st.bans
      → now ≤ t
      → t < expiry
      → ((check_rate_limit R conf S true ip t limit st).0
          ≡ some (banned_until expiry ((expiry - t) / second)))
        × ((check_rate_limit R conf S true ip t limit st).1.limiter ≡ st.limiter)
  unfolding check_rate_limit ban_refused ban_error
  check_rate_limit-banned ip expiry now t limit st b h before =
      let kept = is_banned-keeps R conf ip expiry now t st.bans b h before in
      let info = get_ban_info-HoldsBan R conf ip expiry t t _ kept (omega arith) before in
      rw (is_banned-HoldsBan R conf ip expiry now t st.bans b h ∙ lt→ltb t expiry before)
        (ap (λ o. some (ban_error R conf S o)) info, refl)
