-- ===== src/Authorization/Marks.antt =====
-- backend/src/services/authorization-engine.ts: the engine and the marks of processed webhooks, which
-- stand in the same store.
use multisub_infra.Prelude.{
  ℕ, ◌≡◌, refl, Text, Bool, true, Option, none, some, includes, abs, ◌+◌, if◌then◌else◌, ltb, ◌&&◌,
  ◌==◌,
}
use multisub_infra.Decimal.{big_int}
use multisub_infra.Types.{AuthorizationCache, CardMapping, CardStatus, AsaStatus, LithicAsaEvent}
use multisub_infra.Authorization.State.{
  Database, World, Result, ok, err, timeout, failure, ◌>>◌, pure,
}
use multisub_infra.Authorization.{
  AuthorizationResult, Reason, record_audit_log, check_deadline, decline, approve, spend,
  filter_mcc, check_limits, load_cache, check_kyc, look_up_card, decide, settle_error, authorize,
  check_kyc_status, check_mcc_blacklist, default_mcc_blacklist,
}
use multisub_infra.Authorization.Ensures.{Done}
use multisub_infra.Authorization.Keeps.{
  Marked, Keeps, read-Keeps, bind-Keeps, decline-Keeps, pure-Keeps, if-Keeps, declines_or,
  deadline-Keeps, get_or_build-Keeps, atomic_spend_update-Keeps,
}

module _ (p : Text → Option Bool) where
  -- The steps of the decision.
  module _ (db : Database) (event : LithicAsaEvent) (start : ℕ) where
    approve-Keeps :
        (m : CardMapping) (c : AuthorizationCache) → Keeps p (approve db event start m c)
    unfolding approve record_audit_log
    approve-Keeps m c = record { at = λ w h. h }

    spend-Keeps : (m : CardMapping) → Keeps p (spend db event start m)
    unfolding spend
    spend-Keeps m =
        bind-Keeps p _ _ (atomic_spend_update-Keeps p db m.eoa_address (abs event.amount)) (elim [
          | none ↦ decline-Keeps p Reason.concurrent_modification
          | some c ↦ deadline-Keeps p start _ (approve-Keeps m c)
        ])

    mcc-Keeps : (sub : Text) → Keeps p (check_mcc_blacklist db event.merchant.mcc sub)
    unfolding check_mcc_blacklist
    mcc-Keeps sub =
        if-Keeps p (includes default_mcc_blacklist event.merchant.mcc) _ _ (pure-Keeps p true)
          (read-Keeps p _)

    filter_mcc-Keeps : (m : CardMapping) → Keeps p (filter_mcc db event start m)
    unfolding filter_mcc
    filter_mcc-Keeps m =
        bind-Keeps p _ _ (mcc-Keeps m.sub_account_id)
          λ b. if-Keeps p b _ _ (decline-Keeps p _) (deadline-Keeps p start _ (spend-Keeps m))

    check_limits-Keeps :
        (m : CardMapping) (c : AuthorizationCache) → Keeps p (check_limits db event start m c)
    unfolding check_limits
    check_limits-Keeps m c =
        let n = abs event.amount in
        let balance = big_int c.usdc_balance in
        let day = big_int c.daily_limit in
        let month = big_int c.monthly_limit in
        let daily = big_int c.daily_spent in
        let monthly = big_int c.monthly_spent in
        declines_or p (ltb balance n) (Reason.insufficient_balance balance n) _ (
          declines_or p (ltb 0 day && ltb day (daily + n)) (Reason.daily_limit_exceeded daily n day)
            _
            (declines_or p (ltb 0 month && ltb month (monthly + n))
              (Reason.monthly_limit_exceeded monthly n month) _ (filter_mcc-Keeps m)))

    load_cache-Keeps : (m : CardMapping) → Keeps p (load_cache db event start m)
    unfolding load_cache
    load_cache-Keeps m = bind-Keeps p _ _ (get_or_build-Keeps p db m) (elim [
      | none ↦ decline-Keeps p Reason.no_cache
      | some c ↦ deadline-Keeps p start _ (check_limits-Keeps m c)
    ])

    check_kyc-Keeps : (m : CardMapping) → Keeps p (check_kyc db event start m)
    unfolding check_kyc check_kyc_status
    check_kyc-Keeps m =
        bind-Keeps p _ _ (read-Keeps p _)
          λ b. if-Keeps p b _ _ (deadline-Keeps p start _ (load_cache-Keeps m)) (decline-Keeps p _)

    status-Keeps :
        (m : CardMapping) (status : CardStatus)
        → Keeps p (elim status [
          | CardStatus.active ↦ check_deadline start >> check_kyc db event start m
          | CardStatus.frozen ↦ decline (Reason.card_status CardStatus.frozen)
          | CardStatus.cancelled ↦ decline (Reason.card_status CardStatus.cancelled)
        ])
    status-Keeps m CardStatus.active = deadline-Keeps p start _ (check_kyc-Keeps m)
    status-Keeps m CardStatus.frozen = decline-Keeps p _
    status-Keeps m CardStatus.cancelled = decline-Keeps p _

    look_up_card-Keeps : Keeps p (look_up_card db event start)
    unfolding look_up_card
    look_up_card-Keeps = bind-Keeps p _ _ (read-Keeps p _) (elim [
      | none ↦ decline-Keeps p Reason.card_not_found
      | some m ↦ deadline-Keeps p start _ (status-Keeps m m.status)
    ])

    event-Keeps :
        (status : AsaStatus)
        → Keeps p (elim status [
          | AsaStatus.authorization ↦
              if abs event.amount == 0
              then pure (AuthorizationResult.declined Reason.invalid_amount)
              else look_up_card db event start
          | AsaStatus.authorization_advice ↦ pure (
              AuthorizationResult.declined
                (Reason.non_authorization AsaStatus.authorization_advice))
          | AsaStatus.clearing ↦
              pure (AuthorizationResult.declined (Reason.non_authorization AsaStatus.clearing))
          | AsaStatus.void ↦
              pure (AuthorizationResult.declined (Reason.non_authorization AsaStatus.void))
        ])
    event-Keeps AsaStatus.authorization = if-Keeps p _ _ _ (pure-Keeps p _) look_up_card-Keeps
    event-Keeps AsaStatus.authorization_advice = pure-Keeps p _
    event-Keeps AsaStatus.clearing = pure-Keeps p _
    event-Keeps AsaStatus.void = pure-Keeps p _

    decide-Keeps : Keeps p (decide db event start)
    unfolding decide
    decide-Keeps = event-Keeps event.status

settle_error-processed :
    (p : Text → Option Bool) (event : LithicAsaEvent) (x : Result AuthorizationResult × World)
    → Done (λ _ r. Marked p r) (Marked p) x
    → (settle_error event x).1.redis.processed ≡ p
unfolding settle_error record_audit_log
settle_error-processed p event (ok res, w) h = h
settle_error-processed p event (err (timeout ms), w) h = h
settle_error-processed p event (err failure, w) h = h

-- Whatever happens to its calls, an authorization leaves the marks of processed webhooks alone.
pub authorize-processed :
    (db : Database) (event : LithicAsaEvent) (w : World)
    → (authorize db event w).1.redis.processed ≡ w.redis.processed
unfolding authorize
authorize-processed db event w =
    settle_error-processed w.redis.processed event (decide db event w.clock w)
      ((decide-Keeps w.redis.processed db event w.clock).at w refl)
