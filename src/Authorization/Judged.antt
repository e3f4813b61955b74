-- ===== src/Authorization/Judged.antt =====
-- backend/src/services/authorization-engine.ts: the steps of `authorize`, from the last to the first.
use mathlib.Core.Path.{subst}
use multisub_infra.Prelude.{
  ap, ℕ, ◌+◌, ◌∙◌, ◌≡◌, refl, Bool, true, false, Option, none, some, ◌&&◌, arith, lower, includes,
  ltb, ◌<◌, if◌then◌else◌, ◌==◌, abs, sym,
}
use multisub_infra.Decimal.{big_int}
use multisub_infra.Types.{AuthorizationCache, CardMapping, CardStatus, AsaStatus, LithicAsaEvent}
use multisub_infra.Redis.{Redis, get_card_mapping}
use multisub_infra.Redis.Script.{AllWellFormed}
use multisub_infra.Authorization.State.{Database, Action, ◌>>◌, pure}
use multisub_infra.Authorization.{
  AuthorizationResult, declined, Reason, is_approved, default_mcc_blacklist, record_audit_log,
  check_deadline, decline, approve, spend, filter_mcc, check_limits, load_cache, check_kyc,
  look_up_card, decide, check_kyc_status, check_mcc_blacklist,
}
use multisub_infra.Authorization.Extends.{Extends, Any}
use multisub_infra.Authorization.Rebuild.{get_or_build-Extends}
use multisub_infra.Authorization.Sound.{Spent, Updated, atomic_spend_update-Updated}
use multisub_infra.Authorization.Ensures.{
  Ensures, Ensures-pure, Ensures-if, Ensures-read, Ensures-bind, Ensures-post, Ensures-fact,
}
use multisub_infra.Authorization.Approval.{IsCleared, Judge, check_deadline-keeps}

module _ (db : Database) (event : LithicAsaEvent) (start : ℕ) (r0 : Redis) where
  abbrev Judged : Action AuthorizationResult → Type 0
  Judged m = Ensures (Extends r0) m (Judge db event r0) Any

  decline-Judged : (reason : Reason) → Judged (decline reason)
  unfolding decline record_audit_log
  decline-Judged reason = record { at = λ w x. x }

  behind_deadline : (m : Action AuthorizationResult) → Judged m → Judged (check_deadline start >> m)
  behind_deadline m h =
      Ensures-bind {R = λ _. Extends r0} _ _ (check_deadline-keeps (Extends r0) start) (λ _. h)

  declines_or :
      (b : Bool) (reason : Reason) (m : Action AuthorizationResult)
      → (b ≡ false → Judged m)
      → Judged (if b then decline reason else m)
  declines_or b reason m h = Ensures-if b _ m (λ _. decline-Judged reason) h

  module _ (is_authorization : event.status ≡ AsaStatus.authorization)
      (positive : 0 < abs event.amount) (m : CardMapping)
      (mapped : get_card_mapping r0 event.card_token ≡ some m) where
    module _ (is_active : m.status ≡ CardStatus.active)
        (kyc : is_approved (db.user_by_eoa (lower m.eoa_address)) ≡ true) where
      approve-Judged :
          (c : AuthorizationCache)
          → IsCleared db event r0 m
          → Ensures
              (Spent r0 m.eoa_address (abs event.amount) c)
              (approve db event start m c)
              (Judge db event r0)
              Any
      unfolding approve record_audit_log
      approve-Judged c cleared = record {
        at = λ w x. record {
          is_authorization = is_authorization;
          positive = positive;
          mapping = m;
          cleared = cleared;
          after = c;
          spent = x;
          reported = refl;
        };
      }

      spend-Judged : IsCleared db event r0 m → Judged (spend db event start m)
      unfolding spend
      spend-Judged cleared =
          Ensures-bind {R = Updated r0 m.eoa_address (abs event.amount)} _ _
            (atomic_spend_update-Updated db r0 m.eoa_address (abs event.amount))
            (elim [
              | none ↦ decline-Judged Reason.concurrent_modification
              | some c ↦
                  Ensures-bind {R = λ _. Spent r0 m.eoa_address (abs event.amount) c} _ _
                    (check_deadline-keeps (Spent r0 m.eoa_address (abs event.amount) c) start)
                    (λ _. approve-Judged c cleared)
            ])

      -- The answer of the blacklists, and what a negative one means.
      mcc_answer :
          Ensures
            (Extends r0)
            (check_mcc_blacklist db event.merchant.mcc m.sub_account_id)
            (λ b r. Extends r0 r × (b ≡ false → IsCleared db event r0 m))
            Any
      unfolding check_mcc_blacklist
      mcc_answer =
          Ensures-if (includes default_mcc_blacklist event.merchant.mcc) _ _
            (λ _. Ensures-pure true (λ r x. (x, λ e. absurd (ground (arith, e)))))
            (λ global.
              Ensures-post
                (λ b r q. (
                  q.0,
                  λ e. record {
                    mapped = mapped;
                    is_active = is_active;
                    kyc = kyc;
                    global = global;
                    own = sym q.1 ∙ e;
                  },
                ))
                (Ensures-read _ (λ r x. tt)))

      filter_mcc-Judged : Judged (filter_mcc db event start m)
      unfolding filter_mcc
      filter_mcc-Judged =
          Ensures-bind {R = λ b r. Extends r0 r × (b ≡ false → IsCleared db event r0 m)} _ _
            mcc_answer
            λ b. Ensures-fact λ clear.
              declines_or b (Reason.blocked_mcc event.merchant.mcc) _
                λ e. behind_deadline _ (spend-Judged (clear e))

      check_limits-Judged : (c : AuthorizationCache) → Judged (check_limits db event start m c)
      unfolding check_limits
      check_limits-Judged c =
          let n = abs event.amount in
          let balance = big_int c.usdc_balance in
          let day = big_int c.daily_limit in
          let month = big_int c.monthly_limit in
          let daily = big_int c.daily_spent in
          let monthly = big_int c.monthly_spent in
          declines_or (ltb balance n) (Reason.insufficient_balance balance n) _ λ _.
            declines_or (ltb 0 day && ltb day (daily + n)) (Reason.daily_limit_exceeded daily n day)
              _
              λ _.
                declines_or (ltb 0 month && ltb month (monthly + n))
                  (Reason.monthly_limit_exceeded monthly n month) _ λ _. filter_mcc-Judged

      load_cache-Judged : Judged (load_cache db event start m)
      unfolding load_cache
      load_cache-Judged =
          Ensures-bind {R = λ _. Extends r0} _ _ (get_or_build-Extends db r0 m) (elim [
            | none ↦ decline-Judged Reason.no_cache
            | some c ↦ behind_deadline _ (check_limits-Judged c)
          ])

    check_kyc-Judged : m.status ≡ CardStatus.active → Judged (check_kyc db event start m)
    unfolding check_kyc check_kyc_status
    check_kyc-Judged is_active =
        Ensures-bind
          {R = λ b r. Extends r0 r × (b ≡ is_approved (db.user_by_eoa (lower m.eoa_address)))} _ _
          (Ensures-read _ (λ r x. tt))
          λ b. Ensures-fact λ e.
            Ensures-if b _ _ (λ t. behind_deadline _ (load_cache-Judged is_active (sym e ∙ t)))
              (λ _. decline-Judged Reason.kyc_not_approved)

    status-Judged :
        (s : CardStatus)
        → m.status ≡ s
        → Judged (elim s [
          | CardStatus.active ↦ check_deadline start >> check_kyc db event start m
          | CardStatus.frozen ↦ decline (Reason.card_status CardStatus.frozen)
          | CardStatus.cancelled ↦ decline (Reason.card_status CardStatus.cancelled)
        ])
    status-Judged CardStatus.active e = behind_deadline _ (check_kyc-Judged e)
    status-Judged CardStatus.frozen e = decline-Judged _
    status-Judged CardStatus.cancelled e = decline-Judged _

  module _ (formed : AllWellFormed r0) where
    initial : (r : Redis) → r ≡ r0 → Extends r0 r
    initial r e = record {
      formed = subst AllWellFormed (sym e) formed;
      entries = λ k c h. ap (λ (s : Redis). s.auth k) e ∙ h;
    }

    found-Judged :
        (is_authorization : event.status ≡ AsaStatus.authorization)
        (positive : 0 < abs event.amount) (o : Option CardMapping)
        → Ensures
            (λ r. Extends r0 r × (o ≡ get_card_mapping r0 event.card_token))
            (elim o [
              | none ↦ decline Reason.card_not_found
              | some m ↦ check_deadline start >> elim m.status [
                | CardStatus.active ↦ check_deadline start >> check_kyc db event start m
                | CardStatus.frozen ↦ decline (Reason.card_status CardStatus.frozen)
                | CardStatus.cancelled ↦ decline (Reason.card_status CardStatus.cancelled)
              ]
            ])
            (Judge db event r0)
            Any
    found-Judged is_authorization positive none =
        Ensures-fact λ _. decline-Judged Reason.card_not_found
    found-Judged is_authorization positive (some m) =
        Ensures-fact
          λ e. behind_deadline _ (status-Judged is_authorization positive m (sym e) m.status refl)

    look_up_card-Judged :
        event.status ≡ AsaStatus.authorization
        → 0 < abs event.amount
        → Ensures (λ r. r ≡ r0) (look_up_card db event start) (Judge db event r0) Any
    unfolding look_up_card
    look_up_card-Judged is_authorization positive =
        Ensures-bind {R = λ o r. Extends r0 r × (o ≡ get_card_mapping r0 event.card_token)} _ _
          (Ensures-post
            (λ o r q. (initial r q.0, q.1 ∙ ap (λ s. get_card_mapping s event.card_token) q.0))
            (Ensures-read _ (λ r x. tt)))
          (found-Judged is_authorization positive)

    declined-Judged :
        (reason : Reason) → Ensures (λ r. r ≡ r0) (pure (declined reason)) (Judge db event r0) Any
    declined-Judged reason = Ensures-pure (declined reason) initial

    status_of-Judged :
        (s : AsaStatus)
        → event.status ≡ s
        → Ensures
            (λ r. r ≡ r0)
            (elim s [
              | AsaStatus.authorization ↦
                  if abs event.amount == 0
                  then pure (declined Reason.invalid_amount)
                  else look_up_card db event start
              | AsaStatus.authorization_advice ↦
                  pure (declined (Reason.non_authorization AsaStatus.authorization_advice))
              | AsaStatus.clearing ↦ pure (declined (Reason.non_authorization AsaStatus.clearing))
              | AsaStatus.void ↦ pure (declined (Reason.non_authorization AsaStatus.void))
            ])
            (Judge db event r0)
            Any
    status_of-Judged AsaStatus.authorization e =
        Ensures-if (abs event.amount == 0) _ _ (λ _. declined-Judged Reason.invalid_amount)
          (λ nonzero. look_up_card-Judged e (ground arith))
    status_of-Judged AsaStatus.authorization_advice e = declined-Judged _
    status_of-Judged AsaStatus.clearing e = declined-Judged _
    status_of-Judged AsaStatus.void e = declined-Judged _

    pub decide-Judged : Ensures (λ r. r ≡ r0) (decide db event start) (Judge db event r0) Any
    unfolding decide
    decide-Judged = status_of-Judged event.status refl
