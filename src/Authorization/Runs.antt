-- ===== src/Authorization/Runs.antt =====
-- Runs of `authorize` in which every call is answered: when it approves, and what a deadline that
-- passes during the spend does.
use multisub_infra.Prelude.{
  ℕ, ◌+◌, ◌-◌, ◌≡◌, refl, true, some, List, [], ◌∷◌, ◌++◌, arith, lower, ◌<◌, ◌≤◌, abs, update_self,
  ap, ◌∙◌,
}
use multisub_infra.Decimal.{big_int, to_string}
use multisub_infra.Types.{AuthorizationCache, CardMapping, LithicAsaEvent}
use multisub_infra.Redis.{Redis, apply_spend}
use multisub_infra.Redis.Charges.{Charges, apply_spend-Charges}
use multisub_infra.Authorization.State.{Database, Event, Audit}
use multisub_infra.Authorization.{
  approved, declined, Reason, record_audit_log, approve, spend, decide, settle_error, authorize,
}
use multisub_infra.Authorization.Steps.{
  look_up_run, kyc_run, load_run, filter_run, after, world, IsFunded, charged, charged_store,
  spend_run, spend_late, decide_run,
}

-- A timeline of the five calls of an authorization: the card, the user, the cache, the blacklist
-- and the spend, answered after so many milliseconds each.
abbrev pub timeline : ℕ → ℕ → ℕ → ℕ → ℕ → List Event → List Event
timeline a b k d e rest = after a ∷ after b ∷ after k ∷ after d ∷ after e ∷ rest

module _ (db : Database) (event : LithicAsaEvent) (r : Redis) (m : CardMapping)
    (c : AuthorizationCache) (f : IsFunded db event r m c) (t a b k d e : ℕ) (audits : List Audit)
    (rest : List Event) where
  -- The four calls before the spend.
  before_spend :
      a + b + k + d < 300
      → decide db event t (world r t audits (timeline a b k d e rest))
        ≡ spend db event t m (world r (t + a + b + k + d) audits (after e ∷ rest))
  before_spend h =
      decide_run db event r m c t f _
      ∙ look_up_run db event r m c t f t a audits _ (omega arith)
      ∙ kyc_run db event r m c t f (t + a) b audits _ (omega arith)
      ∙ load_run db event r m c t f (t + a + b) k audits _ (omega arith)
      ∙ filter_run db event r m c t f (t + a + b + k) d audits _ (omega arith)

-- An authorization on a funded card whose five calls are answered within the 300 milliseconds is
-- approved: the cache of the card's address is charged, the answer reports the balance that is
-- left, and one audit entry names the tenant and the amount.
pub authorize-in_time :
    (db : Database) (event : LithicAsaEvent) (r : Redis) (m : CardMapping) (c : AuthorizationCache)
    (t a b k d e : ℕ) (audits : List Audit) (rest : List Event)
    → IsFunded db event r m c
    → a + b + k + d + e < 300
    → let at = t + a + b + k + d in
      authorize db event (world r t audits (timeline a b k d e rest)) ≡ (
        approved (to_string (big_int c.usdc_balance - abs event.amount)),
        world
            (charged_store db event r m c at)
            (at + e)
            (audits
              ++ record {
                tenant_id = some m.tenant_id;
                approved = true;
                amount = some event.amount;
              }
                ∷ [])
            rest,
      )
unfolding authorize
authorize-in_time db event r m c t a b k d e audits rest f h =
    let at = t + a + b + k + d in
    ap (settle_error event) (
      before_spend db event r m c f t a b k d e audits rest (omega arith)
      ∙ spend_run db event r m c t f at e audits rest (omega arith))
    ∙ (unfold settle_error approve record_audit_log apply_spend in refl)

-- On a funded card whose first four calls are answered within the 300 milliseconds, and the spend
-- after them, the authorization is declined with a timeout, and the cache of the card's address is
-- charged with the amount all the same.
pub authorize-late :
    (db : Database) (event : LithicAsaEvent) (r : Redis) (m : CardMapping) (c : AuthorizationCache)
    (t a b k d e : ℕ) (audits : List Audit) (rest : List Event)
    → IsFunded db event r m c
    → a + b + k + d < 300
    → 300 ≤ a + b + k + d + e
    → let at = t + a + b + k + d in
      let (res, w) = authorize db event (world r t audits (timeline a b k d e rest)) in
      (res ≡ declined Reason.authorization_timeout)
      × (w.redis.auth (lower m.eoa_address) ≡ some (charged db event r m c at))
      × Charges c (charged db event r m c at) (abs event.amount)
unfolding authorize
authorize-late db event r m c t a b k d e audits rest f h late =
    let at = t + a + b + k + d in
    rw
      (before_spend db event r m c f t a b k d e audits rest h
        ∙ spend_late db event r m c t f at e audits rest (omega arith))
      (
        (unfold settle_error in refl),
        (unfold settle_error record_audit_log in
            update_self r.auth (lower m.eoa_address) (some (charged db event r m c at))),
        apply_spend-Charges c (abs event.amount) _ f.fits,
      )
