-- ===== src/Authorization/Decision.antt =====
-- backend/src/services/authorization-engine.ts: what an answer of `authorize` says.
use mathlib.Core.Path.{subst}
use multisub_infra.Prelude.{◌≢◌, ◌≡◌, refl}
use multisub_infra.Decimal.{Decimal}
use multisub_infra.Types.{LithicAsaEvent}
use multisub_infra.Redis.{Redis}
use multisub_infra.Redis.Script.{AllWellFormed}
use multisub_infra.Authorization.State.{Database, World, Result, ok, err, timeout, failure}
use multisub_infra.Authorization.{
  AuthorizationResult, approved, declined, Reason, record_audit_log, decide, settle_error,
  authorize,
}
use multisub_infra.Authorization.Extends.{Extends, Any}
use multisub_infra.Authorization.Ensures.{Done}
use multisub_infra.Authorization.Approval.{Approval, Judge}
use multisub_infra.Authorization.Judged.{decide-Judged}

-- What the answer says of the store, for the answers that do not come from the `catch`.
abbrev Answered : Database → LithicAsaEvent → Redis → AuthorizationResult → Redis → Type 0
Answered db event r0 (approved b) r = Approval db event r0 b r
Answered db event r0 (declined Reason.authorization_timeout) r = Unit {0}
Answered db event r0 (declined Reason.internal_error) r = Unit {0}
Answered db event r0 (declined reason) r = Extends r0 r

settle_error-Answered :
    (db : Database) (event : LithicAsaEvent) (r0 : Redis) (x : Result AuthorizationResult × World)
    → Done (Judge db event r0) Any x
    → let (res, w) = settle_error event x in Answered db event r0 res w.redis
unfolding settle_error record_audit_log
settle_error-Answered db event r0 (ok (approved b), w) d = d
settle_error-Answered db event r0 (ok (declined Reason.authorization_timeout), w) d = tt
settle_error-Answered db event r0 (ok (declined Reason.internal_error), w) d = tt
settle_error-Answered db event r0 (ok (declined _), w) d = d
settle_error-Answered db event r0 (err (timeout ms), w) d = tt
settle_error-Answered db event r0 (err failure, w) d = tt

authorize-Answered :
    (db : Database) (event : LithicAsaEvent) (w : World)
    → AllWellFormed w.redis
    → let (res, w') = authorize db event w in Answered db event w.redis res w'.redis
unfolding authorize
authorize-Answered db event w formed =
    settle_error-Answered db event w.redis (decide db event w.clock w)
      ((decide-Judged db event w.clock w.redis formed).at w refl)

-- From a store of well-formed caches, whichever calls fail, are lost or take long: an approval is
-- of a positive amount on an active card whose user is approved and whose merchant neither
-- blacklist names; the cache of the card's address was charged with that amount exactly once,
-- within the balance and both limits; no other cache changed; and the answer reports the new
-- balance.
pub authorize-Approval :
    (db : Database) (event : LithicAsaEvent) (w w' : World) (balance : Decimal)
    → AllWellFormed w.redis
    → authorize db event w ≡ (approved balance, w')
    → Approval db event w.redis balance w'.redis
authorize-Approval db event w w' balance formed e =
    subst (λ (x : AuthorizationResult × World). Answered db event w.redis x.0 x.1.redis) e
      (authorize-Answered db event w formed)

declined-Extends :
    (db : Database) (event : LithicAsaEvent) (r0 r : Redis) (reason : Reason)
    → reason ≢ Reason.authorization_timeout
    → reason ≢ Reason.internal_error
    → Answered db event r0 (declined reason) r
    → Extends r0 r
declined-Extends db event r0 r Reason.authorization_timeout t i a = absurd (t refl)
declined-Extends db event r0 r Reason.internal_error t i a = absurd (i refl)
declined-Extends db event r0 r _ t i a = a

-- From a store of well-formed caches, a decline for any reason but a timeout or an internal error
-- has charged nothing: every cache that was there is still there unchanged.
pub authorize-decline :
    (db : Database) (event : LithicAsaEvent) (w w' : World) (reason : Reason)
    → AllWellFormed w.redis
    → reason ≢ Reason.authorization_timeout
    → reason ≢ Reason.internal_error
    → authorize db event w ≡ (declined reason, w')
    → Extends w.redis w'.redis
authorize-decline db event w w' reason formed t i e =
    declined-Extends db event w.redis w'.redis reason t i (
      subst (λ (x : AuthorizationResult × World). Answered db event w.redis x.0 x.1.redis) e
        (authorize-Answered db event w formed))
