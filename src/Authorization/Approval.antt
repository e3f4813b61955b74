-- ===== src/Authorization/Approval.antt =====
-- backend/src/services/authorization-engine.ts: what an approval and a decline say of the store.
use multisub_infra.Prelude.{
  ℕ, ◌≡◌, Bool, true, false, some, lower, includes, leb, ◌<◌, if◌then◌else◌, abs, ◌-◌,
}
use multisub_infra.Decimal.{Decimal}
use multisub_infra.Types.{AuthorizationCache, CardMapping, CardStatus, AsaStatus, LithicAsaEvent}
use multisub_infra.Redis.{Redis, get_card_mapping}
use multisub_infra.Authorization.State.{Database, World, ok, err, timeout}
use multisub_infra.Authorization.{
  AuthorizationResult, approved, declined, is_approved, listed, default_mcc_blacklist,
  check_deadline,
}
use multisub_infra.Authorization.Extends.{Extends, Any}
use multisub_infra.Authorization.Sound.{Spent}
use multisub_infra.Authorization.Ensures.{Done, Ensures}

-- What the checks before the spend have found of a card mapping.
pub record IsCleared (db : Database) (event : LithicAsaEvent) (r0 : Redis) (m : CardMapping)
    : Type 0 where
  pub mapped : get_card_mapping r0 event.card_token ≡ some m
  pub is_active : m.status ≡ CardStatus.active
  pub kyc : is_approved (db.user_by_eoa (lower m.eoa_address)) ≡ true
  pub global : includes default_mcc_blacklist event.merchant.mcc ≡ false
  pub own : listed (db.mcc_blacklist m.sub_account_id) event.merchant.mcc ≡ false

-- An approval: of a cleared mapping, whose cache was charged once with the amount of the event, and
-- now holds the balance that the answer reports.
pub record Approval (db : Database) (event : LithicAsaEvent) (r0 : Redis) (balance : Decimal)
    (r : Redis) : Type 0 where
  pub is_authorization : event.status ≡ AsaStatus.authorization
  pub positive : 0 < abs event.amount
  pub mapping : CardMapping
  pub cleared : IsCleared db event r0 mapping
  pub after : AuthorizationCache
  pub spent : Spent r0 mapping.eoa_address (abs event.amount) after r
  pub reported : after.usdc_balance ≡ balance

abbrev pub Judge : Database → LithicAsaEvent → Redis → AuthorizationResult → Redis → Type 0
Judge db event r0 (approved b) r = Approval db event r0 b r
Judge db event r0 (declined reason) r = Extends r0 r

pub check_deadline-keeps :
    (P : Redis → Type 0) (start : ℕ) → Ensures P (check_deadline start) (λ _ r. P r) Any
unfolding check_deadline
check_deadline-keeps P start = record { at = λ w p. go (leb 300 (w.clock - start)) w p }
  where
    go :
        (b : Bool) (w : World)
        → P w.redis
        → Done {A = Unit {0}}
            (λ _ r. P r)
            Any
            (if b then (err (timeout (w.clock - start)), w) else (ok tt, w))
    go true w p = tt
    go false w p = p
