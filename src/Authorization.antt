-- ===== src/Authorization.antt =====
-- backend/src/services/authorization-engine.ts: the decision on a card authorization. The steps of
-- `authorize` are functions that call the next one where the code goes on; an early `return` is a
-- branch that does not.
pub mod State
pub mod Refresh
pub mod Ensures
pub mod Extends
pub mod Rebuild
pub mod Sound
pub mod Approval
pub mod Judged
pub mod Decision
pub mod Steps
pub mod Runs
pub mod Keeps
pub mod Marks
pub mod Sample
mod Tests
use multisub_infra.Prelude.{
  ℕ, zero, suc, ◌+◌, ◌-◌, Text, Bool, true, false, not, Option, none, some, List, [], ◌∷◌, ◌++◌,
  ◌&&◌, ltb, leb, if◌then◌else◌, includes, lower, codes, ℤ, abs, ◌==◌,
}
use multisub_infra.Decimal.{Decimal, big_int}
use multisub_infra.Types.{AuthorizationCache, CardMapping, CardStatus, AsaStatus, LithicAsaEvent}
use multisub_infra.Redis.{
  Redis, SpendResult, refused, missing, spent, get_auth_cache, get_card_mapping, atomic_auth_spend,
  update_auth_cache_spend,
}
use multisub_infra.Authorization.State.{
  KycStatus, Database, World, Audit, Error, timeout, failure, Result, ok, err, Action, pure, catch,
  call, date, read, ◌>>=◌, ◌>>◌, User,
}
use multisub_infra.Authorization.Refresh.{refresh_cache}

abbrev pub auth_timeout_ms : ℕ
auth_timeout_ms = 300

abbrev pub max_atomic_retries : ℕ
max_atomic_retries = 3

unfoldable pub default_mcc_blacklist : List Text
default_mcc_blacklist =
    codes "7995" ∷ codes "6051" ∷ codes "6211" ∷ codes "6012" ∷ codes "7801" ∷ codes "7802" ∷ []

pub data Reason : Type 0 where
  non_authorization : AsaStatus → Reason
  invalid_amount card_not_found kyc_not_approved no_cache : Reason
  card_status : CardStatus → Reason
  insufficient_balance : ℕ → ℕ → Reason
  daily_limit_exceeded monthly_limit_exceeded : ℕ → ℕ → ℕ → Reason
  blocked_mcc : Text → Reason
  concurrent_modification authorization_timeout internal_error : Reason

-- `{ approved: true, balanceAfter }` or `{ approved: false, reason }`.
pub data AuthorizationResult : Type 0 where
  approved : Decimal → AuthorizationResult
  declined : Reason → AuthorizationResult

unfoldable pub record_audit_log : Option Text → Bool → Option ℤ → World → World
record_audit_log tenant approval amount w = record w {
  audits = w.audits ++ record { tenant_id = tenant; approved = approval; amount = amount } ∷ [];
}

-- `decline`, whose audit entry goes out without being awaited.
unfoldable pub decline : Reason → Action AuthorizationResult
unfolding record_audit_log
decline reason w = (ok (declined reason), record_audit_log none false none w)

unfoldable pub check_deadline : ℕ → Action (Unit {0})
check_deadline start w =
    if leb auth_timeout_ms (w.clock - start)
    then (err (timeout (w.clock - start)), w)
    else (ok tt, w)

abbrev pub is_approved : Option User → Bool
is_approved none = false
is_approved (some u) = elim u.kyc_status [ KycStatus.approved ↦ true | _ ↦ false ]

unfoldable pub check_kyc_status : Database → Text → Action Bool
check_kyc_status db eoa = read (λ r. is_approved (db.user_by_eoa (lower eoa)))

-- A rebuild that throws leaves no cache to work with.
unfoldable pub get_or_build_auth_cache : Database → CardMapping → Action (Option AuthorizationCache)
get_or_build_auth_cache db m = do
  cache ← read (λ r. get_auth_cache r m.eoa_address)
  elim cache [
    | some c ↦ pure (some c)
    | none ↦
        catch (refresh_cache db m.eoa_address >> read (λ r. get_auth_cache r m.eoa_address)) none
  ]

abbrev pub listed : Option (List Text) → Text → Bool
listed none mcc = false
listed (some codes) mcc = includes codes mcc

unfoldable pub check_mcc_blacklist : Database → Text → Text → Action Bool
check_mcc_blacklist db mcc sub_account =
    if includes default_mcc_blacklist mcc
    then pure true
    else read (λ r. listed (db.mcc_blacklist sub_account) mcc)

-- The loop of the fallback, with the attempts left; the wait between attempts is left out.
unfoldable pub fallback : ℕ → Database → Text → ℕ → Action (Option AuthorizationCache)
fallback zero db eoa amount = pure none
fallback (suc attempts) db eoa amount =
    let again = fallback attempts db eoa amount in
    date db >>= λ now.
    call (λ committed r. update_auth_cache_spend r eoa amount now committed) >>= λ result.
    elim result [ refused e ↦ pure none | missing ↦ again | spent c ↦ pure (some c) ]

unfoldable pub atomic_spend_update : Database → Text → ℕ → Action (Option AuthorizationCache)
unfolding fallback
atomic_spend_update db eoa amount = date db >>= λ now.
    call (λ _ r. atomic_auth_spend r eoa amount now) >>= λ result. elim result [
      | refused e ↦ pure none
      | spent c ↦ pure (some c)
      | missing ↦ fallback max_atomic_retries db eoa amount
    ]

module _ (db : Database) (event : LithicAsaEvent) (start : ℕ) where
  abbrev pub cents : ℕ
  cents = abs event.amount

  -- Step 10, with the entry for the audit log, which cannot fail the flow.
  unfoldable pub approve : CardMapping → AuthorizationCache → Action AuthorizationResult
  approve m c w =
      (ok (approved c.usdc_balance), record_audit_log (some m.tenant_id) true (some event.amount) w)

  -- Step 9.
  unfoldable pub spend : CardMapping → Action AuthorizationResult
  unfolding approve
  spend m = do
    updated ← atomic_spend_update db m.eoa_address cents
    elim updated [
      | none ↦ decline concurrent_modification
      | some c ↦ check_deadline start >> approve m c
    ]

  -- Step 7.
  unfoldable pub filter_mcc : CardMapping → Action AuthorizationResult
  filter_mcc m = do
    blocked ← check_mcc_blacklist db event.merchant.mcc m.sub_account_id
    if blocked then decline (blocked_mcc event.merchant.mcc) else check_deadline start >> spend m

  -- Steps 4 to 6: the balance and the limits, where a limit of 0 is none.
  unfoldable pub check_limits : CardMapping → AuthorizationCache → Action AuthorizationResult
  check_limits m c =
      let balance = big_int c.usdc_balance in
      let day = big_int c.daily_limit in
      let month = big_int c.monthly_limit in
      if ltb balance cents
      then decline (insufficient_balance balance cents)
      else if ltb 0 day && ltb day (big_int c.daily_spent + cents)
      then decline (daily_limit_exceeded (big_int c.daily_spent) cents day)
      else if ltb 0 month && ltb month (big_int c.monthly_spent + cents)
      then decline (monthly_limit_exceeded (big_int c.monthly_spent) cents month)
      else filter_mcc m

  unfoldable pub load_cache : CardMapping → Action AuthorizationResult
  load_cache m = do
    cache ← get_or_build_auth_cache db m
    elim cache [ none ↦ decline no_cache | some c ↦ check_deadline start >> check_limits m c ]

  -- Step 3.
  unfoldable pub check_kyc : CardMapping → Action AuthorizationResult
  check_kyc m = do
    fine ← check_kyc_status db m.eoa_address
    if fine then check_deadline start >> load_cache m else decline kyc_not_approved

  -- Steps 1 and 2.
  unfoldable pub look_up_card : Action AuthorizationResult
  look_up_card = do
    found ← read (λ r. get_card_mapping r event.card_token)
    elim found [
      | none ↦ decline card_not_found
      | some m ↦ check_deadline start >> elim m.status [
        | CardStatus.active ↦ check_deadline start >> check_kyc m
        | CardStatus.frozen ↦ decline (card_status CardStatus.frozen)
        | CardStatus.cancelled ↦ decline (card_status CardStatus.cancelled)
      ]
    ]

  -- The body of the `try`.
  unfoldable pub decide : Action AuthorizationResult
  decide = elim event.status [
    | AsaStatus.authorization ↦ if cents == 0 then pure (declined invalid_amount) else look_up_card
    | AsaStatus.authorization_advice ↦
        pure (declined (non_authorization AsaStatus.authorization_advice))
    | AsaStatus.clearing ↦ pure (declined (non_authorization AsaStatus.clearing))
    | AsaStatus.void ↦ pure (declined (non_authorization AsaStatus.void))
  ]

-- The `catch`: a timeout and any other error decline, with an audit entry.
unfoldable pub settle_error :
    LithicAsaEvent → Result AuthorizationResult × World → AuthorizationResult × World
settle_error event (ok res, w) = (res, w)
settle_error event (err (timeout ms), w) =
    (declined authorization_timeout, record_audit_log none false (some event.amount) w)
settle_error event (err failure, w) =
    (declined internal_error, record_audit_log none false (some event.amount) w)

unfoldable pub authorize : Database → LithicAsaEvent → World → AuthorizationResult × World
authorize db event w = settle_error event (decide db event w.clock w)
