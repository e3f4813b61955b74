-- ===== src/Authorization/Tests.antt =====
-- Authorizations on one card, against the store of the cache's tests.
use multisub_infra.Prelude.{
  ◌-◌, ◌≡◌, ◌≢◌, refl, true, false, none, some, List, [], ◌∷◌, arith, lower, codes, pos,
}
use multisub_infra.Decimal.{big_int, to_string}
use multisub_infra.Types.{CardStatus}
use multisub_infra.Redis.{get_card_mapping}
use multisub_infra.Redis.Charges.{Charges}
use multisub_infra.Redis.Tests.{wallet_cache}
use multisub_infra.Authorization.State.{World, Event, read, call, next_event, ◌>>=◌}
use multisub_infra.Authorization.{
  approved, declined, Reason, authorize, decide, settle_error, look_up_card, check_deadline,
  decline, record_audit_log,
}
use multisub_infra.Authorization.Extends.{Extends}
use multisub_infra.Authorization.Decision.{authorize-Approval, authorize-decline}
use multisub_infra.Authorization.Approval.{Approval}
use multisub_infra.Authorization.Runs.{timeline, authorize-in_time, authorize-late}
use multisub_infra.Authorization.Steps.{after, world, charged, charged_store}
use multisub_infra.Authorization.Sample.{
  database, mapping_of, store_of, groceries, store_of-AllWellFormed, funded,
}

-- Five calls of ten milliseconds each.
authorize-in_time_example :
    authorize database groceries
      (world (store_of CardStatus.active) 5 [] (timeline 10 10 10 10 10 []))
    ≡ (
      approved (to_string (big_int wallet_cache.usdc_balance - 250)),
      world
          (charged_store database groceries
            (store_of CardStatus.active)
            (mapping_of CardStatus.active)
            wallet_cache
            45)
          55
          (record { tenant_id = some (codes "t1"); approved = true; amount = some (pos 250) } ∷ [])
          [],
    )
authorize-in_time_example =
    authorize-in_time database groceries (store_of CardStatus.active) (mapping_of CardStatus.active)
      wallet_cache 5 10 10 10 10 10 [] [] funded (omega arith)

authorize-Approval_example :
    Approval database groceries
      (store_of CardStatus.active)
      (to_string (big_int wallet_cache.usdc_balance - 250))
      (charged_store database groceries
        (store_of CardStatus.active)
        (mapping_of CardStatus.active)
        wallet_cache
        45)
authorize-Approval_example =
    authorize-Approval database groceries
      (world (store_of CardStatus.active) 5 [] (timeline 10 10 10 10 10 []))
      (world
        (charged_store database groceries (store_of CardStatus.active)
          (mapping_of CardStatus.active) wallet_cache 45)
        55 (record { tenant_id = some (codes "t1"); approved = true; amount = some (pos 250) } ∷ [])
        [])
      (to_string (big_int wallet_cache.usdc_balance - 250))
      (store_of-AllWellFormed CardStatus.active)
      (authorize-in_time database groceries (store_of CardStatus.active)
        (mapping_of CardStatus.active) wallet_cache 5 10 10 10 10 10 [] [] funded (omega arith))

-- The spend takes 280 milliseconds.
authorize-late_example :
    let (res, w) =
      authorize database groceries
        (world (store_of CardStatus.active) 5 [] (timeline 10 10 10 10 280 [])) in
    (res ≡ declined Reason.authorization_timeout)
    × (w.redis.auth (lower (codes "0xAB"))
        ≡ some (
            charged database groceries
              (store_of CardStatus.active)
              (mapping_of CardStatus.active)
              wallet_cache
              45))
    × Charges wallet_cache
        (charged database groceries
          (store_of CardStatus.active)
          (mapping_of CardStatus.active)
          wallet_cache
          45)
        250
authorize-late_example =
    authorize-late database groceries (store_of CardStatus.active) (mapping_of CardStatus.active)
      wallet_cache 5 10 10 10 10 280 [] [] funded (omega arith) (omega arith)

abbrev frozen_world : World
frozen_world = world (store_of CardStatus.frozen) 5 [] (timeline 10 10 10 10 10 [])

abbrev frozen_reason : Reason
frozen_reason = Reason.card_status CardStatus.frozen

abbrev timeline_rest : List Event
timeline_rest = after 10 ∷ after 10 ∷ after 10 ∷ after 10 ∷ []

frozen_run : authorize database groceries frozen_world ≡ (
  declined frozen_reason,
  record {
    redis = store_of CardStatus.frozen;
    clock = 15;
    audits = record { tenant_id = none; approved = false; amount = none } ∷ [];
    events = timeline_rest;
  },
)
unfolding authorize settle_error decide look_up_card read call next_event ◌>>=◌ check_deadline
    decline record_audit_log get_card_mapping
frozen_run = refl

frozen_not_timeout : frozen_reason ≢ Reason.authorization_timeout
frozen_not_timeout e = ground (arith, e)

frozen_not_internal : frozen_reason ≢ Reason.internal_error
frozen_not_internal e = ground (arith, e)

authorize-decline_example :
    Extends (store_of CardStatus.frozen) (authorize database groceries frozen_world).1.redis
authorize-decline_example =
    authorize-decline database groceries frozen_world (authorize database groceries frozen_world).1
      frozen_reason (store_of-AllWellFormed CardStatus.frozen) frozen_not_timeout
      frozen_not_internal (λ i. ((frozen_run i).0, (authorize database groceries frozen_world).1))
