-- ===== src/Watcher/Reconcile/Tests.antt =====
-- A reconciliation behind an unsettled spend.
use multisub_infra.Prelude.{◌≡◌, refl, true, none, some, [], ◌∷◌, codes, lower}
use multisub_infra.Decimal.{big_int, value_from}
use multisub_infra.Types.{AuthorizationCache, Timestamp}
use multisub_infra.Redis.{check_spend, apply_spend}
use multisub_infra.Redis.Charges.{apply_spend-Charges}
use multisub_infra.Redis.Tests.{wallet_cache, wallet_store}
use multisub_infra.Watcher.{User, schedule_next_poll}
use multisub_infra.Watcher.Deposits.{Regained}
use multisub_infra.Watcher.Reconcile.{
  Reconciler, Answers, start, stop, schedule_reconciliation, reconcile, reconcile-Regained,
}

abbrev owner : User
owner = record {
  id = codes "u1";
  tenant_id = codes "t1";
  eoa_address = some (codes "0xab");
  m2_safe_address = some (codes "0xcd");
}

abbrev charged_cache : AuthorizationCache
charged_cache = apply_spend wallet_cache 250 (Timestamp.number 9)

abbrev running : Reconciler
running = record {
  watcher = record {
    running = true;
    timer = some 0;
    consecutive_failures = 0;
    last_poll_at = 0;
    meta = none;
    ledger = [];
    settled_events = λ _. none;
    redis = record wallet_store { auth = λ _. some charged_cache };
    notified = [];
  };
  reconciliation_timer = true;
  last_reconciliation_at = 0;
}

abbrev answers : Answers
answers = record {
  now = 9;
  users = some (owner ∷ []);
  balance = λ _. some (big_int wallet_cache.usdc_balance);
  redis_answers = λ _. true;
}

-- A watcher that is stopped and started again is as one that was started.
restarts : start (stop running) ≡ running
unfolding start stop schedule_reconciliation schedule_next_poll
restarts = refl

fits : check_spend wallet_cache 250 ≡ none
unfolding check_spend big_int value_from
fits = refl

reconcile-Regained_example :
    (after : AuthorizationCache) × ((reconcile answers running).watcher.redis.auth
        (lower (codes "0xab"))
      ≡ some after)
    × Regained charged_cache after 250
reconcile-Regained_example =
    reconcile-Regained answers running [] [] owner (codes "0xab") (codes "0xcd") wallet_cache
      charged_cache 250 refl refl tt tt refl refl refl refl refl
      (apply_spend-Charges wallet_cache 250 (Timestamp.number 9) fits)
