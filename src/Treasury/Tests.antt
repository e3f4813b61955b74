-- ===== src/Treasury/Tests.antt =====
-- A sweep, a failing service, a shared yield and a top-up.
use multisub_infra.Prelude.{
  ◌%◌, ◌≡◌, refl, Text, true, false, none, some, [], ◌∷◌, codes, if◌then◌else◌, ◌==◌,
}
use multisub_infra.Treasury.{User, Answers, circuit_breaker_pause_ms}
use multisub_infra.Treasury.Sweep.{Config, SweepService, fire, start, run_sweep_cycle}
use multisub_infra.Treasury.Sweep.Ledger.{Adds, run_sweep_cycle-ledger}
use multisub_infra.Treasury.Sweep.Breaker.{
  started, cycled, done, step, control, is_armed, Steps-armed, failing_cycles,
  failing_cycles-control,
}
use multisub_infra.Treasury.Yield
use multisub_infra.Treasury.Yield.{YieldManager, Vaults}
use multisub_infra.Treasury.Yield.TopUp.{Balances}
use multisub_infra.Treasury.Yield.Shares.{Shares}
use multisub_infra.Treasury.Yield.Cycle.{Sweeper, run_sweep}
use multisub_infra.Treasury.Yield.Agrees.{Agrees, run_sweep-Agrees}

abbrev sweep_config : Config
sweep_config = record {
  m1_treasury_address = codes "0xm1";
  sweep_threshold = 100;
  sweep_interval_ms = 300000;
}

abbrev idle : SweepService
idle = record {
  running = false;
  timer = none;
  consecutive_failures = 0;
  last_run_at = 0;
  last_run_sweep_count = 0;
  total_sweeps_executed = 0;
  results = [];
  ledger = [];
  audits = [];
  transfers = [];
}

abbrev ready : SweepService
ready = record idle { running = true; timer = some 0 }

abbrev depositor : User
depositor = record {
  id = codes "u1";
  tenant_id = codes "t1";
  m2_safe_address = some (codes "0xcd");
  is_active = true;
  tenant_is_model_a = true;
  tenant_is_active = true;
}

abbrev moving : Text → Answers
moving _ = record {
  balance = some 250;
  sent = some (codes "0x1");
  receipt = some true;
  ledger_takes = true;
  log_takes = false;
}

run_sweep_cycle-ledger_example :
    Adds sweep_config moving
      (depositor ∷ [])
      ready
      (run_sweep_cycle sweep_config 9 (some (depositor ∷ [])) moving ready)
run_sweep_cycle-ledger_example =
    run_sweep_cycle-ledger sweep_config 9 (depositor ∷ []) moving ready refl (λ _. refl)

Steps-armed_example :
    is_armed (control (run_sweep_cycle sweep_config 9 none moving (fire (start idle)))) ≡ true
Steps-armed_example =
    Steps-armed sweep_config idle (run_sweep_cycle sweep_config 9 none moving (fire (start idle)))
      (step _ _ _ (started idle) (step _ _ _ (cycled 9 none moving (start idle)) (done _))) refl

failing_cycles_example :
    control (failing_cycles sweep_config (λ n. n) (λ _. moving) 5 ready)
    ≡ (true, (some (if 5 % 5 == 0 then circuit_breaker_pause_ms else 300000), 5 % 5))
failing_cycles_example =
    failing_cycles-control sweep_config (λ n. n) (λ _. moving) 4 ready refl refl

abbrev yield_config : Yield.Config
yield_config = record {
  vaults = true;
  platform_issuer_safe_address = some (codes "0xis");
  m1_treasury_address = some (codes "0xm1");
  snapshot_interval_ms = 86400000;
  sweep_interval_ms = 300000;
}

abbrev manager : YieldManager
manager = record {
  running = true;
  snapshot_timer = none;
  top_up_timer = none;
  last_snapshot_at = 0;
  last_allocation_at = 0;
  last_top_up_check_at = 0;
  snapshots = [];
  allocations = [];
  yield_ledger = [];
  ledger = [];
  audits = [];
  transfers = [];
}

abbrev earning : Text → Vaults
earning _ = record { position = some (100, 90); convert_to_assets = some 2000100; row_takes = true }

abbrev accepting : Yield.Answers
accepting = record {
  sent = some (codes "0x2");
  receipt = some true;
  tenant_user = some (some (codes "u1"));
  first_takes = true;
  second_takes = true;
  log_takes = true;
}

abbrev low : Balances
low = record { issuer = some 9000000000; treasury = some 60000000000 }

abbrev sweeper : Sweeper
sweeper = record {
  running = true;
  sweep_timer = some 5000;
  snapshot_timer = some 10000;
  top_up_timer = some 15000;
  consecutive_failures = 0;
  last_sweep_at = 0;
  sweep_count = 0;
  ledger = [];
  audits = [];
  transfers = [];
}

run_sweep-Agrees_example :
    Agrees
      (run_sweep sweep_config 9 (some (depositor ∷ [])) moving sweeper)
      (run_sweep_cycle sweep_config 9 (some (depositor ∷ [])) moving ready)
run_sweep-Agrees_example =
    run_sweep-Agrees sweep_config 9 (some (depositor ∷ [])) moving sweeper ready refl refl
      (record { ledger = refl; transfers = refl })
