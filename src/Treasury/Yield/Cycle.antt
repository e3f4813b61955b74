-- ===== src/Treasury/Yield/Cycle.antt =====
-- backend/src/services/yield-manager.ts: the sweep of this service and its three timers. A cycle is one
-- step.
use multisub_infra.Prelude.{
  ℕ, ◌+◌, Text, Bool, true, false, Option, none, some, List, [], ◌∷◌, ◌++◌, leb, if◌then◌else◌,
}
use multisub_infra.Decimal.{to_string}
use multisub_infra.Treasury.{
  User, configured, sweep, LedgerEntry, Transfer, Answers, select_users, max_consecutive_failures,
  circuit_breaker_pause_ms,
}
use multisub_infra.Treasury.Sweep.{Config, SweepAudit, sweep_executed}

-- The timers are the delays they were set with.
pub record Sweeper : Type 0 where
  pub running : Bool
  pub sweep_timer : Option ℕ
  pub snapshot_timer : Option ℕ
  pub top_up_timer : Option ℕ
  pub consecutive_failures : ℕ
  pub last_sweep_at : ℕ
  pub sweep_count : ℕ
  pub ledger : List LedgerEntry
  pub audits : List SweepAudit
  pub transfers : List Transfer

unfoldable pub schedule_sweep : ℕ → Sweeper → Sweeper
schedule_sweep delay s = if s.running then record s { sweep_timer = some delay } else s

unfoldable pub schedule_snapshot : ℕ → Sweeper → Sweeper
schedule_snapshot delay s = if s.running then record s { snapshot_timer = some delay } else s

unfoldable pub schedule_top_up_check : ℕ → Sweeper → Sweeper
schedule_top_up_check delay s = if s.running then record s { top_up_timer = some delay } else s

unfoldable pub start : Sweeper → Sweeper
unfolding schedule_sweep schedule_snapshot schedule_top_up_check
start s =
    if s.running
    then s
    else schedule_top_up_check 15000
        (schedule_snapshot 10000 (schedule_sweep 5000 (record s { running = true })))

unfoldable pub stop : Sweeper → Sweeper
stop s = record s {
  running = false;
  sweep_timer = none;
  snapshot_timer = none;
  top_up_timer = none;
}

-- The ledger's row and the audit entry of a confirmed sweep: a row that is refused throws, and the
-- entry is not written.
unfoldable pub record_confirmed : Answers → User → Text → ℕ → Text → Sweeper → Sweeper
record_confirmed a user safe amount hash s =
    if a.ledger_takes
    then record s {
      ledger =
          s.ledger
          ++ record {
            tenant_id = user.tenant_id;
            user_id = user.id;
            type = sweep;
            amount = to_string amount;
            reference = hash;
          }
            ∷ [];
      audits =
          if a.log_takes
          then s.audits ++ sweep_executed user.tenant_id safe (to_string amount) hash ∷ []
          else s.audits;
    }
    else s

unfoldable pub confirm : Answers → User → Text → ℕ → Text → Sweeper → Sweeper
unfolding record_confirmed
confirm a user safe amount hash s = elim a.receipt [
  | none ↦ s
  | some true ↦
      record_confirmed a user safe amount hash (record s { sweep_count = s.sweep_count + 1 })
  | some false ↦ s
]

unfoldable pub sweep_one : Config → Answers → User → Sweeper → Sweeper
unfolding confirm
sweep_one config a user s = elim (configured user.m2_safe_address) [
  | none ↦ s
  | some safe ↦ elim a.balance [
    | none ↦ s
    | some balance ↦ if leb balance config.sweep_threshold then s else elim a.sent [
      | none ↦ s
      | some hash ↦ confirm a user safe balance hash (record s {
        transfers =
            s.transfers
            ++ record { sent_to = safe; recipient = config.m1_treasury_address; amount = balance }
              ∷ [];
      })
    ]
  ]
]

unfoldable pub sweep_each : Config → (Text → Answers) → List User → Sweeper → Sweeper
sweep_each config answers [] s = s
sweep_each config answers (user ∷ users) s =
    sweep_each config answers users (sweep_one config (answers user.id) user s)

-- The end of a cycle without and with an error.
unfoldable pub complete : Config → ℕ → Sweeper → Sweeper
unfolding schedule_sweep
complete config now s =
    schedule_sweep config.sweep_interval_ms
      (record s { consecutive_failures = 0; last_sweep_at = now })

unfoldable pub fail : Config → Sweeper → Sweeper
unfolding schedule_sweep
fail config s =
    if leb max_consecutive_failures (s.consecutive_failures + 1)
    then schedule_sweep circuit_breaker_pause_ms (record s { consecutive_failures = 0 })
    else schedule_sweep config.sweep_interval_ms
        (record s { consecutive_failures = s.consecutive_failures + 1 })

-- `users` is the table, or `none` when the query throws.
unfoldable pub run_sweep : Config → ℕ → Option (List User) → (Text → Answers) → Sweeper → Sweeper
unfolding complete fail
run_sweep config now users answers s =
    let begun = record s { sweep_count = 0 } in
    if s.running
    then elim users [
      | none ↦ fail config begun
      | some table ↦ complete config now (sweep_each config answers (select_users table) begun)
    ]
    else begun
