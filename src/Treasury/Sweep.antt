-- ===== src/Treasury/Sweep.antt =====
-- backend/src/services/sweep-service.ts: the service that sweeps the M2 Safes into the treasury.
-- `results` are the sweeps of the cycle that runs.
pub mod Due
pub mod Ledger
pub mod Breaker
use multisub_infra.Prelude.{
  ℕ, zero, suc, ◌+◌, Text, Bool, true, false, Option, none, some, List, [], ◌∷◌, ◌++◌, leb,
  if◌then◌else◌, length,
}
use multisub_infra.Decimal.{Decimal, to_string}
use multisub_infra.Treasury.{
  User, configured, EntryType, sweep, yield, LedgerEntry, Transfer, Answers, select_users,
  max_consecutive_failures, circuit_breaker_pause_ms,
}

pub record Config : Type 0 where
  pub m1_treasury_address : Text
  pub sweep_threshold : ℕ
  pub sweep_interval_ms : ℕ

pub record SweepResult : Type 0 where
  pub m2_safe_address : Text
  pub user_id : Text
  pub tenant_id : Text
  pub amount : Decimal
  pub tx_hash : Text

pub data SweepAudit : Type 0 where
  sweep_executed : Text → Text → Decimal → Text → SweepAudit
  sweep_reverted : Text → Text → Decimal → Text → SweepAudit
  sweep_failed : Text → Text → SweepAudit

-- `timer` is the delay of the timer that is pending.
pub record SweepService : Type 0 where
  pub running : Bool
  pub timer : Option ℕ
  pub consecutive_failures : ℕ
  pub last_run_at : ℕ
  pub last_run_sweep_count : ℕ
  pub total_sweeps_executed : ℕ
  pub results : List SweepResult
  pub ledger : List LedgerEntry
  pub audits : List SweepAudit
  pub transfers : List Transfer

unfoldable pub schedule_next : ℕ → SweepService → SweepService
schedule_next delay s = if s.running then record s { timer = some delay } else s

-- The timer runs out: it is no longer pending when the cycle begins.
unfoldable pub fire : SweepService → SweepService
fire s = record s { timer = none }

unfoldable pub start : SweepService → SweepService
start s = if s.running then s else schedule_next 0 (record s { running = true })

unfoldable pub stop : SweepService → SweepService
stop s = record s { running = false; timer = none }

unfoldable pub execute_sweep : Config → Text → ℕ → SweepService → SweepService
execute_sweep config safe amount s = record s {
  transfers =
      s.transfers
      ++ record { sent_to = safe; recipient = config.m1_treasury_address; amount = amount } ∷ [];
}

unfoldable pub record_sweep : Answers → User → ℕ → Text → SweepService → SweepService
record_sweep a user amount hash s =
    if a.ledger_takes
    then record s {
      ledger =
          s.ledger
          ++ record {
            tenant_id = user.tenant_id;
            user_id = user.id;
            type = sweep;
            amount = to_string amount;
            reference = hash;
          }
            ∷ [];
    }
    else s

unfoldable pub create_audit_log : Answers → SweepAudit → SweepService → SweepService
create_audit_log a entry s = if a.log_takes then record s { audits = s.audits ++ entry ∷ [] } else s

unfoldable pub push_result : User → Text → ℕ → Text → SweepService → SweepService
push_result user safe amount hash s = record s {
  results =
      s.results
      ++ record {
        m2_safe_address = safe;
        user_id = user.id;
        tenant_id = user.tenant_id;
        amount = to_string amount;
        tx_hash = hash;
      }
        ∷ [];
}

-- Behind the hash of a sweep: the receipt, and what is recorded for it.
unfoldable pub confirm_sweep : Answers → User → Text → ℕ → Text → SweepService → SweepService
confirm_sweep a user safe amount hash s = elim a.receipt [
  | none ↦ create_audit_log a (sweep_failed user.tenant_id safe) s
  | some true ↦
      create_audit_log a (sweep_executed user.tenant_id safe (to_string amount) hash)
        (record_sweep a user amount hash s)
  | some false ↦ create_audit_log a (sweep_reverted user.tenant_id safe (to_string amount) hash) s
]

-- One round of the loop for a Safe, its `catch` included.
unfoldable pub sweep_safe : Config → Answers → User → Text → SweepService → SweepService
sweep_safe config a user safe s = elim a.balance [
  | none ↦ create_audit_log a (sweep_failed user.tenant_id safe) s
  | some balance ↦ if leb balance config.sweep_threshold then s else (elim a.sent [
    | none ↦ create_audit_log a (sweep_failed user.tenant_id safe) s
    | some hash ↦
        confirm_sweep a user safe balance hash
          (push_result user safe balance hash (execute_sweep config safe balance s))
  ])
]

unfoldable pub sweep_user : Config → Answers → User → SweepService → SweepService
sweep_user config a user s = elim (configured user.m2_safe_address) [
  | none ↦ s
  | some safe ↦ sweep_safe config a user safe s
]

unfoldable pub sweep_users : Config → (Text → Answers) → List User → SweepService → SweepService
sweep_users config answers [] s = s
sweep_users config answers (user ∷ users) s =
    sweep_users config answers users (sweep_user config (answers user.id) user s)

-- The end of a cycle without and with an error.
unfoldable pub complete_cycle : Config → ℕ → SweepService → SweepService
complete_cycle config now s = schedule_next config.sweep_interval_ms (record s {
  consecutive_failures = 0;
  last_run_at = now;
  last_run_sweep_count = length s.results;
  total_sweeps_executed = s.total_sweeps_executed + length s.results;
})

unfoldable pub fail_cycle : Config → SweepService → SweepService
fail_cycle config s =
    if leb max_consecutive_failures (s.consecutive_failures + 1)
    then schedule_next circuit_breaker_pause_ms (record s { consecutive_failures = 0 })
    else schedule_next config.sweep_interval_ms
        (record s { consecutive_failures = s.consecutive_failures + 1 })

-- `users` is the table, or `none` when the query throws. With no user to scan the cycle ends as a
-- complete one with no result.
unfoldable pub run_sweep_cycle :
    Config → ℕ → Option (List User) → (Text → Answers) → SweepService → SweepService
run_sweep_cycle config now users answers s =
    let begun = record s { results = [] } in
    if s.running
    then (elim users [
      | none ↦ fail_cycle config begun
      | some table ↦
          complete_cycle config now (sweep_users config answers (select_users table) begun)
    ])
    else begun
