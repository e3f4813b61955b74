-- ===== src/Settlement/Tests.antt =====
-- A job whose chain never answers, and the gas of its retries.
use multisub_infra.Prelude.{
  All, length, false, ◌⊎◌, ◌++◌, some, ◌+◌, ◌*◌, ◌≤◌, ◌<◌, ◌≡◌, refl, true, none, [], ◌∷◌, codes,
  arith,
}
use multisub_infra.Types.{SettlementJob}
use multisub_infra.Settlement.{
  Row, Status, process_job, Config, World, Answers, rejected, Receipt, work, apply_gas_bump,
}
use multisub_infra.Settlement.Outcome.{IsClosed, process_job-IsClosed}
use multisub_infra.Settlement.Worker.{retry, work-terminates}
use multisub_infra.Settlement.Gas.{apply_gas_bump_lem}
use multisub_infra.Settlement.Batch.{IsRetryOf, process_queue, process_queue-retries}
use multisub_infra.Settlement.Lifecycle.{start, stop, takes_jobs}

abbrev config : Config
config = record { max_retries = 3; gas_bump_percent = 20 }

abbrev job : SettlementJob
job = record {
  lithic_tx_token = codes "x1";
  m2_safe_address = codes "0xcd";
  issuer_safe_address = codes "0xef";
  amount = 2 ∷ 5 ∷ [];
  tenant_id = codes "t1";
  attempt = 1;
  created_at = 0;
}

abbrev silent : Answers
silent = record {
  is_settled = none;
  gas_estimate = none;
  wallet = rejected;
  receipt = Receipt.unknown;
  queue_takes = true;
  database_takes = true;
}

abbrev one_job : World
one_job = record { queue = job ∷ []; rows = λ _. none; audits = []; submissions = [] }

work-terminates_example : (work 3 0 config (λ _. silent) one_job).queue ≡ []
work-terminates_example = work-terminates 3 0 config (λ _. silent) one_job (omega arith)

apply_gas_bump_third : apply_gas_bump config 100000 3 ≡ 140000
unfolding apply_gas_bump
apply_gas_bump_third = refl

apply_gas_bump_example :
    (apply_gas_bump config 100001 1 ≡ 100001)
    × (apply_gas_bump config 100001 1 ≤ apply_gas_bump config 100001 3)
    × (100001 ≤ apply_gas_bump config 100001 3)
    × (apply_gas_bump config 100001 3 * 100 ≤ 100001 * (100 + 20 * 2))
    × (100001 * (100 + 20 * 2) < (apply_gas_bump config 100001 3 + 1) * 100)
apply_gas_bump_example = apply_gas_bump_lem config 100001 1 3 (omega arith)

abbrev pending_row : Row
pending_row = record {
  status = Status.approved;
  on_chain_tx_hash = none;
  retry_count = 0;
  error_message = none;
}

abbrev waiting : World
waiting = record one_job { queue = []; rows = λ _. some pending_row }

process_job-IsClosed_example :
    let w' = (process_job config job silent waiting).1 in
    IsClosed job w' ⊎ (w'.queue ≡ [] ++ retry job ∷ [])
process_job-IsClosed_example =
    process_job-IsClosed config job silent waiting pending_row refl refl refl

process_queue-retries_example :
    All (IsRetryOf config (job ∷ [])) (process_queue config (λ _. silent) one_job).queue
    × (length (process_queue config (λ _. silent) one_job).queue ≤ 1)
process_queue-retries_example = process_queue-retries config (λ _. silent) one_job (λ _. refl)

-- A service that is stopped and started again has a worker, and a queue that takes no jobs.
restarted :
    takes_jobs (start (stop (record { running = true; has_worker = true; is_open = true }))) ≡ false
unfolding start stop
restarted = refl
