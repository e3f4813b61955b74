-- ===== src/Settlement.antt =====
-- backend/src/services/settlement-service.ts: settling approved spends on chain, one job at a time,
-- with retries. The queue, the database rows and the audit log are the state; what the chain, the
-- wallet, the queue and the database answer during one job is given with it.
pub mod Gas
pub mod Worker
pub mod Outcome
pub mod Batch
pub mod Lifecycle
mod Tests
use multisub_infra.Prelude.{
  ℕ, zero, suc, ◌+◌, ◌-◌, ◌*◌, ◌/◌, Text, Bool, true, false, Option, none, some, List, [], ◌∷◌,
  ◌++◌, ltb, leb, ◌==◌, if◌then◌else◌, update,
}
use multisub_infra.Decimal.{Decimal, big_int}
use multisub_infra.Types.{SettlementJob}

pub record Config : Type 0 where
  pub max_retries : ℕ
  pub gas_bump_percent : ℕ

pub data Status : Type 0 where
  pending approved declined settled reversed failed : Status

pub data Failure : Type 0 where
  check_failed call_failed : Failure
  reverted : Text → Failure

pub record Row : Type 0 where
  pub status : Status
  pub on_chain_tx_hash : Option Text
  pub retry_count : ℕ
  pub error_message : Option Failure

-- `settlement_executed` with its hash, or `settlement_failed` with its error, at an attempt.
pub data Audit : Type 0 where
  executed : Text → ℕ → Text → Audit
  gave_up : Text → ℕ → Failure → Audit

-- A call of `settle` that went to the chain: the token, the amount and the gas limit.
pub record Submission : Type 0 where
  pub token : Text
  pub amount : ℕ
  pub gas : ℕ

pub record World : Type 0 where
  pub queue : List SettlementJob
  pub rows : Text → Option Row
  pub audits : List Audit
  pub submissions : List Submission

-- `writeContract` throws with nothing sent, or throws though the call was sent, or returns a hash.
pub data Sent : Type 0 where
  rejected lost : Sent
  sent : Text → Sent

pub data Receipt : Type 0 where
  success reverted unknown : Receipt

-- The answers during one job: `isSettled` (or a failure of the read), the gas estimate (or none),
-- the wallet, the receipt, and whether the queue and the database take a write.
pub record Answers : Type 0 where
  pub is_settled : Option Bool
  pub gas_estimate : Option ℕ
  pub wallet : Sent
  pub receipt : Receipt
  pub queue_takes : Bool
  pub database_takes : Bool

abbrev pub fallback_gas : ℕ
fallback_gas = 200000

unfoldable pub apply_gas_bump : Config → ℕ → ℕ → ℕ
apply_gas_bump config base attempt =
    if leb attempt 1 then base else base * (100 + config.gas_bump_percent * (attempt - 1)) / 100

abbrev pub estimate_gas : Answers → ℕ
estimate_gas a = elim a.gas_estimate [ some gas ↦ gas | none ↦ fallback_gas ]

-- `transaction.update`, whose failure, on a missing row too, is logged and swallowed.
unfoldable pub update_row : Answers → Text → (Row → Row) → World → World
update_row a token change w =
    if a.database_takes
    then (elim (w.rows token) [
      | none ↦ w
      | some row ↦ record w { rows = update w.rows token (some (change row)) }
    ])
    else w

unfoldable pub mark_transaction_settled : Answers → Text → Option Text → World → World
unfolding update_row
mark_transaction_settled a token none w =
    update_row a token (λ row. record row { status = settled }) w
mark_transaction_settled a token (some hash) w =
    update_row a token (λ row. record row { status = settled; on_chain_tx_hash = some hash }) w

unfoldable pub mark_transaction_failed : Answers → Text → Failure → World → World
unfolding update_row
mark_transaction_failed a token e w =
    update_row a token (λ row. record row { status = failed; error_message = some e }) w

unfoldable pub update_transaction_retry : Answers → Text → ℕ → Failure → World → World
unfolding update_row
update_transaction_retry a token attempt e w =
    update_row a token (λ row. record row { retry_count = attempt; error_message = some e }) w

unfoldable pub create_audit_log : Answers → Audit → World → World
create_audit_log a entry w =
    if a.database_takes then record w { audits = w.audits ++ entry ∷ [] } else w

unfoldable pub enqueue : SettlementJob → World → World
enqueue job w = record w { queue = w.queue ++ job ∷ [] }

unfoldable pub submit : SettlementJob → ℕ → World → World
submit job gas w = record w {
  submissions =
      w.submissions
      ++ record { token = job.lithic_tx_token; amount = big_int job.amount; gas = gas } ∷ [];
}

-- How the `try` of `processJob` ends.
pub data Attempt : Type 0 where
  completed : Attempt
  threw : Failure → Attempt

-- Behind the hash: the receipt.
unfoldable pub confirm : SettlementJob → Answers → Text → World → Attempt × World
confirm job a hash w = elim a.receipt [
  | Receipt.success ↦ (
    completed,
    create_audit_log a (executed job.lithic_tx_token job.attempt hash)
        (mark_transaction_settled a job.lithic_tx_token (some hash) w),
  )
  | Receipt.reverted ↦ (threw (Failure.reverted hash), w)
  | Receipt.unknown ↦ (threw call_failed, w)
]

unfoldable pub send : Config → SettlementJob → Answers → World → Attempt × World
send config job a w =
    let gas = apply_gas_bump config (estimate_gas a) job.attempt in
    elim a.wallet [
      | rejected ↦ (threw call_failed, w)
      | lost ↦ (threw call_failed, submit job gas w)
      | sent hash ↦ confirm job a hash (submit job gas w)
    ]

unfoldable pub attempt_settlement : Config → SettlementJob → Answers → World → Attempt × World
attempt_settlement config job a w = elim a.is_settled [
  | none ↦ (threw check_failed, w)
  | some true ↦ (completed, mark_transaction_settled a job.lithic_tx_token none w)
  | some false ↦ send config job a w
]

-- The `catch`: a retry with the next attempt number while some are left. The job ends well, or the
-- queue refuses the retry and the job throws.
unfoldable pub handle_failure : Config → SettlementJob → Answers → Failure → World → Bool × World
handle_failure config job a e w =
    let retry = record job { attempt = job.attempt + 1 } in
    if ltb job.attempt config.max_retries
    then (if a.queue_takes
        then (true, update_transaction_retry a job.lithic_tx_token job.attempt e (enqueue retry w))
        else (false, w))
    else (
      true,
      create_audit_log a (gave_up job.lithic_tx_token job.attempt e)
          (mark_transaction_failed a job.lithic_tx_token e w),
    )

abbrev pub finish : Config → SettlementJob → Answers → Attempt × World → Bool × World
finish config job a (completed, w) = (true, w)
finish config job a (threw e, w) = handle_failure config job a e w

unfoldable pub process_job : Config → SettlementJob → Answers → World → Bool × World
process_job config job a w = finish config job a (attempt_settlement config job a w)

-- The worker, with concurrency 1: the oldest job leaves the queue and is processed. The n-th job is
-- given the n-th answers; the fuel bounds the number of jobs.
unfoldable pub work : ℕ → ℕ → Config → (ℕ → Answers) → World → World
work zero n config answers w = w
work (suc fuel) n config answers w = elim w.queue [
  | [] ↦ w
  | job ∷ rest ↦
      work fuel (suc n) config answers
        (process_job config job (answers n) (record w { queue = rest })).1
]
