-- ===== src/Settlement/Outcome.antt =====
-- backend/src/services/settlement-service.ts: what processing a job does to its row and the queue.
use mathlib.Core.Path.{subst}
use multisub_infra.Prelude.{
  ℕ, ◌≡◌, refl, ◌⊎◌, inl, inr, Text, Bool, true, false, Option, none, some, [], ◌∷◌, ◌++◌, arith,
  update_self, ltb, Bool-cases, ap, sym, ◌∙◌,
}
use multisub_infra.Types.{SettlementJob}
use multisub_infra.Settlement.{
  Config, Row, Status, Failure, Audit, World, Answers, Sent, rejected, lost, sent, Receipt, Attempt,
  completed, threw, update_row, mark_transaction_settled, mark_transaction_failed, create_audit_log,
  submit, apply_gas_bump, estimate_gas, confirm, send, attempt_settlement, handle_failure, finish,
  process_job,
}
use multisub_infra.Settlement.Worker.{retry, handle_failure-queue}

update_row-at :
    (a : Answers) (t : Text) (f : Row → Row) (w : World) (row : Row)
    → a.database_takes ≡ true
    → w.rows t ≡ some row
    → (update_row a t f w).rows t ≡ some (f row)
unfolding update_row
update_row-at a t f w row d e = grind (arith, d, e, update_self w.rows t (some (f row)))

audit-rows : (a : Answers) (e : Audit) (w : World) → (create_audit_log a e w).rows ≡ w.rows
unfolding create_audit_log
audit-rows a e w = ground arith

-- The row of the job is settled or failed.
abbrev pub IsClosed : SettlementJob → World → Type 0
IsClosed job w =
    (row : Row) × (w.rows job.lithic_tx_token ≡ some row)
    × ((row.status ≡ Status.settled) ⊎ (row.status ≡ Status.failed))

settled-IsClosed :
    (job : SettlementJob) (a : Answers) (hash : Option Text) (w : World) (row : Row)
    → a.database_takes ≡ true
    → w.rows job.lithic_tx_token ≡ some row
    → IsClosed job (mark_transaction_settled a job.lithic_tx_token hash w)
unfolding mark_transaction_settled
settled-IsClosed job a none w row d e =
    (_, update_row-at a job.lithic_tx_token _ w row d e, inl refl)
settled-IsClosed job a (some h) w row d e =
    (_, update_row-at a job.lithic_tx_token _ w row d e, inl refl)

audit-IsClosed :
    (job : SettlementJob) (a : Answers) (e : Audit) (w : World)
    → IsClosed job w
    → IsClosed job (create_audit_log a e w)
audit-IsClosed job a e w (row, at, closed) =
    (row, ap (λ rows. rows job.lithic_tx_token) (audit-rows a e w) ∙ at, closed)

-- An attempt that ends well has closed the row; one that throws has left it and the queue.
Attempted : SettlementJob → World → Attempt × World → Type 0
Attempted job w (completed, w') = IsClosed job w'
Attempted job w (threw e, w') =
    (w'.rows job.lithic_tx_token ≡ w.rows job.lithic_tx_token) × (w'.queue ≡ w.queue)

confirm-Attempted :
    (job : SettlementJob) (a : Answers) (hash : Text) (w : World) (row : Row) (receipt : Receipt)
    → a.receipt ≡ receipt
    → a.database_takes ≡ true
    → w.rows job.lithic_tx_token ≡ some row
    → Attempted job w (confirm job a hash w)
unfolding confirm Attempted
confirm-Attempted job a hash w row Receipt.success r d e =
    let settled_world = mark_transaction_settled a job.lithic_tx_token (some hash) w in
    let entry = Audit.executed job.lithic_tx_token job.attempt hash in
    let step : confirm job a hash w ≡ (completed, create_audit_log a entry settled_world) =
      ground (arith, r) in
    subst (Attempted job w) (sym step)
      (audit-IsClosed job a entry settled_world (settled-IsClosed job a (some hash) w row d e))
confirm-Attempted job a hash w row Receipt.reverted r d e =
    let step : confirm job a hash w ≡ (threw (Failure.reverted hash), w) = ground (arith, r) in
    subst (Attempted job w) (sym step) (refl, refl)
confirm-Attempted job a hash w row Receipt.unknown r d e =
    let step : confirm job a hash w ≡ (threw Failure.call_failed, w) = ground (arith, r) in
    subst (Attempted job w) (sym step) (refl, refl)

-- A submission changes neither the rows nor the queue.
confirm_submitted-Attempted :
    (job : SettlementJob) (gas : ℕ) (w : World) (x : Attempt × World)
    → Attempted job (submit job gas w) x
    → Attempted job w x
unfolding submit Attempted
confirm_submitted-Attempted job gas w (completed, w') h = h
confirm_submitted-Attempted job gas w (threw e, w') h = h

submit-rows : (job : SettlementJob) (gas : ℕ) (w : World) → (submit job gas w).rows ≡ w.rows
unfolding submit
submit-rows job gas w = refl

submit-queue : (job : SettlementJob) (gas : ℕ) (w : World) → (submit job gas w).queue ≡ w.queue
unfolding submit
submit-queue job gas w = refl

send-Attempted :
    (config : Config) (job : SettlementJob) (a : Answers) (w : World) (row : Row) (wallet : Sent)
    → a.wallet ≡ wallet
    → a.database_takes ≡ true
    → w.rows job.lithic_tx_token ≡ some row
    → Attempted job w (send config job a w)
unfolding send Attempted
send-Attempted config job a w row rejected s d e =
    let step : send config job a w ≡ (threw Failure.call_failed, w) = ground (arith, s) in
    subst (Attempted job w) (sym step) (refl, refl)
send-Attempted config job a w row lost s d e =
    let gas = apply_gas_bump config (estimate_gas a) job.attempt in
    let step : send config job a w ≡ (threw Failure.call_failed, submit job gas w) =
      ground (arith, s) in
    subst (Attempted job w) (sym step)
      (ap (λ rows. rows job.lithic_tx_token) (submit-rows job gas w), submit-queue job gas w)
send-Attempted config job a w row (sent hash) s d e =
    let gas = apply_gas_bump config (estimate_gas a) job.attempt in
    let step : send config job a w ≡ confirm job a hash (submit job gas w) = ground (arith, s) in
    subst (Attempted job w) (sym step) (
      confirm_submitted-Attempted job gas w _ (
        confirm-Attempted job a hash (submit job gas w) row a.receipt refl d
          (ap (λ rows. rows job.lithic_tx_token) (submit-rows job gas w) ∙ e)))

attempt_settlement-Attempted :
    (config : Config) (job : SettlementJob) (a : Answers) (w : World) (row : Row)
    (is_settled : Option Bool)
    → a.is_settled ≡ is_settled
    → a.database_takes ≡ true
    → w.rows job.lithic_tx_token ≡ some row
    → Attempted job w (attempt_settlement config job a w)
unfolding attempt_settlement Attempted
attempt_settlement-Attempted config job a w row none s d e =
    let step : attempt_settlement config job a w ≡ (threw Failure.check_failed, w) =
      ground (arith, s) in
    subst (Attempted job w) (sym step) (refl, refl)
attempt_settlement-Attempted config job a w row (some true) s d e =
    let closed = mark_transaction_settled a job.lithic_tx_token none w in
    let step : attempt_settlement config job a w ≡ (completed, closed) = ground (arith, s) in
    subst (Attempted job w) (sym step) (settled-IsClosed job a none w row d e)
attempt_settlement-Attempted config job a w row (some false) s d e =
    let step : attempt_settlement config job a w ≡ send config job a w = ground (arith, s) in
    subst (Attempted job w) (sym step) (send-Attempted config job a w row a.wallet refl d e)

-- The job is closed, or its retry is at the end of the queue.
IsAccounted : SettlementJob → World → World → Type 0
IsAccounted job w w' = IsClosed job w' ⊎ (w'.queue ≡ w.queue ++ retry job ∷ [])

handle_failure-IsAccounted :
    (config : Config) (job : SettlementJob) (a : Answers) (f : Failure) (w : World) (row : Row)
    → a.database_takes ≡ true
    → a.queue_takes ≡ true
    → w.rows job.lithic_tx_token ≡ some row
    → IsAccounted job w (handle_failure config job a f w).1
unfolding handle_failure mark_transaction_failed IsAccounted
handle_failure-IsAccounted config job a f w row d q e =
    elim (Bool-cases (ltb job.attempt config.max_retries)) [
      | inl more ↦ inr (handle_failure-queue config job a f w ∙ ground (arith, more, q))
      | inr over ↦
          let entry = Audit.gave_up job.lithic_tx_token job.attempt f in
          let failed_world = mark_transaction_failed a job.lithic_tx_token f w in
          let step : (handle_failure config job a f w).1 ≡ create_audit_log a entry failed_world =
            ground (arith, over) in
          inl (
            subst (IsClosed job) (sym step) (
              audit-IsClosed job a entry failed_world
                (_, update_row-at a job.lithic_tx_token _ w row d e, inr refl)))
    ]

finish-IsAccounted :
    (config : Config) (job : SettlementJob) (a : Answers) (w : World) (row : Row)
    (x : Attempt × World)
    → a.database_takes ≡ true
    → a.queue_takes ≡ true
    → w.rows job.lithic_tx_token ≡ some row
    → Attempted job w x
    → IsAccounted job w (finish config job a x).1
unfolding Attempted IsAccounted
finish-IsAccounted config job a w row (completed, w') d q e h = inl h
finish-IsAccounted config job a w row (threw f, w') d q e h =
    elim (handle_failure-IsAccounted config job a f w' row d q (h.0 ∙ e)) [
      | inl closed ↦ inl closed
      | inr again ↦ inr (again ∙ ap (λ jobs. jobs ++ retry job ∷ []) h.1)
    ]

-- If the queue and the database take the writes and the job has a row, then whatever the chain and
-- the wallet answer, processing the job leaves its row settled or failed, or its retry, with the
-- next attempt number, at the end of the queue.
pub process_job-IsClosed :
    (config : Config) (job : SettlementJob) (a : Answers) (w : World) (row : Row)
    → a.database_takes ≡ true
    → a.queue_takes ≡ true
    → w.rows job.lithic_tx_token ≡ some row
    → let w' = (process_job config job a w).1 in
      IsClosed job w' ⊎ (w'.queue ≡ w.queue ++ retry job ∷ [])
unfolding process_job IsAccounted
process_job-IsClosed config job a w row d q e =
    finish-IsAccounted config job a w row (attempt_settlement config job a w) d q e
      (attempt_settlement-Attempted config job a w row a.is_settled refl d e)
