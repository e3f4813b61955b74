-- ===== src/Settlement/Worker.antt =====
-- backend/src/services/settlement-service.ts: how much work a queue of jobs makes.
use multisub_infra.Prelude.{
  ℕ, zero, suc, ◌+◌, ◌-◌, ◌≤◌, ◌<◌, ◌≡◌, refl, ◌⊎◌, inl, inr, Text, Option, none, some, List, [],
  ◌∷◌, ◌++◌, ◌&&◌, arith, ltb, if◌then◌else◌, Option-cases, Bool-cases, ap,
}
use multisub_infra.Types.{SettlementJob}
use multisub_infra.Settlement.{
  Config, Row, Failure, Audit, World, Answers, Attempt, completed, threw, update_row,
  mark_transaction_settled, mark_transaction_failed, update_transaction_retry, create_audit_log,
  enqueue, submit, confirm, send, attempt_settlement, handle_failure, finish, process_job, work,
}

-- The writes to rows, to the log and to the chain leave the queue alone.
update_row-queue :
    (a : Answers) (t : Text) (f : Row → Row) (w : World) → (update_row a t f w).queue ≡ w.queue
unfolding update_row
update_row-queue a t f w = ground (arith, Option-cases (w.rows t))

settled-queue :
    (a : Answers) (t : Text) (h : Option Text) (w : World)
    → (mark_transaction_settled a t h w).queue ≡ w.queue
unfolding mark_transaction_settled
settled-queue a t none w = update_row-queue a t _ w
settled-queue a t (some h) w = update_row-queue a t _ w

audit-queue : (a : Answers) (e : Audit) (w : World) → (create_audit_log a e w).queue ≡ w.queue
unfolding create_audit_log
audit-queue a e w = ground arith

confirm-queue :
    (job : SettlementJob) (a : Answers) (h : Text) (w : World)
    → (confirm job a h w).1.queue ≡ w.queue
unfolding confirm
confirm-queue job a h w = grind (arith, audit-queue, settled-queue)

attempt_settlement-queue :
    (config : Config) (job : SettlementJob) (a : Answers) (w : World)
    → (attempt_settlement config job a w).1.queue ≡ w.queue
unfolding attempt_settlement send submit
attempt_settlement-queue config job a w = grind (arith, confirm-queue, settled-queue)

abbrev pub retry : SettlementJob → SettlementJob
retry job = record job { attempt = job.attempt + 1 }

-- A failed attempt puts the job back with the next number, if one is left and the queue takes it.
pub handle_failure-queue :
    (config : Config) (job : SettlementJob) (a : Answers) (e : Failure) (w : World)
    → (handle_failure config job a e w).1.queue ≡ (
        if ltb job.attempt config.max_retries && a.queue_takes
        then w.queue ++ retry job ∷ []
        else w.queue)
unfolding handle_failure update_transaction_retry mark_transaction_failed enqueue
handle_failure-queue config job a e w = grind (arith, audit-queue, update_row-queue)

-- What a job leaves in the queue: what was there, and a retry at most.
pub process_job-queue :
    (config : Config) (job : SettlementJob) (a : Answers) (w : World)
    → ((process_job config job a w).1.queue ≡ w.queue)
      ⊎ ((job.attempt < config.max_retries)
          × ((process_job config job a w).1.queue ≡ w.queue ++ retry job ∷ []))
unfolding process_job
process_job-queue config job a w =
    go (attempt_settlement config job a w) (attempt_settlement-queue config job a w)
  where
    go :
        (x : Attempt × World)
        → x.1.queue ≡ w.queue
        → ((finish config job a x).1.queue ≡ w.queue)
          ⊎ ((job.attempt < config.max_retries)
              × ((finish config job a x).1.queue ≡ w.queue ++ retry job ∷ []))
    go (completed, w') e = inl e
    go (threw f, w') e = elim (Bool-cases (ltb job.attempt config.max_retries && a.queue_takes)) [
      | inl again ↦
          inr (ground arith, ground (arith, handle_failure-queue config job a f w', again, e))
      | inr over ↦ inl (ground (arith, handle_failure-queue config job a f w', over, e))
    ]

-- The rounds that a queue can still take: one for each attempt number from a job's own to the last.
abbrev pub rounds : ℕ → List SettlementJob → ℕ
rounds max [] = 0
rounds max (job ∷ q) = suc (max - job.attempt) + rounds max q

rounds-append :
    (max : ℕ) (q : List SettlementJob) (job : SettlementJob)
    → rounds max (q ++ job ∷ []) ≡ rounds max q + suc (max - job.attempt)
rounds-append max [] job = omega arith
rounds-append max (x ∷ q) job = omega (arith, rounds-append max q job)

process_job-rounds :
    (config : Config) (job : SettlementJob) (a : Answers) (w : World)
    → rounds config.max_retries (process_job config job a w).1.queue
      ≤ rounds config.max_retries w.queue + (config.max_retries - job.attempt)
process_job-rounds config job a w = elim (process_job-queue config job a w) [
  | inl same ↦ omega (arith, ap (rounds config.max_retries) same)
  | inr (left, more) ↦ omega (
    arith,
    left,
    ap (rounds config.max_retries) more,
    rounds-append config.max_retries w.queue (retry job),
  )
]

work-rounds :
    (fuel n : ℕ) (q : List SettlementJob) (config : Config) (answers : ℕ → Answers) (w : World)
    → w.queue ≡ q
    → rounds config.max_retries q ≤ fuel
    → (work fuel n config answers w).queue ≡ []
unfolding work
work-rounds zero n [] config answers w e h = e
work-rounds zero n (job ∷ q) config answers w e h = absurd (omega (arith, h))
work-rounds (suc fuel) n [] config answers w e h = grind (arith, e)
work-rounds (suc fuel) n (job ∷ q) config answers w e h =
    let after = process_job config job (answers n) (record w { queue = q }) in
    let left = process_job-rounds config job (answers n) (record w { queue = q }) in
    grind (
      arith,
      e,
      work-rounds fuel (suc n) after.1.queue config answers after.1 refl (omega (arith, h, left)),
    )

-- Whatever the chain, the wallet, the queue and the database answer, the worker has emptied its
-- queue once it has processed as many jobs as the queue can still take rounds, which for a job
-- with attempt 1 is the number of retries.
pub work-terminates :
    (fuel n : ℕ) (config : Config) (answers : ℕ → Answers) (w : World)
    → rounds config.max_retries w.queue ≤ fuel
    → (work fuel n config answers w).queue ≡ []
work-terminates fuel n config answers w h = work-rounds fuel n _ config answers w refl h
