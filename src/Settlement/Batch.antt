-- ===== src/Settlement/Batch.antt =====
-- backend/src/services/settlement-service.ts: processQueue, which processes the waiting jobs by hand.
use multisub_infra.Prelude.{
  ℕ, suc, ◌<◌, ◌≤◌, ◌≡◌, refl, sym, ap, ◌∙◌, inl, inr, Bool, true, false, List, [], ◌∷◌, ◌++◌, ◌&&◌,
  ◌==◌, arith, All, All-snoc, if◌then◌else◌, text_eq, text_eq_refl, length, length-append,
}
use mathlib.Core.Path.{subst}
use mathlib.Core.List.{append_assoc, append-nil}
use multisub_infra.Types.{SettlementJob}
use multisub_infra.Settlement.{
  Config, World, Answers, Attempt, completed, threw, process_job, attempt_settlement,
  handle_failure, finish,
}
use multisub_infra.Settlement.Worker.{retry, process_job-queue}

-- Jobs of one id, which is made of the token and the attempt.
abbrev pub same_job : SettlementJob → SettlementJob → Bool
same_job j k = text_eq j.lithic_tx_token k.lithic_tx_token && j.attempt == k.attempt

-- `job.remove()`
abbrev pub remove : SettlementJob → List SettlementJob → List SettlementJob
remove job [] = []
remove job (j ∷ js) = let rest = j ∷ remove job js in if same_job j job then js else rest

abbrev remove_done : SettlementJob → Bool × World → World
remove_done job (true, w) = record w { queue = remove job w.queue }
remove_done job (false, w) = w

-- A job that throws stays in the queue. The n-th job is given the n-th answers.
unfoldable pub process_waiting : Config → (ℕ → Answers) → ℕ → List SettlementJob → World → World
process_waiting config answers n [] w = w
process_waiting config answers n (job ∷ jobs) w =
    process_waiting config answers (suc n) jobs
      (remove_done job (process_job config job (answers n) w))

-- The jobs that wait when it begins.
unfoldable pub process_queue : Config → (ℕ → Answers) → World → World
unfolding process_waiting
process_queue config answers w = process_waiting config answers 0 w.queue w

handle_failure-done :
    (config : Config) (job : SettlementJob) (a : Answers) (x : Attempt × World)
    → a.queue_takes ≡ true
    → (finish config job a x).0 ≡ true
unfolding handle_failure
handle_failure-done config job a (completed, w) h = refl
handle_failure-done config job a (threw e, w) h = grind (arith, h)

process_job-done :
    (config : Config) (job : SettlementJob) (a : Answers) (w : World)
    → a.queue_takes ≡ true
    → (process_job config job a w).0 ≡ true
unfolding process_job
process_job-done config job a w h =
    handle_failure-done config job a (attempt_settlement config job a w) h

removed :
    (job : SettlementJob) (x : Bool × World)
    → x.0 ≡ true
    → (remove_done job x).queue ≡ remove job x.1.queue
removed job (true, w) e = refl
removed job (false, w) e = absurd (ground (arith, e))

remove-first : (job : SettlementJob) (q : List SettlementJob) → remove job (job ∷ q) ≡ q
remove-first job q = ground (arith, text_eq_refl job.lithic_tx_token)

-- A retry of one of the jobs, which had attempts left.
abbrev pub IsRetryOf : Config → List SettlementJob → SettlementJob → Type 0
IsRetryOf config js k =
    (j : SettlementJob) × (front : List SettlementJob) × (back : List SettlementJob) × (js
      ≡ front ++ j ∷ back)
    × (j.attempt < config.max_retries)
    × (k ≡ retry j)

module _ (config : Config) (answers : ℕ → Answers)
    (takes : (n : ℕ) → (answers n).queue_takes ≡ true) (all : List SettlementJob) where
  -- The queue holds the jobs still to be processed, then retries, no more than jobs processed.
  pub record IsUnderway (front js : List SettlementJob) (w : World) : Type 0 where
    pub retries : List SettlementJob
    pub queue : w.queue ≡ js ++ retries
    pub are_retries : All (IsRetryOf config all) retries
    pub few : length retries ≤ length front
    pub whole : all ≡ front ++ js

  step_done :
      (n : ℕ) (job : SettlementJob) (q : List SettlementJob) (w : World)
      → (process_job config job (answers n) w).1.queue ≡ job ∷ q
      → (remove_done job (process_job config job (answers n) w)).queue ≡ q
  step_done n job q w e =
      removed job (process_job config job (answers n) w)
        (process_job-done config job (answers n) w (takes n))
      ∙ ap (remove job) e
      ∙ remove-first job q

  step-IsUnderway :
      (n : ℕ) (front js : List SettlementJob) (job : SettlementJob) (w : World)
      → IsUnderway front (job ∷ js) w
      → IsUnderway (front ++ job ∷ []) js (remove_done job (process_job config job (answers n) w))
  step-IsUnderway n front js job w h = elim (process_job-queue config job (answers n) w) [
    | inl same ↦ record {
      retries = h.retries;
      queue = step_done n job (js ++ h.retries) w (same ∙ h.queue);
      are_retries = h.are_retries;
      few = omega (arith, h.few, length-append front (job ∷ []));
      whole = h.whole ∙ sym (append_assoc front (job ∷ []) js);
    }
    | inr (left, more) ↦ record {
      retries = h.retries ++ retry job ∷ [];
      queue = step_done n job (js ++ (h.retries ++ retry job ∷ [])) w (
          more
          ∙ ap (λ q. q ++ retry job ∷ []) h.queue
          ∙ append_assoc (job ∷ js) h.retries (retry job ∷ []));
      are_retries =
          All-snoc (IsRetryOf config all) h.retries (retry job) h.are_retries
            (job, front, js, h.whole, left, refl);
      few =
          omega (
            arith,
            h.few,
            length-append front (job ∷ []),
            length-append h.retries (retry job ∷ []),
          );
      whole = h.whole ∙ sym (append_assoc front (job ∷ []) js);
    }
  ]

  process_waiting-IsUnderway :
      (n : ℕ) (front js : List SettlementJob) (w : World)
      → IsUnderway front js w
      → IsUnderway all [] (process_waiting config answers n js w)
  unfolding process_waiting
  process_waiting-IsUnderway n front [] w h =
      subst (λ f. IsUnderway f [] w) (sym (h.whole ∙ append-nil front)) h
  process_waiting-IsUnderway n front (job ∷ js) w h =
      process_waiting-IsUnderway (suc n) (front ++ job ∷ []) js _
        (step-IsUnderway n front js job w h)

-- With no worker beside it and a queue that takes every retry, whatever the chain, the wallet and the
-- database answer: processQueue leaves a queue that holds no more jobs than were waiting, and each of
-- them is the retry of one of these that had attempts left.
pub process_queue-retries :
    (config : Config) (answers : ℕ → Answers) (w : World)
    → ((n : ℕ) → (answers n).queue_takes ≡ true)
    → All (IsRetryOf config w.queue) (process_queue config answers w).queue
      × (length (process_queue config answers w).queue ≤ length w.queue)
unfolding process_queue
process_queue-retries config answers w takes =
    let h = process_waiting-IsUnderway config answers takes w.queue 0 [] w.queue w (record {
      retries = [];
      queue = sym (append-nil w.queue);
      are_retries = tt;
      few = omega arith;
      whole = refl;
    }) in
    (
      subst (All (IsRetryOf config w.queue)) (sym h.queue) h.are_retries,
      omega (arith, ap length h.queue, h.few),
    )
