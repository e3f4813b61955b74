-- ===== src/Treasury/Sweep/Breaker.antt =====
-- The sweep service's timer and circuit breaker, over any sequence of starts, stops and cycles.
use multisub_infra.Prelude.{
  ℕ, zero, suc, ◌+◌, ◌%◌, ◌<◌, ◌≡◌, refl, Text, Bool, true, false, Option, none, some, List, [],
  ◌∷◌, arith, leb, ltb, ◌==◌, if◌then◌else◌, Option-cases, ◌∙◌, ap,
}
use multisub_infra.Treasury.{
  User, configured, Answers, select_users, max_consecutive_failures, circuit_breaker_pause_ms,
}
use multisub_infra.Treasury.Sweep.{
  Config, SweepService, schedule_next, fire, start, stop, execute_sweep, record_sweep,
  create_audit_log, push_result, confirm_sweep, sweep_safe, sweep_user, sweep_users, complete_cycle,
  fail_cycle, run_sweep_cycle,
}

-- What the loop over the Safes leaves alone.
abbrev pub control : SweepService → Bool × (Option ℕ × ℕ)
control s = (s.running, (s.timer, s.consecutive_failures))

sweep_user-control :
    (config : Config) (a : Answers) (user : User) (s : SweepService)
    → control (sweep_user config a user s) ≡ control s
unfolding sweep_user sweep_safe confirm_sweep create_audit_log push_result record_sweep
    execute_sweep
sweep_user-control config a user s =
    ground (arith, Option-cases (configured user.m2_safe_address), Option-cases a.balance)

pub sweep_users-control :
    (config : Config) (answers : Text → Answers) (users : List User) (s : SweepService)
    → control (sweep_users config answers users s) ≡ control s
unfolding sweep_users
sweep_users-control config answers [] s = refl
sweep_users-control config answers (user ∷ users) s =
    sweep_users-control config answers users _ ∙ sweep_user-control config (answers user.id) user s

start-control :
    (s : SweepService)
    → control (start s)
      ≡ (if s.running then control s else (true, (some 0, s.consecutive_failures)))
unfolding start schedule_next
start-control s = ground arith

fail_cycle-control :
    (config : Config) (s : SweepService)
    → s.running ≡ true
    → control (fail_cycle config s) ≡ (
        if leb max_consecutive_failures (s.consecutive_failures + 1)
        then (true, (some circuit_breaker_pause_ms, 0))
        else (true, (some config.sweep_interval_ms, s.consecutive_failures + 1)))
unfolding fail_cycle schedule_next
fail_cycle-control config s e = ground (arith, e)

complete_cycle-control :
    (config : Config) (now : ℕ) (s : SweepService)
    → s.running ≡ true
    → control (complete_cycle config now s) ≡ (true, (some config.sweep_interval_ms, 0))
unfolding complete_cycle schedule_next
complete_cycle-control config now s e = ground (arith, e)

-- What a cycle leaves of the controls it finds.
abbrev pub after_cycle : Config → Option (List User) → Bool × (Option ℕ × ℕ) → Bool × (Option ℕ × ℕ)
after_cycle config users (false, rest) = (false, rest)
after_cycle config none (true, (timer, failures)) =
    if leb max_consecutive_failures (failures + 1)
    then (true, (some circuit_breaker_pause_ms, 0))
    else (true, (some config.sweep_interval_ms, failures + 1))
after_cycle config (some table) (true, rest) = (true, (some config.sweep_interval_ms, 0))

cycle-control :
    (config : Config) (now : ℕ) (users : Option (List User)) (answers : Text → Answers)
    (s : SweepService) (running : Bool)
    → s.running ≡ running
    → control (run_sweep_cycle config now users answers s)
      ≡ after_cycle config users (running, (s.timer, s.consecutive_failures))
unfolding run_sweep_cycle
cycle-control config now users answers s false e = grind (arith, e)
cycle-control config now none answers s true e =
    grind (arith, e, fail_cycle-control config (record s { results = [] }) e)
cycle-control config now (some table) answers s true e =
    let begun = record s { results = [] } in
    let swept = sweep_users config answers (select_users table) begun in
    let same = sweep_users-control config answers (select_users table) begun in
    grind (arith, e, complete_cycle-control config now swept (ap (λ c. c.0) same ∙ e))

-- A start, a stop, or a cycle with whatever the database and the chain answer.
pub data Step (config : Config) : SweepService → SweepService → Type 0 where
  started : (s : SweepService) → Step config s (start s)
  stopped : (s : SweepService) → Step config s (stop s)
  cycled :
      (now : ℕ) (users : Option (List User)) (answers : Text → Answers) (s : SweepService)
      → Step config s (run_sweep_cycle config now users answers (fire s))

pub data Steps (config : Config) : SweepService → SweepService → Type 0 where
  done : (s : SweepService) → Steps config s s
  step : (s t u : SweepService) → Step config s t → Steps config t u → Steps config s u

-- The service runs exactly when its timer is pending, and the breaker has not been reached.
abbrev pub is_armed : Bool × (Option ℕ × ℕ) → Bool
is_armed (true, (some delay, failures)) = ltb failures max_consecutive_failures
is_armed (false, (none, failures)) = ltb failures max_consecutive_failures
is_armed (_, (_, failures)) = false

armed-cases :
    (running : Bool) (timer : Option ℕ) (failures : ℕ)
    → is_armed (running, (timer, failures)) ≡ true
    → failures < max_consecutive_failures
armed-cases true (some d) f h = ground arith
armed-cases false none f h = ground arith
armed-cases true none f h = ground arith
armed-cases false (some d) f h = ground arith

start-armed :
    (running : Bool) (timer : Option ℕ) (failures : ℕ)
    → is_armed (running, (timer, failures)) ≡ true
    → is_armed (if running then (running, (timer, failures)) else (true, (some 0, failures))) ≡ true
start-armed true timer f h = h
start-armed false none f h = h
start-armed false (some d) f h = ground arith

cycle-armed :
    (config : Config) (users : Option (List User)) (running : Bool) (timer : Option ℕ)
    (failures : ℕ)
    → is_armed (running, (timer, failures)) ≡ true
    → is_armed (after_cycle config users (running, (none, failures))) ≡ true
cycle-armed config users false none f h = h
cycle-armed config users false (some d) f h = ground arith
cycle-armed config none true timer f h = ground (arith, armed-cases true timer f h)
cycle-armed config (some table) true timer f h = refl

Step-armed :
    (config : Config) (s t : SweepService)
    → Step config s t
    → is_armed (control s) ≡ true
    → is_armed (control t) ≡ true
unfolding stop fire
Step-armed config s t (started _) h =
    ap is_armed (start-control s) ∙ start-armed s.running s.timer s.consecutive_failures h
Step-armed config s t (stopped _) h =
    ground (arith, armed-cases s.running s.timer s.consecutive_failures h)
Step-armed config s t (cycled now users answers _) h =
    ap is_armed (cycle-control config now users answers (fire s) s.running refl)
    ∙ cycle-armed config users s.running s.timer s.consecutive_failures h

-- In every state that starts, stops and cycles, each of which has used up the timer that it began
-- with, lead to from one that is armed, whatever the chain and the database answer: the service
-- is running exactly when a timer is pending for its next cycle, and it has fewer than five
-- consecutive failures.
pub Steps-armed :
    (config : Config) (s t : SweepService)
    → Steps config s t
    → is_armed (control s) ≡ true
    → is_armed (control t) ≡ true
Steps-armed config s t (done _) h = h
Steps-armed config s t (step _ u _ first rest) h =
    Steps-armed config u t rest (Step-armed config s u first h)

-- n cycles in a row, none of which can read its users.
abbrev pub failing_cycles :
    Config → (ℕ → ℕ) → (ℕ → Text → Answers) → ℕ → SweepService → SweepService
failing_cycles config times answers zero s = s
failing_cycles config times answers (suc n) s =
    run_sweep_cycle config (times n) none (answers n) (failing_cycles config times answers n s)

breaker_step :
    (config : Config) (n : ℕ) (timer : Option ℕ)
    → after_cycle config none (true, (timer, n % 5)) ≡ (
      true,
      (
        some (if suc n % 5 == 0 then circuit_breaker_pause_ms else config.sweep_interval_ms),
        suc n % 5,
      ),
    )
breaker_step config n timer = ground arith

-- From a running service with no failure counted, n + 1 cycles that cannot read their users leave
-- it running with n + 1 modulo 5 failures counted; the next cycle is set after the pause of a
-- minute when n + 1 is a multiple of 5, and after the configured interval otherwise.
pub failing_cycles-control :
    (config : Config) (times : ℕ → ℕ) (answers : ℕ → Text → Answers) (n : ℕ) (s : SweepService)
    → s.running ≡ true
    → s.consecutive_failures ≡ 0
    → control (failing_cycles config times answers (suc n) s) ≡ (
      true,
      (
        some (if suc n % 5 == 0 then circuit_breaker_pause_ms else config.sweep_interval_ms),
        suc n % 5,
      ),
    )
failing_cycles-control config times answers zero s r f =
    cycle-control config (times 0) none (answers 0) s true r
    ∙ ap (λ k. after_cycle config none (true, (s.timer, k))) f
    ∙ breaker_step config 0 s.timer
failing_cycles-control config times answers (suc n) s r f =
    let before = failing_cycles config times answers (suc n) s in
    let ih = failing_cycles-control config times answers n s r f in
    cycle-control config (times (suc n)) none (answers (suc n)) before true (ap (λ c. c.0) ih)
    ∙ ap (λ k. after_cycle config none (true, (before.timer, k))) (ap (λ c. c.1.1) ih)
    ∙ breaker_step config (suc n) before.timer
