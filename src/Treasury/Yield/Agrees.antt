-- ===== src/Treasury/Yield/Agrees.antt =====
-- backend/src/services/{yield-manager,sweep-service}.ts: the sweeps of the two services, compared.
use multisub_infra.Prelude.{
  ℕ, ◌≡◌, ap, inl, inr, Text, true, Option, none, some, List, [], ◌∷◌, ◌++◌, arith, leb,
  Option-cases, Bool-cases,
}
use multisub_infra.Treasury.{User, configured, Answers, select_users}
use multisub_infra.Treasury.Sweep.{
  Config, SweepService, schedule_next, execute_sweep, record_sweep, create_audit_log, push_result,
  confirm_sweep, sweep_safe, sweep_user, sweep_users, complete_cycle, fail_cycle, run_sweep_cycle,
}
use multisub_infra.Treasury.Yield.Cycle.{
  Sweeper, schedule_sweep, record_confirmed, confirm, sweep_one, sweep_each, complete, fail,
  run_sweep,
}

-- The two services agree on what they have moved and recorded.
pub record Agrees (s : Sweeper) (t : SweepService) : Type 0 where
  pub ledger : s.ledger ≡ t.ledger
  pub transfers : s.transfers ≡ t.transfers

module _ (config : Config) (a : Answers) (user : User) where
  confirm-Agrees :
      (safe hash : Text) (amount : ℕ) (s : Sweeper) (t : SweepService)
      → Agrees s t
      → Agrees (confirm a user safe amount hash s) (confirm_sweep a user safe amount hash t)
  unfolding confirm confirm_sweep record_confirmed record_sweep create_audit_log
  confirm-Agrees safe hash amount s t h = record {
    ledger = grind (arith, h.ledger);
    transfers = grind (arith, h.transfers);
  }

  sweep_one-Agrees :
      (s : Sweeper) (t : SweepService)
      → Agrees s t
      → Agrees (sweep_one config a user s) (sweep_user config a user t)
  unfolding sweep_one sweep_user sweep_safe create_audit_log push_result execute_sweep
  sweep_one-Agrees s t h = elim (Option-cases (configured user.m2_safe_address)) [
    | inl e ↦ record {
      ledger = grind (arith, e, h.ledger);
      transfers = grind (arith, e, h.transfers);
    }
    | inr (safe, e) ↦ elim (Option-cases a.balance) [
      | inl f ↦ record {
        ledger = grind (arith, e, f, h.ledger);
        transfers = grind (arith, e, f, h.transfers);
      }
      | inr (balance, f) ↦ elim (Bool-cases (leb balance config.sweep_threshold)) [
        | inl g ↦ record {
          ledger = grind (arith, e, f, g, h.ledger);
          transfers = grind (arith, e, f, g, h.transfers);
        }
        | inr g ↦ elim (Option-cases a.sent) [
          | inl k ↦ record {
            ledger = grind (arith, e, f, g, k, h.ledger);
            transfers = grind (arith, e, f, g, k, h.transfers);
          }
          | inr (hash, k) ↦
              let s' = record s {
                transfers =
                    s.transfers
                    ++ record {
                      sent_to = safe;
                      recipient = config.m1_treasury_address;
                      amount = balance;
                    }
                      ∷ [];
              } in
              let t' = push_result user safe balance hash (execute_sweep config safe balance t) in
              let later = confirm-Agrees safe hash balance s' t' (record {
                ledger = h.ledger;
                transfers =
                    ap
                      (λ xs.
                        xs
                        ++ record {
                          sent_to = safe;
                          recipient = config.m1_treasury_address;
                          amount = balance;
                        }
                          ∷ [])
                      h.transfers;
              }) in
              record {
                ledger = grind (arith, e, f, g, k, later.ledger);
                transfers = grind (arith, e, f, g, k, later.transfers);
              }
        ]
      ]
    ]
  ]

sweep_each-Agrees :
    (config : Config) (answers : Text → Answers) (users : List User) (s : Sweeper)
    (t : SweepService)
    → Agrees s t
    → Agrees (sweep_each config answers users s) (sweep_users config answers users t)
unfolding sweep_each sweep_users
sweep_each-Agrees config answers [] s t h = h
sweep_each-Agrees config answers (user ∷ users) s t h =
    sweep_each-Agrees config answers users _ _
      (sweep_one-Agrees config (answers user.id) user s t h)

-- The two services have the same effect on the chain and on the ledger: run from the same ledger and
-- transfers, with the same users, answers, threshold and treasury, both running, their cycles leave
-- the same ledger and the same transfers.
pub run_sweep-Agrees :
    (config : Config) (now : ℕ) (users : Option (List User)) (answers : Text → Answers)
    (s : Sweeper) (t : SweepService)
    → s.running ≡ true
    → t.running ≡ true
    → Agrees s t
    → Agrees (run_sweep config now users answers s) (run_sweep_cycle config now users answers t)
unfolding run_sweep run_sweep_cycle complete fail complete_cycle fail_cycle schedule_sweep
    schedule_next
run_sweep-Agrees config now none answers s t r q h = record {
  ledger = grind (arith, r, q, h.ledger);
  transfers = grind (arith, r, q, h.transfers);
}
run_sweep-Agrees config now (some table) answers s t r q h =
    let swept =
      sweep_each-Agrees config answers (select_users table) (record s { sweep_count = 0 })
        (record t { results = [] }) (record { ledger = h.ledger; transfers = h.transfers }) in
    record {
      ledger = grind (arith, r, q, swept.ledger);
      transfers = grind (arith, r, q, swept.transfers);
    }
