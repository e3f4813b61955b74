-- ===== src/Treasury/Sweep/Ledger.antt =====
-- backend/src/services/sweep-service.ts: what a cycle sends and what it writes to the ledger.
use multisub_infra.Prelude.{
  ℕ, ◌≡◌, ◌≢◌, sym, ap, ◌∙◌, Text, Bool, true, false, Option, some, List, [], ◌∷◌, ◌++◌, arith,
  Option-cases, Bool-cases, inl, inr,
}
use mathlib.Core.Path.{subst}
use mathlib.Core.List.{append-nil, append_assoc}
use multisub_infra.Treasury.{User, LedgerEntry, Transfer, Answers, is_swept, select_users}
use multisub_infra.Treasury.Sweep.{
  Config, SweepService, schedule_next, sweep_user, sweep_users, complete_cycle, run_sweep_cycle,
}
use multisub_infra.Treasury.Sweep.Due.{
  sweep_of, row_of, Swept, ended, passed, unconfirmed, confirmed, books, is_swept-due, due,
  sent_books, sweep_user-cases,
}

-- What a run adds to the books of the service.
abbrev pub Adds : Config → (Text → Answers) → List User → SweepService → SweepService → Type 0
Adds config answers users s s' =
    (ts : List Transfer) × (es : List LedgerEntry) × (books s'
      ≡ (s.transfers ++ ts, s.ledger ++ es))
    × Swept config answers users ts es

-- What is added behind what was added.
pub prepend :
    (x y : List Transfer) (z w : List LedgerEntry) (ts : List Transfer) (es : List LedgerEntry)
    (b : List Transfer × List LedgerEntry)
    → b ≡ ((x ++ y) ++ ts, (z ++ w) ++ es)
    → b ≡ (x ++ (y ++ ts), z ++ (w ++ es))
prepend x y z w ts es b e =
    e
    ∙ ap (λ l. (l, (z ++ w) ++ es)) (append_assoc x y ts)
    ∙ ap (λ l. (x ++ (y ++ ts), l)) (append_assoc z w es)

module _ (config : Config) (answers : Text → Answers)
    (takes : (id : Text) → (answers id).ledger_takes ≡ true) where
  -- A selected user in front of what the rest adds.
  selected-Adds :
      (user : User) (users : List User) (s s' : SweepService)
      → is_swept user ≡ true
      → Adds config answers users (sweep_user config (answers user.id) user s) s'
      → Adds config answers (user ∷ users) s s'
  selected-Adds user users s s' h (ts, es, e, rest) =
      let a = answers user.id in
      let after = sweep_user config a user s in
      elim (sweep_user-cases config a user s (takes user.id) h) [
        | inl (same, idle) ↦ (
          ts,
          es,
          e ∙ ap (λ (b : List Transfer × List LedgerEntry). (b.0 ++ ts, b.1 ++ es)) same,
          passed user users ts es idle rest,
        )
        | inr (safe, balance, hash, f, g, k, l) ↦
            let is_due = due config a user s (takes user.id) h safe balance hash f g k l in
            let sent = sent_books config a user s (takes user.id) h safe balance hash f g k l in
            let front = sweep_of config safe balance ∷ [] in
            elim (Bool-cases (elim a.receipt [ some true ↦ true | _ ↦ false ])) [
              | inl yes_ ↦
                  let done_ : a.receipt ≡ some true = grind (arith, yes_, Option-cases a.receipt) in
                  (
                    front ++ ts,
                    (row_of user balance hash ∷ []) ++ es,
                    prepend s.transfers front s.ledger (row_of user balance hash ∷ []) ts es _ (
                        e
                        ∙ ap (λ (b : List Transfer × List LedgerEntry). (b.0 ++ ts, b.1 ++ es))
                            (sent
                              ∙ ap
                                  (λ (o : Option Bool). (
                                    s.transfers ++ front,
                                    s.ledger ++ elim o [
                                      | some true ↦ row_of user balance hash ∷ []
                                      | _ ↦ []
                                    ],
                                  ))
                                  done_)),
                    confirmed user users ts es safe balance hash is_due done_ rest,
                  )
              | inr no_ ↦
                  let open_ : a.receipt ≢ some true = λ r. absurd (grind (arith, no_, r)) in
                  let none_ : elim a.receipt [ some true ↦ row_of user balance hash ∷ [] | _ ↦ [] ]
                      ≡ [] =
                    grind (arith, no_, Option-cases a.receipt) in
                  (
                    front ++ ts,
                    es,
                    prepend s.transfers front s.ledger [] ts es _ (
                        e
                        ∙ ap (λ (b : List Transfer × List LedgerEntry). (b.0 ++ ts, b.1 ++ es))
                            (sent
                              ∙ ap (λ (l : List LedgerEntry). (s.transfers ++ front, s.ledger ++ l))
                                  none_)),
                    unconfirmed user users ts es safe balance hash is_due open_ rest,
                  )
            ]
      ]

  sweep_users-Adds :
      (table : List User) (s : SweepService)
      → Adds config answers table s (sweep_users config answers (select_users table) s)
  unfolding sweep_users
  sweep_users-Adds [] s = (
    [],
    [],
    ap (λ l. (l, s.ledger)) (sym (append-nil s.transfers))
        ∙ ap (λ l. (s.transfers ++ [], l)) (sym (append-nil s.ledger)),
    ended,
  )
  sweep_users-Adds (user ∷ users) s = elim (Bool-cases (is_swept user)) [
    | inl h ↦
        subst
          (λ (l : List User). Adds config answers (user ∷ users) s (sweep_users config answers l s))
          {x = user ∷ select_users users} {y = select_users (user ∷ users)} (grind (arith, h))
          (selected-Adds user users s
            (sweep_users config answers (select_users users)
              (sweep_user config (answers user.id) user s))
            h (sweep_users-Adds users (sweep_user config (answers user.id) user s)))
    | inr h ↦
        let (ts, es, e, rest) = sweep_users-Adds users s in
        subst
          (λ (l : List User). Adds config answers (user ∷ users) s (sweep_users config answers l s))
          {x = select_users users} {y = select_users (user ∷ users)} (grind (arith, h))
          (
            ts,
            es,
            e,
            passed user users ts es
                (λ safe balance hash k. absurd (
                  grind (arith, h, is_swept-due config (answers user.id) user safe balance hash k)))
                rest,
          )
  ]

complete_cycle-books :
    (config : Config) (now : ℕ) (s : SweepService) → books (complete_cycle config now s) ≡ books s
unfolding complete_cycle schedule_next
complete_cycle-books config now s = ground arith

-- If the database takes the ledger's rows, a cycle of a running service that reads its users sends, for
-- each active user of an active Model A tenant, in the order of the table, whose Safe holds more
-- than the threshold and whose call is answered with a hash, one transaction to that Safe that
-- carries a transfer of its whole balance to the treasury, and no other; and it records, for each of
-- these whose receipt is a success, one row of that user, of that amount and with that hash, and no
-- other, whatever else fails or reverts on the way.
pub run_sweep_cycle-ledger :
    (config : Config) (now : ℕ) (table : List User) (answers : Text → Answers) (s : SweepService)
    → s.running ≡ true
    → ((id : Text) → (answers id).ledger_takes ≡ true)
    → Adds config answers table s (run_sweep_cycle config now (some table) answers s)
unfolding run_sweep_cycle
run_sweep_cycle-ledger config now table answers s r h =
    let begun = record s { results = [] } in
    let swept = sweep_users config answers (select_users table) begun in
    let (ts, es, e, rest) = sweep_users-Adds config answers h table begun in
    (ts, es, grind (arith, r, complete_cycle-books config now swept) ∙ e, rest)
