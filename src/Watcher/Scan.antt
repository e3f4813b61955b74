-- ===== src/Watcher/Scan.antt =====
-- backend/src/services/watcher.ts: what a scan of blocks leaves in the rows of the watcher.
use multisub_infra.Prelude.{
  ℕ, ◌+◌, ◌-◌, ◌≤◌, ◌<◌, ◌≡◌, refl, sym, ap, ◌∙◌, Text, true, Option, none, some, List, [], ◌∷◌,
  ◌++◌, map, arith, ltb, includes, lower, Option-cases, Bool-cases, inl, inr, ◌⊎◌, All,
}
use mathlib.Core.Path.{subst}
use mathlib.Core.List.{append_assoc, append-nil}
use multisub_infra.Watcher.{
  Config, Deposit, SpendSettled, User, DepositEntry, Watcher, Answers, schedule_next_poll,
  next_block, select_deposits, persist_spend_settled, persist_all, entry_of, credit_deposit,
  handle_deposit, handle_all, fail_poll, complete_poll, scan, poll_to, poll, polls,
  confirmation_buffer,
}

-- The rows of the last block and of the ledger.
abbrev pub books : Watcher → Option ℕ × List DepositEntry
books w = (w.meta, w.ledger)

abbrev pub entries : (Deposit → User) → List Deposit → List DepositEntry
entries owner [] = []
entries owner (d ∷ ds) = entry_of (owner d) d ∷ entries owner ds

entries-append :
    (owner : Deposit → User) (xs ys : List Deposit)
    → entries owner (xs ++ ys) ≡ entries owner xs ++ entries owner ys
entries-append owner [] ys = refl
entries-append owner (x ∷ xs) ys = ap (λ es. entry_of (owner x) x ∷ es) (entries-append owner xs ys)

select_deposits-append :
    (safes : List Text) (xs ys : List Deposit)
    → select_deposits safes (xs ++ ys) ≡ select_deposits safes xs ++ select_deposits safes ys
unfolding select_deposits
select_deposits-append safes [] ys = refl
select_deposits-append safes (x ∷ xs) ys =
    elim (Bool-cases (includes (map lower safes) (lower x.to))) [
      | inl known ↦ grind (arith, known, select_deposits-append safes xs ys)
      | inr other ↦ grind (arith, other, select_deposits-append safes xs ys)
    ]

persist_all-books :
    (a : Answers) (es : List SpendSettled) (w : Watcher) → books (persist_all a es w) ≡ books w
unfolding persist_all persist_spend_settled
persist_all-books a [] w = refl
persist_all-books a (e ∷ es) w =
    persist_all-books a es _ ∙ ground (arith, Option-cases (w.settled_events e.lithic_tx_token))

fail_poll-books : (config : Config) (w : Watcher) → books (fail_poll config w) ≡ books w
unfolding fail_poll schedule_next_poll
fail_poll-books config w = ground arith

-- The database answers and takes what a poll asks of it, and knows the owners of the same Safes;
-- the chain's head, the reads of logs and of the last block, and Redis may fail or vary.
pub record IsRecorded (safes : List Text) (owner : Deposit → User) (a : Answers) : Type 0 where
  pub user : (d : Deposit) → a.user d ≡ some (some (owner d))
  pub ledger_takes : (d : Deposit) → a.ledger_takes d ≡ true
  pub meta_takes : a.meta_takes ≡ true
  pub same_safes : (found : List Text) → a.safes ≡ some found → found ≡ safes

handle_deposit-credits :
    (a : Answers) (user : User) (d : Deposit) (w : Watcher)
    → a.user d ≡ some (some user)
    → a.ledger_takes d ≡ true
    → handle_deposit a d w ≡ credit_deposit a user d w
unfolding handle_deposit
handle_deposit-credits a user d w e h = grind (arith, e, h)

handle_all-books :
    (safes : List Text) (owner : Deposit → User) (a : Answers) (ds : List Deposit) (w : Watcher)
    → IsRecorded safes owner a
    → books (handle_all a ds w) ≡ (w.meta, w.ledger ++ entries owner ds)
unfolding handle_all credit_deposit
handle_all-books safes owner a [] w h = ap (λ l. (w.meta, l)) (sym (append-nil w.ledger))
handle_all-books safes owner a (d ∷ ds) w h =
    ap (λ v. books (handle_all a ds v))
      (handle_deposit-credits a (owner d) d w (h.user d) (h.ledger_takes d))
    ∙ handle_all-books safes owner a ds (credit_deposit a (owner d) d w) h
    ∙ ap (λ l. (w.meta, l)) (append_assoc w.ledger (entry_of (owner d) d ∷ []) (entries owner ds))

complete_poll-books :
    (config : Config) (a : Answers) (block : ℕ) (w : Watcher)
    → a.meta_takes ≡ true
    → books (complete_poll config a block w) ≡ (some block, w.ledger)
unfolding complete_poll schedule_next_poll
complete_poll-books config a block w h = ground (arith, h)

module _ (logs : ℕ → ℕ → List Deposit) (settled_logs : ℕ → ℕ → List SpendSettled) (config : Config)
    (safes : List Text) (owner : Deposit → User) where
  abbrev pub deposits_in : ℕ → ℕ → List DepositEntry
  deposits_in from block = entries owner (select_deposits safes (logs from block))

  scan-books :
      (a : Answers) (block : ℕ) (w : Watcher)
      → IsRecorded safes owner a
      → books (scan logs settled_logs config a block safes w)
        ≡ (some block, w.ledger ++ deposits_in (next_block config w) block)
  unfolding scan
  scan-books a block w h =
      let from = next_block config w in
      let persisted = persist_all a (settled_logs from block) w in
      let ds = select_deposits safes (logs from block) in
      complete_poll-books config a block (handle_all a ds persisted) h.meta_takes
      ∙ ap (λ b. (some block, b.1)) (handle_all-books safes owner a ds persisted h)
      ∙ ap (λ b. (some block, b.1 ++ entries owner ds))
          (persist_all-books a (settled_logs from block) w)

  -- A poll leaves the books alone, or it scans from the next block to a later one.
  Polled : Watcher → Watcher → Type 0
  Polled w w' =
      (books w' ≡ books w)
      ⊎ ((block : ℕ) × (next_block config w ≤ block)
          × (books w' ≡ (some block, w.ledger ++ deposits_in (next_block config w) block)))

  poll_to-Polled :
      (a : Answers) (block : ℕ) (w : Watcher)
      → IsRecorded safes owner a
      → Polled w (poll_to logs settled_logs config a block w)
  unfolding poll_to Polled schedule_next_poll
  poll_to-Polled a block w h = elim (Bool-cases a.meta_answers) [
    | inr lost ↦ inl (rw lost (fail_poll-books config w))
    | inl read ↦ elim (Bool-cases (ltb block (next_block config w))) [
      | inl done ↦ inl (ground (arith, read, done))
      | inr new ↦ elim (Option-cases a.safes) [
        | inl gone ↦ inl (rw (read, new, gone) (fail_poll-books config w))
        | inr (found, e) ↦ inr (
          block,
          ground (arith, new),
          rw (read, new, e, h.same_safes found e) (scan-books a block w h),
        )
      ]
    ]
  ]

  poll-Polled :
      (a : Answers) (w : Watcher)
      → IsRecorded safes owner a
      → Polled w (poll logs settled_logs config a w)
  unfolding poll schedule_next_poll Polled next_block
  poll-Polled a w h = elim (Bool-cases w.running) [
    | inr off ↦ inl (rw off refl)
    | inl on ↦ elim (Option-cases a.head) [
      | inl gone ↦ inl (rw (on, gone) (fail_poll-books config w))
      | inr (head, e) ↦ elim (Bool-cases (ltb head confirmation_buffer)) [
        | inl young ↦ inl (ground (arith, on, e, young))
        | inr old ↦ rw (on, e, old) (poll_to-Polled a (head - confirmation_buffer) w h)
      ]
    ]
  ]

  -- The deposits of the blocks from the first to the last one processed.
  abbrev pub processed : Option ℕ → List DepositEntry
  processed none = []
  processed (some block) = deposits_in config.watcher_start_block block

  abbrev pub IsBehind : Option ℕ → Type 0
  IsBehind none = Unit
  IsBehind (some block) = config.watcher_start_block ≤ block

  unfoldable pub IsCaughtUp : List DepositEntry → Option ℕ × List DepositEntry → Type 0
  IsCaughtUp before (meta, ledger) = (ledger ≡ before ++ processed meta) × IsBehind meta

  abbrev next_from : Option ℕ → ℕ
  next_from none = config.watcher_start_block
  next_from (some block) = block + 1

  deposits_in-append :
      (a b c : ℕ)
      → logs a c ≡ logs a b ++ logs (b + 1) c
      → deposits_in a c ≡ deposits_in a b ++ deposits_in (b + 1) c
  deposits_in-append a b c e =
      ap (λ l. entries owner (select_deposits safes l)) e
      ∙ ap (entries owner) (select_deposits-append safes (logs a b) (logs (b + 1) c))
      ∙ entries-append owner _ _

  module _ (split : (a b c : ℕ) → a ≤ b → b < c → logs a c ≡ logs a b ++ logs (b + 1) c) where
    catch_up :
        (before ledger : List DepositEntry) (meta : Option ℕ) (block : ℕ)
        → IsCaughtUp before (meta, ledger)
        → next_from meta ≤ block
        → IsCaughtUp before (some block, ledger ++ deposits_in (next_from meta) block)
    unfolding IsCaughtUp
    catch_up before ledger none block (l, b) le =
        (ap (λ x. x ++ deposits_in config.watcher_start_block block) (l ∙ append-nil before), le)
    catch_up before ledger (some last) block (l, b) le = (
      ap (λ x. x ++ deposits_in (last + 1) block) l
          ∙ append_assoc before (deposits_in config.watcher_start_block last)
              (deposits_in (last + 1) block)
          ∙ ap (λ x. before ++ x)
              (sym (
                deposits_in-append config.watcher_start_block last block
                  (split config.watcher_start_block last block b (omega (arith, le))))),
      omega (arith, b, le),
    )

    next_block-next_from : (w : Watcher) → next_block config w ≡ next_from w.meta
    unfolding next_block
    next_block-next_from w = ground (arith, Option-cases w.meta)

    Polled-IsCaughtUp :
        (before : List DepositEntry) (w w' : Watcher)
        → Polled w w'
        → IsCaughtUp before (books w)
        → IsCaughtUp before (books w')
    unfolding Polled
    Polled-IsCaughtUp before w w' (inl same) c = subst (IsCaughtUp before) (sym same) c
    Polled-IsCaughtUp before w w' (inr (block, le, new)) c =
        subst (IsCaughtUp before)
          (sym (
            new
            ∙ ap (λ from. (some block, w.ledger ++ deposits_in from block))
                (next_block-next_from w)))
          (catch_up before w.ledger w.meta block c (omega (arith, le, next_block-next_from w)))

    pub polls-IsCaughtUp :
        (before : List DepositEntry) (answers : List Answers) (w : Watcher)
        → All (IsRecorded safes owner) answers
        → IsCaughtUp before (books w)
        → IsCaughtUp before (books (polls logs settled_logs config answers w))
    unfolding polls
    polls-IsCaughtUp before [] w h c = c
    polls-IsCaughtUp before (a ∷ rest) w h c =
        polls-IsCaughtUp before rest (poll logs settled_logs config a w) h.1
          (Polled-IsCaughtUp before w _ (poll-Polled a w h.0) c)
