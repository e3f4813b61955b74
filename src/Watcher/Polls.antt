-- ===== src/Watcher/Polls.antt =====
-- backend/src/services/watcher.ts, poll: the rows that a sequence of polls writes.
use multisub_infra.Prelude.{
  ℕ, ◌+◌, ◌≤◌, ◌<◌, ◌≡◌, sym, Text, true, Option, none, some, List, [], ◌∷◌, ◌++◌, map, arith,
  includes, lower, Bool-cases, inl, inr, ◌⊎◌, All, text_eq, text_eq_iff,
}
use mathlib.Core.Path.{subst}
use mathlib.Core.List.{append-nil}
use multisub_infra.Watcher.{
  Config, Deposit, SpendSettled, User, DepositEntry, Watcher, Answers, select_deposits, entry_of,
  polls,
}
use multisub_infra.Watcher.Scan.{entries, IsRecorded, processed, IsCaughtUp, polls-IsCaughtUp}

-- The recipient is a Safe of the list, in whatever case the two are spelled.
abbrev pub IsKnown : List Text → Deposit → Type 0
IsKnown [] d = ⊥
IsKnown (safe ∷ safes) d = (lower safe ≡ lower d.to) ⊎ IsKnown safes d

-- The rows for the logs of some blocks: one for each deposit to a known Safe, and none for another.
pub data Recorded (safes : List Text) (owner : Deposit → User)
    : List Deposit → List DepositEntry → Type 0 where
  ended : Recorded safes owner [] []
  credited :
      (d : Deposit) (ds : List Deposit) (es : List DepositEntry)
      → IsKnown safes d
      → Recorded safes owner ds es
      → Recorded safes owner (d ∷ ds) (entry_of (owner d) d ∷ es)
  passed :
      (d : Deposit) (ds : List Deposit) (es : List DepositEntry)
      → ¬ IsKnown safes d
      → Recorded safes owner ds es
      → Recorded safes owner (d ∷ ds) es

includes-IsKnown :
    (safes : List Text) (d : Deposit)
    → includes (map lower safes) (lower d.to) ≡ true
    → IsKnown safes d
unfolding includes
includes-IsKnown [] d h = absurd (ground (arith, h))
includes-IsKnown (safe ∷ safes) d h = elim (Bool-cases (text_eq (lower safe) (lower d.to))) [
  | inl e ↦ inl ((text_eq_iff (lower safe) (lower d.to)).0 e)
  | inr e ↦ inr (includes-IsKnown safes d (ground (arith, h, e)))
]

IsKnown-includes :
    (safes : List Text) (d : Deposit)
    → IsKnown safes d
    → includes (map lower safes) (lower d.to) ≡ true
unfolding includes
IsKnown-includes [] d k = absurd k
IsKnown-includes (safe ∷ safes) d (inl e) =
    ground (arith, (text_eq_iff (lower safe) (lower d.to)).1 e)
IsKnown-includes (safe ∷ safes) d (inr k) = ground (arith, IsKnown-includes safes d k)

select_deposits-Recorded :
    (safes : List Text) (owner : Deposit → User) (ds : List Deposit)
    → Recorded safes owner ds (entries owner (select_deposits safes ds))
unfolding select_deposits
select_deposits-Recorded safes owner [] = ended
select_deposits-Recorded safes owner (d ∷ ds) =
    let rest = select_deposits-Recorded safes owner ds in
    elim (Bool-cases (includes (map lower safes) (lower d.to))) [
      | inl known ↦
          subst (λ (l : List Deposit). Recorded safes owner (d ∷ ds) (entries owner l))
            {x = d ∷ select_deposits safes ds} (grind (arith, known))
            (credited d ds _ (includes-IsKnown safes d known) rest)
      | inr other ↦
          subst (λ (l : List Deposit). Recorded safes owner (d ∷ ds) (entries owner l))
            {x = select_deposits safes ds} (grind (arith, other))
            (passed d ds _ (λ k. absurd (grind (arith, other, IsKnown-includes safes d k))) rest)
    ]

-- The logs of the blocks from the first to the last one processed.
abbrev pub logs_until : (ℕ → ℕ → List Deposit) → Config → Option ℕ → List Deposit
logs_until logs config none = []
logs_until logs config (some block) = logs config.watcher_start_block block

processed-Recorded :
    (logs : ℕ → ℕ → List Deposit) (settled_logs : ℕ → ℕ → List SpendSettled) (config : Config)
    (safes : List Text) (owner : Deposit → User) (meta : Option ℕ)
    → Recorded safes owner
        (logs_until logs config meta)
        (processed logs settled_logs config safes owner meta)
processed-Recorded logs settled_logs config safes owner none = ended
processed-Recorded logs settled_logs config safes owner (some block) =
    select_deposits-Recorded safes owner (logs config.watcher_start_block block)

-- For a chain whose logs of a range of blocks are those of its two parts, and a database that knows
-- the owner of each deposit's Safe, gives the same Safes whenever it gives them and takes every row
-- of the ledger and of the last block: from a watcher that has processed no block, after any polls,
-- whatever heads they see and whichever reads of the chain, of the Safes or of the last block
-- fail, the ledger has gained, in the order of the logs of the blocks from the first to the last one
-- processed, one row for each deposit to a known Safe, and no other row.
pub polls-ledger :
    (logs : ℕ → ℕ → List Deposit) (settled_logs : ℕ → ℕ → List SpendSettled) (config : Config)
    (safes : List Text) (owner : Deposit → User) (answers : List Answers) (w : Watcher)
    → ((a b c : ℕ) → a ≤ b → b < c → logs a c ≡ logs a b ++ logs (b + 1) c)
    → All (IsRecorded safes owner) answers
    → w.meta ≡ none
    → let w' = polls logs settled_logs config answers w in
      (new : List DepositEntry) × (w'.ledger ≡ w.ledger ++ new)
      × Recorded safes owner (logs_until logs config w'.meta) new
unfolding IsCaughtUp
polls-ledger logs settled_logs config safes owner answers w split h fresh =
    let begun : IsCaughtUp logs settled_logs config safes owner w.ledger (none, w.ledger) =
      (sym (append-nil w.ledger), tt) in
    let caught = polls-IsCaughtUp logs settled_logs config safes owner split w.ledger answers w h (
      subst (λ meta. IsCaughtUp logs settled_logs config safes owner w.ledger (meta, w.ledger))
        (sym fresh) begun) in
    (_, caught.0, processed-Recorded logs settled_logs config safes owner _)
