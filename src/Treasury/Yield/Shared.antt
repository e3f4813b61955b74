-- ===== src/Treasury/Yield/Shared.antt =====
-- backend/src/services/yield-manager.ts: what one snapshot sends and credits.
use multisub_infra.Prelude.{
  ℕ, ◌+◌, ◌*◌, ◌/◌, ◌≤◌, ◌<◌, ◌≡◌, ◌≢◌, Text, Bool, true, false, Option, none, some, List, [], ◌∷◌,
  ◌++◌, arith, Option-cases, inl, inr,
}
use mathlib.Core.List.{append-nil, append_assoc}
use multisub_infra.Decimal.{to_string, big_int}
use multisub_infra.Treasury.{yield, LedgerEntry, Transfer}
use multisub_infra.Treasury.Yield.{
  SnapshotResult, AllocationResult, YieldManager, Answers, create_audit_log,
  allocation_platform_bps, allocation_tenant_bps,
}
use multisub_infra.Treasury.Yield.Allocate.{
  allocation, finish_allocation, record_allocation, allocate_snapshot,
}

-- So many tenths of a total, rounded down.
abbrev pub IsTenths : ℕ → ℕ → ℕ → Type 0
IsTenths tenths total n = (10 * n ≤ tenths * total) × (tenths * total < 10 * n + 10)

-- The yield of a snapshot is at least a dollar, and the transaction for the platform's 30% was sent.
pub record IsDue (a : Answers) (x : SnapshotResult) (platform : ℕ) (hash : Text) : Type 0 where
  pub worth : 1000000 ≤ big_int x.total_yield
  pub share : IsTenths 3 (big_int x.total_yield) platform
  pub sent : a.sent ≡ some hash

abbrev pub share_of : Text → Text → ℕ → Transfer
share_of issuer treasury platform = record {
  sent_to = treasury;
  recipient = issuer;
  amount = platform;
}

abbrev pub row_of : SnapshotResult → Text → ℕ → Text → LedgerEntry
row_of x user amount hash = record {
  tenant_id = x.tenant_id;
  user_id = user;
  type = yield;
  amount = to_string amount;
  reference = hash;
}

-- What snapshots lead to: for each that is due one transaction over 30% of its yield, and for each of
-- these that is confirmed, where the tenant has an active user, one row over 60% and one over 30%.
pub data Shared (issuer treasury : Text) (answers : Text → Answers)
    : List SnapshotResult → List Transfer → List LedgerEntry → Type 0 where
  ended : Shared issuer treasury answers [] [] []
  passed :
      (x : SnapshotResult) (xs : List SnapshotResult) (ts : List Transfer) (es : List LedgerEntry)
      → ((platform : ℕ) (hash : Text) → ¬ IsDue (answers x.tenant_id) x platform hash)
      → Shared issuer treasury answers xs ts es
      → Shared issuer treasury answers (x ∷ xs) ts es
  unconfirmed :
      (x : SnapshotResult) (xs : List SnapshotResult) (ts : List Transfer) (es : List LedgerEntry)
      (platform : ℕ) (hash : Text)
      → IsDue (answers x.tenant_id) x platform hash
      → (answers x.tenant_id).receipt ≢ some true
      → Shared issuer treasury answers xs ts es
      → Shared issuer treasury answers (x ∷ xs) (share_of issuer treasury platform ∷ ts) es
  unowned :
      (x : SnapshotResult) (xs : List SnapshotResult) (ts : List Transfer) (es : List LedgerEntry)
      (platform : ℕ) (hash : Text)
      → IsDue (answers x.tenant_id) x platform hash
      → (answers x.tenant_id).tenant_user ≡ some none
      → Shared issuer treasury answers xs ts es
      → Shared issuer treasury answers (x ∷ xs) (share_of issuer treasury platform ∷ ts) es
  credited :
      (x : SnapshotResult) (xs : List SnapshotResult) (ts : List Transfer) (es : List LedgerEntry)
      (platform tenant : ℕ) (hash user : Text)
      → IsDue (answers x.tenant_id) x platform hash
      → IsTenths 6 (big_int x.total_yield) tenant
      → (answers x.tenant_id).receipt ≡ some true
      → (answers x.tenant_id).tenant_user ≡ some (some user)
      → Shared issuer treasury answers xs ts es
      → Shared issuer treasury answers
          (x ∷ xs)
          (share_of issuer treasury platform ∷ ts)
          (row_of x user tenant hash ∷ row_of x user platform hash ∷ es)

abbrev pub books : YieldManager → List Transfer × List LedgerEntry
books m = (m.transfers, m.ledger)

-- The database answers the query for a user and takes the two rows.
pub record IsRecorded (a : Answers) : Type 0 where
  pub users_known : a.tenant_user ≢ none
  pub tenant_row : a.first_takes ≡ true
  pub platform_row : a.second_takes ≡ true

abbrev pub platform_of : SnapshotResult → ℕ
platform_of x = big_int x.total_yield * allocation_platform_bps / 10000

abbrev pub tenant_of : SnapshotResult → ℕ
tenant_of x = big_int x.total_yield * allocation_tenant_bps / 10000

module _ (issuer treasury : Text) (a : Answers) (x : SnapshotResult) (m : YieldManager)
    (recorded : IsRecorded a) where
  -- The rows of a confirmed transaction.
  abbrev pub rows : Text → Option (Option Text) → List LedgerEntry
  rows hash (some (some user)) =
      row_of x user (tenant_of x) hash ∷ row_of x user (platform_of x) hash ∷ []
  rows hash _ = []

  abbrev pub rows_behind : Text → Option Bool → List LedgerEntry
  rows_behind hash (some true) = rows hash a.tenant_user
  rows_behind hash _ = []

  finish_allocation-books :
      (r : AllocationResult) (m' : YieldManager) → books (finish_allocation a r m') ≡ books m'
  unfolding finish_allocation create_audit_log
  finish_allocation-books r m' = ground arith

  record_allocation-books :
      (hash : Text) (m' : YieldManager)
      → books (record_allocation a (allocation x hash) m')
        ≡ (m'.transfers, m'.ledger ++ rows hash a.tenant_user)
  unfolding record_allocation
  record_allocation-books hash m' = elim (Option-cases a.tenant_user) [
    | inl e ↦ absurd (recorded.users_known e)
    | inr (none, e) ↦ grind (arith, e, finish_allocation-books, append-nil m'.ledger)
    | inr (some user, e) ↦ grind (
      arith,
      e,
      recorded.tenant_row,
      recorded.platform_row,
      finish_allocation-books,
      append_assoc m'.ledger (row_of x user (tenant_of x) hash ∷ [])
          (row_of x user (platform_of x) hash ∷ []),
    )
  ]

  pub allocate_snapshot-books :
      (hash : Text)
      → a.sent ≡ some hash
      → books (allocate_snapshot issuer treasury a x m) ≡ (
        m.transfers ++ share_of issuer treasury (platform_of x) ∷ [],
        m.ledger ++ rows_behind hash a.receipt,
      )
  unfolding allocate_snapshot
  allocate_snapshot-books hash e = elim (Option-cases a.receipt) [
    | inl f ↦ grind (arith, e, f, append-nil m.ledger)
    | inr (false, f) ↦ grind (arith, e, f, append-nil m.ledger)
    | inr (true, f) ↦ grind (arith, e, f, record_allocation-books hash)
  ]

  pub unsent-books : a.sent ≡ none → allocate_snapshot issuer treasury a x m ≡ m
  unfolding allocate_snapshot
  unsent-books e = grind (arith, e)
