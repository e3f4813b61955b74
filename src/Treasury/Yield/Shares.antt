-- ===== src/Treasury/Yield/Shares.antt =====
-- backend/src/services/yield-manager.ts: what an allocation sends and credits.
use multisub_infra.Prelude.{◌≡◌, Text, false, none, some, List, ◌++◌, ◌⊎◌, All}
use multisub_infra.Treasury.{LedgerEntry, Transfer}
use multisub_infra.Treasury.{configured}
use multisub_infra.Treasury.Yield.{Config, SnapshotResult, YieldManager, Vaults, Answers}
use multisub_infra.Treasury.Yield.Split.{IsReported, IsAllocated}
use multisub_infra.Treasury.Yield.Shared.{Shared, books}

-- What a run adds to the books.
abbrev pub Adds :
    Text → Text → (Text → Answers) → List SnapshotResult → YieldManager → YieldManager → Type 0
Adds issuer treasury answers xs m m' =
    (ts : List Transfer) × (es : List LedgerEntry) × (books m'
      ≡ (m.transfers ++ ts, m.ledger ++ es))
    × Shared issuer treasury answers xs ts es

-- The service does not run, or one of the two addresses is not configured.
abbrev pub IsIdle : Config → YieldManager → Type 0
IsIdle config m =
    (m.running ≡ false)
    ⊎ (configured config.platform_issuer_safe_address ≡ none)
    ⊎ (configured config.m1_treasury_address ≡ none)

-- An allocation sends and records nothing where the service is idle, and else what its snapshots
-- lead to.
abbrev pub Allocates :
    Config → (Text → Answers) → List SnapshotResult → YieldManager → YieldManager → Type 0
Allocates config answers xs m m' =
    (IsIdle config m × (books m' ≡ books m))
    ⊎ ((issuer : Text) × (treasury : Text) × (config.platform_issuer_safe_address ≡ some issuer)
        × (config.m1_treasury_address ≡ some treasury)
        × Adds issuer treasury answers xs m m')

-- What a snapshot and the allocation of its results report, send and record.
pub record Shares (config : Config) (vaults : Text → Vaults) (answers : Text → Answers)
    (m taken m' : YieldManager) : Type 0 where
  pub reported : All (IsReported vaults) taken.snapshots
  pub split : All (IsAllocated vaults) m'.allocations
  pub untouched : books taken ≡ books m
  pub allocated : Allocates config answers taken.snapshots taken m'
