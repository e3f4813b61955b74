-- ===== src/Treasury/Yield.antt =====
-- backend/src/services/yield-manager.ts: snapshots of each tenant's yield in the vault, the split of
-- that yield and the top-up of the issuer's Safe. Cycle has its sweep and its timers, Bytes the
-- bytes32 of tenant ids.
pub mod Snapshot
pub mod Allocate
pub mod TopUp
pub mod Split
pub mod Shared
pub mod Shares
pub mod Target
pub mod Cycle
pub mod Agrees
pub mod Bytes
use multisub_infra.Prelude.{
  ℕ, zero, suc, ◌+◌, ◌-◌, ◌*◌, ◌/◌, Text, Bool, true, false, Option, none, some, List, [], ◌∷◌,
  ◌++◌, ◌≡◌, arith, ltb, leb, ◌==◌, if◌then◌else◌,
}
use multisub_infra.Decimal.{Decimal, to_string, big_int}
use multisub_infra.Treasury.{EntryType, sweep, yield, LedgerEntry, Transfer, User}

abbrev pub issuer_safe_min_balance : ℕ
issuer_safe_min_balance = 10000000000

abbrev pub issuer_safe_topup_amount : ℕ
issuer_safe_topup_amount = 50000000000

abbrev pub allocation_platform_bps : ℕ
allocation_platform_bps = 3000

abbrev pub allocation_tenant_bps : ℕ
allocation_tenant_bps = 6000

abbrev pub allocation_min_yield : ℕ
allocation_min_yield = 1000000

-- Whether the addresses of both vaults are configured, and the addresses of the issuer's Safe and of
-- the treasury.
pub record Config : Type 0 where
  pub vaults : Bool
  pub platform_issuer_safe_address : Option Text
  pub m1_treasury_address : Option Text
  pub snapshot_interval_ms : ℕ
  pub sweep_interval_ms : ℕ

pub record SnapshotResult : Type 0 where
  pub tenant_id : Text
  pub total_deposited : Decimal
  pub total_shares : Decimal
  pub total_yield : Decimal
  pub apy_bps : ℕ

pub record AllocationResult : Type 0 where
  pub tenant_id : Text
  pub total_yield : Decimal
  pub platform_share : Decimal
  pub tenant_share : Decimal
  pub reserve_share : Decimal
  pub tx_hash : Text

pub record YieldSummary : Type 0 where
  pub total_deposited : Decimal
  pub total_shares : Decimal
  pub current_value : Decimal
  pub unrealized_yield : Decimal
  pub apy_bps : ℕ

pub data YieldAudit : Type 0 where
  yield_allocated : AllocationResult → YieldAudit
  issuer_safe_topup : Decimal → Text → YieldAudit

-- `snapshots` and `allocations` are the results of the runs under way; the timers are the delays they
-- were set with.
pub record YieldManager : Type 0 where
  pub running : Bool
  pub snapshot_timer : Option ℕ
  pub top_up_timer : Option ℕ
  pub last_snapshot_at : ℕ
  pub last_allocation_at : ℕ
  pub last_top_up_check_at : ℕ
  pub snapshots : List SnapshotResult
  pub allocations : List AllocationResult
  pub yield_ledger : List SnapshotResult
  pub ledger : List LedgerEntry
  pub audits : List YieldAudit
  pub transfers : List Transfer

-- What the treasury vault and the Morpho vault answer for a tenant, and whether the row is taken.
pub record Vaults : Type 0 where
  pub position : Option (ℕ × ℕ)
  pub convert_to_assets : Option ℕ
  pub row_takes : Bool

-- What the wallet, the receipt and the database answer while one transfer is allocated: the query
-- for the tenant's first active user, and the two rows of the ledger.
pub record Answers : Type 0 where
  pub sent : Option Text
  pub receipt : Option Bool
  pub tenant_user : Option (Option Text)
  pub first_takes : Bool
  pub second_takes : Bool
  pub log_takes : Bool

abbrev pub schedule_snapshot : ℕ → YieldManager → YieldManager
schedule_snapshot delay m = record m {
  snapshot_timer = if m.running then some delay else m.snapshot_timer;
}

abbrev pub schedule_top_up_check : ℕ → YieldManager → YieldManager
schedule_top_up_check delay m = record m {
  top_up_timer = if m.running then some delay else m.top_up_timer;
}

unfoldable pub unrealized_yield_of : ℕ → ℕ → ℕ
unrealized_yield_of deposited current = if ltb deposited current then current - deposited else 0

unfoldable pub apy_bps_of : ℕ → ℕ → ℕ
apy_bps_of deposited unrealized = if ltb 0 deposited then unrealized * 10000 / deposited else 0

unfoldable pub create_audit_log : Bool → YieldAudit → YieldManager → YieldManager
create_audit_log takes entry m = if takes then record m { audits = m.audits ++ entry ∷ [] } else m

abbrev pub transfer_from : Text → Text → ℕ → YieldManager → YieldManager
transfer_from safe target amount m = record m {
  transfers = m.transfers ++ record { sent_to = safe; recipient = target; amount = amount } ∷ [];
}

unfoldable pub get_yield_summary : Config → Vaults → Option YieldSummary
get_yield_summary config v =
    if config.vaults
    then (elim v.position [
      | none ↦ none
      | some (deposited, shares) ↦
          if shares == 0
          then some (record {
            total_deposited = to_string 0;
            total_shares = to_string 0;
            current_value = to_string 0;
            unrealized_yield = to_string 0;
            apy_bps = 0;
          })
          else (elim v.convert_to_assets [
            | none ↦ none
            | some current ↦
                let unrealized = unrealized_yield_of deposited current in
                some (record {
                  total_deposited = to_string deposited;
                  total_shares = to_string shares;
                  current_value = to_string current;
                  unrealized_yield = to_string unrealized;
                  apy_bps = apy_bps_of deposited unrealized;
                })
          ])
    ])
    else none
