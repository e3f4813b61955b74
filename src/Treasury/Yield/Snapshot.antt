-- ===== src/Treasury/Yield/Snapshot.antt =====
-- snapshotYield: one row of the yield ledger for each tenant with shares in the vault.
use multisub_infra.Prelude.{ℕ, Text, Option, none, some, List, [], ◌∷◌, ◌++◌, ◌==◌, if◌then◌else◌}
use multisub_infra.Decimal.{to_string}
use multisub_infra.Treasury.Yield.{
  Config, SnapshotResult, YieldManager, schedule_snapshot, Vaults, unrealized_yield_of, apy_bps_of,
}

unfoldable pub snapshot_row : Text → ℕ → ℕ → ℕ → SnapshotResult
snapshot_row tenant deposited shares current =
    let unrealized = unrealized_yield_of deposited current in
    record {
      tenant_id = tenant;
      total_deposited = to_string deposited;
      total_shares = to_string shares;
      total_yield = to_string unrealized;
      apy_bps = apy_bps_of deposited unrealized;
    }

-- One round of the loop over the tenants; a failed read or write skips the tenant.
unfoldable pub snapshot_tenant : Vaults → Text → YieldManager → YieldManager
snapshot_tenant v tenant m = elim v.position [
  | none ↦ m
  | some (deposited, shares) ↦ if shares == 0 then m else (elim v.convert_to_assets [
    | none ↦ m
    | some current ↦
        if v.row_takes
        then record m {
          yield_ledger = m.yield_ledger ++ snapshot_row tenant deposited shares current ∷ [];
          snapshots = m.snapshots ++ snapshot_row tenant deposited shares current ∷ [];
        }
        else m
  ])
]

unfoldable pub snapshot_tenants : (Text → Vaults) → List Text → YieldManager → YieldManager
snapshot_tenants vaults [] m = m
snapshot_tenants vaults (tenant ∷ tenants) m =
    snapshot_tenants vaults tenants (snapshot_tenant (vaults tenant) tenant m)

-- `tenants` are the ids of the active tenants, or `none` when the query throws. Every run sets the
-- timer of the next.
unfoldable pub snapshot_yield :
    Config → ℕ → Option (List Text) → (Text → Vaults) → YieldManager → YieldManager
snapshot_yield config now tenants vaults m =
    let begun = record m { snapshots = [] } in
    let schedule = schedule_snapshot config.snapshot_interval_ms in
    if m.running
    then (if config.vaults
        then (elim tenants [
          | none ↦ schedule begun
          | some ids ↦
              schedule (record (snapshot_tenants vaults ids begun) { last_snapshot_at = now })
        ])
        else schedule (record begun { last_snapshot_at = now }))
    else begun
