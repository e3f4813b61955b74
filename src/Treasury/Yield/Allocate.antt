-- ===== src/Treasury/Yield/Allocate.antt =====
-- allocateYield, and scheduleSnapshot's body: the split of each tenant's yield between the platform,
-- the tenant and a reserve that stays in the vault.
use multisub_infra.Prelude.{
  ℕ, ◌-◌, ◌*◌, ◌/◌, Text, true, false, Option, none, some, List, [], ◌∷◌, ◌++◌, leb, if◌then◌else◌,
}
use multisub_infra.Decimal.{Decimal, to_string, big_int}
use multisub_infra.Treasury.{yield}
use multisub_infra.Treasury.{configured}
use multisub_infra.Treasury.Yield.{
  Config, SnapshotResult, AllocationResult, yield_allocated, YieldManager, Vaults, Answers,
  create_audit_log, transfer_from, allocation_platform_bps, allocation_tenant_bps,
  allocation_min_yield,
}
use multisub_infra.Treasury.Yield.Snapshot.{snapshot_yield}

abbrev pub allocation : SnapshotResult → Text → AllocationResult
allocation snapshot hash =
    let total = big_int snapshot.total_yield in
    let platform = total * allocation_platform_bps / 10000 in
    let tenant = total * allocation_tenant_bps / 10000 in
    record {
      tenant_id = snapshot.tenant_id;
      total_yield = to_string total;
      platform_share = to_string platform;
      tenant_share = to_string tenant;
      reserve_share = to_string (total - platform - tenant);
      tx_hash = hash;
    }

abbrev pub credit : Text → Text → Decimal → Text → YieldManager → YieldManager
credit tenant user amount hash m = record m {
  ledger =
      m.ledger
      ++ record {
        tenant_id = tenant;
        user_id = user;
        type = yield;
        amount = amount;
        reference = hash;
      }
        ∷ [];
}

unfoldable pub finish_allocation : Answers → AllocationResult → YieldManager → YieldManager
finish_allocation a r m =
    let logged = create_audit_log a.log_takes (yield_allocated r) m in
    record logged { allocations = logged.allocations ++ r ∷ [] }

-- The transfer is confirmed: the tenant's and the platform's rows on the tenant's first active
-- user, if it has one. A write that fails leaves the rest undone.
unfoldable pub record_allocation : Answers → AllocationResult → YieldManager → YieldManager
record_allocation a r m = elim a.tenant_user [
  | none ↦ m
  | some none ↦ finish_allocation a r m
  | some (some user) ↦
      let first = credit r.tenant_id user r.tenant_share r.tx_hash m in
      let second = credit r.tenant_id user r.platform_share r.tx_hash first in
      if a.first_takes then (if a.second_takes then finish_allocation a r second else first) else m
]

unfoldable pub allocate_snapshot :
    Text → Text → Answers → SnapshotResult → YieldManager → YieldManager
allocate_snapshot issuer treasury a snapshot m =
    let platform = big_int snapshot.total_yield * allocation_platform_bps / 10000 in
    elim a.sent [
      | none ↦ m
      | some hash ↦
          let moved = transfer_from treasury issuer platform m in
          elim a.receipt [
            | none ↦ moved
            | some false ↦ moved
            | some true ↦ record_allocation a (allocation snapshot hash) moved
          ]
    ]

-- The loop over the snapshots that pass the filter, in one pass: `snapshots.filter`, then `for`.
unfoldable pub allocate_snapshots :
    Text → Text → (Text → Answers) → List SnapshotResult → YieldManager → YieldManager
allocate_snapshots issuer treasury answers [] m = m
allocate_snapshots issuer treasury answers (x ∷ xs) m =
    let after = allocate_snapshot issuer treasury (answers x.tenant_id) x m in
    allocate_snapshots issuer treasury answers xs
      (if leb allocation_min_yield (big_int x.total_yield) then after else m)

unfoldable pub allocate_yield :
    Config → ℕ → (Text → Answers) → List SnapshotResult → YieldManager → YieldManager
allocate_yield config now answers snapshots m =
    let begun = record m { allocations = [] } in
    if m.running
    then (elim (configured config.platform_issuer_safe_address) [
      | none ↦ record begun { last_allocation_at = now }
      | some issuer ↦ elim (configured config.m1_treasury_address) [
        | none ↦ record begun { last_allocation_at = now }
        | some treasury ↦ record (allocate_snapshots issuer treasury answers snapshots begun) {
          last_allocation_at = now;
        }
      ]
    ])
    else begun

-- What the snapshot's timer runs: a snapshot, and the allocation of what it found.
unfoldable pub run_snapshot :
    Config
    → ℕ
    → Option (List Text)
    → (Text → Vaults)
    → (Text → Answers)
    → YieldManager
    → YieldManager
run_snapshot config now tenants vaults answers m =
    let taken = snapshot_yield config now tenants vaults m in
    elim taken.snapshots [
      | [] ↦ taken
      | _ ∷ _ ↦ allocate_yield config now answers taken.snapshots taken
    ]
