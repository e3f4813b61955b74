-- ===== src/Treasury/Yield/Split.antt =====
-- backend/src/services/yield-manager.ts: the split of the yield, and where it comes from.
use multisub_infra.Prelude.{
  ℕ, ◌+◌, ◌-◌, ◌*◌, ◌/◌, ◌≤◌, ◌<◌, ◌≡◌, Text, Bool, true, false, Option, none, some, List, [], ◌∷◌,
  ◌++◌, arith, leb, Bool-cases, Option-cases, inl, inr, ap, ◌∙◌, if◌then◌else◌, ◌==◌, All, All-snoc,
  refl, leb→le, ◌⊎◌,
}
use multisub_infra.Decimal.{big_int}
use multisub_infra.Decimal.Print.{big_int-to_string}
use multisub_infra.Treasury.{configured}
use multisub_infra.Treasury.Yield.{
  Config, SnapshotResult, AllocationResult, YieldManager, schedule_snapshot, Vaults, Answers,
  transfer_from, create_audit_log, unrealized_yield_of, allocation_min_yield,
  allocation_platform_bps, allocation_tenant_bps,
}
use multisub_infra.Treasury.Yield.Snapshot.{
  snapshot_row, snapshot_tenant, snapshot_tenants, snapshot_yield,
}
use multisub_infra.Treasury.Yield.Allocate.{
  allocation, finish_allocation, record_allocation, allocate_snapshot, allocate_snapshots,
  allocate_yield,
}

-- The snapshot of a tenant says what the vaults answer for it.
pub record IsReported (vaults : Text → Vaults) (x : SnapshotResult) : Type 0 where
  pub deposited : ℕ
  pub shares : ℕ
  pub current : ℕ
  pub position : (vaults x.tenant_id).position ≡ some (deposited, shares)
  pub value : (vaults x.tenant_id).convert_to_assets ≡ some current
  pub total : big_int x.total_yield ≡ current - deposited

-- The three shares make up the total; the platform's is 30% and the tenant's 60%, each rounded
-- down, so that the reserve is at least 10%.
pub record IsSplit (r : AllocationResult) : Type 0 where
  pub whole :
      big_int r.platform_share + big_int r.tenant_share + big_int r.reserve_share
      ≡ big_int r.total_yield
  pub platform_most : 10 * big_int r.platform_share ≤ 3 * big_int r.total_yield
  pub platform_least : 3 * big_int r.total_yield < 10 * big_int r.platform_share + 10
  pub tenant_most : 10 * big_int r.tenant_share ≤ 6 * big_int r.total_yield
  pub tenant_least : 6 * big_int r.total_yield < 10 * big_int r.tenant_share + 10
  pub reserve_least : big_int r.total_yield ≤ 10 * big_int r.reserve_share

allocation-IsSplit : (x : SnapshotResult) (hash : Text) → IsSplit (allocation x hash)
allocation-IsSplit x hash =
    let n = big_int x.total_yield in
    let total = big_int-to_string n in
    let platform = big_int-to_string (n * allocation_platform_bps / 10000) in
    let tenant = big_int-to_string (n * allocation_tenant_bps / 10000) in
    let reserve =
      big_int-to_string
        (n - n * allocation_platform_bps / 10000 - n * allocation_tenant_bps / 10000) in
    record {
      whole = omega (arith, total, platform, tenant, reserve);
      platform_most = omega (arith, total, platform);
      platform_least = omega (arith, total, platform);
      tenant_most = omega (arith, total, tenant);
      tenant_least = omega (arith, total, tenant);
      reserve_least = omega (arith, total, reserve);
    }

snapshot_tenant-cases :
    (v : Vaults) (tenant : Text) (m : YieldManager)
    → ((snapshot_tenant v tenant m).snapshots ≡ m.snapshots)
      ⊎ ((d : ℕ) × (s : ℕ) × (c : ℕ) × ((v.position ≡ some (d, s))
            × ((v.convert_to_assets ≡ some c)
                × ((snapshot_tenant v tenant m).snapshots
                    ≡ m.snapshots ++ snapshot_row tenant d s c ∷ []))))
unfolding snapshot_tenant
snapshot_tenant-cases v tenant m = elim (Option-cases v.position) [
  | inl e ↦ inl (grind (arith, e))
  | inr ((d, s), e) ↦ elim (Bool-cases (s == 0)) [
    | inl z ↦ inl (grind (arith, e, z))
    | inr z ↦ elim (Option-cases v.convert_to_assets) [
      | inl f ↦ inl (grind (arith, e, z, f))
      | inr (c, f) ↦ elim (Bool-cases v.row_takes) [
        | inl t ↦ inr (d, s, c, (e, (f, grind (arith, e, z, f, t))))
        | inr t ↦ inl (grind (arith, e, z, f, t))
      ]
    ]
  ]
]

snapshot_row-total :
    (tenant : Text) (d s c : ℕ) → big_int (snapshot_row tenant d s c).total_yield ≡ c - d
unfolding snapshot_row unrealized_yield_of
snapshot_row-total tenant d s c = grind (arith, big_int-to_string (unrealized_yield_of d c))

snapshot_row-tenant : (tenant : Text) (d s c : ℕ) → (snapshot_row tenant d s c).tenant_id ≡ tenant
unfolding snapshot_row
snapshot_row-tenant tenant d s c = refl

snapshot_row-IsReported :
    (vaults : Text → Vaults) (tenant : Text) (d s c : ℕ)
    → (vaults tenant).position ≡ some (d, s)
    → (vaults tenant).convert_to_assets ≡ some c
    → IsReported vaults (snapshot_row tenant d s c)
snapshot_row-IsReported vaults tenant d s c e f = record {
  deposited = d;
  shares = s;
  current = c;
  position = ap (λ t. (vaults t).position) (snapshot_row-tenant tenant d s c) ∙ e;
  value = ap (λ t. (vaults t).convert_to_assets) (snapshot_row-tenant tenant d s c) ∙ f;
  total = snapshot_row-total tenant d s c;
}

snapshot_tenants-IsReported :
    (vaults : Text → Vaults) (tenants : List Text) (m : YieldManager)
    → All (IsReported vaults) m.snapshots
    → All (IsReported vaults) (snapshot_tenants vaults tenants m).snapshots
unfolding snapshot_tenants
snapshot_tenants-IsReported vaults [] m h = h
snapshot_tenants-IsReported vaults (t ∷ ts) m h =
    snapshot_tenants-IsReported vaults ts _ (elim (snapshot_tenant-cases (vaults t) t m) [
      | inl same ↦ rw same h
      | inr (d, s, c, (e, (f, added))) ↦ rw added (
          All-snoc (IsReported vaults) m.snapshots _ h (snapshot_row-IsReported vaults t d s c e f))
    ])

pub snapshot_yield-IsReported :
    (config : Config) (now : ℕ) (tenants : Option (List Text)) (vaults : Text → Vaults)
    (m : YieldManager)
    → All (IsReported vaults) (snapshot_yield config now tenants vaults m).snapshots
unfolding snapshot_yield
snapshot_yield-IsReported config now tenants vaults m = go m.running config.vaults tenants
  where
    go :
        (running configured : Bool) (ids : Option (List Text))
        → All
            (IsReported vaults)
            (if running
              then (if configured
                  then (elim ids [
                    | none ↦
                        schedule_snapshot config.snapshot_interval_ms (record m { snapshots = [] })
                    | some ts ↦
                        schedule_snapshot config.snapshot_interval_ms
                          (record (snapshot_tenants vaults ts (record m { snapshots = [] })) {
                            last_snapshot_at = now;
                          })
                  ])
                  else schedule_snapshot config.snapshot_interval_ms
                      (record m { snapshots = []; last_snapshot_at = now }))
              else record m { snapshots = [] }).snapshots
    go false c ids = tt
    go true false ids = tt
    go true true none = tt
    go true true (some ts) = snapshot_tenants-IsReported vaults ts (record m { snapshots = [] }) tt

-- An allocation of at least one dollar, split as above, of what the vaults report for the tenant.
pub record IsAllocated (vaults : Text → Vaults) (r : AllocationResult) : Type 0 where
  pub split : IsSplit r
  pub worth : allocation_min_yield ≤ big_int r.total_yield
  pub deposited : ℕ
  pub shares : ℕ
  pub current : ℕ
  pub position : (vaults r.tenant_id).position ≡ some (deposited, shares)
  pub value : (vaults r.tenant_id).convert_to_assets ≡ some current
  pub shared_out :
      deposited + big_int r.platform_share + big_int r.tenant_share + big_int r.reserve_share
      ≡ current

allocation-IsAllocated :
    (vaults : Text → Vaults) (x : SnapshotResult) (hash : Text)
    → IsReported vaults x
    → allocation_min_yield ≤ big_int x.total_yield
    → IsAllocated vaults (allocation x hash)
allocation-IsAllocated vaults x hash h worth =
    let split = allocation-IsSplit x hash in
    let total = big_int-to_string (big_int x.total_yield) in
    record {
      split = split;
      worth = omega (arith, worth, total);
      deposited = h.deposited;
      shares = h.shares;
      current = h.current;
      position = h.position;
      value = h.value;
      shared_out = omega (arith, worth, total, split.whole, h.total);
    }

finish_allocation-adds :
    (a : Answers) (r : AllocationResult) (m : YieldManager)
    → (finish_allocation a r m).allocations ≡ m.allocations ++ r ∷ []
unfolding finish_allocation create_audit_log
finish_allocation-adds a r m = grind arith

record_allocation-cases :
    (a : Answers) (r : AllocationResult) (m : YieldManager)
    → ((record_allocation a r m).allocations ≡ m.allocations)
      ⊎ ((record_allocation a r m).allocations ≡ m.allocations ++ r ∷ [])
unfolding record_allocation
record_allocation-cases a r m = elim (Option-cases a.tenant_user) [
  | inl e ↦ inl (grind (arith, e))
  | inr (none, e) ↦ inr (grind (arith, e, finish_allocation-adds))
  | inr (some user, e) ↦ elim (Bool-cases a.first_takes) [
    | inr f ↦ inl (grind (arith, e, f))
    | inl f ↦ elim (Bool-cases a.second_takes) [
      | inr g ↦ inl (grind (arith, e, f, g))
      | inl g ↦ inr (grind (arith, e, f, g, finish_allocation-adds))
    ]
  ]
]

allocate_snapshot-cases :
    (issuer treasury : Text) (a : Answers) (x : SnapshotResult) (m : YieldManager)
    → ((allocate_snapshot issuer treasury a x m).allocations ≡ m.allocations)
      ⊎ ((hash : Text) × ((allocate_snapshot issuer treasury a x m).allocations
            ≡ m.allocations ++ allocation x hash ∷ []))
unfolding allocate_snapshot
allocate_snapshot-cases issuer treasury a x m = elim (Option-cases a.sent) [
  | inl e ↦ inl (grind (arith, e))
  | inr (hash, e) ↦ elim (Option-cases a.receipt) [
    | inl f ↦ inl (grind (arith, e, f))
    | inr (false, f) ↦ inl (grind (arith, e, f))
    | inr (true, f) ↦
        let moved =
          transfer_from treasury issuer (big_int x.total_yield * allocation_platform_bps / 10000)
            m in
        elim (record_allocation-cases a (allocation x hash) moved) [
          | inl same ↦ inl (grind (arith, e, f, same))
          | inr more ↦ inr (hash, grind (arith, e, f, more))
        ]
  ]
]

allocate_snapshots-IsAllocated :
    (vaults : Text → Vaults) (issuer treasury : Text) (answers : Text → Answers)
    (xs : List SnapshotResult) (m : YieldManager)
    → All (IsReported vaults) xs
    → All (IsAllocated vaults) m.allocations
    → All (IsAllocated vaults) (allocate_snapshots issuer treasury answers xs m).allocations
unfolding allocate_snapshots
allocate_snapshots-IsAllocated vaults issuer treasury answers [] m r h = h
allocate_snapshots-IsAllocated vaults issuer treasury answers (x ∷ xs) m r h =
    allocate_snapshots-IsAllocated vaults issuer treasury answers xs _ r.1
      (elim (Bool-cases (leb allocation_min_yield (big_int x.total_yield))) [
        | inr small ↦ rw small h
        | inl large ↦ elim (allocate_snapshot-cases issuer treasury (answers x.tenant_id) x m) [
          | inl same ↦ rw (large, same) h
          | inr (hash, more) ↦
              rw (large, more)
                (All-snoc (IsAllocated vaults) m.allocations _ h
                  (allocation-IsAllocated vaults x hash r.0 (leb→le _ _ large)))
        ]
      ])

allocate_yield-IsAllocated :
    (config : Config) (now : ℕ) (vaults : Text → Vaults) (answers : Text → Answers)
    (xs : List SnapshotResult) (m : YieldManager)
    → All (IsReported vaults) xs
    → All (IsAllocated vaults) (allocate_yield config now answers xs m).allocations
unfolding allocate_yield
allocate_yield-IsAllocated config now vaults answers xs m r =
    go m.running (configured config.platform_issuer_safe_address)
      (configured config.m1_treasury_address)
  where
    go :
        (running : Bool) (issuer treasury : Option Text)
        → All
            (IsAllocated vaults)
            (if running
              then (elim issuer [
                | none ↦ record m { allocations = []; last_allocation_at = now }
                | some i ↦ elim treasury [
                  | none ↦ record m { allocations = []; last_allocation_at = now }
                  | some t ↦
                      record (allocate_snapshots i t answers xs (record m { allocations = [] })) {
                        last_allocation_at = now;
                      }
                ]
              ])
              else record m { allocations = [] }).allocations
    go false i t = tt
    go true none t = tt
    go true (some i) none = tt
    go true (some i) (some t) =
        allocate_snapshots-IsAllocated vaults i t answers xs (record m { allocations = [] }) r tt

-- Whatever the chain, the vaults and the database answer, every allocation that is made of a
-- snapshot's results is of a tenant whose value in the vaults exceeds its deposits by at least a
-- dollar; the platform's 30% and the tenant's 60%, each rounded down, and the reserve of at least
-- 10% add up, with the deposits, to the value that the vaults report.
pub allocate_yield-snapshot :
    (config : Config) (now : ℕ) (tenants : Option (List Text)) (vaults : Text → Vaults)
    (answers : Text → Answers) (m : YieldManager)
    → All
        (IsAllocated vaults)
        (allocate_yield config now answers
          (snapshot_yield config now tenants vaults m).snapshots
          (snapshot_yield config now tenants vaults m)).allocations
allocate_yield-snapshot config now tenants vaults answers m =
    allocate_yield-IsAllocated config now vaults answers _ _
      (snapshot_yield-IsReported config now tenants vaults m)
