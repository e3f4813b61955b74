-- ===== src/Settlement/Gas.antt =====
-- backend/src/services/settlement-service.ts, applyGasBump: the gas limit of a retry.
use multisub_infra.Prelude.{ℕ, suc, ◌+◌, ◌-◌, ◌*◌, ◌≤◌, ◌<◌, ◌≡◌, refl, arith}
use multisub_infra.Settlement.{Config, apply_gas_bump}

bump_mono : (base p a b : ℕ) → a ≤ b → base * (100 + p * a) ≤ base * (100 + p * b)
bump_mono base p a b h = grind arith

-- For one estimate: the first attempt has it as its limit; the limit of an attempt is never below that
-- of one before it with the same estimate, hence never below the estimate; and attempt k has the
-- estimate raised by k - 1 times the percentage, rounded down.
pub apply_gas_bump_lem :
    (config : Config) (base a b : ℕ)
    → a ≤ b
    → (apply_gas_bump config base 1 ≡ base)
      × (apply_gas_bump config base a ≤ apply_gas_bump config base b)
      × (base ≤ apply_gas_bump config base b)
      × (apply_gas_bump config base (suc (suc a)) * 100
          ≤ base * (100 + config.gas_bump_percent * suc a))
      × (base * (100 + config.gas_bump_percent * suc a)
          < (apply_gas_bump config base (suc (suc a)) + 1) * 100)
unfolding apply_gas_bump
apply_gas_bump_lem config base a b h =
    let p = config.gas_bump_percent in
    (
      refl,
      ground (arith, bump_mono base p (a - 1) (b - 1), bump_mono base p 0 (b - 1)),
      ground (arith, bump_mono base p 0 (b - 1)),
      ground arith,
      ground arith,
    )
