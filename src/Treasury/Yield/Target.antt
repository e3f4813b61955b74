-- ===== src/Treasury/Yield/Target.antt =====
-- backend/src/services/yield-manager.ts: what a top-up of the issuer's Safe moves.
use multisub_infra.Prelude.{ℕ, ◌+◌, ◌≤◌, ◌<◌, ◌≡◌, Text, true, some, [], ◌∷◌, ◌++◌}
use multisub_infra.Treasury.Yield.{
  Config, YieldManager, issuer_safe_min_balance, issuer_safe_topup_amount,
}
use multisub_infra.Treasury.Yield.TopUp.{Balances}

-- The Safe held less than the minimum, the treasury held enough, and one transfer, sent to the treasury,
-- brings it to the target.
pub record ToppedUp (config : Config) (b : Balances) (before after : YieldManager) : Type 0 where
  pub issuer : Text
  pub treasury : Text
  pub balance : ℕ
  pub funds : ℕ
  pub amount : ℕ
  pub issuer_safe : config.platform_issuer_safe_address ≡ some issuer
  pub treasury_safe : config.m1_treasury_address ≡ some treasury
  pub was_running : before.running ≡ true
  pub held : b.issuer ≡ some balance
  pub was_low : balance < issuer_safe_min_balance
  pub funded : b.treasury ≡ some funds
  pub enough : amount ≤ funds
  pub target : balance + amount ≡ issuer_safe_topup_amount
  pub moved :
      after.transfers
      ≡ before.transfers ++ record { sent_to = treasury; recipient = issuer; amount = amount } ∷ []
