-- ===== src/Treasury/Yield/TopUp.antt =====
-- topUpIssuerSafe: keeping the Platform Issuer Safe funded from the treasury.
use multisub_infra.Prelude.{ℕ, ◌-◌, Text, Bool, true, false, Option, none, some, ltb, if◌then◌else◌}
use multisub_infra.Decimal.{to_string}
use multisub_infra.Treasury.{configured}
use multisub_infra.Treasury.Yield.{
  Config, issuer_safe_topup, YieldManager, schedule_top_up_check, Answers, create_audit_log,
  transfer_from, issuer_safe_min_balance, issuer_safe_topup_amount,
}

-- `none` for a read that throws.
pub record Balances : Type 0 where
  pub issuer : Option ℕ
  pub treasury : Option ℕ

unfoldable pub send_top_up : Text → Text → ℕ → ℕ → Answers → YieldManager → Bool × YieldManager
send_top_up issuer treasury amount now a m = elim a.sent [
  | none ↦ (false, m)
  | some hash ↦
      let moved = transfer_from treasury issuer amount m in
      elim a.receipt [
        | none ↦ (false, moved)
        | some true ↦ (
          true,
          record (create_audit_log a.log_takes (issuer_safe_topup (to_string amount) hash) moved) {
            last_top_up_check_at = now;
          },
        )
        | some false ↦ (false, record moved { last_top_up_check_at = now })
      ]
]

unfoldable pub top_up_safe :
    Text → Text → Balances → ℕ → Answers → YieldManager → Bool × YieldManager
top_up_safe issuer treasury b now a m = elim b.issuer [
  | none ↦ (false, m)
  | some balance ↦
      let amount = issuer_safe_topup_amount - balance in
      let checked = record m { last_top_up_check_at = now } in
      if ltb balance issuer_safe_min_balance
      then (elim b.treasury [
        | none ↦ (false, m)
        | some funds ↦
            if ltb funds amount
            then (false, checked)
            else send_top_up issuer treasury amount now a m
      ])
      else (false, checked)
]

unfoldable pub check_issuer_safe :
    Config → Balances → ℕ → Answers → YieldManager → Bool × YieldManager
check_issuer_safe config b now a m =
    let checked = record m { last_top_up_check_at = now } in
    elim (configured config.platform_issuer_safe_address) [
      | none ↦ (false, checked)
      | some issuer ↦ elim (configured config.m1_treasury_address) [
        | none ↦ (false, checked)
        | some treasury ↦ top_up_safe issuer treasury b now a m
      ]
    ]

-- Each path of a check, its `catch` included, ends with the timer of the next set.
unfoldable pub top_up_issuer_safe :
    Config → Balances → ℕ → Answers → YieldManager → Bool × YieldManager
top_up_issuer_safe config b now a m =
    let (topped, after) = check_issuer_safe config b now a m in
    if m.running then (topped, schedule_top_up_check config.sweep_interval_ms after) else (false, m)
