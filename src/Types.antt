-- ===== src/Types.antt =====
-- The records and enumerations of backend/src/types/index.ts that the services pass around.
-- Amounts in the authorization cache are decimal texts; strings that the code only compares are
-- texts; string enumerations are data types with the source's words.
use multisub_infra.Prelude.{ℕ, ℤ, Text, Option}
use multisub_infra.Decimal.{Decimal}

-- `lastUpdated` is declared a number; the Lua script writes a string there.
pub data Timestamp : Type 0 where
  number : ℕ → Timestamp
  string : Decimal → Timestamp

pub record AuthorizationCache : Type 0 where
  pub eoa_address : Text
  pub m2_safe_address : Text
  pub tenant_id : Text
  pub usdc_balance : Decimal
  pub daily_spent : Decimal
  pub daily_limit : Decimal
  pub monthly_spent : Decimal
  pub monthly_limit : Decimal
  pub last_updated : Timestamp

pub data CardStatus : Type 0 where
  active frozen cancelled : CardStatus

pub record CardMapping : Type 0 where
  pub sub_account_id : Text
  pub tenant_id : Text
  pub eoa_address : Text
  pub m2_safe_address : Text
  pub status : CardStatus

pub record SettlementJob : Type 0 where
  pub lithic_tx_token : Text
  pub m2_safe_address : Text
  pub issuer_safe_address : Text
  pub amount : Decimal
  pub tenant_id : Text
  pub attempt : ℕ
  pub created_at : ℕ

pub data AsaStatus : Type 0 where
  authorization authorization_advice clearing void : AsaStatus

pub record Merchant : Type 0 where
  pub descriptor : Text
  pub mcc : Text
  pub city : Option Text
  pub country : Option Text

-- The amount is a whole number of cents, and may be negative.
pub record LithicAsaEvent : Type 0 where
  pub token : Text
  pub card_token : Text
  pub status : AsaStatus
  pub amount : ℤ
  pub merchant : Merchant
  pub created : Text
