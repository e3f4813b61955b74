-- ===== src/Authorization/State.antt =====
-- What the authorization engine works on: the Redis store, the clock, the audit entries that it
-- hands to the database, and what will happen to its next calls. The rows of the database are read
-- only here, and are a parameter.
use multisub_infra.Prelude.{ℕ, ◌+◌, Text, Bool, true, false, Option, List, [], ◌∷◌, ℤ}
use multisub_infra.Types.{CardStatus}
use multisub_infra.Redis.{Redis}

pub data KycStatus : Type 0 where
  pending approved rejected other : KycStatus

pub record SubAccount : Type 0 where
  pub id : Text
  pub status : CardStatus
  pub created_at : ℕ
  pub daily_limit : ℕ
  pub monthly_limit : ℕ
  pub lithic_card_token : Option Text

pub record User : Type 0 where
  pub id : Text
  pub tenant_id : Text
  pub m2_safe_address : Option Text
  pub kyc_status : KycStatus
  pub sub_accounts : List SubAccount

pub data TransactionType : Type 0 where
  authorization settlement reversal deposit withdrawal : TransactionType

pub data TransactionStatus : Type 0 where
  pending approved declined settled reversed failed : TransactionStatus

-- Amounts in the database are taken to be non-negative.
pub record Transaction : Type 0 where
  pub user_id : Text
  pub type : TransactionType
  pub status : TransactionStatus
  pub amount : ℕ
  pub created_at : ℕ

pub data LedgerType : Type 0 where
  deposit refund yield sweep other : LedgerType

pub record LedgerEntry : Type 0 where
  pub user_id : Text
  pub token : Text
  pub type : LedgerType
  pub amount : ℕ

-- `start_of_day` and `start_of_month` are the local midnights that `Date` computes; `epoch` is
-- `Date.now()` when the clock reads 0.
pub record Database : Type 0 where
  pub user_by_eoa : Text → Option User
  pub mcc_blacklist : Text → Option (List Text)
  pub transactions : List Transaction
  pub ledger : List LedgerEntry
  pub start_of_day : ℕ → ℕ
  pub start_of_month : ℕ → ℕ
  pub epoch : ℕ

-- What becomes of a call to Redis or to the database: it is answered; it fails with no effect; it
-- takes effect and its answer is lost; or, for an EXEC, Redis refuses it.
pub data Fate : Type 0 where
  answered failed lost aborted : Fate

pub record Event : Type 0 where
  pub elapsed : ℕ
  pub fate : Fate

pub record Audit : Type 0 where
  pub tenant_id : Option Text
  pub approved : Bool
  pub amount : Option ℤ

-- The clock is `performance.now()` in milliseconds. Calls beyond the list of events are answered
-- at once.
pub record World : Type 0 where
  pub redis : Redis
  pub clock : ℕ
  pub audits : List Audit
  pub events : List Event

pub data Error : Type 0 where
  timeout : ℕ → Error
  failure : Error

pub data Result (A : Type 0) : Type 0 where
  ok : A → Result A
  err : Error → Result A

-- An async method: it returns or throws, and what it wrote before it threw stays written.
abbrev pub Action : Type 0 → Type 0
Action A = World → Result A × World

infixl 5 ◌>>=◌ ◌>>◌
unfoldable pub ◌>>=◌ : {A B : Type 0} → Action A → (A → Action B) → Action B
◌>>=◌ m f w = elim (m w).0 [ ok a ↦ f a (m w).1 | err e ↦ (err e, (m w).1) ]

abbrev pub ◌>>◌ : {A B : Type 0} → Action A → Action B → Action B
m >> k = m >>= λ _. k

module _ {A : Type 0} where
  unfoldable pub pure : A → Action A
  pure a w = (ok a, w)

  unfoldable pub raise : Error → Action A
  raise e w = (err e, w)

  -- `try { … } catch { return … }`
  unfoldable pub catch : Action A → A → Action A
  catch m a w = elim (m w).0 [ ok b ↦ (ok b, (m w).1) | err e ↦ (ok a, (m w).1) ]

unfoldable pub next_event : World → Fate × World
next_event w = elim w.events [
  | [] ↦ (Fate.answered, w)
  | e ∷ rest ↦ (e.fate, record w { clock = w.clock + e.elapsed; events = rest })
]

-- An awaited call: its effect on the store, told whether an EXEC is refused.
unfoldable pub call : {A : Type 0} → (Bool → Redis → A × Redis) → Action A
unfolding next_event
call act w =
    let w' = (next_event w).1 in
    elim (next_event w).0 [
      | answered ↦ (ok (act true w'.redis).0, record w' { redis = (act true w'.redis).1 })
      | failed ↦ (err failure, w')
      | lost ↦ (err failure, record w' { redis = (act true w'.redis).1 })
      | aborted ↦ (ok (act false w'.redis).0, record w' { redis = (act false w'.redis).1 })
    ]

-- A call that reads.
unfoldable pub read : {A : Type 0} → (Redis → A) → Action A
unfolding call
read f = call (λ _ r. (f r, r))

-- A call that writes.
unfoldable pub write : (Redis → Redis) → Action (Unit {0})
unfolding call
write f = call (λ _ r. (tt, f r))

-- `Date.now()`
unfoldable pub date : Database → Action ℕ
date db w = (ok (db.epoch + w.clock), w)
