-- ===== src/Treasury.antt =====
-- backend/src/services/{sweep-service,yield-manager}.ts: moving the users' deposits and the vault's
-- yield between Safes. What both services share: the users they scan, the balance ledger they
-- write, and what the chain and the database answer to the calls for one user or one tenant.
pub mod Sweep
pub mod Yield
mod Tests
use multisub_infra.Prelude.{
  ℕ, Text, Bool, true, false, Option, none, some, List, [], ◌∷◌, ◌++◌, ◌≡◌, arith, ◌&&◌,
  if◌then◌else◌,
}
use multisub_infra.Decimal.{Decimal}

-- A row of `user` with the columns of its tenant that the queries read.
pub record User : Type 0 where
  pub id : Text
  pub tenant_id : Text
  pub m2_safe_address : Option Text
  pub is_active : Bool
  pub tenant_is_model_a : Bool
  pub tenant_is_active : Bool

pub data EntryType : Type 0 where
  sweep yield : EntryType

-- A row of `balanceLedger`; the token is always USDC and the note says the same in words.
pub record LedgerEntry : Type 0 where
  pub tenant_id : Text
  pub user_id : Text
  pub type : EntryType
  pub amount : Decimal
  pub reference : Text

-- A transaction that was sent: the Safe whose address it calls, and the recipient and the amount of
-- the `transfer` that it carries as its data.
pub record Transfer : Type 0 where
  pub sent_to : Text
  pub recipient : Text
  pub amount : ℕ

-- `balanceOf` (or the read fails), the hash of `sendTransaction` (or it throws), whether the
-- receipt's status is success (or the wait throws), and which writes the database takes.
pub record Answers : Type 0 where
  pub balance : Option ℕ
  pub sent : Option Text
  pub receipt : Option Bool
  pub ledger_takes : Bool
  pub log_takes : Bool

-- An absent address and an empty one are alike.
abbrev pub configured : Option Text → Option Text
configured none = none
configured (some []) = none
configured (some (c ∷ t)) = some (c ∷ t)

pub configured-some : (o : Option Text) (t : Text) → configured o ≡ some t → o ≡ some t
configured-some none t h = h
configured-some (some []) t h = absurd (ground (arith, h))
configured-some (some (c ∷ u)) t h = h

-- The `where` of the query for M2 Safes.
abbrev pub is_swept : User → Bool
is_swept user =
    elim user.m2_safe_address [ some _ ↦ true | none ↦ false ]
    && user.is_active
    && user.tenant_is_model_a
    && user.tenant_is_active

abbrev pub select_users : List User → List User
select_users [] = []
select_users (user ∷ users) =
    let rest = select_users users in if is_swept user then user ∷ rest else rest

abbrev pub max_consecutive_failures : ℕ
max_consecutive_failures = 5

abbrev pub circuit_breaker_pause_ms : ℕ
circuit_breaker_pause_ms = 60000
