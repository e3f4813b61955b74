-- ===== src/Cards/Input.antt =====
-- backend/src/routes/cards.ts and backend/src/types/index.ts: what the card routes are given, and the
-- schemas that it passes.
use multisub_infra.Prelude.{
  ℕ, ℤ, pos, negsuc, Text, Bool, true, false, Option, none, some, List, [], ◌∷◌, ◌&&◌, leb, ltb,
  ◌==◌, length,
}

pub data CardType : Type 0 where
  virtual physical : CardType

pub data Action : Type 0 where
  freeze unfreeze cancel : Action

pub data LithicState : Type 0 where
  opened paused closed : LithicState

-- IssueCardSchema and UpdateCardSchema, with numbers that are whole.
pub record IssueInput : Type 0 where
  pub type : CardType
  pub daily_limit : ℤ
  pub monthly_limit : ℤ
  pub mcc_blacklist : List Text

pub record UpdateInput : Type 0 where
  pub action : Option Action
  pub daily_limit : Option ℤ
  pub monthly_limit : Option ℤ
  pub mcc_blacklist : Option (List Text)

abbrev pub within : ℕ → ℤ → Bool
within bound (pos n) = ltb 0 n && leb n bound
within bound (negsuc n) = false

abbrev pub optional : {A : Type 0} → (A → Bool) → Option A → Bool
optional test none = true
optional test (some a) = test a

abbrev pub all_codes : List Text → Bool
all_codes [] = true
all_codes (c ∷ cs) = length c == 4 && all_codes cs

unfoldable pub is_valid_issue : IssueInput → Bool
is_valid_issue i =
    within 10000000 i.daily_limit && within 100000000 i.monthly_limit && all_codes i.mcc_blacklist

unfoldable pub is_valid_update : UpdateInput → Bool
is_valid_update i =
    optional (within 10000000) i.daily_limit
    && optional (within 100000000) i.monthly_limit
    && optional all_codes i.mcc_blacklist
