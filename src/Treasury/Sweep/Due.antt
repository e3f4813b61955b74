-- ===== src/Treasury/Sweep/Due.antt =====
-- backend/src/services/sweep-service.ts: what one user leads to in a cycle.
use multisub_infra.Prelude.{
  ℕ, ◌<◌, ◌≡◌, ◌≢◌, ap, ◌∙◌, Text, true, false, some, List, [], ◌∷◌, ◌++◌, arith, leb, Option-cases,
  Bool-cases, inl, inr, ◌⊎◌,
}
use mathlib.Core.List.{append-nil}
use multisub_infra.Decimal.{to_string}
use multisub_infra.Treasury.{
  User, configured, configured-some, sweep, LedgerEntry, Transfer, Answers, is_swept,
}
use multisub_infra.Treasury.Sweep.{
  Config, SweepService, execute_sweep, record_sweep, create_audit_log, push_result, confirm_sweep,
  sweep_safe, sweep_user,
}

-- The user is an active one of an active Model A tenant, with a Safe that holds more than the
-- threshold, and its transaction was sent.
pub record IsDue (config : Config) (a : Answers) (user : User) (safe : Text) (balance : ℕ)
    (hash : Text) : Type 0 where
  pub has_safe : configured user.m2_safe_address ≡ some safe
  pub active : user.is_active ≡ true
  pub model_a : user.tenant_is_model_a ≡ true
  pub tenant_active : user.tenant_is_active ≡ true
  pub held : a.balance ≡ some balance
  pub above : config.sweep_threshold < balance
  pub sent : a.sent ≡ some hash

abbrev pub sweep_of : Config → Text → ℕ → Transfer
sweep_of config safe balance = record {
  sent_to = safe;
  recipient = config.m1_treasury_address;
  amount = balance;
}

abbrev pub row_of : User → ℕ → Text → LedgerEntry
row_of user balance hash = record {
  tenant_id = user.tenant_id;
  user_id = user.id;
  type = sweep;
  amount = to_string balance;
  reference = hash;
}

-- What a table of users leads to: for each user that is due one transaction over the whole balance,
-- and for each of these that is confirmed one row of the same amount; for the others nothing.
pub data Swept (config : Config) (answers : Text → Answers)
    : List User → List Transfer → List LedgerEntry → Type 0 where
  ended : Swept config answers [] [] []
  passed :
      (user : User) (users : List User) (ts : List Transfer) (es : List LedgerEntry)
      → ((safe : Text) (balance : ℕ) (hash : Text)
          → ¬ IsDue config (answers user.id) user safe balance hash)
      → Swept config answers users ts es
      → Swept config answers (user ∷ users) ts es
  unconfirmed :
      (user : User) (users : List User) (ts : List Transfer) (es : List LedgerEntry) (safe : Text)
      (balance : ℕ) (hash : Text)
      → IsDue config (answers user.id) user safe balance hash
      → (answers user.id).receipt ≢ some true
      → Swept config answers users ts es
      → Swept config answers (user ∷ users) (sweep_of config safe balance ∷ ts) es
  confirmed :
      (user : User) (users : List User) (ts : List Transfer) (es : List LedgerEntry) (safe : Text)
      (balance : ℕ) (hash : Text)
      → IsDue config (answers user.id) user safe balance hash
      → (answers user.id).receipt ≡ some true
      → Swept config answers users ts es
      → Swept config answers
          (user ∷ users)
          (sweep_of config safe balance ∷ ts)
          (row_of user balance hash ∷ es)

-- What the service has sent and recorded.
abbrev pub books : SweepService → List Transfer × List LedgerEntry
books s = (s.transfers, s.ledger)

-- A selected user has what the query asks for.
is_swept-columns :
    (user : User)
    → is_swept user ≡ true
    → (user.is_active ≡ true) × (user.tenant_is_model_a ≡ true) × (user.tenant_is_active ≡ true)
is_swept-columns user h = (
  grind (arith, h, Option-cases user.m2_safe_address),
  grind (arith, h, Option-cases user.m2_safe_address),
  grind (arith, h, Option-cases user.m2_safe_address),
)

pub is_swept-due :
    (config : Config) (a : Answers) (user : User) (safe : Text) (balance : ℕ) (hash : Text)
    → IsDue config a user safe balance hash
    → is_swept user ≡ true
is_swept-due config a user safe balance hash h =
    grind (arith, configured-some _ safe h.has_safe, h.active, h.model_a, h.tenant_active)

module _ (config : Config) (a : Answers) (user : User) (s : SweepService)
    (takes : a.ledger_takes ≡ true) (selected : is_swept user ≡ true) where
  confirm_sweep-books :
      (safe hash : Text) (balance : ℕ) (s' : SweepService)
      → books (confirm_sweep a user safe balance hash s') ≡ (
        s'.transfers,
        s'.ledger ++ elim a.receipt [ some true ↦ row_of user balance hash ∷ [] | _ ↦ [] ],
      )
  unfolding confirm_sweep create_audit_log record_sweep
  confirm_sweep-books safe hash balance s' =
      grind (arith, takes, Option-cases a.receipt, append-nil s'.ledger)

  pub due :
      (safe : Text) (balance : ℕ) (hash : Text)
      → configured user.m2_safe_address ≡ some safe
      → a.balance ≡ some balance
      → leb balance config.sweep_threshold ≡ false
      → a.sent ≡ some hash
      → IsDue config a user safe balance hash
  due safe balance hash e f g h =
      let (active, model_a, tenant) = is_swept-columns user selected in
      record {
        has_safe = e;
        active = active;
        model_a = model_a;
        tenant_active = tenant;
        held = f;
        above = ground (arith, g);
        sent = h;
      }

  sent_run :
      (safe : Text) (balance : ℕ) (hash : Text)
      → configured user.m2_safe_address ≡ some safe
      → a.balance ≡ some balance
      → leb balance config.sweep_threshold ≡ false
      → a.sent ≡ some hash
      → sweep_user config a user s
        ≡ confirm_sweep a user safe balance hash
            (push_result user safe balance hash (execute_sweep config safe balance s))
  unfolding sweep_user sweep_safe
  sent_run safe balance hash e f g h = grind (arith, e, f, g, h)

  pub sent_books :
      (safe : Text) (balance : ℕ) (hash : Text)
      → configured user.m2_safe_address ≡ some safe
      → a.balance ≡ some balance
      → leb balance config.sweep_threshold ≡ false
      → a.sent ≡ some hash
      → books (sweep_user config a user s) ≡ (
        s.transfers ++ sweep_of config safe balance ∷ [],
        s.ledger ++ elim a.receipt [ some true ↦ row_of user balance hash ∷ [] | _ ↦ [] ],
      )
  unfolding push_result execute_sweep
  sent_books safe balance hash e f g h =
      ap books (sent_run safe balance hash e f g h) ∙ confirm_sweep-books safe hash balance _

  -- The user is not due and the books are left alone, or its transaction was sent.
  pub sweep_user-cases :
      ((books (sweep_user config a user s) ≡ books s)
        × ((safe : Text) (balance : ℕ) (hash : Text) → ¬ IsDue config a user safe balance hash))
      ⊎ ((safe : Text) × (balance : ℕ) × (hash : Text) × (configured user.m2_safe_address
            ≡ some safe)
          × (a.balance ≡ some balance)
          × (leb balance config.sweep_threshold ≡ false)
          × (a.sent ≡ some hash))
  unfolding sweep_user sweep_safe create_audit_log
  sweep_user-cases = elim (Option-cases (configured user.m2_safe_address)) [
    | inl e ↦ inl (grind (arith, e), λ x y z k. absurd (grind (arith, e, k.has_safe)))
    | inr (safe, e) ↦ elim (Option-cases a.balance) [
      | inl f ↦ inl (grind (arith, e, f), λ x y z k. absurd (grind (arith, f, k.held)))
      | inr (balance, f) ↦ elim (Bool-cases (leb balance config.sweep_threshold)) [
        | inl g ↦
            inl (grind (arith, e, f, g), λ x y z k. absurd (grind (arith, f, g, k.held, k.above)))
        | inr g ↦ elim (Option-cases a.sent) [
          | inl h ↦ inl (grind (arith, e, f, g, h), λ x y z k. absurd (grind (arith, h, k.sent)))
          | inr (hash, h) ↦ inr (safe, balance, hash, e, f, g, h)
        ]
      ]
    ]
  ]
