-- ===== src/Watcher.antt =====
-- backend/src/services/watcher.ts: polling the chain for deposits to M2 Safes and for settled
-- spends. A poll comes with what the chain, the database and Redis answer during it; a call that
-- throws has no effect. Reconcile has the reconciliation, and starting and stopping.
pub mod Scan
pub mod Polls
pub mod Deposits
pub mod Reconcile
mod Tests
use multisub_infra.Prelude.{
  ℕ, ◌+◌, ◌-◌, Text, Bool, true, false, Option, none, some, List, [], ◌∷◌, ◌++◌, leb, ltb,
  if◌then◌else◌, includes, lower, update, map,
}
use multisub_infra.Decimal.{Decimal, to_string}
use multisub_infra.Types.{AuthorizationCache, Timestamp}
use multisub_infra.Redis.{Redis, get_auth_cache, set_auth_cache}

abbrev pub confirmation_buffer : ℕ
confirmation_buffer = 2

abbrev pub max_consecutive_failures : ℕ
max_consecutive_failures = 5

abbrev pub circuit_breaker_pause_ms : ℕ
circuit_breaker_pause_ms = 30000

pub record Config : Type 0 where
  pub poll_interval_ms : ℕ
  pub watcher_start_block : ℕ

-- A `Transfer` log of the token.
pub record Deposit : Type 0 where
  pub from : Text
  pub to : Text
  pub amount : ℕ
  pub tx_hash : Text

pub record SpendSettled : Type 0 where
  pub m2_safe : Text
  pub issuer_safe : Text
  pub amount : ℕ
  pub lithic_tx_token : Text
  pub nonce : ℕ

pub record User : Type 0 where
  pub id : Text
  pub tenant_id : Text
  pub eoa_address : Option Text
  pub m2_safe_address : Option Text

-- A row of the balance ledger, whose token is USDC and whose type is deposit.
pub record DepositEntry : Type 0 where
  pub tenant_id : Text
  pub user_id : Text
  pub amount : Decimal
  pub reference : Text

-- `notified` are the calls of `onDeposit`; `meta` is the last processed block's row.
pub record Watcher : Type 0 where
  pub running : Bool
  pub timer : Option ℕ
  pub consecutive_failures : ℕ
  pub last_poll_at : ℕ
  pub meta : Option ℕ
  pub ledger : List DepositEntry
  pub settled_events : Text → Option SpendSettled
  pub redis : Redis
  pub notified : List Deposit

-- `head` is `getBlockNumber` (or it throws). `safes` are the known Safes, or `none` when one of the
-- queries behind `Promise.all` throws. `user` is the query for a deposit's user, `none` when it
-- throws.
pub record Answers : Type 0 where
  pub now : ℕ
  pub head : Option ℕ
  pub meta_answers : Bool
  pub safes : Option (List Text)
  pub user : Deposit → Option (Option User)
  pub ledger_takes : Deposit → Bool
  pub settled_takes : SpendSettled → Bool
  pub balance : Deposit → Option ℕ
  pub redis_answers : Bool
  pub meta_takes : Bool

unfoldable pub schedule_next_poll : ℕ → Watcher → Watcher
schedule_next_poll delay w = if w.running then record w { timer = some delay } else w

unfoldable pub next_block : Config → Watcher → ℕ
next_block config w = elim w.meta [ some block ↦ block + 1 | none ↦ config.watcher_start_block ]

unfoldable pub select_deposits : List Text → List Deposit → List Deposit
select_deposits safes [] = []
select_deposits safes (d ∷ ds) =
    let rest = select_deposits safes ds in
    if includes (map lower safes) (lower d.to) then d ∷ rest else rest

unfoldable pub persist_spend_settled : Answers → SpendSettled → Watcher → Watcher
persist_spend_settled a e w =
    let created = record w {
      settled_events = update w.settled_events e.lithic_tx_token (some e);
    } in
    if a.settled_takes e
    then (elim (w.settled_events e.lithic_tx_token) [ none ↦ created | some _ ↦ w ])
    else w

unfoldable pub persist_all : Answers → List SpendSettled → Watcher → Watcher
persist_all a [] w = w
persist_all a (e ∷ es) w = persist_all a es (persist_spend_settled a e w)

-- An empty address is falsy.
abbrev pub present : Option Text → Option Text
present none = none
present (some []) = none
present (some (c ∷ s)) = some (c ∷ s)

abbrev pub kept : (AuthorizationCache → Decimal) → Option AuthorizationCache → Decimal
kept field none = 0 ∷ []
kept field (some c) = field c

unfoldable pub cache_for_deposit :
    User → Text → Text → ℕ → ℕ → Option AuthorizationCache → AuthorizationCache
cache_for_deposit user eoa safe balance now existing = record {
  eoa_address = eoa;
  m2_safe_address = safe;
  tenant_id = user.tenant_id;
  usdc_balance = to_string balance;
  daily_spent = kept (λ c. c.daily_spent) existing;
  daily_limit = kept (λ c. c.daily_limit) existing;
  monthly_spent = kept (λ c. c.monthly_spent) existing;
  monthly_limit = kept (λ c. c.monthly_limit) existing;
  last_updated = Timestamp.number now;
}

-- `balance` is `balanceOf` of the Safe, or `none` when the read throws.
unfoldable pub update_redis_cache_for_deposit : Bool → ℕ → User → Option ℕ → Redis → Redis
update_redis_cache_for_deposit answers now user balance r = elim (present user.eoa_address) [
  | none ↦ r
  | some eoa ↦ elim (present user.m2_safe_address) [
    | none ↦ r
    | some safe ↦ elim balance [
      | none ↦ r
      | some n ↦
          if answers
          then set_auth_cache r eoa (cache_for_deposit user eoa safe n now (get_auth_cache r eoa))
          else r
    ]
  ]
]

abbrev pub entry_of : User → Deposit → DepositEntry
entry_of user d = record {
  tenant_id = user.tenant_id;
  user_id = user.id;
  amount = to_string d.amount;
  reference = d.tx_hash;
}

unfoldable pub credit_deposit : Answers → User → Deposit → Watcher → Watcher
credit_deposit a user d w = record w {
  ledger = w.ledger ++ entry_of user d ∷ [];
  redis = update_redis_cache_for_deposit a.redis_answers a.now user (a.balance d) w.redis;
  notified = w.notified ++ d ∷ [];
}

-- An error is logged and swallowed.
unfoldable pub handle_deposit : Answers → Deposit → Watcher → Watcher
handle_deposit a d w = elim (a.user d) [
  | none ↦ w
  | some none ↦ w
  | some (some user) ↦ if a.ledger_takes d then credit_deposit a user d w else w
]

unfoldable pub handle_all : Answers → List Deposit → Watcher → Watcher
handle_all a [] w = w
handle_all a (d ∷ ds) w = handle_all a ds (handle_deposit a d w)

-- The `catch` of a poll.
unfoldable pub fail_poll : Config → Watcher → Watcher
fail_poll config w =
    if leb max_consecutive_failures (w.consecutive_failures + 1)
    then schedule_next_poll circuit_breaker_pause_ms (record w { consecutive_failures = 0 })
    else schedule_next_poll config.poll_interval_ms
        (record w { consecutive_failures = w.consecutive_failures + 1 })

unfoldable pub complete_poll : Config → Answers → ℕ → Watcher → Watcher
complete_poll config a block w =
    if a.meta_takes
    then schedule_next_poll config.poll_interval_ms
        (record w { meta = some block; consecutive_failures = 0; last_poll_at = a.now })
    else fail_poll config w

-- The logs of the token and of the settler in a range of blocks are the chain's.
module _ (logs : ℕ → ℕ → List Deposit) (settled_logs : ℕ → ℕ → List SpendSettled)
    (config : Config) where
  unfoldable pub scan : Answers → ℕ → List Text → Watcher → Watcher
  scan a block safes w =
      let from = next_block config w in
      complete_poll config a block (
        handle_all a (select_deposits safes (logs from block))
          (persist_all a (settled_logs from block) w))

  unfoldable pub poll_to : Answers → ℕ → Watcher → Watcher
  poll_to a block w =
      if a.meta_answers
      then (if ltb block (next_block config w)
          then schedule_next_poll config.poll_interval_ms w
          else (elim a.safes [ none ↦ fail_poll config w | some safes ↦ scan a block safes w ]))
      else fail_poll config w

  unfoldable pub poll : Answers → Watcher → Watcher
  poll a w =
      if w.running
      then (elim a.head [
        | none ↦ fail_poll config w
        | some head ↦
            if ltb head confirmation_buffer
            then schedule_next_poll config.poll_interval_ms w
            else poll_to a (head - confirmation_buffer) w
      ])
      else w

  unfoldable pub polls : List Answers → Watcher → Watcher
  polls [] w = w
  polls (a ∷ rest) w = polls rest (poll a w)
