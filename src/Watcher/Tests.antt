-- ===== src/Watcher/Tests.antt =====
-- Polls over a chain with one deposit.
use multisub_infra.Prelude.{
  ℕ, ◌+◌, ◌≤◌, ◌<◌, ◌≡◌, refl, sym, ap, Text, true, Option, none, some, List, [], ◌∷◌, ◌++◌, arith,
  codes, leb, if◌then◌else◌, ◌&&◌,
}
use multisub_infra.Redis.Tests.{wallet_store}
use multisub_infra.Watcher.{Config, Deposit, DepositEntry, User, Watcher, Answers, polls}
use multisub_infra.Watcher.Scan.{IsRecorded}
use multisub_infra.Watcher.Polls.{Recorded, logs_until, polls-ledger}

abbrev config : Config
config = record { poll_interval_ms = 3000; watcher_start_block = 0 }

abbrev owner : User
owner = record {
  id = codes "u1";
  tenant_id = codes "t1";
  eoa_address = some (codes "0xab");
  m2_safe_address = some (codes "0xcd");
}

abbrev deposit : Deposit
deposit = record { from = codes "0x99"; to = codes "0xCD"; amount = 500; tx_hash = codes "0x1" }

-- The chain has the deposit in block 3.
abbrev logs : ℕ → ℕ → List Deposit
logs from to = if leb from 3 && leb 3 to then deposit ∷ [] else []

logs-split : (a b c : ℕ) → a ≤ b → b < c → logs a c ≡ logs a b ++ logs (b + 1) c
logs-split a b c h l = ground arith

abbrev at_head : Option ℕ → Answers
at_head head = record {
  now = 7;
  head = head;
  meta_answers = true;
  safes = some (codes "0xcd" ∷ []);
  user = λ _. some (some owner);
  ledger_takes = λ _. true;
  settled_takes = λ _. true;
  balance = λ _. some 1500;
  redis_answers = true;
  meta_takes = true;
}

abbrev fresh : Watcher
fresh = record {
  running = true;
  timer = some 0;
  consecutive_failures = 0;
  last_poll_at = 0;
  meta = none;
  ledger = [];
  settled_events = λ _. none;
  redis = wallet_store;
  notified = [];
}

abbrev some_or : List Text → Option (List Text) → List Text
some_or d none = d
some_or d (some x) = x

at_head-IsRecorded : (head : Option ℕ) → IsRecorded (codes "0xcd" ∷ []) (λ _. owner) (at_head head)
at_head-IsRecorded head = record {
  user = λ _. refl;
  ledger_takes = λ _. refl;
  meta_takes = refl;
  same_safes = λ found e. sym (ap (some_or []) e);
}

-- The first poll sees head 4, the second none, the third head 9.
abbrev three_polls : List Answers
three_polls = at_head (some 4) ∷ at_head none ∷ at_head (some 9) ∷ []

polls-ledger_example :
    let w' = polls logs (λ _ _. []) config three_polls fresh in
    (new : List DepositEntry) × (w'.ledger ≡ [] ++ new)
    × Recorded (codes "0xcd" ∷ []) (λ _. owner) (logs_until logs config w'.meta) new
polls-ledger_example =
    polls-ledger logs (λ _ _. []) config (codes "0xcd" ∷ []) (λ _. owner) three_polls fresh
      logs-split
      (at_head-IsRecorded (some 4), (at_head-IsRecorded none, (at_head-IsRecorded (some 9), tt)))
      refl
