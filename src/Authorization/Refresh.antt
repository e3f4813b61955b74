-- ===== src/Authorization/Refresh.antt =====
-- backend/src/services/authorization-engine.ts: `refreshCache`, which rebuilds the cache of an
-- address from the rows of the database.
use multisub_infra.Prelude.{
  ℕ, ◌+◌, Text, Bool, true, false, Option, none, some, List, [], ◌∷◌, ◌&&◌, text_eq, lower, leb,
  if◌then◌else◌, ℤ, pos, ◌+ℤ◌, ◌-ℤ◌, pos_part, codes,
}
use multisub_infra.Decimal.{to_string}
use multisub_infra.Types.{AuthorizationCache, CardMapping, CardStatus, Timestamp}
use multisub_infra.Redis.{set_auth_cache, set_card_mapping}
use multisub_infra.Authorization.State.{
  SubAccount, User, Transaction, TransactionType, TransactionStatus, LedgerEntry, LedgerType,
  Database, Action, failure, raise, pure, read, write, date, ◌>>=◌, ◌>>◌,
}

abbrev pub is_active : CardStatus → Bool
is_active CardStatus.active = true
is_active _ = false

-- The newest of the active sub-accounts.
unfoldable pub newest_active : List SubAccount → Option SubAccount
newest_active [] = none
newest_active (s ∷ ss) = elim (newest_active ss) [
  | none ↦ if is_active s.status then some s else none
  | some t ↦ if is_active s.status && leb t.created_at s.created_at then some s else some t
]

-- `type: "authorization", status: { in: ["approved", "settled"] }`
abbrev pub counts : Transaction → Bool
counts t = elim t.type [
  | TransactionType.authorization ↦ elim t.status [
    | TransactionStatus.approved ↦ true
    | TransactionStatus.settled ↦ true
    | _ ↦ false
  ]
  | _ ↦ false
]

-- The sum of the user's counted amounts from a time on.
unfoldable pub spent_since : List Transaction → Text → ℕ → ℕ
spent_since [] user since = 0
spent_since (t ∷ ts) user since =
    (if text_eq t.user_id user && counts t && leb since t.created_at then t.amount else 0)
    + spent_since ts user since

abbrev pub is_credit : LedgerType → Bool
is_credit LedgerType.deposit = true
is_credit LedgerType.refund = true
is_credit LedgerType.yield = true
is_credit _ = false

-- The loop over the user's USDC entries.
unfoldable pub net_balance : Text → ℤ → List LedgerEntry → ℤ
net_balance user net [] = net
net_balance user net (e ∷ es) =
    net_balance user
      (if text_eq e.user_id user && text_eq e.token (codes "USDC")
        then (if is_credit e.type then net +ℤ pos e.amount else net -ℤ pos e.amount)
        else net)
      es

abbrev pub text_or : Option Text → Text
text_or none = []
text_or (some t) = t

-- The cache that is written; a net balance below zero counts as zero.
unfoldable pub rebuilt : Database → Text → User → SubAccount → ℕ → ℕ → AuthorizationCache
unfolding spent_since net_balance
rebuilt db eoa user sub now written = record {
  eoa_address = eoa;
  m2_safe_address = text_or user.m2_safe_address;
  tenant_id = user.tenant_id;
  usdc_balance = to_string (pos_part (net_balance user.id (pos 0) db.ledger));
  daily_spent = to_string (spent_since db.transactions user.id (db.start_of_day now));
  daily_limit = to_string sub.daily_limit;
  monthly_spent = to_string (spent_since db.transactions user.id (db.start_of_month now));
  monthly_limit = to_string sub.monthly_limit;
  last_updated = Timestamp.number written;
}

unfoldable pub rebuilt_mapping : Text → User → SubAccount → CardMapping
rebuilt_mapping eoa user sub = record {
  sub_account_id = sub.id;
  tenant_id = user.tenant_id;
  eoa_address = eoa;
  m2_safe_address = text_or user.m2_safe_address;
  status = sub.status;
}

-- An empty token is falsy.
abbrev pub link_card : Text → User → SubAccount → Option Text → Action (Unit {0})
link_card eoa user sub none = pure tt
link_card eoa user sub (some []) = pure tt
link_card eoa user sub (some (c ∷ t)) =
    write (λ r. set_card_mapping r (c ∷ t) (rebuilt_mapping eoa user sub))

-- The three queries of `Promise.all` are one call.
unfoldable pub rebuild : Database → Text → User → SubAccount → Action (Unit {0})
rebuild db eoa user sub = do
  now ← date db
  read (λ r. tt)
  written ← date db
  write (λ r. set_auth_cache r eoa (rebuilt db eoa user sub now written))
  link_card eoa user sub sub.lithic_card_token

unfoldable pub rebuild_newest : Database → Text → User → Option SubAccount → Action (Unit {0})
rebuild_newest db eoa user none = raise failure
rebuild_newest db eoa user (some sub) = rebuild db eoa user sub

unfoldable pub rebuild_found : Database → Text → Option User → Action (Unit {0})
rebuild_found db eoa none = raise failure
rebuild_found db eoa (some user) = rebuild_newest db eoa user (newest_active user.sub_accounts)

unfoldable pub refresh_cache : Database → Text → Action (Unit {0})
refresh_cache db eoa_address = do
  user ← read (λ r. db.user_by_eoa (lower eoa_address))
  rebuild_found db (lower eoa_address) user
