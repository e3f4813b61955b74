-- ===== src/Redis.antt =====
-- backend/src/lib/redis.ts: the cache keys, the two ways of spending from the authorization cache,
-- the card mappings and the rate counters. The Redis server is a map for each key prefix; the
-- prefixes differ, so no two of the maps share a key. Values are held as the records whose JSON
-- they are. Expiry is another client's write: a key that is gone reads `none`.
pub mod Digits
pub mod Script
pub mod Charges
pub mod Spend
pub mod Account
pub mod Tests
use multisub_infra.Prelude.{
  [], ◌∷◌, ℕ, suc, ◌+◌, ◌-◌, ◌/◌, Text, Bool, true, false, Option, none, some, not, ◌&&◌, leb, ltb,
  ◌==◌, if◌then◌else◌, update, lower, text_eq, codes,
}
use multisub_infra.Decimal.{Decimal, big_int, to_string}
use multisub_infra.Types.{AuthorizationCache, CardMapping, Timestamp}
use multisub_infra.Redis.Digits.{str_gte, str_add, str_sub}

pub record Redis : Type 0 where
  pub auth : Text → Option AuthorizationCache
  pub card : Text → Option CardMapping
  pub rate : Text → ℕ → ℕ
  pub processed : Text → Option Bool

unfoldable pub get_auth_cache : Redis → Text → Option AuthorizationCache
get_auth_cache r eoa = r.auth (lower eoa)

unfoldable pub set_auth_cache : Redis → Text → AuthorizationCache → Redis
set_auth_cache r eoa cache = record r { auth = update r.auth (lower eoa) (some cache) }

unfoldable pub get_card_mapping : Redis → Text → Option CardMapping
get_card_mapping r token = r.card token

unfoldable pub set_card_mapping : Redis → Text → CardMapping → Redis
set_card_mapping r token mapping = record r { card = update r.card token (some mapping) }

pub data SpendError : Type 0 where
  insufficient_balance daily_limit monthly_limit : SpendError

-- `{ cache, error? }`: a refusal, no cache, or the updated cache.
pub data SpendResult : Type 0 where
  refused : SpendError → SpendResult
  missing : SpendResult
  spent : AuthorizationCache → SpendResult

-- The checks of `updateAuthCacheSpend`, on BigInt values; 0 stands for no limit.
unfoldable pub check_spend : AuthorizationCache → ℕ → Option SpendError
check_spend cache spend =
    let balance = big_int cache.usdc_balance in
    let daily = big_int cache.daily_limit in
    let monthly = big_int cache.monthly_limit in
    if ltb balance spend
    then some insufficient_balance
    else if ltb 0 daily && ltb daily (big_int cache.daily_spent + spend)
    then some daily_limit
    else if ltb 0 monthly && ltb monthly (big_int cache.monthly_spent + spend)
    then some monthly_limit
    else none

unfoldable pub apply_spend : AuthorizationCache → ℕ → Timestamp → AuthorizationCache
apply_spend cache spend now = record cache {
  daily_spent = to_string (big_int cache.daily_spent + spend);
  monthly_spent = to_string (big_int cache.monthly_spent + spend);
  usdc_balance = to_string (big_int cache.usdc_balance - spend);
  last_updated = now;
}

-- `WATCH`, `GET`, the checks, then `MULTI`, `SET`, `EXEC`. Redis answers `EXEC` with null when
-- another client has written the key since the `WATCH`: `committed` is its answer. It is one step:
-- the model of a call that no other call on the connection overlaps.
unfoldable pub update_auth_cache_spend : Redis → Text → ℕ → ℕ → Bool → SpendResult × Redis
update_auth_cache_spend r eoa amount now committed = elim (r.auth (lower eoa)) [
  | none ↦ (missing, r)
  | some cache ↦ elim (check_spend cache amount) [
    | some e ↦ (refused e, r)
    | none ↦
        let next = apply_spend cache amount (Timestamp.number now) in
        if committed then (spent next, set_auth_cache r eoa next) else (missing, r)
  ]
]

-- The Lua script behind its two reads: digit strings, and limits compared with the text "0".
unfoldable pub script_check : AuthorizationCache → Decimal → Option SpendError
script_check cache amount =
    if not (str_gte cache.usdc_balance amount)
    then some insufficient_balance
    else if not (text_eq cache.daily_limit (0 ∷ []))
        && not (str_gte cache.daily_limit (str_add cache.daily_spent amount))
    then some daily_limit
    else if not (text_eq cache.monthly_limit (0 ∷ []))
        && not (str_gte cache.monthly_limit (str_add cache.monthly_spent amount))
    then some monthly_limit
    else none

unfoldable pub script_apply : AuthorizationCache → Decimal → Decimal → AuthorizationCache
script_apply cache amount now_ms = record cache {
  usdc_balance = str_sub cache.usdc_balance amount;
  daily_spent = str_add cache.daily_spent amount;
  monthly_spent = str_add cache.monthly_spent amount;
  last_updated = Timestamp.string now_ms;
}

-- `SPEND_LUA_SCRIPT`, which Redis runs with no other command in between.
unfoldable pub spend_script : Redis → Text → Decimal → Decimal → SpendResult × Redis
spend_script r key amount now_ms = elim (r.auth key) [
  | none ↦ (missing, r)
  | some cache ↦ elim (script_check cache amount) [
    | some e ↦ (refused e, r)
    | none ↦
        let next = script_apply cache amount now_ms in
        (spent next, record r { auth = update r.auth key (some next) })
  ]
]

unfoldable pub atomic_auth_spend : Redis → Text → ℕ → ℕ → SpendResult × Redis
atomic_auth_spend r eoa amount now = spend_script r (lower eoa) (to_string amount) (to_string now)

pub record RateResult : Type 0 where
  pub allowed : Bool
  pub remaining : ℕ

abbrev rate_incr : (Text → ℕ → ℕ) → Text → ℕ → ℕ → Text → ℕ → ℕ
rate_incr m k w v j x = if text_eq j k && x == w then v else m j x

-- `INCR` of the counter of the window that `now_ms` falls in. A counter that has expired, or was
-- never written, reads 0.
unfoldable pub check_rate_limit : Redis → Text → ℕ → ℕ → ℕ → RateResult × Redis
check_rate_limit r tenant limit window_seconds now_ms =
    let window = now_ms / 1000 / window_seconds in
    let current = r.rate tenant window + 1 in
    (
      record { allowed = leb current limit; remaining = limit - current },
      record r { rate = rate_incr r.rate tenant window current },
    )
