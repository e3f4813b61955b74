-- ===== src/Watcher/Deposits.antt =====
-- backend/src/services/watcher.ts: what a deposit does to the authorization cache of its user.
use multisub_infra.Prelude.{ℕ, ◌+◌, ◌≡◌, refl, ap, ◌∙◌, Text, true, some, arith, lower, update_self}
use multisub_infra.Decimal.{big_int}
use multisub_infra.Decimal.Print.{big_int-to_string}
use multisub_infra.Types.{AuthorizationCache}
use multisub_infra.Redis.{Redis, get_auth_cache, set_auth_cache}
use multisub_infra.Redis.Charges.{Charges}
use multisub_infra.Watcher.{User, present, cache_for_deposit, update_redis_cache_for_deposit}

set-lookup :
    (r : Redis) (eoa : Text) (c : AuthorizationCache)
    → (set_auth_cache r eoa c).auth (lower eoa) ≡ some c
unfolding set_auth_cache
set-lookup r eoa c = update_self r.auth (lower eoa) (some c)

deposit-writes :
    (user : User) (eoa safe : Text) (balance now : ℕ) (r : Redis) (c : AuthorizationCache)
    → present user.eoa_address ≡ some eoa
    → present user.m2_safe_address ≡ some safe
    → r.auth (lower eoa) ≡ some c
    → update_redis_cache_for_deposit true now user (some balance) r
      ≡ set_auth_cache r eoa (cache_for_deposit user eoa safe balance now (some c))
unfolding update_redis_cache_for_deposit get_auth_cache
deposit-writes user eoa safe balance now r c e s f = grind (arith, e, s, f)

deposit-cache :
    (user : User) (eoa safe : Text) (balance now : ℕ) (r : Redis) (c : AuthorizationCache)
    → present user.eoa_address ≡ some eoa
    → present user.m2_safe_address ≡ some safe
    → r.auth (lower eoa) ≡ some c
    → (update_redis_cache_for_deposit true now user (some balance) r).auth (lower eoa)
      ≡ some (cache_for_deposit user eoa safe balance now (some c))
deposit-cache user eoa safe balance now r c e s f =
    ap (λ (x : Redis). x.auth (lower eoa)) (deposit-writes user eoa safe balance now r c e s f)
    ∙ set-lookup r eoa (cache_for_deposit user eoa safe balance now (some c))

-- The cache behind a deposit: the counters and the limits of `c`, and a balance of `c`'s plus so much.
pub record Regained (c after : AuthorizationCache) (amount : ℕ) : Type 0 where
  pub balance : big_int after.usdc_balance ≡ big_int c.usdc_balance + amount
  pub same_daily_spent : after.daily_spent ≡ c.daily_spent
  pub same_monthly_spent : after.monthly_spent ≡ c.monthly_spent
  pub same_daily_limit : after.daily_limit ≡ c.daily_limit
  pub same_monthly_limit : after.monthly_limit ≡ c.monthly_limit

-- When a cache that held the chain's balance has been charged `charged`, none of which is settled
-- on chain, a deposit that is handled leaves a cache whose balance has grown by the deposit and by
-- all that was charged: what was authorized can be spent again, up to the limits that are kept.
pub update_redis_cache_for_deposit-Regained :
    (user : User) (eoa safe : Text) (now amount charged : ℕ) (r : Redis)
    (before c : AuthorizationCache)
    → present user.eoa_address ≡ some eoa
    → present user.m2_safe_address ≡ some safe
    → r.auth (lower eoa) ≡ some c
    → Charges before c charged
    → let balance = big_int before.usdc_balance + amount in
      (after : AuthorizationCache) × ((update_redis_cache_for_deposit true now user
            (some balance)
            r).auth
          (lower eoa)
        ≡ some after)
      × Regained c after (amount + charged)
unfolding cache_for_deposit
update_redis_cache_for_deposit-Regained user eoa safe now amount charged r before c e s f h =
    let balance = big_int before.usdc_balance + amount in
    (
      cache_for_deposit user eoa safe balance now (some c),
      deposit-cache user eoa safe balance now r c e s f,
      record {
        balance = omega (arith, big_int-to_string balance, h.balance);
        same_daily_spent = refl;
        same_monthly_spent = refl;
        same_daily_limit = refl;
        same_monthly_limit = refl;
      },
    )
