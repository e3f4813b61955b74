-- ===== src/Redis/Charges.antt =====
-- What it is for a cache to have been charged an amount, and the limits it keeps to.
use multisub_infra.Prelude.{ℕ, ◌+◌, ◌-◌, ◌≤◌, ◌<◌, ◌≡◌, refl, none, arith}
use multisub_infra.Decimal.{big_int}
use multisub_infra.Decimal.Print.{big_int-to_string}
use multisub_infra.Types.{AuthorizationCache, Timestamp}
use multisub_infra.Redis.{check_spend, apply_spend}

pub record WithinLimits (c : AuthorizationCache) : Type 0 where
  pub daily : 0 < big_int c.daily_limit → big_int c.daily_spent ≤ big_int c.daily_limit
  pub monthly : 0 < big_int c.monthly_limit → big_int c.monthly_spent ≤ big_int c.monthly_limit

-- `t` has been taken from the balance and added to both counters, the limits are the same, and
-- they hold where they held.
pub record Charges (c c' : AuthorizationCache) (t : ℕ) : Type 0 where
  pub balance : big_int c'.usdc_balance + t ≡ big_int c.usdc_balance
  pub daily : big_int c'.daily_spent ≡ big_int c.daily_spent + t
  pub monthly : big_int c'.monthly_spent ≡ big_int c.monthly_spent + t
  pub same_daily : c'.daily_limit ≡ c.daily_limit
  pub same_monthly : c'.monthly_limit ≡ c.monthly_limit
  pub limits : WithinLimits c → WithinLimits c'

pub Charges-refl : (c : AuthorizationCache) → Charges c c 0
Charges-refl c = record {
  balance = omega arith;
  daily = omega arith;
  monthly = omega arith;
  same_daily = refl;
  same_monthly = refl;
  limits = λ w. w;
}

pub Charges-trans :
    {a b c : AuthorizationCache} {s t : ℕ} → Charges a b s → Charges b c t → Charges a c (s + t)
Charges-trans p q = record {
  balance = omega (arith, p.balance, q.balance);
  daily = omega (arith, p.daily, q.daily);
  monthly = omega (arith, p.monthly, q.monthly);
  same_daily = cc (p.same_daily, q.same_daily);
  same_monthly = cc (p.same_monthly, q.same_monthly);
  limits = λ w. q.limits (p.limits w);
}

pub apply_spend-Charges :
    (c : AuthorizationCache) (n : ℕ) (now : Timestamp)
    → check_spend c n ≡ none
    → Charges c (apply_spend c n now) n
unfolding check_spend apply_spend
apply_spend-Charges c n now h =
    let b = big_int-to_string (big_int c.usdc_balance - n) in
    let d = big_int-to_string (big_int c.daily_spent + n) in
    let m = big_int-to_string (big_int c.monthly_spent + n) in
    record {
      balance = ground (arith, b);
      daily = d;
      monthly = m;
      same_daily = refl;
      same_monthly = refl;
      limits = λ w. record { daily = λ p. ground (arith, d); monthly = λ p. ground (arith, m) };
    }

-- A spend that is made leaves both counters within their limits.
pub apply_spend-WithinLimits :
    (c : AuthorizationCache) (n : ℕ) (now : Timestamp)
    → check_spend c n ≡ none
    → WithinLimits (apply_spend c n now)
unfolding check_spend apply_spend
apply_spend-WithinLimits c n now h =
    let d = big_int-to_string (big_int c.daily_spent + n) in
    let m = big_int-to_string (big_int c.monthly_spent + n) in
    record { daily = λ p. ground (arith, d); monthly = λ p. ground (arith, m) }
