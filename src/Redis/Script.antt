-- ===== src/Redis/Script.antt =====
-- The Lua script and the BigInt path of backend/src/lib/redis.ts are one function of the cache.
use mathlib.Core.Option
use multisub_infra.Prelude.{
  ℕ, ◌+◌, ◌-◌, ◌≤◌, ◌≡◌, refl, ◌∙◌, ap, Text, true, none, some, not, [], ◌∷◌, arith, text_eq,
  text_eq_iff, lower, update, ltb, Option-cases, inl, inr,
}
use multisub_infra.Decimal.{Decimal, big_int, to_string, IsCanonical}
use multisub_infra.Decimal.Print.{to_string-IsCanonical, big_int-to_string, big_int_injective}
use multisub_infra.Types.{AuthorizationCache, Timestamp}
use multisub_infra.Redis.Digits.{str_gte, str_add, str_sub}
use multisub_infra.Redis.Digits.Order.{str_gte_lem}
use multisub_infra.Redis.Digits.Sum.{str_add_lem, str_add-IsCanonical, big_int-str_add}
use multisub_infra.Redis.Digits.Difference.{str_sub_lem}
use multisub_infra.Redis.{
  Redis, SpendResult, refused, missing, spent, check_spend, apply_spend, script_check, script_apply,
  spend_script, atomic_auth_spend, update_auth_cache_spend, set_auth_cache,
}

-- The amounts of a cache are texts that `toString()` can have printed.
pub record IsWellFormed (c : AuthorizationCache) : Type 0 where
  pub balance : IsCanonical c.usdc_balance
  pub daily_spent : IsCanonical c.daily_spent
  pub daily_limit : IsCanonical c.daily_limit
  pub monthly_spent : IsCanonical c.monthly_spent
  pub monthly_limit : IsCanonical c.monthly_limit

big_int_zero : big_int (0 ∷ []) ≡ 0
big_int_zero = unfold big_int in refl

-- `limit ~= "0"` is `limit > 0n`.
unlimited_lem : (a : Decimal) → IsCanonical a → not (text_eq a (0 ∷ [])) ≡ ltb 0 (big_int a)
unlimited_lem a h = ground (
  arith,
  text_eq_iff a (0 ∷ []),
  big_int_zero,
  ap big_int {x = a} {y = 0 ∷ []},
  big_int_injective a (0 ∷ []) h (omega arith),
)

-- `not str_gte(limit, str_add(spent, amount))` is `spent + amount > limit`.
exceeds_lem :
    (limit total : Decimal)
    → IsCanonical limit
    → IsCanonical total
    → not (str_gte limit total) ≡ ltb (big_int limit) (big_int total)
exceeds_lem limit total hl ht = ground (arith, str_gte_lem limit total hl ht)

-- The script's sums and differences with an amount that it was handed by `toString()`.
str_add_amount :
    (a : Decimal) (n : ℕ) → IsCanonical a → str_add a (to_string n) ≡ to_string (big_int a + n)
str_add_amount a n h =
    str_add_lem a (to_string n) h (to_string-IsCanonical n)
    ∙ ap (λ k. to_string (big_int a + k)) (big_int-to_string n)

str_sub_amount :
    (a : Decimal) (n : ℕ)
    → IsCanonical a
    → n ≤ big_int a
    → str_sub a (to_string n) ≡ to_string (big_int a - n)
str_sub_amount a n h le =
    str_sub_lem a (to_string n) h (to_string-IsCanonical n) (omega (arith, big_int-to_string n))
    ∙ ap (λ k. to_string (big_int a - k)) (big_int-to_string n)

module _ (c : AuthorizationCache) (w : IsWellFormed c) (n : ℕ) where
  script_check_lem : script_check c (to_string n) ≡ check_spend c n
  unfolding script_check check_spend
  script_check_lem =
      rw
        (
          exceeds_lem c.usdc_balance (to_string n) w.balance (to_string-IsCanonical n),
          exceeds_lem c.daily_limit (str_add c.daily_spent (to_string n)) w.daily_limit (
              str_add-IsCanonical c.daily_spent (to_string n) w.daily_spent
                (to_string-IsCanonical n)),
          exceeds_lem c.monthly_limit (str_add c.monthly_spent (to_string n)) w.monthly_limit (
              str_add-IsCanonical c.monthly_spent (to_string n) w.monthly_spent
                (to_string-IsCanonical n)),
          unlimited_lem c.daily_limit w.daily_limit,
          unlimited_lem c.monthly_limit w.monthly_limit,
        )
        (simp (big_int-str_add, big_int-to_string))

  check_spend-covers : check_spend c n ≡ none → n ≤ big_int c.usdc_balance
  unfolding check_spend
  check_spend-covers h = ground arith

  script_apply_lem :
      (now : ℕ)
      → check_spend c n ≡ none
      → script_apply c (to_string n) (to_string now)
        ≡ apply_spend c n (Timestamp.string (to_string now))
  unfolding script_apply apply_spend
  script_apply_lem now h = cc (
    str_sub_amount c.usdc_balance n w.balance (check_spend-covers h),
    str_add_amount c.daily_spent n w.daily_spent,
    str_add_amount c.monthly_spent n w.monthly_spent,
  )

-- A spend writes well-formed amounts back.
pub apply_spend-IsWellFormed :
    (c : AuthorizationCache) (n : ℕ) (now : Timestamp)
    → IsWellFormed c
    → IsWellFormed (apply_spend c n now)
unfolding apply_spend
apply_spend-IsWellFormed c n now w = record {
  balance = to_string-IsCanonical (big_int c.usdc_balance - n);
  daily_spent = to_string-IsCanonical (big_int c.daily_spent + n);
  daily_limit = w.daily_limit;
  monthly_spent = to_string-IsCanonical (big_int c.monthly_spent + n);
  monthly_limit = w.monthly_limit;
}

-- The outcome of a spend from the cache under a key, with the checks on numbers.
unfoldable pub spend_number : Redis → Text → ℕ → Timestamp → SpendResult × Redis
spend_number r eoa n now = elim (r.auth (lower eoa)) [
  | none ↦ (missing, r)
  | some cache ↦ elim (check_spend cache n) [
    | some e ↦ (refused e, r)
    | none ↦ (
      spent (apply_spend cache n now),
      record r { auth = update r.auth (lower eoa) (some (apply_spend cache n now)) },
    )
  ]
]

-- Every cache entry holds well-formed amounts.
abbrev pub AllWellFormed : Redis → Type 0
AllWellFormed r = (k : Text) (c : AuthorizationCache) → r.auth k ≡ some c → IsWellFormed c

-- On a store of well-formed entries the Lua script, on digit strings, returns and writes what the
-- checks and sums on BigInt values give; only `lastUpdated` differs in form, a string of the
-- milliseconds where the WATCH path writes the number.
pub atomic_auth_spend-eq-number :
    (r : Redis) (eoa : Text) (n now : ℕ)
    → AllWellFormed r
    → atomic_auth_spend r eoa n now ≡ spend_number r eoa n (Timestamp.string (to_string now))
unfolding atomic_auth_spend spend_script spend_number
atomic_auth_spend-eq-number r eoa n now w = elim (Option-cases (r.auth (lower eoa))) [
  | inl gone ↦ ground (arith, gone)
  | inr (c, found) ↦
      let wc = w (lower eoa) c found in
      elim (Option-cases (check_spend c n)) [
        | inl fine ↦
            ground (arith, found, fine, script_check_lem c wc n, script_apply_lem c wc n now fine)
        | inr (e, refusal) ↦ ground (arith, found, refusal, script_check_lem c wc n)
      ]
]

-- The WATCH/MULTI path that commits gives the same with the number as `lastUpdated`.
pub update_auth_cache_spend-eq-number :
    (r : Redis) (eoa : Text) (n now : ℕ)
    → update_auth_cache_spend r eoa n now true ≡ spend_number r eoa n (Timestamp.number now)
unfolding update_auth_cache_spend spend_number set_auth_cache
update_auth_cache_spend-eq-number r eoa n now = ground (arith, Option-cases (r.auth (lower eoa)))

-- The time that a `lastUpdated` stands for: the number, or the number its digits write.
abbrev pub time_of : Timestamp → ℕ
time_of (Timestamp.number n) = n
time_of (Timestamp.string d) = big_int d

-- A cache, and a result, with the time of `lastUpdated` as a number.
abbrev pub dated : AuthorizationCache → AuthorizationCache
dated c = record c { last_updated = Timestamp.number (time_of c.last_updated) }

abbrev pub dated_result : SpendResult → SpendResult
dated_result (refused e) = refused e
dated_result missing = missing
dated_result (spent c) = spent (dated c)

spend_number-dated :
    (r : Redis) (eoa : Text) (n : ℕ) (t u : Timestamp) (k : Text)
    → time_of t ≡ time_of u
    → let (x, r') = spend_number r eoa n t in
      let (y, r'') = spend_number r eoa n u in
      (dated_result x ≡ dated_result y)
      × (Option.map dated (r'.auth k) ≡ Option.map dated (r''.auth k))
unfolding spend_number apply_spend update
spend_number-dated r eoa n t u k e =
    ground (arith, e, Option-cases (r.auth (lower eoa)), text_eq_iff k (lower eoa))

-- On a store of well-formed entries the Lua script, which computes on digit strings, and the
-- WATCH/MULTI path that commits, which computes on BigInt values, return the same result and leave
-- the same cache under every key, where a `lastUpdated` that is a string of digits is taken as the
-- number it writes.
pub script-agrees-watch :
    (r : Redis) (eoa : Text) (n now : ℕ) (k : Text)
    → AllWellFormed r
    → let (x, r') = atomic_auth_spend r eoa n now in
      let (y, r'') = update_auth_cache_spend r eoa n now true in
      (dated_result x ≡ dated_result y)
      × (Option.map dated (r'.auth k) ≡ Option.map dated (r''.auth k))
script-agrees-watch r eoa n now k w =
    rw (atomic_auth_spend-eq-number r eoa n now w, update_auth_cache_spend-eq-number r eoa n now)
      (spend_number-dated r eoa n (Timestamp.string (to_string now)) (Timestamp.number now) k
        (big_int-to_string now))
