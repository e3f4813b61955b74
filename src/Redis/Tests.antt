-- ===== src/Redis/Tests.antt =====
-- The authorization cache on concrete entries.
use mathlib.Core.Path.{subst}
use mathlib.Core.Option
use multisub_infra.Prelude.{
  map, ◌+◌, ◌-◌, ◌≡◌, refl, ap, Text, true, Option, none, some, List, [], ◌∷◌, arith, text_eq,
  update, lower, codes, Bool-cases, inl, inr, leb,
}
use multisub_infra.Decimal.{big_int, to_string, value_from, emit, IsCanonical}
use multisub_infra.Types.{AuthorizationCache, Timestamp}
use multisub_infra.Redis.{
  Redis, refused, spent, daily_limit, check_spend, apply_spend, atomic_auth_spend,
  update_auth_cache_spend,
}
use multisub_infra.Redis.Digits.{str_gte, str_add, str_sub}
use multisub_infra.Redis.Digits.Order.{str_gte_lem}
use multisub_infra.Redis.Digits.Sum.{str_add_lem}
use multisub_infra.Redis.Digits.Difference.{str_sub_lem}
use multisub_infra.Redis.Script.{
  IsWellFormed, AllWellFormed, dated, dated_result, script-agrees-watch,
}
use multisub_infra.Redis.Spend.{Request, script, watched, run, run-Charges}
use multisub_infra.Redis.Charges.{Charges}
use multisub_infra.Redis.Account.{view_answer, view_store, serve_all, book_all, serve_all-refines}

abbrev pub wallet : Text
wallet = codes "0xab"

abbrev pub wallet_cache : AuthorizationCache
wallet_cache = record {
  eoa_address = codes "0xab";
  m2_safe_address = codes "0xcd";
  tenant_id = codes "t1";
  usdc_balance = 1 ∷ 0 ∷ 0 ∷ 0 ∷ [];
  daily_spent = 9 ∷ 9 ∷ [];
  daily_limit = 5 ∷ 0 ∷ 0 ∷ [];
  monthly_spent = 9 ∷ 9 ∷ [];
  monthly_limit = 0 ∷ [];
  last_updated = Timestamp.number 7;
}

abbrev pub wallet_store : Redis
wallet_store = record {
  auth = update (λ _. none) wallet (some wallet_cache);
  card = λ _. none;
  rate = λ _ _. 0;
  processed = λ _. none;
}

IsCanonical-1000 : IsCanonical (1 ∷ 0 ∷ 0 ∷ 0 ∷ [])
IsCanonical-1000 = (omega arith, omega arith, (omega arith, (omega arith, (omega arith, tt))))

IsCanonical-99 : IsCanonical (9 ∷ 9 ∷ [])
IsCanonical-99 = (omega arith, omega arith, (omega arith, tt))

IsCanonical-250 : IsCanonical (2 ∷ 5 ∷ 0 ∷ [])
IsCanonical-250 = (omega arith, omega arith, (omega arith, (omega arith, tt)))

wallet_cache-IsWellFormed : IsWellFormed wallet_cache
wallet_cache-IsWellFormed = record {
  balance = IsCanonical-1000;
  daily_spent = IsCanonical-99;
  daily_limit = (omega arith, omega arith, (omega arith, (omega arith, tt)));
  monthly_spent = IsCanonical-99;
  monthly_limit = omega arith;
}

abbrev or_wallet : Option AuthorizationCache → AuthorizationCache
or_wallet none = wallet_cache
or_wallet (some c) = c

pub wallet_store-AllWellFormed : AllWellFormed wallet_store
unfolding update
wallet_store-AllWellFormed k c e = elim (Bool-cases (text_eq k wallet)) [
  | inl here ↦ subst IsWellFormed (ground (arith, here, ap or_wallet e)) wallet_cache-IsWellFormed
  | inr other ↦ absurd (ground (arith, other, e))
]

-- Within the daily limit, and beyond it.
spend_in_limit :
    (update_auth_cache_spend wallet_store (codes "0xAB") 250 9 true).0
    ≡ spent (record wallet_cache {
      usdc_balance = 7 ∷ 5 ∷ 0 ∷ [];
      daily_spent = 3 ∷ 4 ∷ 9 ∷ [];
      monthly_spent = 3 ∷ 4 ∷ 9 ∷ [];
      last_updated = Timestamp.number 9;
    })
unfolding update_auth_cache_spend check_spend apply_spend update lower text_eq big_int value_from
    to_string emit
spend_in_limit = refl

spend_over_limit : (update_auth_cache_spend wallet_store wallet 402 9 true).0 ≡ refused daily_limit
unfolding update_auth_cache_spend check_spend update lower text_eq big_int value_from
spend_over_limit = refl

script-agrees-watch_example :
    let (x, r') = atomic_auth_spend wallet_store wallet 250 9 in
    let (y, r'') = update_auth_cache_spend wallet_store wallet 250 9 true in
    (dated_result x ≡ dated_result y)
    × (Option.map dated (r'.auth wallet) ≡ Option.map dated (r''.auth wallet))
script-agrees-watch_example =
    script-agrees-watch wallet_store wallet 250 9 wallet wallet_store-AllWellFormed

abbrev two_spends : List Request
two_spends = script wallet 250 9 ∷ watched wallet 402 9 true ∷ watched wallet 100 10 true ∷ []

run-Charges_example :
    let (total, r') = run wallet wallet_store two_spends in
    (c' : AuthorizationCache) × (r'.auth wallet ≡ some c')
    × Charges wallet_cache c' total
    × AllWellFormed r'
run-Charges_example =
    run-Charges wallet wallet_cache two_spends wallet_store wallet_store-AllWellFormed
      (unfold update text_eq in refl)

str_gte_example :
    str_gte (1 ∷ 0 ∷ 0 ∷ 0 ∷ []) (9 ∷ 9 ∷ [])
    ≡ leb (big_int (9 ∷ 9 ∷ [])) (big_int (1 ∷ 0 ∷ 0 ∷ 0 ∷ []))
str_gte_example = str_gte_lem (1 ∷ 0 ∷ 0 ∷ 0 ∷ []) (9 ∷ 9 ∷ []) IsCanonical-1000 IsCanonical-99

str_sub_example :
    str_sub (1 ∷ 0 ∷ 0 ∷ 0 ∷ []) (2 ∷ 5 ∷ 0 ∷ [])
    ≡ to_string (big_int (1 ∷ 0 ∷ 0 ∷ 0 ∷ []) - big_int (2 ∷ 5 ∷ 0 ∷ []))
str_sub_example =
    str_sub_lem (1 ∷ 0 ∷ 0 ∷ 0 ∷ []) (2 ∷ 5 ∷ 0 ∷ []) IsCanonical-1000 IsCanonical-250
      (unfold big_int value_from in omega arith)

str_add_example :
    str_add (1 ∷ 0 ∷ 0 ∷ 0 ∷ []) (9 ∷ 9 ∷ [])
    ≡ to_string (big_int (1 ∷ 0 ∷ 0 ∷ 0 ∷ []) + big_int (9 ∷ 9 ∷ []))
str_add_example = str_add_lem (1 ∷ 0 ∷ 0 ∷ 0 ∷ []) (9 ∷ 9 ∷ []) IsCanonical-1000 IsCanonical-99

serve_all-refines_example :
    (map view_answer (serve_all wallet_store two_spends).0
      ≡ (book_all (view_store wallet_store) two_spends).0)
    × (view_store (serve_all wallet_store two_spends).1
        ≡ (book_all (view_store wallet_store) two_spends).1)
serve_all-refines_example = serve_all-refines two_spends wallet_store wallet_store-AllWellFormed
