-- ===== src/Watcher/Reconcile.antt =====
-- backend/src/services/watcher.ts: starting and stopping the watcher, and its reconciliation of the
-- cached balances with those on chain. A reconciliation is one step.
mod Tests
use multisub_infra.Prelude.{
  ℕ, ◌+◌, ◌≡◌, ◌≢◌, refl, sym, ap, ◌∙◌, inl, inr, Text, Bool, true, false, Option, none, some, List,
  [], ◌∷◌, ◌++◌, arith, All, if◌then◌else◌, lower, update_ne, text_eq, text_eq_iff, Option-cases,
  Bool-cases,
}
use mathlib.Core.Path.{subst}
use multisub_infra.Decimal.{big_int}
use multisub_infra.Types.{AuthorizationCache}
use multisub_infra.Redis.{Redis, get_auth_cache, set_auth_cache}
use multisub_infra.Redis.Charges.{Charges}
use multisub_infra.Watcher.{
  User, Watcher, present, cache_for_deposit, update_redis_cache_for_deposit, schedule_next_poll,
}
use multisub_infra.Watcher.Deposits.{Regained, update_redis_cache_for_deposit-Regained}

pub record Reconciler : Type 0 where
  pub watcher : Watcher
  pub reconciliation_timer : Bool
  pub last_reconciliation_at : ℕ

-- The active users with both addresses, or `none` when the query throws; the balance of a user's
-- Safe, or `none`; and whether Redis answers.
pub record Answers : Type 0 where
  pub now : ℕ
  pub users : Option (List User)
  pub balance : User → Option ℕ
  pub redis_answers : User → Bool

unfoldable pub schedule_reconciliation : Reconciler → Reconciler
schedule_reconciliation s =
    if s.watcher.running then record s { reconciliation_timer = true } else s

unfoldable pub start : Reconciler → Reconciler
unfolding schedule_reconciliation schedule_next_poll
start s =
    if s.watcher.running
    then s
    else schedule_reconciliation
        (record s { watcher = schedule_next_poll 0 (record (s.watcher) { running = true }) })

unfoldable pub stop : Reconciler → Reconciler
stop s = record s {
  watcher = record (s.watcher) { running = false; timer = none };
  reconciliation_timer = false;
}

-- An error for one user is logged and swallowed.
unfoldable pub reconcile_user : Answers → User → Redis → Redis
reconcile_user a user r = elim (present user.m2_safe_address) [
  | none ↦ r
  | some safe ↦ elim (present user.eoa_address) [
    | none ↦ r
    | some eoa ↦ elim (a.balance user) [
      | none ↦ r
      | some n ↦
          if a.redis_answers user
          then set_auth_cache r eoa (cache_for_deposit user eoa safe n a.now (get_auth_cache r eoa))
          else r
    ]
  ]
]

unfoldable pub reconcile_all : Answers → List User → Redis → Redis
reconcile_all a [] r = r
reconcile_all a (u ∷ us) r = reconcile_all a us (reconcile_user a u r)

-- The next reconciliation is scheduled also when the query throws.
unfoldable pub reconcile : Answers → Reconciler → Reconciler
unfolding schedule_reconciliation reconcile_all
reconcile a s =
    if s.watcher.running
    then elim a.users [
      | none ↦ schedule_reconciliation s
      | some users ↦ schedule_reconciliation (record s {
        watcher = record (s.watcher) { redis = reconcile_all a users s.watcher.redis };
        last_reconciliation_at = a.now;
      })
    ]
    else s

-- A user with both addresses is reconciled as by a deposit.
reconcile_user-deposit :
    (a : Answers) (user : User) (r : Redis)
    → reconcile_user a user r
      ≡ update_redis_cache_for_deposit (a.redis_answers user) a.now user (a.balance user) r
unfolding reconcile_user update_redis_cache_for_deposit
reconcile_user-deposit a user r = elim (Option-cases (present user.m2_safe_address)) [
  | inl e ↦ elim (Option-cases (present user.eoa_address)) [
    | inl f ↦ grind (arith, e, f)
    | inr (eoa, f) ↦ grind (arith, e, f)
  ]
  | inr (safe, e) ↦ elim (Option-cases (present user.eoa_address)) [
    | inl f ↦ grind (arith, e, f)
    | inr (eoa, f) ↦ grind (arith, e, f)
  ]
]

-- A user of another address.
abbrev pub IsElsewhere : Text → User → Type 0
IsElsewhere k u = (eoa : Text) → present u.eoa_address ≡ some eoa → text_eq k (lower eoa) ≡ false

reconcile_user-elsewhere :
    (a : Answers) (u : User) (r : Redis) (k : Text)
    → IsElsewhere k u
    → (reconcile_user a u r).auth k ≡ r.auth k
unfolding reconcile_user set_auth_cache
reconcile_user-elsewhere a u r k away = elim (Option-cases (present u.m2_safe_address)) [
  | inl e ↦ grind (arith, e)
  | inr (safe, e) ↦ elim (Option-cases (present u.eoa_address)) [
    | inl f ↦ grind (arith, e, f)
    | inr (eoa, f) ↦ elim (Option-cases (a.balance u)) [
      | inl g ↦ grind (arith, e, f, g)
      | inr (n, g) ↦ grind (
        arith,
        e,
        f,
        g,
        update_ne r.auth (lower eoa)
            (some (cache_for_deposit u eoa safe n a.now (get_auth_cache r eoa))) k (away eoa f),
      )
    ]
  ]
]

reconcile_all-elsewhere :
    (a : Answers) (us : List User) (r : Redis) (k : Text)
    → All (IsElsewhere k) us
    → (reconcile_all a us r).auth k ≡ r.auth k
unfolding reconcile_all
reconcile_all-elsewhere a [] r k h = refl
reconcile_all-elsewhere a (u ∷ us) r k (h, hs) =
    reconcile_all-elsewhere a us (reconcile_user a u r) k hs ∙ reconcile_user-elsewhere a u r k h

reconcile_all-append :
    (a : Answers) (us vs : List User) (r : Redis)
    → reconcile_all a (us ++ vs) r ≡ reconcile_all a vs (reconcile_all a us r)
unfolding reconcile_all
reconcile_all-append a [] vs r = refl
reconcile_all-append a (u ∷ us) vs r = reconcile_all-append a us vs (reconcile_user a u r)

-- A reconciliation of the users before and after one of another address each.
module _ (a : Answers) (us vs : List User) (user : User) (eoa safe : Text) (r : Redis) where
  abbrev key : Text
  key = lower eoa

  middle :
      All (IsElsewhere key) us
      → All (IsElsewhere key) vs
      → (reconcile_all a (us ++ user ∷ vs) r).auth key
        ≡ (update_redis_cache_for_deposit
              (a.redis_answers user)
              a.now
              user
              (a.balance user)
              (reconcile_all a us r)).auth
            key
  unfolding reconcile_all
  middle front back =
      ap (λ (x : Redis). x.auth key) (reconcile_all-append a us (user ∷ vs) r)
      ∙ reconcile_all-elsewhere a vs (reconcile_user a user (reconcile_all a us r)) key back
      ∙ ap (λ (x : Redis). x.auth key) (reconcile_user-deposit a user (reconcile_all a us r))

plus_zero : (n : ℕ) → n + 0 ≡ n
plus_zero n = omega arith

zero_plus : (n : ℕ) → 0 + n ≡ n
zero_plus n = omega arith

reconcile_run :
    (a : Answers) (s : Reconciler) (users : List User)
    → s.watcher.running ≡ true
    → a.users ≡ some users
    → (reconcile a s).watcher.redis ≡ reconcile_all a users s.watcher.redis
unfolding reconcile schedule_reconciliation
reconcile_run a s users e f = grind (arith, e, f)

-- When the cache of a user held the chain's balance and has been charged `charged`, none of which is
-- settled on chain, and no other user has its address: a reconciliation in which the calls for that
-- user are answered puts all that was charged back into the balance, and keeps counters and limits.
pub reconcile-Regained :
    (a : Answers) (s : Reconciler) (us vs : List User) (user : User) (eoa safe : Text)
    (before c : AuthorizationCache) (charged : ℕ)
    → s.watcher.running ≡ true
    → a.users ≡ some (us ++ user ∷ vs)
    → All (IsElsewhere (lower eoa)) us
    → All (IsElsewhere (lower eoa)) vs
    → present user.eoa_address ≡ some eoa
    → present user.m2_safe_address ≡ some safe
    → a.balance user ≡ some (big_int before.usdc_balance)
    → a.redis_answers user ≡ true
    → s.watcher.redis.auth (lower eoa) ≡ some c
    → Charges before c charged
    → (after : AuthorizationCache) × ((reconcile a s).watcher.redis.auth (lower eoa) ≡ some after)
      × Regained c after charged
reconcile-Regained a s us vs user eoa safe before c charged on given front back e f balance takes
      found h =
    let r = s.watcher.redis in
    let r1 = reconcile_all a us r in
    let found1 = reconcile_all-elsewhere a us r (lower eoa) front ∙ found in
    let (after, written, regained) =
      update_redis_cache_for_deposit-Regained user eoa safe a.now 0 charged r1 before c e f found1
        h in
    let same : update_redis_cache_for_deposit true a.now user
          (some (big_int before.usdc_balance + 0)) r1
        ≡ update_redis_cache_for_deposit (a.redis_answers user) a.now user (a.balance user) r1 =
      cc (takes, balance, plus_zero (big_int before.usdc_balance)) in
    (
      after,
      ap (λ (x : Redis). x.auth (lower eoa)) (reconcile_run a s (us ++ user ∷ vs) on given)
          ∙ middle a us vs user eoa safe r front back
          ∙ ap (λ (x : Redis). x.auth (lower eoa)) (sym same)
          ∙ written,
      subst (Regained c after) (zero_plus charged) regained,
    )
