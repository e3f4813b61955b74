-- ===== src/Authorization/Sound.antt =====
-- What an approval rests on, and what a decline leaves alone, whatever happens to the calls.
use multisub_infra.Prelude.{
  ℕ, zero, suc, ◌≡◌, ◌∙◌, Text, Bool, true, false, Option, none, some, arith, lower, text_eq,
  update, update_self, update_ne, inl, inr, Option-cases,
}
use multisub_infra.Decimal.{to_string}
use multisub_infra.Types.{AuthorizationCache, Timestamp}
use multisub_infra.Redis.{
  Redis, SpendResult, refused, missing, spent, check_spend, apply_spend, atomic_auth_spend,
  update_auth_cache_spend,
}
use multisub_infra.Redis.Script.{
  AllWellFormed, apply_spend-IsWellFormed, spend_number, atomic_auth_spend-eq-number,
  update_auth_cache_spend-eq-number,
}
use multisub_infra.Redis.Spend.{
  update-AllWellFormed, spend_number_missing, spend_number_refused, spend_number_spent,
}
use multisub_infra.Redis.Charges.{
  WithinLimits, Charges, apply_spend-Charges, apply_spend-WithinLimits,
}
use multisub_infra.Authorization.State.{Database}
use multisub_infra.Authorization.{fallback, atomic_spend_update, max_atomic_retries}
use multisub_infra.Authorization.Extends.{Extends, Any}
use multisub_infra.Authorization.Ensures.{
  Ensures, Ensures-pure, Ensures-call, Ensures-date, Ensures-bind,
}

-- The cache of an address has been charged once, within its balance and its limits, and no other
-- entry has changed.
pub record Spent (r0 : Redis) (eoa : Text) (n : ℕ) (after : AuthorizationCache) (r : Redis)
    : Type 0 where
  pub before : AuthorizationCache
  pub known : (c : AuthorizationCache) → r0.auth (lower eoa) ≡ some c → c ≡ before
  pub charges : Charges before after n
  pub limits : WithinLimits after
  pub stored : r.auth (lower eoa) ≡ some after
  pub others :
      (k : Text) (c : AuthorizationCache)
      → text_eq k (lower eoa) ≡ false
      → r0.auth k ≡ some c
      → r.auth k ≡ some c
  pub formed : AllWellFormed r

abbrev Judged : Redis → Text → ℕ → SpendResult × Redis → Type 0
Judged r0 eoa n (refused e, r) = Extends r0 r
Judged r0 eoa n (missing, r) = Extends r0 r
Judged r0 eoa n (spent c, r) = Spent r0 eoa n c r

module _ (r0 r : Redis) (eoa : Text) (n : ℕ) (now : Timestamp) (x : Extends r0 r) where
  Spent-of_check :
      (d : AuthorizationCache)
      → r.auth (lower eoa) ≡ some d
      → check_spend d n ≡ none
      → let d' = apply_spend d n now in
        Spent r0 eoa n d' (record r { auth = update r.auth (lower eoa) (some d') })
  Spent-of_check d here fine =
      let d' = apply_spend d n now in
      record {
        before = d;
        known = λ c h. ground (arith, x.entries (lower eoa) c h);
        charges = apply_spend-Charges d n now fine;
        limits = apply_spend-WithinLimits d n now fine;
        stored = update_self r.auth (lower eoa) (some d');
        others = λ k c ne h. update_ne r.auth (lower eoa) (some d') k ne ∙ x.entries k c h;
        formed =
            update-AllWellFormed r (lower eoa) d' x.formed
              (apply_spend-IsWellFormed d n now (x.formed (lower eoa) d here));
      }

  spend_number-Judged : Judged r0 eoa n (spend_number r eoa n now)
  spend_number-Judged = elim (Option-cases (r.auth (lower eoa))) [
    | inl gone ↦ rw (spend_number_missing r eoa n now gone) x
    | inr (d, here) ↦ elim (Option-cases (check_spend d n)) [
      | inr (e, refusal) ↦ rw (spend_number_refused r eoa n now d e here refusal) x
      | inl fine ↦ rw (spend_number_spent r eoa n now d here fine) (Spent-of_check d here fine)
    ]
  ]

script-Judged :
    (r0 r : Redis) (eoa : Text) (n now : ℕ)
    → Extends r0 r
    → Judged r0 eoa n (atomic_auth_spend r eoa n now)
script-Judged r0 r eoa n now x =
    rw (atomic_auth_spend-eq-number r eoa n now x.formed)
      (spend_number-Judged r0 r eoa n (Timestamp.string (to_string now)) x)

watch-Judged :
    (r0 r : Redis) (eoa : Text) (n now : ℕ) (committed : Bool)
    → Extends r0 r
    → Judged r0 eoa n (update_auth_cache_spend r eoa n now committed)
unfolding update_auth_cache_spend
watch-Judged r0 r eoa n now true x =
    rw (update_auth_cache_spend-eq-number r eoa n now)
      (spend_number-Judged r0 r eoa n (Timestamp.number now) x)
watch-Judged r0 r eoa n now false x = elim (Option-cases (r.auth (lower eoa))) [
  | inl gone ↦ rw (gone, update_auth_cache_spend) x
  | inr (d, here) ↦ elim (Option-cases (check_spend d n)) [
    | inr (e, refusal) ↦ rw (here, update_auth_cache_spend) (rw refusal x)
    | inl fine ↦ rw (here, update_auth_cache_spend) (rw fine x)
  ]
]

abbrev pub Updated : Redis → Text → ℕ → Option AuthorizationCache → Redis → Type 0
Updated r0 eoa n none r = Extends r0 r
Updated r0 eoa n (some c) r = Spent r0 eoa n c r

module _ (db : Database) (r0 : Redis) (eoa : Text) (n : ℕ) where
  fallback-Updated :
      (attempts : ℕ) → Ensures (Extends r0) (fallback attempts db eoa n) (Updated r0 eoa n) Any
  unfolding fallback
  fallback-Updated zero = Ensures-pure none (λ r x. x)
  fallback-Updated (suc attempts) = Ensures-bind {R = λ _. Extends r0} _ _ (Ensures-date db) λ now.
      Ensures-bind {R = λ res r. Judged r0 eoa n (res, r)} _ _
        (Ensures-call _ (λ r x. watch-Judged r0 r eoa n now true x)
          (λ r x. watch-Judged r0 r eoa n now false x) (λ r x. tt) (λ r x. tt))
        (elim [
          | refused e ↦ Ensures-pure none (λ r x. x)
          | missing ↦ fallback-Updated attempts
          | spent c ↦ Ensures-pure (some c) (λ r x. x)
        ])

  pub atomic_spend_update-Updated :
      Ensures (Extends r0) (atomic_spend_update db eoa n) (Updated r0 eoa n) Any
  unfolding atomic_spend_update
  atomic_spend_update-Updated = Ensures-bind {R = λ _. Extends r0} _ _ (Ensures-date db) λ now.
      Ensures-bind {R = λ res r. Judged r0 eoa n (res, r)} _ _
        (Ensures-call _ (λ r x. script-Judged r0 r eoa n now x)
          (λ r x. script-Judged r0 r eoa n now x) (λ r x. tt) (λ r x. tt))
        (elim [
          | refused e ↦ Ensures-pure none (λ r x. x)
          | missing ↦ fallback-Updated max_atomic_retries
          | spent c ↦ Ensures-pure (some c) (λ r x. x)
        ])
