-- ===== src/Authorization/Rebuild.antt =====
-- `refreshCache` on a missing cache, and `getOrBuildAuthCache`: what was in the store stays.
use multisub_infra.Prelude.{
  ℕ, ◌≡◌, ◌∙◌, ap, Text, Option, none, some, [], ◌∷◌, arith, lower, lower_idem, text_eq,
  text_eq_iff, update_ne, inl, inr, Option-cases, Bool-cases, pos, pos_part,
}
use multisub_infra.Decimal.Print.{to_string-IsCanonical}
use multisub_infra.Types.{AuthorizationCache, CardMapping}
use multisub_infra.Redis.{Redis, get_auth_cache, set_auth_cache, set_card_mapping}
use multisub_infra.Redis.Script.{IsWellFormed}
use multisub_infra.Redis.Spend.{update-AllWellFormed}
use multisub_infra.Authorization.State.{Database, User, SubAccount, read, catch, ◌>>◌, failure}
use multisub_infra.Authorization.Refresh.{
  spent_since, net_balance, rebuilt, rebuild, link_card, refresh_cache, newest_active,
  rebuild_newest, rebuild_found,
}
use multisub_infra.Authorization.{get_or_build_auth_cache}
use multisub_infra.Authorization.Ensures.{
  Ensures, Ensures-pure, Ensures-raise, Ensures-catch, Ensures-read, Ensures-date, Ensures-bind,
  Ensures-pre, Ensures-write, Ensures-post,
}
use multisub_infra.Authorization.Extends.{Extends, Any}

rebuilt-IsWellFormed :
    (db : Database) (eoa : Text) (u : User) (s : SubAccount) (now written : ℕ)
    → IsWellFormed (rebuilt db eoa u s now written)
unfolding rebuilt
rebuilt-IsWellFormed db eoa u s now written = record {
  balance = to_string-IsCanonical (pos_part (net_balance u.id (pos 0) db.ledger));
  daily_spent = to_string-IsCanonical (spent_since db.transactions u.id (db.start_of_day now));
  daily_limit = to_string-IsCanonical s.daily_limit;
  monthly_spent = to_string-IsCanonical (spent_since db.transactions u.id (db.start_of_month now));
  monthly_limit = to_string-IsCanonical s.monthly_limit;
}

module _ (db : Database) (r0 : Redis) (eoa : Text) where
  -- The address had no cache to begin with.
  abbrev Absent : Redis → Type 0
  Absent r = Extends r0 r × (r0.auth (lower eoa) ≡ none)

  set-Absent :
      (c : AuthorizationCache) (r : Redis)
      → IsWellFormed c
      → Absent r
      → Absent (set_auth_cache r (lower eoa) c)
  unfolding set_auth_cache
  set-Absent c r wc (x, gone) = (
    record {
      formed = update-AllWellFormed r (lower (lower eoa)) c x.formed wc;
      entries = λ k d h. elim (Bool-cases (text_eq k (lower (lower eoa)))) [
        | inl here ↦
            let e : k ≡ lower eoa = (text_eq_iff k (lower (lower eoa))).0 here ∙ lower_idem eoa in
            absurd (ground (arith, ap r0.auth e))
        | inr other ↦ update_ne r.auth (lower (lower eoa)) (some c) k other ∙ x.entries k d h
      ];
    },
    gone,
  )

  link-Absent :
      (u : User) (s : SubAccount) (token : Option Text)
      → Ensures Absent (link_card (lower eoa) u s token) (λ _ r. Absent r) Absent
  link-Absent u s none = Ensures-pure tt (λ r a. a)
  link-Absent u s (some []) = Ensures-pure tt (λ r a. a)
  link-Absent u s (some (c ∷ t)) =
      Ensures-write _ (λ r a. unfold set_card_mapping in kept a) (λ r a. a)
    where
      kept : {r : Redis} {m : Text → Option CardMapping} → Absent r → Absent (record r { card = m })
      kept (x, gone) = (record { formed = x.formed; entries = x.entries }, gone)

  rebuild-Absent :
      (u : User) (s : SubAccount)
      → Ensures Absent (rebuild db (lower eoa) u s) (λ _ r. Absent r) Absent
  unfolding rebuild
  rebuild-Absent u s = Ensures-bind {R = λ _. Absent} _ _ (Ensures-date db) λ now.
      Ensures-bind {R = λ _. Absent} _ _ (Ensures-post (λ _ _ q. q.0) (Ensures-read _ (λ r a. a)))
        λ _. Ensures-bind {R = λ _. Absent} _ _ (Ensures-date db) λ written.
          Ensures-bind {R = λ _. Absent} _ _
            (Ensures-write _
              (λ r.
                set-Absent (rebuilt db (lower eoa) u s now written) r
                  (rebuilt-IsWellFormed db (lower eoa) u s now written))
              (λ r a. a))
            λ _. link-Absent u s s.lithic_card_token

  rebuild_newest-Absent :
      (u : User) (s : Option SubAccount)
      → Ensures Absent (rebuild_newest db (lower eoa) u s) (λ _ r. Absent r) Absent
  unfolding rebuild_newest
  rebuild_newest-Absent u none = Ensures-raise failure (λ r a. a)
  rebuild_newest-Absent u (some s) = rebuild-Absent u s

  rebuild_found-Absent :
      (u : Option User) → Ensures Absent (rebuild_found db (lower eoa) u) (λ _ r. Absent r) Absent
  unfolding rebuild_found
  rebuild_found-Absent none = Ensures-raise failure (λ r a. a)
  rebuild_found-Absent (some u) = rebuild_newest-Absent u (newest_active u.sub_accounts)

  refresh-Absent : Ensures Absent (refresh_cache db eoa) (λ _ r. Absent r) Absent
  unfolding refresh_cache
  refresh-Absent =
      Ensures-bind {R = λ _. Absent} _ _ (Ensures-post (λ _ _ q. q.0) (Ensures-read _ (λ r a. a)))
        rebuild_found-Absent

  -- Rebuilding and reading again, in the `try` of `getOrBuildAuthCache`.
  build-Extends :
      Ensures Absent
        (catch (refresh_cache db eoa >> read (λ r. get_auth_cache r eoa)) none)
        (λ _ r. Extends r0 r)
        Any
  build-Extends =
      Ensures-catch {E = Absent} _ none
        (Ensures-bind {R = λ _. Absent} _ _ refresh-Absent
          λ _. Ensures-post (λ _ _ q. q.0.0) (Ensures-read _ (λ r a. a)))
        (λ r a. a.0)

-- Loading the cache, from Redis or by a rebuild, loses no entry.
pub get_or_build-Extends :
    (db : Database) (r0 : Redis) (m : CardMapping)
    → Ensures (Extends r0) (get_or_build_auth_cache db m) (λ _ r. Extends r0 r) Any
unfolding get_or_build_auth_cache
get_or_build-Extends db r0 m =
    Ensures-bind {R = λ o r. Extends r0 r × (o ≡ get_auth_cache r m.eoa_address)} _ _
      (Ensures-read _ (λ r x. tt))
      (elim [
        | some c ↦ Ensures-pure (some c) (λ r q. q.0)
        | none ↦
            Ensures-pre (λ r q. (q.0, absent r q.0 (unfold get_auth_cache in q.1)))
              (build-Extends db r0 m.eoa_address)
      ])
  where
    absent :
        (r : Redis)
        → Extends r0 r
        → none ≡ r.auth (lower m.eoa_address)
        → r0.auth (lower m.eoa_address) ≡ none
    absent r x e = elim (Option-cases (r0.auth (lower m.eoa_address))) [
      | inl gone ↦ gone
      | inr (c, found) ↦ absurd (ground (arith, x.entries (lower m.eoa_address) c found))
    ]
