-- ===== src/Authorization/Keeps.antt =====
-- backend/src/services/authorization-engine.ts: the calls to Redis under a decision, and the marks of
-- processed webhooks.
use multisub_infra.Prelude.{
  ℕ, zero, suc, ◌≡◌, refl, ◌∙◌, Text, Bool, true, false, Option, none, some, [], ◌∷◌, arith, lower,
  Option-cases, inl, inr, leb, ◌-◌, if◌then◌else◌,
}
use multisub_infra.Decimal.{Decimal, to_string}
use multisub_infra.Types.{AuthorizationCache, CardMapping}
use multisub_infra.Redis.{
  Redis, refused, missing, spent, set_auth_cache, set_card_mapping, check_spend, script_check,
  spend_script, atomic_auth_spend, update_auth_cache_spend,
}
use multisub_infra.Authorization.State.{
  Database, User, SubAccount, World, ok, err, Error, timeout, failure, Action, ◌>>=◌, ◌>>◌, pure,
  read, call, write, date, raise,
}
use multisub_infra.Authorization.Refresh.{
  newest_active, rebuilt, link_card, rebuild, rebuild_newest, rebuild_found, refresh_cache,
}
use multisub_infra.Authorization.{
  AuthorizationResult, Reason, record_audit_log, check_deadline, decline, get_or_build_auth_cache,
  fallback, atomic_spend_update, max_atomic_retries,
}
use multisub_infra.Authorization.Ensures.{
  Done, Ensures, Ensures-pure, Ensures-raise, Ensures-catch, Ensures-if, Ensures-call, Ensures-read,
  Ensures-write, Ensures-date, Ensures-bind, Ensures-post,
}

spend_script-processed :
    (r : Redis) (key : Text) (amount now : Decimal)
    → (spend_script r key amount now).1.processed ≡ r.processed
unfolding spend_script
spend_script-processed r key amount now = elim (Option-cases (r.auth key)) [
  | inl e ↦ grind (arith, e)
  | inr (c, e) ↦ elim (Option-cases (script_check c amount)) [
    | inl f ↦ grind (arith, e, f)
    | inr (x, f) ↦ grind (arith, e, f)
  ]
]

set_auth_cache-processed :
    (r : Redis) (eoa : Text) (c : AuthorizationCache)
    → (set_auth_cache r eoa c).processed ≡ r.processed
unfolding set_auth_cache
set_auth_cache-processed r eoa c = refl

atomic_auth_spend-processed :
    (r : Redis) (eoa : Text) (n now : ℕ) → (atomic_auth_spend r eoa n now).1.processed ≡ r.processed
unfolding atomic_auth_spend
atomic_auth_spend-processed r eoa n now =
    spend_script-processed r (lower eoa) (to_string n) (to_string now)

watch-processed :
    (r : Redis) (eoa : Text) (n now : ℕ) (committed : Bool)
    → (update_auth_cache_spend r eoa n now committed).1.processed ≡ r.processed
unfolding update_auth_cache_spend set_auth_cache
watch-processed r eoa n now committed = elim (Option-cases (r.auth (lower eoa))) [
  | inl e ↦ grind (arith, e)
  | inr (c, e) ↦ elim (Option-cases (check_spend c n)) [
    | inl f ↦ grind (arith, e, f)
    | inr (x, f) ↦ grind (arith, e, f)
  ]
]

module _ (p : Text → Option Bool) where
  abbrev pub Marked : Redis → Type 0
  Marked r = r.processed ≡ p

  abbrev pub Keeps : {A : Type 0} → Action A → Type 0
  Keeps m = Ensures Marked m (λ _ r. Marked r) Marked

  pub read-Keeps : {A : Type 0} (f : Redis → A) → Keeps (read f)
  read-Keeps f = Ensures-post (λ a r q. q.0) (Ensures-read f (λ r m. m))

  pub bind-Keeps :
      {A B : Type 0} (m : Action A) (f : A → Action B)
      → Keeps m
      → ((a : A) → Keeps (f a))
      → Keeps (m >>= f)
  bind-Keeps m f h k = Ensures-bind {R = λ _. Marked} m f h k

  pub decline-Keeps : (reason : Reason) → Keeps (decline reason)
  unfolding decline record_audit_log
  decline-Keeps reason = record { at = λ w m. m }

  pub pure-Keeps : {A : Type 0} (a : A) → Keeps (pure a)
  pure-Keeps a = Ensures-pure a (λ r m. m)

  pub if-Keeps :
      {A : Type 0} (b : Bool) (m n : Action A) → Keeps m → Keeps n → Keeps (if b then m else n)
  if-Keeps b m n h k = Ensures-if b m n (λ _. h) (λ _. k)

  pub declines_or :
      (b : Bool) (reason : Reason) (m : Action AuthorizationResult)
      → Keeps m
      → Keeps (if b then decline reason else m)
  declines_or b reason m h = if-Keeps b (decline reason) m (decline-Keeps reason) h

  check_deadline-Keeps : (start : ℕ) → Keeps (check_deadline start)
  unfolding check_deadline
  check_deadline-Keeps start = record { at = λ w m. go (leb 300 (w.clock - start)) w m }
    where
      go :
          (b : Bool) (w : World)
          → Marked w.redis
          → Done {A = Unit {0}}
              (λ _ r. Marked r)
              Marked
              (if b then (err (timeout (w.clock - start)), w) else (ok tt, w))
      go true w m = m
      go false w m = m

  pub deadline-Keeps :
      {A : Type 0} (start : ℕ) (m : Action A) → Keeps m → Keeps (check_deadline start >> m)
  deadline-Keeps start m h =
      bind-Keeps (check_deadline start) (λ _. m) (check_deadline-Keeps start) (λ _. h)

  call-Keeps :
      {A : Type 0} (act : Bool → Redis → A × Redis)
      → ((b : Bool) (r : Redis) → (act b r).1.processed ≡ r.processed)
      → Keeps (call act)
  call-Keeps act h =
      Ensures-call act (λ r m. h true r ∙ m) (λ r m. h false r ∙ m) (λ r m. m) (λ r m. h true r ∙ m)

  date-Keeps : (db : Database) → Keeps (date db)
  date-Keeps db = Ensures-date db

  write-Keeps :
      (f : Redis → Redis) → ((r : Redis) → (f r).processed ≡ r.processed) → Keeps (write f)
  write-Keeps f h = Ensures-write f (λ r m. h r ∙ m) (λ r m. m)

  raise-Keeps : {A : Type 0} (e : Error) → Keeps (raise {A = A} e)
  raise-Keeps e = Ensures-raise e (λ r m. m)

  -- The rebuild of a cache.
  link_card-Keeps :
      (eoa : Text) (u : User) (s : SubAccount) (token : Option Text)
      → Keeps (link_card eoa u s token)
  link_card-Keeps eoa u s none = pure-Keeps tt
  link_card-Keeps eoa u s (some []) = pure-Keeps tt
  link_card-Keeps eoa u s (some (c ∷ t)) = write-Keeps _ (λ r. unfold set_card_mapping in refl)

  module _ (db : Database) (eoa : Text) where
    rebuild-Keeps : (u : User) (s : SubAccount) → Keeps (rebuild db eoa u s)
    unfolding rebuild
    rebuild-Keeps u s = bind-Keeps _ _ (date-Keeps db) λ now.
        bind-Keeps _ _ (read-Keeps (λ r. tt)) λ _. bind-Keeps _ _ (date-Keeps db) λ written.
          bind-Keeps _ _
            (write-Keeps _ (λ r. set_auth_cache-processed r eoa (rebuilt db eoa u s now written)))
            λ _. link_card-Keeps eoa u s s.lithic_card_token

    rebuild_newest-Keeps : (u : User) (s : Option SubAccount) → Keeps (rebuild_newest db eoa u s)
    unfolding rebuild_newest
    rebuild_newest-Keeps u none = raise-Keeps failure
    rebuild_newest-Keeps u (some s) = rebuild-Keeps u s

    rebuild_found-Keeps : (u : Option User) → Keeps (rebuild_found db eoa u)
    unfolding rebuild_found
    rebuild_found-Keeps none = raise-Keeps failure
    rebuild_found-Keeps (some u) = rebuild_newest-Keeps u (newest_active u.sub_accounts)

  refresh_cache-Keeps : (db : Database) (eoa : Text) → Keeps (refresh_cache db eoa)
  unfolding refresh_cache
  refresh_cache-Keeps db eoa = bind-Keeps _ _ (read-Keeps _) (rebuild_found-Keeps db (lower eoa))

  pub get_or_build-Keeps : (db : Database) (m : CardMapping) → Keeps (get_or_build_auth_cache db m)
  unfolding get_or_build_auth_cache
  get_or_build-Keeps db m = bind-Keeps _ _ (read-Keeps _) (elim [
    | some c ↦ pure-Keeps (some c)
    | none ↦
        Ensures-catch {E = Marked} _ none
          (bind-Keeps _ _ (refresh_cache-Keeps db m.eoa_address) (λ _. read-Keeps _)) (λ r h. h)
  ])

  -- The spend and its fallback.
  module _ (db : Database) (eoa : Text) (n : ℕ) where
    fallback-Keeps : (attempts : ℕ) → Keeps (fallback attempts db eoa n)
    unfolding fallback
    fallback-Keeps zero = pure-Keeps none
    fallback-Keeps (suc attempts) =
        let again = fallback-Keeps attempts in
        bind-Keeps _ _ (date-Keeps db) λ now.
          bind-Keeps _ _ (call-Keeps _ (λ b r. watch-processed r eoa n now b))
            (elim [ refused e ↦ pure-Keeps none | missing ↦ again | spent c ↦ pure-Keeps (some c) ])

    pub atomic_spend_update-Keeps : Keeps (atomic_spend_update db eoa n)
    unfolding atomic_spend_update
    atomic_spend_update-Keeps = bind-Keeps _ _ (date-Keeps db) λ now.
        bind-Keeps _ _ (call-Keeps _ (λ b r. atomic_auth_spend-processed r eoa n now)) (elim [
          | refused e ↦ pure-Keeps none
          | missing ↦ fallback-Keeps max_atomic_retries
          | spent c ↦ pure-Keeps (some c)
        ])
