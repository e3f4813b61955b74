-- ===== src/Webhooks/Lapse.antt =====
-- backend/src/routes/webhooks.ts: an approval whose mark cannot be written.
use multisub_infra.Prelude.{
  ℕ, ◌+◌, ◌-◌, ◌<◌, ◌≡◌, refl, ap, ◌∙◌, true, false, none, some, List, [], ◌∷◌, ◌++◌, abs, lower,
  update_self,
}
use multisub_infra.Decimal.{big_int, to_string}
use multisub_infra.Types.{AuthorizationCache, CardMapping, LithicAsaEvent}
use multisub_infra.Redis.{Redis}
use multisub_infra.Redis.Charges.{Charges, apply_spend-Charges}
use multisub_infra.Authorization.State.{
  Database, World, Event, Audit, Fate, Result, ok, err, failure, read, write, call, next_event,
  ◌>>=◌,
}
use multisub_infra.Authorization.{AuthorizationResult, approved}
use multisub_infra.Authorization.Steps.{IsFunded, after, world, charged, charged_store, bind_ok}
use multisub_infra.Authorization.Runs.{timeline, authorize-in_time}
use multisub_infra.Webhooks.{
  result, Deps, Desk, Delivery, authorized, run_engine, process, finish, asa_webhook,
}
use multisub_infra.Webhooks.Accept.{IsAccepted, accepted-run}

-- A call that fails after `ms`.
abbrev pub fails_after : ℕ → Event
fails_after ms = record { elapsed = ms; fate = Fate.failed }

bind_err :
    {A B : Type 0} (n : World → Result A × World) (k : A → World → Result B × World) (w w' : World)
    → n w ≡ (err failure, w')
    → (n >>= k) w ≡ (err failure, w')
unfolding ◌>>=◌
bind_err n k w w' e = λ i. elim (e i).0 [ ok b ↦ k b (e i).1 | err x ↦ (err x, (e i).1) ]

module _ (r : Redis) (t ms : ℕ) (audits : List Audit) (rest : List Event) where
  pub write_fails :
      (g : Redis → Redis)
      → write g (world r t audits (fails_after ms ∷ rest))
        ≡ (err failure, world r (t + ms) audits rest)
  unfolding write call next_event
  write_fails g = refl

  pub read_answered :
      {A : Type 0} (g : Redis → A) (a : A)
      → g r ≡ a
      → read g (world r t audits (after ms ∷ rest)) ≡ (ok a, world r (t + ms) audits rest)
  unfolding read call next_event
  read_answered g a e = ap (λ o. (ok o, world r (t + ms) audits rest)) e

module _ (db : Database) (event : LithicAsaEvent) (r : Redis) (m : CardMapping)
    (c : AuthorizationCache) (f : IsFunded db event r m c) (t s a b k d e x : ℕ)
    (audits : List Audit) (rest : List Event) where
  entry : Audit
  entry = record { tenant_id = some m.tenant_id; approved = true; amount = some event.amount }

  behind : World
  unfolding entry
  behind =
      world (charged_store db event r m c (t + s + a + b + k + d)) (t + s + a + b + k + d + e + x)
        (audits ++ entry ∷ []) rest

  run_engine-lapse :
      a + b + k + d + e < 300
      → run_engine db event (world r (t + s) audits (timeline a b k d e (fails_after x ∷ rest)))
        ≡ (err failure, behind)
  unfolding run_engine behind authorized entry
  run_engine-lapse h =
      bind_ok (authorized db event) _
        (approved (to_string (big_int c.usdc_balance - abs event.amount)))
        (world r (t + s) audits (timeline a b k d e (fails_after x ∷ rest)))
        (world (charged_store db event r m c (t + s + a + b + k + d)) (t + s + a + b + k + d + e)
          (audits ++ entry ∷ []) (fails_after x ∷ rest))
        (ap (λ (y : AuthorizationResult × World). (ok y.0, y.1))
          (authorize-in_time db event r m c (t + s) a b k d e audits (fails_after x ∷ rest) f h))
      ∙ bind_err (write _) _ _ behind (write_fails _ _ x _ rest _)

  process-lapse :
      a + b + k + d + e < 300
      → r.processed event.token ≡ none
      → process db event (world r t audits (after s ∷ timeline a b k d e (fails_after x ∷ rest)))
        ≡ (err failure, behind)
  unfolding process
  process-lapse h new =
      bind_ok (read (λ r. r.processed event.token)) _ none _
        (world r (t + s) audits (timeline a b k d e (fails_after x ∷ rest)))
        (read_answered r t s audits _ (λ r. r.processed event.token) none new)
      ∙ run_engine-lapse h

finish-err :
    (deps : Deps) (v : Delivery) (event : LithicAsaEvent) (d : Desk) (w : World)
    → finish deps v event d (err failure, w) ≡ (result false, record d { world = w })
unfolding finish
finish-err deps v event d w = refl

-- A signed webhook on a funded card that has not been marked, whose engine approves within its 300
-- milliseconds, and whose mark then cannot be written: the answer is a decline, the cache of the
-- card's address is charged with the amount all the same, no row and no job are made, and the token
-- stays unmarked.
pub asa_webhook-lapse :
    (deps : Deps) (v : Delivery) (event : LithicAsaEvent) (d : Desk) (r : Redis) (m : CardMapping)
    (c : AuthorizationCache) (t s a b k d1 e x : ℕ) (audits : List Audit) (rest : List Event)
    → IsFunded deps.database event r m c
    → IsAccepted deps v event
    → r.processed event.token ≡ none
    → a + b + k + d1 + e < 300
    → d.world ≡ world r t audits (after s ∷ timeline a b k d1 e (fails_after x ∷ rest))
    → let cache = charged deps.database event r m c (t + s + a + b + k + d1) in
      let (res, d') = asa_webhook deps v d in
      (res ≡ result false)
      × (d'.world.redis.auth (lower m.eoa_address) ≡ some cache)
      × Charges c cache (abs event.amount)
      × (d'.world.redis.processed event.token ≡ none)
      × (d'.transactions ≡ d.transactions)
      × (d'.jobs ≡ d.jobs)
asa_webhook-lapse deps v event d r m c t s a b k d1 e x audits rest f accepted new h start =
    rw
      (accepted-run deps v event d accepted
        ∙ ap (λ w. finish deps v event d (process deps.database event w)) start
        ∙ ap (finish deps v event d)
            (process-lapse deps.database event r m c f t s a b k d1 e x audits rest h new)
        ∙ finish-err deps v event d _)
      (
        refl,
        (unfold behind in
            update_self r.auth (lower m.eoa_address)
              (some (charged deps.database event r m c (t + s + a + b + k + d1)))),
        apply_spend-Charges c (abs event.amount) _ f.fits,
        (unfold behind in new),
        refl,
        refl,
      )
