-- ===== src/Webhooks/InTime.antt =====
-- backend/src/routes/webhooks.ts: an approval that is answered in time, from the request to the job.
use multisub_infra.Prelude.{
  ℕ, ◌+◌, ◌-◌, ◌<◌, ◌≡◌, refl, ap, ◌∙◌, true, false, Option, none, some, List, [], ◌∷◌, ◌++◌, arith,
  abs, lower, update_self,
}
use multisub_infra.Decimal.{Decimal, big_int, to_string}
use multisub_infra.Types.{AuthorizationCache, CardMapping, LithicAsaEvent}
use multisub_infra.Redis.{Redis, get_card_mapping}
use multisub_infra.Signature.{is_empty}
use multisub_infra.Authorization.State.{
  World, Event, Audit, Database, ok, pure, read, write, call, next_event,
}
use multisub_infra.Authorization.{AuthorizationResult, approved}
use multisub_infra.Authorization.Steps.{IsFunded, after, world, charged, charged_store, bind_ok}
use multisub_infra.Authorization.Runs.{timeline, authorize-in_time}
use multisub_infra.Webhooks.{
  result, JobRequest, Deps, Desk, Delivery, decided, authorized, mark_processed, run_engine,
  process, finish, asa_webhook, send_off, record_transaction, enqueue_settlement, dispatch_notice,
}
use multisub_infra.Webhooks.Accept.{IsAccepted, accepted-run}
use multisub_infra.Webhooks.Lapse.{read_answered}

-- The job of an approval.
abbrev pub job_of : Deps → LithicAsaEvent → CardMapping → JobRequest
job_of deps event m = record {
  lithic_tx_token = event.token;
  m2_safe_address = m.m2_safe_address;
  issuer_safe_address = deps.platform_issuer_safe_address;
  amount = event.amount;
  tenant_id = m.tenant_id;
}

send_off-approved :
    (deps : Deps) (v : Delivery) (event : LithicAsaEvent) (balance : Decimal) (m : CardMapping)
    (d : Desk)
    → v.queue_takes ≡ true
    → deps.has_settlement_service ≡ true
    → is_empty m.m2_safe_address ≡ false
    → let d' = send_off deps v event (approved balance) (some m) d in
      (d'.jobs ≡ d.jobs ++ job_of deps event m ∷ []) × (d'.world ≡ d.world)
unfolding send_off record_transaction enqueue_settlement dispatch_notice
send_off-approved deps v event balance m d q s safe = (grind (arith, q, s, safe), grind arith)

write_answered :
    (r : Redis) (t ms : ℕ) (audits : List Audit) (rest : List Event) (g : Redis → Redis)
    → write g (world r t audits (after ms ∷ rest)) ≡ (ok tt, world (g r) (t + ms) audits rest)
unfolding write call next_event
write_answered r t ms audits rest g = refl

module _ (db : Database) (event : LithicAsaEvent) (r : Redis) (m : CardMapping)
    (c : AuthorizationCache) (f : IsFunded db event r m c) (t s a b k d e x y : ℕ)
    (audits : List Audit) (rest : List Event) where
  abbrev entry : Audit
  entry = record { tenant_id = some m.tenant_id; approved = true; amount = some event.amount }

  abbrev marked_store : Redis
  marked_store =
      mark_processed event.token true (charged_store db event r m c (t + s + a + b + k + d))

  abbrev pub behind : World
  behind = world marked_store (t + s + a + b + k + d + e + x + y) (audits ++ entry ∷ []) rest

  abbrev pub calls : List Event
  calls = timeline a b k d e (after x ∷ after y ∷ rest)

  abbrev pub outcome : AuthorizationResult
  outcome = approved (to_string (big_int c.usdc_balance - abs event.amount))

  marked-mapping : get_card_mapping marked_store event.card_token ≡ some m
  unfolding mark_processed get_card_mapping
  marked-mapping = f.cleared.mapped

  run_engine-in_time :
      a + b + k + d + e < 300
      → run_engine db event (world r (t + s) audits calls) ≡ (ok (decided outcome (some m)), behind)
  unfolding run_engine authorized pure
  run_engine-in_time h =
      bind_ok (authorized db event) _ outcome (world r (t + s) audits calls)
        (world (charged_store db event r m c (t + s + a + b + k + d)) (t + s + a + b + k + d + e)
          (audits ++ entry ∷ []) (after x ∷ after y ∷ rest))
        (ap (λ (y : AuthorizationResult × World). (ok y.0, y.1))
          (authorize-in_time db event r m c (t + s) a b k d e audits (after x ∷ after y ∷ rest) f
            h))
      ∙ bind_ok (write _) _ tt _ _ (write_answered _ _ x _ (after y ∷ rest) _)
      ∙ bind_ok (read _) _ (some m) _ behind (
          read_answered marked_store (t + s + a + b + k + d + e + x) y _ rest
            (λ r. get_card_mapping r event.card_token) (some m) marked-mapping)

  pub process-in_time :
      a + b + k + d + e < 300
      → r.processed event.token ≡ none
      → process db event (world r t audits (after s ∷ calls))
        ≡ (ok (decided outcome (some m)), behind)
  unfolding process
  process-in_time h new =
      bind_ok (read (λ r. r.processed event.token)) _ none _ (world r (t + s) audits calls)
        (read_answered r t s audits calls (λ r. r.processed event.token) none new)
      ∙ run_engine-in_time h

finish-approved :
    (deps : Deps) (v : Delivery) (event : LithicAsaEvent) (d : Desk) (balance : Decimal)
    (m : Option CardMapping) (w : World)
    → finish deps v event d (ok (decided (approved balance) m), w)
      ≡ (result true, send_off deps v event (approved balance) m (record d { world = w }))
unfolding finish
finish-approved deps v event d balance m w = refl

-- A signed webhook on a funded card of a user with a Safe, that has not been marked, all of whose
-- calls are answered, those of the engine within its 300 milliseconds: the answer is an approval,
-- the cache of the card's address is charged, the token is marked as approved, and the settlement
-- job of the event is appended, whatever becomes of its row.
pub asa_webhook-in_time :
    (deps : Deps) (v : Delivery) (event : LithicAsaEvent) (d : Desk) (r : Redis) (m : CardMapping)
    (c : AuthorizationCache) (t s a b k g e x y : ℕ) (audits : List Audit) (rest : List Event)
    → IsFunded deps.database event r m c
    → IsAccepted deps v event
    → r.processed event.token ≡ none
    → a + b + k + g + e < 300
    → d.world ≡ world r t audits (after s ∷ timeline a b k g e (after x ∷ after y ∷ rest))
    → v.queue_takes ≡ true
    → deps.has_settlement_service ≡ true
    → is_empty m.m2_safe_address ≡ false
    → let (res, d') = asa_webhook deps v d in
      (res ≡ result true)
      × (d'.world.redis.auth (lower m.eoa_address)
          ≡ some (charged deps.database event r m c (t + s + a + b + k + g)))
      × (d'.world.redis.processed event.token ≡ some true)
      × (d'.jobs ≡ d.jobs ++ job_of deps event m ∷ [])
asa_webhook-in_time deps v event d r m c t s a b k g e x y audits rest f accepted new h start queue
      service safe =
    let w = behind deps.database event r m c f t s a b k g e x y audits rest in
    let sent = send_off-approved deps v event _ m (record d { world = w }) queue service safe in
    rw
      (accepted-run deps v event d accepted
        ∙ ap (λ w. finish deps v event d (process deps.database event w)) start
        ∙ ap (finish deps v event d)
            (process-in_time deps.database event r m c f t s a b k g e x y audits rest h new)
        ∙ finish-approved deps v event d _ (some m) w)
      (
        refl,
        ap (λ (w : World). w.redis.auth (lower m.eoa_address)) sent.1
            ∙ (unfold mark_processed in
                update_self r.auth (lower m.eoa_address)
                  (some (charged deps.database event r m c (t + s + a + b + k + g)))),
        ap (λ (w : World). w.redis.processed event.token) sent.1
            ∙ (unfold mark_processed in update_self r.processed event.token (some true)),
        sent.0,
      )
