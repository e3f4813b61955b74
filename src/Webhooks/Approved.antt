-- ===== src/Webhooks/Approved.antt =====
-- backend/src/routes/webhooks.ts: what an approval of a webhook stands for.
use multisub_infra.Prelude.{
  ◌≡◌, refl, sym, ap, ◌∙◌, ◌⊎◌, inl, inr, Text, Bool, true, Option, none, some, arith,
}
use mathlib.Core.Path.{subst}
use multisub_infra.Decimal.{Decimal}
use multisub_infra.Types.{LithicAsaEvent, CardMapping}
use multisub_infra.Redis.{Redis}
use multisub_infra.Redis.Script.{AllWellFormed}
use multisub_infra.Authorization.State.{Database, World, Result, ok, err, write}
use multisub_infra.Authorization.{AuthorizationResult, approved, declined, authorize}
use multisub_infra.Authorization.Approval.{Approval}
use multisub_infra.Authorization.Decision.{authorize-Approval}
use multisub_infra.Authorization.Extends.{Any}
use multisub_infra.Authorization.Ensures.{
  Done, Ensures, Ensures-pure, Ensures-call, Ensures-read, Ensures-bind, Ensures-pre, Ensures-post,
}
use multisub_infra.Webhooks.{
  Response, result, Deps, Desk, Delivery, is_approval, Processed, cached, decided, authorized,
  mark_processed, run_engine, process, record_transaction, enqueue_settlement, dispatch_notice,
  send_off, finish, asa_webhook,
}
use multisub_infra.Webhooks.Accept.{IsAccepted, asa_webhook-cases}

mark_processed-auth :
    (token : Text) (b : Bool) (r : Redis) → (mark_processed token b r).auth ≡ r.auth
unfolding mark_processed
mark_processed-auth token b r = refl

-- What the engine has done when a webhook that was not marked is approved.
module _ (db : Database) (event : LithicAsaEvent) (r0 : Redis) where
  -- The caches are those behind an approval of the event in the store `r0`.
  pub record IsCharged (r : Redis) : Type 0 where
    pub balance : Decimal
    pub behind : Redis
    pub approval : Approval db event r0 balance behind
    pub same_auth : r.auth ≡ behind.auth

  abbrev Decided : AuthorizationResult → Redis → Type 0
  Decided (approved balance) r = IsCharged r
  Decided (declined reason) r = Unit {0}

  abbrev pub Settled : Processed → Redis → Type 0
  Settled (cached b) r = r0.processed event.token ≡ some b
  Settled (decided outcome m) r = Decided outcome r

  authorize-Decided :
      AllWellFormed r0
      → (w : World) → w.redis ≡ r0
      → (x : AuthorizationResult × World) → authorize db event w ≡ x
      → Decided x.0 x.1.redis
  authorize-Decided formed w e (approved balance, w') f = record {
    balance = balance;
    behind = w'.redis;
    approval =
        subst (λ r. Approval db event r balance w'.redis) e
          (authorize-Approval db event w w' balance (subst AllWellFormed (sym e) formed) f);
    same_auth = refl;
  }
  authorize-Decided formed w e (declined reason, w') f = tt

  mark-Decided :
      (outcome : AuthorizationResult)
      → Ensures
          (Decided outcome)
          (write (mark_processed event.token (is_approval outcome)))
          (λ _ r. Decided outcome r)
          Any
  unfolding write
  mark-Decided outcome =
      Ensures-call (λ _ r. (tt, mark_processed event.token (is_approval outcome) r)) (keep outcome)
        (keep outcome) (λ r h. tt) (λ r h. tt)
    where
      keep :
          (o : AuthorizationResult) (r : Redis)
          → Decided o r
          → Decided o (mark_processed event.token (is_approval outcome) r)
      keep (approved balance) r h = record {
        balance = h.balance;
        behind = h.behind;
        approval = h.approval;
        same_auth = mark_processed-auth event.token (is_approval outcome) r ∙ h.same_auth;
      }
      keep (declined reason) r h = tt

  run_engine-Settled : AllWellFormed r0 → Ensures (λ r. r ≡ r0) (run_engine db event) Settled Any
  unfolding run_engine authorized
  run_engine-Settled formed =
      Ensures-bind {R = Decided} _ _
        (record { at = λ w e. authorize-Decided formed w e (authorize db event w) refl })
        λ outcome. Ensures-bind {R = λ _. Decided outcome} _ _ (mark-Decided outcome) λ _.
          Ensures-bind {R = λ _. Decided outcome} _ _
            (Ensures-post (λ _ _ q. q.0) (Ensures-read _ (λ r h. tt)))
            λ m. Ensures-pure (decided outcome m) (λ r h. h)

  process-Settled : AllWellFormed r0 → Ensures (λ r. r ≡ r0) (process db event) Settled Any
  unfolding process
  process-Settled formed =
      Ensures-bind {R = λ seen r. (r ≡ r0) × (seen ≡ r.processed event.token)} _ _
        (Ensures-read _ (λ r e. tt))
        (elim [
          | some b ↦
              Ensures-pure (cached b)
                (λ r q. sym (q.1 ∙ ap (λ (x : Redis). x.processed event.token) q.0))
          | none ↦ Ensures-pre (λ r q. q.0) (run_engine-Settled formed)
        ])

pub send_off-world :
    (deps : Deps) (v : Delivery) (event : LithicAsaEvent) (outcome : AuthorizationResult)
    (m : Option CardMapping) (d : Desk)
    → (send_off deps v event outcome m d).world ≡ d.world
unfolding send_off dispatch_notice enqueue_settlement record_transaction
send_off-world deps v event outcome none d = grind arith
send_off-world deps v event outcome (some m) d = grind arith

-- The event was approved before, or it is approved now.
abbrev pub IsApproved : Deps → LithicAsaEvent → Desk → Desk → Type 0
IsApproved deps event d d' =
    (d.world.redis.processed event.token ≡ some true)
    ⊎ IsCharged deps.database event d.world.redis d'.world.redis

finish-IsApproved :
    (deps : Deps) (v : Delivery) (event : LithicAsaEvent) (d : Desk) (x : Result Processed × World)
    → Done (Settled deps.database event d.world.redis) Any x
    → (finish deps v event d x).0 ≡ result true
    → IsApproved deps event d (finish deps v event d x).1
unfolding finish
finish-IsApproved deps v event d (ok (cached b), w) h e = inl (ground (arith, h, e))
finish-IsApproved deps v event d (ok (decided (approved balance) m), w) h e = inr (
    subst (λ (x : World). IsCharged deps.database event d.world.redis x.redis)
      (sym (send_off-world deps v event (approved balance) m (record d { world = w }))) h)
finish-IsApproved deps v event d (ok (decided (declined reason) m), w) h e =
    absurd (ground (arith, e))
finish-IsApproved deps v event d (err f, w) h e = absurd (ground (arith, e))

-- From a store of well-formed caches, whichever calls fail, are lost or take long: a request is
-- answered with an approval only if it carries a body that is signed with the webhook secret and
-- parses to an event, and that event was marked as approved before, or is approved now, its cache
-- charged as the approval says.
pub asa_webhook-IsApproved :
    (deps : Deps) (v : Delivery) (d : Desk)
    → AllWellFormed d.world.redis
    → (asa_webhook deps v d).0 ≡ result true
    → (event : LithicAsaEvent) × IsAccepted deps v event
      × IsApproved deps event d (asa_webhook deps v d).1
asa_webhook-IsApproved deps v d formed h = elim (asa_webhook-cases deps v d) [
  | inl (same, refused) ↦ absurd (refused h)
  | inr (event, accepted, run) ↦ (
    event,
    accepted,
    subst (λ (x : Response × Desk). IsApproved deps event d x.1) (sym run)
        (finish-IsApproved deps v event d (process deps.database event d.world)
          ((process-Settled deps.database event d.world.redis formed).at d.world refl)
          (ap (λ (x : Response × Desk). x.0) (sym run) ∙ h)),
  )
]
