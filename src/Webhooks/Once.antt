-- ===== src/Webhooks/Once.antt =====
-- backend/src/routes/webhooks.ts: how often a webhook is recorded and settled, however often it comes.
use multisub_infra.Prelude.{
  ℕ, ◌+◌, ◌≤◌, ◌≡◌, refl, sym, ap, ◌∙◌, inl, inr, Text, Bool, true, false, Option, none, some, List,
  [], ◌∷◌, ◌++◌, arith, update, text_eq, text_eq_iff, if◌then◌else◌, Option-cases, Bool-cases,
}
use mathlib.Core.Path.{subst}
use multisub_infra.Types.{LithicAsaEvent, CardMapping}
use multisub_infra.Authorization.State.{World, Result, ok, err}
use multisub_infra.Authorization.{AuthorizationResult}
use multisub_infra.Authorization.Ensures.{Done}
use multisub_infra.Webhooks.Accept.{asa_webhook-cases}
use multisub_infra.Webhooks.Approved.{send_off-world}
use multisub_infra.Webhooks.{
  Response, TransactionRow, JobRequest, Deps, Desk, Delivery, is_approval, Processed, cached,
  decided, process, record_transaction, enqueue_settlement, dispatch_notice, send_off, finish,
  asa_webhook, has_token, expire_mark, Step, delivered, expired, deliver_all,
}
use multisub_infra.Webhooks.Marked.{Outcome, Failed, process-Outcome}

abbrev pub jobs_for : Text → List JobRequest → ℕ
jobs_for t [] = 0
jobs_for t (j ∷ js) = (if text_eq j.lithic_tx_token t then 1 else 0) + jobs_for t js

abbrev pub transactions_for : Text → List TransactionRow → ℕ
transactions_for t [] = 0
transactions_for t (x ∷ xs) = (if text_eq x.lithic_tx_token t then 1 else 0) + transactions_for t xs

jobs_for-snoc :
    (t : Text) (js : List JobRequest) (j : JobRequest)
    → jobs_for t (js ++ j ∷ []) ≡ jobs_for t js + (if text_eq j.lithic_tx_token t then 1 else 0)
jobs_for-snoc t [] j = omega arith
jobs_for-snoc t (x ∷ js) j = omega (arith, jobs_for-snoc t js j)

transactions_for-snoc :
    (t : Text) (xs : List TransactionRow) (x : TransactionRow)
    → transactions_for t (xs ++ x ∷ [])
      ≡ transactions_for t xs + (if text_eq x.lithic_tx_token t then 1 else 0)
transactions_for-snoc t [] x = omega arith
transactions_for-snoc t (y ∷ xs) x = omega (arith, transactions_for-snoc t xs x)

-- 1 for the mark of an approval.
abbrev pub approvals : Option Bool → ℕ
approvals (some true) = 1
approvals _ = 0

-- A token has at most one row, and at most one job for each of its `n` marks that ran out and for
-- the mark of an approval that it has.
pub record IsOnce (n : Text → ℕ) (p : Text → Option Bool) (xs : List TransactionRow)
    (js : List JobRequest) : Type 0 where
  pub rows : (t : Text) → transactions_for t xs ≤ 1
  pub settled : (t : Text) → jobs_for t js ≤ n t + approvals (p t)

abbrev pub IsClean : (Text → ℕ) → Desk → Type 0
IsClean n d = IsOnce n d.world.redis.processed d.transactions d.jobs

-- No row, where no row has the token.
has_token-none :
    (t : Text) (xs : List TransactionRow) → has_token t xs ≡ false → transactions_for t xs ≡ 0
unfolding has_token
has_token-none t [] h = refl
has_token-none t (x ∷ xs) h = ground (arith, h, has_token-none t xs)

module _ (deps : Deps) (v : Delivery) (event : LithicAsaEvent) (outcome : AuthorizationResult) where
  record_transaction-rows :
      (m : CardMapping) (d : Desk) (t : Text)
      → transactions_for t d.transactions ≤ 1
      → transactions_for t (record_transaction deps v event outcome m d).transactions ≤ 1
  unfolding record_transaction
  record_transaction-rows m d t h = grind (
    arith,
    transactions_for-snoc,
    has_token-none t d.transactions,
    text_eq_iff event.token t,
    Bool-cases (has_token event.token d.transactions),
    ap (λ k. has_token k d.transactions) {x = event.token} {y = t},
  )

  send_off-rows :
      (m : Option CardMapping) (d : Desk) (t : Text)
      → transactions_for t d.transactions ≤ 1
      → transactions_for t (send_off deps v event outcome m d).transactions ≤ 1
  unfolding send_off dispatch_notice enqueue_settlement
  send_off-rows none d t h = grind (arith, h)
  send_off-rows (some m) d t h = grind (arith, record_transaction-rows m d t h)

  send_off-jobs :
      (m : Option CardMapping) (d : Desk) (t : Text)
      → jobs_for t (send_off deps v event outcome m d).jobs
        ≤ jobs_for t d.jobs
          + (if text_eq event.token t then (if is_approval outcome then 1 else 0) else 0)
  unfolding send_off dispatch_notice enqueue_settlement record_transaction
  send_off-jobs none d t = grind arith
  send_off-jobs (some m) d t = grind (arith, jobs_for-snoc)

-- A mark on a token that had none can only allow more.
approvals-update :
    (p : Text → Option Bool) (k : Text) (b : Bool) (t : Text)
    → p k ≡ none
    → approvals (update p k (some b) t)
      ≡ approvals (p t) + (if text_eq k t then (if b then 1 else 0) else 0)
unfolding update
approvals-update p k b t e = ground (arith, text_eq_iff t k, text_eq_iff k t, ap p {x = t} {y = k})

module _ (n : Text → ℕ) where
  -- What is allowed stays allowed when a token is marked.
  mark-IsOnce :
      (p : Text → Option Bool) (k : Text) (b : Bool) (xs : List TransactionRow)
      (js : List JobRequest)
      → p k ≡ none
      → IsOnce n p xs js
      → IsOnce n (update p k (some b)) xs js
  mark-IsOnce p k b xs js e h = record {
    rows = h.rows;
    settled = λ t. omega (arith, h.settled t, approvals-update p k b t e);
  }

  module _ (deps : Deps) (v : Delivery) (event : LithicAsaEvent) (d : Desk) (h : IsClean n d) where
    decided-IsClean :
        (outcome : AuthorizationResult) (m : Option CardMapping) (w : World)
        → Outcome event d.world.redis.processed (decided outcome m) w.redis
        → IsClean n (send_off deps v event outcome m (record d { world = w }))
    decided-IsClean outcome m w (fresh, new) =
        let p = d.world.redis.processed in
        let b = is_approval outcome in
        let d' = record d { world = w } in
        let same : (send_off deps v event outcome m d').world.redis.processed
            ≡ update p event.token (some b) =
          ap (λ (x : World). x.redis.processed) (send_off-world deps v event outcome m d') ∙ new in
        subst
          (λ q.
            IsOnce n q (send_off deps v event outcome m d').transactions
              (send_off deps v event outcome m d').jobs)
          (sym same)
          (record {
            rows = λ t. send_off-rows deps v event outcome m d' t (h.rows t);
            settled = λ t. omega (
              arith,
              h.settled t,
              send_off-jobs deps v event outcome m d' t,
              approvals-update p event.token b t fresh,
            );
          })

    finish-IsClean :
        (x : Result Processed × World)
        → Done (Outcome event d.world.redis.processed) (Failed event d.world.redis.processed) x
        → IsClean n (finish deps v event d x).1
    unfolding finish
    finish-IsClean (ok (cached b), w) e = subst (λ q. IsOnce n q d.transactions d.jobs) (sym e) h
    finish-IsClean (ok (decided outcome m), w) o = decided-IsClean outcome m w o
    finish-IsClean (err f, w) (inl e) = subst (λ q. IsOnce n q d.transactions d.jobs) (sym e) h
    finish-IsClean (err f, w) (inr (fresh, b, e)) =
        subst (λ q. IsOnce n q d.transactions d.jobs) (sym e)
          (mark-IsOnce d.world.redis.processed event.token b d.transactions d.jobs fresh h)

  asa_webhook-IsClean :
      (deps : Deps) (v : Delivery) (d : Desk) → IsClean n d → IsClean n (asa_webhook deps v d).1
  asa_webhook-IsClean deps v d h = elim (asa_webhook-cases deps v d) [
    | inl (same, _) ↦ subst (IsClean n) (sym same) h
    | inr (event, _, run) ↦
        subst (λ (x : Response × Desk). IsClean n x.1) (sym run)
          (finish-IsClean deps v event d h (process deps.database event d.world)
            ((process-Outcome event d.world.redis.processed deps.database).at d.world refl))
  ]

-- How often the mark of a token runs out.
abbrev pub expiries : Text → List Step → ℕ
expiries t [] = 0
expiries t (delivered v ∷ vs) = expiries t vs
expiries t (expired token ∷ vs) = (if text_eq token t then 1 else 0) + expiries t vs

approvals-expired :
    (p : Text → Option Bool) (k t : Text)
    → approvals (p t) ≤ (if text_eq k t then 1 else 0) + approvals (update p k none t)
unfolding update
approvals-expired p k t = elim (Option-cases (p t)) [
  | inl e ↦ ground (arith, e)
  | inr (true, e) ↦ ground (arith, e, text_eq_iff t k, text_eq_iff k t)
  | inr (false, e) ↦ ground (arith, e)
]

expire_mark-IsClean :
    (n : Text → ℕ) (token : Text) (d : Desk)
    → IsClean n d
    → IsClean (λ t. n t + (if text_eq token t then 1 else 0)) (expire_mark token d)
unfolding expire_mark
expire_mark-IsClean n token d h = record {
  rows = h.rows;
  settled = λ t. omega (arith, h.settled t, approvals-expired d.world.redis.processed token t);
}

IsClean-equal :
    (n n' : Text → ℕ) (d : Desk) → ((t : Text) → n t ≡ n' t) → IsClean n d → IsClean n' d
IsClean-equal n n' d e h = record { rows = h.rows; settled = λ t. omega (arith, h.settled t, e t) }

-- From a desk on which every token has at most one transaction, and at most `n` settlement jobs and
-- one more if it is marked as approved: however often webhooks are delivered, one after another,
-- whichever calls fail, are lost or take long, and whichever marks run out between them, every
-- token still has at most one transaction, and at most `n` settlement jobs, one more for each time
-- that its mark ran out, and one more if it is marked as approved.
pub deliver_all-IsClean :
    (deps : Deps) (steps : List Step) (n : Text → ℕ) (d : Desk)
    → IsClean n d
    → IsClean (λ t. n t + expiries t steps) (deliver_all deps steps d)
unfolding deliver_all
deliver_all-IsClean deps [] n d h = IsClean-equal n _ d (λ t. omega arith) h
deliver_all-IsClean deps (delivered v ∷ vs) n d h =
    deliver_all-IsClean deps vs n (asa_webhook deps v d).1 (asa_webhook-IsClean n deps v d h)
deliver_all-IsClean deps (expired token ∷ vs) n d h =
    IsClean-equal _ (λ t. n t + expiries t (expired token ∷ vs))
      (deliver_all deps vs (expire_mark token d)) (λ t. omega arith)
      (deliver_all-IsClean deps vs (λ t. n t + (if text_eq token t then 1 else 0))
        (expire_mark token d) (expire_mark-IsClean n token d h))
