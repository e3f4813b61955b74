-- ===== src/Webhooks/Marked.antt =====
-- backend/src/routes/webhooks.ts: the marks of processed webhooks.
use multisub_infra.Prelude.{
  ◌≡◌, sym, ap, ◌∙◌, ◌⊎◌, inl, inr, Text, Bool, Option, none, some, update,
}
use multisub_infra.Types.{LithicAsaEvent}
use multisub_infra.Redis.{Redis}
use multisub_infra.Authorization.State.{Database, write}
use multisub_infra.Authorization.{AuthorizationResult}
use multisub_infra.Authorization.Ensures.{
  Ensures, Ensures-pure, Ensures-call, Ensures-read, Ensures-bind, Ensures-pre, Ensures-post,
}
use multisub_infra.Authorization.Marks.{authorize-processed}
use multisub_infra.Webhooks.{
  is_approval, Processed, cached, decided, authorized, mark_processed, run_engine, process,
}

-- What a call of `process` on marks `p` leaves of them.
module _ (event : LithicAsaEvent) (p : Text → Option Bool) where
  abbrev pub marked : Bool → Text → Option Bool
  marked b = update p event.token (some b)

  abbrev pub Outcome : Processed → Redis → Type 0
  Outcome (cached b) r = r.processed ≡ p
  Outcome (decided outcome m) r =
      (p event.token ≡ none) × (r.processed ≡ marked (is_approval outcome))

  -- Behind an error the mark has been written or not.
  abbrev pub Failed : Redis → Type 0
  Failed r = (r.processed ≡ p) ⊎ ((p event.token ≡ none) × (b : Bool) × (r.processed ≡ marked b))

  abbrev Fresh : Redis → Type 0
  Fresh r = (r.processed ≡ p) × (p event.token ≡ none)

  abbrev Decided : AuthorizationResult → Redis → Type 0
  Decided outcome r = (p event.token ≡ none) × (r.processed ≡ marked (is_approval outcome))

  authorized-Fresh : (db : Database) → Ensures Fresh (authorized db event) (λ _ r. Fresh r) Failed
  unfolding authorized
  authorized-Fresh db = record { at = λ w f. (authorize-processed db event w ∙ f.0, f.1) }

  mark-Decided :
      (outcome : AuthorizationResult)
      → Ensures Fresh
          (write (mark_processed event.token (is_approval outcome)))
          (λ _ r. Decided outcome r)
          Failed
  unfolding write mark_processed
  mark-Decided outcome =
      Ensures-call (λ _ r. (tt, mark_processed event.token (is_approval outcome) r))
        (λ r f. (f.1, same f.0)) (λ r f. (f.1, same f.0)) (λ r f. inl f.0)
        (λ r f. inr (f.1, is_approval outcome, same f.0))
    where
      same :
          {q : Text → Option Bool}
          → q ≡ p
          → update q event.token (some (is_approval outcome)) ≡ marked (is_approval outcome)
      same e = ap (λ m. update m event.token (some (is_approval outcome))) e

  run_engine-Outcome : (db : Database) → Ensures Fresh (run_engine db event) Outcome Failed
  unfolding run_engine
  run_engine-Outcome db = Ensures-bind {R = λ _. Fresh} _ _ (authorized-Fresh db) λ outcome.
      Ensures-bind {R = λ _. Decided outcome} _ _ (mark-Decided outcome) λ _.
        Ensures-bind {R = λ _. Decided outcome} _ _
          (Ensures-post (λ _ _ q. q.0)
            (Ensures-read _ (λ r d. inr (d.0, is_approval outcome, d.1))))
          λ m. Ensures-pure (decided outcome m) (λ r d. d)

  pub process-Outcome :
      (db : Database) → Ensures (λ r. r.processed ≡ p) (process db event) Outcome Failed
  unfolding process
  process-Outcome db =
      Ensures-bind {R = λ seen r. (r.processed ≡ p) × (seen ≡ r.processed event.token)} _ _
        (Ensures-read _ (λ r e. inl e))
        (elim [
          | some b ↦ Ensures-pure (cached b) (λ r q. q.0)
          | none ↦
              Ensures-pre (λ r q. (q.0, sym (q.1 ∙ ap (λ m. m event.token) q.0)))
                (run_engine-Outcome db)
        ])
