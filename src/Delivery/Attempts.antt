-- ===== src/Delivery/Attempts.antt =====
-- backend/src/services/webhook-dispatcher.ts: what the retries of a delivery come to.
use multisub_infra.Prelude.{
  ℕ, zero, suc, ◌+◌, ◌≡◌, refl, sym, ap, ◌∙◌, ◌⊎◌, inl, inr, Text, Bool, Option, none, some, List,
  [], ◌∷◌, ◌++◌, arith, ◌<◌, if◌then◌else◌, Option-cases,
}
use mathlib.Core.Path.{subst}
use mathlib.Core.List.{append-nil}
use multisub_infra.Delivery.{
  Attempt, Checked, refused, allowed, Post, Sent, AuditEntry, Outbox, Tenant, Deps, Failure,
  network, truthy, retry_delays_ms, validate_webhook_url, failure_of, post_to, send_webhook,
  attempt_all, log_failure, dispatch_to, dispatch, post_of,
}

module _ {E : Type 0} (deps : Deps E) (post : Post) where
  -- What an attempt posts, and the error that it ends with.
  abbrev pub posted_by : Checked → List Sent
  posted_by (refused e) = []
  posted_by (allowed address) = record { post = post; checked = address } ∷ []

  abbrev pub error_by : Checked → Attempt → Option Failure
  error_by (refused e) a = some e
  error_by (allowed address) a = failure_of a.reply

  abbrev pub checked_in : Attempt → Checked
  checked_in a = validate_webhook_url deps.production (deps.parse_url post.url) a.resolved

  abbrev pub posted_in : Attempt → List Sent
  posted_in a = posted_by (checked_in a)

  abbrev pub error_in : Attempt → Option Failure
  error_in a = error_by (checked_in a) a

  post_to_lem :
      (a : Attempt) (sent : List Sent) (c : Checked)
      → post_to deps post a.reply sent c ≡ (error_by c a, sent ++ posted_by c)
  unfolding post_to
  post_to_lem a sent (refused e) = ap (λ (xs : List Sent). (some e, xs)) (sym (append-nil sent))
  post_to_lem a sent (allowed address) = refl

  pub send_webhook_lem :
      (a : Attempt) (sent : List Sent)
      → send_webhook deps post a sent ≡ (error_in a, sent ++ posted_in a)
  unfolding send_webhook
  send_webhook_lem a sent = post_to_lem a sent (checked_in a)

  module _ (answers : ℕ → Attempt) where
    -- One round of the loop.
    pub attempt_done :
        (delay : ℕ) (delays : List ℕ) (i : ℕ) (last : Failure) (o : Outbox E)
        → error_in (answers i) ≡ none
        → attempt_all deps post (delay ∷ delays) answers i last o
          ≡ (none, record o { posts = o.posts ++ posted_in (answers i) })
    unfolding attempt_all
    attempt_done delay delays i last o e =
        let sent = send_webhook_lem (answers i) o.posts in grind (arith, sent, e)

    pub attempt_failed :
        (delay : ℕ) (delays : List ℕ) (i : ℕ) (last f : Failure) (o : Outbox E)
        → error_in (answers i) ≡ some f
        → attempt_all deps post (delay ∷ delays) answers i last o
          ≡ attempt_all deps post delays answers (suc i) f (record o {
            posts = o.posts ++ posted_in (answers i);
            waited = o.waited + (elim delays [ [] ↦ 0 | _ ∷ _ ↦ delay ]);
          })
    unfolding attempt_all
    attempt_failed delay delays i last f o e =
        let sent = send_webhook_lem (answers i) o.posts in grind (arith, sent, e)

    pub attempt_none :
        (i : ℕ) (last : Failure) (o : Outbox E)
        → attempt_all deps post [] answers i last o ≡ (some last, o)
    unfolding attempt_all
    attempt_none i last o = refl

    -- What has been posted behind the first `k` attempts, and the waits between them.
    abbrev pub posts_after : List Sent → ℕ → List Sent
    posts_after sent zero = sent
    posts_after sent (suc k) = posts_after sent k ++ posted_in (answers k)

    abbrev pub pauses_before : ℕ → ℕ
    pauses_before zero = 0
    pauses_before (suc zero) = 1000
    pauses_before (suc (suc k)) = 11000

    abbrev pub FailsAt : ℕ → Type 0
    FailsAt j = (f : Failure) × (error_in (answers j) ≡ some f)

    -- Attempt `k` is the first that succeeds, and the last that is made.
    pub record IsDelivered (o o' : Outbox E) (k : ℕ) : Type 0 where
      pub in_three : k < 3
      pub succeeds : error_in (answers k) ≡ none
      pub before : (j : ℕ) → j < k → FailsAt j
      pub posts : o'.posts ≡ posts_after o.posts (suc k)
      pub audits : o'.audits ≡ o.audits
      pub waited : o'.waited ≡ o.waited + pauses_before k

    -- All three fail, the last with `e`, and the log gains `added`.
    pub record IsGivenUp (o o' : Outbox E) (e : Failure) (added : List (AuditEntry E))
        : Type 0 where
      pub all_fail : FailsAt 0 × FailsAt 1 × (error_in (answers 2) ≡ some e)
      pub posts : o'.posts ≡ posts_after o.posts 3
      pub audits : o'.audits ≡ o.audits ++ added
      pub waited : o'.waited ≡ o.waited + 11000

    abbrev pub Attempted : Outbox E → Option Failure × Outbox E → Type 0
    Attempted o (none, o') = (k : ℕ) × IsDelivered o o' k
    Attempted o (some e, o') = IsGivenUp o o' e []

    attempt_all-Attempted :
        (last : Failure) (o : Outbox E)
        → Attempted o (attempt_all deps post retry_delays_ms answers 0 last o)
    attempt_all-Attempted last o = elim (Option-cases (error_in (answers 0))) [
      | inl e0 ↦ subst (Attempted o) (sym (attempt_done _ _ 0 last o e0)) (
        0,
        record {
          in_three = omega arith;
          succeeds = e0;
          before = λ j h. absurd (omega arith);
          posts = refl;
          audits = refl;
          waited = omega arith;
        },
      )
      | inr (f0, e0) ↦ elim (Option-cases (error_in (answers 1))) [
        | inl e1 ↦
            subst (Attempted o)
              (sym (attempt_failed _ _ 0 last f0 o e0 ∙ attempt_done _ _ 1 f0 _ e1))
              (
                1,
                record {
                  in_three = omega arith;
                  succeeds = e1;
                  before = one (f0, e0);
                  posts = refl;
                  audits = refl;
                  waited = refl;
                },
              )
        | inr (f1, e1) ↦ elim (Option-cases (error_in (answers 2))) [
          | inl e2 ↦
              subst (Attempted o)
                (sym (
                  attempt_failed _ _ 0 last f0 o e0
                  ∙ attempt_failed _ _ 1 f0 f1 _ e1
                  ∙ attempt_done _ _ 2 f1 _ e2))
                (
                  2,
                  record {
                    in_three = omega arith;
                    succeeds = e2;
                    before = two (f0, e0) (f1, e1);
                    posts = refl;
                    audits = refl;
                    waited = omega arith;
                  },
                )
          | inr (f2, e2) ↦
              subst (Attempted o)
                (sym (
                  attempt_failed _ _ 0 last f0 o e0
                  ∙ attempt_failed _ _ 1 f0 f1 _ e1
                  ∙ attempt_failed _ _ 2 f1 f2 _ e2
                  ∙ attempt_none 3 f2 _))
                (record {
                  all_fail = ((f0, e0), (f1, e1), e2);
                  posts = refl;
                  audits = sym (append-nil o.audits);
                  waited = omega arith;
                })
        ]
      ]
    ]
      where
        one : FailsAt 0 → (j : ℕ) → j < 1 → FailsAt j
        one h zero _ = h
        one h (suc j) k = absurd (omega arith)

        two : FailsAt 0 → FailsAt 1 → (j : ℕ) → j < 2 → FailsAt j
        two h g zero _ = h
        two h g (suc zero) _ = g
        two h g (suc (suc j)) k = absurd (omega arith)

-- A dispatch to a tenant with a URL and a secret.
module _ {E : Type 0} (deps : Deps E) (takes : Bool) (now : ℕ) (answers : ℕ → Attempt)
    (tenant_id : Text) (event : E) (url secret : Text) (o : Outbox E) where
  abbrev pub post : Post
  post = post_of deps url secret event now

  abbrev pub entries : Failure → List (AuditEntry E)
  entries e =
      if takes
      then record { tenant_id = tenant_id; event = event; url = url; error = e; attempts = 3 } ∷ []
      else []

  -- One of the attempts succeeds, or all fail and that is logged.
  abbrev pub Dispatched : Outbox E → Type 0
  Dispatched o' =
      ((k : ℕ) × IsDelivered deps post answers o o' k)
      ⊎ ((e : Failure) × IsGivenUp deps post answers o o' e (entries e))

  log_failure-Dispatched :
      (x : Option Failure × Outbox E)
      → Attempted deps post answers o x
      → Dispatched (log_failure deps takes tenant_id event url x)
  unfolding log_failure
  log_failure-Dispatched (none, o') h = inl h
  log_failure-Dispatched (some e, o') h = inr (
    e,
    record {
      all_fail = h.all_fail;
      posts = grind (arith, h.posts);
      audits = grind (arith, h.audits ∙ append-nil o.audits, append-nil o.audits);
      waited = grind (arith, h.waited);
    },
  )

  pub dispatch-to :
      (tenant : Tenant)
      → deps.tenant tenant_id ≡ some tenant
      → truthy tenant.webhook_url ≡ some url
      → truthy tenant.webhook_secret ≡ some secret
      → dispatch deps takes now answers tenant_id event o
        ≡ log_failure deps takes tenant_id event url
            (attempt_all deps post retry_delays_ms answers 0 network o)
  unfolding dispatch dispatch_to
  dispatch-to tenant e f g = grind (arith, e, f, g)

-- A dispatch to a tenant with a URL and a secret makes at most three attempts with one signed post.
-- Either the first that succeeds is the last that is made, and the audit log is unchanged; or all
-- three fail, and the log gains an entry with the last error, if the database takes it. It waits one
-- second before the second attempt and ten more before the third.
pub dispatch-Dispatched :
    {E : Type 0} (deps : Deps E) (takes : Bool) (now : ℕ) (answers : ℕ → Attempt) (tenant_id : Text)
    (event : E) (tenant : Tenant) (url secret : Text) (o : Outbox E)
    → deps.tenant tenant_id ≡ some tenant
    → truthy tenant.webhook_url ≡ some url
    → truthy tenant.webhook_secret ≡ some secret
    → Dispatched deps takes now answers tenant_id event url secret o
        (dispatch deps takes now answers tenant_id event o)
dispatch-Dispatched deps takes now answers tenant_id event tenant url secret o e f g =
    subst (Dispatched deps takes now answers tenant_id event url secret o)
      (sym (dispatch-to deps takes now answers tenant_id event url secret o tenant e f g))
      (log_failure-Dispatched deps takes now answers tenant_id event url secret o _
        (attempt_all-Attempted deps (post_of deps url secret event now) answers network o))
