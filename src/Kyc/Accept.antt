-- ===== src/Kyc/Accept.antt =====
-- backend/src/routes/kyc.ts: which of Sumsub's webhooks change a status, and which one.
use multisub_infra.Prelude.{
  ◌≡◌, ◌≢◌, refl, sym, ap, ◌∙◌, ◌⊎◌, inl, inr, Text, Option, none, some, List, [], ◌∷◌, ◌++◌, arith,
  Option-cases, Bool-cases, All, text_eq, text_eq_iff,
}
use mathlib.Core.Path.{subst}
use multisub_infra.Signature.{verify_webhook_signature, is_empty}
use multisub_infra.Webhooks.Accept.{verify_webhook_signature-eq}
use multisub_infra.Authorization.State.{KycStatus}
use multisub_infra.Delivery.{truthy}
use multisub_infra.Kyc.{
  EventType, applicant_reviewed, applicant_pending, applicant_created, applicant_on_hold, other,
  ReviewAnswer, green, red, yellow, KycWebhookEvent, UserRow, Response, done, Desk, Answers,
  Request, Deps, same_status, find_external, set_one, set_status, new_kyc_status, log_event,
  apply_status, handle_event, verified, sumsub_webhook,
}

-- The request carries a body signed with the key, and the body is an event.
pub record IsAccepted (deps : Deps) (request : Request) (event : KycWebhookEvent) : Type 0 where
  pub body : Text
  pub signature : Text
  pub given_body : truthy request.raw_body ≡ some body
  pub given_signature : truthy request.signature ≡ some signature
  pub signed :
      deps.crypto.from_hex signature
      ≡ deps.crypto.from_hex (deps.crypto.digest deps.secret_key body)
  pub parsed : deps.parse body ≡ some event

-- A request changes nothing, or it is accepted and handled.
pub sumsub_webhook-cases :
    (deps : Deps) (a : Answers) (request : Request) (d : Desk)
    → (((sumsub_webhook deps a request d).1 ≡ d) × ((sumsub_webhook deps a request d).0 ≢ done))
      ⊎ ((event : KycWebhookEvent) × IsAccepted deps request event
          × (sumsub_webhook deps a request d ≡ handle_event a event d))
unfolding sumsub_webhook verified
sumsub_webhook-cases deps a request d = elim (Option-cases (truthy request.raw_body)) [
  | inl e ↦ inl (grind (arith, e), grind (arith, e))
  | inr (body, e) ↦ elim (Option-cases (truthy request.signature)) [
    | inl f ↦ inl (grind (arith, e, f), grind (arith, e, f))
    | inr (signature, f) ↦
        elim (Bool-cases (verify_webhook_signature deps.crypto deps.secret_key body signature)) [
          | inr bad ↦ inl (grind (arith, e, f, bad), grind (arith, e, f, bad))
          | inl good ↦ elim (Option-cases (deps.parse body)) [
            | inl g ↦ inl (grind (arith, e, f, good, g), grind (arith, e, f, good, g))
            | inr (event, g) ↦ inr (
              event,
              record {
                body = body;
                signature = signature;
                given_body = e;
                given_signature = f;
                signed =
                    verify_webhook_signature-eq deps.crypto deps.secret_key body signature good;
                parsed = g;
              },
              grind (arith, e, f, good, g),
            )
          ]
        ]
  ]
]

pub log_event-users :
    (a : Answers) (user : UserRow) (type : EventType) (s : KycStatus) (d : Desk)
    → (log_event a user type s d).1.users ≡ d.users
unfolding log_event
log_event-users a user type s d = ground arith

-- The status that stands behind each type of event and each answer of a review.
pub data Decides : Option EventType → Option ReviewAnswer → KycStatus → Type 0 where
  green_approves : Decides (some applicant_reviewed) (some green) KycStatus.approved
  red_rejects : Decides (some applicant_reviewed) (some red) KycStatus.rejected
  yellow_waits : Decides (some applicant_reviewed) (some yellow) KycStatus.pending
  pending_waits :
      (answer : Option ReviewAnswer) → Decides (some applicant_pending) answer KycStatus.pending
  on_hold_waits :
      (answer : Option ReviewAnswer) → Decides (some applicant_on_hold) answer KycStatus.pending

new_kyc_status-Decides :
    (type : EventType) (answer : Option ReviewAnswer) (s : KycStatus)
    → new_kyc_status type answer ≡ some s
    → Decides (some type) answer s
new_kyc_status-Decides applicant_reviewed none s h = absurd (grind (arith, h))
new_kyc_status-Decides applicant_reviewed (some green) s h =
    subst (Decides (some applicant_reviewed) (some green)) (grind (arith, h)) green_approves
new_kyc_status-Decides applicant_reviewed (some red) s h =
    subst (Decides (some applicant_reviewed) (some red)) (grind (arith, h)) red_rejects
new_kyc_status-Decides applicant_reviewed (some yellow) s h =
    subst (Decides (some applicant_reviewed) (some yellow)) (grind (arith, h)) yellow_waits
new_kyc_status-Decides applicant_pending answer s h =
    subst (Decides (some applicant_pending) answer) (grind (arith, h)) (pending_waits answer)
new_kyc_status-Decides applicant_on_hold answer s h =
    subst (Decides (some applicant_on_hold) answer) (grind (arith, h)) (on_hold_waits answer)
new_kyc_status-Decides applicant_created answer s h = absurd (grind (arith, h))
new_kyc_status-Decides other answer s h = absurd (grind (arith, h))

-- No row has the external id.
abbrev pub AllOthers : Text → List UserRow → Type 0
AllOthers external us = All (λ (u : UserRow). u.external_id ≢ external) us

-- The first row with an external id, and the rows around it.
pub record IsFirst (external : Text) (user : UserRow) (us : List UserRow) : Type 0 where
  pub front : List UserRow
  pub back : List UserRow
  pub table : us ≡ front ++ (user ∷ back)
  pub others : AllOthers external front
  pub own : user.external_id ≡ external

find_external-IsFirst :
    (external : Text) (us : List UserRow) (user : UserRow)
    → find_external external us ≡ some user
    → IsFirst external user us
find_external-IsFirst external [] user h = absurd (grind (arith, h))
find_external-IsFirst external (u ∷ us) user h =
    elim (Bool-cases (text_eq u.external_id external)) [
      | inl e ↦
          let same : u ≡ user = grind (arith, e, h) in
          let own : u.external_id ≡ external = (text_eq_iff u.external_id external).0 e in
          record {
            front = [];
            back = us;
            table = ap (λ (x : UserRow). x ∷ us) same;
            others = tt;
            own = ap (λ (x : UserRow). x.external_id) (sym same) ∙ own;
          }
      | inr e ↦
          let rest = find_external-IsFirst external us user (grind (arith, e, h)) in
          record {
            front = u ∷ rest.front;
            back = rest.back;
            table = ap (λ t. u ∷ t) rest.table;
            others = (
              λ k. absurd (grind (arith, e, text_eq_iff u.external_id external, k)),
              rest.others,
            );
            own = rest.own;
          }
    ]

-- The table behind a status: the rows with the id have it, the others are as they were.
pub data HasSet (id : Text) (s : KycStatus) : List UserRow → List UserRow → Type 0 where
  ended : HasSet id s [] []
  kept :
      (u : UserRow) (us us' : List UserRow)
      → u.id ≢ id
      → HasSet id s us us'
      → HasSet id s (u ∷ us) (u ∷ us')
  changed :
      (u : UserRow) (us us' : List UserRow)
      → u.id ≡ id
      → HasSet id s us us'
      → HasSet id s (u ∷ us) (record u { kyc_status = s } ∷ us')

set_status-HasSet :
    (id : Text) (s : KycStatus) (us : List UserRow) → HasSet id s us (set_status id s us)
set_status-HasSet id s [] = ended
set_status-HasSet id s (u ∷ us) =
    let rest = set_status-HasSet id s us in
    elim (Bool-cases (text_eq u.id id)) [
      | inl e ↦
          subst (λ (x : UserRow). HasSet id s (u ∷ us) (x ∷ set_status id s us))
            {x = record u { kyc_status = s }} {y = set_one id s u} (grind (arith, e))
            (changed u us (set_status id s us) ((text_eq_iff u.id id).0 e) rest)
      | inr e ↦
          subst (λ (x : UserRow). HasSet id s (u ∷ us) (x ∷ set_status id s us)) {x = u}
            {y = set_one id s u} (grind (arith, e))
            (kept u us (set_status id s us) (λ k. absurd (grind (arith, e, text_eq_iff u.id id, k)))
              rest)
    ]

-- The status that an event decides, set on the first user with its external id.
pub record IsStatusSet (event : KycWebhookEvent) (us us' : List UserRow) : Type 0 where
  pub user : UserRow
  pub status : KycStatus
  pub first : IsFirst event.external_user_id user us
  pub decided : Decides event.type event.review_answer status
  pub users : HasSet user.id status us us'

apply_status-cases :
    (a : Answers) (user : UserRow) (type : EventType) (o : Option KycStatus) (d : Desk)
    → ((apply_status a user type o d).1.users ≡ d.users)
      ⊎ ((s : KycStatus) × (o ≡ some s)
          × ((apply_status a user type o d).1.users ≡ set_status user.id s d.users))
unfolding apply_status
apply_status-cases a user type none d = inl (log_event-users a user type user.kyc_status d)
apply_status-cases a user type (some s) d = elim (Bool-cases (same_status s user.kyc_status)) [
  | inl e ↦ inl (grind (arith, e, log_event-users a user type s d))
  | inr e ↦ elim (Bool-cases a.writes) [
    | inr f ↦ inl (grind (arith, e, f))
    | inl f ↦ inr (
      s,
      refl,
      grind (
        arith,
        e,
        f,
        log_event-users a user type s (record d { users = set_status user.id s d.users }),
      ),
    )
  ]
]

handle_event-cases :
    (a : Answers) (event : KycWebhookEvent) (d : Desk)
    → ((handle_event a event d).1.users ≡ d.users)
      ⊎ IsStatusSet event d.users (handle_event a event d).1.users
unfolding handle_event
handle_event-cases a event d = elim (Bool-cases (is_empty event.external_user_id)) [
  | inl e ↦ inl (grind (arith, e))
  | inr e ↦ elim (Option-cases event.type) [
    | inl f ↦ inl (grind (arith, e, f))
    | inr (type, f) ↦ elim (Bool-cases a.reads) [
      | inr g ↦ inl (grind (arith, e, f, g))
      | inl g ↦ elim (Option-cases (find_external event.external_user_id d.users)) [
        | inl h ↦ inl (grind (arith, e, f, g, h))
        | inr (user, h) ↦
            elim (apply_status-cases a user type (new_kyc_status type event.review_answer) d) [
              | inl same ↦ inl (grind (arith, e, f, g, h, same))
              | inr (s, k, l) ↦ inr (record {
                user = user;
                status = s;
                first = find_external-IsFirst event.external_user_id d.users user h;
                decided =
                    subst (λ t. Decides t event.review_answer s) (sym f)
                      (new_kyc_status-Decides type event.review_answer s k);
                users =
                    subst (HasSet user.id s d.users) {x = set_status user.id s d.users}
                      {y = (handle_event a event d).1.users} (grind (arith, e, f, g, h, l))
                      (set_status-HasSet user.id s d.users);
              })
            ]
      ]
    ]
  ]
]

-- Whatever a request to Sumsub's webhook carries, and whichever calls fail: the users stay as they
-- are, or the request carries a body signed with the secret key that is an event whose type and
-- review answer decide a status (green approved, red rejected, yellow, pending and on hold pending),
-- and the rows with the id of the first user of the table with the event's external id, of
-- whichever tenant, have that status, with all else of the table as it was.
pub sumsub_webhook-IsStatusSet :
    (deps : Deps) (a : Answers) (request : Request) (d : Desk)
    → ((sumsub_webhook deps a request d).1.users ≡ d.users)
      ⊎ ((event : KycWebhookEvent) × IsAccepted deps request event
          × IsStatusSet event d.users (sumsub_webhook deps a request d).1.users)
sumsub_webhook-IsStatusSet deps a request d = elim (sumsub_webhook-cases deps a request d) [
  | inl (same, _) ↦ inl (ap (λ (x : Desk). x.users) same)
  | inr (event, accepted, run) ↦ elim (handle_event-cases a event d) [
    | inl same ↦ inl (ap (λ (x : Response × Desk). x.1.users) run ∙ same)
    | inr k ↦ inr (
      event,
      accepted,
      subst (λ (x : Response × Desk). IsStatusSet event d.users x.1.users) (sym run) k,
    )
  ]
]
