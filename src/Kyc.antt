-- ===== src/Kyc.antt =====
-- backend/src/routes/kyc.ts: KYC sessions, the status of a user, and Sumsub's webhooks. What Sumsub
-- and the database answer is data of each request.
pub mod Accept
pub mod Status
mod Tests
use multisub_infra.Prelude.{
  ℕ, Text, Bool, true, false, Option, none, some, List, [], ◌∷◌, ◌++◌, ◌&&◌, ◌||◌, not, leb,
  text_eq, if◌then◌else◌, length,
}
use multisub_infra.Signature.{Crypto, is_empty, verify_webhook_signature}
use multisub_infra.Authorization.State.{KycStatus}
use multisub_infra.Delivery.{truthy}

pub data EventType : Type 0 where
  applicant_reviewed applicant_pending applicant_created applicant_on_hold other : EventType

pub data ReviewAnswer : Type 0 where
  green red yellow : ReviewAnswer

-- An absent type and an empty one are alike; an answer that is none of the three sets no status.
pub record KycWebhookEvent : Type 0 where
  pub external_user_id : Text
  pub type : Option EventType
  pub review_answer : Option ReviewAnswer

pub record UserRow : Type 0 where
  pub id : Text
  pub tenant_id : Text
  pub external_id : Text
  pub kyc_status : KycStatus

pub record AuditRow : Type 0 where
  pub tenant_id : Text
  pub user_id : Text
  pub type : EventType
  pub previous_status : KycStatus
  pub new_status : KycStatus

pub data Response : Type 0 where
  done : Response
  session : Text → Response
  status : KycStatus → Response
  bad_request unauthorized not_found internal_error : Response

pub record Desk : Type 0 where
  pub users : List UserRow
  pub audits : List AuditRow

-- Which calls are answered; an access token comes with the applicant.
pub record Answers : Type 0 where
  pub reads : Bool
  pub applicant : Bool
  pub access_token : Option Text
  pub writes : Bool
  pub logs : Bool

abbrev pub same_status : KycStatus → KycStatus → Bool
same_status KycStatus.pending KycStatus.pending = true
same_status KycStatus.approved KycStatus.approved = true
same_status KycStatus.rejected KycStatus.rejected = true
same_status KycStatus.other KycStatus.other = true
same_status _ _ = false

-- `findFirst`, in the order of the table: of a user of a tenant, and of an external id.
abbrev pub find_user : Text → Text → List UserRow → Option UserRow
find_user tenant id [] = none
find_user tenant id (u ∷ us) =
    let rest = find_user tenant id us in
    if text_eq u.id id && text_eq u.tenant_id tenant then some u else rest

abbrev pub find_external : Text → List UserRow → Option UserRow
find_external external [] = none
find_external external (u ∷ us) =
    let rest = find_external external us in if text_eq u.external_id external then some u else rest

-- `update` of the status, where the id is the given one.
abbrev pub set_one : Text → KycStatus → UserRow → UserRow
set_one id s u = if text_eq u.id id then record u { kyc_status = s } else u

abbrev pub set_status : Text → KycStatus → List UserRow → List UserRow
set_status id s [] = []
set_status id s (u ∷ us) = set_one id s u ∷ set_status id s us

abbrev pub is_valid_id : Text → Bool
is_valid_id id = leb 1 (length id) && leb (length id) 255

-- The pending status is written again where it stands.
unfoldable pub open_session : Answers → Text → UserRow → Desk → Response × Desk
open_session a user_id user d =
    if not a.applicant then (internal_error, d) else elim a.access_token [
      | none ↦ (internal_error, d)
      | some token ↦
          if same_status user.kyc_status KycStatus.pending
          then (if a.writes
              then (
                session token,
                record d { users = set_status user_id KycStatus.pending d.users },
              )
              else (internal_error, d))
          else (session token, d)
    ]

-- `POST /v1/users/:userId/kyc/session`
unfoldable pub create_session : Answers → Text → Text → Desk → Response × Desk
unfolding open_session
create_session a tenant user_id d =
    if not (is_valid_id user_id)
    then (bad_request, d)
    else if not a.reads
    then (internal_error, d)
    else elim (find_user tenant user_id d.users) [
      | none ↦ (not_found, d)
      | some user ↦ open_session a user_id user d
    ]

-- `GET /v1/users/:userId/kyc/status`
unfoldable pub get_status : Answers → Text → Text → Desk → Response
get_status a tenant user_id d =
    if not (is_valid_id user_id)
    then bad_request
    else if not a.reads
    then internal_error
    else elim (find_user tenant user_id d.users) [
      | none ↦ not_found
      | some user ↦ status user.kyc_status
    ]

abbrev pub status_of_answer : ReviewAnswer → KycStatus
status_of_answer green = KycStatus.approved
status_of_answer red = KycStatus.rejected
status_of_answer yellow = KycStatus.pending

-- `newKycStatus`
abbrev pub new_kyc_status : EventType → Option ReviewAnswer → Option KycStatus
new_kyc_status applicant_reviewed none = none
new_kyc_status applicant_reviewed (some a) = some (status_of_answer a)
new_kyc_status applicant_pending _ = some KycStatus.pending
new_kyc_status applicant_on_hold _ = some KycStatus.pending
new_kyc_status applicant_created _ = none
new_kyc_status other _ = none

-- The row of the audit log, behind the update.
unfoldable pub log_event : Answers → UserRow → EventType → KycStatus → Desk → Response × Desk
log_event a user type s d =
    if a.logs
    then (
      done,
      record d {
        audits =
            d.audits
            ++ record {
              tenant_id = user.tenant_id;
              user_id = user.id;
              type = type;
              previous_status = user.kyc_status;
              new_status = s;
            }
              ∷ [];
      },
    )
    else (internal_error, d)

-- The update, if the status is new.
unfoldable pub apply_status :
    Answers → UserRow → EventType → Option KycStatus → Desk → Response × Desk
unfolding log_event
apply_status a user type none d = log_event a user type user.kyc_status d
apply_status a user type (some s) d =
    if same_status s user.kyc_status
    then log_event a user type s d
    else (if a.writes
        then log_event a user type s (record d { users = set_status user.id s d.users })
        else (internal_error, d))

unfoldable pub handle_event : Answers → KycWebhookEvent → Desk → Response × Desk
unfolding apply_status
handle_event a event d =
    if is_empty event.external_user_id then (bad_request, d) else elim event.type [
      | none ↦ (bad_request, d)
      | some type ↦
          if not a.reads
          then (internal_error, d)
          else elim (find_external event.external_user_id d.users) [
            | none ↦ (done, d)
            | some user ↦ apply_status a user type (new_kyc_status type event.review_answer) d
          ]
    ]

pub record Request : Type 0 where
  pub raw_body : Option Text
  pub signature : Option Text

-- `parse` is JSON.parse, or `none` when it throws.
pub record Deps : Type 0 where
  pub crypto : Crypto
  pub secret_key : Text
  pub parse : Text → Option KycWebhookEvent

unfoldable pub verified : Deps → Answers → Text → Text → Desk → Response × Desk
verified deps a body signature d =
    if verify_webhook_signature deps.crypto deps.secret_key body signature
    then elim (deps.parse body) [ none ↦ (internal_error, d) | some event ↦ handle_event a event d ]
    else (unauthorized, d)

-- `POST /webhooks/sumsub`
unfoldable pub sumsub_webhook : Deps → Answers → Request → Desk → Response × Desk
sumsub_webhook deps a request d = elim (truthy request.raw_body) [
  | none ↦ (bad_request, d)
  | some body ↦ elim (truthy request.signature) [
    | none ↦ (unauthorized, d)
    | some signature ↦ verified deps a body signature d
  ]
]
