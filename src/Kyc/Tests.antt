-- ===== src/Kyc/Tests.antt =====
-- A user whose review turns out green.
use multisub_infra.Prelude.{◌≡◌, ◌⊎◌, refl, Text, true, none, some, [], ◌∷◌, codes, text_eq}
use multisub_infra.Signature.{verify_webhook_signature, same_buffer}
use multisub_infra.Authorization.State.{KycStatus}
use multisub_infra.Delivery.Tests.{crypto}
use multisub_infra.Kyc.{
  EventType, ReviewAnswer, KycWebhookEvent, UserRow, Desk, Answers, Request, Deps, sumsub_webhook,
  verified, handle_event, apply_status, log_event,
}
use multisub_infra.Kyc.Accept.{IsStatusSet, IsAccepted, sumsub_webhook-IsStatusSet}

abbrev event : KycWebhookEvent
event = record {
  external_user_id = codes "x";
  type = some EventType.applicant_reviewed;
  review_answer = some ReviewAnswer.green;
}

abbrev deps : Deps
deps = record { crypto = crypto; secret_key = codes "k"; parse = λ _. some event }

abbrev user_of : Text → KycStatus → UserRow
user_of tenant s = record {
  id = tenant;
  tenant_id = tenant;
  external_id = codes "x";
  kyc_status = s;
}

-- Two tenants with a user of the same external id.
abbrev desk : Desk
desk = record {
  users = user_of (codes "t1") KycStatus.pending ∷ user_of (codes "t2") KycStatus.pending ∷ [];
  audits = [];
}

abbrev request : Request
request = record { raw_body = some (codes "{}"); signature = some (codes "#k{}") }

abbrev answers : Answers
answers = record { reads = true; applicant = true; access_token = none; writes = true; logs = true }

-- The first of the two is approved, whichever tenant the review was for.
first_approved :
    (sumsub_webhook deps answers request desk).1.users
    ≡ user_of (codes "t1") KycStatus.approved ∷ user_of (codes "t2") KycStatus.pending ∷ []
unfolding sumsub_webhook verified handle_event apply_status log_event verify_webhook_signature
    same_buffer text_eq
first_approved = refl

sumsub_webhook-IsStatusSet_example :
    ((sumsub_webhook deps answers request desk).1.users ≡ desk.users)
    ⊎ ((e : KycWebhookEvent) × IsAccepted deps request e
        × IsStatusSet e desk.users (sumsub_webhook deps answers request desk).1.users)
sumsub_webhook-IsStatusSet_example = sumsub_webhook-IsStatusSet deps answers request desk
