-- ===== src/Kyc/Status.antt =====
-- backend/src/routes/kyc.ts: a webhook that Sumsub delivers again.
use multisub_infra.Prelude.{◌≡◌, true, Option, none, some, List}
use multisub_infra.Authorization.State.{KycStatus}
use multisub_infra.Kyc.{
  EventType, KycWebhookEvent, UserRow, same_status, find_external, new_kyc_status,
}

abbrev map_row : (UserRow → UserRow) → Option UserRow → Option UserRow
map_row f none = none
map_row f (some u) = some (f u)

-- What an event that was answered as done leaves: its user, if there is one, has the status that it sets.
abbrev pub Settled : KycWebhookEvent → List UserRow → Type 0
Settled event us =
    (user : UserRow) (type : EventType) (s : KycStatus)
    → find_external event.external_user_id us ≡ some user
    → event.type ≡ some type
    → new_kyc_status type event.review_answer ≡ some s
    → same_status s user.kyc_status ≡ true
