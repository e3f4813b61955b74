-- ===== src/Webhooks/Tests.antt =====
-- Webhooks on the card of the engine's tests.
use multisub_infra.Prelude.{
  ◌+◌, ◌≡◌, refl, true, false, none, some, List, [], ◌∷◌, ◌++◌, arith, text_eq, lower, codes, Text,
}
use multisub_infra.Types.{CardStatus, LithicAsaEvent}
use multisub_infra.Redis.Charges.{Charges}
use multisub_infra.Redis.Tests.{wallet_cache}
use multisub_infra.Signature.{Crypto, verify_webhook_signature, same_buffer}
use multisub_infra.Authorization.State.{Event}
use multisub_infra.Authorization.Steps.{after, world, charged}
use multisub_infra.Authorization.Runs.{timeline}
use multisub_infra.Authorization.Sample.{
  database, mapping_of, store_of, groceries, store_of-AllWellFormed, funded,
}
use multisub_infra.Webhooks.{
  result, unauthorized, Deps, Desk, Delivery, Step, delivered, expired, asa_webhook, deliver_all,
  verified,
}
use multisub_infra.Webhooks.Accept.{IsAccepted}
use multisub_infra.Webhooks.Approved.{IsApproved, asa_webhook-IsApproved}
use multisub_infra.Webhooks.Once.{IsClean, expiries, deliver_all-IsClean}
use multisub_infra.Webhooks.InTime.{job_of, asa_webhook-in_time}
use multisub_infra.Webhooks.Lapse.{fails_after, asa_webhook-lapse}

-- A digest that shows its secret and its message, and is spelled as it is.
abbrev crypto : Crypto
crypto = record { digest = λ secret message. secret ++ message; from_hex = λ s. s }

abbrev body : Text
body = codes "{}"

abbrev deps : Deps
deps = record {
  crypto = crypto;
  webhook_secret = codes "k";
  parse = λ _. some groceries;
  database = database;
  has_settlement_service = true;
  has_dispatcher = true;
  platform_issuer_safe_address = codes "0xii";
}

abbrev desk : List Event → Desk
desk events = record {
  world = world (store_of CardStatus.active) 0 [] events;
  transactions = [];
  jobs = [];
  notices = [];
}

abbrev signed_as : Text → Delivery
signed_as signature = record {
  request = record { raw_body = some body; signature = some signature };
  database_takes = true;
  is_user = λ _. false;
  queue_takes = true;
}

abbrev delivery : Delivery
delivery = signed_as (codes "k{}")

accepted : IsAccepted deps delivery groceries
accepted = record {
  body = body;
  signature = codes "k{}";
  given_body = refl;
  given_signature = refl;
  signed = refl;
  parsed = refl;
}

-- A forged signature is refused, and nothing happens.
forged : asa_webhook deps (signed_as (codes "x{}")) (desk []) ≡ (unauthorized, desk [])
unfolding asa_webhook verified verify_webhook_signature same_buffer text_eq
forged = refl

desk-IsClean : IsClean (λ _. 0) (desk [])
desk-IsClean = record { rows = λ t. omega arith; settled = λ t. omega arith }

abbrev steps : List Step
steps = delivered delivery ∷ delivered delivery ∷ expired groceries.token ∷ delivered delivery ∷ []

deliver_all-IsClean_example : IsClean (λ t. 0 + expiries t steps) (deliver_all deps steps (desk []))
deliver_all-IsClean_example = deliver_all-IsClean deps steps (λ _. 0) (desk []) desk-IsClean

asa_webhook-lapse_example :
    let cache =
      charged database groceries
        (store_of CardStatus.active)
        (mapping_of CardStatus.active)
        wallet_cache
        50 in
    let (res, d') =
      asa_webhook deps delivery (desk (after 10 ∷ timeline 10 10 10 10 10 (fails_after 10 ∷ []))) in
    (res ≡ result false)
    × (d'.world.redis.auth (lower (codes "0xAB")) ≡ some cache)
    × Charges wallet_cache cache 250
    × (d'.world.redis.processed groceries.token ≡ none)
    × (d'.transactions ≡ [])
    × (d'.jobs ≡ [])
asa_webhook-lapse_example =
    asa_webhook-lapse deps delivery groceries
      (desk (after 10 ∷ timeline 10 10 10 10 10 (fails_after 10 ∷ []))) (store_of CardStatus.active)
      (mapping_of CardStatus.active) wallet_cache 0 10 10 10 10 10 10 10 [] [] funded accepted refl
      (omega arith) refl

abbrev prompt : Desk
prompt = desk (after 10 ∷ timeline 10 10 10 10 10 (after 10 ∷ after 10 ∷ []))

asa_webhook-in_time_example :
    let (res, d') = asa_webhook deps delivery prompt in
    (res ≡ result true)
    × (d'.world.redis.auth (lower (codes "0xAB"))
        ≡ some (
            charged database groceries
              (store_of CardStatus.active)
              (mapping_of CardStatus.active)
              wallet_cache
              50))
    × (d'.world.redis.processed groceries.token ≡ some true)
    × (d'.jobs ≡ job_of deps groceries (mapping_of CardStatus.active) ∷ [])
asa_webhook-in_time_example =
    asa_webhook-in_time deps delivery groceries prompt (store_of CardStatus.active)
      (mapping_of CardStatus.active) wallet_cache 0 10 10 10 10 10 10 10 10 [] [] funded accepted
      refl (omega arith) refl refl refl refl

asa_webhook-IsApproved_example :
    (event : LithicAsaEvent) × IsAccepted deps delivery event
    × IsApproved deps event prompt (asa_webhook deps delivery prompt).1
asa_webhook-IsApproved_example =
    asa_webhook-IsApproved deps delivery prompt (store_of-AllWellFormed CardStatus.active)
      (asa_webhook-in_time deps delivery groceries prompt (store_of CardStatus.active)
        (mapping_of CardStatus.active) wallet_cache 0 10 10 10 10 10 10 10 10 [] [] funded accepted
        refl (omega arith) refl refl refl refl).0
