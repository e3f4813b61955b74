-- ===== src/Webhooks/Accept.antt =====
-- backend/src/routes/webhooks.ts: which requests reach the engine.
use multisub_infra.Prelude.{
  ◌≡◌, ◌≢◌, ap, ◌⊎◌, inl, inr, Text, true, false, Option, none, some, [], ◌∷◌, arith, text_eq_iff,
  text_eq_refl, Option-cases, Bool-cases,
}
use multisub_infra.Types.{LithicAsaEvent}
use multisub_infra.Signature.{Crypto, same_buffer, verify_webhook_signature, is_empty}
use multisub_infra.Webhooks.{
  result, Deps, Desk, Delivery, process, finish, handle_event, verified, present, asa_webhook,
}

pub same_buffer-eq : (given expected : Text) → same_buffer given expected ≡ true → given ≡ expected
unfolding same_buffer
same_buffer-eq given expected h = (text_eq_iff given expected).0 (ground arith)

pub verify_webhook_signature-eq :
    (c : Crypto) (secret payload signature : Text)
    → verify_webhook_signature c secret payload signature ≡ true
    → c.from_hex signature ≡ c.from_hex (c.digest secret payload)
unfolding verify_webhook_signature
verify_webhook_signature-eq c secret payload signature h =
    same_buffer-eq (c.from_hex signature) (c.from_hex (c.digest secret payload)) (ground arith)

-- The request carries a body signed with the secret, and the body is an event.
pub record IsAccepted (deps : Deps) (v : Delivery) (event : LithicAsaEvent) : Type 0 where
  pub body : Text
  pub signature : Text
  pub given_body : present v.request.raw_body ≡ some body
  pub given_signature : present v.request.signature ≡ some signature
  pub signed :
      deps.crypto.from_hex signature
      ≡ deps.crypto.from_hex (deps.crypto.digest deps.webhook_secret body)
  pub parsed : deps.parse body ≡ some event

-- A request is turned away and changes nothing, or it is accepted and processed.
pub asa_webhook-cases :
    (deps : Deps) (v : Delivery) (d : Desk)
    → (((asa_webhook deps v d).1 ≡ d) × ((asa_webhook deps v d).0 ≢ result true))
      ⊎ ((event : LithicAsaEvent) × IsAccepted deps v event
          × (asa_webhook deps v d ≡ finish deps v event d (process deps.database event d.world)))
unfolding asa_webhook verified handle_event
asa_webhook-cases deps v d = elim (Option-cases (present v.request.raw_body)) [
  | inl e ↦ inl (grind (arith, e), grind (arith, e))
  | inr (body, e) ↦ elim (Option-cases (present v.request.signature)) [
    | inl f ↦ inl (grind (arith, e, f), grind (arith, e, f))
    | inr (signature, f) ↦
        elim (Bool-cases
          (verify_webhook_signature deps.crypto deps.webhook_secret body signature)) [
            | inr bad ↦ inl (grind (arith, e, f, bad), grind (arith, e, f, bad))
            | inl good ↦ elim (Option-cases (deps.parse body)) [
              | inl g ↦ inl (grind (arith, e, f, good, g), grind (arith, e, f, good, g))
              | inr (event, g) ↦ inr (
                event,
                record {
                  body = body;
                  signature = signature;
                  given_body = e;
                  given_signature = f;
                  signed =
                      verify_webhook_signature-eq deps.crypto deps.webhook_secret body signature
                        good;
                  parsed = g;
                },
                grind (arith, e, f, good, g),
              )
            ]
          ]
  ]
]

pub same_buffer_refl : (given : Text) → same_buffer given given ≡ true
unfolding same_buffer
same_buffer_refl given = ground (arith, text_eq_refl given)

present-nonempty : (o : Option Text) (t : Text) → present o ≡ some t → is_empty t ≡ false
present-nonempty none t e = ground (arith, e)
present-nonempty (some []) t e = ground (arith, e)
present-nonempty (some (c ∷ s)) t e = ground (arith, e)

accepted-verifies :
    (deps : Deps) (v : Delivery) (event : LithicAsaEvent) (a : IsAccepted deps v event)
    → verify_webhook_signature deps.crypto deps.webhook_secret a.body a.signature ≡ true
unfolding verify_webhook_signature
accepted-verifies deps v event a =
    let body = present-nonempty v.request.raw_body a.body a.given_body in
    let signature = present-nonempty v.request.signature a.signature a.given_signature in
    let expected = deps.crypto.from_hex (deps.crypto.digest deps.webhook_secret a.body) in
    ground (
      arith,
      body,
      signature,
      ap (λ (g : Text). same_buffer g expected) a.signed,
      same_buffer_refl expected,
    )

-- An accepted request is processed.
pub accepted-run :
    (deps : Deps) (v : Delivery) (event : LithicAsaEvent) (d : Desk)
    → IsAccepted deps v event
    → asa_webhook deps v d ≡ finish deps v event d (process deps.database event d.world)
unfolding asa_webhook verified handle_event
accepted-run deps v event d a =
    grind (arith, a.given_body, a.given_signature, accepted-verifies deps v event a, a.parsed)
