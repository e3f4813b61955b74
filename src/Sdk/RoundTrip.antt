-- ===== src/Sdk/RoundTrip.antt =====
-- sdk/src/webhook.ts and backend/src/services/webhook-dispatcher.ts: what the dispatcher signs, the
-- SDK verifies.
use multisub_infra.Prelude.{
  ℕ, ◌+◌, ◌/◌, ◌≡◌, refl, sym, ap, ◌∙◌, Text, true, false, Option, some, [], ◌∷◌, ◌++◌, arith, ltb,
  if◌then◌else◌,
}
use multisub_infra.Decimal.{Decimal, to_string, IsCanonical}
use multisub_infra.Decimal.Print.{to_string-IsCanonical}
use multisub_infra.Decimal.Texts.{digit_text, number_text}
use multisub_infra.Signature.{Crypto, is_empty}
use multisub_infra.Webhooks.Accept.{same_buffer_refl}
use multisub_infra.Delivery.{Deps, post_of, signature_input}
use multisub_infra.Sdk.{
  VerificationError, ok, thrown, too_old, in_future, timed, verify_webhook,
  verify_webhook_with_timestamp, parse_verified, verify_and_parse_webhook,
}
use multisub_infra.Sdk.Numbers.{parse_int-number_text}

digit_text-nonempty : (ds : Decimal) → IsCanonical ds → is_empty (digit_text ds) ≡ false
digit_text-nonempty [] h = absurd h
digit_text-nonempty (d ∷ ds) h = refl

number_text-nonempty : (n : ℕ) → is_empty (number_text n) ≡ false
unfolding number_text
number_text-nonempty n = digit_text-nonempty (to_string n) (to_string-IsCanonical n)

pub timed-nonempty : (t body : Text) → is_empty t ≡ false → timed (some t) body ≡ t ++ b'.' ∷ body
timed-nonempty [] body e = absurd (ground (arith, e))
timed-nonempty (c ∷ t) body e = refl

-- The window of 300 seconds after the timestamp and 60 before it.
abbrev pub in_window {ℓ} : {A : Type ℓ} → ℕ → ℕ → (VerificationError → A) → A → A
in_window seconds ts throw result =
    if ltb (300 + ts) seconds
    then throw too_old
    else (if ltb (seconds + 60) ts then throw in_future else result)

module _ {E : Type 0} (crypto : Crypto) (parse : Text → Option E) (now : ℕ)
    (body signature secret : Text) where
  pub parse-timed :
      (t : Text)
      → is_empty t ≡ false
      → verify_and_parse_webhook crypto parse now body signature secret (some t)
        ≡ parse_verified parse body
            (verify_webhook_with_timestamp crypto now body signature secret t 300)
  unfolding verify_and_parse_webhook
  parse-timed [] e = absurd (ground (arith, e))
  parse-timed (c ∷ t) e = refl

  with_timestamp-number :
      (n : ℕ)
      → verify_webhook_with_timestamp crypto now body signature secret (number_text n) 300
        ≡ in_window
            (now / 1000)
            n
            thrown
            (verify_webhook crypto body signature secret (some (number_text n)))
  unfolding verify_webhook_with_timestamp
  with_timestamp-number n = grind (arith, parse_int-number_text n)

  verify-signed :
      (t : Text)
      → is_empty t ≡ false
      → is_empty signature ≡ false
      → is_empty secret ≡ false
      → signature ≡ crypto.digest secret (t ++ b'.' ∷ body)
      → verify_webhook crypto body signature secret (some t) ≡ ok true
  unfolding verify_webhook
  verify-signed t e f g s =
      let input = timed-nonempty t body e in
      rw (f, g, input, sym s, same_buffer_refl (crypto.from_hex signature)) refl

  parse-windowed :
      (n : ℕ) (event : E)
      → parse body ≡ some event
      → parse_verified parse body (in_window (now / 1000) n thrown (ok true))
        ≡ in_window (now / 1000) n thrown (ok event)
  unfolding parse_verified
  parse-windowed n event e = grind (arith, e)

-- What is posted for an event of a tenant with a secret, is received by a holder of that secret:
-- verified and parsed with its timestamp it gives the event, unless it is received more than 300
-- seconds after its timestamp, or more than 60 before it. Digests are not empty, and JSON is read back.
pub verify_and_parse-post :
    {E : Type 0} (deps : Deps E) (parse : Text → Option E) (url secret : Text) (event : E)
    (sent received : ℕ)
    → ((key message : Text) → is_empty (deps.crypto.digest key message) ≡ false)
    → ((e : E) → parse (deps.stringify e) ≡ some e)
    → is_empty secret ≡ false
    → let post = post_of deps url secret event sent in
      verify_and_parse_webhook deps.crypto parse received post.payload post.signature secret
        (some post.timestamp)
      ≡ in_window (received / 1000) (sent / 1000) thrown (ok event)
unfolding post_of signature_input
verify_and_parse-post deps parse url secret event sent received digests reads key =
    let t = number_text (sent / 1000) in
    let body = deps.stringify event in
    let signature = deps.crypto.digest secret (t ++ b'.' ∷ body) in
    let full = number_text-nonempty (sent / 1000) in
    parse-timed deps.crypto parse received body signature secret t full
    ∙ ap (parse_verified parse body) (
        with_timestamp-number deps.crypto parse received body signature secret (sent / 1000)
        ∙ ap (in_window (received / 1000) (sent / 1000) thrown) (
            verify-signed deps.crypto parse received body signature secret t full
              (digests secret (t ++ b'.' ∷ body)) key refl))
    ∙ parse-windowed deps.crypto parse received body signature secret (sent / 1000) event
        (reads event)
