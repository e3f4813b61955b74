-- ===== src/Sdk/Sound.antt =====
-- sdk/src/webhook.ts: what a verified webhook is, and what happens without a timestamp.
use multisub_infra.Prelude.{
  ℕ, ◌/◌, ◌≡◌, refl, sym, ap, ◌∙◌, ℤ, Text, Bool, true, false, Option, some, ◌∷◌, ◌++◌, arith,
  Option-cases, Bool-cases, inl, inr,
}
use multisub_infra.Signature.{Crypto, is_empty, same_buffer}
use multisub_infra.Webhooks.Accept.{same_buffer-eq}
use multisub_infra.Sdk.{
  Result, ok, thrown, timed, parse_int, verify_webhook, verify_webhook_with_timestamp,
  parse_verified, verify_and_parse_webhook, is_old, is_future,
}
use multisub_infra.Sdk.RoundTrip.{parse-timed, timed-nonempty}

module _ {E : Type 0} (crypto : Crypto) (parse : Text → Option E) (now : ℕ)
    (body signature secret : Text) where
  -- The timestamp is in its window, the signature is that of timestamp and body, and the body parses.
  pub record IsVerified (t : Text) (event : E) : Type 0 where
    pub ts : ℤ
    pub is_timestamp : parse_int t ≡ some ts
    pub not_old : is_old (now / 1000) ts 300 ≡ false
    pub not_future : is_future (now / 1000) ts ≡ false
    pub signed :
        crypto.from_hex signature ≡ crypto.from_hex (crypto.digest secret (t ++ b'.' ∷ body))
    pub parsed : parse body ≡ some event

  parse_verified-ok :
      (x : Result Bool) (event : E)
      → parse_verified parse body x ≡ ok event
      → (x ≡ ok true) × (parse body ≡ some event)
  unfolding parse_verified
  parse_verified-ok (thrown f) event h = absurd (ground (arith, h))
  parse_verified-ok (ok false) event h = absurd (ground (arith, h))
  parse_verified-ok (ok true) event h = elim (Option-cases (parse body)) [
    | inl e ↦ absurd (ground (arith, h, e))
    | inr (a, e) ↦ (refl, grind (arith, h, e))
  ]

  verify_webhook-ok :
      (t : Option Text)
      → verify_webhook crypto body signature secret t ≡ ok true
      → same_buffer
          (crypto.from_hex signature)
          (crypto.from_hex (crypto.digest secret (timed t body)))
        ≡ true
  unfolding verify_webhook
  verify_webhook-ok t h = ground (arith, h)

  with_timestamp-ok :
      (t : Text)
      → verify_webhook_with_timestamp crypto now body signature secret t 300 ≡ ok true
      → (ts : ℤ) × (parse_int t ≡ some ts)
        × (is_old (now / 1000) ts 300 ≡ false)
        × (is_future (now / 1000) ts ≡ false)
        × (verify_webhook crypto body signature secret (some t) ≡ ok true)
  unfolding verify_webhook_with_timestamp
  with_timestamp-ok t h = elim (Option-cases (parse_int t)) [
    | inl e ↦ absurd (ground (arith, h, e))
    | inr (ts, e) ↦ elim (Bool-cases (is_old (now / 1000) ts 300)) [
      | inl old ↦ absurd (grind (arith, h, e, old))
      | inr f ↦ elim (Bool-cases (is_future (now / 1000) ts)) [
        | inl early ↦ absurd (grind (arith, h, e, f, early))
        | inr g ↦ (ts, e, f, g, grind (arith, h, e, f, g))
      ]
    ]
  ]

-- A webhook that is verified and parsed with a timestamp carries a signature, under the secret, of
-- that timestamp and the body; its timestamp is at most 300 seconds old and 60 ahead; and the event
-- is what the body parses to.
pub verify_and_parse-IsVerified :
    {E : Type 0} (crypto : Crypto) (parse : Text → Option E) (now : ℕ)
    (body signature secret t : Text) (event : E)
    → is_empty t ≡ false
    → verify_and_parse_webhook crypto parse now body signature secret (some t) ≡ ok event
    → IsVerified crypto parse now body signature secret t event
verify_and_parse-IsVerified crypto parse now body signature secret t event full h =
    let (verified, parsed) =
      parse_verified-ok crypto parse now body signature secret _ event
        (sym (parse-timed crypto parse now body signature secret t full) ∙ h) in
    let (ts, e, f, g, good) = with_timestamp-ok crypto parse now body signature secret t verified in
    record {
      ts = ts;
      is_timestamp = e;
      not_old = f;
      not_future = g;
      signed =
          same_buffer-eq _ _
            (verify_webhook-ok crypto parse now body signature secret (some t) good)
          ∙ ap (λ m. crypto.from_hex (crypto.digest secret m)) (timed-nonempty t body full);
      parsed = parsed;
    }
