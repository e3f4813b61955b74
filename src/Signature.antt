-- ===== src/Signature.antt =====
-- HMAC signatures as the clients of Lithic and Sumsub check them: verifyWebhookSignature of
-- backend/src/integrations/{lithic,kyc}.ts. The HMAC and the reading of hex digits are Node's.
use multisub_infra.Prelude.{
  Bool, true, false, not, Text, [], ◌∷◌, length, ◌==◌, ◌||◌, text_eq, if◌then◌else◌,
}

-- `createHmac("sha256", secret).update(message).digest("hex")` and `Buffer.from(text, "hex")`.
pub record Crypto : Type 0 where
  pub digest : Text → Text → Text
  pub from_hex : Text → Text

abbrev pub is_empty : Text → Bool
is_empty [] = true
is_empty (_ ∷ _) = false

-- The comparison of the two buffers: their lengths, then `timingSafeEqual`.
unfoldable pub same_buffer : Text → Text → Bool
same_buffer given expected =
    if not (length given == length expected) then false else text_eq given expected

unfoldable pub verify_webhook_signature : Crypto → Text → Text → Text → Bool
verify_webhook_signature c secret payload signature =
    if is_empty payload || is_empty signature
    then false
    else same_buffer (c.from_hex signature) (c.from_hex (c.digest secret payload))
