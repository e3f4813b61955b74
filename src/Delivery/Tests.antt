-- ===== src/Delivery/Tests.antt =====
-- A tenant at 203.0.113.9, and attempts to reach it.
use multisub_infra.Prelude.{
  ℕ, zero, suc, ◌≡◌, ◌⊎◌, refl, Text, true, false, some, [], ◌∷◌, ◌++◌, codes, text_eq, includes,
}
use multisub_infra.Decimal.{to_string, emit}
use multisub_infra.Decimal.Texts.{number_text}
use multisub_infra.Types.{CardStatus, CardMapping}
use multisub_infra.Redis.{Redis, get_card_mapping}
use multisub_infra.Signature.{Crypto}
use multisub_infra.Authorization.Sample.{store_of}
use multisub_infra.Delivery.{
  Attempt, status, Outbox, Tenant, Deps, is_blocked, private_second, dispatch, dispatch_for_card,
  send_webhook, post_to, validate_webhook_url, attempt_all, log_failure, dispatch_to, post_of,
  signature_input,
}
use multisub_infra.Delivery.Address.{address_text, is_blocked-internal}
use multisub_infra.Delivery.Attempts.{Dispatched, dispatch-Dispatched}
use multisub_infra.Delivery.Safe.{Grown, dispatch_for_card-IsSafe}

-- A digest that shows its key and its message.
abbrev pub crypto : Crypto
crypto = record { digest = λ key message. b'#' ∷ key ++ message; from_hex = λ s. s }

abbrev hooked : Tenant
hooked = record { webhook_url = some (codes "https://a"); webhook_secret = some (codes "k") }

abbrev pub deps : Deps Text
deps = record {
  crypto = crypto;
  tenant = λ _. some hooked;
  stringify = λ e. e;
  parse_url = λ _. some (record { protocol = codes "https:"; hostname = codes "a" });
  production = true;
}

abbrev outbox : Outbox Text
outbox = record { posts = []; audits = []; waited = 0 }

-- The first attempt is refused with a 503, the second succeeds.
abbrev answers : ℕ → Attempt
answers zero = record { resolved = λ _. some (codes "203.0.113.9"); reply = status 503 }
answers (suc _) = record { resolved = λ _. some (codes "203.0.113.9"); reply = status 200 }

-- IPv4-mapped loopback and a unique local address beyond fc00:: are not stopped.
mapped_loopback : is_blocked (codes "::ffff:127.0.0.1") ≡ false
unfolding is_blocked private_second text_eq
mapped_loopback = refl

unique_local : is_blocked (codes "fd00::1") ≡ false
unfolding is_blocked private_second text_eq
unique_local = refl

is_blocked-internal_example :
    is_blocked (address_text (record { a = 172; b = 31; c = 0; d = 9 })) ≡ true
is_blocked-internal_example = is_blocked-internal (record { a = 172; b = 31; c = 0; d = 9 })

dispatch-Dispatched_example :
    Dispatched deps true 7000 answers
      (codes "t1")
      (codes "{}")
      (codes "https://a")
      (codes "k")
      outbox
      (dispatch deps true 7000 answers (codes "t1") (codes "{}") outbox)
dispatch-Dispatched_example =
    dispatch-Dispatched deps true 7000 answers (codes "t1") (codes "{}") hooked (codes "https://a")
      (codes "k") outbox refl refl refl

dispatch_for_card-IsSafe_example :
    let store = store_of CardStatus.active in
    let o' =
      dispatch_for_card deps true 7000 answers (some store) (codes "c1") (λ (t : Text). t) outbox in
    (o'.posts ≡ outbox.posts)
    ⊎ ((r : Redis) × (m : CardMapping) × (some store ≡ some r)
        × (get_card_mapping r (codes "c1") ≡ some m)
        × Grown deps 7000 answers m.tenant_id m.tenant_id outbox.posts o'.posts)
dispatch_for_card-IsSafe_example =
    dispatch_for_card-IsSafe deps true 7000 answers (some (store_of CardStatus.active)) (codes "c1")
      (λ t. t) outbox

-- Two posts, a second of waiting and no entry.
second_try :
    let o = dispatch deps true 7000 answers (codes "t1") (codes "{}") outbox in
    (o.waited ≡ 1000) × (o.audits ≡ [])
unfolding dispatch dispatch_to log_failure attempt_all send_webhook post_to validate_webhook_url
    text_eq includes is_blocked private_second post_of signature_input number_text to_string emit
second_try = (refl, refl)
