-- ===== src/Sdk/Tests.antt =====
-- A webhook that the dispatcher sends, received 10 seconds later.
use multisub_infra.Prelude.{◌≡◌, refl, Text, false, some, arith, codes}
use multisub_infra.Delivery.{post_of}
use multisub_infra.Delivery.Tests.{crypto, deps}
use multisub_infra.Signature.{is_empty}
use multisub_infra.Decimal.Texts.{number_text}
use multisub_infra.Sdk.{ok, verify_and_parse_webhook}
use multisub_infra.Sdk.RoundTrip.{verify_and_parse-post}
use multisub_infra.Sdk.Sound.{IsVerified, verify_and_parse-IsVerified}

digests : (key message : Text) → is_empty (crypto.digest key message) ≡ false
digests key message = refl

free :
    (message other : Text)
    → crypto.digest (codes "k") message ≡ crypto.digest (codes "k") other
    → message ≡ other
free message other e = grind (arith, e)

verify_and_parse-post_example :
    let post = post_of deps (codes "https://a") (codes "k") (codes "{}") 7000 in
    verify_and_parse_webhook crypto some 17000 post.payload post.signature
      (codes "k")
      (some post.timestamp)
    ≡ ok (codes "{}")
verify_and_parse-post_example =
    verify_and_parse-post deps some (codes "https://a") (codes "k") (codes "{}") 7000 17000 digests
      (λ e. refl) refl

verify_and_parse-IsVerified_example :
    let post = post_of deps (codes "https://a") (codes "k") (codes "{}") 7000 in
    IsVerified crypto some 17000 post.payload post.signature (codes "k") post.timestamp (codes "{}")
unfolding post_of number_text multisub_infra.Decimal.to_string multisub_infra.Decimal.emit
verify_and_parse-IsVerified_example =
    let post = post_of deps (codes "https://a") (codes "k") (codes "{}") 7000 in
    verify_and_parse-IsVerified crypto some 17000 post.payload post.signature (codes "k")
      post.timestamp (codes "{}") refl
      (verify_and_parse-post deps some (codes "https://a") (codes "k") (codes "{}") 7000 17000
        digests (λ e. refl) refl)
