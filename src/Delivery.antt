-- ===== src/Delivery.antt =====
-- backend/src/services/webhook-dispatcher.ts: what is sent to a tenant's webhook, and where to. URLs,
-- names and HTTP are Node's: what they answer is data of each attempt.
pub mod Address
pub mod Attempts
pub mod Safe
pub mod Tests
use multisub_infra.Prelude.{
  ℕ, zero, suc, ◌+◌, ◌/◌, Text, Bool, true, false, Option, none, some, List, [], ◌∷◌, ◌++◌, ◌&&◌,
  ◌||◌, not, leb, ltb, ◌==◌, text_eq, if◌then◌else◌, includes, codes,
}
use multisub_infra.Decimal.Texts.{number_text, starts_with, is_digit}
use multisub_infra.Types.{CardMapping}
use multisub_infra.Redis.{Redis, get_card_mapping}
use multisub_infra.Signature.{Crypto, is_empty}

-- `(1[6-9]|2\d|3[0-1])\.` at the start of a text.
unfoldable pub private_second : Text → Bool
private_second (x ∷ y ∷ z ∷ t) =
    z == b'.'
    && ((x == b'1' && leb b'6' y && leb y b'9')
        || (x == b'2' && is_digit y)
        || (x == b'3' && leb b'0' y && leb y b'1'))
private_second _ = false

-- A test anchored behind a prefix.
abbrev pub after : Text → (Text → Bool) → Text → Bool
after [] test t = test t
after (c ∷ p) test [] = false
after (c ∷ p) test (d ∷ t) = (c == d) && after p test t

-- BLOCKED_IP_RANGES, in their order.
unfoldable pub is_blocked : Text → Bool
unfolding private_second
is_blocked a =
    starts_with (codes "127.") a
    || starts_with (codes "10.") a
    || after (codes "172.") private_second a
    || starts_with (codes "192.168.") a
    || starts_with (codes "169.254.") a
    || starts_with (codes "0.") a
    || text_eq (codes "::1") a
    || starts_with (codes "fc00:") a
    || starts_with (codes "fe80:") a

pub record Url : Type 0 where
  pub protocol : Text
  pub hostname : Text

pub data Failure : Type 0 where
  invalid_url insecure_protocol invalid_protocol blocked_range unresolvable : Failure
  timed_out network : Failure
  http_status : ℕ → Failure

-- What becomes of a fetch: a status, an abort by the timer, or another error.
pub data Reply : Type 0 where
  status : ℕ → Reply
  aborted broken : Reply

-- What an attempt meets: what `dns.lookup` answers for each name, and the reply of a fetch.
pub record Attempt : Type 0 where
  pub resolved : Text → Option Text
  pub reply : Reply

-- `validateWebhookUrl`, with the URL as `new URL` reads it; it gives the address that was checked.
pub data Checked : Type 0 where
  refused : Failure → Checked
  allowed : Text → Checked

abbrev pub check_address : Option Text → Checked
check_address none = refused unresolvable
check_address (some a) = if is_blocked a then refused blocked_range else allowed a

unfoldable pub validate_webhook_url : Bool → Option Url → (Text → Option Text) → Checked
validate_webhook_url production none resolved = refused invalid_url
validate_webhook_url production (some url) resolved =
    if production && not (text_eq url.protocol (codes "https:"))
    then refused insecure_protocol
    else (if not (includes (codes "http:" ∷ codes "https:" ∷ []) url.protocol)
        then refused invalid_protocol
        else check_address (resolved url.hostname))

-- A POST, with the address that its URL was checked for.
pub record Post : Type 0 where
  pub url : Text
  pub payload : Text
  pub signature : Text
  pub timestamp : Text

pub record Sent : Type 0 where
  pub post : Post
  pub checked : Text

pub record AuditEntry (E : Type 0) : Type 0 where
  pub tenant_id : Text
  pub event : E
  pub url : Text
  pub error : Failure
  pub attempts : ℕ

pub record Outbox (E : Type 0) : Type 0 where
  pub posts : List Sent
  pub audits : List (AuditEntry E)
  pub waited : ℕ

pub record Tenant : Type 0 where
  pub webhook_url : Option Text
  pub webhook_secret : Option Text

-- `stringify` is JSON.stringify, `parse_url` is `new URL`.
pub record Deps (E : Type 0) : Type 0 where
  pub crypto : Crypto
  pub tenant : Text → Option Tenant
  pub stringify : E → Text
  pub parse_url : Text → Option Url
  pub production : Bool

-- Absent, null and empty alike.
abbrev pub truthy : Option Text → Option Text
truthy none = none
truthy (some []) = none
truthy (some (c ∷ t)) = some (c ∷ t)

abbrev pub retry_delays_ms : List ℕ
retry_delays_ms = 1000 ∷ 10000 ∷ 60000 ∷ []

-- `response.ok`
abbrev pub failure_of : Reply → Option Failure
failure_of (status n) = if leb 200 n && leb n 299 then none else some (http_status n)
failure_of aborted = some timed_out
failure_of broken = some network

module _ {E : Type 0} (deps : Deps E) where
  -- The fetch of `sendWebhook`, behind the check of the URL.
  unfoldable pub post_to : Post → Reply → List Sent → Checked → Option Failure × List Sent
  post_to post reply sent (refused e) = (some e, sent)
  post_to post reply sent (allowed address) =
      (failure_of reply, sent ++ record { post = post; checked = address } ∷ [])

  -- `sendWebhook`: the error that it throws, and what it has sent.
  unfoldable pub send_webhook : Post → Attempt → List Sent → Option Failure × List Sent
  unfolding post_to
  send_webhook post a sent =
      post_to post a.reply sent
        (validate_webhook_url deps.production (deps.parse_url post.url) a.resolved)

  -- The loop over the attempts: `none` when one has succeeded, else the last error. It waits behind
  -- each failed attempt but the last.
  unfoldable pub attempt_all :
      Post → List ℕ → (ℕ → Attempt) → ℕ → Failure → Outbox E → Option Failure × Outbox E
  attempt_all post [] answers attempt last o = (some last, o)
  attempt_all post (delay ∷ delays) answers attempt last o =
      elim (send_webhook post (answers attempt) o.posts).0 [
        | none ↦ (none, record o { posts = (send_webhook post (answers attempt) o.posts).1 })
        | some e ↦ attempt_all post delays answers (suc attempt) e (record o {
          posts = (send_webhook post (answers attempt) o.posts).1;
          waited = o.waited + (elim delays [ [] ↦ 0 | _ ∷ _ ↦ delay ]);
        })
      ]

  -- What is signed, and what is posted, when `Date.now()` is `now`.
  unfoldable pub signature_input : Text → Text → Text
  signature_input timestamp payload = timestamp ++ b'.' ∷ payload

  unfoldable pub post_of : Text → Text → E → ℕ → Post
  unfolding signature_input
  post_of url secret event now =
      let payload = deps.stringify event in
      let timestamp = number_text (now / 1000) in
      record {
        url = url;
        payload = payload;
        signature = deps.crypto.digest secret (signature_input timestamp payload);
        timestamp = timestamp;
      }

  -- The row of the audit log, if the database takes it.
  unfoldable pub log_failure : Bool → Text → E → Text → Option Failure × Outbox E → Outbox E
  log_failure takes tenant_id event url (none, o) = o
  log_failure takes tenant_id event url (some e, o) =
      if takes
      then record o {
        audits =
            o.audits
            ++ record { tenant_id = tenant_id; event = event; url = url; error = e; attempts = 3 }
              ∷ [];
      }
      else o

  -- `dispatch`: nothing without a URL or without a secret.
  unfoldable pub dispatch_to : Bool → ℕ → (ℕ → Attempt) → Text → E → Tenant → Outbox E → Outbox E
  unfolding post_of
  dispatch_to takes now answers tenant_id event tenant o = elim (truthy tenant.webhook_url) [
    | none ↦ o
    | some url ↦ elim (truthy tenant.webhook_secret) [
      | none ↦ o
      | some secret ↦
          log_failure takes tenant_id event url
            (attempt_all (post_of url secret event now) retry_delays_ms answers 0 network o)
    ]
  ]

  unfoldable pub dispatch : Bool → ℕ → (ℕ → Attempt) → Text → E → Outbox E → Outbox E
  dispatch takes now answers tenant_id event o = elim (deps.tenant tenant_id) [
    | none ↦ o
    | some tenant ↦ dispatch_to takes now answers tenant_id event tenant o
  ]

  -- `dispatchForCard`: `make` puts the tenant into the event.
  unfoldable pub dispatch_for_card :
      Bool → ℕ → (ℕ → Attempt) → Option Redis → Text → (Text → E) → Outbox E → Outbox E
  dispatch_for_card takes now answers none card_token make o = o
  dispatch_for_card takes now answers (some r) card_token make o =
      elim (get_card_mapping r card_token) [
        | none ↦ o
        | some m ↦ dispatch takes now answers m.tenant_id (make m.tenant_id) o
      ]
