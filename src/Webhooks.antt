-- ===== src/Webhooks.antt =====
-- backend/src/routes/webhooks.ts: the handler of Lithic's authorization webhooks. Awaited calls meet
-- the events of the engine's world; what is sent off without being awaited is listed on the desk.
pub mod Accept
pub mod Approved
pub mod Marked
pub mod Once
pub mod Lapse
pub mod InTime
mod Tests
use multisub_infra.Prelude.{
  ℕ, ℤ, Text, Bool, true, false, Option, none, some, List, [], ◌∷◌, ◌++◌, ◌&&◌, ◌||◌, not, text_eq,
  if◌then◌else◌, update,
}
use multisub_infra.Decimal.{Decimal}
use multisub_infra.Types.{LithicAsaEvent, Merchant, CardMapping}
use multisub_infra.Redis.{Redis, get_card_mapping}
use multisub_infra.Signature.{Crypto, is_empty, verify_webhook_signature}
use multisub_infra.Authorization.State.{
  Database, World, Result, ok, err, Action, ◌>>=◌, ◌>>◌, pure, read, write, date,
}
use multisub_infra.Authorization.{AuthorizationResult, approved, declined, Reason, authorize}

pub record Request : Type 0 where
  pub raw_body : Option Text
  pub signature : Option Text

-- `APPROVED` or `DECLINED`, or an error status.
pub data Response : Type 0 where
  result : Bool → Response
  bad_request unauthorized : Response

-- A row of `transaction`, of type authorization and in USD.
pub record TransactionRow : Type 0 where
  pub tenant_id : Text
  pub user_id : Text
  pub lithic_tx_token : Text
  pub amount : ℤ
  pub merchant : Merchant
  pub is_approved : Bool

-- A job handed to the settlement service, with attempt 1; its amount is the text of this integer.
pub record JobRequest : Type 0 where
  pub lithic_tx_token : Text
  pub m2_safe_address : Text
  pub issuer_safe_address : Text
  pub amount : ℤ
  pub tenant_id : Text

-- What `dispatchForCard` is called with.
pub record Notice : Type 0 where
  pub card_token : Text
  pub lithic_tx_token : Text
  pub outcome : AuthorizationResult

-- `parse` is JSON.parse and the schema of `parseASAEvent`, or `none` when one of them throws.
pub record Deps : Type 0 where
  pub crypto : Crypto
  pub webhook_secret : Text
  pub parse : Text → Option LithicAsaEvent
  pub database : Database
  pub has_settlement_service : Bool
  pub has_dispatcher : Bool
  pub platform_issuer_safe_address : Text

pub record Desk : Type 0 where
  pub world : World
  pub transactions : List TransactionRow
  pub jobs : List JobRequest
  pub notices : List Notice

-- A request; whether the database answers, and which ids the table `User` has, when the row is
-- created; and whether the queue takes the job.
pub record Delivery : Type 0 where
  pub request : Request
  pub database_takes : Bool
  pub is_user : Text → Bool
  pub queue_takes : Bool

abbrev pub is_approval : AuthorizationResult → Bool
is_approval (approved _) = true
is_approval (declined _) = false

-- What the awaited calls come to: the cached answer, or a decision and the card's mapping.
pub data Processed : Type 0 where
  cached : Bool → Processed
  decided : AuthorizationResult → Option CardMapping → Processed

-- `authorize`, which catches what is thrown in it.
unfoldable pub authorized : Database → LithicAsaEvent → Action AuthorizationResult
authorized db event w = (ok (authorize db event w).0, (authorize db event w).1)

-- `SET` with `EX`, 300; what ends the mark is `expire_mark`.
unfoldable pub mark_processed : Text → Bool → Redis → Redis
mark_processed token b r = record r { processed = update r.processed token (some b) }

unfoldable pub run_engine : Database → LithicAsaEvent → Action Processed
run_engine db event = do
  outcome ← authorized db event
  write (mark_processed event.token (is_approval outcome))
  mapping ← read (λ r. get_card_mapping r event.card_token)
  pure (decided outcome mapping)

unfoldable pub process : Database → LithicAsaEvent → Action Processed
process db event = do
  seen ← read (λ r. r.processed event.token)
  elim seen [ some b ↦ pure (cached b) | none ↦ run_engine db event ]

-- Whether a row has a token: `lithicTxToken` is unique.
unfoldable pub has_token : Text → List TransactionRow → Bool
has_token token [] = false
has_token token (x ∷ xs) = text_eq x.lithic_tx_token token || has_token token xs

-- `create`, and its `catch`: `userId`, a foreign key to the id of a user, is given the id of the
-- subaccount.
unfoldable pub record_transaction :
    Deps → Delivery → LithicAsaEvent → AuthorizationResult → CardMapping → Desk → Desk
record_transaction deps v event outcome m d =
    if v.database_takes && v.is_user m.sub_account_id && not (has_token event.token d.transactions)
    then record d {
      transactions =
          d.transactions
          ++ record {
            tenant_id = m.tenant_id;
            user_id = m.sub_account_id;
            lithic_tx_token = event.token;
            amount = event.amount;
            merchant = event.merchant;
            is_approved = is_approval outcome;
          }
            ∷ [];
    }
    else d

-- The job follows the row, also when the row's failure was caught.
unfoldable pub enqueue_settlement :
    Deps → Delivery → LithicAsaEvent → AuthorizationResult → CardMapping → Desk → Desk
enqueue_settlement deps v event outcome m d =
    if is_approval outcome
      && deps.has_settlement_service
      && not (is_empty m.m2_safe_address)
      && v.queue_takes
    then record d {
      jobs =
          d.jobs
          ++ record {
            lithic_tx_token = event.token;
            m2_safe_address = m.m2_safe_address;
            issuer_safe_address = deps.platform_issuer_safe_address;
            amount = event.amount;
            tenant_id = m.tenant_id;
          }
            ∷ [];
    }
    else d

unfoldable pub dispatch_notice : Deps → LithicAsaEvent → AuthorizationResult → Desk → Desk
dispatch_notice deps event outcome d =
    if deps.has_dispatcher
    then record d {
      notices =
          d.notices
          ++ record {
            card_token = event.card_token;
            lithic_tx_token = event.token;
            outcome = outcome;
          }
            ∷ [];
    }
    else d

unfoldable pub send_off :
    Deps → Delivery → LithicAsaEvent → AuthorizationResult → Option CardMapping → Desk → Desk
send_off deps v event outcome none d = dispatch_notice deps event outcome d
send_off deps v event outcome (some m) d =
    dispatch_notice deps event outcome
      (enqueue_settlement deps v event outcome m (record_transaction deps v event outcome m d))

-- The rest of the handler; the `catch` declines.
unfoldable pub finish :
    Deps → Delivery → LithicAsaEvent → Desk → Result Processed × World → Response × Desk
finish deps v event d (ok (cached b), w) = (result b, record d { world = w })
finish deps v event d (ok (decided outcome mapping), w) =
    (result (is_approval outcome), send_off deps v event outcome mapping (record d { world = w }))
finish deps v event d (err e, w) = (result false, record d { world = w })

unfoldable pub handle_event : Deps → Delivery → Option LithicAsaEvent → Desk → Response × Desk
handle_event deps v none d = (result false, d)
handle_event deps v (some event) d = finish deps v event d (process deps.database event d.world)

unfoldable pub verified : Deps → Delivery → Text → Text → Desk → Response × Desk
verified deps v body signature d =
    if verify_webhook_signature deps.crypto deps.webhook_secret body signature
    then handle_event deps v (deps.parse body) d
    else (unauthorized, d)

-- An absent header and an empty one are alike.
abbrev pub present : Option Text → Option Text
present none = none
present (some []) = none
present (some (c ∷ s)) = some (c ∷ s)

-- `POST /webhooks/lithic/asa`
unfoldable pub asa_webhook : Deps → Delivery → Desk → Response × Desk
asa_webhook deps v d = elim (present v.request.raw_body) [
  | none ↦ (bad_request, d)
  | some body ↦ elim (present v.request.signature) [
    | none ↦ (unauthorized, d)
    | some signature ↦ verified deps v body signature d
  ]
]

-- The mark of a token runs out, 300 seconds behind the write of it (`EX`, 300).
unfoldable pub expire_mark : Text → Desk → Desk
expire_mark token d = record d {
  world = record (d.world) {
    redis = record (d.world.redis) { processed = update d.world.redis.processed token none };
  };
}

-- What happens to a desk: a request, or the end of a mark.
pub data Step : Type 0 where
  delivered : Delivery → Step
  expired : Text → Step

unfoldable pub deliver_all : Deps → List Step → Desk → Desk
deliver_all deps [] d = d
deliver_all deps (delivered v ∷ vs) d = deliver_all deps vs (asa_webhook deps v d).1
deliver_all deps (expired token ∷ vs) d = deliver_all deps vs (expire_mark token d)
