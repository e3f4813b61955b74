-- ===== src/Cards.antt =====
-- backend/src/routes/cards.ts: issuing, listing and changing cards. Lithic is a list of the calls made to
-- it; what Lithic, the database and Redis answer is data of each request.
mod Input
pub mod Frozen
pub mod Tenants
mod Tests
unfoldable pub use Input.*
use multisub_infra.Prelude.{
  ℕ, ℤ, pos, negsuc, Text, Bool, true, false, Option, none, some, List, [], ◌∷◌, ◌++◌, ◌&&◌, ◌||◌,
  not, leb, ltb, ◌==◌, text_eq, if◌then◌else◌, update, length, codes,
}
use multisub_infra.Types.{CardStatus, CardMapping}
use multisub_infra.Redis.{Redis, set_card_mapping}
use multisub_infra.Delivery.{truthy}

-- A row of `subAccount`, and what is read of a user.
pub record CardRow : Type 0 where
  pub id : Text
  pub tenant_id : Text
  pub user_id : Text
  pub lithic_card_token : Option Text
  pub type : CardType
  pub daily_limit : ℤ
  pub monthly_limit : ℤ
  pub mcc_blacklist : List Text
  pub status : CardStatus

pub record User : Type 0 where
  pub tenant_id : Text
  pub eoa_address : Option Text
  pub m2_safe_address : Option Text

pub data LithicCall : Type 0 where
  create_card : CardType → ℤ → LithicCall
  update_card : Text → Option LithicState → Option ℤ → LithicCall

pub data Response : Type 0 where
  created updated bad_request not_found internal_error : Response

-- The table of cards, by their primary key.
pub record Office : Type 0 where
  pub cards : Text → Option CardRow
  pub calls : List LithicCall
  pub redis : Redis

-- Which calls are answered; a card that Lithic creates comes with its token, and its row with an id.
pub record Answers : Type 0 where
  pub reads : Bool
  pub lithic : Option Text
  pub writes : Bool
  pub caches : Bool
  pub new_id : Text

-- `setCardMapping`, if the user has both addresses and the card a token.
unfoldable pub cache_mapping : User → CardRow → Bool → Response → Office → Response × Office
cache_mapping user row caches done o = elim (truthy row.lithic_card_token) [
  | none ↦ (done, o)
  | some token ↦ elim (truthy user.eoa_address) [
    | none ↦ (done, o)
    | some eoa ↦ elim (truthy user.m2_safe_address) [
      | none ↦ (done, o)
      | some safe ↦
          if caches
          then (
            done,
            record o {
              redis = set_card_mapping o.redis token (record {
                sub_account_id = row.id;
                tenant_id = row.tenant_id;
                eoa_address = eoa;
                m2_safe_address = safe;
                status = row.status;
              });
            },
          )
          else (internal_error, o)
    ]
  ]
]

-- The row is refused where its id is taken.
unfoldable pub create_row : User → CardRow → Answers → Office → Response × Office
unfolding cache_mapping
create_row user row a o = elim (o.cards row.id) [
  | some _ ↦ (internal_error, o)
  | none ↦
      if a.writes
      then cache_mapping user row a.caches created
          (record o { cards = update o.cards row.id (some row) })
      else (internal_error, o)
]

unfoldable pub new_row : Text → Text → IssueInput → Text → Text → CardRow
new_row tenant user_id i token id = record {
  id = id;
  tenant_id = tenant;
  user_id = user_id;
  lithic_card_token = some token;
  type = i.type;
  daily_limit = i.daily_limit;
  monthly_limit = i.monthly_limit;
  mcc_blacklist = i.mcc_blacklist;
  status = CardStatus.active;
}

-- `findFirst` of a user by id and tenant.
abbrev pub owned : Text → Option User → Option User
owned tenant none = none
owned tenant (some user) = if text_eq user.tenant_id tenant then some user else none

-- `POST /v1/users/:userId/cards`
unfoldable pub issue_card :
    (Text → Option User) → Text → Text → IssueInput → Answers → Office → Response × Office
unfolding create_row new_row is_valid_issue
issue_card users tenant user_id i a o =
    if not (is_valid_issue i)
    then (bad_request, o)
    else if not a.reads
    then (internal_error, o)
    else elim (owned tenant (users user_id)) [
      | none ↦ (not_found, o)
      | some user ↦ elim a.lithic [
        | none ↦ (internal_error, o)
        | some token ↦
            create_row user (new_row tenant user_id i token a.new_id) a
              (record o { calls = o.calls ++ create_card i.type i.daily_limit ∷ [] })
      ]
    ]

-- What `findMany` keeps of the rows: those of the user and of the tenant.
abbrev pub cards_of : Text → Text → List CardRow → List CardRow
cards_of tenant user_id [] = []
cards_of tenant user_id (row ∷ rows) =
    let rest = cards_of tenant user_id rows in
    if text_eq row.user_id user_id && text_eq row.tenant_id tenant then row ∷ rest else rest

pub data Listing : Type 0 where
  listed : List CardRow → Listing
  refused : Response → Listing

-- `GET /v1/users/:userId/cards`, with the rows of the table, the newest first.
unfoldable pub list_cards : (Text → Option User) → Text → Text → Bool → List CardRow → Listing
list_cards users tenant user_id reads rows =
    if not reads then refused internal_error else elim (owned tenant (users user_id)) [
      | none ↦ refused not_found
      | some _ ↦ listed (cards_of tenant user_id rows)
    ]

abbrev pub or_else : {A : Type 0} → Option A → A → A
or_else none a = a
or_else (some b) a = b

abbrev pub status_for : Option Action → CardStatus → CardStatus
status_for none s = s
status_for (some freeze) s = CardStatus.frozen
status_for (some unfreeze) s = CardStatus.active
status_for (some cancel) s = CardStatus.cancelled

abbrev pub lithic_state_for : Option Action → Option LithicState
lithic_state_for none = none
lithic_state_for (some freeze) = some paused
lithic_state_for (some unfreeze) = some opened
lithic_state_for (some cancel) = some closed

-- `updateData`, applied.
unfoldable pub updated_row : UpdateInput → CardRow → CardRow
updated_row i row = record row {
  status = status_for i.action row.status;
  daily_limit = or_else i.daily_limit row.daily_limit;
  monthly_limit = or_else i.monthly_limit row.monthly_limit;
  mcc_blacklist = or_else i.mcc_blacklist row.mcc_blacklist;
}

abbrev pub is_some : {A : Type 0} → Option A → Bool
is_some none = false
is_some (some _) = true

-- The row is written, then the mapping.
unfoldable pub write_update :
    User → Text → UpdateInput → CardRow → Answers → Office → Response × Office
unfolding cache_mapping updated_row
write_update user card_id i row a o =
    if a.writes
    then cache_mapping user (updated_row i row) a.caches updated
        (record o { cards = update o.cards card_id (some (updated_row i row)) })
    else (internal_error, o)

-- Lithic is told of a new state or daily limit, before the row is written.
unfoldable pub tell_lithic :
    User → Text → UpdateInput → CardRow → Answers → Office → Response × Office
unfolding write_update
tell_lithic user card_id i row a o = elim (truthy row.lithic_card_token) [
  | none ↦ write_update user card_id i row a o
  | some token ↦
      if is_some i.action || is_some i.daily_limit
      then elim a.lithic [
        | none ↦ (internal_error, o)
        | some _ ↦ write_update user card_id i row a (record o {
          calls = o.calls ++ update_card token (lithic_state_for i.action) i.daily_limit ∷ [];
        })
      ]
      else write_update user card_id i row a o
]

-- `findFirst` of a card by id and tenant.
abbrev pub card_of : Text → Option CardRow → Option CardRow
card_of tenant none = none
card_of tenant (some row) = if text_eq row.tenant_id tenant then some row else none

-- `PATCH /v1/cards/:cardId`; a row whose user is gone makes the query throw.
unfoldable pub patch_card :
    (Text → Option User) → Text → Text → UpdateInput → Answers → Office → Response × Office
unfolding tell_lithic is_valid_update
patch_card users tenant card_id i a o =
    if not (is_valid_update i)
    then (bad_request, o)
    else (if not a.reads then (internal_error, o) else elim (card_of tenant (o.cards card_id)) [
      | none ↦ (not_found, o)
      | some row ↦ elim (users row.user_id) [
        | none ↦ (internal_error, o)
        | some user ↦ tell_lithic user card_id i row a o
      ]
    ])

pub data Request : Type 0 where
  issue : Text → IssueInput → Answers → Request
  patch : Text → UpdateInput → Answers → Request

unfoldable pub handle : (Text → Option User) → Text → Request → Office → Response × Office
handle users tenant (issue user_id i a) o = issue_card users tenant user_id i a o
handle users tenant (patch card_id i a) o = patch_card users tenant card_id i a o

-- Requests of one tenant, one after another.
unfoldable pub handle_all : (Text → Option User) → Text → List Request → Office → Office
handle_all users tenant [] o = o
handle_all users tenant (q ∷ qs) o = handle_all users tenant qs (handle users tenant q o).1
