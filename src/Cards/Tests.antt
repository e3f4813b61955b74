-- ===== src/Cards/Tests.antt =====
-- The card of the engine's tests, frozen.
use multisub_infra.Prelude.{
  ◌≡◌, inl, refl, Text, Bool, true, Option, none, some, [], ◌∷◌, codes, pos, text_eq,
}
use multisub_infra.Types.{CardStatus}
use multisub_infra.Authorization.{approved, authorize}
use multisub_infra.Authorization.Steps.{world}
use multisub_infra.Authorization.Sample.{database, groceries, store_of, store_of-AllWellFormed}
use multisub_infra.Cards.{
  CardType, Action, UpdateInput, CardRow, User, Office, Answers, Request, updated, patch_card,
  tell_lithic, write_update, cache_mapping, updated_row, is_valid_update, handle_all,
}
use multisub_infra.Cards.Tenants.{Keeps, handle_all-Keeps}
use multisub_infra.Cards.Frozen.{IsCached, patch_card-declines}

abbrev holder : User
holder = record {
  tenant_id = codes "t1";
  eoa_address = some (codes "0xAB");
  m2_safe_address = some (codes "0xcd");
}

abbrev users : Text → Option User
users _ = some holder

abbrev row : CardRow
row = record {
  id = codes "s1";
  tenant_id = codes "t1";
  user_id = codes "u1";
  lithic_card_token = some (codes "c1");
  type = CardType.virtual;
  daily_limit = pos 500;
  monthly_limit = pos 9000;
  mcc_blacklist = [];
  status = CardStatus.active;
}

abbrev office : Office
office = record { cards = λ _. some row; calls = []; redis = store_of CardStatus.active }

abbrev freeze : UpdateInput
freeze = record {
  action = some Action.freeze;
  daily_limit = none;
  monthly_limit = none;
  mcc_blacklist = none;
}

abbrev answers : Bool → Answers
answers caches = record {
  reads = true;
  lithic = some [];
  writes = true;
  caches = caches;
  new_id = [];
}

in_office : IsCached users (codes "t1") (codes "s1") office
unfolding text_eq
in_office = record {
  row = row;
  user = holder;
  token = codes "c1";
  eoa = codes "0xAB";
  safe = codes "0xcd";
  found = refl;
  holder = refl;
  has_token = refl;
  has_eoa = refl;
  has_safe = refl;
}

freezes : (patch_card users (codes "t1") (codes "s1") freeze (answers true) office).0 ≡ updated
unfolding patch_card tell_lithic write_update cache_mapping is_valid_update text_eq updated_row
freezes = refl

patch_card-declines_example : ¬ (
    authorize database groceries (
      world
        (record (store_of CardStatus.active) {
          card =
              (patch_card users
                (codes "t1")
                (codes "s1")
                freeze
                (answers true)
                office).1.redis.card;
        })
        0
        []
        [])
    ≡ (approved [], world (store_of CardStatus.active) 0 [] []))
unfolding in_office
patch_card-declines_example =
    patch_card-declines users (codes "t1") (codes "s1") freeze (answers true) office in_office
      database groceries
      (world
        (record (store_of CardStatus.active) {
          card =
              (patch_card users (codes "t1") (codes "s1") freeze (answers true)
                office).1.redis.card;
        })
        0 [] [])
      (world (store_of CardStatus.active) 0 [] []) [] freezes (inl refl) refl
      (λ k c e. store_of-AllWellFormed CardStatus.active k c e) refl

handle_all-Keeps_example :
    Keeps
      (codes "t2")
      office
      (handle_all users (codes "t2") (Request.patch (codes "s1") freeze (answers true) ∷ []) office)
handle_all-Keeps_example =
    handle_all-Keeps users (codes "t2") (Request.patch (codes "s1") freeze (answers true) ∷ [])
      office
