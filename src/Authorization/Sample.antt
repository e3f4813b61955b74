-- ===== src/Authorization/Sample.antt =====
-- A card, its user and an authorization on it, against the store of the cache's tests.
use multisub_infra.Prelude.{
  refl, none, some, [], arith, text_eq, update, lower, codes, pos, includes,
}
use multisub_infra.Decimal.{big_int, value_from}
use multisub_infra.Types.{CardMapping, CardStatus, AsaStatus, LithicAsaEvent}
use multisub_infra.Redis.{Redis, get_card_mapping, check_spend}
use multisub_infra.Redis.Script.{AllWellFormed}
use multisub_infra.Redis.Tests.{wallet_cache, wallet_store, wallet_store-AllWellFormed}
use multisub_infra.Authorization.State.{Database, User, KycStatus}
use multisub_infra.Authorization.{default_mcc_blacklist}
use multisub_infra.Authorization.Steps.{IsFunded}

abbrev pub holder : User
holder = record {
  id = codes "u1";
  tenant_id = codes "t1";
  m2_safe_address = some (codes "0xcd");
  kyc_status = KycStatus.approved;
  sub_accounts = [];
}

abbrev pub database : Database
database = record {
  user_by_eoa = λ _. some holder;
  mcc_blacklist = λ _. none;
  transactions = [];
  ledger = [];
  start_of_day = λ _. 0;
  start_of_month = λ _. 0;
  epoch = 1000;
}

abbrev pub mapping_of : CardStatus → CardMapping
mapping_of status = record {
  sub_account_id = codes "s1";
  tenant_id = codes "t1";
  eoa_address = codes "0xAB";
  m2_safe_address = codes "0xcd";
  status = status;
}

abbrev pub store_of : CardStatus → Redis
store_of status = record wallet_store { card = λ _. some (mapping_of status) }

abbrev pub groceries : LithicAsaEvent
groceries = record {
  token = codes "e1";
  card_token = codes "c1";
  status = AsaStatus.authorization;
  amount = pos 250;
  merchant = record {
    descriptor = codes "GROCER";
    mcc = codes "5411";
    city = none;
    country = none;
  };
  created = codes "2024-01-01";
}

pub store_of-AllWellFormed : (status : CardStatus) → AllWellFormed (store_of status)
store_of-AllWellFormed status k c e = wallet_store-AllWellFormed k c e

pub funded :
    IsFunded database groceries
      (store_of CardStatus.active)
      (mapping_of CardStatus.active)
      wallet_cache
unfolding get_card_mapping lower text_eq update includes check_spend big_int value_from
    default_mcc_blacklist
funded = record {
  is_authorization = refl;
  positive = omega arith;
  cleared = record { mapped = refl; is_active = refl; kyc = refl; global = refl; own = refl };
  formed = store_of-AllWellFormed CardStatus.active;
  cached = refl;
  fits = refl;
}
