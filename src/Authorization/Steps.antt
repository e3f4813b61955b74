-- ===== src/Authorization/Steps.antt =====
-- backend/src/services/authorization-engine.ts: the steps on a funded card, answered in time or late.
use multisub_infra.Prelude.{
  ℕ, ◌+◌, ◌-◌, ◌≡◌, refl, true, false, none, some, List, ◌∷◌, arith, lower, ◌<◌, ◌≤◌, abs, update,
  ap, ◌∙◌,
}
use multisub_infra.Decimal.{to_string}
use multisub_infra.Types.{
  AuthorizationCache, CardMapping, CardStatus, AsaStatus, LithicAsaEvent, Timestamp,
}
use multisub_infra.Redis.{
  Redis, spent, get_card_mapping, get_auth_cache, check_spend, apply_spend, atomic_auth_spend,
}
use multisub_infra.Redis.Script.{AllWellFormed, atomic_auth_spend-eq-number}
use multisub_infra.Redis.Spend.{spend_number_spent}
use multisub_infra.Authorization.State.{
  Database, World, Event, Audit, Fate, ok, err, timeout, Action, ◌>>=◌, ◌>>◌, pure, read, call,
  date,
}
use multisub_infra.Authorization.{
  Reason, check_deadline, decline, approve, spend, filter_mcc, check_limits, load_cache, check_kyc,
  look_up_card, decide, check_kyc_status, check_mcc_blacklist, atomic_spend_update,
  get_or_build_auth_cache,
}
use multisub_infra.Authorization.Approval.{IsCleared}

-- An event that is a call answered after `ms`.
abbrev pub after : ℕ → Event
after ms = record { elapsed = ms; fate = Fate.answered }

pub deadline_step :
    {B : Type 0} (start : ℕ) (k : Action B) (w : World)
    → w.clock - start < 300
    → (check_deadline start >> k) w ≡ k w
unfolding check_deadline ◌>>=◌
deadline_step start k w h = ground arith

pub deadline_late :
    {B : Type 0} (start : ℕ) (k : Action B) (w : World)
    → 300 ≤ w.clock - start
    → (check_deadline start >> k) w ≡ (err (timeout (w.clock - start)), w)
unfolding check_deadline ◌>>=◌
deadline_late start k w h = ground arith

pub bind_ok :
    {A B : Type 0} (n : Action A) (k : A → Action B) (a : A) (w w' : World)
    → n w ≡ (ok a, w')
    → (n >>= k) w ≡ k a w'
unfolding ◌>>=◌
bind_ok n k a w w' e = λ i. elim (e i).0 [ ok b ↦ k b (e i).1 | err x ↦ (err x, (e i).1) ]

abbrev pub world : Redis → ℕ → List Audit → List Event → World
world r t audits es = record { redis = r; clock = t; audits = audits; events = es }

module _ (db : Database) (event : LithicAsaEvent) (r : Redis) (m : CardMapping)
    (c : AuthorizationCache) where
  -- A card that is cleared, and a cache of its address that covers the amount and its limits.
  pub record IsFunded : Type 0 where
    pub is_authorization : event.status ≡ AsaStatus.authorization
    pub positive : 0 < abs event.amount
    pub cleared : IsCleared db event r m
    pub formed : AllWellFormed r
    pub cached : r.auth (lower m.eoa_address) ≡ some c
    pub fits : check_spend c (abs event.amount) ≡ none

  -- The cache and the store behind the spend, made when the clock read `t`.
  abbrev pub charged : ℕ → AuthorizationCache
  charged t = apply_spend c (abs event.amount) (Timestamp.string (to_string (db.epoch + t)))

  abbrev pub charged_store : ℕ → Redis
  charged_store t = record r { auth = update r.auth (lower m.eoa_address) (some (charged t)) }

  module _ (start : ℕ) (f : IsFunded) where
    script_run :
        (t : ℕ)
        → atomic_auth_spend r m.eoa_address (abs event.amount) (db.epoch + t)
          ≡ (spent (charged t), charged_store t)
    script_run t =
        atomic_auth_spend-eq-number r m.eoa_address (abs event.amount) (db.epoch + t) f.formed
        ∙ spend_number_spent r m.eoa_address (abs event.amount) _ c f.cached f.fits

    limits_run : check_limits db event start m c ≡ filter_mcc db event start m
    unfolding check_limits
    limits_run = unfold check_spend in ground (arith, f.fits)

    eval_run :
        (t ms : ℕ) (audits : List Audit) (rest : List Event)
        → call
            (λ _ s. atomic_auth_spend s m.eoa_address (abs event.amount) (db.epoch + t))
            (world r t audits (after ms ∷ rest))
          ≡ (ok (spent (charged t)), world (charged_store t) (t + ms) audits rest)
    unfolding call
    eval_run t ms audits rest =
        λ i. (ok (script_run t i).0, world (script_run t i).1 (t + ms) audits rest)

    update_run :
        (t ms : ℕ) (audits : List Audit) (rest : List Event)
        → atomic_spend_update db m.eoa_address
            (abs event.amount)
            (world r t audits (after ms ∷ rest))
          ≡ (ok (some (charged t)), world (charged_store t) (t + ms) audits rest)
    unfolding atomic_spend_update
    update_run t ms audits rest =
        bind_ok (date db) _ (db.epoch + t) (world r t audits (after ms ∷ rest))
          (world r t audits (after ms ∷ rest)) (unfold date in refl)
        ∙ bind_ok _ _ (spent (charged t)) (world r t audits (after ms ∷ rest))
            (world (charged_store t) (t + ms) audits rest) (eval_run t ms audits rest)
        ∙ (unfold pure in refl)

    -- The spend, when the deadline has not passed behind it, and when it has.
    pub spend_run :
        (t ms : ℕ) (audits : List Audit) (rest : List Event)
        → t + ms - start < 300
        → spend db event start m (world r t audits (after ms ∷ rest))
          ≡ approve db event start m (charged t) (world (charged_store t) (t + ms) audits rest)
    unfolding spend
    spend_run t ms audits rest h =
        rw (bind_ok _ _ _ _ _ (update_run t ms audits rest))
          (deadline_step start _ (world (charged_store t) (t + ms) audits rest) h)

    pub spend_late :
        (t ms : ℕ) (audits : List Audit) (rest : List Event)
        → 300 ≤ t + ms - start
        → spend db event start m (world r t audits (after ms ∷ rest))
          ≡ (err (timeout (t + ms - start)), world (charged_store t) (t + ms) audits rest)
    unfolding spend
    spend_late t ms audits rest h =
        rw (bind_ok _ _ _ _ _ (update_run t ms audits rest))
          (deadline_late start _ (world (charged_store t) (t + ms) audits rest) h)

    module _ (t ms : ℕ) (audits : List Audit) (rest : List Event) (h : t + ms - start < 300) where
      mcc_run :
          check_mcc_blacklist db event.merchant.mcc m.sub_account_id
            (world r t audits (after ms ∷ rest))
          ≡ (ok false, world r (t + ms) audits rest)
      unfolding check_mcc_blacklist read
      mcc_run = rw (f.cleared.global) (ap (λ b. (ok b, world r (t + ms) audits rest)) f.cleared.own)

      pub filter_run :
          filter_mcc db event start m (world r t audits (after ms ∷ rest))
          ≡ spend db event start m (world r (t + ms) audits rest)
      unfolding filter_mcc
      filter_run =
          bind_ok _ _ false _ (world r (t + ms) audits rest) mcc_run
          ∙ deadline_step start _ (world r (t + ms) audits rest) h

      cache_run :
          get_or_build_auth_cache db m (world r t audits (after ms ∷ rest))
          ≡ (ok (some c), world r (t + ms) audits rest)
      unfolding get_or_build_auth_cache get_auth_cache read ◌>>=◌ pure
      cache_run = ground (arith, f.cached)

      pub load_run :
          load_cache db event start m (world r t audits (after ms ∷ rest))
          ≡ filter_mcc db event start m (world r (t + ms) audits rest)
      unfolding load_cache
      load_run =
          bind_ok _ _ (some c) _ (world r (t + ms) audits rest) cache_run
          ∙ deadline_step start _ (world r (t + ms) audits rest) h
          ∙ ap (λ k. k (world r (t + ms) audits rest)) limits_run

      kyc_status_run :
          check_kyc_status db m.eoa_address (world r t audits (after ms ∷ rest))
          ≡ (ok true, world r (t + ms) audits rest)
      unfolding check_kyc_status read
      kyc_status_run = ap (λ b. (ok b, world r (t + ms) audits rest)) f.cleared.kyc

      pub kyc_run :
          check_kyc db event start m (world r t audits (after ms ∷ rest))
          ≡ load_cache db event start m (world r (t + ms) audits rest)
      unfolding check_kyc
      kyc_run =
          bind_ok _ _ true _ (world r (t + ms) audits rest) kyc_status_run
          ∙ deadline_step start _ (world r (t + ms) audits rest) h

      card_run :
          read (λ s. get_card_mapping s event.card_token) (world r t audits (after ms ∷ rest))
          ≡ (ok (some m), world r (t + ms) audits rest)
      unfolding read
      card_run = ap (λ o. (ok o, world r (t + ms) audits rest)) f.cleared.mapped

      active_run :
          (elim m.status [
            | CardStatus.active ↦ check_deadline start >> check_kyc db event start m
            | CardStatus.frozen ↦ decline (Reason.card_status CardStatus.frozen)
            | CardStatus.cancelled ↦ decline (Reason.card_status CardStatus.cancelled)
          ])
          ≡ (check_deadline start >> check_kyc db event start m)
      active_run = λ i. elim (f.cleared.is_active i) [
        | CardStatus.active ↦ check_deadline start >> check_kyc db event start m
        | CardStatus.frozen ↦ decline (Reason.card_status CardStatus.frozen)
        | CardStatus.cancelled ↦ decline (Reason.card_status CardStatus.cancelled)
      ]

      pub look_up_run :
          look_up_card db event start (world r t audits (after ms ∷ rest))
          ≡ check_kyc db event start m (world r (t + ms) audits rest)
      unfolding look_up_card
      look_up_run =
          bind_ok _ _ (some m) _ (world r (t + ms) audits rest) card_run
          ∙ deadline_step start _ (world r (t + ms) audits rest) h
          ∙ ap (λ k. k (world r (t + ms) audits rest)) active_run
          ∙ deadline_step start _ (world r (t + ms) audits rest) h

    pub decide_run : (w : World) → decide db event start w ≡ look_up_card db event start w
    unfolding decide
    decide_run w = ground (arith, f.is_authorization, f.positive)
