-- ===== src/Cards/Frozen.antt =====
-- backend/src/routes/cards.ts and backend/src/services/authorization-engine.ts: a change of a card's
-- status, and the authorizations behind it.
use multisub_infra.Prelude.{
  ◌≡◌, ◌≢◌, sym, ap, ◌∙◌, ◌⊎◌, inl, inr, Text, Bool, true, false, Option, some, [], ◌∷◌, ◌++◌, ◌||◌,
  arith, if◌then◌else◌, update, update_self, Option-cases, Bool-cases,
}
use mathlib.Core.Path.{subst}
use multisub_infra.Decimal.{Decimal}
use multisub_infra.Types.{CardStatus, CardMapping, LithicAsaEvent}
use multisub_infra.Redis.{set_card_mapping, get_card_mapping}
use multisub_infra.Redis.Script.{AllWellFormed}
use multisub_infra.Authorization.State.{Database, World}
use multisub_infra.Authorization.{approved, authorize}
use multisub_infra.Authorization.Decision.{authorize-Approval}
use multisub_infra.Delivery.{truthy}
use multisub_infra.Cards.{
  Action, freeze, cancel, UpdateInput, CardRow, User, Response, Office, Answers, internal_error,
  updated, cache_mapping, updated_row, status_for, write_update, tell_lithic, card_of, patch_card,
  is_valid_update, is_some, update_card, lithic_state_for,
}

-- A card of the tenant with a token, whose user has both addresses.
pub record IsCached (users : Text → Option User) (tenant card_id : Text) (o : Office) : Type 0 where
  pub row : CardRow
  pub user : User
  pub token : Text
  pub eoa : Text
  pub safe : Text
  pub found : card_of tenant (o.cards card_id) ≡ some row
  pub holder : users row.user_id ≡ some user
  pub has_token : truthy row.lithic_card_token ≡ some token
  pub has_eoa : truthy user.eoa_address ≡ some eoa
  pub has_safe : truthy user.m2_safe_address ≡ some safe

module _ (users : Text → Option User) (tenant card_id : Text) (i : UpdateInput) (a : Answers)
    (o : Office) (h : IsCached users tenant card_id o) where
  abbrev pub mapping : CardMapping
  mapping = record {
    sub_account_id = h.row.id;
    tenant_id = h.row.tenant_id;
    eoa_address = h.eoa;
    m2_safe_address = h.safe;
    status = status_for i.action h.row.status;
  }

  cached :
      (caches : Bool) (o' : Office)
      → cache_mapping h.user (updated_row i h.row) caches updated o' ≡ (
          if caches
          then (updated, record o' { redis = set_card_mapping o'.redis h.token mapping })
          else (internal_error, o'))
  unfolding cache_mapping updated_row
  cached caches o' = grind (arith, h.has_token, h.has_eoa, h.has_safe)

  written : Office → Office
  written o' = record o' { cards = update o'.cards card_id (some (updated_row i h.row)) }

  write_run :
      (o' : Office)
      → write_update h.user card_id i h.row a o' ≡ (
          if a.writes
          then (if a.caches
              then (
                updated,
                record (written o') { redis = set_card_mapping o'.redis h.token mapping },
              )
              else (internal_error, written o'))
          else (internal_error, o'))
  unfolding write_update written
  write_run o' = grind (arith, cached a.caches (written o'))

  -- If the change is answered as made, the mapping of the card has its new status.
  abbrev Mapped : Response × Office → Type 0
  Mapped x = x.0 ≡ updated → get_card_mapping x.1.redis h.token ≡ some mapping

  error-Mapped : (o' : Office) → Mapped (internal_error, o')
  error-Mapped o' e = absurd (ground (arith, e))

  made-Mapped :
      (o' : Office)
      → Mapped (updated, record o' { redis = set_card_mapping o'.redis h.token mapping })
  unfolding get_card_mapping set_card_mapping
  made-Mapped o' e = update_self o'.redis.card h.token (some mapping)

  write-Mapped : (o' : Office) → Mapped (write_update h.user card_id i h.row a o')
  write-Mapped o' = subst Mapped (sym (write_run o')) (split a.writes a.caches)
    where
      split :
          (b c : Bool)
          → Mapped (
              if b
              then (if c
                  then (
                    updated,
                    record (written o') { redis = set_card_mapping o'.redis h.token mapping },
                  )
                  else (internal_error, written o'))
              else (internal_error, o'))
      split true true = unfold written in made-Mapped (written o')
      split true false = error-Mapped (written o')
      split false c = error-Mapped o'

  tell-Mapped : Mapped (tell_lithic h.user card_id i h.row a o)
  unfolding tell_lithic
  tell-Mapped = elim (Bool-cases (is_some i.action || is_some i.daily_limit)) [
    | inr f ↦
        subst Mapped {x = write_update h.user card_id i h.row a o}
          {y = tell_lithic h.user card_id i h.row a o} (grind (arith, h.has_token, f))
          (write-Mapped o)
    | inl f ↦ elim (Option-cases a.lithic) [
      | inl g ↦
          subst Mapped {x = (internal_error, o)} {y = tell_lithic h.user card_id i h.row a o}
            (grind (arith, h.has_token, f, g)) (error-Mapped o)
      | inr (t, g) ↦
          let o' = record o {
            calls = o.calls ++ update_card h.token (lithic_state_for i.action) i.daily_limit ∷ [];
          } in
          subst Mapped {x = write_update h.user card_id i h.row a o'}
            {y = tell_lithic h.user card_id i h.row a o} (grind (arith, h.has_token, f, g))
            (write-Mapped o')
    ]
  ]

  patch_card-Mapped : Mapped (patch_card users tenant card_id i a o)
  unfolding patch_card
  patch_card-Mapped = elim (Bool-cases (is_valid_update i)) [
    | inr e ↦ λ k. absurd (grind (arith, e, k))
    | inl e ↦ elim (Bool-cases a.reads) [
      | inr f ↦ λ k. absurd (grind (arith, e, f, k))
      | inl f ↦
          subst Mapped {x = tell_lithic h.user card_id i h.row a o}
            {y = patch_card users tenant card_id i a o} (grind (arith, e, f, h.found, h.holder))
            tell-Mapped
    ]
  ]

status_for-stops :
    (action : Option Action) (s : CardStatus)
    → (action ≡ some freeze) ⊎ (action ≡ some cancel)
    → status_for action s ≢ CardStatus.active
status_for-stops action s (inl e) f = absurd (ground (arith, e, f))
status_for-stops action s (inr e) f = absurd (ground (arith, e, f))

-- A card of a user with both addresses that is frozen or cancelled by a change that is answered as
-- made: behind it, as long as the card mappings stay, no authorization on its token is
-- approved, whichever calls fail or take long.
pub patch_card-declines :
    (users : Text → Option User) (tenant card_id : Text) (i : UpdateInput) (a : Answers)
    (o : Office) (h : IsCached users tenant card_id o) (db : Database) (event : LithicAsaEvent)
    (w w' : World) (balance : Decimal)
    → (patch_card users tenant card_id i a o).0 ≡ updated
    → (i.action ≡ some freeze) ⊎ (i.action ≡ some cancel)
    → w.redis.card ≡ (patch_card users tenant card_id i a o).1.redis.card
    → AllWellFormed w.redis
    → event.card_token ≡ h.token
    → ¬ (authorize db event w ≡ (approved balance, w'))
unfolding get_card_mapping
patch_card-declines users tenant card_id i a o h db event w w' balance made stopped same formed
      token run =
    let approval = authorize-Approval db event w w' balance formed run in
    let m = mapping users tenant card_id i a o h in
    let here : w.redis.card event.card_token ≡ some m =
      ap w.redis.card token
      ∙ ap (λ (p : Text → Option CardMapping). p h.token) same
      ∙ patch_card-Mapped users tenant card_id i a o h made in
    let eq : approval.mapping ≡ m = ground (arith, sym approval.cleared.mapped ∙ here) in
    status_for-stops i.action h.row.status stopped
      (ap (λ (x : CardMapping). x.status) (sym eq) ∙ approval.cleared.is_active)
