-- ===== src/Cards/Tenants.antt =====
-- backend/src/routes/cards.ts: a tenant's requests and the cards of other tenants.
use multisub_infra.Prelude.{
  ◌≡◌, ◌≢◌, refl, sym, ap, ◌∙◌, inl, inr, Text, Bool, Option, none, some, List, [], ◌∷◌, ◌++◌, ◌||◌,
  arith, text_eq, text_eq_iff, update, update_ne, Option-cases, Bool-cases,
}
use mathlib.Core.Path.{subst}
use multisub_infra.Types.{AuthorizationCache}
use multisub_infra.Redis.{Redis, set_card_mapping}
use multisub_infra.Delivery.{truthy}
use multisub_infra.Cards.{
  IssueInput, UpdateInput, CardRow, User, Response, Office, Answers, created, updated,
  cache_mapping, create_row, new_row, owned, issue_card, updated_row, write_update, tell_lithic,
  card_of, patch_card, is_valid_issue, is_valid_update, is_some, Request, issue, patch, handle,
  handle_all, create_card, update_card, lithic_state_for,
}

-- The mapping of a card is all that changes where it is cached, and no authorization cache.
pub cache_mapping-cards :
    (user : User) (row : CardRow) (caches : Bool) (done : Response) (o : Office)
    → ((cache_mapping user row caches done o).1.cards ≡ o.cards)
      × ((cache_mapping user row caches done o).1.redis.auth ≡ o.redis.auth)
unfolding cache_mapping set_card_mapping
cache_mapping-cards user row caches done o = elim (Option-cases (truthy row.lithic_card_token)) [
  | inl e ↦ (grind (arith, e), grind (arith, e))
  | inr (token, e) ↦ elim (Option-cases (truthy user.eoa_address)) [
    | inl f ↦ (grind (arith, e, f), grind (arith, e, f))
    | inr (eoa, f) ↦ elim (Option-cases (truthy user.m2_safe_address)) [
      | inl g ↦ (grind (arith, e, f, g), grind (arith, e, f, g))
      | inr (safe, g) ↦ (grind (arith, e, f, g), grind (arith, e, f, g))
    ]
  ]
]

-- What one request may do to the table: nothing, or a write under one key, which was free or held a
-- row of the tenant. The authorization caches stay.
pub data TouchesAll (tenant : Text) (p : Text → Option CardRow)
    (auth : Text → Option AuthorizationCache) (o' : Office) : Type 0 where
  untouched : o'.cards ≡ p → o'.redis.auth ≡ auth → TouchesAll tenant p auth o'
  wrote :
      (k : Text) (row : CardRow)
      → o'.cards ≡ update p k (some row)
      → ((old : CardRow) → p k ≡ some old → old.tenant_id ≡ tenant)
      → o'.redis.auth ≡ auth
      → TouchesAll tenant p auth o'

abbrev pub Touches : Text → Office → Office → Type 0
Touches tenant o o' = TouchesAll tenant o.cards o.redis.auth o'

module _ (tenant : Text) where
  cached-Touches :
      (user : User) (k : Text) (row : CardRow) (caches : Bool) (done : Response) (o o' : Office)
      → o'.cards ≡ update o.cards k (some row)
      → o'.redis ≡ o.redis
      → ((old : CardRow) → o.cards k ≡ some old → old.tenant_id ≡ tenant)
      → Touches tenant o (cache_mapping user row caches done o').1
  cached-Touches user k row caches done o o' e f own =
      let (cards, auth) = cache_mapping-cards user row caches done o' in
      wrote k row (cards ∙ e) own (auth ∙ ap (λ (r : Redis). r.auth) f)

  create_row-Touches :
      (user : User) (row : CardRow) (a : Answers) (o : Office)
      → Touches tenant o (create_row user row a o).1
  unfolding create_row
  create_row-Touches user row a o = elim (Option-cases (o.cards row.id)) [
    | inr (old, e) ↦ untouched (grind (arith, e)) (grind (arith, e))
    | inl e ↦ elim (Bool-cases a.writes) [
      | inr f ↦ untouched (grind (arith, e, f)) (grind (arith, e, f))
      | inl f ↦
          subst (λ (x : Response × Office). Touches tenant o x.1)
            {x = cache_mapping user row a.caches created
              (record o { cards = update o.cards row.id (some row) })}
            {y = create_row user row a o} (grind (arith, e, f))
            (cached-Touches user row.id row a.caches created o _ refl refl
              (λ old g. absurd (ground (arith, e, g))))
    ]
  ]

  write_update-Touches :
      (user : User) (card_id : Text) (i : UpdateInput) (row : CardRow) (a : Answers) (o : Office)
      → o.cards card_id ≡ some row
      → row.tenant_id ≡ tenant
      → Touches tenant o (write_update user card_id i row a o).1
  unfolding write_update
  write_update-Touches user card_id i row a o e own = elim (Bool-cases a.writes) [
    | inr f ↦ untouched (grind (arith, f)) (grind (arith, f))
    | inl f ↦
        subst (λ (x : Response × Office). Touches tenant o x.1)
          {x = cache_mapping user (updated_row i row) a.caches updated
            (record o { cards = update o.cards card_id (some (updated_row i row)) })}
          {y = write_update user card_id i row a o} (grind (arith, f))
          (cached-Touches user card_id (updated_row i row) a.caches updated o _ refl refl
            (λ old g. grind (arith, e, g, own)))
  ]

  tell_lithic-Touches :
      (user : User) (card_id : Text) (i : UpdateInput) (row : CardRow) (a : Answers) (o : Office)
      → o.cards card_id ≡ some row
      → row.tenant_id ≡ tenant
      → Touches tenant o (tell_lithic user card_id i row a o).1
  unfolding tell_lithic
  tell_lithic-Touches user card_id i row a o e own =
      elim (Option-cases (truthy row.lithic_card_token)) [
        | inl f ↦
            subst (λ (x : Response × Office). Touches tenant o x.1)
              {x = write_update user card_id i row a o} {y = tell_lithic user card_id i row a o}
              (grind (arith, f)) (write_update-Touches user card_id i row a o e own)
        | inr (token, f) ↦ elim (Bool-cases (is_some i.action || is_some i.daily_limit)) [
          | inr g ↦
              subst (λ (x : Response × Office). Touches tenant o x.1)
                {x = write_update user card_id i row a o} {y = tell_lithic user card_id i row a o}
                (grind (arith, f, g)) (write_update-Touches user card_id i row a o e own)
          | inl g ↦ elim (Option-cases a.lithic) [
            | inl h ↦ untouched (grind (arith, f, g, h)) (grind (arith, f, g, h))
            | inr (t, h) ↦
                let o' = record o {
                  calls =
                      o.calls ++ update_card token (lithic_state_for i.action) i.daily_limit ∷ [];
                } in
                subst (λ (x : Response × Office). Touches tenant o x.1)
                  {x = write_update user card_id i row a o'}
                  {y = tell_lithic user card_id i row a o} (grind (arith, f, g, h))
                  (write_update-Touches user card_id i row a o' e own)
          ]
        ]
      ]

  card_of-own :
      (o : Option CardRow) (row : CardRow)
      → card_of tenant o ≡ some row
      → (o ≡ some row) × (row.tenant_id ≡ tenant)
  card_of-own none row e = absurd (ground (arith, e))
  card_of-own (some r) row e = elim (Bool-cases (text_eq r.tenant_id tenant)) [
    | inr f ↦ absurd (grind (arith, e, f))
    | inl f ↦
        let same : r ≡ row = grind (arith, e, f) in
        (
          ap some same,
          ap (λ (x : CardRow). x.tenant_id) (sym same) ∙ (text_eq_iff r.tenant_id tenant).0 f,
        )
  ]

  patch_card-Touches :
      (users : Text → Option User) (card_id : Text) (i : UpdateInput) (a : Answers) (o : Office)
      → Touches tenant o (patch_card users tenant card_id i a o).1
  unfolding patch_card
  patch_card-Touches users card_id i a o = elim (Bool-cases (is_valid_update i)) [
    | inr e ↦ untouched (grind (arith, e)) (grind (arith, e))
    | inl e ↦ elim (Bool-cases a.reads) [
      | inr f ↦ untouched (grind (arith, e, f)) (grind (arith, e, f))
      | inl f ↦ elim (Option-cases (card_of tenant (o.cards card_id))) [
        | inl g ↦ untouched (grind (arith, e, f, g)) (grind (arith, e, f, g))
        | inr (row, g) ↦ elim (Option-cases (users row.user_id)) [
          | inl h ↦ untouched (grind (arith, e, f, g, h)) (grind (arith, e, f, g, h))
          | inr (user, h) ↦
              let (found, own) = card_of-own (o.cards card_id) row g in
              subst (λ (x : Response × Office). Touches tenant o x.1)
                {x = tell_lithic user card_id i row a o} {y = patch_card users tenant card_id i a o}
                (grind (arith, e, f, g, h)) (tell_lithic-Touches user card_id i row a o found own)
        ]
      ]
    ]
  ]

  issue_card-Touches :
      (users : Text → Option User) (user_id : Text) (i : IssueInput) (a : Answers) (o : Office)
      → Touches tenant o (issue_card users tenant user_id i a o).1
  unfolding issue_card
  issue_card-Touches users user_id i a o = elim (Bool-cases (is_valid_issue i)) [
    | inr e ↦ untouched (grind (arith, e)) (grind (arith, e))
    | inl e ↦ elim (Bool-cases a.reads) [
      | inr f ↦ untouched (grind (arith, e, f)) (grind (arith, e, f))
      | inl f ↦ elim (Option-cases (owned tenant (users user_id))) [
        | inl g ↦ untouched (grind (arith, e, f, g)) (grind (arith, e, f, g))
        | inr (user, g) ↦ elim (Option-cases a.lithic) [
          | inl h ↦ untouched (grind (arith, e, f, g, h)) (grind (arith, e, f, g, h))
          | inr (token, h) ↦
              let o' = record o { calls = o.calls ++ create_card i.type i.daily_limit ∷ [] } in
              subst (λ (x : Response × Office). Touches tenant o x.1)
                {x = create_row user (new_row tenant user_id i token a.new_id) a o'}
                {y = issue_card users tenant user_id i a o} (grind (arith, e, f, g, h))
                (create_row-Touches user (new_row tenant user_id i token a.new_id) a o')
        ]
      ]
    ]
  ]

-- What stays of a table for the other tenants, and of the authorization caches.
pub record Keeps (tenant : Text) (o o' : Office) : Type 0 where
  pub cards :
      (k : Text) (row : CardRow)
      → o.cards k ≡ some row
      → row.tenant_id ≢ tenant
      → o'.cards k ≡ some row
  pub auth : o'.redis.auth ≡ o.redis.auth

Touches-Keeps : (tenant : Text) (o o' : Office) → Touches tenant o o' → Keeps tenant o o'
Touches-Keeps tenant o o' (untouched e f) = record {
  cards = λ k row g h. ap (λ (p : Text → Option CardRow). p k) e ∙ g;
  auth = f;
}
Touches-Keeps tenant o o' (wrote j new e own f) = record {
  cards = λ k row g h. ap (λ (p : Text → Option CardRow). p k) e ∙ elim (Bool-cases (text_eq k j)) [
    | inl same ↦ absurd (h (own row (ap o.cards (sym ((text_eq_iff k j).0 same)) ∙ g)))
    | inr other ↦ update_ne o.cards j (some new) k other ∙ g
  ];
  auth = f;
}

handle-Keeps :
    (users : Text → Option User) (tenant : Text) (q : Request) (o : Office)
    → Keeps tenant o (handle users tenant q o).1
unfolding handle
handle-Keeps users tenant (issue user_id i a) o =
    Touches-Keeps tenant o _ (issue_card-Touches tenant users user_id i a o)
handle-Keeps users tenant (patch card_id i a) o =
    Touches-Keeps tenant o _ (patch_card-Touches tenant users card_id i a o)

-- Whatever a tenant requests of the card routes, and whichever calls fail: the rows of the cards of
-- other tenants stay as they are, and so do all authorization caches, whatever limits are changed.
pub handle_all-Keeps :
    (users : Text → Option User) (tenant : Text) (qs : List Request) (o : Office)
    → Keeps tenant o (handle_all users tenant qs o)
unfolding handle_all
handle_all-Keeps users tenant [] o = record { cards = λ k row e h. e; auth = refl }
handle_all-Keeps users tenant (q ∷ qs) o =
    let now = handle-Keeps users tenant q o in
    let later = handle_all-Keeps users tenant qs (handle users tenant q o).1 in
    record {
      cards = λ k row e h. later.cards k row (now.cards k row e h) h;
      auth = later.auth ∙ now.auth;
    }
