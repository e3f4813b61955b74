-- ===== src/Redis/Account.antt =====
-- backend/src/lib/redis.ts: the spending account that a cache stands for, and the spends on it as the
-- clients are to see them: numbers, no texts, no time of the last update, no WATCH and no script.
use multisub_infra.Prelude.{
  ℕ, ◌+◌, ◌-◌, ◌≡◌, refl, sym, ap, ◌∙◌, Text, Bool, true, false, Option, none, some, List, [], ◌∷◌,
  arith, inl, inr, text_eq, lower, update, map, Option-cases, if◌then◌else◌, ltb, ◌&&◌,
}
use multisub_infra.Decimal.{big_int}
use multisub_infra.Decimal.Print.{big_int-to_string}
use multisub_infra.Types.{AuthorizationCache, Timestamp}
use multisub_infra.Redis.{
  Redis, SpendError, insufficient_balance, daily_limit, monthly_limit, SpendResult, refused,
  missing, spent, check_spend, apply_spend, update_auth_cache_spend,
}
use multisub_infra.Redis.Script.{
  AllWellFormed, spend_number, atomic_auth_spend-eq-number, update_auth_cache_spend-eq-number,
}
use multisub_infra.Redis.Spend.{
  Request, script, watched, serve, spend_number_missing, spend_number_refused, spend_number_spent,
  serve-AllWellFormed,
}

-- A limit of 0 is none.
pub record Account : Type 0 where
  pub balance : ℕ
  pub daily : ℕ
  pub daily_cap : ℕ
  pub monthly : ℕ
  pub monthly_cap : ℕ

-- `unspent`: there is no account, or another client came in between.
pub data Answer : Type 0 where
  charged : Account → Answer
  declined : SpendError → Answer
  unspent : Answer

abbrev pub Book : Type 0
Book = Text → Option Account

-- The first rule that a spend breaks.
abbrev pub verdict : Account → ℕ → Option SpendError
verdict a n =
    if ltb a.balance n
    then some insufficient_balance
    else (if ltb 0 a.daily_cap && ltb a.daily_cap (a.daily + n)
        then some daily_limit
        else (if ltb 0 a.monthly_cap && ltb a.monthly_cap (a.monthly + n)
            then some monthly_limit
            else none))

abbrev pub debit : Account → ℕ → Account
debit a n = record a { balance = a.balance - n; daily = a.daily + n; monthly = a.monthly + n }

-- A spend of `n` on the account under a key, in which no other client comes between or one does.
unfoldable pub book_spend : Book → Text → ℕ → Bool → Answer × Book
book_spend b k n alone = elim (b k) [
  | none ↦ (unspent, b)
  | some a ↦ elim (verdict a n) [
    | some e ↦ (declined e, b)
    | none ↦ if alone then (charged (debit a n), update b k (some (debit a n))) else (unspent, b)
  ]
]

abbrev pub view : AuthorizationCache → Account
view c = record {
  balance = big_int c.usdc_balance;
  daily = big_int c.daily_spent;
  daily_cap = big_int c.daily_limit;
  monthly = big_int c.monthly_spent;
  monthly_cap = big_int c.monthly_limit;
}

abbrev pub view_option : Option AuthorizationCache → Option Account
view_option none = none
view_option (some c) = some (view c)

abbrev pub view_store : Redis → Book
view_store r k = view_option (r.auth k)

abbrev pub view_answer : SpendResult → Answer
view_answer (refused e) = declined e
view_answer missing = unspent
view_answer (spent c) = charged (view c)

verdict-view : (c : AuthorizationCache) (n : ℕ) → verdict (view c) n ≡ check_spend c n
unfolding check_spend
verdict-view c n = refl

debit-view :
    (c : AuthorizationCache) (n : ℕ) (now : Timestamp)
    → view (apply_spend c n now) ≡ debit (view c) n
unfolding apply_spend
debit-view c n now = cc (
  big_int-to_string (big_int c.usdc_balance - n),
  big_int-to_string (big_int c.daily_spent + n),
  big_int-to_string (big_int c.monthly_spent + n),
)

view_store-update :
    (r : Redis) (k : Text) (c : AuthorizationCache)
    → view_store (record r { auth = update r.auth k (some c) })
      ≡ update (view_store r) k (some (view c))
unfolding update
view_store-update r k c = λ i j. at j i
  where
    at :
        (j : Text)
        → view_option (if text_eq j k then some c else r.auth j)
          ≡ (if text_eq j k then some (view c) else view_option (r.auth j))
    at j = push (text_eq j k)
      where
        push :
            (b : Bool)
            → view_option (if b then some c else r.auth j)
              ≡ (if b then some (view c) else view_option (r.auth j))
        push true = refl
        push false = refl

abbrev View : SpendResult × Redis → Answer × Book
View (result, r) = (view_answer result, view_store r)

module _ (r : Redis) (eoa : Text) (n : ℕ) where
  book_none :
      (alone : Bool)
      → r.auth (lower eoa) ≡ none
      → book_spend (view_store r) (lower eoa) n alone ≡ (unspent, view_store r)
  unfolding book_spend
  book_none alone e = grind (arith, e)

  book_declined :
      (alone : Bool) (c : AuthorizationCache) (f : SpendError)
      → r.auth (lower eoa) ≡ some c
      → check_spend c n ≡ some f
      → book_spend (view_store r) (lower eoa) n alone ≡ (declined f, view_store r)
  unfolding book_spend
  book_declined alone c f e g = grind (arith, e, verdict-view c n ∙ g)

  book_charged :
      (c : AuthorizationCache)
      → r.auth (lower eoa) ≡ some c
      → check_spend c n ≡ none
      → book_spend (view_store r) (lower eoa) n true
        ≡ (charged (debit (view c) n), update (view_store r) (lower eoa) (some (debit (view c) n)))
  unfolding book_spend
  book_charged c e g = grind (arith, e, verdict-view c n ∙ g)

  book_aborted :
      (c : AuthorizationCache)
      → r.auth (lower eoa) ≡ some c
      → check_spend c n ≡ none
      → book_spend (view_store r) (lower eoa) n false ≡ (unspent, view_store r)
  unfolding book_spend
  book_aborted c e g = grind (arith, e, verdict-view c n ∙ g)

  spend_number-View :
      (now : Timestamp)
      → View (spend_number r eoa n now) ≡ book_spend (view_store r) (lower eoa) n true
  spend_number-View now = elim (Option-cases (r.auth (lower eoa))) [
    | inl e ↦ ap View (spend_number_missing r eoa n now e) ∙ sym (book_none true e)
    | inr (c, e) ↦ elim (Option-cases (check_spend c n)) [
      | inr (f, g) ↦
          ap View (spend_number_refused r eoa n now c f e g) ∙ sym (book_declined true c f e g)
      | inl g ↦
          ap View (spend_number_spent r eoa n now c e g)
          ∙ cc (debit-view c n now, view_store-update r (lower eoa) (apply_spend c n now))
          ∙ sym (book_charged c e g)
    ]
  ]

  aborted-View :
      (now : ℕ)
      → View (update_auth_cache_spend r eoa n now false)
        ≡ book_spend (view_store r) (lower eoa) n false
  unfolding update_auth_cache_spend
  aborted-View now = elim (Option-cases (r.auth (lower eoa))) [
    | inl e ↦ grind (arith, e, book_none false e)
    | inr (c, e) ↦ elim (Option-cases (check_spend c n)) [
      | inr (f, g) ↦ grind (arith, e, g, book_declined false c f e g)
      | inl g ↦ grind (arith, e, g, book_aborted c e g)
    ]
  ]

-- A request as a spend on the book.
unfoldable pub book_serve : Book → Request → Answer × Book
book_serve b (script eoa n now) = book_spend b (lower eoa) n true
book_serve b (watched eoa n now committed) = book_spend b (lower eoa) n committed

serve-View :
    (r : Redis) (q : Request) → AllWellFormed r → View (serve r q) ≡ book_serve (view_store r) q
unfolding serve book_serve
serve-View r (script eoa n now) w =
    ap View (atomic_auth_spend-eq-number r eoa n now w) ∙ spend_number-View r eoa n _
serve-View r (watched eoa n now true) w =
    ap View (update_auth_cache_spend-eq-number r eoa n now) ∙ spend_number-View r eoa n _
serve-View r (watched eoa n now false) w = aborted-View r eoa n now

-- The answers to a list of requests, and what they leave.
abbrev pub serve_all : Redis → List Request → List SpendResult × Redis
serve_all r [] = ([], r)
serve_all r (q ∷ qs) =
    ((serve r q).0 ∷ (serve_all (serve r q).1 qs).0, (serve_all (serve r q).1 qs).1)

abbrev pub book_all : Book → List Request → List Answer × Book
book_all b [] = ([], b)
book_all b (q ∷ qs) =
    ((book_serve b q).0 ∷ (book_all (book_serve b q).1 qs).0, (book_all (book_serve b q).1 qs).1)

-- The store refines the book: from well-formed entries, whatever requests are served one after
-- another, each as one step, by the script or by WATCH/MULTI, while no key expires: the answers are
-- those of the book of accounts, request by request, and the store that they leave stands for the
-- book that they leave.
pub serve_all-refines :
    (qs : List Request) (r : Redis)
    → AllWellFormed r
    → (map view_answer (serve_all r qs).0 ≡ (book_all (view_store r) qs).0)
      × (view_store (serve_all r qs).1 ≡ (book_all (view_store r) qs).1)
serve_all-refines [] r w = (refl, refl)
serve_all-refines (q ∷ qs) r w =
    let now = serve-View r q w in
    let (answers, left) = serve_all-refines qs (serve r q).1 (serve-AllWellFormed q r w) in
    let b : view_store (serve r q).1 ≡ (book_serve (view_store r) q).1 =
      ap (λ (x : Answer × Book). x.1) now in
    (
      (λ i. (now i).0 ∷ (answers ∙ ap (λ c. (book_all c qs).0) b) i),
      left ∙ ap (λ c. (book_all c qs).1) b,
    )
