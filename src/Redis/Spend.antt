-- ===== src/Redis/Spend.antt =====
-- Spends on one store, served one after another, each call as one step: calls of the WATCH path that
-- overlap on the connection are not modelled.
use mathlib.Core.Path.{subst}
use multisub_infra.Prelude.{
  ℕ, ◌+◌, ◌≡◌, sym, ap, ◌∙◌, Text, Bool, true, false, none, some, List, [], ◌∷◌, arith, inl, inr,
  text_eq, text_eq_iff, lower, update, update_self, update_ne, Option-cases, Bool-cases,
  if◌then◌else◌,
}
use multisub_infra.Decimal.{to_string}
use multisub_infra.Types.{AuthorizationCache, Timestamp}
use multisub_infra.Redis.{
  Redis, SpendError, SpendResult, refused, missing, spent, check_spend, apply_spend,
  atomic_auth_spend, spend_script, update_auth_cache_spend,
}
use multisub_infra.Redis.Script.{
  IsWellFormed, AllWellFormed, apply_spend-IsWellFormed, spend_number, atomic_auth_spend-eq-number,
  update_auth_cache_spend-eq-number,
}
use multisub_infra.Redis.Charges.{Charges, Charges-refl, Charges-trans, apply_spend-Charges}

-- A spend by the script, or by the WATCH/MULTI path with the server's answer to EXEC.
pub data Request : Type 0 where
  script : Text → ℕ → ℕ → Request
  watched : Text → ℕ → ℕ → Bool → Request

unfoldable pub serve : Redis → Request → SpendResult × Redis
serve r (script eoa n now) = atomic_auth_spend r eoa n now
serve r (watched eoa n now committed) = update_auth_cache_spend r eoa n now committed

abbrev pub address : Request → Text
address (script eoa n now) = lower eoa
address (watched eoa n now committed) = lower eoa

abbrev pub amount : Request → ℕ
amount (script eoa n now) = n
amount (watched eoa n now committed) = n

-- What a spend of `n` at an address that was answered so has charged to the cache under a key.
abbrev pub charge : Text → Text → ℕ → SpendResult → ℕ
charge k a n (refused e) = 0
charge k a n missing = 0
charge k a n (spent c) = if text_eq a k then n else 0

-- The total that a run of requests charges to the cache under a key, and the store that it leaves.
unfoldable pub run : Text → Redis → List Request → ℕ × Redis
run k r [] = (0, r)
run k r (q ∷ qs) =
    let (result, r') = serve r q in
    let (total, r'') = run k r' qs in (charge k (address q) (amount q) result + total, r'')

-- What a spend of `n` at an address does to the cache under a key.
abbrev Serves : Text → AuthorizationCache → Text → ℕ → SpendResult × Redis → Type 0
Serves k c a n (result, r') =
    (c' : AuthorizationCache) × (r'.auth k ≡ some c')
    × Charges c c' (charge k a n result)
    × AllWellFormed r'

pub update-AllWellFormed :
    (r : Redis) (a : Text) (c : AuthorizationCache)
    → AllWellFormed r
    → IsWellFormed c
    → AllWellFormed (record r { auth = update r.auth a (some c) })
unfolding update
update-AllWellFormed r a c w wc k d e = elim (Bool-cases (text_eq k a)) [
  | inl here ↦ let same : c ≡ d = ground arith in subst IsWellFormed same wc
  | inr other ↦ w k d (ground arith)
]

-- The spend that is made, at its own key and at another.
spend-Serves :
    (k a : Text) (c d : AuthorizationCache) (n : ℕ) (now : Timestamp) (r : Redis)
    → AllWellFormed r
    → r.auth k ≡ some c
    → r.auth a ≡ some d
    → check_spend d n ≡ none
    → let d' = apply_spend d n now in
      Serves k c a n (spent d', record r { auth = update r.auth a (some d') })
spend-Serves k a c d n now r w found here fine =
    let d' = apply_spend d n now in
    let wf = update-AllWellFormed r a d' w (apply_spend-IsWellFormed d n now (w a d here)) in
    elim (Bool-cases (text_eq a k)) [
      | inl same ↦
          let e : a ≡ k = (text_eq_iff a k).0 same in
          let f : c ≡ d = ground (arith, ap r.auth e) in
          rw same (
            d',
            subst (λ j. update r.auth a (some d') j ≡ some d') e (update_self r.auth a (some d')),
            subst (λ x. Charges x d' n) (sym f) (apply_spend-Charges d n now fine),
            wf,
          )
      | inr other ↦ rw other (
        c,
        update_ne r.auth a (some d') k (ground (arith, text_eq_iff a k, text_eq_iff k a)) ∙ found,
        Charges-refl c,
        wf,
      )
    ]

-- The three ways that a spend ends.
module _ (r : Redis) (eoa : Text) (n : ℕ) (now : Timestamp) where
  pub spend_number_missing : r.auth (lower eoa) ≡ none → spend_number r eoa n now ≡ (missing, r)
  unfolding spend_number
  spend_number_missing h = ground arith

  pub spend_number_refused :
      (d : AuthorizationCache) (e : SpendError)
      → r.auth (lower eoa) ≡ some d
      → check_spend d n ≡ some e
      → spend_number r eoa n now ≡ (refused e, r)
  unfolding spend_number
  spend_number_refused d e h k = ground arith

  pub spend_number_spent :
      (d : AuthorizationCache)
      → r.auth (lower eoa) ≡ some d
      → check_spend d n ≡ none
      → let d' = apply_spend d n now in
        spend_number r eoa n now
        ≡ (spent d', record r { auth = update r.auth (lower eoa) (some d') })
  unfolding spend_number
  spend_number_spent d h k = ground arith

spend_number-Serves :
    (k : Text) (c : AuthorizationCache) (eoa : Text) (n : ℕ) (now : Timestamp) (r : Redis)
    → AllWellFormed r
    → r.auth k ≡ some c
    → Serves k c (lower eoa) n (spend_number r eoa n now)
spend_number-Serves k c eoa n now r w found = elim (Option-cases (r.auth (lower eoa))) [
  | inl gone ↦ rw (spend_number_missing r eoa n now gone) (c, found, Charges-refl c, w)
  | inr (d, here) ↦ elim (Option-cases (check_spend d n)) [
    | inr (e, refusal) ↦
        rw (spend_number_refused r eoa n now d e here refusal) (c, found, Charges-refl c, w)
    | inl fine ↦
        rw (spend_number_spent r eoa n now d here fine)
          (spend-Serves k (lower eoa) c d n now r w found here fine)
  ]
]

-- An EXEC that Redis refuses charges nothing and writes nothing.
aborted_lem :
    (k a : Text) (r : Redis) (eoa : Text) (n now : ℕ)
    → let (result, r') = update_auth_cache_spend r eoa n now false in
      (charge k a n result ≡ 0) × (r' ≡ r)
unfolding update_auth_cache_spend
aborted_lem k a r eoa n now = elim (Option-cases (r.auth (lower eoa))) [
  | inl gone ↦ ground (arith, gone)
  | inr (d, here) ↦ elim (Option-cases (check_spend d n)) [
    | inl fine ↦ ground (arith, here, fine)
    | inr (e, refusal) ↦ ground (arith, here, refusal)
  ]
]

serve-Serves :
    (k : Text) (c : AuthorizationCache) (q : Request) (r : Redis)
    → AllWellFormed r
    → r.auth k ≡ some c
    → Serves k c (address q) (amount q) (serve r q)
unfolding serve
serve-Serves k c (script eoa n now) r w found =
    rw (atomic_auth_spend-eq-number r eoa n now w)
      (spend_number-Serves k c eoa n (Timestamp.string (to_string now)) r w found)
serve-Serves k c (watched eoa n now true) r w found =
    rw (update_auth_cache_spend-eq-number r eoa n now)
      (spend_number-Serves k c eoa n (Timestamp.number now) r w found)
serve-Serves k c (watched eoa n now false) r w found =
    let (free, same) = aborted_lem k (lower eoa) r eoa n now in
    (
      c,
      ap (λ (s : Redis). s.auth k) same ∙ found,
      rw free (Charges-refl c),
      subst AllWellFormed (sym same) w,
    )

serve_gone : (q : Request) (r : Redis) → r.auth (address q) ≡ none → (serve r q).1 ≡ r
unfolding serve atomic_auth_spend spend_script update_auth_cache_spend
serve_gone (script eoa n now) r e = grind (arith, e)
serve_gone (watched eoa n now committed) r e = grind (arith, e)

pub serve-AllWellFormed : (q : Request) (r : Redis) → AllWellFormed r → AllWellFormed (serve r q).1
serve-AllWellFormed q r w = elim (Option-cases (r.auth (address q))) [
  | inl e ↦ subst AllWellFormed (sym (serve_gone q r e)) w
  | inr (c, e) ↦ let (_, _, _, w') = serve-Serves (address q) c q r w e in w'
]

-- From a store of well-formed entries, whatever requests are served one after another, each as one
-- step, while no key expires: the cache under a key stays; its balance falls, and its two counters
-- rise, by exactly the total that the answers to the requests say was charged to it; its limits
-- stay, and hold if they held; and every entry is well formed again.
pub run-Charges :
    (k : Text) (c : AuthorizationCache) (qs : List Request) (r : Redis)
    → AllWellFormed r
    → r.auth k ≡ some c
    → let (total, r') = run k r qs in
      (c' : AuthorizationCache) × (r'.auth k ≡ some c') × Charges c c' total × AllWellFormed r'
unfolding run
run-Charges k c [] r w found = (c, found, Charges-refl c, w)
run-Charges k c (q ∷ qs) r w found =
    let (c', found', charged, w') = serve-Serves k c q r w found in
    let (c'', found'', charged', w'') = run-Charges k c' qs (serve r q).1 w' found' in
    (c'', found'', Charges-trans charged charged', w'')
