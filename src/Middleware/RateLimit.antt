-- ===== src/Middleware/RateLimit.antt =====
-- backend/src/middleware/rate-limit.ts, over `check_rate_limit`: what a request gets, and how many
-- of the requests of one window pass.
use Prim.Native.Nat.{min}
use multisub_infra.Prelude.{
  ℕ, ◌+◌, ◌/◌, ◌≡◌, Text, Bool, true, Option, none, some, List, [], ◌∷◌, ◌++◌, arith, ◌==◌,
  text_eq_refl, if◌then◌else◌, ==_iff, codes, ap,
}
use multisub_infra.Redis.{Redis, check_rate_limit}

-- `next()`, or the response 429 with what its body says; the headers that were set before it.
pub data Outcome : Type 0 where
  next : Outcome
  too_many : Option ℕ → Outcome

pub record Response : Type 0 where
  pub limit_header : Option ℕ
  pub remaining_header : Option ℕ
  pub retry_after_header : Option ℕ
  pub outcome : Outcome

abbrev passed_by : Response
passed_by = record {
  limit_header = none;
  remaining_header = none;
  retry_after_header = none;
  outcome = next;
}

-- `rateLimit(redis, defaultLimit)`: `reachable` says whether the Redis call returns; when it throws,
-- the request passes.
unfoldable pub rate_limit : Redis → ℕ → Option Text → ℕ → Bool → Response × Redis
rate_limit r limit none now reachable = (passed_by, r)
rate_limit r limit (some tenant) now reachable =
    let (res, r') = check_rate_limit r tenant limit 60 now in
    let checked : Response = record {
      limit_header = some limit;
      remaining_header = some res.remaining;
      retry_after_header = if res.allowed then none else some 60;
      outcome = if res.allowed then next else too_many (some 60);
    } in
    if reachable then (checked, r') else (passed_by, r)

-- `webhookRateLimit(redis, maxPerMinute)`: the same counter under "webhook-ip:" and the address.
unfoldable pub webhook_rate_limit : Redis → ℕ → Text → ℕ → Bool → Response × Redis
webhook_rate_limit r limit ip now reachable =
    let (res, r') = check_rate_limit r (codes "webhook-ip:" ++ ip) limit 60 now in
    let checked : Response = record {
      limit_header = some limit;
      remaining_header = some res.remaining;
      retry_after_header = none;
      outcome = if res.allowed then next else too_many none;
    } in
    if reachable then (checked, r') else (passed_by, r)

-- The window of sixty seconds that a time in milliseconds falls in.
abbrev pub window_of : ℕ → ℕ
window_of now = now / 1000 / 60

abbrev pub count_next : Outcome → ℕ
count_next next = 1
count_next (too_many _) = 0

-- Of the requests of one tenant at these times, how many of window `w` pass.
unfoldable pub passed_in : ℕ → Redis → ℕ → Text → List ℕ → ℕ
passed_in w r limit tenant [] = 0
passed_in w r limit tenant (now ∷ times) =
    let (res, r') = rate_limit r limit (some tenant) now true in
    (if window_of now == w then count_next res.outcome else 0) + passed_in w r' limit tenant times

abbrev pub arrivals_in : ℕ → List ℕ → ℕ
arrivals_in w [] = 0
arrivals_in w (now ∷ times) = (if window_of now == w then 1 else 0) + arrivals_in w times

-- One request: its window's counter goes up by one, and it passes if the counter is within the limit.
rate_limit_step :
    (w : ℕ) (r : Redis) (limit : ℕ) (tenant : Text) (now : ℕ)
    → let (res, r') = rate_limit r limit (some tenant) now true in
      (r'.rate tenant w ≡ r.rate tenant w + (if window_of now == w then 1 else 0))
      × (window_of now ≡ w
          → count_next res.outcome + min limit (r.rate tenant w) ≡ min limit (r.rate tenant w + 1))
unfolding rate_limit check_rate_limit
rate_limit_step w r limit tenant now = (
  ground (
    arith,
    text_eq_refl tenant,
    ==_iff w (window_of now),
    ap (r.rate tenant) {x = w} {y = window_of now},
  ),
  λ e. ground (arith, ap (r.rate tenant) e),
)

-- Of the requests that arrive in a window, whatever arrives in between in other windows, exactly
-- the first ones pass, until the window's counter has reached the limit.
pub passed_in_exact :
    (w : ℕ) (r : Redis) (limit : ℕ) (tenant : Text) (times : List ℕ)
    → passed_in w r limit tenant times + min limit (r.rate tenant w)
      ≡ min limit (r.rate tenant w + arrivals_in w times)
unfolding passed_in
passed_in_exact w r limit tenant [] = omega arith
passed_in_exact w r limit tenant (now ∷ times) =
    let r' = (rate_limit r limit (some tenant) now true).1 in
    let (counted, passes) = rate_limit_step w r limit tenant now in
    ground
      (arith, counted, passes, ==_iff (window_of now) w, passed_in_exact w r' limit tenant times)
