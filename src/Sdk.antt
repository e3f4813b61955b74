-- ===== src/Sdk.antt =====
-- sdk/src/webhook.ts: how a tenant's program verifies a webhook.
pub mod Numbers
pub mod RoundTrip
pub mod Sound
mod Tests
use multisub_infra.Prelude.{
  ℕ, zero, suc, ◌+◌, ◌-◌, ◌*◌, ◌/◌, ℤ, pos, negsuc, Text, Bool, true, false, Option, none, some,
  List, [], ◌∷◌, ◌++◌, ◌||◌, ◌&&◌, leb, ltb, ◌==◌, if◌then◌else◌,
}
use multisub_infra.Decimal.Texts.{is_digit}
use multisub_infra.Signature.{Crypto, is_empty, same_buffer}

-- White space as `parseInt` trims it.
abbrev pub is_space : ℕ → Bool
is_space c =
    (leb 9 c && leb c 13)
    || c == 32
    || c == 160
    || c == 5760
    || (leb 8192 c && leb c 8202)
    || c == 8232
    || c == 8233
    || c == 8239
    || c == 8287
    || c == 12288
    || c == 65279

abbrev pub trim_start : Text → Text
trim_start [] = []
trim_start (c ∷ t) = if is_space c then trim_start t else c ∷ t

-- The digits at the start of a text, behind the value read so far.
abbrev pub read_on : ℕ → Text → ℕ
read_on n [] = n
read_on n (c ∷ t) = let rest = read_on (n * 10 + (c - b'0')) t in if is_digit c then rest else n

abbrev pub read_digits : Text → Option ℕ
read_digits [] = none
read_digits (c ∷ t) = if is_digit c then some (read_on (c - b'0') t) else none

-- An integer, by its sign: `-0` is 0.
abbrev pub signed : Bool → Option ℕ → Option ℤ
signed negative none = none
signed false (some n) = some (pos n)
signed true (some zero) = some (pos 0)
signed true (some (suc n)) = some (negsuc n)

abbrev pub read_sign : Text → Option ℤ
read_sign [] = none
read_sign (c ∷ t) =
    if c == b'-'
    then signed true (read_digits t)
    else (if c == b'+' then signed false (read_digits t) else signed false (read_digits (c ∷ t)))

-- `parseInt(text, 10)`, `none` for NaN; its numbers are exact here.
unfoldable pub parse_int : Text → Option ℤ
parse_int t = read_sign (trim_start t)

pub data VerificationError : Type 0 where
  missing invalid_timestamp too_old in_future invalid_signature invalid_json : VerificationError

pub data Result (A : Type 0) : Type 0 where
  ok : A → Result A
  thrown : VerificationError → Result A

abbrev pub timed : Option Text → Text → Text
timed none body = body
timed (some []) body = body
timed (some (c ∷ t)) body = (c ∷ t) ++ b'.' ∷ body

unfoldable pub verify_webhook : Crypto → Text → Text → Text → Option Text → Result Bool
verify_webhook crypto body signature secret timestamp =
    if is_empty signature || is_empty secret
    then thrown missing
    else ok (
        same_buffer (crypto.from_hex signature)
          (crypto.from_hex (crypto.digest secret (timed timestamp body))))

-- `Math.floor(Date.now() / 1000) - ts > maxAgeSeconds` and `… < -60`.
abbrev pub is_old : ℕ → ℤ → ℕ → Bool
is_old seconds (pos ts) max_age = ltb (max_age + ts) seconds
is_old seconds (negsuc n) max_age = ltb max_age (seconds + (n + 1))

abbrev pub is_future : ℕ → ℤ → Bool
is_future seconds (pos ts) = ltb (seconds + 60) ts
is_future seconds (negsuc n) = false

unfoldable pub verify_webhook_with_timestamp :
    Crypto → ℕ → Text → Text → Text → Text → ℕ → Result Bool
verify_webhook_with_timestamp crypto now body signature secret timestamp max_age =
    elim (parse_int timestamp) [
      | none ↦ thrown invalid_timestamp
      | some ts ↦
          if is_old (now / 1000) ts max_age
          then thrown too_old
          else (if is_future (now / 1000) ts
              then thrown in_future
              else verify_webhook crypto body signature secret (some timestamp))
    ]

module _ {E : Type 0} where
  -- JSON.parse behind a verification; `parse` gives `none` where JSON.parse throws.
  unfoldable pub parse_verified : (Text → Option E) → Text → Result Bool → Result E
  parse_verified parse body (thrown e) = thrown e
  parse_verified parse body (ok false) = thrown invalid_signature
  parse_verified parse body (ok true) = elim (parse body) [
    | none ↦ thrown invalid_json
    | some e ↦ ok e
  ]

  -- An empty timestamp is as none.
  unfoldable pub verify_and_parse_webhook :
      Crypto → (Text → Option E) → ℕ → Text → Text → Text → Option Text → Result E
  unfolding parse_verified
  verify_and_parse_webhook crypto parse now body signature secret none =
      parse_verified parse body (verify_webhook crypto body signature secret none)
  verify_and_parse_webhook crypto parse now body signature secret (some []) =
      parse_verified parse body (verify_webhook crypto body signature secret (some []))
  verify_and_parse_webhook crypto parse now body signature secret (some (c ∷ t)) =
      parse_verified parse body
        (verify_webhook_with_timestamp crypto now body signature secret (c ∷ t) 300)
