-- ===== src/Decimal.antt =====
-- Decimal texts, as the JSON values of the authorization cache hold them: `BigInt(text)` and
-- `toString()` of the language, over the list of the digits with the first digit first.
pub mod Bounds
pub mod Print
pub mod Texts
use multisub_infra.Prelude.{
  ℕ, zero, suc, ◌+◌, ◌*◌, ◌/◌, ◌%◌, ◌<◌, Bool, List, [], ◌∷◌, All, ltb, if◌then◌else◌,
}

abbrev pub Decimal : Type 0
Decimal = List ℕ

-- `BigInt(text)`: the digits read from the left.
unfoldable pub value_from : ℕ → Decimal → ℕ
value_from n [] = n
value_from n (d ∷ ds) = value_from (n * 10 + d) ds

unfoldable pub big_int : Decimal → ℕ
unfolding value_from
big_int ds = value_from 0 ds

-- `toString()`: the fuel is one more than the number, which has fewer digits than that.
unfoldable pub emit : ℕ → ℕ → Decimal → Decimal
emit zero n out = out
emit (suc f) n out =
    let rest = emit f (n / 10) ((n % 10) ∷ out) in if ltb n 10 then n ∷ out else rest

unfoldable pub to_string : ℕ → Decimal
unfolding emit
to_string n = emit (suc n) n []

-- Powers of ten, by their exponent's structure.
abbrev pub pow10 : ℕ → ℕ
pow10 zero = 1
pow10 (suc n) = 10 * pow10 n

abbrev pub IsDigit : ℕ → Type 0
IsDigit d = d < 10

-- What `toString()` prints: digits, at least one, and no leading zero but in "0".
abbrev pub IsCanonical : Decimal → Type 0
IsCanonical [] = ⊥
IsCanonical (d ∷ []) = IsDigit d
IsCanonical (d ∷ e ∷ ds) = (0 < d) × IsDigit d × All IsDigit (e ∷ ds)
