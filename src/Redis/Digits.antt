-- ===== src/Redis/Digits.antt =====
-- The arithmetic on digit strings of the Lua script in backend/src/lib/redis.ts: comparison,
-- addition and subtraction of non-negative integers held as decimal texts. A Lua string of digits
-- is the list of its digits; `a:sub(p, p)` reads position p, counted from 1.
pub mod Order
pub mod Back
pub mod Sum
pub mod Difference
use multisub_infra.Prelude.{
  ℕ, zero, suc, ◌+◌, ◌-◌, ◌/◌, ◌%◌, Bool, true, false, not, List, [], ◌∷◌, length, get_or, ltb, leb,
  ◌==◌, if◌then◌else◌, max,
}
use multisub_infra.Decimal.{Decimal}

-- `a >= b` on strings, for digits.
string_ge : Decimal → Decimal → Bool
string_ge a [] = true
string_ge [] (_ ∷ _) = false
string_ge (x ∷ a) (y ∷ b) = if ltb y x then true else if ltb x y then false else string_ge a b

pub str_gte : Decimal → Decimal → Bool
str_gte a b = if not (length a == length b) then ltb (length b) (length a) else string_ge a b

-- `i < la and tonumber(a:sub(la - i, la - i)) or 0`
unfoldable pub digit_back : Decimal → ℕ → ℕ
digit_back a i = if ltb i (length a) then get_or a (length a - i - 1) 0 else 0

-- The loop `for i = 0, maxlen - 1`, with the rounds left; `result` fills from the right.
add_rounds : Decimal → Decimal → ℕ → ℕ → ℕ → Decimal → Decimal
add_rounds a b zero i carry result = if ltb 0 carry then carry ∷ result else result
add_rounds a b (suc rounds) i carry result =
    let sum = digit_back a i + digit_back b i + carry in
    add_rounds a b rounds (suc i) (sum / 10) ((sum % 10) ∷ result)

unfoldable pub str_add : Decimal → Decimal → Decimal
unfolding add_rounds digit_back
str_add a b = add_rounds a b (max (length a) (length b)) 0 0 []

-- `s:gsub("^0+", "")`, and "0" for an empty rest.
strip_zeros : Decimal → Decimal
strip_zeros [] = []
strip_zeros (d ∷ ds) = if d == 0 then strip_zeros ds else d ∷ ds

or_zero : Decimal → Decimal
or_zero [] = 0 ∷ []
or_zero (d ∷ ds) = d ∷ ds

-- `diff = da - db - borrow`, with ten added and a borrow taken where that is below zero.
sub_rounds : Decimal → Decimal → ℕ → ℕ → ℕ → Decimal → Decimal
sub_rounds a b zero i borrow result = result
sub_rounds a b (suc rounds) i borrow result =
    let da = digit_back a i in
    let db = digit_back b i in
    let below = ltb da (db + borrow) in
    sub_rounds a b rounds (suc i) (if below then 1 else 0)
      ((if below then da + 10 - db - borrow else da - db - borrow) ∷ result)

pub str_sub : Decimal → Decimal → Decimal
unfolding sub_rounds digit_back strip_zeros or_zero
str_sub a b = or_zero (strip_zeros (sub_rounds a b (length a) 0 0 []))
