-- ===== src/Decimal/Bounds.antt =====
-- The value of a decimal text between powers of ten.
use multisub_infra.Prelude.{ℕ, zero, suc, ◌+◌, ◌*◌, ◌≤◌, ◌<◌, ◌≡◌, [], ◌∷◌, All, length, arith}
use multisub_infra.Decimal.{Decimal, value_from, big_int, IsDigit, IsCanonical, pow10}

pub pow10_pos : (n : ℕ) → 0 < pow10 n
pow10_pos zero = omega arith
pow10_pos (suc n) = omega (arith, pow10_pos n)

pub pow10_mono : (n m : ℕ) → n ≤ m → pow10 n ≤ pow10 m
pow10_mono zero m h = pow10_pos m
pow10_mono (suc n) zero h = absurd (omega arith)
pow10_mono (suc n) (suc m) h = omega (arith, pow10_mono n m (omega arith))

value_from_lem : (n : ℕ) (ds : Decimal) → value_from n ds ≡ n * pow10 (length ds) + value_from 0 ds
unfolding value_from
value_from_lem n [] = omega arith
value_from_lem n (d ∷ ds) =
    omega (arith, value_from_lem (n * 10 + d) ds, value_from_lem (0 * 10 + d) ds)

pub big_int-cons : (d : ℕ) (ds : Decimal) → big_int (d ∷ ds) ≡ d * pow10 (length ds) + big_int ds
unfolding big_int
big_int-cons d ds = omega (arith, value_from_lem (0 * 10 + d) ds)

pub digit_mul : (d p : ℕ) → d < 10 → d * p ≤ 9 * p
digit_mul d p h = grind arith

-- Digits stay below the power of ten of their number.
pub big_int-lt-pow : (ds : Decimal) → All IsDigit ds → big_int ds < pow10 (length ds)
big_int-lt-pow [] h = unfold big_int in omega arith
big_int-lt-pow (d ∷ ds) (hd, hs) =
    omega (arith, big_int-cons d ds, big_int-lt-pow ds hs, digit_mul d (pow10 (length ds)) hd)

pub pow-le-big_int : (d : ℕ) (ds : Decimal) → 0 < d → pow10 (length ds) ≤ big_int (d ∷ ds)
pow-le-big_int d ds h = grind (arith, big_int-cons d ds)

pub IsCanonical-digits : (ds : Decimal) → IsCanonical ds → All IsDigit ds
IsCanonical-digits [] h = absurd h
IsCanonical-digits (d ∷ []) h = (h, tt)
IsCanonical-digits (d ∷ e ∷ ds) (_, hd, hs) = (hd, hs)

pub IsCanonical-length : (ds : Decimal) → IsCanonical ds → 1 ≤ length ds
IsCanonical-length [] h = absurd h
IsCanonical-length (d ∷ ds) h = omega arith

-- A canonical text of two digits or more reaches the power of ten before its length.
pub IsCanonical-pow :
    (ds : Decimal) → IsCanonical ds → 2 ≤ length ds → pow10 (length ds) ≤ 10 * big_int ds
IsCanonical-pow [] h l = absurd h
IsCanonical-pow (d ∷ []) h l = absurd (omega arith)
IsCanonical-pow (d ∷ e ∷ ds) (hd, _, _) l = omega (arith, pow-le-big_int d (e ∷ ds) hd)

-- Digits that reach that power have no leading zero.
pub IsCanonical-of_pow :
    (ds : Decimal)
    → All IsDigit ds
    → 1 ≤ length ds
    → (2 ≤ length ds → pow10 (length ds) ≤ 10 * big_int ds)
    → IsCanonical ds
IsCanonical-of_pow [] h l p = absurd (omega arith)
IsCanonical-of_pow (d ∷ []) h l p = h.0
IsCanonical-of_pow (zero ∷ e ∷ ds) (hd, hs) l p =
    absurd (omega (arith, p (omega arith), big_int-cons 0 (e ∷ ds), big_int-lt-pow (e ∷ ds) hs))
IsCanonical-of_pow (suc d ∷ e ∷ ds) (hd, hs) l p = (omega arith, hd, hs)

-- A longer canonical text has the greater value.
pub big_int_lt_of_length :
    (a b : Decimal) → IsCanonical a → IsCanonical b → length a < length b → big_int a < big_int b
big_int_lt_of_length a b ha hb h = omega (
  arith,
  big_int-lt-pow a (IsCanonical-digits a ha),
  IsCanonical-pow b hb (omega (arith, IsCanonical-length a ha)),
  pow10_mono (suc (length a)) (length b) (omega arith),
)
