-- ===== src/Decimal/Print.antt =====
-- `toString()` prints the canonical text of a number, and no other canonical text has its value.
use multisub_infra.Prelude.{
  ℕ, zero, suc, ◌+◌, ◌*◌, ◌/◌, ◌%◌, ◌≤◌, ◌<◌, ◌≡◌, refl, [], ◌∷◌, All, length, arith, ap,
}
use multisub_infra.Decimal.{Decimal, big_int, emit, to_string, IsDigit, IsCanonical, pow10}
use multisub_infra.Decimal.Bounds.{
  big_int-cons, big_int-lt-pow, IsCanonical-digits, big_int_lt_of_length,
}

pub split_last : (n p : ℕ) → n * p ≡ (n / 10) * (10 * p) + (n % 10) * p
split_last n p =
    let e : n ≡ n / 10 * 10 + n % 10 = omega arith in omega (arith, ap (λ (t : ℕ). t * p) e)

emit-big_int :
    (f n : ℕ) (out : Decimal)
    → n < f
    → big_int (emit f n out) ≡ n * pow10 (length out) + big_int out
unfolding emit
emit-big_int zero n out h = absurd (omega arith)
emit-big_int (suc f) n out h = ground (
  arith,
  big_int-cons n out,
  big_int-cons (n % 10) out,
  split_last n (pow10 (length out)),
  emit-big_int f (n / 10) ((n % 10) ∷ out),
)

-- With more fuel than the number, `emit` puts a canonical text before digits, unless it is 0.
emit-IsCanonical :
    (f n : ℕ) (out : Decimal) → n < f → All IsDigit out → 0 < n → IsCanonical (emit f n out)
unfolding emit
emit-IsCanonical zero n out h ho p = absurd (omega arith)
emit-IsCanonical (suc f) n [] h ho p = ground (arith, emit-IsCanonical f (n / 10) ((n % 10) ∷ []))
emit-IsCanonical (suc f) n (d ∷ out) h ho p =
    ground (arith, emit-IsCanonical f (n / 10) ((n % 10) ∷ d ∷ out))

-- Printing and reading back gives the number.
pub big_int-to_string : (n : ℕ) → big_int (to_string n) ≡ n
unfolding to_string
big_int-to_string n = omega (arith, emit-big_int (suc n) n [] (omega arith), nil)
  where
    nil : big_int [] ≡ 0
    nil = unfold big_int in refl

pub to_string-IsCanonical : (n : ℕ) → IsCanonical (to_string n)
unfolding to_string
to_string-IsCanonical zero = omega arith
to_string-IsCanonical (suc n) =
    emit-IsCanonical (suc (suc n)) (suc n) [] (omega arith) tt (omega arith)

-- Texts of digits of one length are ordered as their first digits, where these differ.
pub lead_lt : (x y p : ℕ) → x < y → x * p + p ≤ y * p
lead_lt x y p h = grind arith

digits_injective :
    (a b : Decimal)
    → All IsDigit a
    → All IsDigit b
    → length a ≡ length b
    → big_int a ≡ big_int b
    → a ≡ b
digits_injective [] [] ha hb l e = refl
digits_injective [] (y ∷ ys) ha hb l e = absurd (omega arith)
digits_injective (x ∷ xs) [] ha hb l e = absurd (omega arith)
digits_injective (x ∷ xs) (y ∷ ys) (hx, hxs) (hy, hys) l e =
    let l' : length xs ≡ length ys = omega arith in
    let scale : pow10 (length xs) ≡ pow10 (length ys) = ap pow10 l' in
    let same : x ≡ y = ground (
      arith,
      big_int-cons x xs,
      big_int-cons y ys,
      big_int-lt-pow xs hxs,
      big_int-lt-pow ys hys,
      scale,
      ap (λ (t : ℕ). x * t) scale,
      lead_lt x y (pow10 (length ys)),
      lead_lt y x (pow10 (length ys)),
    ) in
    let rest : big_int xs ≡ big_int ys = omega (
      arith,
      big_int-cons x xs,
      big_int-cons y ys,
      ap (λ (t : ℕ). t * pow10 (length xs)) same,
      ap (λ (t : ℕ). y * t) scale,
    ) in
    cc (same, digits_injective xs ys hxs hys l' rest)

-- A canonical text is determined by its value.
pub big_int_injective :
    (a b : Decimal) → IsCanonical a → IsCanonical b → big_int a ≡ big_int b → a ≡ b
big_int_injective a b ha hb e =
    let l : length a ≡ length b =
      ground (arith, big_int_lt_of_length a b ha hb, big_int_lt_of_length b a hb ha) in
    digits_injective a b (IsCanonical-digits a ha) (IsCanonical-digits b hb) l e

pub to_string-big_int : (a : Decimal) → IsCanonical a → to_string (big_int a) ≡ a
to_string-big_int a ha =
    big_int_injective (to_string (big_int a)) a (to_string-IsCanonical (big_int a)) ha
      (big_int-to_string (big_int a))
