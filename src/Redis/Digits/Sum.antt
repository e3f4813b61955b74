-- ===== src/Redis/Digits/Sum.antt =====
-- `str_add` adds the numbers that its texts stand for, and prints canonically.
use multisub_infra.Prelude.{
  ℕ, zero, suc, ◌+◌, ◌*◌, ◌/◌, ◌%◌, ◌≤◌, ◌≡◌, refl, sym, ◌∙◌, ap, ◌⊎◌, [], ◌∷◌, All, length, arith,
  inl, inr, max, leb, Bool-cases,
}
use multisub_infra.Decimal.{Decimal, big_int, to_string, IsDigit, IsCanonical, pow10}
use multisub_infra.Decimal.Bounds.{
  big_int-cons, pow-le-big_int, IsCanonical-digits, IsCanonical-length, IsCanonical-pow,
  IsCanonical-of_pow,
}
use multisub_infra.Decimal.Print.{split_last, to_string-big_int}
use multisub_infra.Redis.Digits.{digit_back, add_rounds, str_add}
use multisub_infra.Redis.Digits.Back.{low, low-all, digit_back-IsDigit}

module _ (a b : Decimal) where
  add_rounds-big_int :
      (n i carry j : ℕ) (result : Decimal)
      → length result ≡ i
      → i + n ≡ j
      → big_int result + carry * pow10 i ≡ low a i + low b i
      → big_int (add_rounds a b n i carry result) ≡ low a j + low b j
  unfolding add_rounds
  add_rounds-big_int zero i carry j result l e h =
      let e' : i ≡ j = omega arith in
      ground (
        arith,
        big_int-cons carry result,
        ap pow10 l,
        ap (λ (t : ℕ). carry * t) (ap pow10 l),
        ap (low a) e',
        ap (low b) e',
      )
  add_rounds-big_int (suc n) i carry j result l e h =
      let sum = digit_back a i + digit_back b i + carry in
      add_rounds-big_int n (suc i) (sum / 10) j ((sum % 10) ∷ result) (ap suc l) (omega arith) (
        omega (
          arith,
          h,
          big_int-cons (sum % 10) result,
          split_last sum (pow10 i),
          ap (λ (t : ℕ). sum % 10 * t) (ap pow10 l),
        ))

  -- The text has as many digits as there were rounds, or one more for a last carry.
  add_rounds-digits :
      All IsDigit a
      → All IsDigit b
      → (n i carry j : ℕ) (result : Decimal) → length result ≡ i
      → i + n ≡ j
      → carry ≤ 1
      → All IsDigit result
      → let r = add_rounds a b n i carry result in
        All IsDigit r
        × ((length r ≡ j) ⊎ ((length r ≡ suc j) × (pow10 (length r) ≤ 10 * big_int r)))
  unfolding add_rounds
  add_rounds-digits ha hb zero i carry j result l e c h =
      ground (arith, pow-le-big_int carry result)
  add_rounds-digits ha hb (suc n) i carry j result l e c h =
      let sum = digit_back a i + digit_back b i + carry in
      add_rounds-digits ha hb n (suc i) (sum / 10) j ((sum % 10) ∷ result) (ap suc l) (omega arith)
        (omega (arith, digit_back-IsDigit a i ha, digit_back-IsDigit b i hb)) (omega arith, h)

-- The sum of two texts of digits stands for the sum of the numbers.
pub big_int-str_add : (a b : Decimal) → big_int (str_add a b) ≡ big_int a + big_int b
unfolding str_add
big_int-str_add a b =
    let m = max (length a) (length b) in
    omega (
      arith,
      add_rounds-big_int a b m 0 0 m [] refl (omega arith) (unfold big_int in refl),
      low-all a m (omega arith),
      low-all b m (omega arith),
    )

str_add_shape :
    (a b : Decimal)
    → All IsDigit a
    → All IsDigit b
    → All IsDigit (str_add a b)
      × ((length (str_add a b) ≡ max (length a) (length b))
          ⊎ ((length (str_add a b) ≡ suc (max (length a) (length b)))
              × (pow10 (length (str_add a b)) ≤ 10 * big_int (str_add a b))))
unfolding str_add
str_add_shape a b ha hb =
    let m = max (length a) (length b) in
    add_rounds-digits a b ha hb m 0 0 m [] refl (omega arith) (omega arith) tt

-- The longer of the two texts bounds the sum from below.
max-length_pow :
    (a b : Decimal)
    → IsCanonical a
    → IsCanonical b
    → 2 ≤ max (length a) (length b)
    → pow10 (max (length a) (length b)) ≤ 10 * (big_int a + big_int b)
max-length_pow a b ha hb two = elim (Bool-cases (leb (length a) (length b))) [
  | inl le ↦
      let e : max (length a) (length b) ≡ length b = ground arith in
      rw e (omega (arith, IsCanonical-pow b hb (omega arith)))
  | inr gt ↦
      let e : max (length a) (length b) ≡ length a = ground arith in
      rw e (omega (arith, IsCanonical-pow a ha (omega arith)))
]

pub str_add-IsCanonical :
    (a b : Decimal) → IsCanonical a → IsCanonical b → IsCanonical (str_add a b)
str_add-IsCanonical a b ha hb =
    let m = max (length a) (length b) in
    let (digits, shape) = str_add_shape a b (IsCanonical-digits a ha) (IsCanonical-digits b hb) in
    IsCanonical-of_pow (str_add a b) digits (ground (arith, IsCanonical-length a ha)) λ two.
      ground (
        arith,
        max-length_pow a b ha hb,
        big_int-str_add a b,
        λ (e : length (str_add a b) ≡ m). ap pow10 e,
      )

-- For canonical texts `str_add` is addition of the numbers, printed.
pub str_add_lem :
    (a b : Decimal)
    → IsCanonical a
    → IsCanonical b
    → str_add a b ≡ to_string (big_int a + big_int b)
str_add_lem a b ha hb =
    sym (to_string-big_int (str_add a b) (str_add-IsCanonical a b ha hb))
    ∙ ap to_string (big_int-str_add a b)
