-- ===== src/Redis/Digits/Difference.antt =====
-- `str_sub` subtracts a number that is not greater, and prints canonically.
use multisub_infra.Prelude.{
  ℕ, zero, suc, ◌+◌, ◌*◌, ◌-◌, ◌≤◌, ◌<◌, ◌≡◌, refl, sym, ◌∙◌, ap, [], ◌∷◌, All, length, arith, ltb,
  if◌then◌else◌,
}
use multisub_infra.Decimal.{Decimal, big_int, to_string, IsDigit, IsCanonical, pow10}
use multisub_infra.Decimal.Bounds.{
  big_int-cons, big_int-lt-pow, IsCanonical-digits, big_int_lt_of_length,
}
use multisub_infra.Decimal.Print.{to_string-big_int}
use multisub_infra.Redis.Digits.{digit_back, strip_zeros, or_zero, sub_rounds, str_sub}
use multisub_infra.Redis.Digits.Back.{low, low-all, digit_back-IsDigit}

-- One round: the digit that is written and the borrow that is passed on.
sub_digit :
    (da db borrow p : ℕ)
    → da < 10
    → db < 10
    → borrow ≤ 1
    → let below = ltb da (db + borrow) in
      let d = (if below then da + 10 - db - borrow else da - db - borrow) in
      (d < 10) × (d * p + db * p + borrow * p ≡ da * p + (if below then 1 else 0) * (10 * p))
sub_digit da db borrow p ha hb hc =
    let below = ltb da (db + borrow) in
    let d : ℕ = if below then da + 10 - db - borrow else da - db - borrow in
    let next : ℕ = if below then 1 else 0 in
    let e : d + db + borrow ≡ da + next * 10 = ground arith in
    (ground arith, omega (arith, ap (λ (t : ℕ). t * p) e))

module _ (a b : Decimal) (ha : All IsDigit a) (hb : All IsDigit b) where
  sub_rounds-big_int :
      (n i borrow j : ℕ) (result : Decimal)
      → length result ≡ i
      → i + n ≡ j
      → borrow ≤ 1
      → All IsDigit result
      → big_int result + low b i ≡ low a i + borrow * pow10 i
      → let r = sub_rounds a b n i borrow result in
        (last : ℕ) × (big_int r + low b j ≡ low a j + last * pow10 j)
        × (length r ≡ j)
        × All IsDigit r
  unfolding sub_rounds
  sub_rounds-big_int zero i borrow j result l e c hr h =
      let e' : i ≡ j = omega arith in
      (
        borrow,
        omega (arith, h, ap (low a) e', ap (low b) e', ap (λ (t : ℕ). borrow * pow10 t) e'),
        omega arith,
        hr,
      )
  sub_rounds-big_int (suc n) i borrow j result l e c hr h =
      let da = digit_back a i in
      let db = digit_back b i in
      let (small, exact) =
        sub_digit da db borrow (pow10 i) (digit_back-IsDigit a i ha) (digit_back-IsDigit b i hb)
          c in
      let d : ℕ = if ltb da (db + borrow) then da + 10 - db - borrow else da - db - borrow in
      let next : ℕ = if ltb da (db + borrow) then 1 else 0 in
      sub_rounds-big_int n (suc i) next j (d ∷ result) (ap suc l) (omega arith) (ground arith)
        (small, hr) (omega (arith, h, exact, big_int-cons d result, ap (λ (t : ℕ). d * pow10 t) l))

-- No borrow is left where the subtrahend is not greater.
no_borrow : (r x y last p : ℕ) → r < p → y ≤ x → r + y ≡ x + last * p → r ≡ x - y
no_borrow r x y zero p h l e = omega arith
no_borrow r x y (suc last) p h l e = absurd (omega arith)

strip_zeros-suc : (d : ℕ) (ds : Decimal) → strip_zeros (suc d ∷ ds) ≡ suc d ∷ ds
unfolding strip_zeros
strip_zeros-suc d ds = ground arith

strip_zeros-big_int : (ds : Decimal) → big_int (or_zero (strip_zeros ds)) ≡ big_int ds
unfolding strip_zeros or_zero
strip_zeros-big_int [] = unfold big_int in refl
strip_zeros-big_int (zero ∷ ds) = strip_zeros-big_int ds ∙ sym (omega (arith, big_int-cons 0 ds))
strip_zeros-big_int (suc d ∷ ds) = ap (λ x. big_int (or_zero x)) (strip_zeros-suc d ds)

strip_zeros-IsCanonical : (ds : Decimal) → All IsDigit ds → IsCanonical (or_zero (strip_zeros ds))
unfolding strip_zeros or_zero
strip_zeros-IsCanonical [] h = omega arith
strip_zeros-IsCanonical (zero ∷ ds) h = strip_zeros-IsCanonical ds h.1
strip_zeros-IsCanonical (suc d ∷ []) h = rw (strip_zeros-suc d []) h.0
strip_zeros-IsCanonical (suc d ∷ e ∷ ds) (hd, hs) =
    rw (strip_zeros-suc d (e ∷ ds)) (omega arith, hd, hs)

str_sub_facts :
    (a b : Decimal)
    → IsCanonical a
    → IsCanonical b
    → big_int b ≤ big_int a
    → IsCanonical (str_sub a b) × (big_int (str_sub a b) ≡ big_int a - big_int b)
unfolding str_sub
str_sub_facts a b ha hb le =
    let n = length a in
    let ra = sub_rounds a b n 0 0 [] in
    let (last, exact, l, digits) =
      sub_rounds-big_int a b (IsCanonical-digits a ha) (IsCanonical-digits b hb) n 0 0 n [] refl
        (omega arith) (omega arith) tt (unfold big_int in refl) in
    let shorter : length b ≤ n = ground (arith, big_int_lt_of_length a b ha hb) in
    (
      strip_zeros-IsCanonical ra digits,
      strip_zeros-big_int ra
          ∙ no_borrow (big_int ra) (big_int a) (big_int b) last (pow10 n)
              (omega (arith, big_int-lt-pow ra digits, ap pow10 l)) le
              (omega (arith, exact, low-all a n (omega arith), low-all b n shorter)),
    )

-- For canonical texts, the second not greater, `str_sub` is subtraction of the numbers, printed.
pub str_sub_lem :
    (a b : Decimal)
    → IsCanonical a
    → IsCanonical b
    → big_int b ≤ big_int a
    → str_sub a b ≡ to_string (big_int a - big_int b)
str_sub_lem a b ha hb le =
    let (canonical, exact) = str_sub_facts a b ha hb le in
    sym (to_string-big_int (str_sub a b) canonical) ∙ ap to_string exact
