-- ===== src/Redis/Digits/Order.antt =====
-- `str_gte` compares the numbers that canonical texts stand for.
use multisub_infra.Prelude.{ℕ, ◌*◌, ◌≡◌, refl, ap, [], ◌∷◌, All, length, leb, arith}
use multisub_infra.Decimal.{Decimal, big_int, IsDigit, IsCanonical, pow10}
use multisub_infra.Decimal.Bounds.{
  big_int-cons, big_int-lt-pow, IsCanonical-digits, big_int_lt_of_length,
}
use multisub_infra.Decimal.Print.{lead_lt}
use multisub_infra.Redis.Digits.{string_ge, str_gte}

string_ge_lem :
    (a b : Decimal)
    → All IsDigit a
    → All IsDigit b
    → length a ≡ length b
    → string_ge a b ≡ leb (big_int b) (big_int a)
unfolding string_ge
string_ge_lem [] [] ha hb l = unfold big_int in refl
string_ge_lem [] (y ∷ b) ha hb l = absurd (omega arith)
string_ge_lem (x ∷ a) [] ha hb l = absurd (omega arith)
string_ge_lem (x ∷ a) (y ∷ b) (hx, ha) (hy, hb) l =
    let l' : length a ≡ length b = omega arith in
    let scale : pow10 (length a) ≡ pow10 (length b) = ap pow10 l' in
    ground (
      arith,
      big_int-cons x a,
      big_int-cons y b,
      big_int-lt-pow a ha,
      big_int-lt-pow b hb,
      scale,
      ap (λ (t : ℕ). x * t) scale,
      lead_lt x y (pow10 (length b)),
      lead_lt y x (pow10 (length b)),
      string_ge_lem a b ha hb l',
    )

-- For canonical texts the script's comparison is the comparison of the numbers.
pub str_gte_lem :
    (a b : Decimal) → IsCanonical a → IsCanonical b → str_gte a b ≡ leb (big_int b) (big_int a)
unfolding str_gte
str_gte_lem a b ha hb = ground (
  arith,
  string_ge_lem a b (IsCanonical-digits a ha) (IsCanonical-digits b hb),
  big_int_lt_of_length a b ha hb,
  big_int_lt_of_length b a hb ha,
)
