-- ===== src/Sdk/Numbers.antt =====
-- sdk/src/webhook.ts: `parseInt` reads back what the dispatcher prints.
use multisub_infra.Prelude.{
  ℕ, ◌+◌, ◌-◌, ◌*◌, ◌<◌, ◌≡◌, refl, ap, ◌∙◌, pos, true, false, some, [], ◌∷◌, All, arith, ◌==◌,
}
use multisub_infra.Decimal.{Decimal, big_int, value_from, to_string, IsDigit, IsCanonical}
use multisub_infra.Decimal.Print.{big_int-to_string, to_string-IsCanonical}
use multisub_infra.Decimal.Texts.{digit_text, number_text, is_digit, to_string-digits}
use multisub_infra.Sdk.{is_space, read_on, parse_int}

read_on-value_from :
    (ds : Decimal) (n : ℕ) → All IsDigit ds → read_on n (digit_text ds) ≡ value_from n ds
unfolding value_from
read_on-value_from [] n h = refl
read_on-value_from (d ∷ ds) n (h, hs) =
    let e : b'0' + d - b'0' ≡ d = omega arith in
    ground (arith, h, e, read_on-value_from ds (n * 10 + d) hs)

not_space : (d : ℕ) → d < 10 → is_space (b'0' + d) ≡ false
not_space d h = ground (arith, h)

digit_char : (d : ℕ) → d < 10 → is_digit (b'0' + d) ≡ true
digit_char d h = ground (arith, h)

parse_int-digits :
    (ds : Decimal)
    → IsCanonical ds
    → All IsDigit ds
    → parse_int (digit_text ds) ≡ some (pos (big_int ds))
unfolding parse_int big_int value_from
parse_int-digits [] c h = absurd c
parse_int-digits (d ∷ ds) c (h, hs) =
    let e : b'0' + d - b'0' ≡ d = omega arith in
    let v = ap (λ (n : ℕ). read_on n (digit_text ds)) e ∙ read_on-value_from ds d hs in
    let minus : (b'0' + d == b'-') ≡ false = ground arith in
    let plus : (b'0' + d == b'+') ≡ false = ground arith in
    let z : value_from (0 + d) ds ≡ value_from d ds =
      ap (λ (n : ℕ). value_from n ds) (omega arith) in
    rw (not_space d h, minus, plus, digit_char d h, v, z) refl

pub parse_int-number_text : (n : ℕ) → parse_int (number_text n) ≡ some (pos n)
unfolding number_text
parse_int-number_text n =
    parse_int-digits (to_string n) (to_string-IsCanonical n) (to_string-digits n)
    ∙ ap (λ (v : ℕ). some (pos v)) (big_int-to_string n)
