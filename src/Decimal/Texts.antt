-- ===== src/Decimal/Texts.antt =====
-- Numbers as the characters that `toString()` and a template literal print.
use multisub_infra.Prelude.{
  ℕ, ◌+◌, ◌≡◌, refl, sym, ap, ◌∙◌, Text, Bool, true, false, ◌&&◌, [], ◌∷◌, ◌++◌, All, arith,
  text_eq, text_eq_iff, ◌==◌, leb,
}
use multisub_infra.Decimal.{Decimal, big_int, to_string, IsDigit}
use multisub_infra.Decimal.Bounds.{IsCanonical-digits}
use multisub_infra.Decimal.Print.{big_int-to_string, to_string-IsCanonical}

abbrev pub digit_text : Decimal → Text
digit_text [] = []
digit_text (d ∷ ds) = (b'0' + d) ∷ digit_text ds

unfoldable pub number_text : ℕ → Text
number_text n = digit_text (to_string n)

-- `String.prototype.startsWith`
abbrev pub starts_with : Text → Text → Bool
starts_with [] t = true
starts_with (c ∷ p) [] = false
starts_with (c ∷ p) (d ∷ t) = (c == d) && starts_with p t

abbrev pub is_digit : ℕ → Bool
is_digit c = leb b'0' c && leb c b'9'

pub to_string-digits : (n : ℕ) → All IsDigit (to_string n)
to_string-digits n = IsCanonical-digits (to_string n) (to_string-IsCanonical n)

digit_text_injective : (a b : Decimal) → digit_text a ≡ digit_text b → a ≡ b
digit_text_injective [] [] e = refl
digit_text_injective [] (y ∷ ys) e = absurd (ground (arith, e))
digit_text_injective (x ∷ xs) [] e = absurd (ground (arith, e))
digit_text_injective (x ∷ xs) (y ∷ ys) e = grind (arith, e, digit_text_injective xs ys)

pub number_text_injective : (n m : ℕ) → number_text n ≡ number_text m → n ≡ m
unfolding number_text
number_text_injective n m e =
    sym (big_int-to_string n)
    ∙ ap big_int (digit_text_injective (to_string n) (to_string m) e)
    ∙ big_int-to_string m

-- Two numbers before a dot: the one is a prefix exactly if it is the other.
starts_with-dot :
    (a b : Decimal) (rest : Text)
    → All IsDigit a
    → All IsDigit b
    → starts_with (digit_text a ++ b'.' ∷ []) (digit_text b ++ b'.' ∷ rest)
      ≡ text_eq (digit_text a) (digit_text b)
unfolding text_eq
starts_with-dot [] [] rest ha hb = grind arith
starts_with-dot [] (y ∷ ys) rest ha (hy, hb) = grind arith
starts_with-dot (x ∷ xs) [] rest (hx, ha) hb = grind arith
starts_with-dot (x ∷ xs) (y ∷ ys) rest (hx, ha) (hy, hb) =
    ground (arith, starts_with-dot xs ys rest ha hb)

pub number_eq : (n m : ℕ) → text_eq (number_text n) (number_text m) ≡ (n == m)
number_eq n m = ground (
  arith,
  text_eq_iff (number_text n) (number_text m),
  number_text_injective n m,
  ap number_text {x = n} {y = m},
)

starts_with-numbers :
    (n m : ℕ) (rest : Text)
    → starts_with (number_text n ++ b'.' ∷ []) (number_text m ++ b'.' ∷ rest)
      ≡ text_eq (number_text n) (number_text m)
unfolding number_text
starts_with-numbers n m rest =
    starts_with-dot (to_string n) (to_string m) rest (to_string-digits n) (to_string-digits m)

pub starts_with-number :
    (n m : ℕ) (rest : Text)
    → starts_with (number_text n ++ b'.' ∷ []) (number_text m ++ b'.' ∷ rest) ≡ (n == m)
starts_with-number n m rest = starts_with-numbers n m rest ∙ number_eq n m
