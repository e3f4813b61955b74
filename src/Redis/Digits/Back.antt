-- ===== src/Redis/Digits/Back.antt =====
-- Digits counted from the right, and the number that the last k of them make.
use multisub_infra.Prelude.{
  ℕ, zero, suc, ◌+◌, ◌*◌, ◌-◌, ◌≤◌, ◌<◌, ◌≡◌, refl, ap, ◌∙◌, [], ◌∷◌, All, length, get_or, arith,
  inl, inr, leb, Bool-cases,
}
use multisub_infra.Decimal.{Decimal, big_int, IsDigit, pow10}
use multisub_infra.Decimal.Bounds.{big_int-cons}
use multisub_infra.Redis.Digits.{digit_back}

abbrev pub low : Decimal → ℕ → ℕ
low a zero = 0
low a (suc k) = low a k + digit_back a k * pow10 k

get_or-IsDigit : (a : Decimal) (i : ℕ) → All IsDigit a → IsDigit (get_or a i 0)
get_or-IsDigit [] i h = omega arith
get_or-IsDigit (x ∷ a) zero h = h.0
get_or-IsDigit (x ∷ a) (suc i) h = get_or-IsDigit a i h.1

pub digit_back-IsDigit : (a : Decimal) (i : ℕ) → All IsDigit a → IsDigit (digit_back a i)
unfolding digit_back
digit_back-IsDigit a i h = ground (arith, get_or-IsDigit a (length a - i - 1) h)

digit_back-cons :
    (x : ℕ) (a : Decimal) (i : ℕ) → i < length a → digit_back (x ∷ a) i ≡ digit_back a i
unfolding digit_back
digit_back-cons x a i h =
    let e : suc (length a) - i - 1 ≡ suc (length a - i - 1) = omega arith in
    ground (arith, ap (λ k. get_or (x ∷ a) k 0) e)

digit_back-first : (x : ℕ) (a : Decimal) → digit_back (x ∷ a) (length a) ≡ x
unfolding digit_back
digit_back-first x a =
    let e : suc (length a) - length a - 1 ≡ 0 = omega arith in
    ground (arith, ap (λ k. get_or (x ∷ a) k 0) e)

digit_back-beyond : (a : Decimal) (i : ℕ) → length a ≤ i → digit_back a i ≡ 0
unfolding digit_back
digit_back-beyond a i h = ground arith

low-cons : (x : ℕ) (a : Decimal) (k : ℕ) → k ≤ length a → low (x ∷ a) k ≡ low a k
low-cons x a zero h = refl
low-cons x a (suc k) h = cc (low-cons x a k (omega arith), digit_back-cons x a k h)

low-length : (a : Decimal) → low a (length a) ≡ big_int a
low-length [] = unfold big_int in refl
low-length (x ∷ a) = omega (
  arith,
  low-cons x a (length a) (omega arith),
  low-length a,
  big_int-cons x a,
  ap (λ (t : ℕ). t * pow10 (length a)) (digit_back-first x a),
)

-- All the digits make the number.
pub low-all : (a : Decimal) (k : ℕ) → length a ≤ k → low a k ≡ big_int a
low-all [] zero h = low-length []
low-all (x ∷ a) zero h = absurd (omega arith)
low-all a (suc k) h = elim (Bool-cases (leb (length a) k)) [
  | inl all ↦ omega (
    arith,
    low-all a k (ground arith),
    ap (λ (t : ℕ). t * pow10 k) (digit_back-beyond a k (ground arith)),
  )
  | inr last ↦ let e : suc k ≡ length a = ground arith in ap (low a) e ∙ low-length a
]
