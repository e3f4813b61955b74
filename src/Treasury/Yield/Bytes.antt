-- ===== src/Treasury/Yield/Bytes.antt =====
-- backend/src/services/yield-manager.ts: toBytes32, under which the vault knows a tenant. The bytes of
-- a text are Node's.
use multisub_infra.Prelude.{
  ℕ, zero, suc, ◌+◌, ◌-◌, ◌/◌, ◌%◌, ◌≡◌, refl, Text, List, [], ◌∷◌, ◌++◌, arith, codes, ltb, length,
  length-append, if◌then◌else◌,
}

abbrev pub nibble : ℕ → ℕ
nibble n = if ltb n 10 then b'0' + n else b'a' + (n - 10)

-- `toString("hex")` of a buffer.
abbrev pub hex : List ℕ → Text
hex [] = []
hex (b ∷ bs) = nibble (b / 16) ∷ nibble (b % 16) ∷ hex bs

abbrev pub repeat : ℕ → ℕ → Text
repeat zero c = []
repeat (suc n) c = c ∷ repeat n c

abbrev pub pad_end : ℕ → ℕ → Text → Text
pad_end n c t = t ++ repeat (n - length t) c

-- `slice(0, n)`
abbrev pub slice_to : ℕ → Text → Text
slice_to zero t = []
slice_to (suc n) [] = []
slice_to (suc n) (c ∷ t) = c ∷ slice_to n t

unfoldable pub to_bytes32 : (Text → List ℕ) → Text → Text
to_bytes32 utf8 value = codes "0x" ++ slice_to 64 (pad_end 64 b'0' (hex (utf8 value)))

length-repeat : (n c : ℕ) → length (repeat n c) ≡ n
length-repeat zero c = refl
length-repeat (suc n) c = omega (arith, length-repeat n c)

length-slice_to : (n : ℕ) (t : Text) (k : ℕ) → length t ≡ n + k → length (slice_to n t) ≡ n
length-slice_to zero t k e = refl
length-slice_to (suc n) [] k e = absurd (omega (arith, e))
length-slice_to (suc n) (c ∷ t) k e = omega (arith, length-slice_to n t k (omega (arith, e)))

-- Whatever the text, 32 bytes are printed behind `0x`.
pub to_bytes32-length : (utf8 : Text → List ℕ) (value : Text) → length (to_bytes32 utf8 value) ≡ 66
unfolding to_bytes32
to_bytes32-length utf8 value =
    let t = hex (utf8 value) in
    let padded = pad_end 64 b'0' t in
    let long = length-append t (repeat (64 - length t) b'0') in
    omega (
      arith,
      length-slice_to 64 padded (length padded - 64)
          (omega (arith, long, length-repeat (64 - length t) b'0')),
    )
