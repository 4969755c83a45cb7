-- ===== src/Body/Digits.antt =====
-- Chunk sizes: the hexadecimal digits that h11/_writers.py writes, and h11/_readers.py reads.
use native.Mathlib.Nat.{pow-suc}
use Prim.Native.Nat.{ℕ, zero, suc, ◌+◌, ◌*◌, ◌/◌, ◌%◌, ◌^◌, ◌≤◌, ◌<◌}
use mathlib.Core.Path.{◌≡◌, refl, ◌∙◌, ap}
use mathlib.Core.Bool.{true, false}
use mathlib.Core.Logic.{inl, inr}
use mathlib.Core.List.{[], ◌∷◌}
use native.Mathlib.Omega.{arith}
use h.Prelude.{ltb, Bool-cases, ltb→lt, lt→ltb}
use h.Prelude.Lists.{length}
use h.Abnf.{is_hexdig}
use h.Prelude.Bytes.{
  all_bytes, Bytes, hexadecimal, hex_digit, digit_char, digits_onto, to_hexadecimal,
}

hex_digit-char : (d : ℕ) → d < 16 → hex_digit (digit_char d) ≡ d
hex_digit-char d h = ground arith

-- One digit more, after what was read.
hexadecimal-digit :
    (acc d : ℕ) (tail : Bytes)
    → d < 16
    → hexadecimal acc (digit_char d ∷ tail) ≡ hexadecimal (acc * 16 + d) tail
unfolding hexadecimal
hexadecimal-digit acc d tail h = ap (λ x. hexadecimal (acc * 16 + x) tail) (hex_digit-char d h)

-- The two ways that the digits go on.
pub digits_last :
    (base fuel n : ℕ) (tail : Bytes)
    → n < base
    → digits_onto base (suc fuel) n tail ≡ digit_char n ∷ tail
unfolding digits_onto
digits_last base fuel n tail h = rw (lt→ltb n base h)

pub digits_more :
    (base fuel n : ℕ) (tail : Bytes)
    → ltb n base ≡ false
    → digits_onto base (suc fuel) n tail
      ≡ digits_onto base fuel (n / base) (digit_char (n % base) ∷ tail)
unfolding digits_onto
digits_more base fuel n tail h = rw h

hexadecimal-digits :
    (fuel n : ℕ) (tail : Bytes)
    → n < fuel
    → hexadecimal 0 (digits_onto 16 fuel n tail) ≡ hexadecimal n tail
hexadecimal-digits zero n tail h = absurd (omega arith)
hexadecimal-digits (suc fuel) n tail h = elim (Bool-cases (ltb n 16)) [
  | inl small ↦
      ap (hexadecimal 0) (digits_last 16 fuel n tail (ltb→lt n 16 small))
      ∙ hexadecimal-digit 0 n tail (ltb→lt n 16 small)
      ∙ ap (λ x. hexadecimal x tail) (omega arith)
  | inr large ↦
      ap (hexadecimal 0) (digits_more 16 fuel n tail large)
      ∙ hexadecimal-digits fuel (n / 16) (digit_char (n % 16) ∷ tail) (ground arith)
      ∙ hexadecimal-digit (n / 16) (n % 16) tail (omega arith)
      ∙ ap (λ x. hexadecimal x tail) (omega arith)
]

-- The digits that are written in base 16 are read as the number.
pub hexadecimal-to_hexadecimal : (n : ℕ) → hexadecimal 0 (to_hexadecimal n) ≡ n
unfolding to_hexadecimal hexadecimal
hexadecimal-to_hexadecimal n = hexadecimal-digits (suc n) n [] (omega arith)

-- Every digit is one, and there are as many as the number needs.
digit_char-hexdig : (d : ℕ) → d < 16 → is_hexdig (digit_char d) ≡ true
digit_char-hexdig d h = ground arith

all-digits :
    (fuel n : ℕ) (tail : Bytes)
    → all_bytes is_hexdig tail ≡ true
    → all_bytes is_hexdig (digits_onto 16 fuel n tail) ≡ true
all-digits zero n tail h = unfold digits_onto in h
all-digits (suc fuel) n tail h = elim (Bool-cases (ltb n 16)) [
  | inl small ↦
      rw (digits_last 16 fuel n tail (ltb→lt n 16 small))
        (unfold all_bytes in rw (digit_char-hexdig n (ltb→lt n 16 small)) h)
  | inr large ↦ rw (digits_more 16 fuel n tail large) (
      all-digits fuel (n / 16) (digit_char (n % 16) ∷ tail)
        (unfold all_bytes in rw (digit_char-hexdig (n % 16) (omega arith)) h))
]

pub all-to_hexadecimal : (n : ℕ) → all_bytes is_hexdig (to_hexadecimal n) ≡ true
unfolding to_hexadecimal all_bytes
all-to_hexadecimal n = all-digits (suc n) n [] refl

length-digits :
    (k fuel n : ℕ) (tail : Bytes)
    → n < 16 ^ suc k
    → length (digits_onto 16 fuel n tail) ≤ suc k + length tail
length-digits k zero n tail h = unfold digits_onto in omega arith
length-digits zero (suc fuel) n tail h =
    rw (digits_last 16 fuel n tail (rw (pow-suc 16 0) at h)) (omega arith)
length-digits (suc k) (suc fuel) n tail h = elim (Bool-cases (ltb n 16)) [
  | inl small ↦ rw (digits_last 16 fuel n tail (ltb→lt n 16 small)) (omega arith)
  | inr large ↦
      let q : n / 16 < 16 ^ suc k = let e = pow-suc 16 (suc k) in omega arith in
      rw (digits_more 16 fuel n tail large)
        (omega (arith, length-digits k fuel (n / 16) (digit_char (n % 16) ∷ tail) q))
]

pub length-to_hexadecimal : (k n : ℕ) → n < 16 ^ suc k → length (to_hexadecimal n) ≤ suc k
unfolding to_hexadecimal
length-to_hexadecimal k n h = omega (arith, length-digits k (suc n) n [] h)

length-digits_grows :
    (fuel n : ℕ) (tail : Bytes) → length tail ≤ length (digits_onto 16 fuel n tail)
length-digits_grows zero n tail = unfold digits_onto in omega arith
length-digits_grows (suc fuel) n tail = elim (Bool-cases (ltb n 16)) [
  | inl small ↦ rw (digits_last 16 fuel n tail (ltb→lt n 16 small)) (omega arith)
  | inr large ↦
      rw (digits_more 16 fuel n tail large)
        (omega (arith, length-digits_grows fuel (n / 16) (digit_char (n % 16) ∷ tail)))
]

pub to_hexadecimal-nonempty : (n : ℕ) → 1 ≤ length (to_hexadecimal n)
unfolding to_hexadecimal
to_hexadecimal-nonempty n = elim (Bool-cases (ltb n 16)) [
  | inl small ↦ rw (digits_last 16 n n [] (ltb→lt n 16 small)) (omega arith)
  | inr large ↦
      rw (digits_more 16 n n [] large)
        (omega (arith, length-digits_grows n (n / 16) (digit_char (n % 16) ∷ [])))
]
