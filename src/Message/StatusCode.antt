-- ===== src/Message/StatusCode.antt =====
-- A status code of three digits, written (h11/_writers.py) and read (h11/_readers.py).
use h.Prelude.{
  ℕ, zero, suc, ◌-◌, ◌/◌, ◌%◌, ◌≤◌, ◌<◌, ◌≡◌, ap, ◌∙◌, true, false, ltb, [], ◌∷◌, arith,
}
use h.Prelude.Bytes.{Bytes, is_digit, decimal, digit_char, digits_onto, to_decimal}
use h.Body.Digits.{digits_last, digits_more}
use h.Grammar.StatusParts.{IsThreeDigits}

ltb_of_lt : (a b : ℕ) → a < b → ltb a b ≡ true
ltb_of_lt a b h = ground arith

ltb_of_le : (a b : ℕ) → b ≤ a → ltb a b ≡ false
ltb_of_le a b h = ground arith

abbrev three : ℕ → Bytes
three n = digit_char (n / 10 / 10) ∷ digit_char (n / 10 % 10) ∷ digit_char (n % 10) ∷ []

digits_three : (k n : ℕ) → 100 ≤ n → n < 1000 → digits_onto 10 (suc (suc (suc k))) n [] ≡ three n
digits_three k n a b =
    digits_more 10 (suc (suc k)) n [] (ltb_of_le n 10 (omega arith))
    ∙ digits_more 10 (suc k) (n / 10) (digit_char (n % 10) ∷ [])
        (ltb_of_le (n / 10) 10 (omega arith))
    ∙ digits_last 10 k (n / 10 / 10) (digit_char (n / 10 % 10) ∷ digit_char (n % 10) ∷ [])
        (omega arith)

to_decimal-three : (n : ℕ) → 100 ≤ n → n < 1000 → to_decimal n ≡ three n
unfolding to_decimal
to_decimal-three zero a b = absurd (omega arith)
to_decimal-three (suc zero) a b = absurd (omega arith)
to_decimal-three (suc (suc k)) a b = digits_three k (suc (suc k)) a b

digit_char-is_digit : (d : ℕ) → d < 10 → is_digit (digit_char d) ≡ true
digit_char-is_digit d h = ground arith

digit_char-value : (d : ℕ) → d < 10 → digit_char d - 48 ≡ d
digit_char-value d h = ground arith

pub to_decimal-IsThreeDigits : (n : ℕ) → 100 ≤ n → n < 1000 → IsThreeDigits (to_decimal n)
to_decimal-IsThreeDigits n a b = record {
  first = digit_char (n / 10 / 10);
  second = digit_char (n / 10 % 10);
  third = digit_char (n % 10);
  is = to_decimal-three n a b;
  first_digit = digit_char-is_digit (n / 10 / 10) (omega arith);
  second_digit = digit_char-is_digit (n / 10 % 10) (omega arith);
  third_digit = digit_char-is_digit (n % 10) (omega arith);
}

pub decimal-to_decimal : (n : ℕ) → 100 ≤ n → n < 1000 → decimal 0 (to_decimal n) ≡ n
unfolding decimal
decimal-to_decimal n a b =
    ap (decimal 0) (to_decimal-three n a b)
    ∙ rw
        (
          digit_char-value (n / 10 / 10) (omega arith),
          digit_char-value (n / 10 % 10) (omega arith),
          digit_char-value (n % 10) (omega arith),
        )
        (omega arith)
