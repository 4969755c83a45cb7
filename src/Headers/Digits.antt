-- ===== src/Headers/Digits.antt =====
-- A value of digits alone is what h11/_headers.py reads of a Content-Length header.
use h.Prelude.{ℕ, ◌≡◌, refl, Bool, true, false, ◌==◌, [], ◌∷◌, map, arith}
use h.Prelude.Bytes.{
  Bytes, all_bytes, is_digit, is_space, to_lower, lower, strip, strip_left, strip_right, split,
}
use h.Abnf.{one_or_more}
use h.Headers.Defs.{nonempty}

-- A digit is no capital letter, no comma and no white space.
digit_plain :
    (x : ℕ) → is_digit x ≡ true → (to_lower x ≡ x) × ((x == b',') ≡ false) × (is_space x ≡ false)
digit_plain x d = (ground arith, ground arith, ground arith)

all_head : (p : ℕ → Bool) (x : ℕ) (xs : Bytes) → all_bytes p (x ∷ xs) ≡ true → p x ≡ true
unfolding all_bytes
all_head p x xs h = ground arith

all_tail : (p : ℕ → Bool) (x : ℕ) (xs : Bytes) → all_bytes p (x ∷ xs) ≡ true → all_bytes p xs ≡ true
unfolding all_bytes
all_tail p x xs h = ground arith

lower-digits : (v : Bytes) → all_bytes is_digit v ≡ true → lower v ≡ v
unfolding lower
lower-digits [] h = refl
lower-digits (x ∷ xs) h =
    let ih = lower-digits xs (all_tail is_digit x xs h) in
    cc ((digit_plain x (all_head is_digit x xs h)).0, ih)

pub split-digits : (v : Bytes) → all_bytes is_digit v ≡ true → split b',' v ≡ v ∷ []
unfolding split
split-digits [] h = refl
split-digits (x ∷ xs) h =
    rw (split-digits xs (all_tail is_digit x xs h), (digit_plain x (all_head is_digit x xs h)).1)

strip_left-digits : (v : Bytes) → all_bytes is_digit v ≡ true → strip_left is_space v ≡ v
unfolding strip_left
strip_left-digits [] h = refl
strip_left-digits (x ∷ xs) h = rw ((digit_plain x (all_head is_digit x xs h)).2)

strip_right-digits : (v : Bytes) → all_bytes is_digit v ≡ true → strip_right is_space v ≡ v
unfolding strip_right
strip_right-digits [] h = refl
strip_right-digits (x ∷ []) h = rw ((digit_plain x (all_head is_digit x [] h)).2)
strip_right-digits (x ∷ y ∷ r) h =
    let ih = strip_right-digits (y ∷ r) (all_tail is_digit x (y ∷ r) h) in rw (ih, strip_right)

pub strip-digits : (v : Bytes) → all_bytes is_digit v ≡ true → strip v ≡ v
unfolding strip
strip-digits v h = rw (strip_left-digits v h) (strip_right-digits v h)

-- The parts that `get_comma_header` finds in a value of digits: the value.
pub comma_parts-digits :
    (v : Bytes)
    → one_or_more is_digit v ≡ true
    → nonempty (map strip (split b',' (lower v))) ≡ v ∷ []
comma_parts-digits [] h = cc
comma_parts-digits (x ∷ xs) h =
    let d : all_bytes is_digit (x ∷ xs) ≡ true = unfold all_bytes in h in
    rw (lower-digits (x ∷ xs) d, split-digits (x ∷ xs) d, strip-digits (x ∷ xs) d)
