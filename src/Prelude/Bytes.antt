-- ===== src/Prelude/Bytes.antt =====
-- Python's `bytes`, as lists of the numbers below 256, and the methods of it that the program
-- calls.
use Prim.Native.Nat.{ℕ, zero, suc, ◌+◌, ◌-◌, ◌*◌, ◌/◌, ◌%◌}
use Prim.Native.Char.{code}
use Prim.Native.String.{String}
use mathlib.Core.Path.{◌≡◌, refl}
use mathlib.Core.Bool.{Bool, true, false, ◌&&◌, ◌||◌}
use native.Mathlib.Omega.{arith}
use mathlib.Core.List.{List, [], ◌∷◌, map}
use h.Prelude.Tests.{◌==◌, ltb, leb, if◌then◌else◌}

abbrev pub Bytes : Type 0
Bytes = List ℕ

-- The bytes of an ASCII literal.
abbrev pub codes : String → Bytes
codes String.[] = []
codes (String.◌∷◌ c s) = code c ∷ codes s

-- `a == b`
abbrev pub bytes_eq : Bytes → Bytes → Bool
bytes_eq [] [] = true
bytes_eq (x ∷ xs) (y ∷ ys) = x == y && bytes_eq xs ys
bytes_eq [] (y ∷ ys) = false
bytes_eq (x ∷ xs) [] = false

-- `a < b`: by the first byte that differs, and a prefix comes first.
unfoldable pub bytes_lt : Bytes → Bytes → Bool
bytes_lt [] [] = false
bytes_lt [] (y ∷ ys) = true
bytes_lt (x ∷ xs) [] = false
bytes_lt (x ∷ xs) (y ∷ ys) = let rest = bytes_lt xs ys in if x == y then rest else ltb x y

-- `a.split(sep)`, for a separator of one byte
abbrev pub add_to_first : ℕ → List Bytes → List Bytes
add_to_first x [] = (x ∷ []) ∷ []
add_to_first x (line ∷ lines) = (x ∷ line) ∷ lines

unfoldable pub split : ℕ → Bytes → List Bytes
split sep [] = [] ∷ []
split sep (x ∷ xs) = let rest = split sep xs in if x == sep then [] ∷ rest else add_to_first x rest

-- Bytes that a test of one byte holds for, all of them.
unfoldable pub all_bytes : (ℕ → Bool) → Bytes → Bool
all_bytes p [] = true
all_bytes p (x ∷ xs) = p x && all_bytes p xs

-- The longest prefix of which a test holds, and the rest.
unfoldable pub span : (ℕ → Bool) → Bytes → Bytes × Bytes
span p [] = ([], [])
span p (x ∷ xs) = let rest = span p xs in if p x then (x ∷ rest.0, rest.1) else ([], x ∷ xs)

abbrev pub is_upper : ℕ → Bool
is_upper c = leb b'A' c && leb c b'Z'

abbrev pub is_lower : ℕ → Bool
is_lower c = leb b'a' c && leb c b'z'

abbrev pub is_digit : ℕ → Bool
is_digit c = leb b'0' c && leb c b'9'

abbrev pub to_lower : ℕ → ℕ
to_lower c = if is_upper c then c + 32 else c

abbrev pub to_upper : ℕ → ℕ
to_upper c = if is_lower c then c - 32 else c

-- `a.lower()`
unfoldable pub lower : Bytes → Bytes
lower a = map to_lower a

-- `a.title()`: a letter is upper case where no letter stands before it.
unfoldable pub title_after : Bool → Bytes → Bytes
title_after cased [] = []
title_after cased (x ∷ xs) =
    (if cased then to_lower x else to_upper x) ∷ title_after (is_upper x || is_lower x) xs

unfoldable pub title : Bytes → Bytes
unfolding title_after
title a = title_after false a

-- The bytes that `strip` and `\s` take for white space.
abbrev pub is_space : ℕ → Bool
is_space c = c == 32 || leb 9 c && leb c 13

unfoldable pub strip_left : (ℕ → Bool) → Bytes → Bytes
strip_left p [] = []
strip_left p (x ∷ xs) = let rest = strip_left p xs in if p x then rest else x ∷ xs

unfoldable pub strip_right : (ℕ → Bool) → Bytes → Bytes
strip_right p [] = []
strip_right p (x ∷ xs) = elim (strip_right p xs) [
  | [] ↦ if p x then [] else x ∷ []
  | y ∷ ys ↦ x ∷ y ∷ ys
]

-- `a.strip()`
unfoldable pub strip : Bytes → Bytes
unfolding strip_left strip_right
strip a = strip_right is_space (strip_left is_space a)

-- The number that decimal digits write, and that hexadecimal digits do.
unfoldable pub decimal : ℕ → Bytes → ℕ
decimal n [] = n
decimal n (x ∷ xs) = decimal (n * 10 + (x - 48)) xs

abbrev pub hex_digit : ℕ → ℕ
hex_digit c = if is_digit c then c - 48 else if is_upper c then c - 55 else c - 87

unfoldable pub hexadecimal : ℕ → Bytes → ℕ
hexadecimal n [] = n
hexadecimal n (x ∷ xs) = hexadecimal (n * 16 + hex_digit x) xs

-- The digits of a number, the last one found first; the fuel bounds their count.
abbrev pub digit_char : ℕ → ℕ
digit_char d = if ltb d 10 then 48 + d else 87 + d

unfoldable pub digits_onto : ℕ → ℕ → ℕ → Bytes → Bytes
digits_onto base zero n acc = acc
digits_onto base (suc fuel) n acc =
    let more = digits_onto base fuel (n / base) (digit_char (n % base) ∷ acc) in
    if ltb n base then digit_char n ∷ acc else more

-- `str(n)` and `b"%x" % n`
unfoldable pub to_decimal : ℕ → Bytes
unfolding digits_onto
to_decimal n = digits_onto 10 (suc n) n []

unfoldable pub to_hexadecimal : ℕ → Bytes
unfolding digits_onto
to_hexadecimal n = digits_onto 16 (suc n) n []

pub eq_of_bytes_eq : (a b : Bytes) → bytes_eq a b ≡ true → a ≡ b
eq_of_bytes_eq [] [] h = refl
eq_of_bytes_eq [] (y ∷ ys) h = cc
eq_of_bytes_eq (x ∷ xs) [] h = cc
eq_of_bytes_eq (x ∷ xs) (y ∷ ys) h =
    let ih : bytes_eq xs ys ≡ true → xs ≡ ys = eq_of_bytes_eq xs ys in
    let e : (x ≡ y) × (bytes_eq xs ys ≡ true) = (ground arith, ground arith) in cc (e.0, ih e.1)

pub bytes_eq_refl : (a : Bytes) → bytes_eq a a ≡ true
bytes_eq_refl [] = refl
bytes_eq_refl (x ∷ xs) = ground (arith, bytes_eq_refl xs)
