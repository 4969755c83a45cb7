-- ===== src/Prelude/Lists.antt =====
-- Lists measured and cut by native numbers, under the library's names.
use Prim.Native.Nat.{ℕ, zero, suc, ◌+◌, ◌-◌, min}
use mathlib.Core.Path.{◌≡◌, refl}
use mathlib.Core.List.{List, [], ◌∷◌, ◌++◌}
use native.Mathlib.Omega.{arith}

pub sub_none : (m : ℕ) → m - 0 ≡ m
sub_none m = omega arith

none_left : (x : ℕ) → 0 - x ≡ 0
none_left x = omega arith

one_less : (m x : ℕ) → suc m - suc x ≡ m - x
one_less m x = omega arith

module _ {ℓ} {A : Type ℓ} where
  abbrev pub length : List A → ℕ
  length [] = 0
  length (x ∷ xs) = suc (length xs)

  abbrev pub take : ℕ → List A → List A
  take zero xs = []
  take (suc n) [] = []
  take (suc n) (x ∷ xs) = x ∷ take n xs

  abbrev pub drop : ℕ → List A → List A
  drop zero xs = xs
  drop (suc n) [] = []
  drop (suc n) (x ∷ xs) = drop n xs

  abbrev pub replicate : ℕ → A → List A
  replicate zero a = []
  replicate (suc n) a = a ∷ replicate n a

  pub length-append : (xs ys : List A) → length (xs ++ ys) ≡ length xs + length ys
  length-append [] ys = omega arith
  length-append (x ∷ xs) ys = omega (arith, length-append xs ys)

  pub take-append-drop : (n : ℕ) (xs : List A) → take n xs ++ drop n xs ≡ xs
  take-append-drop zero xs = refl
  take-append-drop (suc n) [] = refl
  take-append-drop (suc n) (x ∷ xs) = rw (take-append-drop n xs)

  pub length-take : (n : ℕ) (xs : List A) → length (take n xs) ≡ min n (length xs)
  length-take zero xs = omega arith
  length-take (suc n) [] = omega arith
  length-take (suc n) (x ∷ xs) = omega (arith, length-take n xs)

  pub length-drop : (n : ℕ) (xs : List A) → length (drop n xs) ≡ length xs - n
  length-drop zero xs = omega arith
  length-drop (suc n) [] = omega arith
  length-drop (suc n) (x ∷ xs) = omega (arith, length-drop n xs)

  pub take-length : (a r : List A) → take (length a) (a ++ r) ≡ a
  take-length [] r = refl
  take-length (x ∷ a) r = rw (take-length a r)

  pub drop-length : (a r : List A) → drop (length a) (a ++ r) ≡ r
  drop-length [] r = refl
  drop-length (x ∷ a) r = drop-length a r

  pub take-more :
      (m : ℕ) (x y : List A) → take m x ++ take (m - length x) (drop m x ++ y) ≡ take m (x ++ y)
  take-more zero x y = rw (none_left (length x))
  take-more (suc m) [] y = rw (sub_none (suc m))
  take-more (suc m) (a ∷ x) y = rw (one_less m (length x), take-more m x y)

  pub drop-more : (m : ℕ) (x y : List A) → drop (m - length x) (drop m x ++ y) ≡ drop m (x ++ y)
  drop-more zero x y = rw (none_left (length x))
  drop-more (suc m) [] y = rw (sub_none (suc m))
  drop-more (suc m) (a ∷ x) y = rw (one_less m (length x)) (drop-more m x y)

  -- What lies behind the first `m` has none of them.
  pub taken : (m : ℕ) (x : List A) → take (m - length x) (drop m x) ≡ []
  taken zero x = rw (none_left (length x))
  taken (suc m) [] = rw (sub_none (suc m))
  taken (suc m) (a ∷ x) = rw (one_less m (length x)) (taken m x)

  pub take_nil : (n : ℕ) → take n [] ≡ []
  take_nil zero = refl
  take_nil (suc n) = refl
