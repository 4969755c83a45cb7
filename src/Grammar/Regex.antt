-- ===== src/Grammar/Regex.antt =====
-- Regular expressions, as far as h11/_abnf.py uses them, and what `fullmatch` with `groupdict` means
-- (`validate` of h11/_util.py).
use h.Prelude.{ℕ, zero, suc, ◌≡◌, ◌⊎◌, Bool, true, List, [], ◌∷◌, ◌++◌, ◌==◌}
use h.Prelude.Bytes.{Bytes}

pub data Regex : Type 0 where
  one : (ℕ → Bool) → Regex
  empty : Regex
  seq alt : Regex → Regex → Regex
  star : Regex → Regex
  group : Bytes → Regex → Regex

-- A name for each named group that took part, in order.
abbrev pub Groups : Type 0
Groups = List (Bytes × Bytes)

-- A sequence of strings with `P`.
pub data Star (P : Bytes → Type 0) : Bytes → Type 0 where
  done : Star P []
  more : {s : Bytes} (a b : Bytes) → s ≡ a ++ b → P a → Star P b → Star P s

-- The whole of the string matches, with these groups. No group of this grammar is repeated.
abbrev pub Matches : Regex → Bytes → Groups → Type 0
Matches (one p) s g = (c : ℕ) × (s ≡ c ∷ []) × (p c ≡ true) × (g ≡ [])
Matches empty s g = (s ≡ []) × (g ≡ [])
Matches (seq a b) s g =
    (s₁ : Bytes) × (s₂ : Bytes) × (g₁ : Groups) × (g₂ : Groups) × (s ≡ s₁ ++ s₂)
    × (g ≡ g₁ ++ g₂)
    × Matches a s₁ g₁
    × Matches b s₂ g₂
Matches (alt a b) s g = Matches a s g ⊎ Matches b s g
Matches (star a) s g = Star (λ t. Matches a t []) s × (g ≡ [])
Matches (group name a) s g = (h : Groups) × (g ≡ (name, s) ∷ h) × Matches a s h

-- `r+` and `r?`
abbrev pub plus : Regex → Regex
plus r = seq r (star r)

abbrev pub opt : Regex → Regex
opt r = alt r empty

-- A string as it is written.
abbrev pub text : Bytes → Regex
text [] = empty
text (c ∷ s) = seq (one (λ x. x == c)) (text s)

-- `r{m,m+k}`
abbrev pub repeat : ℕ → ℕ → Regex → Regex
repeat zero zero r = empty
repeat zero (suc k) r = opt (seq r (repeat zero k r))
repeat (suc m) k r = seq r (repeat m k r)
