-- ===== src/Buffer/Search.antt =====
-- The searches that the receive buffer makes: `bytes.find(b"\r\n", start)` and the regular
-- expression `\n\r?\n`, and when a search may begin past the start.
use h.Prelude.{
  ℕ, zero, suc, ◌+◌, ◌≤◌, ◌<◌, ◌≡◌, ◌==◌, ◌&&◌, if◌then◌else◌, Option, none, some, [], ◌∷◌, ◌++◌,
  arith, ◌⊎◌, ap, ◌∙◌, sym,
}
use h.Prelude.Lists.{length, drop}
use h.Prelude.Bytes.{Bytes}

-- A matcher gives the length of its match at the head of the bytes.
abbrev pub Matcher : Type 0
Matcher = Bytes → Option ℕ

-- `\r\n`
unfoldable pub match_crlf : Matcher
match_crlf (x ∷ y ∷ r) = if x == 13 && y == 10 then some 2 else none
match_crlf (x ∷ []) = none
match_crlf [] = none

-- `\r?\n`, behind the first `\n`
abbrev after_newline : Bytes → Option ℕ
after_newline (x ∷ y ∷ r) = if x == 10 then some 2 else if x == 13 && y == 10 then some 3 else none
after_newline (x ∷ []) = if x == 10 then some 2 else none
after_newline [] = none

-- `\n\r?\n`
unfoldable pub match_blank_line : Matcher
match_blank_line (x ∷ r) = if x == 10 then after_newline r else none
match_blank_line [] = none

-- A span, moved on by `k` bytes.
abbrev pub shift : ℕ → Option (ℕ × ℕ) → Option (ℕ × ℕ)
shift k none = none
shift k (some (i, e)) = some (k + i, k + e)

-- The span of the leftmost match.
unfoldable pub search : Matcher → Bytes → Option (ℕ × ℕ)
search m [] = none
search m (x ∷ xs) =
    let rest = shift 1 (search m xs) in elim (m (x ∷ xs)) [ some n ↦ some (0, n) | none ↦ rest ]

-- The same, from a position on.
unfoldable pub search_from : Matcher → ℕ → Bytes → Option (ℕ × ℕ)
search_from m s d = shift s (search m (drop s d))

-- The match at the head of the bytes turns on the first `w` bytes.
abbrev pub LooksAt : ℕ → Matcher → Type 0
LooksAt w m = (d more : Bytes) → w ≤ length d → m d ≡ none → m (d ++ more) ≡ none

pub match_crlf-LooksAt : LooksAt 2 match_crlf
unfolding match_crlf
match_crlf-LooksAt (x ∷ y ∷ r) more h e = e
match_crlf-LooksAt (x ∷ []) more h e = absurd (omega arith)
match_crlf-LooksAt [] more h e = absurd (omega arith)

pub match_blank_line-LooksAt : LooksAt 3 match_blank_line
unfolding match_blank_line
match_blank_line-LooksAt (x ∷ y ∷ z ∷ r) more h e = e
match_blank_line-LooksAt (x ∷ y ∷ []) more h e = absurd (omega arith)
match_blank_line-LooksAt (x ∷ []) more h e = absurd (omega arith)
match_blank_line-LooksAt [] more h e = absurd (omega arith)

shift-zero : (o : Option (ℕ × ℕ)) → shift 0 o ≡ o
shift-zero o = ground arith

shift-shift : (k : ℕ) (o : Option (ℕ × ℕ)) → shift 1 (shift k o) ≡ shift (suc k) o
shift-shift k o = ground arith

pub search_from-zero : (m : Matcher) (d : Bytes) → search_from m 0 d ≡ search m d
unfolding search_from
search_from-zero m d = shift-zero (search m d)

-- A failed search failed at the head and in the rest.
search_failed :
    (m : Matcher) (x : ℕ) (xs : Bytes)
    → search m (x ∷ xs) ≡ none
    → (m (x ∷ xs) ≡ none) × (search m xs ≡ none)
unfolding search
search_failed m x xs h = ground arith

pub search_hit :
    (m : Matcher) (x : ℕ) (xs : Bytes) {n : ℕ}
    → m (x ∷ xs) ≡ some n
    → search m (x ∷ xs) ≡ some (0, n)
unfolding search
search_hit m x xs h = ground arith

pub search_past :
    (m : Matcher) (x : ℕ) (xs : Bytes)
    → m (x ∷ xs) ≡ none
    → search m (x ∷ xs) ≡ shift 1 (search m xs)
unfolding search
search_past m x xs h = ground arith

search_from-suc :
    (m : Matcher) (s x : ℕ) (d : Bytes)
    → shift 1 (search_from m s d) ≡ search_from m (suc s) (x ∷ d)
unfolding search_from
search_from-suc m s x d = shift-shift s (search m (drop s d))

-- After a failed search in `d`, the search in `d` and more may leave out all but the last
-- `w - 1` bytes of `d`.
pub search_skip :
    (w : ℕ) (m : Matcher) (s : ℕ) (d more : Bytes)
    → 0 < w
    → LooksAt w m
    → search m d ≡ none
    → (s ≡ 0) ⊎ (s + w ≤ length d + 1)
    → search m (d ++ more) ≡ search_from m s (d ++ more)
search_skip w m zero d more p l h b = sym (search_from-zero m (d ++ more))
search_skip w m (suc s) [] more p l h b = absurd (ground arith)
search_skip w m (suc s) (x ∷ xs) more p l h b =
    search_past m x (xs ++ more) (l (x ∷ xs) more (ground arith) (search_failed m x xs h).0)
    ∙ ap (shift 1) (search_skip w m s xs more p l (search_failed m x xs h).1 (ground arith))
    ∙ search_from-suc m s x (xs ++ more)
