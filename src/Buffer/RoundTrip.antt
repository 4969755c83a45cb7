-- ===== src/Buffer/RoundTrip.antt =====
-- Lines that end in `\r\n`, and the empty line behind them, under `maybe_extract_lines`
-- (h11/_receivebuffer.py).
use mathlib.Core.List.{append_assoc}
use h.Prelude.{
  ℕ, ◌≡◌, ◌≢◌, refl, false, ◌==◌, Option, none, some, List, [], ◌∷◌, ◌++◌, map, arith, ◌∙◌, sym, ap,
}
use h.Prelude.Bytes.{Bytes, split}
use h.Prelude.Exec.{Result, ok, lift, pure, ◌>>=◌}
use h.Buffer.Search.{match_blank_line}
use h.Buffer.Defs.{ReceiveBuffer, maybe_extract_lines, lines_of, strip_cr, drop_blank_pair}
use h.Buffer.Plain.{cons_first, cut, blank_line_of, plain_lines, view}
use h.Buffer.Cache.{IsCached, lines-view}
use h.Buffer.Lines.{cut-past, split-append, drop_blank_pair-append}

-- No CR and no LF.
abbrev pub NoBreaks : Bytes → Type 0
NoBreaks [] = Unit {0}
NoBreaks (x ∷ xs) = (x ≢ 10) × (x ≢ 13) × NoBreaks xs

-- A line of a header block.
abbrev pub IsLine : Bytes → Type 0
IsLine [] = ⊥
IsLine (x ∷ xs) = (x ≢ 10) × (x ≢ 13) × NoBreaks xs

abbrev pub AreLines : List Bytes → Type 0
AreLines [] = Unit {0}
AreLines (l ∷ ls) = IsLine l × AreLines ls

-- `b"".join(line + b"\r\n" for line in lines)`
abbrev pub render : List Bytes → Bytes
render [] = []
render (l ∷ ls) = l ++ 13 ∷ 10 ∷ render ls

abbrev prepend : Bytes → Option (Bytes × Bytes) → Option (Bytes × Bytes)
prepend l none = none
prepend l (some (a, b)) = some (l ++ a, b)

prepend-cons :
    (x : ℕ) (l : Bytes) (o : Option (Bytes × Bytes))
    → cons_first x (prepend l o) ≡ prepend (x ∷ l) o
prepend-cons x l none = refl
prepend-cons x l (some p) = refl

not_newline : (x : ℕ) (xs : Bytes) → x ≢ 10 → match_blank_line (x ∷ xs) ≡ none
unfolding match_blank_line
not_newline x xs h = ground arith

prepend-nil : (o : Option (Bytes × Bytes)) → prepend [] o ≡ o
prepend-nil none = refl
prepend-nil (some p) = refl

not_blank_line : (x : ℕ) (r : Bytes) → x ≢ 10 → x ≢ 13 → match_blank_line (10 ∷ x ∷ r) ≡ none
unfolding match_blank_line
not_blank_line x [] h k = ground arith
not_blank_line x (y ∷ r) h k = ground arith

-- The search goes past a line.
cut-line :
    (l d : Bytes) → NoBreaks l → cut match_blank_line (l ++ d) ≡ prepend l (cut match_blank_line d)
cut-line [] d h = sym (prepend-nil (cut match_blank_line d))
cut-line (x ∷ xs) d h =
    cut-past match_blank_line x (xs ++ d) (not_newline x (xs ++ d) h.0)
    ∙ ap (cons_first x) (cut-line xs d h.2)
    ∙ prepend-cons x xs (cut match_blank_line d)

IsLine-NoBreaks : (l : Bytes) → IsLine l → NoBreaks l
IsLine-NoBreaks [] h = tt
IsLine-NoBreaks (x ∷ xs) h = h

cons_first_twice :
    (x y : ℕ) (o : Option (Bytes × Bytes)) → cons_first x (cons_first y o) ≡ prepend (x ∷ y ∷ []) o
cons_first_twice x y none = refl
cons_first_twice x y (some p) = refl

-- An end of line, before another line.
cut-next :
    (l d : Bytes)
    → IsLine l
    → cut match_blank_line (13 ∷ 10 ∷ l ++ d)
      ≡ prepend (13 ∷ 10 ∷ []) (cut match_blank_line (l ++ d))
cut-next [] d h = absurd h
cut-next (x ∷ xs) d h =
    cut-past match_blank_line 13 (10 ∷ x ∷ xs ++ d)
      (not_newline 13 (10 ∷ x ∷ xs ++ d) (omega arith))
    ∙ ap (cons_first 13)
        (cut-past match_blank_line 10 (x ∷ xs ++ d) (not_blank_line x (xs ++ d) h.0 h.1))
    ∙ cons_first_twice 13 10 (cut match_blank_line (x ∷ xs ++ d))

-- An end of line, before the empty line.
cut-end :
    (d : Bytes) → cut match_blank_line (13 ∷ 10 ∷ 13 ∷ 10 ∷ d) ≡ some (13 ∷ 10 ∷ 13 ∷ 10 ∷ [], d)
unfolding cut match_blank_line
cut-end d = refl

-- The first blank line is the one that closes the block.
cut-render :
    (l : Bytes) (ls : List Bytes) (rest : Bytes)
    → AreLines (l ∷ ls)
    → cut match_blank_line (render (l ∷ ls) ++ 13 ∷ 10 ∷ rest)
      ≡ some (render (l ∷ ls) ++ 13 ∷ 10 ∷ [], rest)
cut-render l [] rest h =
    rw
      (append_assoc l (13 ∷ 10 ∷ []) (13 ∷ 10 ∷ rest), append_assoc l (13 ∷ 10 ∷ []) (13 ∷ 10 ∷ []))
      (cut-line l (13 ∷ 10 ∷ 13 ∷ 10 ∷ rest) (IsLine-NoBreaks l h.0)
        ∙ ap (prepend l) (cut-end rest))
cut-render l (m ∷ ms) rest h =
    let next : Bytes = 13 ∷ 10 ∷ render ms in
    let open_end : Bytes = 13 ∷ 10 ∷ rest in
    rw
      (
        append_assoc l (13 ∷ 10 ∷ render (m ∷ ms)) open_end,
        append_assoc l (13 ∷ 10 ∷ render (m ∷ ms)) (13 ∷ 10 ∷ []),
      )
      (cut-line l (13 ∷ 10 ∷ render (m ∷ ms) ++ open_end) (IsLine-NoBreaks l h.0)
        ∙ ap (prepend l) (
            ap (λ d. cut match_blank_line (13 ∷ 10 ∷ d)) (append_assoc m next open_end)
            ∙ cut-next m (next ++ open_end) h.1.0
            ∙ ap (λ d. prepend (13 ∷ 10 ∷ []) (cut match_blank_line d))
                (sym (append_assoc m next open_end))
            ∙ ap (prepend (13 ∷ 10 ∷ [])) (cut-render m ms rest h.1)))

-- Splitting at the newlines gives the lines back, each with its `\r`.
split-line : (l : Bytes) → NoBreaks l → split 10 (l ++ 13 ∷ []) ≡ (l ++ 13 ∷ []) ∷ []
unfolding split
split-line [] h = refl
split-line (x ∷ xs) h = rw (split-line xs h.2) (ground arith)

strip_cr-line : (l : Bytes) → strip_cr (l ++ 13 ∷ []) ≡ l
unfolding strip_cr
strip_cr-line [] = refl
strip_cr-line (x ∷ []) = refl
strip_cr-line (x ∷ y ∷ r) = ap (λ t. x ∷ t) (strip_cr-line (y ∷ r))

split-render :
    (ls : List Bytes)
    → AreLines ls
    → map strip_cr (split 10 (render ls ++ 13 ∷ 10 ∷ [])) ≡ ls ++ [] ∷ [] ∷ []
split-render [] h = unfold split strip_cr in refl
split-render (l ∷ ls) h =
    let tail : Bytes = render ls ++ 13 ∷ 10 ∷ [] in
    ap (λ d. map strip_cr (split 10 d))
      (append_assoc l (13 ∷ 10 ∷ render ls) (13 ∷ 10 ∷ [])
        ∙ sym (append_assoc l (13 ∷ []) (10 ∷ tail)))
    ∙ ap (map strip_cr) (split-append 10 (l ++ 13 ∷ []) tail)
    ∙ ap (λ x. map strip_cr (x ++ split 10 tail)) (split-line l (IsLine-NoBreaks l h.0))
    ∙ rw (strip_cr-line l) (ap (λ t. l ∷ t) (split-render ls h.1))

lines_of-render : (ls : List Bytes) → AreLines ls → lines_of (render ls ++ 13 ∷ 10 ∷ []) ≡ ok ls
unfolding lines_of
lines_of-render ls h = ap drop_blank_pair (split-render ls h) ∙ drop_blank_pair-append ls

-- A line that is not empty is neither of the two empty lines that are tested for.
differs : (x y : ℕ) → x ≢ y → (x == y) ≡ false
differs x y h = ground arith

plain_lines-nonempty :
    (x : ℕ) (d : Bytes)
    → x ≢ 10
    → x ≢ 13
    → plain_lines (x ∷ d) ≡ blank_line_of (x ∷ d) (cut match_blank_line (x ∷ d))
unfolding plain_lines
plain_lines-nonempty x d h k = rw (differs x 10 h, differs x 13 k)

plain_lines-render :
    (ls : List Bytes) (rest : Bytes)
    → AreLines ls
    → plain_lines (render ls ++ 13 ∷ 10 ∷ rest) ≡ (ok (some ls), rest)
plain_lines-render [] rest h = unfold plain_lines in refl
plain_lines-render ([] ∷ ls) rest h = absurd h.0
plain_lines-render ((x ∷ xs) ∷ ls) rest h =
    plain_lines-nonempty x ((xs ++ 13 ∷ 10 ∷ render ls) ++ 13 ∷ 10 ∷ rest) h.0.0 h.0.1
    ∙ ap (blank_line_of (render ((x ∷ xs) ∷ ls) ++ 13 ∷ 10 ∷ rest)) (cut-render (x ∷ xs) ls rest h)
    ∙ ap (λ (r : Result (List Bytes)). (lift r >>= λ lines. pure (some lines)) rest)
        (lines_of-render ((x ∷ xs) ∷ ls) h)

-- Lines that are not empty and have no CR or LF, each written with CR LF, and closed by an empty
-- line, are what `maybe_extract_lines` gives of any buffer that holds them and whose search
-- positions have passed no match; whatever follows them stays in the buffer.
pub lines-render :
    (b : ReceiveBuffer) (ls : List Bytes) (rest : Bytes)
    → IsCached b
    → b.bytes ≡ render ls ++ 13 ∷ 10 ∷ rest
    → AreLines ls
    → view (maybe_extract_lines b) ≡ (ok (some ls), rest)
lines-render b ls rest c e h = rw (lines-view b c, e) (plain_lines-render ls rest h)
