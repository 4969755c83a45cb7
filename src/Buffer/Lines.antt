-- ===== src/Buffer/Lines.antt =====
-- What `maybe_extract_lines` (h11/_receivebuffer.py) takes: the lines of a header block.
use mathlib.Core.List.{map-append}
use h.Prelude.{
  ℕ, ◌≡◌, refl, Bool, true, false, ◌==◌, if◌then◌else◌, Option, none, some, List, [], ◌∷◌, ◌++◌,
  map, arith, sym, ap, inl, inr, ◌⊎◌, Option-cases, Bool-cases, subst,
}
use h.Prelude.Lists.{drop, take}
use h.Prelude.Bytes.{Bytes, bytes_eq, split, add_to_first}
use h.Prelude.Exec.{Result, ok, err}
use h.Buffer.Search.{Matcher, match_blank_line}
use h.Buffer.Defs.{ReceiveBuffer, maybe_extract_lines, lines_of, strip_cr, drop_blank_pair}
use h.Buffer.Plain.{cons_first, cut, blank_line_of, plain_lines}
use h.Buffer.Cache.{IsCached, lines-view}

split-cons : (sep : ℕ) (p : Bytes) → (a : Bytes) × (r : List Bytes) × (split sep p ≡ a ∷ r)
unfolding split
split-cons sep [] = ([], [], refl)
split-cons sep (x ∷ xs) =
    let (a, r, e) = split-cons sep xs in
    elim (Bool-cases (x == sep)) [
      | inl t ↦ ([], split sep xs, rw t)
      | inr f ↦ (x ∷ a, r, rw (f, e))
    ]

add_to_first-append :
    (x : ℕ) (a : Bytes) (r ls : List Bytes)
    → add_to_first x (a ∷ r) ++ ls ≡ add_to_first x ((a ∷ r) ++ ls)
add_to_first-append x a r ls = refl

pub split-append : (sep : ℕ) (p s : Bytes) → split sep (p ++ sep ∷ s) ≡ split sep p ++ split sep s
unfolding split
split-append sep [] s = ground arith
split-append sep (x ∷ xs) s =
    let (a, r, e) = split-cons sep xs in
    let ih = split-append sep xs s in
    elim (Bool-cases (x == sep)) [
      | inl t ↦ rw t (ap (λ ls. [] ∷ ls) ih)
      | inr f ↦ rw f (rw ih (rw e refl))
    ]

pub drop_blank_pair-append : (ls : List Bytes) → drop_blank_pair (ls ++ [] ∷ [] ∷ []) ≡ ok ls
unfolding drop_blank_pair
drop_blank_pair-append [] = refl
drop_blank_pair-append (a ∷ []) = refl
drop_blank_pair-append (a ∷ b ∷ []) = refl
drop_blank_pair-append (a ∷ b ∷ c ∷ ls) = rw (drop_blank_pair-append (b ∷ c ∷ ls))

-- A block that ends in a blank line, in either form, has the lines before it.
lines_of-lf : (p : Bytes) → lines_of (p ++ 10 ∷ 10 ∷ []) ≡ ok (map strip_cr (split 10 p))
unfolding lines_of
lines_of-lf p =
    rw (split-append 10 p (10 ∷ []), map-append)
      (drop_blank_pair-append (map strip_cr (split 10 p)))

lines_of-crlf : (p : Bytes) → lines_of (p ++ 10 ∷ 13 ∷ 10 ∷ []) ≡ ok (map strip_cr (split 10 p))
unfolding lines_of
lines_of-crlf p =
    rw (split-append 10 p (13 ∷ 10 ∷ []), map-append)
      (drop_blank_pair-append (map strip_cr (split 10 p)))

-- What a match of `\n\r?\n` takes.
abbrev EndsBlank : Bytes → Type 0
EndsBlank out =
    ((p : Bytes) × (out ≡ p ++ 10 ∷ 10 ∷ [])) ⊎ ((p : Bytes) × (out ≡ p ++ 10 ∷ 13 ∷ 10 ∷ []))

abbrev CutEnds : Option (Bytes × Bytes) → Type 0
CutEnds none = Unit {0}
CutEnds (some (out, rest)) = EndsBlank out

EndsBlank-cons : (x : ℕ) (out : Bytes) → EndsBlank out → EndsBlank (x ∷ out)
EndsBlank-cons x out (inl (p, e)) = inl (x ∷ p, ap (λ t. x ∷ t) e)
EndsBlank-cons x out (inr (p, e)) = inr (x ∷ p, ap (λ t. x ∷ t) e)

CutEnds-cons : (x : ℕ) (o : Option (Bytes × Bytes)) → CutEnds o → CutEnds (cons_first x o)
CutEnds-cons x none h = tt
CutEnds-cons x (some (a, b)) h = EndsBlank-cons x a h

pub cut-hit :
    (m : Matcher) (x : ℕ) (xs : Bytes) {n : ℕ}
    → m (x ∷ xs) ≡ some n
    → cut m (x ∷ xs) ≡ some (take n (x ∷ xs), drop n (x ∷ xs))
unfolding cut
cut-hit m x xs h = rw (h, cut)

pub cut-past :
    (m : Matcher) (x : ℕ) (xs : Bytes)
    → m (x ∷ xs) ≡ none
    → cut m (x ∷ xs) ≡ cons_first x (cut m xs)
unfolding cut
cut-past m x xs h = rw (h, cut)

blank_line_shape :
    (d : Bytes) (n : ℕ)
    → match_blank_line d ≡ some n
    → ((n ≡ 2) × (take 2 d ≡ 10 ∷ 10 ∷ [])) ⊎ ((n ≡ 3) × (take 3 d ≡ 10 ∷ 13 ∷ 10 ∷ []))
unfolding match_blank_line
blank_line_shape [] n h = cc
blank_line_shape (x ∷ []) n h = ground arith
blank_line_shape (x ∷ y ∷ []) n h = ground arith
blank_line_shape (x ∷ y ∷ z ∷ r) n h = ground arith

blank_line_taken : (d : Bytes) (n : ℕ) → match_blank_line d ≡ some n → EndsBlank (take n d)
blank_line_taken d n h = elim (blank_line_shape d n h) [
  | inl (two, t) ↦ inl ([], rw two t)
  | inr (three, t) ↦ inr ([], rw three t)
]

cut-ends : (d : Bytes) → CutEnds (cut match_blank_line d)
cut-ends [] = unfold cut in tt
cut-ends (x ∷ xs) = elim (Option-cases (match_blank_line (x ∷ xs))) [
  | inl e ↦
      subst CutEnds (sym (cut-past match_blank_line x xs e))
        (CutEnds-cons x (cut match_blank_line xs) (cut-ends xs))
  | inr (n, e) ↦
      subst CutEnds (sym (cut-hit match_blank_line x xs e)) (blank_line_taken (x ∷ xs) n e)
]

lines_of-ends : (out : Bytes) → EndsBlank out → (ls : List Bytes) × (lines_of out ≡ ok ls)
lines_of-ends out (inl (p, e)) = (map strip_cr (split 10 p), rw e (lines_of-lf p))
lines_of-ends out (inr (p, e)) = (map strip_cr (split 10 p), rw e (lines_of-crlf p))

abbrev Returns : Result (Option (List Bytes)) → Type 0
Returns (ok o) = Unit {0}
Returns (err e) = ⊥

blank_line_of-Returns :
    (d : Bytes) (o : Option (Bytes × Bytes)) → CutEnds o → Returns (blank_line_of d o).0
blank_line_of-Returns d none h = tt
blank_line_of-Returns d (some (out, rest)) h = rw ((lines_of-ends out h).1) tt

branch-Returns :
    (p q : Bool) (x y z : Result (Option (List Bytes)) × Bytes)
    → Returns x.0
    → Returns y.0
    → Returns z.0
    → Returns (if p then x else if q then y else z).0
branch-Returns true q x y z u v w = u
branch-Returns false true x y z u v w = v
branch-Returns false false x y z u v w = w

plain_lines-Returns : (d : Bytes) → Returns (plain_lines d).0
unfolding plain_lines
plain_lines-Returns d =
    branch-Returns (bytes_eq (take 1 d) (10 ∷ [])) (bytes_eq (take 2 d) (13 ∷ 10 ∷ []))
      (ok (some []), drop 1 d) (ok (some []), drop 2 d) (blank_line_of d (cut match_blank_line d))
      tt tt (blank_line_of-Returns d (cut match_blank_line d) (cut-ends d))

Returns-ok : (r : Result (Option (List Bytes))) → Returns r → (o : Option (List Bytes)) × (r ≡ ok o)
Returns-ok (ok o) h = (o, refl)
Returns-ok (err e) h = absurd h

-- In a buffer whose search positions have passed no match, whatever its bytes,
-- `maybe_extract_lines` raises nothing: neither the assertion on the last two lines nor their
-- subscripts can fail.
pub lines_never_raise :
    (b : ReceiveBuffer)
    → IsCached b
    → (o : Option (List Bytes)) × ((maybe_extract_lines b).0 ≡ ok o)
lines_never_raise b c =
    Returns-ok (maybe_extract_lines b).0
      (subst Returns (sym (ap (λ p. p.0) (lines-view b c))) (plain_lines-Returns b.bytes))
