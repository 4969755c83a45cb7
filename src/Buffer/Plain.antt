-- ===== src/Buffer/Plain.antt =====
-- What a receive buffer (h11/_receivebuffer.py) answers, over its bytes alone: a reference with no
-- cache.
use h.Prelude.{
  ℕ, zero, suc, ◌+◌, ◌≡◌, refl, if◌then◌else◌, Option, none, some, List, [], ◌∷◌, arith, ◌∙◌, sym,
  subst, ap, inl, inr, Option-cases,
}
use h.Prelude.Lists.{drop, take}
use h.Prelude.Bytes.{Bytes, bytes_eq}
use h.Prelude.Exec.{lift, Result, ok, Exec, pure, ◌>>=◌}
use h.Buffer.Search.{Matcher, match_crlf, match_blank_line, search, shift, search_past, search_hit}
use h.Buffer.Defs.{ReceiveBuffer, lines_of}

abbrev pub cons_first : ℕ → Option (Bytes × Bytes) → Option (Bytes × Bytes)
cons_first x none = none
cons_first x (some (a, b)) = some (x ∷ a, b)

-- The bytes up to the leftmost match and with it, and the bytes behind it.
unfoldable pub cut : Matcher → Bytes → Option (Bytes × Bytes)
cut m [] = none
cut m (x ∷ xs) =
    let rest = cons_first x (cut m xs) in
    elim (m (x ∷ xs)) [ some n ↦ some (take n (x ∷ xs), drop n (x ∷ xs)) | none ↦ rest ]

abbrev pub cut_at : Bytes → Option (ℕ × ℕ) → Option (Bytes × Bytes)
cut_at d none = none
cut_at d (some (i, e)) = some (take e d, drop e d)

cut_at-shift :
    (x : ℕ) (d : Bytes) (o : Option (ℕ × ℕ))
    → cons_first x (cut_at d o) ≡ cut_at (x ∷ d) (shift 1 o)
cut_at-shift x d none = refl
cut_at-shift x d (some (i, e)) = let q : 1 + e ≡ suc e = omega arith in rw q

pub cut-search : (m : Matcher) (d : Bytes) → cut m d ≡ cut_at d (search m d)
unfolding cut search
cut-search m [] = refl
cut-search m (x ∷ xs) = elim (Option-cases (m (x ∷ xs))) [
  | inl e ↦
      rw (e, cut, search) (ap (cons_first x) (cut-search m xs) ∙ cut_at-shift x xs (search m xs))
  | inr (n, e) ↦ rw (e, cut, search)
]

-- Every match of `\r\n` is two bytes long.
abbrev pub IsPair : Option (ℕ × ℕ) → Type 0
IsPair none = Unit {0}
IsPair (some (i, e)) = i + 2 ≡ e

shift-IsPair : (o : Option (ℕ × ℕ)) → IsPair o → IsPair (shift 1 o)
shift-IsPair none h = tt
shift-IsPair (some (i, e)) h = omega arith

match_crlf_two : (d : Bytes) {n : ℕ} → match_crlf d ≡ some n → 2 ≡ n
unfolding match_crlf
match_crlf_two [] h = cc
match_crlf_two (x ∷ []) h = cc
match_crlf_two (x ∷ y ∷ r) h = ground arith

pub search-IsPair : (d : Bytes) → IsPair (search match_crlf d)
search-IsPair [] = unfold search in tt
search-IsPair (x ∷ xs) = elim (Option-cases (match_crlf (x ∷ xs))) [
  | inl e ↦
      subst IsPair (sym (search_past match_crlf x xs e))
        (shift-IsPair (search match_crlf xs) (search-IsPair xs))
  | inr (n, e) ↦
      subst IsPair (sym (search_hit match_crlf x xs e)) (omega (arith, match_crlf_two (x ∷ xs) e))
]

-- What the calls answer, and the bytes that stay, over the bytes alone.
unfoldable pub plain_at_most : ℕ → Exec Bytes (Option Bytes)
plain_at_most count [] = (ok none, [])
plain_at_most zero d = (ok none, d)
plain_at_most (suc n) (x ∷ d) = (ok (some (x ∷ take n d)), drop n d)

abbrev pub plain_line_of : Bytes → Option (Bytes × Bytes) → Result (Option Bytes) × Bytes
plain_line_of d none = (ok none, d)
plain_line_of d (some (line, rest)) = (ok (some line), rest)

unfoldable pub plain_next_line : Exec Bytes (Option Bytes)
plain_next_line d = plain_line_of d (cut match_crlf d)

-- The lines up to the first blank line, which is taken with them.
abbrev pub blank_line_of : Bytes → Option (Bytes × Bytes) → Result (Option (List Bytes)) × Bytes
blank_line_of d none = (ok none, d)
blank_line_of d (some (out, rest)) = (lift (lines_of out) >>= λ lines. pure (some lines)) rest

unfoldable pub plain_lines : Exec Bytes (Option (List Bytes))
plain_lines d =
    if bytes_eq (take 1 d) (10 ∷ [])
    then (ok (some []), drop 1 d)
    else if bytes_eq (take 2 d) (13 ∷ 10 ∷ [])
    then (ok (some []), drop 2 d)
    else blank_line_of d (cut match_blank_line d)

-- What the calls see of the buffer.
abbrev pub view {ℓ} : {A : Type ℓ} → Result A × ReceiveBuffer → Result A × Bytes
view (r, b) = (r, b.bytes)
