-- ===== src/Body/Header.antt =====
-- The header of a chunk, from `ChunkedWriter` (h11/_writers.py), under the grammar (h11/_abnf.py)
-- and in the receive buffer (h11/_receivebuffer.py).
use h.Prelude.{ℕ, ◌≤◌, ◌≡◌, refl, ap, ◌∙◌, Bool, true, false, none, some, [], ◌∷◌, ◌++◌, arith}
use h.Prelude.Lists.{take-length, drop-length, length}
use h.Prelude.Bytes.{Bytes, all_bytes, span}
use h.Prelude.Exec.{ok}
use h.Abnf.{is_hexdig, match_chunk_header}
use h.Buffer.Search.{match_crlf}
use h.Buffer.Plain.{cut, cons_first, plain_next_line, plain_at_most}
use h.Buffer.Lines.{cut-past}

span-all :
    (p : ℕ → Bool) (a : Bytes) (x : ℕ) (r : Bytes)
    → all_bytes p a ≡ true
    → p x ≡ false
    → span p (a ++ x ∷ r) ≡ (a, x ∷ r)
unfolding span all_bytes
span-all p [] x r h k = rw k
span-all p (y ∷ a) x r h k =
    let hy : (p y ≡ true) × (all_bytes p a ≡ true) = (ground arith, ground arith) in
    rw (span-all p a x r hy.1 k, hy.0)

-- The header's digits are its chunk size, up to the grammar's limit of twenty.
pub match_chunk_header-digits :
    (digits : Bytes)
    → all_bytes is_hexdig digits ≡ true
    → 1 ≤ length digits
    → length digits ≤ 20
    → match_chunk_header (digits ++ 13 ∷ 10 ∷ []) ≡ some digits
unfolding match_chunk_header
match_chunk_header-digits digits h lo hi =
    rw (span-all is_hexdig digits 13 (10 ∷ []) h refl) (ground arith)

hexdig_no_cr : (x : ℕ) (d : Bytes) → is_hexdig x ≡ true → match_crlf (x ∷ d) ≡ none
unfolding match_crlf
hexdig_no_cr x [] h = refl
hexdig_no_cr x (y ∷ d) h = ground arith

-- The first end of line behind hexadecimal digits is the one that follows them.
cut-digits :
    (digits d : Bytes)
    → all_bytes is_hexdig digits ≡ true
    → cut match_crlf (digits ++ 13 ∷ 10 ∷ d) ≡ some (digits ++ 13 ∷ 10 ∷ [], d)
cut-digits [] d h = unfold cut match_crlf in refl
cut-digits (x ∷ digits) d h =
    let hx : (is_hexdig x ≡ true) × (all_bytes is_hexdig digits ≡ true) =
      unfold all_bytes in (ground arith, ground arith) in
    cut-past match_crlf x (digits ++ 13 ∷ 10 ∷ d) (hexdig_no_cr x (digits ++ 13 ∷ 10 ∷ d) hx.0)
    ∙ ap (cons_first x) (cut-digits digits d hx.1)

pub plain_next_line-digits :
    (digits d : Bytes)
    → all_bytes is_hexdig digits ≡ true
    → plain_next_line (digits ++ 13 ∷ 10 ∷ d) ≡ (ok (some (digits ++ 13 ∷ 10 ∷ [])), d)
unfolding plain_next_line
plain_next_line-digits digits d h = rw (cut-digits digits d h)

-- Reading as many bytes as a block has takes the block.
pub plain_at_most-block :
    (x : ℕ) (a r : Bytes) → plain_at_most (length (x ∷ a)) ((x ∷ a) ++ r) ≡ (ok (some (x ∷ a)), r)
unfolding plain_at_most
plain_at_most-block x a r = rw (take-length a r, drop-length a r)
