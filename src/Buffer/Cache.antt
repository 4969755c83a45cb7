-- ===== src/Buffer/Cache.antt =====
-- How far the receive buffer (h11/_receivebuffer.py) has searched: one call with that cache,
-- against one without.
use mathlib.Core.List.{append_assoc, append-nil}
use native.Mathlib.Decide.{dec_lt}
use h.Prelude.{
  ℕ, zero, suc, ◌+◌, ◌-◌, ◌≤◌, ◌≡◌, refl, Bool, true, false, if◌then◌else◌, Option, none, some,
  List, [], ◌∷◌, ◌++◌, arith, sym, inl, inr, ◌⊎◌,
}
use h.Prelude.Lists.{length, drop, take}
use h.Prelude.Bytes.{Bytes, bytes_eq}
use h.Prelude.Exec.{lift, Result, ok, err, pure, ◌>>=◌}
use h.Buffer.Search.{
  match_crlf, match_blank_line, search, search_from, search_skip, search_from-zero,
  match_crlf-LooksAt, match_blank_line-LooksAt,
}
use h.Buffer.Defs.{
  ReceiveBuffer, append, extract, maybe_extract_at_most, extract_unless_empty,
  maybe_extract_next_line, line_at, lines_of, lines_at, maybe_extract_lines,
}
use h.Buffer.Plain.{
  cut_at, cut-search, IsPair, search-IsPair, plain_at_most, plain_line_of, plain_next_line,
  blank_line_of, plain_lines, view,
}

-- The searches may begin where the buffer says, now and when more bytes have arrived.
pub record IsCached (b : ReceiveBuffer) : Type 0 where
  pub next_line :
      (more : Bytes)
      → search match_crlf (b.bytes ++ more)
        ≡ search_from match_crlf (b.next_line_search - 1) (b.bytes ++ more)
  pub blank_line :
      (more : Bytes)
      → search match_blank_line (b.bytes ++ more)
        ≡ search_from match_blank_line b.multiple_lines_search (b.bytes ++ more)

pub fresh-IsCached :
    (d : Bytes) → IsCached (record { bytes = d; next_line_search = 0; multiple_lines_search = 0 })
fresh-IsCached d = record {
  next_line = λ more. sym (search_from-zero match_crlf (d ++ more));
  blank_line = λ more. sym (search_from-zero match_blank_line (d ++ more));
}

pub append-IsCached : (more : Bytes) (b : ReceiveBuffer) → IsCached b → IsCached (append more b)
unfolding append
append-IsCached more b c = record {
  next_line = λ r. rw (append_assoc b.bytes more r) (c.next_line (more ++ r));
  blank_line = λ r. rw (append_assoc b.bytes more r) (c.blank_line (more ++ r));
}

extract-view :
    (count : ℕ) (d : Bytes) (k l : ℕ)
    → let b : ReceiveBuffer = record {
      bytes = d;
      next_line_search = k;
      multiple_lines_search = l;
    } in
      view (extract_unless_empty (take count d) count b) ≡ plain_at_most count d
unfolding extract plain_at_most
extract-view zero [] k l = refl
extract-view (suc n) [] k l = refl
extract-view zero (x ∷ d) k l = refl
extract-view (suc n) (x ∷ d) k l = refl

pub at_most-view :
    (count : ℕ) (b : ReceiveBuffer)
    → view (maybe_extract_at_most count b) ≡ plain_at_most count b.bytes
unfolding maybe_extract_at_most
at_most-view count b = extract-view count b.bytes b.next_line_search b.multiple_lines_search

extract-IsCached :
    (out : Bytes) (count : ℕ) (b : ReceiveBuffer)
    → IsCached b
    → IsCached (extract_unless_empty out count b).1
unfolding extract
extract-IsCached [] count b c = c
extract-IsCached (x ∷ out) count b c = fresh-IsCached (drop count b.bytes)

pub at_most-IsCached :
    (count : ℕ) (b : ReceiveBuffer) → IsCached b → IsCached (maybe_extract_at_most count b).1
unfolding maybe_extract_at_most
at_most-IsCached count b c = extract-IsCached (take count b.bytes) count b c

-- How far back a search must begin again.
room : (k n : ℕ) → (n - k ≡ 0) ⊎ (n - k + suc k ≤ n + 1)
room k n = elim (dec_lt k n) [ yes p ↦ inr (omega arith) | no p ↦ inl (omega arith) ]

-- The search with the cache is the search of everything.
next_line_found :
    (b : ReceiveBuffer)
    → IsCached b
    → search_from match_crlf (b.next_line_search - 1) b.bytes ≡ search match_crlf b.bytes
next_line_found b c = sym (rw (append-nil b.bytes) at (c.next_line []))

blank_line_found :
    (b : ReceiveBuffer)
    → IsCached b
    → search_from match_blank_line b.multiple_lines_search b.bytes ≡ search match_blank_line b.bytes
blank_line_found b c = sym (rw (append-nil b.bytes) at (c.blank_line []))

line_at-view :
    (o : Option (ℕ × ℕ)) (b : ReceiveBuffer)
    → IsPair o
    → view (line_at o b) ≡ plain_line_of b.bytes (cut_at b.bytes o)
unfolding extract
line_at-view none b h = refl
line_at-view (some (i, e)) b h = rw h refl

pub next_line-view :
    (b : ReceiveBuffer) → IsCached b → view (maybe_extract_next_line b) ≡ plain_next_line b.bytes
unfolding maybe_extract_next_line plain_next_line
next_line-view b c =
    rw (next_line_found b c, cut-search match_crlf b.bytes)
      (line_at-view (search match_crlf b.bytes) b (search-IsPair b.bytes))

line_at-IsCached :
    (o : Option (ℕ × ℕ)) (b : ReceiveBuffer)
    → search match_crlf b.bytes ≡ o
    → IsCached b
    → IsCached (line_at o b).1
unfolding extract
line_at-IsCached none b h c = record {
  next_line = λ more.
      search_skip 2 match_crlf (length b.bytes - 1) b.bytes more (omega arith) match_crlf-LooksAt h
        (room 1 (length b.bytes));
  blank_line = c.blank_line;
}
line_at-IsCached (some (i, e)) b h c = fresh-IsCached (drop (i + 2) b.bytes)

pub next_line-IsCached : (b : ReceiveBuffer) → IsCached b → IsCached (maybe_extract_next_line b).1
unfolding maybe_extract_next_line
next_line-IsCached b c =
    rw (next_line_found b c) (line_at-IsCached (search match_crlf b.bytes) b refl c)

-- A buffer of which nothing has been searched.
abbrev fresh : Bytes → ReceiveBuffer
fresh d = record { bytes = d; next_line_search = 0; multiple_lines_search = 0 }

lines_returned :
    (r : Result (List Bytes)) (d : Bytes)
    → (view ((lift r >>= λ lines. pure (some lines)) (fresh d))
        ≡ (lift r >>= λ lines. pure (some lines)) d)
      × IsCached ((lift r >>= λ lines. pure (some lines)) (fresh d)).1
lines_returned (ok ls) d = (refl, fresh-IsCached d)
lines_returned (err e) d = (refl, fresh-IsCached d)

lines_at-view :
    (o : Option (ℕ × ℕ)) (b : ReceiveBuffer)
    → view (lines_at o b) ≡ blank_line_of b.bytes (cut_at b.bytes o)
unfolding extract
lines_at-view none b = refl
lines_at-view (some (i, e)) b = (lines_returned (lines_of (take e b.bytes)) (drop e b.bytes)).0

lines_at-IsCached :
    (o : Option (ℕ × ℕ)) (b : ReceiveBuffer)
    → search match_blank_line b.bytes ≡ o
    → IsCached b
    → IsCached (lines_at o b).1
unfolding extract
lines_at-IsCached none b h c = record {
  next_line = c.next_line;
  blank_line = λ more.
      search_skip 3 match_blank_line (length b.bytes - 2) b.bytes more (omega arith)
        match_blank_line-LooksAt h (room 2 (length b.bytes));
}
lines_at-IsCached (some (i, e)) b h c =
    (lines_returned (lines_of (take e b.bytes)) (drop e b.bytes)).1

-- The tests for an empty line at the start.
module _ {A : Type 0} where
  branch-view :
      (p q : Bool) (x y z : Result A × ReceiveBuffer) {x' y' z' : Result A × Bytes}
      → view x ≡ x'
      → view y ≡ y'
      → view z ≡ z'
      → view (if p then x else if q then y else z) ≡ (if p then x' else if q then y' else z')
  branch-view true q x y z u v w = u
  branch-view false true x y z u v w = v
  branch-view false false x y z u v w = w

  branch-IsCached :
      (p q : Bool) (x y z : Result A × ReceiveBuffer)
      → IsCached x.1
      → IsCached y.1
      → IsCached z.1
      → IsCached (if p then x else if q then y else z).1
  branch-IsCached true q x y z u v w = u
  branch-IsCached false true x y z u v w = v
  branch-IsCached false false x y z u v w = w

pub lines-view :
    (b : ReceiveBuffer) → IsCached b → view (maybe_extract_lines b) ≡ plain_lines b.bytes
unfolding maybe_extract_lines plain_lines extract
lines-view b c =
    branch-view (bytes_eq (take 1 b.bytes) (10 ∷ [])) (bytes_eq (take 2 b.bytes) (13 ∷ 10 ∷ []))
      (ok (some []), fresh (drop 1 b.bytes)) (ok (some []), fresh (drop 2 b.bytes))
      (lines_at (search_from match_blank_line b.multiple_lines_search b.bytes) b) refl refl
      (rw (blank_line_found b c, cut-search match_blank_line b.bytes)
        (lines_at-view (search match_blank_line b.bytes) b))

pub lines-IsCached : (b : ReceiveBuffer) → IsCached b → IsCached (maybe_extract_lines b).1
unfolding maybe_extract_lines extract
lines-IsCached b c =
    branch-IsCached (bytes_eq (take 1 b.bytes) (10 ∷ [])) (bytes_eq (take 2 b.bytes) (13 ∷ 10 ∷ []))
      (ok (some []), fresh (drop 1 b.bytes)) (ok (some []), fresh (drop 2 b.bytes))
      (lines_at (search_from match_blank_line b.multiple_lines_search b.bytes) b)
      (fresh-IsCached (drop 1 b.bytes)) (fresh-IsCached (drop 2 b.bytes))
      (rw (blank_line_found b c) (lines_at-IsCached (search match_blank_line b.bytes) b refl c))
