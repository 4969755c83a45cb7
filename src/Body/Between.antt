-- ===== src/Body/Between.antt =====
-- `ChunkedReader` (h11/_readers.py) between two chunks: what it discards, and the reads that it
-- makes of its buffer.
use h.Prelude.{
  ℕ, ◌≡◌, refl, sym, ap, ◌∙◌, subst, ◌⊎◌, inl, inr, Bool, true, false, some, [], ◌∷◌, ◌++◌,
}
use h.Prelude.Lists.{length}
use h.Prelude.Bytes.{Bytes, to_hexadecimal}
use h.Prelude.Exec.{Result, ok, ◌>>=◌}
use h.Buffer.Defs.{ReceiveBuffer, maybe_extract_at_most, maybe_extract_next_line}
use h.Buffer.Plain.{plain_next_line, plain_at_most, view}
use h.Buffer.Cache.{IsCached, at_most-view, at_most-IsCached, next_line-view, next_line-IsCached}
use h.Readers.Defs.{ChunkedReader, Reading, read_chunked, discard, refill, after_refill}
use h.Body.Digits.{all-to_hexadecimal}
use h.Body.Header.{plain_next_line-digits, plain_at_most-block}

-- A read that succeeded: its value, and the bytes that are left in a buffer that is still cached.
pub record Reads {A : Type 0} (p : Result A × ReceiveBuffer) (a : A) (d : Bytes) : Type 0 where
  pub value : p.0 ≡ ok a
  pub left : p.1.bytes ≡ d
  pub cached : IsCached p.1

Reads-view :
    {A : Type 0} (p : Result A × ReceiveBuffer) (a : A) (d : Bytes)
    → view p ≡ (ok a, d)
    → IsCached p.1
    → Reads p a d
Reads-view p a d e c = record { value = ap (λ q. q.0) e; left = ap (λ q. q.1) e; cached = c }

pub Reads-block :
    (x : ℕ) (a r : Bytes) (b : ReceiveBuffer)
    → IsCached b
    → b.bytes ≡ (x ∷ a) ++ r
    → Reads (maybe_extract_at_most (length (x ∷ a)) b) (some (x ∷ a)) r
Reads-block x a r b c e =
    Reads-view _ _ _
      (at_most-view (length (x ∷ a)) b
        ∙ ap (plain_at_most (length (x ∷ a))) e
        ∙ plain_at_most-block x a r)
      (at_most-IsCached (length (x ∷ a)) b c)

pub Reads-header :
    (n : ℕ) (d : Bytes) (b : ReceiveBuffer)
    → IsCached b
    → b.bytes ≡ to_hexadecimal n ++ 13 ∷ 10 ∷ d
    → Reads (maybe_extract_next_line b) (some (to_hexadecimal n ++ 13 ∷ 10 ∷ [])) d
Reads-header n d b c e =
    Reads-view _ _ _
      (next_line-view b c
        ∙ ap plain_next_line e
        ∙ plain_next_line-digits (to_hexadecimal n) d (all-to_hexadecimal n))
      (next_line-IsCached b c)

-- A reader between two chunks, with `d` to come: the end of the last chunk is still to be
-- discarded, or there is none.
abbrev pub before_chunk : ℕ → ChunkedReader
before_chunk n = record { bytes_in_chunk = 0; bytes_to_discard = n; reading_trailer = false }

pub record IsBetween (s : Reading ChunkedReader) (d : Bytes) : Type 0 where
  pub cached : IsCached s.1
  pub place :
      ((s.0 ≡ before_chunk 0) × (s.1.bytes ≡ d))
      ⊎ ((s.0 ≡ before_chunk 2) × (s.1.bytes ≡ 13 ∷ 10 ∷ d))

-- The reader goes on at the next chunk.
pub record Ready (p : Result Bool × Reading ChunkedReader) (d : Bytes) : Type 0 where
  pub value : p.0 ≡ ok true
  pub reader : p.1.0 ≡ before_chunk 0
  pub left : p.1.1.bytes ≡ d
  pub cached : IsCached p.1.1

discard_none :
    (b : ReceiveBuffer) (d : Bytes)
    → IsCached b
    → b.bytes ≡ d
    → Ready (discard (before_chunk 0, b)) d
unfolding discard
discard_none b d c e = record { value = refl; reader = refl; left = e; cached = c }

discard_two :
    (b : ReceiveBuffer) (d : Bytes)
    → IsCached b
    → b.bytes ≡ 13 ∷ 10 ∷ d
    → Ready (discard (before_chunk 2, b)) d
unfolding discard
discard_two b d c e =
    let k = Reads-block 13 (10 ∷ []) d b c e in
    record {
      value = rw (k.value);
      reader = rw (k.value);
      left = rw (k.value) (k.left);
      cached = rw (k.value) (k.cached);
    }

discard-Ready :
    (r : ChunkedReader) (b : ReceiveBuffer) (d : Bytes)
    → IsBetween (r, b) d
    → Ready (discard (r, b)) d
discard-Ready r b d h = elim h.place [
  | inl (e, l) ↦ subst (λ q. Ready (discard (q, b)) d) (sym e) (discard_none b d h.cached l)
  | inr (e, l) ↦ subst (λ q. Ready (discard (q, b)) d) (sym e) (discard_two b d h.cached l)
]

-- Between two chunks the reader is in no trailer, and discards before it goes on.
read_at-Ready :
    (n : ℕ) (b : ReceiveBuffer) (d : Bytes)
    → Ready (discard (before_chunk n, b)) d
    → read_chunked (before_chunk n, b)
      ≡ (refill >>= after_refill) (before_chunk 0, (discard (before_chunk n, b)).1.1)
unfolding read_chunked
read_at-Ready n b d k =
    rw (k.value, k.reader)
      (ap (λ r. (refill >>= after_refill) (r, (discard (before_chunk n, b)).1.1)) k.reader)

-- The buffer of a reader that is ready, and the reads that it makes there.
pub record Goes (s : Reading ChunkedReader) (d : Bytes) : Type 0 where
  pub buffer : ReceiveBuffer
  pub cached : IsCached buffer
  pub left : buffer.bytes ≡ d
  pub reads : read_chunked s ≡ (refill >>= after_refill) (before_chunk 0, buffer)

Goes-at :
    (n : ℕ) (b : ReceiveBuffer) (d : Bytes)
    → Ready (discard (before_chunk n, b)) d
    → Goes (before_chunk n, b) d
Goes-at n b d k = record {
  buffer = (discard (before_chunk n, b)).1.1;
  cached = k.cached;
  left = k.left;
  reads = read_at-Ready n b d k;
}

pub between-Goes :
    (r : ChunkedReader) (b : ReceiveBuffer) (d : Bytes) → IsBetween (r, b) d → Goes (r, b) d
between-Goes r b d h = elim h.place [
  | inl (e, l) ↦ subst (λ q. Goes (q, b) d) (sym e) (Goes-at 0 b d (discard_none b d h.cached l))
  | inr (e, l) ↦ subst (λ q. Goes (q, b) d) (sym e) (Goes-at 2 b d (discard_two b d h.cached l))
]
