-- ===== src/Body/Chunk.antt =====
-- One chunk, as `ChunkedWriter` (h11/_writers.py) writes it, in `ChunkedReader` (h11/_readers.py).
use mathlib.Core.List.{append_assoc}
use h.Prelude.{
  ℕ, ◌-◌, ◌<◌, ◌^◌, ◌≡◌, refl, sym, ap, ◌∙◌, subst, inr, true, false, ◌==◌, Option, some, [], ◌∷◌,
  ◌++◌, arith, lt→ltb,
}
use h.Prelude.Lists.{length}
use h.Prelude.Bytes.{Bytes, to_hexadecimal}
use h.Prelude.Exec.{Result, ok, continue}
use h.Abnf.{match_chunk_header, validate}
use h.Buffer.Defs.{ReceiveBuffer, maybe_extract_at_most, maybe_extract_next_line}
use h.Buffer.Cache.{IsCached}
use h.Events.{Event, data_event}
use h.Readers.Defs.{
  ChunkedReader, Reading, read_chunked, refill, after_refill, in_chunk, chunk_size_read, chunk_read,
}
use h.Writers.Defs.{join, chunked_send_data}
use h.Body.Digits.{
  all-to_hexadecimal, length-to_hexadecimal, to_hexadecimal-nonempty, hexadecimal-to_hexadecimal,
}
use h.Body.Header.{match_chunk_header-digits}
use h.Body.Between.{Reads-block, Reads-header, before_chunk, IsBetween, between-Goes}

-- A chunk size of at least one, up to the grammar's limit.
pub refill_lem :
    (n : ℕ) (d : Bytes) (b : ReceiveBuffer)
    → n < 16 ^ 20
    → IsCached b
    → b.bytes ≡ to_hexadecimal n ++ 13 ∷ 10 ∷ d
    → refill (before_chunk 0, b)
      ≡ chunk_size_read
          (some (to_hexadecimal n ++ 13 ∷ 10 ∷ []))
          (before_chunk 0, (maybe_extract_next_line b).1)
unfolding refill
refill_lem n d b h c e = rw ((Reads-header n d b c e).value)

pub size_read :
    (n : ℕ)
    → n < 16 ^ 20
    → validate (match_chunk_header (to_hexadecimal n ++ 13 ∷ 10 ∷ [])) ≡ ok (to_hexadecimal n)
size_read n h =
    rw
      (match_chunk_header-digits (to_hexadecimal n) (all-to_hexadecimal n)
        (to_hexadecimal-nonempty n) (length-to_hexadecimal 19 n h))
      (unfold validate in refl)

-- A reader that took a chunk: the event, and the reader between two chunks.
pub record TookChunk (p : Result (Option Event) × Reading ChunkedReader) (event : Event) (d : Bytes)
    : Type 0 where
  pub value : p.0 ≡ ok (some event)
  pub between : IsBetween p.1 d

pub whole_chunk : Bytes → Event
whole_chunk chunk = data_event (record { chunk = chunk; chunk_start = true; chunk_end = true })

abbrev at_chunk : ℕ → ChunkedReader
at_chunk n = record { bytes_in_chunk = n; bytes_to_discard = 0; reading_trailer = false }

size_starts_chunk :
    (n : ℕ) (b : ReceiveBuffer)
    → 0 < n
    → n < 16 ^ 20
    → chunk_size_read (some (to_hexadecimal n ++ 13 ∷ 10 ∷ [])) (before_chunk 0, b)
      ≡ (ok (in_chunk true), (at_chunk n, b))
size_starts_chunk n b lo hi =
    rw (size_read n hi, hexadecimal-to_hexadecimal n)
      (let q : (n == 0) ≡ false = ground arith in rw q)

sub_self : (n : ℕ) → n - n ≡ 0
sub_self n = omega arith

-- The whole of a chunk, in its place.
chunk_taken :
    (chunk : Bytes) (n : ℕ) (b : ReceiveBuffer)
    → length chunk ≡ n
    → chunk_read true (some chunk) (at_chunk n, b)
      ≡ (ok (some (whole_chunk chunk)), (before_chunk 2, b))
unfolding whole_chunk
chunk_taken chunk n b h = rw (h, sub_self n)

takes_from :
    (n : ℕ) (b : ReceiveBuffer)
    → 0 < n
    → after_refill (in_chunk true) (at_chunk n, b)
      ≡ continue
          (maybe_extract_at_most n b).0
          (chunk_read true)
          (at_chunk n, (maybe_extract_at_most n b).1)
takes_from n b h = rw (lt→ltb 0 n h)

takes_chunk :
    (x : ℕ) (a d : Bytes) (b : ReceiveBuffer)
    → IsCached b
    → b.bytes ≡ (x ∷ a) ++ 13 ∷ 10 ∷ d
    → TookChunk
        (after_refill (in_chunk true) (at_chunk (length (x ∷ a)), b))
        (whole_chunk (x ∷ a))
        d
takes_chunk x a d b c e =
    let n = length (x ∷ a) in
    let k = Reads-block x a (13 ∷ 10 ∷ d) b c e in
    let b' = (maybe_extract_at_most n b).1 in
    let q : after_refill (in_chunk true) (at_chunk n, b)
        ≡ (ok (some (whole_chunk (x ∷ a))), (before_chunk 2, b')) =
      takes_from n b (omega arith)
      ∙ ap (λ r. continue r (chunk_read true) (at_chunk n, b')) k.value
      ∙ chunk_taken (x ∷ a) n b' refl in
    subst (λ p. TookChunk p (whole_chunk (x ∷ a)) d) (sym q)
      (record { value = refl; between = record { cached = k.cached; place = inr (refl, k.left) } })

join_chunk :
    (x : ℕ) (a d : Bytes)
    → join (chunked_send_data (x ∷ a)) ++ d
      ≡ to_hexadecimal (length (x ∷ a)) ++ 13 ∷ 10 ∷ ((x ∷ a) ++ 13 ∷ 10 ∷ d)
unfolding join chunked_send_data
join_chunk x a d = simp append_assoc

-- A chunk that the writer wrote is read as one Data event, with both of its markers set.
pub reads_chunk :
    (x : ℕ) (a d : Bytes) (r : ChunkedReader) (b : ReceiveBuffer)
    → length (x ∷ a) < 16 ^ 20
    → IsBetween (r, b) (join (chunked_send_data (x ∷ a)) ++ d)
    → TookChunk (read_chunked (r, b)) (whole_chunk (x ∷ a)) d
reads_chunk x a d r b h i =
    let n = length (x ∷ a) in
    let g = between-Goes r b (join (chunked_send_data (x ∷ a)) ++ d) i in
    let wire = (x ∷ a) ++ 13 ∷ 10 ∷ d in
    let at_header = Reads-header n wire g.buffer g.cached (g.left ∙ join_chunk x a d) in
    let b' = (maybe_extract_next_line g.buffer).1 in
    let q : read_chunked (r, b) ≡ after_refill (in_chunk true) (at_chunk n, b') =
      g.reads
      ∙ ap (λ p. continue p.0 after_refill p.1)
          (refill_lem n wire g.buffer h g.cached (g.left ∙ join_chunk x a d)
            ∙ size_starts_chunk n b' (omega arith) h) in
    subst (λ p. TookChunk p (whole_chunk (x ∷ a)) d) (sym q)
      (takes_chunk x a d b' at_header.cached at_header.left)
