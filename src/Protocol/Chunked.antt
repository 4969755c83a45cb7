-- ===== src/Protocol/Chunked.antt =====
-- `ChunkedReader` of h11/_readers.py, called on such a buffer.
use h.Prelude.{
  ℕ, ◌-◌, ◌≡◌, refl, Bool, true, false, ◌==◌, ltb, if◌then◌else◌, Option, none, some, arith,
  Bool-cases, inl, inr,
}
use h.Prelude.Lists.{length}
use h.Prelude.Bytes.{Bytes, hexadecimal}
use h.Prelude.Exec.{Result, ok, err, Exec, pure, gets, modify, assert, ◌>>=◌, ◌>>◌, continue}
use h.Abnf.{validate, match_chunk_header}
use h.Buffer.Defs.{ReceiveBuffer, maybe_extract_next_line, maybe_extract_at_most}
use h.Buffer.Cache.{IsCached}
use h.Events.{Event}
use h.Readers.Defs.{
  Reading, on_buffer, ChunkedReader, read_trailer, discarded, discard, Refill, need_more, trailer,
  in_chunk, chunk_size_read, refill, chunk_read, after_refill, read_chunked,
}
use h.Protocol.Defs.{
  returns, raised, Safe, validate-Safe, Ends, Ends-either, Ends-lift, Ends-bind, IsLocal,
  Gives-raised,
}
use h.Protocol.Buffers.{Anything, at_most-Ends, next_line-Ends, Cached, on_buffer-Ends}
use h.Protocol.Readers.{IsFound, trailer-Ends}

-- A reader that goes on has nothing to discard.
abbrev Discarded : Result Bool × Reading ChunkedReader → Type 0
Discarded (ok true, s) = Cached s × (s.0.bytes_to_discard == 0 ≡ true)
Discarded (ok false, s) = Cached s
Discarded (err e, s) = Cached s × IsLocal e

discarded_lem :
    (o : Option Bytes) (s : Reading ChunkedReader) → Cached s → Discarded (discarded o s)
discarded_lem none s i = i
discarded_lem (some chunk) s i = by_test (s.0.bytes_to_discard - length chunk == 0) refl
  where
    by_test :
        (b : Bool)
        → (s.0.bytes_to_discard - length chunk == 0) ≡ b
        → Discarded
            (ok b, (record (s.0) { bytes_to_discard = s.0.bytes_to_discard - length chunk }, s.1))
    by_test true e = (i, e)
    by_test false e = i

at_most_then :
    (r : ChunkedReader) (p : Result (Option Bytes) × ReceiveBuffer)
    → Ends IsCached Anything p
    → Discarded (continue p.0 discarded (r, p.1))
at_most_then r (ok o, b) h = discarded_lem o (r, b) h.keeps
at_most_then r (err e, b) h = (h.keeps, Gives-raised h.gives)

discard_lem : (r : ChunkedReader) (b : ReceiveBuffer) → IsCached b → Discarded (discard (r, b))
unfolding discard
discard_lem r b c = elim (Bool-cases (r.bytes_to_discard == 0)) [
  | inl nothing ↦ rw nothing (c, nothing)
  | inr more ↦ rw more (
      at_most_then r (maybe_extract_at_most r.bytes_to_discard b)
        (at_most-Ends b c r.bytes_to_discard))
]

-- A reader in a chunk has bytes of it to come.
abbrev Refilled : Result Refill × Reading ChunkedReader → Type 0
Refilled (ok (in_chunk chunk_start), s) = Cached s × (ltb 0 s.0.bytes_in_chunk ≡ true)
Refilled (ok need_more, s) = Cached s
Refilled (ok trailer, s) = Cached s
Refilled (err e, s) = Cached s × IsLocal e

pos_of_ne : (n : ℕ) → (n == 0) ≡ false → ltb 0 n ≡ true
pos_of_ne n h = ground arith

size_read-Refilled :
    (o : Option Bytes) (s : Reading ChunkedReader) → Cached s → Refilled (chunk_size_read o s)
size_read-Refilled none s i = i
size_read-Refilled (some header) s i =
    sized (validate (match_chunk_header header)) (validate-Safe (match_chunk_header header))
  where
    sized :
        (r : Result Bytes)
        → Safe r
        → Refilled (
            continue r
              (λ chunk_size.
                modify (λ s. (record (s.0) { bytes_in_chunk = hexadecimal 0 chunk_size }, s.1))
                >> (if hexadecimal 0 chunk_size == 0
                    then (modify (λ s. (record (s.0) { reading_trailer = true }, s.1))
                        >> pure trailer)
                    else pure (in_chunk true)))
              s)
    sized (err e) g = (i, Gives-raised g)
    sized (ok size) g = elim (Bool-cases (hexadecimal 0 size == 0)) [
      | inl zero ↦ rw zero i
      | inr more ↦ rw more (i, pos_of_ne (hexadecimal 0 size) more)
    ]

header_then :
    (r : ChunkedReader) (p : Result (Option Bytes) × ReceiveBuffer)
    → Ends IsCached Anything p
    → Refilled (continue p.0 chunk_size_read (r, p.1))
header_then r (ok o, b) h = size_read-Refilled o (r, b) h.keeps
header_then r (err e, b) h = (h.keeps, Gives-raised h.gives)

refill-Refilled : (s : Reading ChunkedReader) → Cached s → Refilled (refill s)
unfolding refill
refill-Refilled (r, b) c = elim (Bool-cases (r.bytes_in_chunk == 0)) [
  | inl nothing ↦ rw nothing (header_then r (maybe_extract_next_line b) (next_line-Ends b c))
  | inr more ↦ rw more (c, pos_of_ne r.bytes_in_chunk more)
]

chunk_read-Ends :
    (start : Bool) (o : Option Bytes) (s : Reading ChunkedReader)
    → Cached s
    → Ends Cached IsFound (chunk_read start o s)
chunk_read-Ends start none s i = Ends-lift _ s (returns tt) i
chunk_read-Ends start (some chunk) s i = record { gives = returns tt; keeps = i }

after_refill-Ends :
    (p : Result Refill × Reading ChunkedReader)
    → Refilled p
    → Ends Cached IsFound (continue p.0 after_refill p.1)
after_refill-Ends (err e, s) (i, x) = record { gives = raised x; keeps = i }
after_refill-Ends (ok need_more, s) i = Ends-lift _ s (returns tt) i
after_refill-Ends (ok trailer, (r, b)) i = trailer-Ends r b i
after_refill-Ends (ok (in_chunk start), (r, b)) (i, more) = rw more (
    Ends-bind (on_buffer (maybe_extract_at_most r.bytes_in_chunk)) (chunk_read start) (r, b)
      (on_buffer-Ends (maybe_extract_at_most r.bytes_in_chunk) r b
        (at_most-Ends b i r.bytes_in_chunk))
      (λ o s _ j. chunk_read-Ends start o s j))

-- What follows the test for bytes to discard.
abbrev go_on : Bool → Exec (Reading ChunkedReader) (Option Event)
go_on ready =
    if ready
    then (do
      to_discard ← gets (λ s. s.0.bytes_to_discard)
      assert (to_discard == 0)
      next ← refill
      after_refill next)
    else pure none

go_on-Ends :
    (p : Result Bool × Reading ChunkedReader)
    → Discarded p
    → Ends Cached IsFound (continue p.0 go_on p.1)
go_on-Ends (err e, s) (i, x) = record { gives = raised x; keeps = i }
go_on-Ends (ok false, s) i = Ends-lift _ s (returns tt) i
go_on-Ends (ok true, s) (i, nothing) =
    rw nothing (after_refill-Ends (refill s) (refill-Refilled s i))

pub chunked-Ends :
    (r : ChunkedReader) (b : ReceiveBuffer) → IsCached b → Ends Cached IsFound (read_chunked (r, b))
unfolding read_chunked
chunked-Ends r b c =
    Ends-either r.reading_trailer read_trailer (discard >>= go_on) (r, b) (λ _. trailer-Ends r b c)
      (λ _. go_on-Ends (discard (r, b)) (discard_lem r b c))
