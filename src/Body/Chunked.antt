-- ===== src/Body/Chunked.antt =====
-- `ChunkedReader` (h11/_readers.py) on what `ChunkedWriter` (h11/_writers.py) writes.
use mathlib.Core.List.{append_assoc}
use h.Prelude.{
  ℕ, zero, suc, ◌<◌, ◌^◌, ◌≡◌, refl, sym, ap, ◌∙◌, subst, inl, true, Option, some, List, [], ◌∷◌,
  ◌++◌, arith,
}
use h.Prelude.Lists.{length}
use h.Prelude.Bytes.{Bytes, to_hexadecimal}
use h.Prelude.Exec.{Result, ok, Exec, pure, continue, ◌>>=◌}
use h.Buffer.Defs.{ReceiveBuffer, maybe_extract_next_line, maybe_extract_lines}
use h.Buffer.Cache.{IsCached}
use h.Events.{Event, new_end_of_message, end_of_message}
use h.Readers.Defs.{
  ChunkedReader, new_chunked_reader, Reading, read_chunked, refill, read_trailer, after_refill,
  trailer,
}
use h.Headers.Defs.{nonempty, normalize_and_validate}
use h.Readers.Lines.{decode_header_lines}
use h.Buffer.RoundTrip.{lines-render}
use h.Writers.Defs.{join, chunked_send_data, chunked_send_eom}
use h.Body.Digits.{hexadecimal-to_hexadecimal}
use h.Body.Between.{Reads, Reads-header, before_chunk, IsBetween, between-Goes}
use h.Body.Chunk.{refill_lem, size_read, whole_chunk, reads_chunk}

-- The last chunk, with no trailer.
Reads-end_header :
    (d : Bytes) (b : ReceiveBuffer)
    → IsCached b
    → b.bytes ≡ join (chunked_send_eom []) ++ d
    → (refill (before_chunk 0, b) ≡ (
      ok trailer,
      (
        record { bytes_in_chunk = 0; bytes_to_discard = 0; reading_trailer = true },
        (maybe_extract_next_line b).1,
      ),
    ))
      × Reads (maybe_extract_next_line b) (some (to_hexadecimal 0 ++ 13 ∷ 10 ∷ [])) (13 ∷ 10 ∷ d)
Reads-end_header d b c e =
    let k =
      Reads-header 0 (13 ∷ 10 ∷ d) b c
        (e ∙ (unfold join chunked_send_eom to_hexadecimal in refl)) in
    (
      refill_lem 0 (13 ∷ 10 ∷ d) b (omega arith) c
            (e ∙ (unfold join chunked_send_eom to_hexadecimal in refl))
          ∙ rw (size_read 0 (omega arith), hexadecimal-to_hexadecimal 0),
      k,
    )

-- What the reader leaves after the end of the message.
pub record Ended (p : Result (Option Event) × Reading ChunkedReader) (d : Bytes) : Type 0 where
  pub value : p.0 ≡ ok (some (end_of_message []))
  pub left : p.1.1.bytes ≡ d

ends_at :
    (r : ChunkedReader) (b : ReceiveBuffer) (d : Bytes)
    → IsCached b
    → b.bytes ≡ 13 ∷ 10 ∷ d
    → Ended (read_trailer (r, b)) d
unfolding read_trailer
ends_at r b d c e =
    let k = lines-render b [] d c e tt in
    let v : (maybe_extract_lines b).0 ≡ ok (some []) = ap (λ p. p.0) k in
    record {
      value = rw v (unfold decode_header_lines new_end_of_message normalize_and_validate in refl);
      left = rw v (ap (λ p. p.1) k);
    }

reads_end :
    (d : Bytes) (r : ChunkedReader) (b : ReceiveBuffer)
    → IsBetween (r, b) (join (chunked_send_eom []) ++ d)
    → Ended (read_chunked (r, b)) d
reads_end d r b i =
    let g = between-Goes r b (join (chunked_send_eom []) ++ d) i in
    let h = Reads-end_header d g.buffer g.cached g.left in
    let q = g.reads ∙ ap (λ p. continue p.0 after_refill p.1) h.0 in
    subst (λ p. Ended p d) (sym q)
      (ends_at (record { bytes_in_chunk = 0; bytes_to_discard = 0; reading_trailer = true })
        (maybe_extract_next_line g.buffer).1 d h.1.cached h.1.left)

-- So many calls of the reader, up to the first that raises.
abbrev pub reads : ℕ → Exec (Reading ChunkedReader) (List (Option Event))
reads zero = pure []
reads (suc n) = do event ← read_chunked; events ← reads n; pure (event ∷ events)

-- A body: Data events, and the end of the message.
abbrev pub wire : List Bytes → Bytes
wire [] = join (chunked_send_eom [])
wire (chunk ∷ chunks) = join (chunked_send_data chunk) ++ wire chunks

-- The writer's count of a chunk has at most twenty hexadecimal digits.
abbrev pub AreShort : List Bytes → Type 0
AreShort [] = Unit {0}
AreShort (chunk ∷ chunks) = (length chunk < 16 ^ 20) × AreShort chunks

abbrev pub body_events : List Bytes → List (Option Event)
body_events [] = some (end_of_message []) ∷ []
body_events (chunk ∷ chunks) = some (whole_chunk chunk) ∷ body_events chunks

body_from :
    (chunks : List Bytes) (rest : Bytes) (r : ChunkedReader) (b : ReceiveBuffer)
    → AreShort chunks
    → IsBetween (r, b) (wire chunks ++ rest)
    → (let p = reads (length (body_events (nonempty chunks))) (r, b) in
        (p.0 ≡ ok (body_events (nonempty chunks))) × (p.1.1.bytes ≡ rest))
body_from [] rest r b h i = let k = reads_end rest r b i in (rw (k.value) refl, rw (k.value) k.left)
body_from ([] ∷ chunks) rest r b h i =
    body_from chunks rest r b h.1 (unfold join chunked_send_data in i)
body_from ((x ∷ a) ∷ chunks) rest r b h i =
    let sent = join (chunked_send_data (x ∷ a)) in
    let k =
      reads_chunk x a (wire chunks ++ rest) r b h.0
        (subst (IsBetween (r, b)) (append_assoc sent (wire chunks) rest) i) in
    let ih =
      body_from chunks rest (read_chunked (r, b)).1.0 (read_chunked (r, b)).1.1 h.1 k.between in
    (rw (k.value) (rw (ih.0)), rw (k.value) (rw (ih.0) (ih.1)))

-- A chunked body without trailers comes back. Where a buffer, whose search positions have passed
-- no match, holds what the writer writes for chunks of fewer than 16 ^ 20 bytes and for the end of
-- the message, and anything behind it, a new reader gives, in as many calls as there are events,
-- one Data event with both chunk markers for each chunk that is not empty, and then the end of the
-- message; what stands behind the body stays in the buffer.
pub chunked_round_trip :
    (chunks : List Bytes) (rest : Bytes) (b : ReceiveBuffer)
    → AreShort chunks
    → IsCached b
    → b.bytes ≡ wire chunks ++ rest
    → (let p = reads (length (body_events (nonempty chunks))) (new_chunked_reader, b) in
        (p.0 ≡ ok (body_events (nonempty chunks))) × (p.1.1.bytes ≡ rest))
chunked_round_trip chunks rest b h c e =
    body_from chunks rest new_chunked_reader b h (record { cached = c; place = inl (refl, e) })
