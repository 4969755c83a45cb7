-- ===== src/Protocol/ChunkSize.antt =====
-- How many bytes of a chunk `ChunkedReader` (h11/_readers.py) can expect.
use h.Prelude.{
  ℕ, ◌*◌, ◌-◌, ◌^◌, ◌≤◌, ◌<◌, ◌≡◌, refl, subst, Bool, true, false, ◌==◌, ltb, leb, ◌&&◌,
  if◌then◌else◌, Option, none, some, [], ◌∷◌, arith, Bool-cases, inl, inr,
}
use native.Mathlib.Nat.{pow-le-pow_right, lt_of_lt_of_le}
use h.Prelude.Lists.{length}
use h.Prelude.Bytes.{Bytes, all_bytes, span, hexadecimal}
use h.Prelude.Exec.{Result, ok, err, Exec, pure, modify, lift, assert, continue, ◌>>=◌, ◌>>◌}
use h.Abnf.{validate, is_hexdig, match_chunk_ext, before_crlf, match_chunk_header}
use h.Buffer.Defs.{
  ReceiveBuffer, maybe_extract_next_line, maybe_extract_lines, maybe_extract_at_most,
}
use h.Readers.Defs.{
  Reading, on_buffer, ChunkedReader, trailer_of, read_trailer, discarded, discard, Refill,
  need_more, trailer, in_chunk, chunk_size_read, refill, chunk_read, after_refill, read_chunked,
}
use h.Protocol.Bounds.{hexadecimal-bound}

span-All : (p : ℕ → Bool) (s : Bytes) → all_bytes p (span p s).0 ≡ true
unfolding span all_bytes
span-All p [] = refl
span-All p (x ∷ s) = elim (Bool-cases (p x)) [
  | inl in_it ↦ rw (in_it, in_it, span-All p s) refl
  | inr out ↦ rw out refl
]

size_bound : (v : Bytes) → all_bytes is_hexdig v ≡ true → length v ≤ 20 → hexadecimal 0 v < 16 ^ 20
size_bound v h l = lt_of_lt_of_le (hexadecimal-bound 0 v h) (
    subst (λ x. x ≤ 16 ^ 20) (one_times (16 ^ length v))
      (pow-le-pow_right {n = 16} (omega arith) l))
  where
    one_times : (n : ℕ) → n ≡ 1 * n
    one_times n = omega arith

-- What a chunk header gives.
match_chunk_header-bound :
    (s size : Bytes) → match_chunk_header s ≡ some size → hexadecimal 0 size < 16 ^ 20
unfolding match_chunk_header
match_chunk_header-bound s size h =
    let found = (span is_hexdig s).0 in
    matched found (match_chunk_ext (before_crlf (span is_hexdig s).1)) (span-All is_hexdig s) h
  where
    matched :
        (found : Bytes) (ext : Bool)
        → all_bytes is_hexdig found ≡ true
        → (if leb 1 (length found) && leb (length found) 20 && ext then some found else none)
          ≡ some size
        → hexadecimal 0 size < 16 ^ 20
    matched found ext d e = by_length (leb 1 (length found)) (leb (length found) 20) ext e refl
      where
        by_length :
            (a b c : Bool)
            → (if a && b && c then some found else none) ≡ some size
            → leb (length found) 20 ≡ b
            → hexadecimal 0 size < 16 ^ 20
        by_length true true true e l =
            let same : found ≡ size = cc in
            subst (λ x. hexadecimal 0 x < 16 ^ 20) same (size_bound found d (ground arith))
        by_length true true false e l = absurd (cc)
        by_length true false c e l = absurd (cc)
        by_length false b c e l = absurd (cc)

-- The chunk that is being read is in range.
abbrev pub IsSized : Reading ChunkedReader → Type 0
IsSized s = s.0.bytes_in_chunk < 16 ^ 20

abbrev Keeps : {A : Type 0} → Exec (Reading ChunkedReader) A → Type 0
Keeps m = (s : Reading ChunkedReader) → IsSized s → IsSized (m s).1

module _ {A B : Type 0} where
  then-Keeps :
      (m : Exec (Reading ChunkedReader) A) (f : A → Exec (Reading ChunkedReader) B)
      → Keeps m
      → ((a : A) → Keeps (f a))
      → Keeps (m >>= f)
  then-Keeps m f h k s i = continued (m s) (h s i)
    where
      continued :
          (p : Result A × Reading ChunkedReader) → IsSized p.1 → IsSized (continue p.0 f p.1).1
      continued (ok a, t) i = k a t i
      continued (err e, t) i = i

if-Keeps :
    {A : Type 0} (b : Bool) (m n : Exec (Reading ChunkedReader) A)
    → Keeps m
    → Keeps n
    → Keeps (if b then m else n)
if-Keeps true m n h k = h
if-Keeps false m n h k = k

on_buffer-Keeps : {A : Type 0} (m : Exec ReceiveBuffer A) → Keeps (on_buffer m)
on_buffer-Keeps m s i = i

assert-Keeps : (b : Bool) → Keeps (assert b)
assert-Keeps true s i = i
assert-Keeps false s i = i

read_trailer-Keeps : Keeps read_trailer
unfolding read_trailer
read_trailer-Keeps =
    then-Keeps (on_buffer maybe_extract_lines) (λ lines. lift (trailer_of lines))
      (on_buffer-Keeps maybe_extract_lines) (λ lines s i. i)

discarded-Keeps : (o : Option Bytes) → Keeps (discarded o)
discarded-Keeps none s i = i
discarded-Keeps (some chunk) s i = i

discard-Keeps : Keeps discard
unfolding discard
discard-Keeps s i =
    if-Keeps (s.0.bytes_to_discard == 0) (pure true) _ (λ t j. j)
      (then-Keeps (on_buffer (maybe_extract_at_most s.0.bytes_to_discard)) discarded
        (on_buffer-Keeps (maybe_extract_at_most s.0.bytes_to_discard)) discarded-Keeps)
      s i

size_read-Keeps : (o : Option Bytes) → Keeps (chunk_size_read o)
unfolding validate
size_read-Keeps none s i = i
size_read-Keeps (some header) s i = by_header (match_chunk_header header) refl
  where
    by_header :
        (o : Option Bytes)
        → match_chunk_header header ≡ o
        → IsSized
            ((lift (validate o) >>= λ chunk_size.
                modify (λ s. (record (s.0) { bytes_in_chunk = hexadecimal 0 chunk_size }, s.1))
                >>= λ _.
                    if hexadecimal 0 chunk_size == 0
                    then (do
                      modify (λ s. (record (s.0) { reading_trailer = true }, s.1))
                      pure trailer)
                    else pure (in_chunk true))
              s).1
    by_header none e = i
    by_header (some size) e =
        let bound = match_chunk_header-bound header size e in
        if-Keeps (hexadecimal 0 size == 0)
          (do modify (λ s. (record (s.0) { reading_trailer = true }, s.1)); pure trailer)
          (pure (in_chunk true)) (λ t j. j) (λ t j. j)
          (record (s.0) { bytes_in_chunk = hexadecimal 0 size }, s.1) bound

refill-Keeps : Keeps refill
unfolding refill
refill-Keeps s i =
    if-Keeps (s.0.bytes_in_chunk == 0) _ (pure (in_chunk false))
      (then-Keeps (on_buffer maybe_extract_next_line) chunk_size_read
        (on_buffer-Keeps maybe_extract_next_line) size_read-Keeps)
      (λ t j. j) s i

less : (a b c : ℕ) → a < c → a - b < c
less a b c h = omega arith

chunk_read-Keeps : (start : Bool) (o : Option Bytes) → Keeps (chunk_read start o)
chunk_read-Keeps start none s i = i
chunk_read-Keeps start (some chunk) s i = less s.0.bytes_in_chunk (length chunk) (16 ^ 20) i

after_refill-Keeps : (r : Refill) → Keeps (after_refill r)
after_refill-Keeps need_more s i = i
after_refill-Keeps trailer s i = read_trailer-Keeps s i
after_refill-Keeps (in_chunk start) s i =
    let left = s.0.bytes_in_chunk in
    then-Keeps (assert (ltb 0 left)) _ (assert-Keeps (ltb 0 left))
      (λ _.
        then-Keeps (on_buffer (maybe_extract_at_most left)) (chunk_read start)
          (on_buffer-Keeps (maybe_extract_at_most left)) (chunk_read-Keeps start))
      s i

-- A call of `ChunkedReader`, returning or raising, leaves fewer than 16 ^ 20 bytes of the chunk to
-- read where there were fewer before: the sizes in chunk headers are in this range.
pub read_chunked-IsSized :
    (reader : ChunkedReader) (buf : ReceiveBuffer)
    → IsSized (reader, buf)
    → IsSized (read_chunked (reader, buf)).1
unfolding read_chunked
read_chunked-IsSized reader buf i =
    if-Keeps reader.reading_trailer read_trailer _ read_trailer-Keeps
      (then-Keeps discard _ discard-Keeps (λ ready.
        if-Keeps ready _ (pure none)
          (λ s j.
            then-Keeps (assert (s.0.bytes_to_discard == 0)) _ (assert-Keeps _)
              (λ _. then-Keeps refill after_refill refill-Keeps after_refill-Keeps) s j)
          (λ s j. j)))
      (reader, buf) i
