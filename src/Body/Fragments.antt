-- ===== src/Body/Fragments.antt =====
-- Bodies with a Content-Length, received in any fragments: `ContentLengthReader` (h11/_readers.py)
-- on what `ContentLengthWriter` (h11/_writers.py) writes.
use mathlib.Core.List.{append_assoc, append-nil}
use h.Prelude.{
  ℕ, zero, suc, ◌-◌, ◌≡◌, refl, sym, ap, ◌∙◌, false, ◌==◌, Option, none, some, List, [], ◌∷◌, ◌++◌,
  arith,
}
use h.Prelude.Lists.{
  sub_none, take-more, drop-more, taken, take_nil, length, take, drop, take-append-drop,
  length-take, length-append, length-drop, take-length, drop-length,
}
use h.Prelude.Int.{pos}
use h.Prelude.Bytes.{Bytes}
use h.Prelude.Exec.{Result, ok, Exec, pure, continue, ◌>>=◌}
use h.Buffer.Defs.{ReceiveBuffer, new, append, maybe_extract_at_most}
use h.Buffer.Plain.{plain_at_most}
use h.Buffer.Cache.{at_most-view}
use h.Events.{Event, data_event, end_of_message}
use h.Readers.Defs.{
  ContentLengthReader, new_content_length_reader, Reading, read_content_length, content_read,
  plain_data,
}
use h.Writers.Defs.{join}
use h.Body.Length.{total_length, send_body, send_body_exact}

-- A fragment arrives, and the reader is called once.
abbrev receive_and_read : Bytes → Exec (Reading ContentLengthReader) (Option Event)
receive_and_read more (r, b) = read_content_length (r, append more b)

abbrev pub chunk_of : Option Event → Bytes
chunk_of (some (data_event d)) = d.chunk
chunk_of _ = []

-- The bytes of the Data events, over some fragments.
abbrev pub read_body : List Bytes → Exec (Reading ContentLengthReader) Bytes
read_body [] = pure []
read_body (more ∷ fragments) = do
  event ← receive_and_read more
  rest ← read_body fragments
  pure (chunk_of event ++ rest)

-- One call, with `m` bytes to come and `d` in the buffer.
record Took (n m : ℕ) (d : Bytes) (p : Result (Option Event) × Reading ContentLengthReader)
    : Type 0 where
  event : Option Event
  value : p.0 ≡ ok event
  chunk : chunk_of event ≡ take m d
  left : p.1.1.bytes ≡ drop m d
  remaining : p.1.0.remaining ≡ m - length d
  total : p.1.0.total ≡ n

Took-plain :
    (n m : ℕ) (d : Bytes) (r : Result (Option Bytes)) (b : ReceiveBuffer)
    → (r, b.bytes) ≡ plain_at_most (suc m) d
    → Took n (suc m) d (continue r content_read (record { total = n; remaining = suc m }, b))
unfolding plain_at_most
Took-plain n m [] r b e = rw (ap (λ q. q.0) e) (record {
  event = none;
  value = refl;
  chunk = refl;
  left = ap (λ q. q.1) e;
  remaining = sym (sub_none (suc m));
  total = refl;
})
Took-plain n m (x ∷ d) r b e = rw (ap (λ q. q.0) e) (record {
  event = some (plain_data (x ∷ take m d));
  value = refl;
  chunk = refl;
  left = ap (λ q. q.1) e;
  remaining = omega (arith, length-take m d);
  total = refl;
})

reads-Took :
    (n m : ℕ) (b : ReceiveBuffer)
    → Took n m b.bytes (read_content_length (record { total = n; remaining = m }, b))
unfolding read_content_length
reads-Took n zero b = record {
  event = some (end_of_message []);
  value = refl;
  chunk = refl;
  left = refl;
  remaining = omega arith;
  total = refl;
}
reads-Took n (suc m) b =
    let more : (suc m == 0) ≡ false = ground arith in
    rw more (
      Took-plain n m b.bytes (maybe_extract_at_most (suc m) b).0 (maybe_extract_at_most (suc m) b).1
        (at_most-view (suc m) b))

-- The reader with `m` bytes to come, after the bytes `d`.
pub record ReadBody (n m : ℕ) (d : Bytes) (p : Result Bytes × Reading ContentLengthReader)
    : Type 0 where
  pub body : p.0 ≡ ok (take m d)
  pub rest : p.1.1.bytes ≡ drop m d
  pub total : p.1.0.total ≡ n
  pub remaining : p.1.0.remaining ≡ m - length d

nothing_read :
    (n m : ℕ) (b : ReceiveBuffer)
    → take m b.bytes ≡ []
    → ReadBody n m b.bytes (ok [], (record { total = n; remaining = m }, b))
nothing_read n m b h = record {
  body = rw h;
  rest = let e = take-append-drop m b.bytes in rw h at (sym e);
  total = refl;
  remaining = let e = length-take m b.bytes in let e' = (rw h at e) in omega arith;
}

-- One call, and the fragments behind it.
ReadBody-then :
    (n m : ℕ) (d later : Bytes) (p : Result (Option Event) × Reading ContentLengthReader)
    (f : Exec (Reading ContentLengthReader) Bytes)
    → Took n m d p
    → ReadBody p.1.0.total p.1.0.remaining (p.1.1.bytes ++ later) (f p.1)
    → ReadBody n m
        (d ++ later)
        (continue p.0 (λ event. f >>= λ rest. pure (chunk_of event ++ rest)) p.1)
ReadBody-then n m d later p f k ih =
    rw (k.value, ih.body)
      (record {
        body = rw (k.remaining, k.left, k.chunk, take-more m d later);
        rest = ih.rest ∙ rw (k.remaining, k.left) (drop-more m d later);
        total = ih.total ∙ k.total;
        remaining =
            ih.remaining
            ∙ rw (k.remaining, k.left)
                (omega
                  (arith, length-append (drop m d) later, length-drop m d, length-append d later));
      })

pub read_body-ReadBody :
    (fragments : List Bytes) (n m : ℕ) (b : ReceiveBuffer)
    → take m b.bytes ≡ []
    → ReadBody n m
        (b.bytes ++ join fragments)
        (read_body fragments (record { total = n; remaining = m }, b))
unfolding join
read_body-ReadBody [] n m b h = rw (append-nil b.bytes) (nothing_read n m b h)
read_body-ReadBody (more ∷ fragments) n m b h =
    let d = b.bytes ++ more in
    let k : Took n m d (read_content_length (record { total = n; remaining = m }, append more b)) =
      unfold append in reads-Took n m (append more b) in
    let p = read_content_length (record { total = n; remaining = m }, append more b) in
    let ih =
      read_body-ReadBody fragments p.1.0.total p.1.0.remaining p.1.1
        (rw (k.remaining, k.left) (taken m d)) in
    rw (← append_assoc b.bytes more (join fragments))
      (ReadBody-then n m d (join fragments) p (read_body fragments) k ih)

ends_at_zero :
    (s : Reading ContentLengthReader)
    → s.0.remaining ≡ 0
    → read_content_length s ≡ (ok (some (end_of_message [])), s)
unfolding read_content_length
ends_at_zero s h = rw h

length-join : (chunks : List Bytes) → length (join chunks) ≡ total_length chunks
unfolding join
length-join [] = refl
length-join (chunk ∷ chunks) = length-append chunk (join chunks) ∙ rw (length-join chunks)

fragments-ReadBody :
    (n : ℕ) (fragments : List Bytes)
    → ReadBody n n (join fragments) (read_body fragments (new_content_length_reader n, new))
fragments-ReadBody n fragments = read_body-ReadBody fragments n n new (take_nil n)

-- However the input is cut into fragments, a reader of a body of `n` bytes that is called once for
-- each gives the first `n` bytes that came in as the bytes of its Data events, and leaves the bytes
-- behind them in the buffer.
pub content_length_fragments :
    (n : ℕ) (fragments : List Bytes)
    → ((read_body fragments (new_content_length_reader n, new)).0 ≡ ok (take n (join fragments)))
      × ((read_body fragments (new_content_length_reader n, new)).1.1.bytes
          ≡ drop n (join fragments))
content_length_fragments n fragments = let k = fragments-ReadBody n fragments in (k.body, k.rest)

-- The bytes of a body, and what the reader does next.
abbrev pub read_message : List Bytes → Exec (Reading ContentLengthReader) (Bytes × Option Event)
read_message fragments = do
  body ← read_body fragments
  event ← read_content_length
  pure (body, event)

message_of_body :
    (n : ℕ) (d rest : Bytes) (p : Result Bytes × Reading ContentLengthReader)
    → length d ≡ n
    → ReadBody n n (d ++ rest) p
    → (let q =
          continue {B = Bytes × Option Event} p.0
            (λ body. read_content_length >>= λ event. pure (body, event))
            p.1 in
        (q.0 ≡ ok (d, some (end_of_message []))) × (q.1.1.bytes ≡ rest))
message_of_body n d rest p h k =
    let none_remain : p.1.0.remaining ≡ 0 = k.remaining ∙ omega (arith, length-append d rest) in
    rw (k.body, ends_at_zero p.1 none_remain, ← h)
      (rw (take-length d rest), k.rest ∙ rw (← h) (drop-length d rest))

-- A body of the declared length comes back. The writer writes its chunks as they are; and if their
-- bytes, with anything behind them, arrive in any fragments, a new reader that is called once for
-- each fragment gives the bytes of the body in its Data events, its next call gives the end of the
-- message, and what stands behind the body stays in the buffer.
pub content_length_round_trip :
    (n : ℕ) (chunks fragments : List Bytes) (rest : Bytes)
    → total_length chunks ≡ n
    → join fragments ≡ join chunks ++ rest
    → (send_body (pos n) chunks ≡ ok chunks)
      × ((read_message fragments (new_content_length_reader n, new)).0
          ≡ ok (join chunks, some (end_of_message [])))
      × ((read_message fragments (new_content_length_reader n, new)).1.1.bytes ≡ rest)
content_length_round_trip n chunks fragments rest h e =
    let k = rw e at (fragments-ReadBody n fragments) in
    let (sent, left) =
      message_of_body n (join chunks) rest (read_body fragments (new_content_length_reader n, new))
        (length-join chunks ∙ h) k in
    (send_body_exact chunks n h, sent, left)
