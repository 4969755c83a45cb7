-- ===== src/Protocol/Readers.antt =====
-- The readers of h11/_readers.py, called on a buffer whose search positions may be trusted.
use h.Prelude.{false, ◌==◌, Option, none, some, List}
use h.Prelude.Bytes.{Bytes}
use h.Prelude.Exec.{Result, ok, err, local_protocol_error, pure, raise, lift, ◌>>=◌}
use h.Prelude.Fallible
use h.Buffer.Defs.{
  ReceiveBuffer, maybe_extract_lines, maybe_extract_at_most,
  is_next_line_obviously_invalid_request_line,
}
use h.Buffer.Cache.{IsCached}
use h.Events.{Event, pairs, new_end_of_message}
use h.Readers.Lines.{decode_header_lines}
use h.Readers.Defs.{
  lines_or_error, found, event_of, ContentLengthReader, Reading, on_buffer, content_read,
  read_content_length, ChunkedReader, trailer_of, read_trailer,
}
use h.Protocol.Defs.{
  Gives, returns, raised, Gives-local, Gives-then, Ends, Ends-either, Ends-lift, Ends-bind,
}
use h.Protocol.Events.{IsMade, decode_header_lines-Safe, new_end_of_message-Gives}
use h.Protocol.Buffers.{Anything, at_most-Ends, lines-Ends, Cached, on_buffer-Ends}

-- No event, or one that its constructor made.
abbrev pub IsFound : Option Event → Type 0
IsFound none = Unit {0}
IsFound (some event) = IsMade event

pub found-Gives : (r : Result Event) → Gives IsMade r → Gives IsFound (found r)
found-Gives (ok event) (returns made) = returns made
found-Gives (err e) (raised i) = raised i

event_of-Gives :
    (f : List Bytes → Result Event) (o : Option (List Bytes))
    → ((lines : List Bytes) → Gives IsMade (f lines))
    → Gives IsFound (event_of f o)
event_of-Gives f none h = returns tt
event_of-Gives f (some lines) h = found-Gives (f lines) (h lines)

lines_or_error-Ends :
    (o : Option (List Bytes)) (b : ReceiveBuffer)
    → IsCached b
    → Ends IsCached Anything (lines_or_error o b)
lines_or_error-Ends none b c =
    Ends-either (is_next_line_obviously_invalid_request_line b) (raise (local_protocol_error 400))
      (pure none) b (λ _. Ends-lift _ b (Gives-local 400) c) (λ _. Ends-lift _ b (returns tt) c)
lines_or_error-Ends (some lines) b c = Ends-lift _ b (returns tt) c

pub read_block-Ends :
    (f : List Bytes → Result Event) (b : ReceiveBuffer)
    → ((lines : List Bytes) → Gives IsMade (f lines))
    → IsCached b
    → Ends IsCached IsFound (
        (maybe_extract_lines >>= λ extracted.
        lines_or_error extracted >>= λ lines. lift (event_of f lines))
          b)
read_block-Ends f b h c = Ends-bind maybe_extract_lines _ b (lines-Ends b c) (λ extracted b' _ c'.
    Ends-bind (lines_or_error extracted) _ b' (lines_or_error-Ends extracted b' c')
      (λ lines b'' _ c''. Ends-lift (event_of f lines) b'' (event_of-Gives f lines h) c''))

pub content_length-Ends :
    (r : ContentLengthReader) (b : ReceiveBuffer)
    → IsCached b
    → Ends Cached IsFound (read_content_length (r, b))
unfolding read_content_length
content_length-Ends r b c =
    Ends-either (r.remaining == 0) _ _ (r, b) (λ _. Ends-lift _ (r, b) (returns tt) c)
      (λ _.
        Ends-bind (on_buffer (maybe_extract_at_most r.remaining)) content_read (r, b)
          (on_buffer-Ends (maybe_extract_at_most r.remaining) r b (at_most-Ends b c r.remaining))
          (λ o s _ i. taken o s i))
  where
    taken :
        (o : Option Bytes) (s : Reading ContentLengthReader)
        → Cached s
        → Ends Cached IsFound (content_read o s)
    taken none s i = Ends-lift _ s (returns tt) i
    taken (some chunk) s i = record { gives = returns tt; keeps = i }

pub trailer-Ends :
    (r : ChunkedReader) (b : ReceiveBuffer) → IsCached b → Ends Cached IsFound (read_trailer (r, b))
unfolding read_trailer
trailer-Ends r b c =
    Ends-bind (on_buffer maybe_extract_lines) (λ lines. lift (trailer_of lines)) (r, b)
      (on_buffer-Ends maybe_extract_lines r b (lines-Ends b c))
      (λ o s _ i. Ends-lift (trailer_of o) s (trailer_of-Gives o) i)
  where
    trailer_of-Gives : (o : Option (List Bytes)) → Gives IsFound (trailer_of o)
    trailer_of-Gives none = returns tt
    trailer_of-Gives (some lines) =
        found-Gives
          (Fallible.◌>>=◌ (decode_header_lines lines) λ hs. new_end_of_message (pairs hs) false)
          (Gives-then (decode_header_lines lines) (λ hs. new_end_of_message (pairs hs) false)
            (decode_header_lines-Safe lines) (λ hs _ _. new_end_of_message-Gives hs false))
