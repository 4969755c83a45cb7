-- ===== src/Readers/Defs.antt =====
-- The readers of h11/_readers.py. A reader is a value with the fields of its class; a call gives
-- the event, `none` for "I need more data", or an error, with the reader and the buffer after it.
use h.Prelude.{ℕ, ◌-◌, Bool, true, false, ◌==◌, ltb, if◌then◌else◌, Option, none, some, List, []}
use h.Prelude.Lists.{length}
use h.Prelude.Bytes.{Bytes, hexadecimal}
use h.Prelude.Exec.{
  Result, ok, err, local_protocol_error, remote_protocol_error, Exec, pure, raise, lift, gets,
  modify, assert, ◌>>=◌, ◌>>◌,
}
use h.Prelude.Fallible
use h.Abnf.{validate, match_chunk_header}
use h.Buffer.Defs.{
  ReceiveBuffer, is_nonempty, maybe_extract_lines, maybe_extract_next_line, maybe_extract_at_most,
  is_next_line_obviously_invalid_request_line,
}
use h.Events.{Event, data_event, end_of_message, pairs, new_end_of_message}
use h.Readers.Lines.{request_of_lines, response_of_lines, decode_header_lines}
use h.State.Table.{Role, client, server, State, idle, send_response, done, must_close, closed}

-- The calls that read a block of lines, where the block is not there yet.
abbrev pub lines_or_error : Option (List Bytes) → Exec ReceiveBuffer (Option (List Bytes))
lines_or_error none = do
  invalid ← gets is_next_line_obviously_invalid_request_line
  if invalid then raise (local_protocol_error 400) else pure none
lines_or_error (some lines) = pure (some lines)

abbrev pub found : Result Event → Result (Option Event)
found (ok e) = ok (some e)
found (err x) = err x

abbrev pub event_of : (List Bytes → Result Event) → Option (List Bytes) → Result (Option Event)
event_of f none = ok none
event_of f (some lines) = found (f lines)

unfoldable pub maybe_read_from_idle_client : Exec ReceiveBuffer (Option Event)
maybe_read_from_idle_client = do
  extracted ← maybe_extract_lines
  lines ← lines_or_error extracted
  lift (event_of request_of_lines lines)

unfoldable pub maybe_read_from_send_response_server : Exec ReceiveBuffer (Option Event)
maybe_read_from_send_response_server = do
  extracted ← maybe_extract_lines
  lines ← lines_or_error extracted
  lift (event_of response_of_lines lines)

-- `ContentLengthReader`
pub record ContentLengthReader : Type 0 where
  pub total : ℕ
  pub remaining : ℕ

abbrev pub plain_data : Bytes → Event
plain_data chunk = data_event (record { chunk = chunk; chunk_start = false; chunk_end = false })

abbrev pub new_content_length_reader : ℕ → ContentLengthReader
new_content_length_reader length = record { total = length; remaining = length }

-- A reader and the buffer that it reads.
abbrev pub Reading : Type 0 → Type 0
Reading R = R × ReceiveBuffer

-- `buf.method()`, in a reader.
abbrev pub on_buffer : {R A : Type 0} → Exec ReceiveBuffer A → Exec (Reading R) A
on_buffer m (r, buf) = ((m buf).0, (r, (m buf).1))

-- `self._remaining -= len(data)` and the event.
abbrev pub content_read : Option Bytes → Exec (Reading ContentLengthReader) (Option Event)
content_read none = pure none
content_read (some chunk) = do
  modify (λ s. (record (s.0) { remaining = s.0.remaining - length chunk }, s.1))
  pure (some (plain_data chunk))

-- At most `remaining` bytes are read, so the subtraction is exact.
unfoldable pub read_content_length : Exec (Reading ContentLengthReader) (Option Event)
read_content_length = do
  remaining ← gets (λ s. s.0.remaining)
  if remaining == 0
      then pure (some (end_of_message []))
      else (do chunk ← on_buffer (maybe_extract_at_most remaining); content_read chunk)

-- `ChunkedReader`
pub record ChunkedReader : Type 0 where
  pub bytes_in_chunk : ℕ
  pub bytes_to_discard : ℕ
  pub reading_trailer : Bool

abbrev pub new_chunked_reader : ChunkedReader
new_chunked_reader = record { bytes_in_chunk = 0; bytes_to_discard = 0; reading_trailer = false }

abbrev pub trailer_of : Option (List Bytes) → Result (Option Event)
trailer_of none = ok none
trailer_of (some lines) =
    found (Fallible.◌>>=◌ (decode_header_lines lines) λ hs. new_end_of_message (pairs hs) false)

unfoldable pub read_trailer : Exec (Reading ChunkedReader) (Option Event)
read_trailer = do lines ← on_buffer maybe_extract_lines; lift (trailer_of lines)

-- `self._bytes_to_discard -= len(data)`: whether the reader goes on.
abbrev pub discarded : Option Bytes → Exec (Reading ChunkedReader) Bool
discarded none = pure false
discarded (some chunk) = do
  modify (λ s. (record (s.0) { bytes_to_discard = s.0.bytes_to_discard - length chunk }, s.1))
  gets (λ s. s.0.bytes_to_discard == 0)

unfoldable pub discard : Exec (Reading ChunkedReader) Bool
discard = do
  to_discard ← gets (λ s. s.0.bytes_to_discard)
  if to_discard == 0
      then pure true
      else (do chunk ← on_buffer (maybe_extract_at_most to_discard); discarded chunk)

-- What comes next: more input is needed, the trailer, or data, at the start of a chunk or not.
pub data Refill : Type 0 where
  need_more : Refill
  trailer : Refill
  in_chunk : Bool → Refill

-- The new chunk's size, out of its header.
abbrev pub chunk_size_read : Option Bytes → Exec (Reading ChunkedReader) Refill
chunk_size_read none = pure need_more
chunk_size_read (some chunk_header) = do
  chunk_size ← lift (validate (match_chunk_header chunk_header))
  modify (λ s. (record (s.0) { bytes_in_chunk = hexadecimal 0 chunk_size }, s.1))
  if hexadecimal 0 chunk_size == 0
      then (do modify (λ s. (record (s.0) { reading_trailer = true }, s.1)); pure trailer)
      else pure (in_chunk true)

unfoldable pub refill : Exec (Reading ChunkedReader) Refill
refill = do
  left ← gets (λ s. s.0.bytes_in_chunk)
  if left == 0
      then (do chunk_header ← on_buffer maybe_extract_next_line; chunk_size_read chunk_header)
      else pure (in_chunk false)

-- `self._bytes_in_chunk -= len(data)` and the event; after a chunk its `\r\n` is to be discarded.
abbrev pub chunk_read : Bool → Option Bytes → Exec (Reading ChunkedReader) (Option Event)
chunk_read chunk_start none = pure none
chunk_read chunk_start (some chunk) = do
  modify (λ s. (record (s.0) { bytes_in_chunk = s.0.bytes_in_chunk - length chunk }, s.1))
  chunk_end ← gets (λ s. s.0.bytes_in_chunk == 0)
  modify (λ s.
      (record (s.0) { bytes_to_discard = if chunk_end then 2 else s.0.bytes_to_discard }, s.1))
  pure (
      some
        (data_event (record { chunk = chunk; chunk_start = chunk_start; chunk_end = chunk_end })))

-- `return self(buf)` reads the trailer, since `_reading_trailer` is set by then.
abbrev pub after_refill : Refill → Exec (Reading ChunkedReader) (Option Event)
after_refill need_more = pure none
after_refill trailer = read_trailer
after_refill (in_chunk chunk_start) = do
  left ← gets (λ s. s.0.bytes_in_chunk)
  assert (ltb 0 left)
  chunk ← on_buffer (maybe_extract_at_most left)
  chunk_read chunk_start chunk

unfoldable pub read_chunked : Exec (Reading ChunkedReader) (Option Event)
read_chunked = do
  in_trailer ← gets (λ s. s.0.reading_trailer)
  if in_trailer then read_trailer else (do
    ready ← discard
    if ready
        then (do
          to_discard ← gets (λ s. s.0.bytes_to_discard)
          assert (to_discard == 0)
          next ← refill
          after_refill next)
        else pure none)

-- `Http10Reader`
abbrev pub http10_read : Option Bytes → Option Event
http10_read none = none
http10_read (some chunk) = some (plain_data chunk)

unfoldable pub read_http10 : Exec ReceiveBuffer (Option Event)
read_http10 = do chunk ← maybe_extract_at_most 999999999; pure (http10_read chunk)

unfoldable pub expect_nothing : Exec ReceiveBuffer (Option Event)
expect_nothing = do
  got ← gets is_nonempty
  if got then raise (local_protocol_error 400) else pure none

-- The readers that `READERS` holds or makes.
pub data Reader : Type 0 where
  idle_client_reader send_response_server_reader nothing_reader http10_reader : Reader
  content_length_reader : ContentLengthReader → Reader
  chunked_reader : ChunkedReader → Reader

-- The same, with the reader put back behind its constructor.
abbrev pub wrap :
    {R A : Type 0} → (R → Reader) → Result A × Reading R → Result A × (Reader × ReceiveBuffer)
wrap f (r, (reader, buf)) = (r, (f reader, buf))

-- `self._reader(self._receive_buffer)`
unfoldable pub call_reader :
    Reader → ReceiveBuffer → Result (Option Event) × (Reader × ReceiveBuffer)
unfolding maybe_read_from_idle_client maybe_read_from_send_response_server read_content_length
    read_chunked read_trailer discard refill read_http10 expect_nothing
call_reader idle_client_reader buf =
    ((maybe_read_from_idle_client buf).0, (idle_client_reader, (maybe_read_from_idle_client buf).1))
call_reader send_response_server_reader buf = (
  (maybe_read_from_send_response_server buf).0,
  (send_response_server_reader, (maybe_read_from_send_response_server buf).1),
)
call_reader nothing_reader buf = ((expect_nothing buf).0, (nothing_reader, (expect_nothing buf).1))
call_reader http10_reader buf = ((read_http10 buf).0, (http10_reader, (read_http10 buf).1))
call_reader (content_length_reader r) buf =
    wrap content_length_reader (read_content_length (r, buf))
call_reader (chunked_reader r) buf = wrap chunked_reader (read_chunked (r, buf))

-- `read_eof`, for the readers that have it.
unfoldable pub read_eof : Reader → Option (Result Event)
read_eof (content_length_reader r) = some (err (remote_protocol_error 400))
read_eof (chunked_reader r) = some (err (remote_protocol_error 400))
read_eof http10_reader = some (ok (end_of_message []))
read_eof _ = none

-- How a body is delimited: the first component of `_body_framing`, with its argument.
pub data Framing : Type 0 where
  content_length : ℕ → Framing
  chunked http10 : Framing

-- `READERS[SEND_BODY]`
unfoldable pub body_reader : Framing → Reader
body_reader (content_length n) = content_length_reader (new_content_length_reader n)
body_reader chunked = chunked_reader new_chunked_reader
body_reader http10 = http10_reader

-- `READERS.get((role, state))`
unfoldable pub readers : Role → State → Option Reader
readers client idle = some idle_client_reader
readers server idle = some send_response_server_reader
readers server send_response = some send_response_server_reader
readers client done = some nothing_reader
readers client must_close = some nothing_reader
readers client closed = some nothing_reader
readers server done = some nothing_reader
readers server must_close = some nothing_reader
readers server closed = some nothing_reader
readers _ _ = none
