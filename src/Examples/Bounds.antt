-- ===== src/Examples/Bounds.antt =====
-- The theorems on the ranges of numbers (h11/_connection.py, h11/_readers.py) at concrete inputs.
use h.Prelude.{◌≡◌, refl, none, some, true, [], ◌∷◌, arith}
use h.Prelude.Bytes.{codes}
use h.Prelude.Exec.{ok}
use h.State.Table.{server}
use h.Headers.Defs.{Headers, normalize_and_validate}
use h.Events.{Event, request}
use h.Buffer.Defs.{ReceiveBuffer, append, new as new_buffer}
use h.Readers.Defs.{ChunkedReader, new_chunked_reader, read_chunked}
use h.Connection.Framing.{body_framing}
use h.Connection.Defs.{Connection, new}
use h.Connection.Receive.{need_data, receive_data, next_event}
use h.Connection.Waits.{Waits, next_event-Waits}
use h.Protocol.Events.{IsMade}
use h.Protocol.Bounds.{IsBounded, body_framing-IsBounded}
use h.Protocol.ChunkSize.{IsSized, read_chunked-IsSized}

-- A server that has the beginning of a request.
abbrev begun : Connection
begun = (receive_data (codes "GET") (new server 100)).1

begun_waits : (next_event begun).0 ≡ ok need_data
unfolding next_event receive_data new h.Readers.Defs.call_reader h.Buffer.Defs.maybe_extract_lines
    h.Buffer.Search.search_from h.Buffer.Search.search h.Buffer.Search.match_blank_line
    h.Buffer.Defs.is_next_line_obviously_invalid_request_line
begun_waits = refl

next_event-Waits_example : Waits begun (next_event begun).1
next_event-Waits_example = next_event-Waits begun begun_waits

abbrev seven : Headers
seven =
    record { raw_name = codes "Content-Length"; name = codes "content-length"; value = codes "7" }
    ∷ []

abbrev upload : Event
upload = request (record {
  method = codes "PUT";
  headers = seven;
  target = codes "/";
  http_version = codes "1.0";
})

seven_accepted : normalize_and_validate true ((codes "Content-Length", codes "7") ∷ []) ≡ ok seven
unfolding normalize_and_validate
seven_accepted = refl

upload-IsMade : IsMade upload
upload-IsMade = record {
  parsed = true;
  given = (codes "Content-Length", codes "7") ∷ [];
  accepted = seven_accepted;
}

body_framing-IsBounded_example : IsBounded (body_framing none (some upload))
body_framing-IsBounded_example = body_framing-IsBounded none upload upload-IsMade

abbrev chunk_buffer : ReceiveBuffer
chunk_buffer = append (codes "3\r\nab") new_buffer

read_chunked-IsSized_example : IsSized (read_chunked (new_chunked_reader, chunk_buffer)).1
read_chunked-IsSized_example = read_chunked-IsSized new_chunked_reader chunk_buffer fresh-IsSized
  where
    fresh-IsSized : IsSized (new_chunked_reader, chunk_buffer)
    fresh-IsSized = omega arith
