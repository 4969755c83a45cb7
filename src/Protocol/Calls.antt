-- ===== src/Protocol/Calls.antt =====
-- A call of the connection's reader (`_extract_next_receive_event` of h11/_connection.py).
use h.Prelude.{Bool, true, false, not, ◌&&◌, if◌then◌else◌, Option, none, some}
use h.Prelude.Bytes.{Bytes}
use h.Prelude.Exec.{Result, ok, err, local_protocol_error, pure, raise}
use h.Buffer.Defs.{ReceiveBuffer, is_nonempty, maybe_extract_at_most}
use h.Buffer.Cache.{IsCached}
use h.Events.{Event}
use h.Readers.Lines.{request_of_lines, response_of_lines}
use h.Readers.Defs.{
  Reading, http10_read, read_http10, expect_nothing, maybe_read_from_idle_client,
  maybe_read_from_send_response_server, Reader, idle_client_reader, send_response_server_reader,
  nothing_reader, http10_reader, content_length_reader, chunked_reader, read_content_length,
  read_chunked, wrap, call_reader, read_eof,
}
use h.Connection.Defs.{Connection}
use h.Connection.Receive.{Received, received, need_data, at_eof, event_or_eof}
use h.Protocol.Defs.{IsProtocolError, returns, Gives-local, Ends, Ends-either, Ends-lift, Ends-bind}
use h.Protocol.Events.{IsMade, request_of_lines-Gives, response_of_lines-Gives}
use h.Protocol.Buffers.{Cached, at_most-Ends}
use h.Protocol.Readers.{IsFound, read_block-Ends, content_length-Ends}
use h.Protocol.Chunked.{chunked-Ends}

http10-Ends : (b : ReceiveBuffer) → IsCached b → Ends IsCached IsFound (read_http10 b)
unfolding read_http10
http10-Ends b c =
    Ends-bind (maybe_extract_at_most 999999999) (λ chunk. pure (http10_read chunk)) b
      (at_most-Ends b c 999999999)
      (λ o b' _ c'. Ends-lift (ok (http10_read o)) b' (returns (read_made o)) c')
  where
    read_made : (o : Option Bytes) → IsFound (http10_read o)
    read_made none = tt
    read_made (some chunk) = tt

nothing-Ends : (b : ReceiveBuffer) → IsCached b → Ends IsCached IsFound (expect_nothing b)
unfolding expect_nothing
nothing-Ends b c =
    Ends-either (is_nonempty b) (raise (local_protocol_error 400)) (pure none) b
      (λ _. Ends-lift _ b (Gives-local 400) c) (λ _. Ends-lift _ b (returns tt) c)

wrap-Ends :
    {R : Type 0} (f : R → Reader) (p : Result (Option Event) × Reading R)
    → Ends Cached IsFound p
    → Ends Cached IsFound (wrap f p)
wrap-Ends f p h = record { gives = h.gives; keeps = h.keeps }

-- Whatever the reader and the input: no event, or one that its constructor made, or a
-- LocalProtocolError.
pub call_reader-Ends :
    (reader : Reader) (b : ReceiveBuffer) → IsCached b → Ends Cached IsFound (call_reader reader b)
unfolding call_reader maybe_read_from_idle_client maybe_read_from_send_response_server
call_reader-Ends idle_client_reader b c =
    let h = read_block-Ends request_of_lines b request_of_lines-Gives c in
    record { gives = h.gives; keeps = h.keeps }
call_reader-Ends send_response_server_reader b c =
    let h = read_block-Ends response_of_lines b response_of_lines-Gives c in
    record { gives = h.gives; keeps = h.keeps }
call_reader-Ends nothing_reader b c =
    let h = nothing-Ends b c in record { gives = h.gives; keeps = h.keeps }
call_reader-Ends http10_reader b c =
    let h = http10-Ends b c in record { gives = h.gives; keeps = h.keeps }
call_reader-Ends (content_length_reader r) b c =
    wrap-Ends content_length_reader (read_content_length (r, b)) (content_length-Ends r b c)
call_reader-Ends (chunked_reader r) b c =
    wrap-Ends chunked_reader (read_chunked (r, b)) (chunked-Ends r b c)

-- What is to be processed, if anything, was made.
abbrev pub IsReceivable : Received → Type 0
IsReceivable (received event) = IsMade event
IsReceivable _ = Unit {0}

-- What is to be processed, or a protocol error.
abbrev pub Ending : Result Received → Type 0
Ending (ok x) = IsReceivable x
Ending (err e) = IsProtocolError e

at_eof-Ending : (reader : Reader) → Ending (at_eof (read_eof reader))
unfolding read_eof
at_eof-Ending (content_length_reader r) = tt
at_eof-Ending (chunked_reader r) = tt
at_eof-Ending http10_reader = tt
at_eof-Ending idle_client_reader = tt
at_eof-Ending send_response_server_reader = tt
at_eof-Ending nothing_reader = tt

pub event_or_eof-Ending :
    (reader : Reader) (found : Option Event) (c : Connection)
    → IsFound found
    → Ending (event_or_eof reader found c)
unfolding event_or_eof
event_or_eof-Ending reader (some event) c h = h
event_or_eof-Ending reader none c h =
    by_end (not (is_nonempty c.receive_buffer) && c.receive_buffer_closed)
  where
    by_end : (b : Bool) → Ending (if b then at_eof (read_eof reader) else ok need_data)
    by_end true = at_eof-Ending reader
    by_end false = tt
