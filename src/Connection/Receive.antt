-- ===== src/Connection/Receive.antt =====
-- Receiving: `receive_data` and `next_event` of h11/_connection.py.
use h.Prelude.{Bool, true, not, ltb, ◌&&◌, ◌||◌, if◌then◌else◌, Option, none, some, [], ◌∷◌}
use h.Prelude.Lists.{length}
use h.Prelude.Bytes.{Bytes}
use h.Prelude.Exec.{
  Error, Result, ok, err, local_protocol_error, remote_protocol_error, assertion_error,
  runtime_error, Exec, pure, raise, lift, gets, ◌>>=◌, ◌>>◌,
}
use h.Events.{Event, connection_closed}
use h.Buffer.Defs.{is_nonempty, append}
use h.Readers.Defs.{Reader, call_reader, read_eof}
use h.State.Table.{done, error, might_switch_protocol, switched_protocol, state_eq}
use h.Connection.Defs.{Connection, their_state, their_role, process_event_of, process_error_of}

unfoldable pub receive_data : Bytes → Exec Connection (Unit {0})
unfolding append
receive_data [] c = (ok tt, record c { receive_buffer_closed = true })
receive_data (x ∷ more) c =
    if c.receive_buffer_closed
    then raise runtime_error c
    else (ok tt, record c { receive_buffer = append (x ∷ more) c.receive_buffer })

-- `trailing_data`
abbrev pub trailing_data : Connection → Bytes × Bool
trailing_data c = (c.receive_buffer.bytes, c.receive_buffer_closed)

-- What `next_event` returns.
pub data Received : Type 0 where
  received : Event → Received
  need_data paused : Received

-- Where the reader wants more: the end of the input is an event, an error, or nothing yet.
abbrev pub at_eof : Option (Result Event) → Result Received
at_eof none = ok (received connection_closed)
at_eof (some (ok event)) = ok (received event)
at_eof (some (err e)) = err e

unfoldable pub event_or_eof : Reader → Option Event → Connection → Result Received
unfolding read_eof
event_or_eof reader (some event) c = ok (received event)
event_or_eof reader none c =
    if not (is_nonempty c.receive_buffer) && c.receive_buffer_closed
    then at_eof (read_eof reader)
    else ok need_data

-- `self._reader(self._receive_buffer)`
abbrev pub run_reader : Reader → Exec Connection (Option Event)
run_reader reader c =
    let (r, (reader', buf)) = call_reader reader c.receive_buffer in
    (r, record c { reader = some reader'; receive_buffer = buf })

-- The reader that looks for an end of input is the one that was called.
abbrev pub reader_after : Reader → Option Reader → Reader
reader_after reader none = reader
reader_after reader (some reader') = reader'

abbrev pub read_with : Option Reader → Exec Connection Received
read_with none = raise assertion_error
read_with (some reader) = do
  found ← run_reader reader
  event ← gets (λ c. event_or_eof (reader_after reader c.reader) found c)
  lift event

-- `_extract_next_receive_event`
unfoldable pub extract_next_receive_event : Exec Connection Received
unfolding event_or_eof
extract_next_receive_event c =
    if state_eq (their_state c) done && is_nonempty c.receive_buffer
    then pure paused c
    else if state_eq (their_state c) might_switch_protocol
        || state_eq (their_state c) switched_protocol
    then pure paused c
    else read_with c.reader c

abbrev pub process_received : Received → Exec Connection (Unit {0})
process_received (received event) c = process_event_of (their_role c) event c
process_received need_data c = pure tt c
process_received paused c = pure tt c

-- The two checks where more data is needed.
abbrev pub check_buffer : Received → Exec Connection (Unit {0})
check_buffer need_data c =
    if ltb c.max_incomplete_event_size (length c.receive_buffer.bytes)
    then raise (remote_protocol_error 431) c
    else if c.receive_buffer_closed
    then raise (remote_protocol_error 400) c
    else pure tt c
check_buffer _ c = pure tt c

-- The `try` block of `next_event`.
unfoldable pub try_next_event : Exec Connection Received
unfolding extract_next_receive_event
try_next_event = do
  event ← extract_next_receive_event
  process_received event
  check_buffer event
  pure event

-- `_reraise_as_remote_protocol_error`
abbrev pub as_remote : Error → Error
as_remote (local_protocol_error hint) = remote_protocol_error hint
as_remote e = e

-- The `except` block of `next_event`.
abbrev pub handle_receive_error : Result Received → Exec Connection Received
handle_receive_error (ok event) c = pure event c
handle_receive_error (err e) c = (process_error_of (their_role c) >> raise (as_remote e)) c

unfoldable pub next_event : Exec Connection Received
unfolding try_next_event
next_event c =
    if state_eq (their_state c) error
    then raise (remote_protocol_error 400) c
    else let (r, c') = try_next_event c in handle_receive_error r c'
