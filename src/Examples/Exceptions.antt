-- ===== src/Examples/Exceptions.antt =====
-- The theorems on the exceptions of a `Connection` (h11/_connection.py) at concrete runs.
use h.Prelude.{◌≡◌, ◌⊎◌, refl, [], ◌∷◌, some}
use h.Prelude.Bytes.{codes}
use h.Prelude.Exec.{ok, attribute_error, err, local_protocol_error, remote_protocol_error}
use h.State.Table.{client, server}
use h.Events.{Request, request, end_of_message}
use h.Connection.Defs.{Connection, their_role, new}
use h.Readers.Defs.{maybe_read_from_idle_client, idle_client_reader}
use h.Connection.Receive.{receive_data, next_event}
use h.Connection.Send.{send_with_data_passthrough, send_failed}
use h.Protocol.Defs.{IsLocal, IsRemote}
use h.Protocol.Refused.{OutOfTurn}
use h.Protocol.Early.{IsEarly, early_request_raises}
use h.Protocol.Runs.{Conversed, begun, given, asked, next_event_raises, send_raises}

-- A server reads a request line that comes in two pieces and has no version.
abbrev cut_off : Connection
cut_off =
    (receive_data (codes " /\r\n\r\n")
      (next_event (receive_data (codes "GET") (new server 100)).1).1).1

cut_off-Conversed : Conversed cut_off
cut_off-Conversed = given (codes " /\r\n\r\n") (asked (given (codes "GET") (begun server 100)))

cut_off_raises : (next_event cut_off).0 ≡ err (remote_protocol_error 400)
unfolding next_event receive_data new h.Readers.Defs.call_reader h.Buffer.Defs.maybe_extract_lines
    h.Buffer.Search.search_from h.Buffer.Search.search h.Buffer.Search.match_blank_line
    h.Buffer.Defs.is_next_line_obviously_invalid_request_line h.Buffer.Defs.lines_of
    h.Readers.Lines.request_of_lines h.Abnf.validate h.Abnf.match_request_line
    h.Connection.Defs.process_error_of h.Connection.Defs.respond_to_state_changes
    h.State.Defs.process_error h.State.Defs.fire_state_triggered_transitions h.State.Defs.fire_loop
    h.State.Defs.fire_round
cut_off_raises = refl

next_event_raises_example :
    IsRemote (remote_protocol_error 400)
    ⊎ ((remote_protocol_error 400 ≡ attribute_error)
        × OutOfTurn (their_role cut_off) cut_off.cstate)
next_event_raises_example =
    next_event_raises cut_off (remote_protocol_error 400) cut_off-Conversed cut_off_raises

-- A client ends a message that it has not begun.
early_end :
    (send_with_data_passthrough (end_of_message []) (new client 100)).0
    ≡ err (local_protocol_error 400)
unfolding send_with_data_passthrough new h.State.Defs.process_event h.State.Defs.take_event
    h.Connection.Defs.process_error_of h.State.Defs.process_error
    h.State.Defs.fire_state_triggered_transitions h.State.Defs.fire_loop h.State.Defs.fire_round
early_end = refl

send_raises_example :
    IsLocal (local_protocol_error 400)
    ⊎ ((local_protocol_error 400 ≡ attribute_error)
        × OutOfTurn (new client 100).our_role (new client 100).cstate)
send_raises_example =
    send_raises (new client 100) (end_of_message []) (local_protocol_error 400) (begun client 100)
      tt early_end

-- A server that has given up before the first request comes in.
abbrev given_up : Connection
given_up =
    (receive_data (codes "GET / HTTP/1.1\r\nHost: a\r\n\r\n") (send_failed (new server 100)).1).1

abbrev late_request : Request
late_request = record {
  method = codes "GET";
  headers = record { raw_name = codes "Host"; name = codes "host"; value = codes "a" } ∷ [];
  target = codes "/";
  http_version = codes "1.1";
}

given_up-IsEarly : IsEarly given_up.cstate.states
unfolding receive_data new send_failed h.Connection.Defs.process_error_of
    h.Connection.Defs.respond_to_state_changes h.State.Defs.process_error
    h.State.Defs.fire_state_triggered_transitions h.State.Defs.fire_loop h.State.Defs.fire_round
given_up-IsEarly = record { of_client = refl; not_idle = cc; not_closed = cc }

given_up_reader : given_up.reader ≡ some idle_client_reader
unfolding receive_data new send_failed h.Connection.Defs.process_error_of
    h.Connection.Defs.respond_to_state_changes h.State.Defs.process_error
    h.State.Defs.fire_state_triggered_transitions h.State.Defs.fire_loop h.State.Defs.fire_round
given_up_reader = refl

late_read :
    (maybe_read_from_idle_client given_up.receive_buffer).0 ≡ ok (some (request late_request))
unfolding receive_data new send_failed h.Connection.Defs.process_error_of
    h.Connection.Defs.respond_to_state_changes h.State.Defs.process_error
    h.State.Defs.fire_state_triggered_transitions h.State.Defs.fire_loop h.State.Defs.fire_round
    maybe_read_from_idle_client h.Buffer.Defs.maybe_extract_lines h.Buffer.Search.search_from
    h.Buffer.Search.search h.Buffer.Search.match_blank_line h.Buffer.Defs.lines_of
    h.Readers.Lines.request_of_lines h.Abnf.validate h.Abnf.match_request_line
    h.Abnf.match_header_field h.Events.new_request
late_read = refl

given_up_role : given_up.our_role ≡ server
unfolding receive_data new send_failed h.Connection.Defs.process_error_of
    h.Connection.Defs.respond_to_state_changes h.State.Defs.process_error
    h.State.Defs.fire_state_triggered_transitions h.State.Defs.fire_loop h.State.Defs.fire_round
given_up_role = refl

early_request_raises_example : (next_event given_up).0 ≡ err attribute_error
early_request_raises_example =
    early_request_raises given_up late_request given_up_role given_up-IsEarly given_up_reader
      late_read
