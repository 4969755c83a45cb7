-- ===== src/Examples/Errors.antt =====
-- The theorems on errors (h11/_connection.py) at concrete connections.
use h.Prelude.{◌≡◌, refl, [], ◌∷◌, false}
use h.Prelude.Bytes.{codes}
use h.Prelude.Exec.{ok, err, remote_protocol_error, local_protocol_error}
use h.State.Table.{client, server, error}
use h.State.Defs.{
  fire_round, fire_loop, fire_state_triggered_transitions, process_error, take_event, process_event,
}
use h.Events.{Event, data_event}
use h.Buffer.Defs.{maybe_extract_lines, is_next_line_obviously_invalid_request_line}
use h.Buffer.Search.{match_blank_line, search_from}
use h.Readers.Defs.{call_reader}
use h.Connection.Defs
use h.Buffer.Search
use h.Connection.Defs.{
  Connection, our_state, their_state, process_event_of, process_error_of, respond_to_state_changes,
  update_writer, update_reader,
}
use h.Connection.Receive.{next_event, receive_data}
use h.Connection.Send.{send_with_data_passthrough, send_failed}
use h.Connection.Errors.{IsNotLocal, next_event_error, send_error, send_failed_error}

-- A client that speaks TLS to a server.
abbrev confused : Connection
confused = (receive_data (22 ∷ 3 ∷ 1 ∷ []) (Defs.new server 100)).1

it_raises : (next_event confused).0 ≡ err (remote_protocol_error 400)
unfolding next_event receive_data Defs.new call_reader maybe_extract_lines search_from Search.search
    match_blank_line is_next_line_obviously_invalid_request_line process_error_of
    respond_to_state_changes process_error fire_state_triggered_transitions fire_loop fire_round
it_raises = refl

next_event_error_example :
    (their_state (next_event confused).1 ≡ error) × IsNotLocal (remote_protocol_error 400)
next_event_error_example = next_event_error confused (remote_protocol_error 400) it_raises

abbrev early : Event
early = data_event (record { chunk = codes "a"; chunk_start = false; chunk_end = false })

abbrev idle_client : Connection
idle_client = Defs.new client 100

it_refuses : (send_with_data_passthrough early idle_client).0 ≡ err (local_protocol_error 400)
unfolding send_with_data_passthrough Defs.new process_event take_event process_error_of
    process_error fire_state_triggered_transitions fire_loop fire_round
it_refuses = refl

send_error_example : our_state (send_with_data_passthrough early idle_client).1 ≡ error
send_error_example = send_error early idle_client (local_protocol_error 400) it_refuses

send_failed_error_example :
    ((send_failed idle_client).0 ≡ ok tt) × (our_state (send_failed idle_client).1 ≡ error)
send_failed_error_example = send_failed_error idle_client
