-- ===== src/Examples/Runs.antt =====
-- The theorems on runs of a `Connection` (h11/_connection.py) at concrete runs.
use h.Prelude.{◌≡◌, refl, ◌⊎◌, true, [], ◌∷◌}
use h.Prelude.Bytes.{codes}
use h.Prelude.Exec.{ok, err, local_protocol_error}
use h.State.Table.{client, send_body, error}
use h.Events.{Event, request, end_of_message}
use h.Connection.Defs.{Connection, new, start_next_cycle_of}
use h.Connection.Receive.{receive_data, next_event}
use h.Connection.Send.{send_with_data_passthrough, send_failed}
use h.Connection.Runs.{
  Reachable, made, after_receive_data, after_next_event, after_send, next_cycle_returns,
  waiting_client,
}

-- A client asks before it sends its body.
abbrev asking : Event
asking = request (record {
  method = codes "PUT";
  headers =
      record { raw_name = codes "Host"; name = codes "host"; value = codes "a" }
      ∷ record { raw_name = codes "Expect"; name = codes "expect"; value = codes "100-continue" }
      ∷ [];
  target = codes "/";
  http_version = codes "1.1";
})

abbrev waiting : Connection
waiting = (send_with_data_passthrough asking (new client 100)).1

to_waiting : Reachable waiting
to_waiting = after_send asking (made client 100)

waits : waiting.client_is_waiting_for_100_continue ≡ true
unfolding h.Headers.Defs.has_expect_100_continue h.State.Defs.fire_round h.State.Defs.fire_loop
    h.State.Defs.fire_state_triggered_transitions h.State.Defs.take_event h.State.Defs.process_event
    h.Connection.Framing.keep_alive h.Connection.Framing.body_framing h.Connection.Defs.new
    h.Connection.Send.send
waits = refl

waiting_client_example :
    (waiting.cstate.states.of_client ≡ send_body) ⊎ (waiting.cstate.states.of_client ≡ error)
waiting_client_example = waiting_client waiting to_waiting waits

-- It sends the body, and reads what is no response.
abbrev answered : Connection
answered =
    (next_event
      (receive_data (codes "no\r\n\r\n")
        (send_with_data_passthrough (end_of_message []) waiting).1).1).1

next_cycle_returns_example :
    ((start_next_cycle_of answered).0 ≡ ok tt)
    ⊎ ((start_next_cycle_of answered).0 ≡ err (local_protocol_error 400))
next_cycle_returns_example = next_cycle_returns answered (
    after_next_event
      (after_receive_data (codes "no\r\n\r\n") (after_send (end_of_message []) to_waiting)))
