-- ===== src/Examples/Conversation.antt =====
-- A conversation of a server with a client (h11/_connection.py), run on the definitions.
use h.Prelude.{◌≡◌, refl, false, Option, some, [], ◌∷◌, ◌++◌}
use h.Prelude.Bytes.{Bytes, codes}
use h.Prelude.Exec.{Result, ok, Exec, ◌>>◌}
use h.Events.{Event, request, response, data_event, end_of_message, connection_closed}
use h.State.Table.{server, done}
use h.Connection.Defs.{Connection, new, our_state, their_state, start_next_cycle_of}
use h.Connection.Receive.{Received, received, need_data, paused, receive_data, next_event}
use h.Connection.Send.{send}

abbrev newline : Bytes
newline = 13 ∷ 10 ∷ []

abbrev get_request : Bytes
get_request = codes "GET /x HTTP/1.1" ++ newline ++ codes "Host: a" ++ newline ++ newline

abbrev a_response : Event
a_response =
    response
      (record { headers = []; http_version = codes "1.1"; reason = codes "OK"; status_code = 200 })

abbrev a_body : Event
a_body = data_event (record { chunk = codes "hello"; chunk_start = false; chunk_end = false })

abbrev serve : Exec Connection (Option Bytes)
serve = do
  receive_data get_request
  next_event
  next_event
  send a_response
  send a_body
  send (end_of_message [])

abbrev served : Result (Option Bytes) × Connection
served = serve (new server 100)

abbrev response_sent : Result (Option Bytes)
response_sent =
    ((do receive_data get_request; next_event; next_event; send a_response) (new server 100)).0

-- A body of unknown length is chunked for an HTTP/1.1 client.
sends_headers :
    response_sent
    ≡ ok (
        some (
          codes "HTTP/1.1 200 OK"
          ++ newline
          ++ codes "Transfer-Encoding: chunked"
          ++ newline
          ++ newline))
unfolding h.Buffer.Search.match_blank_line h.Buffer.Search.search h.Buffer.Search.search_from
    h.Buffer.Defs.lines_of h.Buffer.Defs.maybe_extract_lines h.Abnf.match_header_field
    h.Abnf.match_request_line h.Events.new_request h.Readers.Lines.request_of_lines
    h.Readers.Defs.call_reader h.Writers.Defs.join h.State.Defs.fire_round h.State.Defs.fire_loop
    h.State.Defs.fire_state_triggered_transitions h.State.Defs.take_event h.State.Defs.process_event
    h.Connection.Framing.keep_alive h.Connection.Framing.body_framing h.Connection.Defs.new
    h.Connection.Receive.receive_data h.Connection.Receive.next_event h.Connection.Send.send
sends_headers = refl

-- The end of the body, and both roles are DONE.
sends_end :
    (served.0 ≡ ok (some (codes "0" ++ newline ++ newline)))
    × (our_state served.1 ≡ done)
    × (their_state served.1 ≡ done)
unfolding h.Buffer.Search.match_blank_line h.Buffer.Search.search h.Buffer.Search.search_from
    h.Buffer.Defs.lines_of h.Buffer.Defs.maybe_extract_lines h.Abnf.match_header_field
    h.Abnf.match_request_line h.Events.new_request h.Readers.Lines.request_of_lines
    h.Readers.Defs.call_reader h.Writers.Defs.join h.State.Defs.fire_round h.State.Defs.fire_loop
    h.State.Defs.fire_state_triggered_transitions h.State.Defs.take_event h.State.Defs.process_event
    h.Connection.Framing.keep_alive h.Connection.Framing.body_framing h.Connection.Defs.new
    h.Connection.Receive.receive_data h.Connection.Receive.next_event h.Connection.Send.send
sends_end = (refl, refl, refl)
