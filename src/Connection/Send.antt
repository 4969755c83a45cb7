-- ===== src/Connection/Send.antt =====
-- Sending: `send` and `send_failed` of h11/_connection.py.
use h.Prelude.{Bool, true, false, not, ◌||◌, if◌then◌else◌, Option, none, some, List, [], ◌∷◌}
use h.Prelude.Bytes.{Bytes, bytes_eq, bytes_lt, codes}
use h.Prelude.Exec.{
  Result, ok, err, local_protocol_error, assertion_error, Exec, pure, raise, lift, gets, ◌>>=◌,
  ◌>>◌,
}
use h.Events.{Event, Response, response, connection_closed, headers, new_response}
use h.Headers.Defs.{Headers, get_comma_header, set_comma_header}
use h.Readers.Defs.{Framing, content_length, chunked, http10}
use h.Writers.Defs.{join, Writer, call_writer}
use h.State.Table.{State, error, state_eq}
use mathlib.Core.Option
use h.Prelude.Fallible
use h.Connection.Framing.{keep_alive, is_method, response_framing}
use h.Connection.Defs.{Connection, our_state, process_event_of, process_error_of}

-- `method_for_choosing_headers`
abbrev pub choosing_method : Option Bytes → Option Bytes
choosing_method none = none
choosing_method (some m) = some (if bytes_eq m (codes "HEAD") then codes "GET" else m)

-- `self.their_http_version is None or self.their_http_version < b"1.1"`
unfoldable pub is_old_peer : Option Bytes → Bool
unfolding bytes_lt
is_old_peer none = true
is_old_peer (some v) = bytes_lt v (codes "1.1")

-- The framing headers for a body of unknown length, and whether the connection must close.
unfoldable pub frame_unknown_length :
    Option Bytes → Option Bytes → Headers → Result (Headers × Bool)
unfolding set_comma_header is_old_peer
frame_unknown_length request_method their_http_version items =
    Fallible.◌>>=◌ (set_comma_header items (codes "content-length") []) λ hs.
      if is_old_peer their_http_version
      then (Fallible.◌>>=◌ (set_comma_header hs (codes "transfer-encoding") [])
          λ hs'. ok (hs', not (is_method request_method (codes "HEAD"))))
      else (Fallible.◌>>=◌ (set_comma_header hs (codes "transfer-encoding") (codes "chunked" ∷ []))
          λ hs'. ok (hs', false))

-- `if framing_type in ("chunked", "http/1.0")`
abbrev pub frame_headers : Framing → Option Bytes → Option Bytes → Headers → Result (Headers × Bool)
frame_headers (content_length n) request_method their_http_version items = ok (items, false)
frame_headers chunked request_method their_http_version items =
    frame_unknown_length request_method their_http_version items
frame_headers http10 request_method their_http_version items =
    frame_unknown_length request_method their_http_version items

-- A set of bytes, as a list in order and with no repetition.
unfoldable pub add_sorted : Bytes → List Bytes → List Bytes
unfolding bytes_lt
add_sorted v [] = v ∷ []
add_sorted v (w ∷ ws) =
    let rest = add_sorted v ws in
    if bytes_eq v w then w ∷ ws else if bytes_lt v w then v ∷ w ∷ ws else w ∷ rest

-- `sorted(set(values))`
unfoldable pub sorted_set : List Bytes → List Bytes
unfolding add_sorted
sorted_set [] = []
sorted_set (v ∷ vs) = add_sorted v (sorted_set vs)

unfoldable pub discard : Bytes → List Bytes → List Bytes
discard v [] = []
discard v (w ∷ ws) = let rest = discard v ws in if bytes_eq v w then rest else w ∷ rest

-- "Make sure Connection: close is set"
unfoldable pub set_close : Headers → Result Headers
unfolding set_comma_header get_comma_header sorted_set discard
set_close items = set_comma_header items (codes "connection") (
    sorted_set
      (codes "close" ∷ discard (codes "keep-alive") (get_comma_header items (codes "connection"))))

abbrev pub close_headers : Bool → Headers → Result Headers
close_headers true items = set_close items
close_headers false items = ok items

-- `_clean_up_response_headers_for_sending`, of the fields of the connection that it reads.
unfoldable pub clean_up_response_headers :
    Option Bytes → Option Bytes → Bool → Response → Result Event
unfolding response_framing frame_unknown_length set_close new_response
clean_up_response_headers request_method their_http_version keep_alive r =
    Fallible.◌>>=◌ (response_framing (choosing_method request_method) r) λ framing.
      Fallible.◌>>=◌ (frame_headers framing request_method their_http_version r.headers) λ framed.
        Fallible.◌>>=◌ (close_headers (not keep_alive || framed.1) framed.0)
          λ items. new_response (headers items) r.status_code r.http_version r.reason false

-- `if type(event) is Response`
abbrev pub clean_up : Event → Connection → Result Event
clean_up (response r) c =
    clean_up_response_headers c.request_method c.their_http_version c.cstate.keep_alive r
clean_up event c = ok event

-- The writer was taken before the event was processed; where it is still the connection's, the
-- connection sees what the call does to it.
abbrev pub store_writer : State → Writer → Connection → Connection
store_writer old_state w c =
    if state_eq (our_state c) old_state then record c { writer = some w } else c

abbrev pub write_with : State → Option Writer → Event → Exec Connection (List Bytes)
write_with old_state none event c = (err assertion_error, c)
write_with old_state (some w) event c =
    let (r, w') = call_writer w event in (r, store_writer old_state w' c)

-- `None` for a ConnectionClosed.
abbrev pub written : List Bytes → Option (List Bytes)
written chunks = some chunks

abbrev pub write_event : State → Option Writer → Event → Exec Connection (Option (List Bytes))
write_event old_state w connection_closed = pure none
write_event old_state w event = do chunks ← write_with old_state w event; pure (written chunks)

abbrev pub process_our_event : Event → Exec Connection (Unit {0})
process_our_event event c = process_event_of c.our_role event c

-- The `try` block of `send_with_data_passthrough`.
unfoldable pub try_send : Event → Exec Connection (Option (List Bytes))
unfolding clean_up_response_headers process_event_of call_writer
try_send event = do
  cleaned ← gets (clean_up event)
  event' ← lift cleaned
  w ← gets (λ c. c.writer)
  old_state ← gets our_state
  process_our_event event'
  write_event old_state w event'

abbrev pub handle_send_error : Result (Option (List Bytes)) → Exec Connection (Option (List Bytes))
handle_send_error (ok chunks) c = pure chunks c
handle_send_error (err e) c = (process_error_of c.our_role >> raise e) c

unfoldable pub send_with_data_passthrough : Event → Exec Connection (Option (List Bytes))
unfolding try_send
send_with_data_passthrough event c =
    if state_eq (our_state c) error
    then raise (local_protocol_error 400) c
    else let (r, c') = try_send event c in handle_send_error r c'

unfoldable pub send : Event → Exec Connection (Option Bytes)
unfolding send_with_data_passthrough
send event = do data_list ← send_with_data_passthrough event; pure (Option.map join data_list)

unfoldable pub send_failed : Exec Connection (Unit {0})
send_failed c = process_error_of c.our_role c
