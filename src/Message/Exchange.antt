-- ===== src/Message/Exchange.antt =====
-- A first request through two connections (h11/_connection.py): `send` of the one, then
-- `receive_data` and `next_event` of the other.
use h.Prelude.{
  ℕ, ◌≡◌, refl, sym, ap, ◌∙◌, subst, Bool, true, false, none, some, List, [], ◌∷◌, ◌++◌,
}
use h.Prelude.Bytes.{Bytes, bytes_eq, codes}
use h.Prelude.Exec.{Result, ok, ◌>>◌}
use h.State.Table.{
  Role, client, server, EventType, send_body, send_response, switch_upgrade, switch_connect,
}
use h.State.Defs.{
  initial, ConnectionState, process_event, process_client_switch_proposal,
  fire_state_triggered_transitions, fire_loop, fire_round, take_event, process_keep_alive_disabled,
}
use h.Headers.Defs.{get_comma_header}
use h.Events.{Event, Request, request, pairs, new_request}
use h.Readers.Defs.{Framing}
use h.Connection.Framing.{keep_alive, body_framing}
use h.Buffer.Defs.{
  ReceiveBuffer, append, maybe_extract_lines, is_next_line_obviously_invalid_request_line,
}
use h.Buffer.Search.{search, search_from}
use h.Buffer.Defs.{new as new_buffer}
use h.Message.Request.{made, sent, IsChecked, read_back, new_request-IsMadeOf}
use h.Protocol.Framing.{request-Framable}
use h.Buffer.Cache.{fresh-IsCached}
use h.Headers.Defs.{Headers, nothing_seen, raw_items, normalize_and_validate}
use h.Message.Again.{host_first, host_first-AreItems, normalize-again}
use h.Readers.Defs.{maybe_read_from_idle_client, call_reader, readers}
use h.Writers.Defs.{write_request, join, call_writer, writers}
use h.Connection.Receive.{
  Received, receive_data, trailing_data, received, next_event, try_next_event,
  extract_next_receive_event, event_or_eof,
}
use h.Connection.Send.{send, send_with_data_passthrough, try_send}
use h.Connection.Defs.{
  new, Connection, process_event_of, propose, propose_if, disable_unless, is_nonempty_list,
  note_event, respond_to_state_changes, update_writer, update_reader, get_io_object,
}

-- The state machines after the first request, with the proposals that it made.
abbrev requested : Bool → Bool → Bool → ConnectionState
requested alive upgrade connect = record {
  keep_alive = alive;
  pending_switch_proposals = record { upgrade = upgrade; connect = connect };
  states = record { of_client = send_body; of_server = send_response };
}

request-process_event :
    (u k : Bool)
    → process_event client EventType.request none
        (propose_if u switch_upgrade (propose_if k switch_connect initial))
      ≡ (ok tt, requested true u k)
unfolding process_event process_client_switch_proposal initial fire_state_triggered_transitions
    fire_loop fire_round take_event
request-process_event true true = refl
request-process_event true false = refl
request-process_event false true = refl
request-process_event false false = refl

disabled : (a u k : Bool) → disable_unless a (requested true u k) ≡ requested a u k
unfolding fire_state_triggered_transitions fire_loop fire_round process_keep_alive_disabled
disabled true u k = refl
disabled false true true = refl
disabled false true false = refl
disabled false false true = refl
disabled false false false = refl

-- A call that returns and leaves the buffer as it is.
abbrev Untouched : Connection → Result (Unit {0}) × Connection → Type 0
Untouched c p = (p.0 ≡ ok tt) × (trailing_data p.1 ≡ trailing_data c)

noted :
    (role : Role) (c : Connection) (r : Request) (f : Framing) (u k : Bool)
    → body_framing (some r.method) (some (request r)) ≡ ok f
    → Untouched c (
        respond_to_state_changes initial.states (some (request r)) (
          note_event client
            (request r)
            (record c { our_role = role; cstate = requested true u k })))
unfolding initial note_event respond_to_state_changes update_writer update_reader get_io_object
noted client c r f u k hf = rw (disabled (keep_alive r.http_version r.headers) u k, hf) (refl, refl)
noted server c r f u k hf = rw (disabled (keep_alive r.http_version r.headers) u k, hf) (refl, refl)

first_request-Untouched :
    (role : Role) (c : Connection) (r : Request) (f : Framing)
    → body_framing (some r.method) (some (request r)) ≡ ok f
    → Untouched c
        (process_event_of client (request r) (record c { our_role = role; cstate = initial }))
unfolding process_event_of propose initial
first_request-Untouched role c r f hf =
    let u = is_nonempty_list (get_comma_header r.headers (codes "upgrade")) in
    let k = bytes_eq r.method (codes "CONNECT") in
    rw (request-process_event u k) (noted role c r f u k hf)

sent_first :
    (size : ℕ) (r : Request) (f : Framing) (chunks : List Bytes)
    → body_framing (some r.method) (some (request r)) ≡ ok f
    → write_request r ≡ ok chunks
    → (send (request r) (new client size)).0 ≡ ok (some (join chunks))
unfolding send send_with_data_passthrough try_send new initial call_writer writers
sent_first size r f chunks hf e =
    let (returned, kept) = first_request-Untouched client (new client size) r f hf in
    rw (returned, e) refl

-- What `next_event` gives, and what it leaves in the buffer.
abbrev pub Gave : Event → Bytes → Result Received × Connection → Type 0
Gave event rest p = (p.0 ≡ ok (received event)) × (trailing_data p.1 ≡ (rest, false))

received_first :
    (size : ℕ) (b : ReceiveBuffer) (r : Request) (f : Framing) (rest : Bytes)
    → body_framing (some r.method) (some (request r)) ≡ ok f
    → (maybe_read_from_idle_client b).0 ≡ ok (some (request r))
    → (maybe_read_from_idle_client b).1.bytes ≡ rest
    → Gave (request r) rest (next_event (record (new server size) { receive_buffer = b }))
unfolding next_event try_next_event extract_next_receive_event event_or_eof new initial call_reader
    readers
received_first size b r f rest hf e left =
    let after : Connection = record (new server size) {
      receive_buffer = (maybe_read_from_idle_client b).1;
    } in
    let (returned, kept) = first_request-Untouched server after r f hf in
    rw (e, returned) (refl, kept ∙ ap (λ d. (d, false)) left)

empty_buffer_read : (maybe_read_from_idle_client (append [] new_buffer)).0 ≡ ok none
unfolding maybe_read_from_idle_client maybe_extract_lines append search_from search
    is_next_line_obviously_invalid_request_line
empty_buffer_read = refl

-- Bytes that a new server has received.
arrived :
    (size : ℕ) (d : Bytes) (r : Request) (f : Framing) (rest : Bytes)
    → body_framing (some r.method) (some (request r)) ≡ ok f
    → (maybe_read_from_idle_client (append d new_buffer)).0 ≡ ok (some (request r))
    → (maybe_read_from_idle_client (append d new_buffer)).1.bytes ≡ rest
    → Gave (request r) rest ((receive_data d >> next_event) (new server size))
unfolding receive_data new
arrived size [] r f rest hf e left =
    let impossible : ok none ≡ ok (some (request r)) = sym empty_buffer_read ∙ e in cc
arrived size (x ∷ more) r f rest hf e left =
    received_first size (append (x ∷ more) new_buffer) r f rest hf e left

-- What is sent, and what comes of it at the other end.
abbrev pub Arrives : Request → Bytes → ℕ → ℕ → Type 0
Arrives r rest ours theirs =
    (bytes : Bytes) × ((send (request r) (new client ours)).0 ≡ ok (some bytes))
    × Gave (request (record r { headers = host_first r.headers })) rest
        ((receive_data (bytes ++ rest) >> next_event) (new server theirs))

module _ (method target : Bytes) (l : List (Bytes × Bytes)) (items : Headers) where
  made-Arrives :
      (rest : Bytes) (ours theirs : ℕ)
      → normalize_and_validate false l ≡ ok items
      → IsChecked method target items
      → Arrives (made method target items) rest ours theirs
  unfolding append write_request normalize_and_validate
  made-Arrives rest ours theirs given c =
      let r = made method target items in
      let again = record r { headers = host_first items } in
      let bytes = sent (write_request r) in
      let (f, framed) =
        request-Framable (some method) r (record { parsed = false; given = l; accepted = given }) in
      let (g, framed_again) = request-Framable (some method) again (record {
        parsed = true;
        given = raw_items (host_first items);
        accepted =
            normalize-again true nothing_seen (host_first items)
              (host_first-AreItems nothing_seen items c.accepted);
      }) in
      let (event, left) =
        read_back method target items c (append (bytes ++ rest) new_buffer) rest
          (fresh-IsCached (bytes ++ rest)) refl in
      (
        bytes,
        sent_first ours r f _ framed refl,
        arrived theirs (bytes ++ rest) again g rest framed_again event left,
      )

-- Where the constructor makes a request of method, target and headers that it checks, and of version
-- 1.1, `send` of a new client returns bytes for it, and `next_event` of a new server that has received
-- these bytes, and any others behind them in the same call of `receive_data`, gives the same request
-- with its `Host` header first; what is behind the request stays in the buffer.
pub first_request-Arrives :
    (method target : Bytes) (l : List (Bytes × Bytes)) (r : Request) (rest : Bytes)
    (ours theirs : ℕ)
    → new_request method (pairs l) target (codes "1.1") false ≡ ok r
    → Arrives r rest ours theirs
first_request-Arrives method target l r rest ours theirs h =
    let m = new_request-IsMadeOf method target l r h in
    subst (λ x. Arrives x rest ours theirs) m.is
      (made-Arrives method target l m.items rest ours theirs m.given m.checked)
