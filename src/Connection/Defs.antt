-- ===== src/Connection/Defs.antt =====
-- `Connection` of h11/_connection.py: its state, and its methods.
use h.Prelude.{
  ℕ, ◌*◌, Bool, true, false, not, ◌==◌, ltb, leb, ◌&&◌, if◌then◌else◌, Option, none, some, List, [],
  ◌∷◌,
}
use h.Prelude.Bytes.{Bytes, bytes_eq, codes}
use h.Prelude.Exec.{Result, ok, err, Exec, pure, gets, modify, assert, ◌>>=◌, ◌>>◌}
use h.Events.{Event, request, informational_response, response, data_event, end_of_message, type_of}
use h.Headers.Defs.{get_comma_header, has_expect_100_continue}
use h.Buffer.Defs.{ReceiveBuffer, new as new_buffer}
use h.Readers.Defs.{Reader, body_reader, readers, Framing}
use h.Writers.Defs.{Writer, body_writer, writers}
use h.State.Table.{
  Role, client, server, State, idle, send_body, SwitchType, switch_upgrade, switch_connect, States,
  get_state, state_eq,
}
use h.State.Defs.{
  ConnectionState, initial, has_proposal, process_error, process_keep_alive_disabled,
  process_client_switch_proposal, process_event, start_next_cycle, is_server,
}
use h.Connection.Framing.{keep_alive, body_framing}

pub record Connection : Type 0 where
  pub max_incomplete_event_size : ℕ
  pub our_role : Role
  pub cstate : ConnectionState
  pub writer : Option Writer
  pub reader : Option Reader
  pub receive_buffer : ReceiveBuffer
  pub receive_buffer_closed : Bool
  pub their_http_version : Option Bytes
  pub request_method : Option Bytes
  pub client_is_waiting_for_100_continue : Bool

abbrev pub default_max_incomplete_event_size : ℕ
default_max_incomplete_event_size = 16 * 1024

abbrev pub other_role : Role → Role
other_role client = server
other_role server = client

abbrev pub their_role : Connection → Role
their_role c = other_role c.our_role

abbrev pub our_state : Connection → State
our_state c = get_state c.cstate.states c.our_role

abbrev pub their_state : Connection → State
their_state c = get_state c.cstate.states (their_role c)

abbrev pub they_are_waiting_for_100_continue : Connection → Bool
they_are_waiting_for_100_continue c =
    not (is_server (their_role c)) && c.client_is_waiting_for_100_continue

-- `Connection(our_role, max_incomplete_event_size)`: both roles are IDLE, so no body is framed.
unfoldable pub new : Role → ℕ → Connection
unfolding initial readers writers
new role size = record {
  max_incomplete_event_size = size;
  our_role = role;
  cstate = initial;
  writer = writers role idle;
  reader = readers (other_role role) idle;
  receive_buffer = new_buffer;
  receive_buffer_closed = false;
  their_http_version = none;
  request_method = none;
  client_is_waiting_for_100_continue = false;
}

-- A method of the state machine, in a connection.
abbrev pub on_cstate : {A : Type 0} → Exec ConnectionState A → Exec Connection A
on_cstate m c = ((m c.cstate).0, record c { cstate = (m c.cstate).1 })

abbrev pub made_for : {Io : Type 0} → (Framing → Io) → Result Framing → Result (Option Io)
made_for by_framing (ok framing) = ok (some (by_framing framing))
made_for by_framing (err e) = err e

-- `_get_io_object`, with the table for bodies and the one for the other states.
unfoldable pub get_io_object :
    {Io : Type 0}
    → (Framing → Io)
    → (Role → State → Option Io)
    → Role
    → Option Event
    → Connection
    → Result (Option Io)
get_io_object by_framing by_state role event c =
    if state_eq (get_state c.cstate.states role) send_body
    then made_for by_framing (body_framing c.request_method event)
    else ok (by_state role (get_state c.cstate.states role))

abbrev pub set_writer : Result (Option Writer) → Exec Connection (Unit {0})
set_writer (ok w) c = (ok tt, record c { writer = w })
set_writer (err e) c = (err e, c)

abbrev pub set_reader : Result (Option Reader) → Exec Connection (Unit {0})
set_reader (ok r) c = (ok tt, record c { reader = r })
set_reader (err e) c = (err e, c)

unfoldable pub update_writer : States → Option Event → Exec Connection (Unit {0})
unfolding get_io_object writers body_writer
update_writer old_states event c =
    if state_eq (our_state c) (get_state old_states c.our_role)
    then pure tt c
    else set_writer (get_io_object body_writer writers c.our_role event c) c

unfoldable pub update_reader : States → Option Event → Exec Connection (Unit {0})
unfolding get_io_object readers body_reader
update_reader old_states event c =
    if state_eq (their_state c) (get_state old_states (their_role c))
    then pure tt c
    else set_reader (get_io_object body_reader readers (their_role c) event c) c

unfoldable pub respond_to_state_changes : States → Option Event → Exec Connection (Unit {0})
unfolding update_writer update_reader
respond_to_state_changes old_states event = do
  update_writer old_states event
  update_reader old_states event

-- `_process_error`
unfoldable pub process_error_of : Role → Exec Connection (Unit {0})
process_error_of role = do
  old_states ← gets (λ c. c.cstate.states)
  on_cstate (modify (process_error role))
  respond_to_state_changes old_states none

-- `_server_switch_event`
unfoldable pub server_switch_event : Event → ConnectionState → Option SwitchType
server_switch_event (informational_response r) m =
    if r.status_code == 101 then some switch_upgrade else none
server_switch_event (response r) m =
    if has_proposal m.pending_switch_proposals switch_connect
      && leb 200 r.status_code
      && ltb r.status_code 300
    then some switch_connect
    else none
server_switch_event _ m = none

abbrev pub is_nonempty_list : List Bytes → Bool
is_nonempty_list [] = false
is_nonempty_list (v ∷ vs) = true

abbrev pub propose_if : Bool → SwitchType → ConnectionState → ConnectionState
propose_if true sw m = process_client_switch_proposal sw m
propose_if false sw m = m

-- The proposals that a client's Request makes.
unfoldable pub propose : Role → Event → ConnectionState → ConnectionState
propose client (request r) m =
    propose_if (is_nonempty_list (get_comma_header r.headers (codes "upgrade"))) switch_upgrade
      (propose_if (bytes_eq r.method (codes "CONNECT")) switch_connect m)
propose _ _ m = m

abbrev pub switch_event_of : Role → Event → ConnectionState → Option SwitchType
switch_event_of client event m = none
switch_event_of server event m = server_switch_event event m

-- `if type(event) is Request: self._request_method = event.method`
abbrev pub note_method : Event → Connection → Connection
note_method (request r) c = record c { request_method = some r.method }
note_method _ c = c

abbrev pub same_role : Role → Role → Bool
same_role client client = true
same_role server server = true
same_role _ _ = false

-- `self.their_http_version = event.http_version`
abbrev pub note_version : Role → Event → Connection → Connection
note_version role (request r) c =
    if same_role role (their_role c)
    then record c { their_http_version = some r.http_version }
    else c
note_version role (response r) c =
    if same_role role (their_role c)
    then record c { their_http_version = some r.http_version }
    else c
note_version role (informational_response r) c =
    if same_role role (their_role c)
    then record c { their_http_version = some r.http_version }
    else c
note_version role _ c = c

abbrev pub disable_unless : Bool → ConnectionState → ConnectionState
disable_unless true m = m
disable_unless false m = process_keep_alive_disabled m

-- `if type(event) in (Request, Response) and not _keep_alive(event)`
abbrev pub handle_keep_alive : Event → ConnectionState → ConnectionState
handle_keep_alive (request r) m = disable_unless (keep_alive r.http_version r.headers) m
handle_keep_alive (response r) m = disable_unless (keep_alive r.http_version r.headers) m
handle_keep_alive _ m = m

-- The three `if`s on 100-continue: whether the client waits after the event.
abbrev pub waiting_after : Role → Event → Bool → Bool
waiting_after role (request r) waiting =
    if has_expect_100_continue r.http_version r.headers then true else waiting
waiting_after role (informational_response r) waiting = false
waiting_after role (response r) waiting = false
waiting_after client (data_event d) waiting = false
waiting_after client (end_of_message hs) waiting = false
waiting_after _ _ waiting = waiting

-- The updates after the state machine has taken the event.
unfoldable pub note_event : Role → Event → Connection → Connection
note_event role event c =
    let c' = note_version role event (note_method event c) in
    record c' {
      cstate = handle_keep_alive event c'.cstate;
      client_is_waiting_for_100_continue =
          waiting_after role event c'.client_is_waiting_for_100_continue;
    }

-- `_process_event`
unfoldable pub process_event_of : Role → Event → Exec Connection (Unit {0})
unfolding propose server_switch_event note_event respond_to_state_changes
process_event_of role event = do
  old_states ← gets (λ c. c.cstate.states)
  on_cstate (modify (propose role event))
  sw ← gets (λ c. switch_event_of role event c.cstate)
  on_cstate (process_event role (type_of event) sw)
  modify (note_event role event)
  respond_to_state_changes old_states (some event)

-- `start_next_cycle`
unfoldable pub start_next_cycle_of : Exec Connection (Unit {0})
unfolding respond_to_state_changes
start_next_cycle_of = do
  old_states ← gets (λ c. c.cstate.states)
  on_cstate start_next_cycle
  modify (λ c. record c { request_method = none })
  waiting ← gets (λ c. c.client_is_waiting_for_100_continue)
  assert (not waiting)
  respond_to_state_changes old_states none
