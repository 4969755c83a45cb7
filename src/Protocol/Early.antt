-- ===== src/Protocol/Early.antt =====
-- A client's request at a server that is no longer idle (h11/_state.py, h11/_connection.py).
use h.Prelude.{ap, ◌≡◌, ◌≢◌, refl, sym, subst, Bool, true, false, some, none, arith}
use h.Prelude.Bytes.{bytes_eq, codes}
use h.Prelude.Exec.{attribute_error, ok, err}
use h.Events.{Request, request}
use h.Headers.Defs.{get_comma_header}
use h.State.Table.{
  client, server, State, States, idle, closed, SwitchType, switch_upgrade, switch_connect,
  EventType,
}
use h.State.Defs.{
  ConnectionState, Proposals, add_proposal, fire_round, take_event, process_event,
  process_client_switch_proposal,
}
use h.State.Fixpoint.{fire-eq-round}
use h.Readers.Defs.{maybe_read_from_idle_client, idle_client_reader, call_reader}
use h.Connection.Errors.{raised}
use h.Connection.Defs.{
  their_role, Connection, propose, propose_if, is_nonempty_list, process_event_of,
}
use h.Connection.Receive.{
  Received, next_event, try_next_event, extract_next_receive_event, event_or_eof,
}

-- The server has gone on without the request.
pub record IsEarly (s : States) : Type 0 where
  pub of_client : s.of_client ≡ idle
  pub not_idle : s.of_server ≢ idle
  pub not_closed : s.of_server ≢ closed

round-IsEarly : (m : ConnectionState) → IsEarly m.states → IsEarly (fire_round m).states
unfolding fire_round
round-IsEarly m h = record {
  of_client = stays m h.of_client h.not_closed;
  not_idle = gone_on m h.of_client h.not_idle;
  not_closed = open_still m h.of_client h.not_closed;
}
  where
    stays :
        (m : ConnectionState)
        → m.states.of_client ≡ idle
        → m.states.of_server ≢ closed
        → (fire_round m).states.of_client ≡ idle
    stays m a b = ground arith

    gone_on :
        (m : ConnectionState)
        → m.states.of_client ≡ idle
        → m.states.of_server ≢ idle
        → (fire_round m).states.of_server ≢ idle
    gone_on m a b = ground arith

    open_still :
        (m : ConnectionState)
        → m.states.of_client ≡ idle
        → m.states.of_server ≢ closed
        → (fire_round m).states.of_server ≢ closed
    open_still m a b = ground arith

propose_if-IsEarly :
    (b : Bool) (sw : SwitchType) (m : ConnectionState)
    → IsEarly m.states
    → IsEarly (propose_if b sw m).states
unfolding process_client_switch_proposal
propose_if-IsEarly false sw m h = h
propose_if-IsEarly true sw m h =
    let n : ConnectionState = record m {
      pending_switch_proposals = add_proposal m.pending_switch_proposals sw;
    } in
    subst (λ x. IsEarly x.states) (sym (fire-eq-round n)) (round-IsEarly n h)

request_at :
    (s : State) (alive : Bool) (p : Proposals)
    → s ≢ idle
    → (process_event client EventType.request none (record {
      keep_alive = alive;
      pending_switch_proposals = p;
      states = record { of_client = idle; of_server = s };
    })).0
      ≡ err attribute_error
unfolding process_event take_event
request_at s alive p n = ground arith

early_machine :
    (m : ConnectionState)
    → IsEarly m.states
    → (process_event client EventType.request none m).0 ≡ err attribute_error
early_machine m h =
    subst
      (λ c.
        (process_event client EventType.request none
          (record m { states = record { of_client = c; of_server = m.states.of_server } })).0
        ≡ err attribute_error)
      (sym h.of_client)
      (request_at m.states.of_server m.keep_alive m.pending_switch_proposals h.not_idle)

early_process_event_of :
    (c : Connection) (q : Request)
    → IsEarly c.cstate.states
    → (process_event_of client (request q) c).0 ≡ err attribute_error
unfolding process_event_of propose
early_process_event_of c q h =
    let connect = bytes_eq q.method (codes "CONNECT") in
    let upgrade = is_nonempty_list (get_comma_header q.headers (codes "upgrade")) in
    rw
      (early_machine
        (propose_if upgrade switch_upgrade (propose_if connect switch_connect c.cstate))
        (propose_if-IsEarly upgrade switch_upgrade _
          (propose_if-IsEarly connect switch_connect c.cstate h)))
      refl

-- Where a server's client is idle and the server itself is neither idle nor closed, as after
-- `send_failed` or a response that came before any request, `next_event` raises an AttributeError
-- for every request that its reader makes out.
pub early_request_raises :
    (c : Connection) (q : Request)
    → c.our_role ≡ server
    → IsEarly c.cstate.states
    → c.reader ≡ some idle_client_reader
    → (maybe_read_from_idle_client c.receive_buffer).0 ≡ ok (some (request q))
    → (next_event c).0 ≡ err attribute_error
unfolding next_event try_next_event extract_next_receive_event event_or_eof call_reader
early_request_raises c q role h r e =
    let taken : Connection = record c {
      our_role = server;
      cstate = record c.cstate {
        states = record { of_client = idle; of_server = c.cstate.states.of_server };
      };
      reader = some idle_client_reader;
      receive_buffer = (maybe_read_from_idle_client c.receive_buffer).1;
    } in
    let early : IsEarly taken.cstate.states = record {
      of_client = refl;
      not_idle = h.not_idle;
      not_closed = h.not_closed;
    } in
    let after_it = (process_event_of client (request q) taken).1 in
    rw (role, h.of_client, r, e, early_process_event_of taken q early)
      (ap (λ p. p.0) (raised Received attribute_error (their_role after_it) after_it))
