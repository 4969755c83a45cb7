-- ===== src/Protocol/Writable.antt =====
-- The writer that is called for an event that the state machine accepts (h11/_connection.py,
-- h11/_writers.py).
use h.Prelude.{◌≡◌, ◌⊎◌, Bool, true, false, Option, none, some, arith}
use h.Prelude.Bytes.{bytes_eq, codes}
use h.Prelude.Exec.{Result, ok, err, modify, continue}
use h.Events.{
  Event, request, informational_response, response, data_event, end_of_message, connection_closed,
  type_of,
}
use h.Headers.Defs.{get_comma_header}
use h.State.Table.{
  Role, client, server, State, idle, send_response, send_body, get_state, SwitchType,
  switch_upgrade, switch_connect, EventType,
}
use h.State.Defs.{
  ConnectionState, fire_round, fire_state_triggered_transitions, take_event, process_event,
  process_client_switch_proposal,
}
use h.State.Fixpoint.{fire-eq-round}
use h.Connection.Defs.{propose, propose_if, is_nonempty_list}

-- The states in which a role can say something.
abbrev pub Writable : Role → State → EventType → Type 0
Writable r s EventType.connection_closed = Unit {0}
Writable client s EventType.request = s ≡ idle
Writable server s EventType.informational_response = s ≡ send_response
Writable server s EventType.response = (s ≡ idle) ⊎ (s ≡ send_response)
Writable r s EventType.data_event = s ≡ send_body
Writable r s EventType.end_of_message = s ≡ send_body
Writable r s _ = ⊥

abbrev pub IfReturned : Type 0 → Result (Unit {0}) × ConnectionState → Type 0
IfReturned P (ok u, n) = P
IfReturned P (err e, n) = Unit {0}

take_event-Writable :
    (r : Role) (e : EventType) (sw : Option SwitchType) (m : ConnectionState)
    → IfReturned (Writable r (get_state m.states r) e) (take_event r e sw m)
unfolding take_event
take_event-Writable client EventType.request none m = ground arith
take_event-Writable client EventType.connection_closed none m = ground arith
take_event-Writable client _ none m = ground arith
take_event-Writable client _ (some sw) m = ground arith
take_event-Writable server EventType.request none m = ground arith
take_event-Writable server EventType.connection_closed none m = ground arith
take_event-Writable server _ none m = ground arith
take_event-Writable server EventType.request (some sw) m = ground arith
take_event-Writable server EventType.connection_closed (some sw) m = ground arith
take_event-Writable server _ (some sw) m = ground arith

IfReturned-fire :
    (P : Type 0) (p : Result (Unit {0}) × ConnectionState)
    → IfReturned P p
    → IfReturned P (continue p.0 (λ _. modify fire_state_triggered_transitions) p.1)
IfReturned-fire P (ok u, n) h = h
IfReturned-fire P (err e, n) h = tt

pub process_event-Writable :
    (r : Role) (e : EventType) (sw : Option SwitchType) (m : ConnectionState)
    → IfReturned (Writable r (get_state m.states r) e) (process_event r e sw m)
unfolding process_event
process_event-Writable r e sw m =
    IfReturned-fire _ (take_event r e sw m) (take_event-Writable r e sw m)

-- No proposal makes a client idle.
round-idle :
    (m : ConnectionState) → (fire_round m).states.of_client ≡ idle → m.states.of_client ≡ idle
unfolding fire_round
round-idle m h = ground arith

propose_if-idle :
    (b : Bool) (sw : SwitchType) (m : ConnectionState)
    → (propose_if b sw m).states.of_client ≡ idle
    → m.states.of_client ≡ idle
unfolding process_client_switch_proposal
propose_if-idle true sw m h = round-idle _ (rw (fire-eq-round _) at h)
propose_if-idle false sw m h = h

pub propose-Writable :
    (r : Role) (event : Event) (m : ConnectionState)
    → Writable r (get_state (propose r event m).states r) (type_of event)
    → Writable r (get_state m.states r) (type_of event)
unfolding propose
propose-Writable client (request q) m h =
    let connect = bytes_eq q.method (codes "CONNECT") in
    propose_if-idle connect switch_connect m (
      propose_if-idle (is_nonempty_list (get_comma_header q.headers (codes "upgrade")))
        switch_upgrade (propose_if connect switch_connect m) h)
propose-Writable client (informational_response q) m h = h
propose-Writable client (response q) m h = h
propose-Writable client (data_event d) m h = h
propose-Writable client (end_of_message hs) m h = h
propose-Writable client connection_closed m h = h
propose-Writable server event m h = h
