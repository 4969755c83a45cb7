-- ===== src/State/Invariant.antt =====
-- What holds of a `ConnectionState` (h11/_state.py) between two calls of its methods.
use h.Prelude.{◌≡◌, ◌≢◌, true, false, arith, ◌⊎◌, Option, none, some}
use h.Prelude.Exec.{Result, ok, err, modify, continue}
use h.State.Table.{
  Role, client, server, send_response, done, error, might_switch_protocol, switched_protocol,
  SwitchType, EventType, request,
}
use h.State.Defs.{
  any_proposal, ConnectionState, initial, fire_round, fire_state_triggered_transitions,
  process_error, process_keep_alive_disabled, process_client_switch_proposal, take_event,
  process_event, start_next_cycle,
}
use h.State.Fixpoint.{fire-eq-round}

pub record IsSound (m : ConnectionState) : Type 0 where
  pub reusable :
      m.states.of_client ≡ done
      → m.states.of_server ≡ done
      → (m.keep_alive ≡ true) × (any_proposal m.pending_switch_proposals ≡ false)
  pub switched :
      m.states.of_client ≡ switched_protocol
      → (m.states.of_server ≡ switched_protocol) ⊎ (m.states.of_server ≡ error)
  pub client_states : m.states.of_client ≢ send_response
  pub server_states : m.states.of_server ≢ might_switch_protocol

-- What a round needs of the state that it starts from.
pub record IsReady (m : ConnectionState) : Type 0 where
  pub switched :
      m.states.of_client ≡ switched_protocol
      → (m.states.of_server ≡ switched_protocol) ⊎ (m.states.of_server ≡ error)
  pub client_states : m.states.of_client ≢ send_response
  pub server_states : m.states.of_server ≢ might_switch_protocol

pub round-IsSound : (m : ConnectionState) → IsReady m → IsSound (fire_round m)
unfolding fire_round
round-IsSound m h = ground arith

pub fire-IsSound : (m : ConnectionState) → IsReady m → IsSound (fire_state_triggered_transitions m)
fire-IsSound m h = rw (fire-eq-round m) (round-IsSound m h)

pub initial-IsSound : IsSound initial
unfolding initial
initial-IsSound = ground arith

pub process_error-IsSound :
    (r : Role) (m : ConnectionState) → IsSound m → IsSound (process_error r m)
unfolding process_error
process_error-IsSound client m h = fire-IsSound _ (ground arith)
process_error-IsSound server m h = fire-IsSound _ (ground arith)

pub keep_alive_disabled-IsSound :
    (m : ConnectionState) → IsSound m → IsSound (process_keep_alive_disabled m)
unfolding process_keep_alive_disabled
keep_alive_disabled-IsSound m h = fire-IsSound _ (ground arith)

pub client_switch_proposal-IsSound :
    (sw : SwitchType) (m : ConnectionState)
    → IsSound m
    → IsSound (process_client_switch_proposal sw m)
unfolding process_client_switch_proposal
client_switch_proposal-IsSound sw m h = fire-IsSound _ (ground arith)

pub start_next_cycle-IsSound : (m : ConnectionState) → IsSound m → IsSound (start_next_cycle m).1
unfolding start_next_cycle
start_next_cycle-IsSound m h = ground arith

-- Before the loop: ready for it where the event was accepted, sound where it was not.
abbrev Taken : Result (Unit {0}) × ConnectionState → Type 0
Taken (ok u, m) = IsReady m
Taken (err e, m) = IsSound m

take_event-Taken :
    (r : Role) (e : EventType) (sw : Option SwitchType) (m : ConnectionState)
    → IsSound m
    → Taken (take_event r e sw m)
unfolding take_event
take_event-Taken client request none m h = ground arith
take_event-Taken client _ none m h = ground arith
take_event-Taken client request (some sw) m h = ground arith
take_event-Taken client _ (some sw) m h = ground arith
take_event-Taken server request none m h = ground arith
take_event-Taken server _ none m h = ground arith
take_event-Taken server request (some sw) m h = ground arith
take_event-Taken server _ (some sw) m h = ground arith

Taken-IsSound :
    (p : Result (Unit {0}) × ConnectionState)
    → Taken p
    → IsSound (continue p.0 (λ _. modify fire_state_triggered_transitions) p.1).1
Taken-IsSound (ok u, m) h = fire-IsSound m h
Taken-IsSound (err e, m) h = h

pub process_event-IsSound :
    (r : Role) (e : EventType) (sw : Option SwitchType) (m : ConnectionState)
    → IsSound m
    → IsSound (process_event r e sw m).1
unfolding process_event
process_event-IsSound r e sw m h = Taken-IsSound (take_event r e sw m) (take_event-Taken r e sw m h)
