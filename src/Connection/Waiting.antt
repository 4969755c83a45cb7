-- ===== src/Connection/Waiting.antt =====
-- `client_is_waiting_for_100_continue` (h11/_connection.py), beside the client's state.
use h.Prelude.{◌≡◌, refl, ◌⊎◌, inr, Bool, true, Option, none, some, arith}
use h.Prelude.Exec.{Result, ok, err, continue, modify}
use h.Events.{
  Event, request, informational_response, response, data_event, end_of_message, connection_closed,
  type_of,
}
use h.State.Table.{Role, client, server, send_body, error, SwitchType}
use h.State.Defs.{
  ConnectionState, fire_round, fire_state_triggered_transitions, process_error,
  process_keep_alive_disabled, process_client_switch_proposal, take_event, process_event,
}
use h.State.Fixpoint.{fire-eq-round}
use h.Connection.Defs.{waiting_after}

-- A client that waits has sent its request, and no more, or has failed.
abbrev pub Held : Bool → ConnectionState → Type 0
Held waiting m = waiting ≡ true → (m.states.of_client ≡ send_body) ⊎ (m.states.of_client ≡ error)

round-Held : (w : Bool) (m : ConnectionState) → Held w m → Held w (fire_round m)
unfolding fire_round
round-Held w m h = ground arith

pub fire-Held :
    (w : Bool) (m : ConnectionState) → Held w m → Held w (fire_state_triggered_transitions m)
fire-Held w m h = rw (fire-eq-round m) (round-Held w m h)

pub process_error-Held :
    (r : Role) (w : Bool) (m : ConnectionState) → Held w m → Held w (process_error r m)
unfolding process_error
process_error-Held client w m h = fire-Held w _ (λ _. inr refl)
process_error-Held server w m h = fire-Held w _ h

pub keep_alive_disabled-Held :
    (w : Bool) (m : ConnectionState) → Held w m → Held w (process_keep_alive_disabled m)
unfolding process_keep_alive_disabled
keep_alive_disabled-Held w m h = fire-Held w _ h

pub switch_proposal-Held :
    (sw : SwitchType) (w : Bool) (m : ConnectionState)
    → Held w m
    → Held w (process_client_switch_proposal sw m)
unfolding process_client_switch_proposal
switch_proposal-Held sw w m h = fire-Held w _ h

-- What an event does to a client that waits, before the loop.
abbrev pub Handled : (Bool → Bool) → Bool → Result (Unit {0}) × ConnectionState → Type 0
Handled after w (ok u, m) = Held (after w) m
Handled after w (err e, m) = Held w m

take_event-Handled :
    (r : Role) (event : Event) (sw : Option SwitchType) (w : Bool) (m : ConnectionState)
    → Held w m
    → Handled (waiting_after r event) w (take_event r (type_of event) sw m)
unfolding take_event
take_event-Handled client (request q) none w m h = ground arith
take_event-Handled client (informational_response q) none w m h = ground arith
take_event-Handled client (response q) none w m h = ground arith
take_event-Handled client (data_event d) none w m h = ground arith
take_event-Handled client (end_of_message hs) none w m h = ground arith
take_event-Handled client connection_closed none w m h = ground arith
take_event-Handled server (request q) none w m h = ground arith
take_event-Handled server (informational_response q) none w m h = ground arith
take_event-Handled server (response q) none w m h = ground arith
take_event-Handled server (data_event d) none w m h = ground arith
take_event-Handled server (end_of_message hs) none w m h = ground arith
take_event-Handled server connection_closed none w m h = ground arith
take_event-Handled client event (some sw) w m h = ground arith
take_event-Handled server (request q) (some sw) w m h = ground arith
take_event-Handled server (informational_response q) (some sw) w m h = ground arith
take_event-Handled server (response q) (some sw) w m h = ground arith
take_event-Handled server (data_event d) (some sw) w m h = ground arith
take_event-Handled server (end_of_message hs) (some sw) w m h = ground arith
take_event-Handled server connection_closed (some sw) w m h = ground arith

Handled-fire :
    (after : Bool → Bool) (w : Bool) (p : Result (Unit {0}) × ConnectionState)
    → Handled after w p
    → Handled after w (continue p.0 (λ _. modify fire_state_triggered_transitions) p.1)
Handled-fire after w (ok u, m) h = fire-Held (after w) m h
Handled-fire after w (err e, m) h = h

pub process_event-Handled :
    (r : Role) (event : Event) (sw : Option SwitchType) (w : Bool) (m : ConnectionState)
    → Held w m
    → Handled (waiting_after r event) w (process_event r (type_of event) sw m)
unfolding process_event
process_event-Handled r event sw w m h =
    Handled-fire (waiting_after r event) w (take_event r (type_of event) sw m)
      (take_event-Handled r event sw w m h)
