-- ===== src/State/Switch.antt =====
-- Protocol switches, and events that are refused (h11/_state.py).
use h.Prelude.{◌≡◌, refl, Bool, true, false, arith, Option, none, some, if◌then◌else◌}
use h.Prelude.Exec.{Result, ok, err, modify, continue}
use h.State.Table.{
  Role, server, send_response, send_body, done, must_close, might_switch_protocol,
  switched_protocol, SwitchType, switch_upgrade, switch_connect, EventType, request,
  informational_response, response,
}
use h.State.Defs.{
  Proposals, no_proposals, has_proposal, ConnectionState, fire_round, fire_loop,
  fire_state_triggered_transitions, take_event, process_event,
}

-- The annotated events that the server machine has transitions for.
abbrev pub IsSwitch : EventType → SwitchType → Type 0
IsSwitch informational_response switch_upgrade = Unit {0}
IsSwitch response switch_connect = Unit {0}
IsSwitch _ _ = ⊥

switch_taken :
    (e : EventType) (sw : SwitchType) (m : ConnectionState)
    → (take_event server e (some sw) m).0 ≡ ok tt
    → IsSwitch e sw
      × (has_proposal m.pending_switch_proposals sw ≡ true)
      × (m.states.of_server ≡ send_response)
      × ((take_event server e (some sw) m).1 ≡ record m {
        states = record { of_client = m.states.of_client; of_server = switched_protocol };
      })
unfolding take_event
switch_taken request switch_upgrade m h = ground arith
switch_taken request switch_connect m h = ground arith
switch_taken informational_response switch_upgrade m h = ground arith
switch_taken informational_response switch_connect m h = ground arith
switch_taken response switch_upgrade m h = ground arith
switch_taken response switch_connect m h = ground arith
switch_taken _ switch_upgrade m h = ground arith
switch_taken _ switch_connect m h = ground arith

accepted :
    (r : Result (Unit {0}) × ConnectionState)
    → (continue r.0 (λ _. modify fire_state_triggered_transitions) r.1).0 ≡ ok tt
    → r.0 ≡ ok tt
accepted (ok u, m) h = refl
accepted (err e, m) h = h

pub event_taken :
    (r : Role) (e : EventType) (sw : Option SwitchType) (m : ConnectionState)
    → (process_event r e sw m).0 ≡ ok tt
    → (take_event r e sw m).0 ≡ ok tt
unfolding process_event
event_taken r e sw m h = accepted (take_event r e sw m) h

-- A server event with a switch annotation is accepted only if the switch is a pending proposal,
-- the server is in SEND_RESPONSE, and the event is a 1xx response with an upgrade or a response
-- with a CONNECT.
pub switch_needs_proposal :
    (e : EventType) (sw : SwitchType) (m : ConnectionState)
    → (process_event server e (some sw) m).0 ≡ ok tt
    → IsSwitch e sw
      × (has_proposal m.pending_switch_proposals sw ≡ true)
      × (m.states.of_server ≡ send_response)
switch_needs_proposal e sw m h =
    let t = switch_taken e sw m (event_taken server e (some sw) m h) in (t.0, t.1, t.2)

-- The client waits for the answer to its proposals.
abbrev pub awaiting_switch : Bool → Proposals → ConnectionState
awaiting_switch k p = record {
  keep_alive = k;
  pending_switch_proposals = p;
  states = record { of_client = might_switch_protocol; of_server = send_response };
}

-- Where the client is in MIGHT_SWITCH_PROTOCOL and the server in SEND_RESPONSE, an event that
-- accepts a pending proposal (a 1xx response an upgrade, a response a CONNECT) is accepted, and
-- moves both roles to SWITCHED_PROTOCOL.
pub switch_moves_both :
    (e : EventType) (sw : SwitchType) (k : Bool) (p : Proposals)
    → IsSwitch e sw
    → has_proposal p sw ≡ true
    → process_event server e (some sw) (awaiting_switch k p) ≡ (
      ok tt,
      record {
        keep_alive = k;
        pending_switch_proposals = p;
        states = record { of_client = switched_protocol; of_server = switched_protocol };
      },
    )
unfolding process_event take_event fire_state_triggered_transitions fire_loop fire_round
switch_moves_both informational_response switch_upgrade k p i h = ground arith
switch_moves_both response switch_connect k p i h = ground arith
switch_moves_both informational_response switch_connect k p i h = absurd i
switch_moves_both response switch_upgrade k p i h = absurd i
switch_moves_both _ _ k p i h = absurd i

-- Where the client is in MIGHT_SWITCH_PROTOCOL and the server in SEND_RESPONSE, a Response that is
-- no switch is accepted and withdraws every proposal: the client goes on to DONE, or to MUST_CLOSE
-- where keep-alive is disabled, and the server to SEND_BODY.
pub response_denies :
    (k : Bool) (p : Proposals)
    → process_event server response none (awaiting_switch k p) ≡ (
      ok tt,
      record {
        keep_alive = k;
        pending_switch_proposals = no_proposals;
        states = record { of_client = if k then done else must_close; of_server = send_body };
      },
    )
unfolding process_event take_event fire_state_triggered_transitions fire_loop fire_round
response_denies true p = refl
response_denies false p = refl
