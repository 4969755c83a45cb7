-- ===== src/State/Table.antt =====
-- The sentinels and the two transition tables of h11/_state.py.
use h.Prelude.{ℕ, ◌==◌, Bool, ◌&&◌, Option, none, some}

pub data Role : Type 0 where
  client server : Role

pub data State : Type 0 where
  idle send_response send_body done must_close closed error : State
  might_switch_protocol switched_protocol : State

pub data SwitchType : Type 0 where
  switch_upgrade switch_connect : SwitchType

-- `type(event)` of an event (h11/_events.py).
pub data EventType : Type 0 where
  request informational_response response data_event end_of_message connection_closed : EventType

-- The keys of the inner dictionaries: an event type, or one with an annotation.
pub data Trigger : Type 0 where
  plain : EventType → Trigger
  with_role : EventType → Role → Trigger
  with_switch : EventType → SwitchType → Trigger

-- Sentinels are compared by identity; each is given a number of its own.
abbrev pub state_tag : State → ℕ
state_tag idle = 0
state_tag send_response = 1
state_tag send_body = 2
state_tag done = 3
state_tag must_close = 4
state_tag closed = 5
state_tag error = 6
state_tag might_switch_protocol = 7
state_tag switched_protocol = 8

-- `a is b`
abbrev pub state_eq : State → State → Bool
state_eq a b = state_tag a == state_tag b

-- `self.states`
pub record States : Type 0 where
  pub of_client : State
  pub of_server : State

abbrev pub get_state : States → Role → State
get_state s client = s.of_client
get_state s server = s.of_server

abbrev pub set_state : States → Role → State → States
set_state s client x = record s { of_client = x }
set_state s server x = record s { of_server = x }

abbrev pub states_eq : States → States → Bool
states_eq s t = state_eq s.of_client t.of_client && state_eq s.of_server t.of_server

abbrev pub client_transitions : State → Trigger → Option State
client_transitions idle (plain request) = some send_body
client_transitions idle (plain connection_closed) = some closed
client_transitions send_body (plain data_event) = some send_body
client_transitions send_body (plain end_of_message) = some done
client_transitions done (plain connection_closed) = some closed
client_transitions must_close (plain connection_closed) = some closed
client_transitions closed (plain connection_closed) = some closed
client_transitions _ _ = none

abbrev pub server_transitions : State → Trigger → Option State
server_transitions idle (plain connection_closed) = some closed
server_transitions idle (plain response) = some send_body
server_transitions idle (with_role request client) = some send_response
server_transitions send_response (plain informational_response) = some send_response
server_transitions send_response (plain response) = some send_body
server_transitions send_response (with_switch informational_response switch_upgrade) =
    some switched_protocol
server_transitions send_response (with_switch response switch_connect) = some switched_protocol
server_transitions send_body (plain data_event) = some send_body
server_transitions send_body (plain end_of_message) = some done
server_transitions done (plain connection_closed) = some closed
server_transitions must_close (plain connection_closed) = some closed
server_transitions closed (plain connection_closed) = some closed
server_transitions _ _ = none

-- `none` is a missing key, at whichever level it is missing.
unfoldable pub event_triggered_transitions : Role → State → Trigger → Option State
event_triggered_transitions client s t = client_transitions s t
event_triggered_transitions server s t = server_transitions s t

-- The joint state after the changes of the table; without an entry there are none.
unfoldable pub state_triggered_transitions : State → State → States
state_triggered_transitions might_switch_protocol switched_protocol = record {
  of_client = switched_protocol;
  of_server = switched_protocol;
}
state_triggered_transitions closed done = record { of_client = closed; of_server = must_close }
state_triggered_transitions closed idle = record { of_client = closed; of_server = must_close }
state_triggered_transitions error done = record { of_client = error; of_server = must_close }
state_triggered_transitions done closed = record { of_client = must_close; of_server = closed }
state_triggered_transitions idle closed = record { of_client = must_close; of_server = closed }
state_triggered_transitions done error = record { of_client = must_close; of_server = error }
state_triggered_transitions c s = record { of_client = c; of_server = s }
