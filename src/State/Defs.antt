-- ===== src/State/Defs.antt =====
-- `ConnectionState` of h11/_state.py: the state of the five machines, and its methods.
use h.Prelude.{ℕ, zero, suc, Bool, true, false, not, ◌&&◌, ◌||◌, Option, none, some, if◌then◌else◌}
use h.Prelude.Exec.{
  Error, attribute_error, local_protocol_error, ok, err, Exec, pure, raise, modify, assert, gets,
  ◌>>=◌, ◌>>◌,
}
use h.State.Table.{
  Role, client, server, State, idle, done, must_close, error, might_switch_protocol, SwitchType,
  switch_upgrade, switch_connect, EventType, request, response, Trigger, plain, with_role,
  with_switch, States, get_state, set_state, states_eq, state_eq, event_triggered_transitions,
  state_triggered_transitions,
}

-- A subset of {_SWITCH_UPGRADE, _SWITCH_CONNECT}.
pub record Proposals : Type 0 where
  pub upgrade : Bool
  pub connect : Bool

abbrev pub no_proposals : Proposals
no_proposals = record { upgrade = false; connect = false }

-- `x in pending_switch_proposals`
abbrev pub has_proposal : Proposals → SwitchType → Bool
has_proposal p switch_upgrade = p.upgrade
has_proposal p switch_connect = p.connect

-- `pending_switch_proposals.add(x)`
abbrev pub add_proposal : Proposals → SwitchType → Proposals
add_proposal p switch_upgrade = record p { upgrade = true }
add_proposal p switch_connect = record p { connect = true }

-- `bool(pending_switch_proposals)`
abbrev pub any_proposal : Proposals → Bool
any_proposal p = p.upgrade || p.connect

pub record ConnectionState : Type 0 where
  pub keep_alive : Bool
  pub pending_switch_proposals : Proposals
  pub states : States

unfoldable pub initial : ConnectionState
initial = record {
  keep_alive = true;
  pending_switch_proposals = no_proposals;
  states = record { of_client = idle; of_server = idle };
}

-- `if self.pending_switch_proposals` and `if not self.pending_switch_proposals`
abbrev pub switch_client : Bool → State → State
switch_client pending c =
    let c₁ = if pending then (if state_eq c done then might_switch_protocol else c) else c in
    if pending then c₁ else if state_eq c₁ might_switch_protocol then done else c₁

-- `if self.states[role] is DONE: self.states[role] = MUST_CLOSE`
abbrev pub close_if_done : Bool → State → State
close_if_done keep_alive s = if keep_alive then s else if state_eq s done then must_close else s

-- The body of the `while True` loop, without its final test.
unfoldable pub fire_round : ConnectionState → ConnectionState
unfolding state_triggered_transitions
fire_round m =
    let c = switch_client (any_proposal m.pending_switch_proposals) m.states.of_client in
    let c' = close_if_done m.keep_alive c in
    let s' = close_if_done m.keep_alive m.states.of_server in
    record m { states = state_triggered_transitions c' s' }

-- The loop, with a bound on its rounds.
unfoldable pub fire_loop : ℕ → ConnectionState → ConnectionState
fire_loop zero m = m
fire_loop (suc fuel) m =
    let m' = fire_round m in
    let rest = fire_loop fuel m' in if states_eq m'.states m.states then m' else rest

-- `_fire_state_triggered_transitions`, with a bound of two rounds.
unfoldable pub fire_state_triggered_transitions : ConnectionState → ConnectionState
fire_state_triggered_transitions m = fire_loop 2 m

unfoldable pub process_error : Role → ConnectionState → ConnectionState
process_error role m =
    fire_state_triggered_transitions (record m { states = set_state m.states role error })

unfoldable pub process_keep_alive_disabled : ConnectionState → ConnectionState
process_keep_alive_disabled m = fire_state_triggered_transitions (record m { keep_alive = false })

unfoldable pub process_client_switch_proposal : SwitchType → ConnectionState → ConnectionState
process_client_switch_proposal switch_event m =
    fire_state_triggered_transitions
      (record m { pending_switch_proposals = add_proposal m.pending_switch_proposals switch_event })

-- `event_type.__name__` for the message: a class has a name, a pair has none.
abbrev pub missing_key : Trigger → Error
missing_key (plain event_type) = local_protocol_error 400
missing_key (with_role event_type role) = attribute_error
missing_key (with_switch event_type switch_event) = attribute_error

-- The outcome of the look-up, where a missing key is the `except KeyError` block.
abbrev pub enter : Role → Trigger → Option State → Exec ConnectionState (Unit {0})
enter role t none m = (err (missing_key t), m)
enter role t (some new_state) m = (ok tt, record m { states = set_state m.states role new_state })

unfoldable pub fire_event_triggered_transitions : Role → Trigger → Exec ConnectionState (Unit {0})
unfolding event_triggered_transitions
fire_event_triggered_transitions role t m =
    enter role t (event_triggered_transitions role (get_state m.states role) t) m

abbrev pub is_server : Role → Bool
is_server client = false
is_server server = true

-- `if server_switch_event is not None`: the key that the table is asked for.
abbrev pub annotate : Role → EventType → Option SwitchType → Exec ConnectionState Trigger
annotate role e none = pure (plain e)
annotate role e (some sw) = do
  assert (is_server role)
  pending ← gets (λ m. has_proposal m.pending_switch_proposals sw)
  if pending then pure (with_switch e sw) else raise (local_protocol_error 400)

-- A Response that is no switch denies every proposal.
abbrev pub deny_proposals : EventType → Option SwitchType → Exec ConnectionState (Unit {0})
deny_proposals response none = modify (λ m. record m { pending_switch_proposals = no_proposals })
deny_proposals _ _ = pure tt

-- The server machine sees the client's Request.
abbrev pub show_request : Role → Trigger → Exec ConnectionState (Unit {0})
show_request role (plain request) = do
  assert (not (is_server role))
  fire_event_triggered_transitions server (with_role request client)
show_request role _ = pure tt

-- `process_event` up to its call of `_fire_state_triggered_transitions`.
unfoldable pub take_event : Role → EventType → Option SwitchType → Exec ConnectionState (Unit {0})
unfolding fire_event_triggered_transitions
take_event role event_type server_switch_event = do
  t ← annotate role event_type server_switch_event
  deny_proposals event_type server_switch_event
  fire_event_triggered_transitions role t
  show_request role t

unfoldable pub process_event :
    Role → EventType → Option SwitchType → Exec ConnectionState (Unit {0})
process_event role event_type server_switch_event = do
  take_event role event_type server_switch_event
  modify fire_state_triggered_transitions

unfoldable pub start_next_cycle : Exec ConnectionState (Unit {0})
start_next_cycle m =
    if not (state_eq m.states.of_client done && state_eq m.states.of_server done)
    then raise (local_protocol_error 400) m
    else (do
      assert m.keep_alive
      assert (not (any_proposal m.pending_switch_proposals))
      modify (λ n. record n { states = record { of_client = idle; of_server = idle } }))
        m
