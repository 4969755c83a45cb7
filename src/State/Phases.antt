-- ===== src/State/Phases.antt =====
-- The order of the states in a request/response cycle (h11/_state.py).
use h.Prelude.{ℕ, ◌≤◌, ◌≡◌, false, arith, Option, none, some}
use h.Prelude.Exec.{local_protocol_error, Result, ok, err, modify, continue}
use h.State.Table.{
  Role, client, server, State, get_state, idle, send_response, send_body, done, must_close, closed,
  error, might_switch_protocol, switched_protocol, SwitchType, EventType, request,
}
use h.State.Defs.{
  initial, ConnectionState, fire_round, fire_state_triggered_transitions, process_error,
  process_keep_alive_disabled, process_client_switch_proposal, take_event, process_event,
  start_next_cycle,
}
use h.State.Invariant.{IsSound, initial-IsSound}
use h.State.Fixpoint.{fire-eq-round}
use h.State.Reach.{
  Reach-IsSound, Step, on_error, on_keep_alive_disabled, on_proposal, on_event, Reach, here, call,
  next_cycle,
}

-- How far a role has come in a request/response cycle.
abbrev pub phase : State → ℕ
phase idle = 0
phase send_response = 1
phase send_body = 2
phase done = 3
phase might_switch_protocol = 3
phase must_close = 4
phase closed = 5
phase switched_protocol = 6
phase error = 7

-- `n` is no earlier than `m` in either role, and keep-alive is not back.
pub record NoEarlier (m n : ConnectionState) : Type 0 where
  pub of_client : phase m.states.of_client ≤ phase n.states.of_client
  pub of_server : phase m.states.of_server ≤ phase n.states.of_server
  pub keep_alive : m.keep_alive ≡ false → n.keep_alive ≡ false

NoEarlier-refl : (m : ConnectionState) → NoEarlier m m
NoEarlier-refl m = ground arith

NoEarlier-trans : {m n k : ConnectionState} → NoEarlier m n → NoEarlier n k → NoEarlier m k
NoEarlier-trans a b = ground arith

NoEarlier-round : (m : ConnectionState) → NoEarlier m (fire_round m)
unfolding fire_round
NoEarlier-round m = ground arith

NoEarlier-fire : (m : ConnectionState) → NoEarlier m (fire_state_triggered_transitions m)
NoEarlier-fire m = rw (fire-eq-round m) (NoEarlier-round m)

module _ (m : ConnectionState) where
  NoEarlier-error : (r : Role) → NoEarlier m (process_error r m)
  unfolding process_error
  NoEarlier-error client = NoEarlier-trans (ground arith) (NoEarlier-fire _)
  NoEarlier-error server = NoEarlier-trans (ground arith) (NoEarlier-fire _)

  NoEarlier-keep_alive_disabled : NoEarlier m (process_keep_alive_disabled m)
  unfolding process_keep_alive_disabled
  NoEarlier-keep_alive_disabled = NoEarlier-trans (ground arith) (NoEarlier-fire _)

  NoEarlier-proposal : (sw : SwitchType) → NoEarlier m (process_client_switch_proposal sw m)
  unfolding process_client_switch_proposal
  NoEarlier-proposal sw = NoEarlier-trans (ground arith) (NoEarlier-fire _)

  NoEarlier-take :
      (r : Role) (e : EventType) (sw : Option SwitchType) → NoEarlier m (take_event r e sw m).1
  unfolding take_event
  NoEarlier-take client request none = ground arith
  NoEarlier-take client _ none = ground arith
  NoEarlier-take client request (some sw) = ground arith
  NoEarlier-take client _ (some sw) = ground arith
  NoEarlier-take server request none = ground arith
  NoEarlier-take server _ none = ground arith
  NoEarlier-take server request (some sw) = ground arith
  NoEarlier-take server _ (some sw) = ground arith

  NoEarlier-then_fire :
      (p : Result (Unit {0}) × ConnectionState)
      → NoEarlier m p.1
      → NoEarlier m (continue p.0 (λ _. modify fire_state_triggered_transitions) p.1).1
  NoEarlier-then_fire (ok u, n) h = NoEarlier-trans h (NoEarlier-fire n)
  NoEarlier-then_fire (err e, n) h = h

  NoEarlier-event :
      (r : Role) (e : EventType) (sw : Option SwitchType) → NoEarlier m (process_event r e sw m).1
  unfolding process_event
  NoEarlier-event r e sw = NoEarlier-then_fire (take_event r e sw m) (NoEarlier-take r e sw)

-- No call but `start_next_cycle`, raising or not, takes a role back to an earlier phase or turns
-- keep-alive on again.
pub Step-NoEarlier : {m n : ConnectionState} → Step m n → NoEarlier m n
Step-NoEarlier {m} (on_error r) = NoEarlier-error m r
Step-NoEarlier {m} on_keep_alive_disabled = NoEarlier-keep_alive_disabled m
Step-NoEarlier {m} (on_proposal sw) = NoEarlier-proposal m sw
Step-NoEarlier {m} (on_event r e sw) = NoEarlier-event m r e sw

-- What is final: a role in ERROR, and keep-alive once disabled.
abbrev pub Final : ConnectionState → ConnectionState → Type 0
Final m n =
    (m.states.of_client ≡ error → n.states.of_client ≡ error)
    × (m.states.of_server ≡ error → n.states.of_server ≡ error)
    × (m.keep_alive ≡ false → n.keep_alive ≡ false)

phase_error : (s : State) → 7 ≤ phase s → s ≡ error
phase_error s h = ground arith

NoEarlier-Final : {m n : ConnectionState} → NoEarlier m n → Final m n
NoEarlier-Final {m} {n} h = (
  λ e. phase_error n.states.of_client (rw e at h.of_client),
  λ e. phase_error n.states.of_server (rw e at h.of_server),
  h.keep_alive,
)

start_next_cycle-Final : (m : ConnectionState) → Final m (start_next_cycle m).1
unfolding start_next_cycle
start_next_cycle-Final m = ground arith

-- However the connection goes on, what is final stays.
Reach-Final : {m n : ConnectionState} → Reach m n → Final m n
Reach-Final here = (λ e. e, λ e. e, λ e. e)
Reach-Final (call r st) =
    let (c, s, k) = Reach-Final r in
    let (c', s', k') = NoEarlier-Final (Step-NoEarlier st) in
    (λ e. c' (c e), λ e. s' (s e), λ e. k' (k e))
Reach-Final (next_cycle {n = n} r) =
    let (c, s, k) = Reach-Final r in
    let (c', s', k') = start_next_cycle-Final n in (λ e. c' (c e), λ e. s' (s e), λ e. k' (k e))

-- Whatever calls of the methods follow, `start_next_cycle` included, a role in ERROR stays in
-- ERROR.
pub error_is_final :
    (r : Role) {m n : ConnectionState}
    → Reach m n
    → get_state m.states r ≡ error
    → get_state n.states r ≡ error
error_is_final client h e = (Reach-Final h).0 e
error_is_final server h e = (Reach-Final h).1 e

keep_alive_stays_disabled :
    {m n : ConnectionState} → Reach m n → m.keep_alive ≡ false → n.keep_alive ≡ false
keep_alive_stays_disabled h e = (Reach-Final h).2 e

Reach-trans : {m n k : ConnectionState} → Reach m n → Reach n k → Reach m k
Reach-trans r here = r
Reach-trans r (call s st) = call (Reach-trans r s) st
Reach-trans r (next_cycle s) = next_cycle (Reach-trans r s)

not_reusable :
    (m : ConnectionState)
    → IsSound m
    → m.keep_alive ≡ false
    → start_next_cycle m ≡ (err (local_protocol_error 400), m)
unfolding start_next_cycle
not_reusable m h e = ground arith

-- In every state that calls of the methods bring about from the initial one: where keep-alive is
-- disabled, `start_next_cycle` raises a LocalProtocolError and changes nothing, then and after any
-- further calls.
pub never_reused :
    {m n : ConnectionState}
    → Reach initial m
    → m.keep_alive ≡ false
    → Reach m n
    → start_next_cycle n ≡ (err (local_protocol_error 400), n)
never_reused {m} {n} r e s =
    not_reusable n (Reach-IsSound initial-IsSound (Reach-trans r s)) (keep_alive_stays_disabled s e)
