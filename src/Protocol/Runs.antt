-- ===== src/Protocol/Runs.antt =====
-- The runs of a `Connection` (h11/_connection.py) on events that their constructors made, and
-- `start_next_cycle` between them.
use h.Prelude.{ℕ, ◌≡◌, refl, sym, ap, subst, ◌∙◌, ◌⊎◌, inl, inr, none, []}
use h.Prelude.Bytes.{Bytes}
use h.Prelude.Exec.{Error, attribute_error, local_protocol_error, Result, ok, err, continue}
use h.Events.{Event}
use h.State.Table.{Role, client, server, States, idle, done, get_state}
use h.State.Defs.{ConnectionState, initial, start_next_cycle}
use h.State.Invariant.{IsSound, initial-IsSound, start_next_cycle-IsSound}
use h.Buffer.Cache.{fresh-IsCached}
use h.Connection.Defs.{
  Connection, new, their_role, other_role, respond_to_state_changes, start_next_cycle_of,
}
use h.Connection.Receive.{receive_data, next_event}
use h.Connection.Send.{send_with_data_passthrough, send_failed}
use h.Connection.Healthy.{Healthy}
use h.Connection.NextCycle.{machine_cycles, done-Held, asserted, both_idle, after_machine}
use h.Connection.Runs.{
  Reachable, made, after_receive_data, after_next_event, after_send, after_send_failed,
  after_start_next_cycle, Reachable-Healthy,
}
use h.Protocol.Defs.{IsLocal, IsRemote}
use h.Protocol.Events.{IsMade}
use h.Protocol.Fits.{readers-Fits, writers-Fits, IsSound-IsRoleState, ReaderFits, WriterFits}
use h.Protocol.Respond.{respond-Responded}
use h.Protocol.Refused.{OutOfTurn}
use h.Protocol.Process.{Fits, Responded-Fits}
use h.Protocol.Receive.{Answers-Fits, Answers-error, next_event-Answers, receive_data-Fits}
use h.Protocol.Send.{send-Answers, send_failed-Fits}

cycled :
    (old : States) (c : Connection) (p : Result (Unit {0}) × ConnectionState)
    → Healthy c
    → Fits c
    → old ≡ c.cstate.states
    → IsSound p.1
    → (p ≡ (err (local_protocol_error 400), c.cstate))
      ⊎ ((p ≡ (ok tt, record (c.cstate) { states = record { of_client = idle; of_server = idle } }))
          × (c.cstate.states.of_client ≡ done))
    → Fits (continue p.0 (λ _. after_machine old) (record c { cstate = p.1 })).1
cycled old c p i f o s (inl e) = rw e f
cycled old c p i f o s (inr (e, d)) =
    let c' : Connection = record c { cstate = p.1; request_method = none } in
    let w = done-Held c.client_is_waiting_for_100_continue c.cstate d i.1 in
    let states = ap (λ q. q.1.states) e in
    let (returned, fits, role) = Responded-Fits c' _ s f.cached (
      respond-Responded old none c' (λ r. inl (inr (rw states (both_idle r))))
        (λ r. IsSound-IsRoleState r p.1 s)
        (λ same.
          subst (λ x. WriterFits c.our_role x c.writer)
            (sym (same ∙ ap (λ x. get_state x c.our_role) o)) f.writer)
        (λ same.
          subst (λ x. ReaderFits x c.reader)
            (sym (same ∙ ap (λ x. get_state x (other_role c.our_role)) o)) f.reader)) in
    rw (ap (λ q. q.0) e) (
      subst (λ q. Fits q.1)
        (sym
          (asserted c.client_is_waiting_for_100_continue (respond_to_state_changes old none) c' w))
        fits)

start_next_cycle_of-Fits : (c : Connection) → Healthy c → Fits c → Fits (start_next_cycle_of c).1
unfolding start_next_cycle_of
start_next_cycle_of-Fits c i f =
    cycled c.cstate.states c (start_next_cycle c.cstate) i f refl
      (start_next_cycle-IsSound c.cstate f.sound) (machine_cycles c.cstate f.sound)

-- What a user can bring about who sends events that their constructors made.
pub data Conversed : Connection → Type 0 where
  begun : (role : Role) (size : ℕ) → Conversed (new role size)
  given : {c : Connection} (more : Bytes) → Conversed c → Conversed (receive_data more c).1
  asked : {c : Connection} → Conversed c → Conversed (next_event c).1
  sent :
      {c : Connection} (event : Event)
      → IsMade event
      → Conversed c
      → Conversed (send_with_data_passthrough event c).1
  not_sent : {c : Connection} → Conversed c → Conversed (send_failed c).1
  turned : {c : Connection} → Conversed c → Conversed (start_next_cycle_of c).1

Conversed-Reachable : {c : Connection} → Conversed c → Reachable c
Conversed-Reachable (begun role size) = made role size
Conversed-Reachable (given more h) = after_receive_data more (Conversed-Reachable h)
Conversed-Reachable (asked h) = after_next_event (Conversed-Reachable h)
Conversed-Reachable (sent event i h) = after_send event (Conversed-Reachable h)
Conversed-Reachable (not_sent h) = after_send_failed (Conversed-Reachable h)
Conversed-Reachable (turned h) = after_start_next_cycle (Conversed-Reachable h)

new-Fits : (role : Role) (size : ℕ) → Fits (new role size)
unfolding new initial
new-Fits client size = record {
  sound = initial-IsSound;
  cached = fresh-IsCached [];
  writer = writers-Fits client idle (cc) (cc);
  reader = readers-Fits server idle (cc) (cc);
}
new-Fits server size = record {
  sound = initial-IsSound;
  cached = fresh-IsCached [];
  writer = writers-Fits server idle (cc) (cc);
  reader = readers-Fits client idle (cc) (cc);
}

Conversed-Fits : {c : Connection} → Conversed c → Fits c
Conversed-Fits (begun role size) = new-Fits role size
Conversed-Fits (given {c} more h) = receive_data-Fits more c (Conversed-Fits h)
Conversed-Fits (asked {c} h) = Answers-Fits (next_event-Answers c (Conversed-Fits h))
Conversed-Fits (sent {c} event i h) = Answers-Fits (send-Answers event c i (Conversed-Fits h))
Conversed-Fits (not_sent {c} h) = send_failed-Fits c (Conversed-Fits h)
Conversed-Fits (turned {c} h) =
    start_next_cycle_of-Fits c (Reachable-Healthy (Conversed-Reachable h)) (Conversed-Fits h)

-- For a new connection after any calls of its public methods, raising or not, where the events that
-- were sent came from their constructors: whatever the peer's bytes, all that `next_event` can raise
-- is a RemoteProtocolError, or an AttributeError, the latter only where the client is idle and the
-- server is not, at a server, and where a proposal is pending and the server is not in
-- SEND_RESPONSE, at a client.
pub next_event_raises :
    (c : Connection) (e : Error)
    → Conversed c
    → (next_event c).0 ≡ err e
    → IsRemote e ⊎ ((e ≡ attribute_error) × OutOfTurn (their_role c) c.cstate)
next_event_raises c e h r =
    Answers-error c.our_role (next_event c) e (next_event-Answers c (Conversed-Fits h)) r

-- For a new connection after any calls of its public methods, raising or not, where the events that
-- were sent came from their constructors: all that `send_with_data_passthrough` of one more such
-- event can raise is a LocalProtocolError, or an AttributeError, the latter only where the client is
-- idle and the server is not, at a client, and where a proposal is pending and the server is not in
-- SEND_RESPONSE, at a server.
pub send_raises :
    (c : Connection) (event : Event) (e : Error)
    → Conversed c
    → IsMade event
    → (send_with_data_passthrough event c).0 ≡ err e
    → IsLocal e ⊎ ((e ≡ attribute_error) × OutOfTurn c.our_role c.cstate)
send_raises c event e h i r =
    Answers-error c.our_role (send_with_data_passthrough event c) e
      (send-Answers event c i (Conversed-Fits h)) r
