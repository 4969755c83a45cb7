-- ===== src/Protocol/Machine.antt =====
-- What `process_event` and the calls before and after it (h11/_state.py, h11/_connection.py) do to
-- the states of the two roles.
use h.Prelude.{◌≡◌, refl, ◌⊎◌, inl, inr, Bool, true, false, Option, none, some, arith}
use h.Prelude.Bytes.{bytes_eq, codes}
use h.Prelude.Exec.{Result, ok, err, modify, continue}
use h.Events.{
  Event, request, informational_response, response, data_event, end_of_message, connection_closed,
}
use h.Headers.Defs.{get_comma_header}
use h.State.Table.{
  Role, client, server, State, idle, done, must_close, get_state, SwitchType, switch_upgrade,
  switch_connect, EventType,
}
use h.State.Defs.{
  ConnectionState, fire_round, fire_state_triggered_transitions, take_event, process_event,
  process_client_switch_proposal,
}
use h.State.Fixpoint.{fire-eq-round}
use h.Connection.Defs.{propose, propose_if, is_nonempty_list}
use h.Connection.Kept.{Quiet, fire-Quiet}

-- An event that begins no body.
abbrev pub IsLater : EventType → Type 0
IsLater EventType.request = ⊥
IsLater EventType.response = ⊥
IsLater _ = Unit {0}

take_event-Quiet :
    (s r : Role) (e : EventType) (sw : Option SwitchType) (m : ConnectionState)
    → IsLater e
    → Quiet (get_state m.states s) (get_state (take_event r e sw m).1.states s)
unfolding take_event
take_event-Quiet s client EventType.request sw m h = absurd h
take_event-Quiet s server EventType.request sw m h = absurd h
take_event-Quiet s client EventType.response sw m h = absurd h
take_event-Quiet s server EventType.response sw m h = absurd h
take_event-Quiet client client _ none m h = ground arith
take_event-Quiet server client _ none m h = ground arith
take_event-Quiet client server _ none m h = ground arith
take_event-Quiet server server _ none m h = ground arith
take_event-Quiet client client _ (some sw) m h = ground arith
take_event-Quiet server client _ (some sw) m h = ground arith
take_event-Quiet client server _ (some sw) m h = ground arith
take_event-Quiet server server _ (some sw) m h = ground arith

Quiet-trans : {a b c : State} → Quiet a b → Quiet b c → Quiet a c
Quiet-trans (inl e) (inl d) = inl (cc)
Quiet-trans (inr n) (inl d) = inr (λ x. n (cc))
Quiet-trans h (inr n) = inr n

Quiet-fire :
    (s : Role) (m : ConnectionState) (p : Result (Unit {0}) × ConnectionState)
    → Quiet (get_state m.states s) (get_state p.1.states s)
    → Quiet
        (get_state m.states s)
        (get_state (continue p.0 (λ _. modify fire_state_triggered_transitions) p.1).1.states s)
Quiet-fire s m (ok u, n) h = Quiet-trans h (fire-Quiet s n)
Quiet-fire s m (err e, n) h = h

pub process_event-Quiet :
    (s r : Role) (e : EventType) (sw : Option SwitchType) (m : ConnectionState)
    → IsLater e
    → Quiet (get_state m.states s) (get_state (process_event r e sw m).1.states s)
unfolding process_event
process_event-Quiet s r e sw m h =
    Quiet-fire s m (take_event r e sw m) (take_event-Quiet s r e sw m h)

-- The server is left alone, or its cycle is over.
abbrev pub LetBe : State → State → Type 0
LetBe old now =
    (now ≡ old) ⊎ ((now ≡ must_close) × ((old ≡ done) ⊎ (old ≡ idle) ⊎ (old ≡ must_close)))

round-LetBe : (m : ConnectionState) → LetBe m.states.of_server (fire_round m).states.of_server
unfolding fire_round
round-LetBe m = ground arith

LetBe-trans : {a b c : State} → LetBe a b → LetBe b c → LetBe a c
LetBe-trans h k = ground arith

proposal-LetBe :
    (sw : SwitchType) (m : ConnectionState)
    → LetBe m.states.of_server (process_client_switch_proposal sw m).states.of_server
unfolding process_client_switch_proposal
proposal-LetBe sw m = rw (fire-eq-round _) (round-LetBe _)

propose_if-LetBe :
    (b : Bool) (sw : SwitchType) (m : ConnectionState)
    → LetBe m.states.of_server (propose_if b sw m).states.of_server
propose_if-LetBe true sw m = proposal-LetBe sw m
propose_if-LetBe false sw m = inl refl

pub propose-LetBe :
    (r : Role) (event : Event) (m : ConnectionState)
    → LetBe m.states.of_server (propose r event m).states.of_server
unfolding propose
propose-LetBe client (request q) m =
    let connect = bytes_eq q.method (codes "CONNECT") in
    LetBe-trans (propose_if-LetBe connect switch_connect m) (
      propose_if-LetBe (is_nonempty_list (get_comma_header q.headers (codes "upgrade")))
        switch_upgrade (propose_if connect switch_connect m))
propose-LetBe client (informational_response q) m = inl refl
propose-LetBe client (response q) m = inl refl
propose-LetBe client (data_event d) m = inl refl
propose-LetBe client (end_of_message hs) m = inl refl
propose-LetBe client connection_closed m = inl refl
propose-LetBe server event m = inl refl
