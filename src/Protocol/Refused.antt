-- ===== src/Protocol/Refused.antt =====
-- What `process_event` (h11/_state.py) refuses, with the class of the exception.
use h.Prelude.{
  ◌||◌, subst, sym, ◌==◌, leb, ltb, ◌&&◌, if◌then◌else◌, ◌≢◌, ◌≡◌, refl, ◌⊎◌, inl, inr, Bool, true,
  false, Option, none, some, arith,
}
use h.Prelude.Bytes.{bytes_eq, codes}
use h.Prelude.Exec.{Error, attribute_error, local_protocol_error, Result, ok, err, modify, continue}
use h.Events.{
  Event, request, informational_response, response, data_event, end_of_message, connection_closed,
  type_of,
}
use h.Headers.Defs.{get_comma_header}
use h.State.Table.{
  Role, client, server, State, send_response, send_body, closed, error, might_switch_protocol,
  switched_protocol, idle, done, must_close, get_state, SwitchType, switch_upgrade, switch_connect,
  EventType,
}
use h.State.Defs.{
  any_proposal, has_proposal, add_proposal, Proposals, ConnectionState, fire_round,
  fire_state_triggered_transitions, take_event, process_event, process_client_switch_proposal,
}
use h.Protocol.Defs.{OrAttribute}
use h.State.Fixpoint.{fire-eq-round}
use h.Connection.Defs.{
  other_role, server_switch_event, propose, propose_if, switch_event_of, is_nonempty_list,
}

-- Where the table is asked for a pair that it may not have: for a client's Request at a server that
-- is not idle, for a server's switch where it has nothing to respond to.
abbrev pub OutOfTurn : Role → ConnectionState → Type 0
OutOfTurn client m = (m.states.of_client ≡ idle) × (m.states.of_server ≢ idle)
OutOfTurn server m =
    (any_proposal m.pending_switch_proposals ≡ true) × (m.states.of_server ≢ send_response)

-- A refusal: the class of the exception depends on the key.
abbrev pub Refusal : Role → ConnectionState → Error → Type 0
Refusal r m e = (e ≡ local_protocol_error 400) ⊎ ((e ≡ attribute_error) × OutOfTurn r m)

pub refusal :
    (E : Error → Type 0) (r : Role) (m : ConnectionState) (e : Error)
    → E (local_protocol_error 400)
    → Refusal r m e
    → OrAttribute E (OutOfTurn r m) e
refusal E r m e i (inl local) = inl (subst E (sym local) i)
refusal E r m e i (inr w) = inr w

-- A refusal leaves the other role alone.
abbrev pub Answered : Role → ConnectionState → Result (Unit {0}) × ConnectionState → Type 0
Answered r m (ok u, n) = Unit {0}
Answered r m (err e, n) =
    Refusal r m e × (get_state n.states (other_role r) ≡ get_state m.states (other_role r))

-- Only a server's event switches, each kind by its own type of response.
abbrev pub IsAnnotable : Role → EventType → Option SwitchType → Type 0
IsAnnotable client e sw = sw ≡ none
IsAnnotable server e none = Unit {0}
IsAnnotable server e (some switch_upgrade) = e ≡ EventType.informational_response
IsAnnotable server e (some switch_connect) = e ≡ EventType.response

request_at-Answered :
    (c s : State) (alive : Bool) (p : Proposals)
    → (let m : ConnectionState = record {
      keep_alive = alive;
      pending_switch_proposals = p;
      states = record { of_client = c; of_server = s };
    } in
        Answered client m (take_event client EventType.request none m))
unfolding take_event
request_at-Answered idle idle alive p = tt
request_at-Answered idle send_response alive p = (inr (refl, (refl, cc)), refl)
request_at-Answered idle send_body alive p = (inr (refl, (refl, cc)), refl)
request_at-Answered idle done alive p = (inr (refl, (refl, cc)), refl)
request_at-Answered idle must_close alive p = (inr (refl, (refl, cc)), refl)
request_at-Answered idle closed alive p = (inr (refl, (refl, cc)), refl)
request_at-Answered idle error alive p = (inr (refl, (refl, cc)), refl)
request_at-Answered idle might_switch_protocol alive p = (inr (refl, (refl, cc)), refl)
request_at-Answered idle switched_protocol alive p = (inr (refl, (refl, cc)), refl)
request_at-Answered send_response s alive p = (inl refl, refl)
request_at-Answered send_body s alive p = (inl refl, refl)
request_at-Answered done s alive p = (inl refl, refl)
request_at-Answered must_close s alive p = (inl refl, refl)
request_at-Answered closed s alive p = (inl refl, refl)
request_at-Answered error s alive p = (inl refl, refl)
request_at-Answered might_switch_protocol s alive p = (inl refl, refl)
request_at-Answered switched_protocol s alive p = (inl refl, refl)

upgrade_at-Answered :
    (s c : State) (alive u k : Bool)
    → (let m : ConnectionState = record {
      keep_alive = alive;
      pending_switch_proposals = record { upgrade = u; connect = k };
      states = record { of_client = c; of_server = s };
    } in
        Answered server m
          (take_event server EventType.informational_response (some switch_upgrade) m))
unfolding take_event
upgrade_at-Answered s c alive false k = (inl refl, refl)
upgrade_at-Answered send_response c alive true k = tt
upgrade_at-Answered idle c alive true k = (inr (refl, (refl, cc)), refl)
upgrade_at-Answered send_body c alive true k = (inr (refl, (refl, cc)), refl)
upgrade_at-Answered done c alive true k = (inr (refl, (refl, cc)), refl)
upgrade_at-Answered must_close c alive true k = (inr (refl, (refl, cc)), refl)
upgrade_at-Answered closed c alive true k = (inr (refl, (refl, cc)), refl)
upgrade_at-Answered error c alive true k = (inr (refl, (refl, cc)), refl)
upgrade_at-Answered might_switch_protocol c alive true k = (inr (refl, (refl, cc)), refl)
upgrade_at-Answered switched_protocol c alive true k = (inr (refl, (refl, cc)), refl)

or_true : (b : Bool) → (b || true) ≡ true
or_true true = refl
or_true false = refl

connect_at-Answered :
    (s c : State) (alive u k : Bool)
    → (let m : ConnectionState = record {
      keep_alive = alive;
      pending_switch_proposals = record { upgrade = u; connect = k };
      states = record { of_client = c; of_server = s };
    } in
        Answered server m (take_event server EventType.response (some switch_connect) m))
unfolding take_event
connect_at-Answered s c alive u false = (inl refl, refl)
connect_at-Answered send_response c alive u true = tt
connect_at-Answered idle c alive u true = (inr (refl, (or_true u, cc)), refl)
connect_at-Answered send_body c alive u true = (inr (refl, (or_true u, cc)), refl)
connect_at-Answered done c alive u true = (inr (refl, (or_true u, cc)), refl)
connect_at-Answered must_close c alive u true = (inr (refl, (or_true u, cc)), refl)
connect_at-Answered closed c alive u true = (inr (refl, (or_true u, cc)), refl)
connect_at-Answered error c alive u true = (inr (refl, (or_true u, cc)), refl)
connect_at-Answered might_switch_protocol c alive u true = (inr (refl, (or_true u, cc)), refl)
connect_at-Answered switched_protocol c alive u true = (inr (refl, (or_true u, cc)), refl)

take_event-Answered :
    (r : Role) (e : EventType) (sw : Option SwitchType) (m : ConnectionState)
    → IsAnnotable r e sw
    → Answered r m (take_event r e sw m)
unfolding take_event
take_event-Answered client EventType.request none m h =
    request_at-Answered m.states.of_client m.states.of_server m.keep_alive
      m.pending_switch_proposals
take_event-Answered client _ none m h = ground arith
take_event-Answered client _ (some sw) m h = cc
take_event-Answered server EventType.request none m h = ground arith
take_event-Answered server _ none m h = ground arith
take_event-Answered server e (some switch_upgrade) m h =
    subst (λ x. Answered server m (take_event server x (some switch_upgrade) m)) (sym h)
      (upgrade_at-Answered m.states.of_server m.states.of_client m.keep_alive
        m.pending_switch_proposals.upgrade m.pending_switch_proposals.connect)
take_event-Answered server e (some switch_connect) m h =
    subst (λ x. Answered server m (take_event server x (some switch_connect) m)) (sym h)
      (connect_at-Answered m.states.of_server m.states.of_client m.keep_alive
        m.pending_switch_proposals.upgrade m.pending_switch_proposals.connect)

Answered-fire :
    (r : Role) (m : ConnectionState) (p : Result (Unit {0}) × ConnectionState)
    → Answered r m p
    → Answered r m (continue p.0 (λ _. modify fire_state_triggered_transitions) p.1)
Answered-fire r m (ok u, n) h = tt
Answered-fire r m (err e, n) h = h

pub process_event-Answered :
    (r : Role) (e : EventType) (sw : Option SwitchType) (m : ConnectionState)
    → IsAnnotable r e sw
    → Answered r m (process_event r e sw m)
unfolding process_event
process_event-Answered r e sw m h =
    Answered-fire r m (take_event r e sw m) (take_event-Answered r e sw m h)

pub switch_event_of-IsAnnotable :
    (r : Role) (event : Event) (m : ConnectionState)
    → IsAnnotable r (type_of event) (switch_event_of r event m)
unfolding server_switch_event
switch_event_of-IsAnnotable client event m = refl
switch_event_of-IsAnnotable server (request q) m = tt
switch_event_of-IsAnnotable server (informational_response q) m = upgrades (q.status_code == 101)
  where
    upgrades :
        (b : Bool)
        → IsAnnotable server EventType.informational_response
            (if b then some switch_upgrade else none)
    upgrades true = refl
    upgrades false = tt
switch_event_of-IsAnnotable server (response q) m = connects (
    has_proposal m.pending_switch_proposals switch_connect
    && leb 200 q.status_code
    && ltb q.status_code 300)
  where
    connects :
        (b : Bool) → IsAnnotable server EventType.response (if b then some switch_connect else none)
    connects true = refl
    connects false = tt
switch_event_of-IsAnnotable server (data_event d) m = tt
switch_event_of-IsAnnotable server (end_of_message hs) m = tt
switch_event_of-IsAnnotable server connection_closed m = tt

-- What a proposal does to a server that is idle beside an idle client: nothing.
round_idle :
    (m : ConnectionState)
    → m.states.of_server ≡ idle
    → (fire_round m).states.of_client ≡ idle
    → (m.states.of_client ≡ idle) × ((fire_round m).states.of_server ≡ idle)
unfolding fire_round
round_idle m h k = ground arith

round_client :
    (m : ConnectionState) → (fire_round m).states.of_client ≡ idle → m.states.of_client ≡ idle
unfolding fire_round
round_client m k = ground arith

propose_if-OutOfTurn :
    (b : Bool) (sw : SwitchType) (m : ConnectionState)
    → OutOfTurn client (propose_if b sw m)
    → OutOfTurn client m
unfolding process_client_switch_proposal
propose_if-OutOfTurn false sw m h = h
propose_if-OutOfTurn true sw m h =
    let fired =
      fire-eq-round
        (record m { pending_switch_proposals = add_proposal m.pending_switch_proposals sw }) in
    proposed (subst (λ n. OutOfTurn client n) fired h)
  where
    proposed :
        OutOfTurn client (
          fire_round
            (record m { pending_switch_proposals = add_proposal m.pending_switch_proposals sw }))
        → OutOfTurn client m
    proposed (i, n) = (round_client _ i, λ s. n ((round_idle _ s i).1))

propose-OutOfTurn :
    (r : Role) (event : Event) (m : ConnectionState)
    → OutOfTurn r (propose r event m)
    → OutOfTurn r m
unfolding propose
propose-OutOfTurn client (request q) m h =
    let connect = bytes_eq q.method (codes "CONNECT") in
    propose_if-OutOfTurn connect switch_connect m (
      propose_if-OutOfTurn (is_nonempty_list (get_comma_header q.headers (codes "upgrade")))
        switch_upgrade (propose_if connect switch_connect m) h)
propose-OutOfTurn client (informational_response q) m h = h
propose-OutOfTurn client (response q) m h = h
propose-OutOfTurn client (data_event d) m h = h
propose-OutOfTurn client (end_of_message hs) m h = h
propose-OutOfTurn client connection_closed m h = h
propose-OutOfTurn server event m h = h

pub propose-Refusal :
    (r : Role) (event : Event) (m : ConnectionState) (e : Error)
    → Refusal r (propose r event m) e
    → Refusal r m e
propose-Refusal r event m e (inl local) = inl local
propose-Refusal r event m e (inr (attribute, o)) = inr (attribute, propose-OutOfTurn r event m o)
