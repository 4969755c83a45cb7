-- ===== src/State/Cycle.antt =====
-- A whole request/response cycle of `ConnectionState` (h11/_state.py): two messages
-- and their interleavings.
use h.Prelude.{◌≡◌, refl, true, none, List, [], ◌∷◌}
use h.Prelude.Exec.{ok, Exec, pure, ◌>>◌}
use h.State.Table.{
  Role, client, server, State, send_response, send_body, done, EventType, request,
  informational_response, response, data_event, end_of_message,
}
use h.State.Defs.{
  no_proposals, ConnectionState, initial, fire_round, fire_loop, fire_state_triggered_transitions,
  take_event, process_event, start_next_cycle,
}

-- Calls of `process_event` with no switch, up to the first that raises.
abbrev pub run_events : List (Role × EventType) → Exec ConnectionState (Unit {0})
run_events [] = pure tt
run_events ((r, e) ∷ es) = process_event r e none >> run_events es

-- What the client may still send, in each of its states after the request.
pub data ClientScript : State → List EventType → Type 0 where
  client_finished : ClientScript done []
  client_ends : ClientScript send_body (end_of_message ∷ [])
  client_sends :
      {es : List EventType} → ClientScript send_body es → ClientScript send_body (data_event ∷ es)

-- What the server may still send.
pub data ServerScript : State → List EventType → Type 0 where
  server_finished : ServerScript done []
  server_ends : ServerScript send_body (end_of_message ∷ [])
  server_sends :
      {es : List EventType} → ServerScript send_body es → ServerScript send_body (data_event ∷ es)
  server_responds :
      {es : List EventType} → ServerScript send_body es → ServerScript send_response (response ∷ es)
  server_informs :
      {es : List EventType}
      → ServerScript send_response es
      → ServerScript send_response (informational_response ∷ es)

-- The interleavings of two scripts.
pub data Merge : List EventType → List EventType → List (Role × EventType) → Type 0 where
  both_done : Merge [] [] []
  by_client :
      {e : EventType} {cs ss : List EventType} {es : List (Role × EventType)}
      → Merge cs ss es
      → Merge (e ∷ cs) ss ((client, e) ∷ es)
  by_server :
      {e : EventType} {cs ss : List EventType} {es : List (Role × EventType)}
      → Merge cs ss es
      → Merge cs (e ∷ ss) ((server, e) ∷ es)

-- A connection that can be reused, in the given states.
abbrev pub reusable : State → State → ConnectionState
reusable c s = record {
  keep_alive = true;
  pending_switch_proposals = no_proposals;
  states = record { of_client = c; of_server = s };
}

abbrev IsOpen : State → Type 0
IsOpen send_response = Unit {0}
IsOpen send_body = Unit {0}
IsOpen done = Unit {0}
IsOpen _ = ⊥

client_data :
    (s : State)
    → IsOpen s
    → process_event client data_event none (reusable send_body s) ≡ (ok tt, reusable send_body s)
unfolding process_event take_event fire_state_triggered_transitions fire_loop fire_round
client_data send_response h = refl
client_data send_body h = refl
client_data done h = refl
client_data _ h = absurd h

client_end :
    (s : State)
    → IsOpen s
    → process_event client end_of_message none (reusable send_body s) ≡ (ok tt, reusable done s)
unfolding process_event take_event fire_state_triggered_transitions fire_loop fire_round
client_end send_response h = refl
client_end send_body h = refl
client_end done h = refl
client_end _ h = absurd h

abbrev IsSending : State → Type 0
IsSending send_body = Unit {0}
IsSending done = Unit {0}
IsSending _ = ⊥

-- The steps of the server's script, whatever the client's state.
server_step :
    (c : State)
    → IsSending c
    → (process_event server data_event none (reusable c send_body) ≡ (ok tt, reusable c send_body))
      × (process_event server end_of_message none (reusable c send_body) ≡ (ok tt, reusable c done))
      × (process_event server response none (reusable c send_response)
          ≡ (ok tt, reusable c send_body))
      × (process_event server informational_response none (reusable c send_response)
          ≡ (ok tt, reusable c send_response))
unfolding process_event take_event fire_state_triggered_transitions fire_loop fire_round
server_step send_body h = (refl, refl, refl, refl)
server_step done h = (refl, refl, refl, refl)
server_step _ h = absurd h

ClientScript-IsSending : {c : State} {cs : List EventType} → ClientScript c cs → IsSending c
ClientScript-IsSending client_finished = tt
ClientScript-IsSending client_ends = tt
ClientScript-IsSending (client_sends p) = tt

ServerScript-IsOpen : {s : State} {ss : List EventType} → ServerScript s ss → IsOpen s
ServerScript-IsOpen server_finished = tt
ServerScript-IsOpen server_ends = tt
ServerScript-IsOpen (server_sends q) = tt
ServerScript-IsOpen (server_responds q) = tt
ServerScript-IsOpen (server_informs q) = tt

run_merge :
    {c s : State} {cs ss : List EventType} {es : List (Role × EventType)}
    → Merge cs ss es
    → ClientScript c cs
    → ServerScript s ss
    → run_events es (reusable c s) ≡ (ok tt, reusable done done)
run_merge both_done client_finished server_finished = refl
run_merge (by_client r) client_ends q =
    rw (client_end _ (ServerScript-IsOpen q)) (run_merge r client_finished q)
run_merge (by_client r) (client_sends p) q =
    rw (client_data _ (ServerScript-IsOpen q)) (run_merge r p q)
run_merge (by_server r) p server_ends =
    rw ((server_step _ (ClientScript-IsSending p)).1) (run_merge r p server_finished)
run_merge (by_server r) p (server_sends q) =
    rw ((server_step _ (ClientScript-IsSending p)).0) (run_merge r p q)
run_merge (by_server r) p (server_responds q) =
    rw ((server_step _ (ClientScript-IsSending p)).2) (run_merge r p q)
run_merge (by_server r) p (server_informs q) =
    rw ((server_step _ (ClientScript-IsSending p)).3) (run_merge r p q)

starts : process_event client request none initial ≡ (ok tt, reusable send_body send_response)
unfolding process_event take_event fire_state_triggered_transitions fire_loop fire_round initial
starts = refl

restarts : start_next_cycle (reusable done done) ≡ (ok tt, initial)
unfolding start_next_cycle initial
restarts = refl

-- After a request in the initial state, every interleaving of a well-formed request body with
-- well-formed responses (any informational responses, one response, its body) is accepted, and
-- `start_next_cycle` then brings back the initial state.
pub cycle_completes :
    {cs ss : List EventType} {es : List (Role × EventType)}
    → Merge cs ss es
    → ClientScript send_body cs
    → ServerScript send_response ss
    → (run_events ((client, request) ∷ es) >> start_next_cycle) initial ≡ (ok tt, initial)
cycle_completes r p q = rw starts (rw (run_merge r p q) restarts)
