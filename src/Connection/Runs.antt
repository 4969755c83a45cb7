-- ===== src/Connection/Runs.antt =====
-- The runs of a `Connection` (h11/_connection.py): its public methods in any order, with any
-- arguments, raising or not.
use h.Prelude.{
  ℕ, ◌⊎◌, ◌≡◌, Bool, true, false, ◌&&◌, ◌||◌, if◌then◌else◌, Option, none, some, List, [], ◌∷◌, ltb,
}
use h.Prelude.Lists.{length}
use h.Prelude.Bytes.{Bytes}
use h.Prelude.Exec.{
  Result, ok, err, pure, gets, lift, raise, ◌>>=◌, local_protocol_error, remote_protocol_error,
  runtime_error,
}
use h.Events.{Event, connection_closed}
use h.Buffer.Defs.{append, is_nonempty}
use h.Readers.Defs.{Reader}
use h.Writers.Defs.{Writer, call_writer}
use h.State.Table.{
  Role, State, state_eq, send_body, done, error, might_switch_protocol, switched_protocol,
}
use h.State.Invariant.{initial-IsSound}
use h.Connection.Defs.{
  Connection, new, our_state, their_state, their_role, process_error_of, start_next_cycle_of,
}
use h.Connection.Receive.{
  Received, received, need_data, paused, receive_data, run_reader, reader_after, event_or_eof,
  read_with, extract_next_receive_event, process_received, check_buffer, try_next_event,
  handle_receive_error, as_remote, next_event,
}
use h.Connection.Send.{
  clean_up, store_writer, write_with, write_event, written, process_our_event, try_send,
  handle_send_error, send_with_data_passthrough, send_failed,
}
use h.Connection.NextCycle.{start_next_cycle-Cycled}
use h.Connection.Healthy.{
  Healthy, Preserves, then-Preserves, if-Healthy, process_error_of-Preserves,
  process_event_of-Preserves,
}

receive_data-Preserves : (more : Bytes) → Preserves (receive_data more)
unfolding receive_data
receive_data-Preserves [] c i = i
receive_data-Preserves (x ∷ more) c i =
    if-Healthy c.receive_buffer_closed (err runtime_error, c)
      (ok tt, record c { receive_buffer = append (x ∷ more) c.receive_buffer }) i i

read_with-Preserves : (reader : Option Reader) → Preserves (read_with reader)
read_with-Preserves none c i = i
read_with-Preserves (some reader) c i =
    then-Preserves (run_reader reader)
      (λ found.
        gets (λ c. event_or_eof (reader_after reader c.reader) found c) >>= λ event. lift event)
      (λ c i. i) (λ found c i. i) c i

extract-Preserves : Preserves extract_next_receive_event
unfolding extract_next_receive_event
extract-Preserves c i =
    if-Healthy (state_eq (their_state c) done && is_nonempty c.receive_buffer) (ok paused, c)
      (if state_eq (their_state c) might_switch_protocol
          || state_eq (their_state c) switched_protocol
        then (ok paused, c)
        else read_with c.reader c)
      i
      (if-Healthy
        (state_eq (their_state c) might_switch_protocol
          || state_eq (their_state c) switched_protocol)
        (ok paused, c) (read_with c.reader c) i (read_with-Preserves c.reader c i))

process_received-Preserves : (e : Received) → Preserves (process_received e)
process_received-Preserves (received event) c i =
    process_event_of-Preserves (their_role c) event c i
process_received-Preserves need_data c i = i
process_received-Preserves paused c i = i

check_buffer-Preserves : (e : Received) → Preserves (check_buffer e)
check_buffer-Preserves (received event) c i = i
check_buffer-Preserves need_data c i =
    if-Healthy (ltb c.max_incomplete_event_size (length c.receive_buffer.bytes))
      (err (remote_protocol_error 431), c)
      (if c.receive_buffer_closed then (err (remote_protocol_error 400), c) else (ok tt, c)) i
      (if-Healthy c.receive_buffer_closed (err (remote_protocol_error 400), c) (ok tt, c) i i)
check_buffer-Preserves paused c i = i

try_next_event-Preserves : Preserves try_next_event
unfolding try_next_event
try_next_event-Preserves =
    then-Preserves extract_next_receive_event
      (λ event. process_received event >>= λ _. check_buffer event >>= λ _. pure event)
      extract-Preserves
      (λ event.
        then-Preserves (process_received event) (λ _. check_buffer event >>= λ _. pure event)
          (process_received-Preserves event)
          (λ _.
            then-Preserves (check_buffer event) (λ _. pure event) (check_buffer-Preserves event)
              (λ _ c i. i)))

handle_receive_error-Preserves : (r : Result Received) → Preserves (handle_receive_error r)
handle_receive_error-Preserves (ok event) c i = i
handle_receive_error-Preserves (err e) c i =
    then-Preserves (process_error_of (their_role c)) (λ _. raise {A = Received} (as_remote e))
      (process_error_of-Preserves (their_role c)) (λ _ d j. j) c i

next_event-Preserves : Preserves next_event
unfolding next_event
next_event-Preserves c i =
    if-Healthy (state_eq (their_state c) error) (err (remote_protocol_error 400), c)
      (handle_receive_error (try_next_event c).0 (try_next_event c).1) i
      (handle_receive_error-Preserves (try_next_event c).0 (try_next_event c).1
        (try_next_event-Preserves c i))

store_writer-Healthy :
    (old : State) (w : Writer) (c : Connection) → Healthy c → Healthy (store_writer old w c)
store_writer-Healthy old w c i = stored (state_eq (our_state c) old)
  where
    stored : (b : Bool) → Healthy (if b then record c { writer = some w } else c)
    stored true = i
    stored false = i

write_with-Preserves :
    (old : State) (w : Option Writer) (event : Event) → Preserves (write_with old w event)
write_with-Preserves old none event c i = i
write_with-Preserves old (some w) event c i = store_writer-Healthy old (call_writer w event).1 c i

writes-Preserves :
    (old : State) (w : Option Writer) (event : Event)
    → Preserves (write_with old w event >>= λ chunks. pure (written chunks))
writes-Preserves old w event =
    then-Preserves (write_with old w event) (λ chunks. pure (written chunks))
      (write_with-Preserves old w event) (λ chunks c i. i)

write_event-Preserves :
    (old : State) (w : Option Writer) (event : Event) → Preserves (write_event old w event)
write_event-Preserves old w connection_closed c i = i
write_event-Preserves old w event c i = writes-Preserves old w event c i

cleaned-Preserves :
    (r : Result Event)
    → Preserves (
        lift r >>= λ event. gets (λ c. c.writer) >>= λ w.
        gets our_state >>= λ old. process_our_event event >>= λ _. write_event old w event)
cleaned-Preserves (err e) c i = i
cleaned-Preserves (ok event) c i =
    then-Preserves (process_our_event event) (λ _. write_event (our_state c) c.writer event)
      (λ d j. process_event_of-Preserves d.our_role event d j)
      (λ _. write_event-Preserves (our_state c) c.writer event) c i

try_send-Preserves : (event : Event) → Preserves (try_send event)
unfolding try_send
try_send-Preserves event c i = cleaned-Preserves (clean_up event c) c i

handle_send_error-Preserves : (r : Result (Option (List Bytes))) → Preserves (handle_send_error r)
handle_send_error-Preserves (ok chunks) c i = i
handle_send_error-Preserves (err e) c i =
    then-Preserves (process_error_of c.our_role) (λ _. raise {A = Option (List Bytes)} e)
      (process_error_of-Preserves c.our_role) (λ _ d j. j) c i

send-Preserves : (event : Event) → Preserves (send_with_data_passthrough event)
unfolding send_with_data_passthrough
send-Preserves event c i =
    if-Healthy (state_eq (our_state c) error) (err (local_protocol_error 400), c)
      (handle_send_error (try_send event c).0 (try_send event c).1) i
      (handle_send_error-Preserves (try_send event c).0 (try_send event c).1
        (try_send-Preserves event c i))

-- What a user of the library can bring about.
pub data Reachable : Connection → Type 0 where
  made : (role : Role) (size : ℕ) → Reachable (new role size)
  after_receive_data :
      {c : Connection} (more : Bytes) → Reachable c → Reachable (receive_data more c).1
  after_next_event : {c : Connection} → Reachable c → Reachable (next_event c).1
  after_send :
      {c : Connection} (event : Event)
      → Reachable c
      → Reachable (send_with_data_passthrough event c).1
  after_send_failed : {c : Connection} → Reachable c → Reachable (send_failed c).1
  after_start_next_cycle : {c : Connection} → Reachable c → Reachable (start_next_cycle_of c).1

made-Healthy : (role : Role) (size : ℕ) → Healthy (new role size)
unfolding new
made-Healthy role size = (initial-IsSound, λ w. cc)

send_failed-Preserves : Preserves send_failed
unfolding send_failed
send_failed-Preserves c i = process_error_of-Preserves c.our_role c i

pub Reachable-Healthy : {c : Connection} → Reachable c → Healthy c
Reachable-Healthy (made role size) = made-Healthy role size
Reachable-Healthy (after_receive_data {c} more r) =
    receive_data-Preserves more c (Reachable-Healthy r)
Reachable-Healthy (after_next_event {c} r) = next_event-Preserves c (Reachable-Healthy r)
Reachable-Healthy (after_send {c} event r) = send-Preserves event c (Reachable-Healthy r)
Reachable-Healthy (after_send_failed {c} r) = send_failed-Preserves c (Reachable-Healthy r)
Reachable-Healthy (after_start_next_cycle {c} r) =
    (start_next_cycle-Cycled c (Reachable-Healthy r)).healthy

-- For a new connection after any calls of `receive_data`, `next_event`,
-- `send_with_data_passthrough`, `send_failed` and `start_next_cycle`, raising or not,
-- `start_next_cycle` returns or raises a LocalProtocolError: neither its own assertion, that no
-- client waits for a 100-continue, nor those of the state machine can fail.
pub next_cycle_returns :
    (c : Connection)
    → Reachable c
    → ((start_next_cycle_of c).0 ≡ ok tt)
      ⊎ ((start_next_cycle_of c).0 ≡ err (local_protocol_error 400))
next_cycle_returns c r = (start_next_cycle-Cycled c (Reachable-Healthy r)).outcome

-- For a new connection after any calls of its public methods, raising or not: a client that waits
-- for a 100-continue is in SEND_BODY or in ERROR.
pub waiting_client :
    (c : Connection)
    → Reachable c
    → c.client_is_waiting_for_100_continue ≡ true
    → (c.cstate.states.of_client ≡ send_body) ⊎ (c.cstate.states.of_client ≡ error)
waiting_client c r w = (Reachable-Healthy r).1 w
