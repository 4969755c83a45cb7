-- ===== src/State/Reach.antt =====
-- The runs of a `ConnectionState` (h11/_state.py): its methods in any order, with any arguments,
-- raising or not.
use h.Prelude.{◌≡◌, ◌≢◌, arith, ◌⊎◌, Option}
use h.Prelude.Exec.{assertion_error, err}
use h.State.Table.{Role, error, switched_protocol, SwitchType, EventType}
use h.State.Defs.{
  ConnectionState, initial, process_error, process_keep_alive_disabled,
  process_client_switch_proposal, process_event, start_next_cycle,
}
use h.State.Invariant.{
  IsSound, initial-IsSound, process_error-IsSound, keep_alive_disabled-IsSound,
  client_switch_proposal-IsSound, start_next_cycle-IsSound, process_event-IsSound,
}

-- One call of a method other than `start_next_cycle`.
pub data Step (m : ConnectionState) : ConnectionState → Type 0 where
  on_error : (r : Role) → Step m (process_error r m)
  on_keep_alive_disabled : Step m (process_keep_alive_disabled m)
  on_proposal : (sw : SwitchType) → Step m (process_client_switch_proposal sw m)
  on_event : (r : Role) (e : EventType) (sw : Option SwitchType) → Step m (process_event r e sw m).1

pub data Reach (m : ConnectionState) : ConnectionState → Type 0 where
  here : Reach m m
  call : {n k : ConnectionState} → Reach m n → Step n k → Reach m k
  next_cycle : {n : ConnectionState} → Reach m n → Reach m (start_next_cycle n).1

Step-IsSound : {m n : ConnectionState} → Step m n → IsSound m → IsSound n
Step-IsSound {m} (on_error r) h = process_error-IsSound r m h
Step-IsSound {m} on_keep_alive_disabled h = keep_alive_disabled-IsSound m h
Step-IsSound {m} (on_proposal sw) h = client_switch_proposal-IsSound sw m h
Step-IsSound {m} (on_event r e sw) h = process_event-IsSound r e sw m h

pub Reach-IsSound : {m n : ConnectionState} → IsSound m → Reach m n → IsSound n
Reach-IsSound h here = h
Reach-IsSound h (call r st) = Step-IsSound st (Reach-IsSound h r)
Reach-IsSound h (next_cycle {n = n} r) = start_next_cycle-IsSound n (Reach-IsSound h r)

start_next_cycle_sound :
    (m : ConnectionState) → IsSound m → (start_next_cycle m).0 ≢ err assertion_error
unfolding start_next_cycle
start_next_cycle_sound m h = ground arith

-- In every state that calls of the methods bring about from the initial one, raising or not,
-- `start_next_cycle` raises no AssertionError.
pub start_next_cycle_asserts :
    (m : ConnectionState) → Reach initial m → (start_next_cycle m).0 ≢ err assertion_error
start_next_cycle_asserts m r = start_next_cycle_sound m (Reach-IsSound initial-IsSound r)

-- In every state that calls of the methods bring about from the initial one, a client in
-- SWITCHED_PROTOCOL has a server in SWITCHED_PROTOCOL or in ERROR.
pub switched_together :
    (m : ConnectionState)
    → Reach initial m
    → m.states.of_client ≡ switched_protocol
    → (m.states.of_server ≡ switched_protocol) ⊎ (m.states.of_server ≡ error)
switched_together m r = (Reach-IsSound initial-IsSound r).switched
