-- ===== src/Connection/Errors.antt =====
-- What an error leaves behind (h11/_connection.py).
use h.Prelude.{◌≡◌, refl, sym, subst, Bool, true, false, if◌then◌else◌, Option, List, arith}
use h.Prelude.Bytes.{Bytes}
use h.Prelude.Exec.{
  Error, Result, ok, err, local_protocol_error, remote_protocol_error, raise, ◌>>◌,
}
use h.Events.{Event}
use h.State.Table.{Role, State, error, get_state, state_eq}
use h.State.Defs.{process_error}
use h.Connection.Defs.{Connection, our_state, their_state, their_role, process_error_of}
use h.Connection.Receive.{Received, next_event, try_next_event, handle_receive_error, as_remote}
use h.Connection.Send.{send_with_data_passthrough, try_send, handle_send_error, send_failed}
use h.Connection.Kept.{process_error-error, process_error_of-Kept}

role_state_error :
    (r : Role) (c c' : Connection)
    → c'.cstate ≡ process_error r c.cstate
    → get_state c'.cstate.states r ≡ error
role_state_error r c c' e = rw e (process_error-error r c.cstate)

-- `_process_error` returns, so what is raised behind it is raised.
pub raised :
    (A : Type 0) (e : Error) (r : Role) (c : Connection)
    → (process_error_of r >> raise {A = A} e) c ≡ (err e, (process_error_of r c).1)
raised A e r c = rw ((process_error_of-Kept r c).returned)

our_role_error : (c : Connection) → our_state (process_error_of c.our_role c).1 ≡ error
our_role_error c =
    let k = process_error_of-Kept c.our_role c in
    rw (k.our_role) (role_state_error c.our_role c (process_error_of c.our_role c).1 k.cstate)

their_role_error : (c : Connection) → their_state (process_error_of (their_role c) c).1 ≡ error
their_role_error c =
    let k = process_error_of-Kept (their_role c) c in
    rw (k.our_role)
      (role_state_error (their_role c) c (process_error_of (their_role c) c).1 k.cstate)

-- An error that is no LocalProtocolError.
abbrev pub IsNotLocal : Error → Type 0
IsNotLocal (local_protocol_error hint) = ⊥
IsNotLocal _ = Unit {0}

as_remote-IsNotLocal : (e : Error) → IsNotLocal (as_remote e)
as_remote-IsNotLocal (local_protocol_error hint) = tt
as_remote-IsNotLocal (remote_protocol_error hint) = tt
as_remote-IsNotLocal _ = tt

-- What holds of the error and the connection, where a call raises.
abbrev IfErr : {A : Type 0} → (Error → Connection → Type 0) → Result A × Connection → Type 0
IfErr P (ok a, c) = Unit {0}
IfErr P (err e, c) = P e c

IfErr-elim :
    {A : Type 0} (P : Error → Connection → Type 0) (p : Result A × Connection) (e : Error)
    → IfErr P p
    → p.0 ≡ err e
    → P e p.1
IfErr-elim P (ok a, c) e i h = cc
IfErr-elim P (err x, c) e i h = let q : x ≡ e = cc in subst (λ y. P y c) q i

IfErr-if :
    {A : Type 0} (P : Error → Connection → Type 0) (b : Bool) (x y : Result A × Connection)
    → (b ≡ true → IfErr P x)
    → IfErr P y
    → IfErr P (if b then x else y)
IfErr-if P true x y i j = i refl
IfErr-if P false x y i j = j

state_is : (a b : State) → state_eq a b ≡ true → a ≡ b
state_is a b h = ground arith

abbrev pub TheirsFailed : Error → Connection → Type 0
TheirsFailed e c = (their_state c ≡ error) × IsNotLocal e

receive_handled :
    (r : Result Received) (c : Connection) → IfErr TheirsFailed (handle_receive_error r c)
receive_handled (ok event) c = tt
receive_handled (err x) c =
    subst (IfErr TheirsFailed) (sym (raised Received (as_remote x) (their_role c) c))
      (their_role_error c, as_remote-IsNotLocal x)

-- Whatever `next_event` raises, it is no LocalProtocolError, and the peer's state is ERROR
-- afterwards.
pub next_event_error :
    (c : Connection) (e : Error)
    → (next_event c).0 ≡ err e
    → (their_state (next_event c).1 ≡ error) × IsNotLocal e
unfolding next_event
next_event_error c e h =
    IfErr-elim TheirsFailed (next_event c) e
      (IfErr-if TheirsFailed (state_eq (their_state c) error) (err (remote_protocol_error 400), c)
        (handle_receive_error (try_next_event c).0 (try_next_event c).1)
        (λ dead. (state_is (their_state c) error dead, tt))
        (receive_handled (try_next_event c).0 (try_next_event c).1))
      h

abbrev OursFailed : Error → Connection → Type 0
OursFailed e c = our_state c ≡ error

send_handled :
    (r : Result (Option (List Bytes))) (c : Connection) → IfErr OursFailed (handle_send_error r c)
send_handled (ok chunks) c = tt
send_handled (err x) c =
    subst (IfErr OursFailed) (sym (raised (Option (List Bytes)) x c.our_role c)) (our_role_error c)

-- Whatever `send_with_data_passthrough` raises, our state is ERROR afterwards.
pub send_error :
    (event : Event) (c : Connection) (e : Error)
    → (send_with_data_passthrough event c).0 ≡ err e
    → our_state (send_with_data_passthrough event c).1 ≡ error
unfolding send_with_data_passthrough
send_error event c e h =
    IfErr-elim OursFailed (send_with_data_passthrough event c) e
      (IfErr-if OursFailed (state_eq (our_state c) error) (err (local_protocol_error 400), c)
        (handle_send_error (try_send event c).0 (try_send event c).1)
        (λ dead. state_is (our_state c) error dead)
        (send_handled (try_send event c).0 (try_send event c).1))
      h

-- `send_failed` returns, and leaves our state in ERROR.
pub send_failed_error :
    (c : Connection) → ((send_failed c).0 ≡ ok tt) × (our_state (send_failed c).1 ≡ error)
unfolding send_failed
send_failed_error c = ((process_error_of-Kept c.our_role c).returned, our_role_error c)
