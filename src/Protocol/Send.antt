-- ===== src/Protocol/Send.antt =====
-- `send_with_data_passthrough` and `send_failed` (h11/_connection.py), for a
-- connection whose reader and writer fit its states.
use h.Prelude.{
  inl, ◌≡◌, refl, sym, subst, Bool, true, false, if◌then◌else◌, Option, some, List, arith,
}
use h.Prelude.Bytes.{Bytes}
use h.Prelude.Exec.{Error, Result, ok, err, Exec, pure, gets, lift, modify, continue, ◌>>=◌}
use h.Events.{
  Event, request, informational_response, response, data_event, end_of_message, connection_closed,
  type_of,
}
use h.State.Table.{Role, State, error, get_state, state_eq}
use h.State.Defs.{ConnectionState}
use h.Writers.Defs.{Writer, call_writer}
use h.Connection.Defs.{
  Connection, our_state, propose, switch_event_of, note_event, respond_to_state_changes,
  process_event_of,
}
use h.Connection.Send.{
  clean_up, store_writer, write_with, written, write_event, process_our_event, try_send,
  handle_send_error, send_with_data_passthrough, send_failed,
}
use h.Protocol.Defs.{OrAttribute, IsLocal, Gives, Gives-value, Gives-raised}
use h.Protocol.Events.{IsMade}
use h.Protocol.Fits.{WriterFits}
use h.Protocol.Process.{Fits, FitsBut, Fits-FitsBut, after, process_error_of-Fits}
use h.Protocol.Refused.{OutOfTurn, refusal}
use h.Protocol.Event.{Processed, processed, refused, process_event_of-Processed}
use h.Protocol.Receive.{Answers, answer, problem, Answers-if, fails}
use h.Protocol.CleanUp.{clean_up-Gives}
use h.Protocol.Writable.{Writable, IfReturned, process_event-Writable, propose-Writable}
use h.Protocol.Written.{IsFine, Wrote, Calls, call-Calls}

-- An accepted event was one for our state.
returned_if :
    {P : Type 0} (p : Result (Unit {0}) × ConnectionState) (c : Connection)
    (k : Unit {0} → Exec Connection (Unit {0}))
    → IfReturned P p
    → (continue p.0 k (record c { cstate = p.1 })).0 ≡ ok tt
    → P
returned_if (ok u, n) c k h e = h
returned_if (err x, n) c k h e = absurd (cc (e))

process_event_of-Writable :
    (r : Role) (event : Event) (c : Connection)
    → (process_event_of r event c).0 ≡ ok tt
    → Writable r (get_state c.cstate.states r) (type_of event)
unfolding process_event_of
process_event_of-Writable r event c e =
    let m = propose r event c.cstate in
    let sw = switch_event_of r event m in
    propose-Writable r event c.cstate (
      returned_if (after r event c.cstate) c
        (λ _. modify (note_event r event) >>= λ _.
          respond_to_state_changes c.cstate.states (some event))
        (process_event-Writable r (type_of event) sw m) e)

-- What the `try` block does: it fits, but for our writer where it raises, and there may be a reason
-- for an AttributeError.
data Sent {A : Type 0} (X : Type 0) (r : Role) : Result A × Connection → Type 0 where
  fine : {a : A} {c : Connection} → Fits c → c.our_role ≡ r → Sent X r (ok a, c)
  failed :
      {e : Error} {c : Connection}
      → OrAttribute IsLocal X e
      → FitsBut c.our_role c
      → c.our_role ≡ r
      → Sent X r (err e, c)

stored-Fits :
    (b : Bool) (w : Writer) (c : Connection)
    → Fits c
    → (b ≡ true → WriterFits c.our_role (our_state c) (some w))
    → Fits (if b then record c { writer = some w } else c)
stored-Fits true w c f h = record {
  sound = f.sound;
  cached = f.cached;
  writer = h refl;
  reader = f.reader;
}
stored-Fits false w c f h = f

-- The writer is kept where the state is the one that it was taken in.
stored_role :
    (b : Bool) (w : Writer) (c : Connection)
    → (if b then record c { writer = some w } else c).our_role ≡ c.our_role
stored_role true w c = refl
stored_role false w c = refl

result-Sent :
    {A X : Type 0} (r : Role) (x : Result A) (c : Connection)
    → IsFine x
    → Fits c
    → c.our_role ≡ r
    → Sent X r (x, c)
result-Sent r (ok a) c h f o = fine f o
result-Sent r (err e) c h f o = failed (inl h) (Fits-FitsBut _ f) o

then-Sent :
    {A B X : Type 0} (r : Role) (p : Result A × Connection) (k : A → Exec Connection B)
    → Sent X r p
    → ((a : A) (c : Connection) → Fits c → Sent X c.our_role (k a c))
    → Sent X r (continue p.0 k p.1)
then-Sent {X = X} r p k (fine {a} {c} f o) h = subst (λ x. Sent X x (k a c)) o (h a c f)
then-Sent r p k (failed i f o) h = failed i f o

eq_true : (a b : State) → state_eq a b ≡ true → a ≡ b
eq_true a b h = ground arith

write_with-Sent :
    {X : Type 0} (old : State) (w : Option Writer) (event : Event) (c : Connection)
    → Fits c
    → (v : Writer) × (w ≡ some v) × Wrote c.our_role old (call_writer v event)
    → Sent X c.our_role (write_with old w event c)
write_with-Sent old w event c f (v, e, h) =
    let b = state_eq (our_state c) old in
    let p = call_writer v event in
    rw e (
      result-Sent c.our_role p.0 (store_writer old p.1 c) h.fine
        (stored-Fits b p.1 c f
          (λ same. subst (λ s. WriterFits c.our_role s (some p.1)) (sym (eq_true _ _ same)) h.fits))
        (stored_role b p.1 c))

written-Sent :
    {X : Type 0} (old : State) (w : Option Writer) (event : Event) (c : Connection)
    → Fits c
    → (v : Writer) × (w ≡ some v) × Wrote c.our_role old (call_writer v event)
    → Sent X c.our_role ((write_with old w event >>= λ chunks. pure (written chunks)) c)
written-Sent old w event c f h =
    then-Sent c.our_role (write_with old w event c) (λ chunks. pure (written chunks))
      (write_with-Sent old w event c f h) (λ chunks d g. fine g refl)

write_event-Sent :
    {X : Type 0} (old : State) (w : Option Writer) (event : Event) (c : Connection)
    → Fits c
    → Calls c.our_role old w event
    → Sent X c.our_role (write_event old w event c)
write_event-Sent old w (request q) c f h = written-Sent old w (request q) c f h
write_event-Sent old w (informational_response q) c f h =
    written-Sent old w (informational_response q) c f h
write_event-Sent old w (response q) c f h = written-Sent old w (response q) c f h
write_event-Sent old w (data_event d) c f h = written-Sent old w (data_event d) c f h
write_event-Sent old w (end_of_message hs) c f h = written-Sent old w (end_of_message hs) c f h
write_event-Sent old w connection_closed c f h = fine f refl

-- The event is processed, then written by the writer of the state before it.
Processed-Sent :
    (event : Event) (c : Connection) (p : Result (Unit {0}) × Connection)
    → Processed c.our_role c p
    → (p.0 ≡ ok tt → Calls c.our_role (our_state c) c.writer event)
    → Sent
        (OutOfTurn c.our_role c.cstate)
        c.our_role
        (continue p.0 (λ _. write_event (our_state c) c.writer event) p.1)
Processed-Sent event c (x, d) (processed f o) h =
    subst (λ r. Sent (OutOfTurn c.our_role c.cstate) r (write_event (our_state c) c.writer event d))
      o
      (write_event-Sent (our_state c) c.writer event d f
        (subst (λ r. Calls r (our_state c) c.writer event) (sym o) (h refl)))
Processed-Sent event c p (refused {e} {c'} w f o) h =
    failed (refusal IsLocal _ _ e tt w) (subst (λ r. FitsBut r c') (sym o) f) o

cleaned-Sent :
    (x : Result Event) (c : Connection)
    → Gives IsMade x
    → Fits c
    → Sent (OutOfTurn c.our_role c.cstate) c.our_role (
        (lift x >>= λ event. gets (λ c. c.writer) >>= λ w.
        gets our_state >>= λ old. process_our_event event >>= λ _. write_event old w event)
          c)
cleaned-Sent (err e) c g f = failed (inl (Gives-raised g)) (Fits-FitsBut _ f) refl
cleaned-Sent (ok event) c g f =
    Processed-Sent event c (process_event_of c.our_role event c)
      (process_event_of-Processed c.our_role event c f (Gives-value g))
      (λ e.
        call-Calls c.our_role (our_state c) c.writer event f.writer
          (process_event_of-Writable c.our_role event c e))

try_send-Sent :
    (event : Event) (c : Connection)
    → IsMade event
    → Fits c
    → Sent (OutOfTurn c.our_role c.cstate) c.our_role (try_send event c)
unfolding try_send
try_send-Sent event c h f = cleaned-Sent (clean_up event c) c (clean_up-Gives event c h) f

handle-Answers :
    (X : Type 0) (r : Role) (p : Result (Option (List Bytes)) × Connection)
    → Sent X r p
    → Answers (OrAttribute IsLocal X) r (handle_send_error p.0 p.1)
handle-Answers X r p (fine f o) = answer f o
handle-Answers X r p (failed {e} {c} i f o) =
    subst (λ x. Answers (OrAttribute IsLocal X) x (handle_send_error (err e) c)) o
      (fails (OrAttribute IsLocal X) e c.our_role c i f)

pub send-Answers :
    (event : Event) (c : Connection)
    → IsMade event
    → Fits c
    → Answers
        (OrAttribute IsLocal (OutOfTurn c.our_role c.cstate))
        c.our_role
        (send_with_data_passthrough event c)
unfolding send_with_data_passthrough
send-Answers event c h f =
    Answers-if (state_eq (our_state c) error) _ _ (λ _. problem (inl tt) f refl)
      (λ _. handle-Answers _ c.our_role (try_send event c) (try_send-Sent event c h f))

pub send_failed-Fits : (c : Connection) → Fits c → Fits (send_failed c).1
unfolding send_failed
send_failed-Fits c f = (process_error_of-Fits c.our_role c (Fits-FitsBut _ f)).1
