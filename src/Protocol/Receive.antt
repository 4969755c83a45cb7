-- ===== src/Protocol/Receive.antt =====
-- `next_event` and `receive_data` (h11/_connection.py), for a connection whose reader and writer fit
-- its states.
use h.Prelude.{inl, inr, ap, ◌≡◌, refl, subst, Bool, true, false, if◌then◌else◌, [], ◌∷◌}
use h.Prelude.Bytes.{Bytes}
use h.Prelude.Exec.{
  Error, local_protocol_error, remote_protocol_error, assertion_error, runtime_error, index_error,
  attribute_error, Result, ok, err, raise, ◌>>◌,
}
use h.Buffer.Defs.{append}
use h.Buffer.Cache.{append-IsCached}
use h.State.Table.{Role, error, state_eq}
use h.Connection.Defs.{Connection, their_state, their_role, process_error_of}
use h.Connection.Receive.{
  Received, try_next_event, as_remote, handle_receive_error, next_event, receive_data,
}
use h.Protocol.Defs.{OrAttribute, IsProtocolError, IsRemote}
use h.Protocol.Buffers.{Anything}
use h.Protocol.Process.{Fits, FitsBut, process_error_of-Fits}
use h.Protocol.Refused.{OutOfTurn}
use h.Protocol.Tried.{Tried, fine, failed, eq_false, try_next_event-Tried}

as_remote-IsRemote : (e : Error) → IsProtocolError e → IsRemote (as_remote e)
as_remote-IsRemote (local_protocol_error hint) i = tt
as_remote-IsRemote (remote_protocol_error hint) i = tt
as_remote-IsRemote assertion_error i = absurd i
as_remote-IsRemote runtime_error i = absurd i
as_remote-IsRemote index_error i = absurd i
as_remote-IsRemote attribute_error i = absurd i

as_remote-OrAttribute :
    (X : Type 0) (e : Error)
    → OrAttribute IsProtocolError X e
    → OrAttribute IsRemote X (as_remote e)
as_remote-OrAttribute X e (inl i) = inl (as_remote-IsRemote e i)
as_remote-OrAttribute X e (inr (a, x)) = inr (ap as_remote a, x)

-- An answer, or an error with `E`; it fits either way.
pub data Answers {A : Type 0} (E : Error → Type 0) (r : Role) : Result A × Connection → Type 0 where
  answer : {a : A} {c : Connection} → Fits c → c.our_role ≡ r → Answers E r (ok a, c)
  problem : {e : Error} {c : Connection} → E e → Fits c → c.our_role ≡ r → Answers E r (err e, c)

pub Answers-Fits :
    {A : Type 0} {E : Error → Type 0} {r : Role} {p : Result A × Connection}
    → Answers E r p
    → Fits p.1
Answers-Fits (answer f o) = f
Answers-Fits (problem i f o) = f

pub Answers-error :
    {A : Type 0} {E : Error → Type 0} (r : Role) (p : Result A × Connection) (e : Error)
    → Answers E r p
    → p.0 ≡ err e
    → E e
Answers-error r p e (answer f o) h = cc
Answers-error {E = E} r p e (problem {e = x} i f o) h = let q : x ≡ e = cc in subst E q i

pub Answers-if :
    {A : Type 0} {E : Error → Type 0} {r : Role} (b : Bool) (p q : Result A × Connection)
    → (b ≡ true → Answers E r p)
    → (b ≡ false → Answers E r q)
    → Answers E r (if b then p else q)
Answers-if true p q h k = h refl
Answers-if false p q h k = k refl

-- `_process_error`, and the error once more.
pub fails :
    {A : Type 0} (E : Error → Type 0) (e : Error) (r : Role) (c : Connection)
    → E e
    → FitsBut r c
    → Answers {A = A} E c.our_role ((process_error_of r >> raise e) c)
fails E e r c i f =
    let (returned, fits, o) = process_error_of-Fits r c f in rw returned (problem i fits o)

handle-Answers :
    (X : Type 0) (r : Role) (p : Result Received × Connection)
    → Tried X Anything r p
    → Answers (OrAttribute IsRemote X) r (handle_receive_error p.0 p.1)
handle-Answers X r p (fine i f o) = answer f o
handle-Answers X r p (failed {e} {c} i f o) =
    subst (λ x. Answers (OrAttribute IsRemote X) x (handle_receive_error (err e) c)) o
      (fails (OrAttribute IsRemote X) (as_remote e) (their_role c) c (as_remote-OrAttribute X e i)
        f)

pub next_event-Answers :
    (c : Connection)
    → Fits c
    → Answers (OrAttribute IsRemote (OutOfTurn (their_role c) c.cstate)) c.our_role (next_event c)
unfolding next_event
next_event-Answers c f =
    Answers-if (state_eq (their_state c) error) _ _ (λ _. problem (inl tt) f refl)
      (λ e.
        handle-Answers _ c.our_role (try_next_event c) (try_next_event-Tried c f (eq_false _ _ e)))

pub receive_data-Fits : (more : Bytes) (c : Connection) → Fits c → Fits (receive_data more c).1
unfolding receive_data
receive_data-Fits [] c f = record {
  sound = f.sound;
  cached = f.cached;
  writer = f.writer;
  reader = f.reader;
}
receive_data-Fits (x ∷ more) c f = given c.receive_buffer_closed
  where
    given :
        (b : Bool)
        → Fits
            (if b
              then raise {A = Unit {0}} runtime_error c
              else (ok tt, record c { receive_buffer = append (x ∷ more) c.receive_buffer })).1
    given true = f
    given false = record {
      sound = f.sound;
      cached = append-IsCached (x ∷ more) c.receive_buffer f.cached;
      writer = f.writer;
      reader = f.reader;
    }
