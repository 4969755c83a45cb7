-- ===== src/Protocol/Process.antt =====
-- `_process_event` and `_process_error` (h11/_connection.py), for a connection whose reader and
-- writer fit its states.
use h.Prelude.{◌≡◌, ◌≢◌, refl, sym, subst, ◌⊎◌, inl, inr, Option, none, some}
use h.Prelude.Bytes.{Bytes}
use h.Prelude.Exec.{Result, ok}
use h.Events.{
  Event, Response, request, informational_response, response, data_event, end_of_message,
  connection_closed, type_of,
}
use h.Buffer.Cache.{IsCached}
use h.State.Table.{Role, client, server, State, error, get_state}
use h.State.Defs.{ConnectionState, process_event, process_error}
use h.State.Invariant.{IsSound, process_error-IsSound}
use h.Readers.Defs.{Reader}
use h.Writers.Defs.{Writer}
use h.Connection.Framing.{body_framing}
use h.Connection.Defs.{
  Connection, our_state, their_state, their_role, propose, switch_event_of, handle_keep_alive,
  process_error_of,
}
use h.Connection.Kept.{Quiet, process_error-Quiet, process_error-error}
use h.Protocol.Events.{IsMade}
use h.Protocol.Framing.{Framable, request-Framable, response-Framable}
use h.Protocol.Fits.{ReaderFits, WriterFits, IsSound-IsRoleState}
use h.Protocol.Respond.{Ready, Responded, respond-Responded}
use h.Protocol.Machine.{IsLater, process_event-Quiet}

-- The reader and the writer are those of the states, but for those of `r`.
pub record FitsBut (r : Role) (c : Connection) : Type 0 where
  pub sound : IsSound c.cstate
  pub cached : IsCached c.receive_buffer
  pub writer : c.our_role ≢ r → WriterFits c.our_role (our_state c) c.writer
  pub reader : their_role c ≢ r → ReaderFits (their_state c) c.reader

pub record Fits (c : Connection) : Type 0 where
  pub sound : IsSound c.cstate
  pub cached : IsCached c.receive_buffer
  pub writer : WriterFits c.our_role (our_state c) c.writer
  pub reader : ReaderFits (their_state c) c.reader

pub Fits-FitsBut : {c : Connection} (r : Role) → Fits c → FitsBut r c
Fits-FitsBut r f = record {
  sound = f.sound;
  cached = f.cached;
  writer = λ _. f.writer;
  reader = λ _. f.reader;
}

pub Responded-Fits :
    (c : Connection) (p : Result (Unit {0}) × Connection)
    → IsSound c.cstate
    → IsCached c.receive_buffer
    → Responded c p
    → (p.0 ≡ ok tt) × Fits p.1 × (p.1.our_role ≡ c.our_role)
Responded-Fits c p s b h =
    rw (h.result)
      (refl, record { sound = s; cached = b; writer = h.writer_fits; reader = h.reader_fits }, refl)

-- The error of a role repairs what only that role has lost.
error-WriterFits : (r : Role) (s : State) (w : Option Writer) → s ≡ error → WriterFits r s w
error-WriterFits client s w e = rw e tt
error-WriterFits server s w e = rw e tt

error-ReaderFits : (s : State) (r : Option Reader) → s ≡ error → ReaderFits s r
error-ReaderFits s r e i = absurd (i.0 e)

same_or_other : (r s : Role) → (s ≡ r) ⊎ (s ≢ r)
same_or_other client client = inl refl
same_or_other client server = inr (cc)
same_or_other server client = inr (cc)
same_or_other server server = inl refl

pub process_error_of-Fits :
    (r : Role) (c : Connection)
    → FitsBut r c
    → ((process_error_of r c).0 ≡ ok tt)
      × Fits (process_error_of r c).1
      × ((process_error_of r c).1.our_role ≡ c.our_role)
unfolding process_error_of
process_error_of-Fits r c f =
    let m = process_error r c.cstate in
    let c' : Connection = record c { cstate = m } in
    let sound = process_error-IsSound r c.cstate f.sound in
    Responded-Fits c' _ sound f.cached (
      respond-Responded c.cstate.states none c' (λ s. inl (process_error-Quiet r s c.cstate))
        (λ s. IsSound-IsRoleState s m sound)
        (λ same. elim (same_or_other r c.our_role) [
          | inl e ↦
              error-WriterFits c.our_role _ _
                (subst (λ s. get_state m.states s ≡ error) (sym e) (process_error-error r c.cstate))
          | inr n ↦ subst (λ s. WriterFits c.our_role s c.writer) (sym same) (f.writer n)
        ])
        (λ same. elim (same_or_other r (their_role c)) [
          | inl e ↦
              error-ReaderFits _ _
                (subst (λ s. get_state m.states s ≡ error) (sym e) (process_error-error r c.cstate))
          | inr n ↦ subst (λ s. ReaderFits s c.reader) (sym same) (f.reader n)
        ]))

response_framed :
    (method : Option Bytes) (q : Response)
    → IsMade (response q)
    → Framable (body_framing method (some (response q)))
unfolding body_framing
response_framed method q h = response-Framable method q h.0 h.1

-- What the state machine has become.
abbrev pub after : Role → Event → ConnectionState → Result (Unit {0}) × ConnectionState
after r event m =
    process_event r (type_of event) (switch_event_of r event (propose r event m))
      (propose r event m)

later-Ready :
    (r s : Role) (event : Event) (c : Connection) (m : ConnectionState)
    → IsLater (type_of event)
    → propose r event m ≡ m
    → c.cstate ≡ (after r event m).1
    → Ready m.states (some event) c s
later-Ready r s event c m h p e = inl (
    subst (λ n. Quiet (get_state m.states s) (get_state n.states s)) (sym e)
      (subst
        (λ k.
          Quiet (get_state m.states s)
            (get_state (process_event r (type_of event) (switch_event_of r event k) k).1.states s))
        (sym p) (process_event-Quiet s r (type_of event) (switch_event_of r event m) m h)))

-- A role that comes to its body has a framing.
pub event-Ready :
    (r s : Role) (event : Event) (c : Connection) (m : ConnectionState)
    → IsMade event
    → c.cstate ≡ handle_keep_alive event (after r event m).1
    → Ready m.states (some event) c s
unfolding propose
event-Ready r s (request q) c m h e = inr (request-Framable c.request_method q h)
event-Ready r s (response q) c m h e = inr (response_framed c.request_method q h)
event-Ready client s (informational_response q) c m h e = later-Ready client s _ c m tt refl e
event-Ready client s (data_event d) c m h e = later-Ready client s _ c m tt refl e
event-Ready client s (end_of_message hs) c m h e = later-Ready client s _ c m tt refl e
event-Ready client s connection_closed c m h e = later-Ready client s _ c m tt refl e
event-Ready server s (informational_response q) c m h e = later-Ready server s _ c m tt refl e
event-Ready server s (data_event d) c m h e = later-Ready server s _ c m tt refl e
event-Ready server s (end_of_message hs) c m h e = later-Ready server s _ c m tt refl e
event-Ready server s connection_closed c m h e = later-Ready server s _ c m tt refl e
