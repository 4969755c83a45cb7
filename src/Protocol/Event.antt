-- ===== src/Protocol/Event.antt =====
-- `_process_event` (h11/_connection.py) of an event that its constructor made, for a connection whose
-- reader and writer fit its states.
use h.Prelude.{◌≡◌, ◌≢◌, refl, sym, ap, subst, ◌∙◌, inl, inr, false, Option, some}
use h.Prelude.Exec.{Error, Result, ok, err, modify, continue, ◌>>=◌}
use h.Events.{Event, type_of}
use h.State.Table.{Role, client, server, State, get_state}
use h.State.Defs.{ConnectionState}
use h.State.Invariant.{IsSound, process_event-IsSound}
use h.Readers.Defs.{Reader}
use h.Writers.Defs.{Writer}
use h.Connection.Defs.{
  Connection, their_role, other_role, propose, switch_event_of, handle_keep_alive, note_event,
  waiting_after, respond_to_state_changes, process_event_of,
}
use h.Connection.Healthy.{propose-Healthy, handle_keep_alive-Healthy}
use h.Protocol.Events.{IsMade}
use h.Protocol.Fits.{ReaderFits, WriterFits, IsSound-IsRoleState}
use h.Protocol.Respond.{respond-Responded}
use h.Protocol.Refused.{
  Refusal, propose-Refusal, Answered, process_event-Answered, switch_event_of-IsAnnotable,
}
use h.Protocol.Machine.{LetBe, propose-LetBe}
use h.Protocol.Noted.{noted}
use h.Protocol.Process.{FitsBut, Fits, Responded-Fits, event-Ready, after}

-- The server's reader and writer, where only the client proposes.
LetBe-WriterFits :
    (old now : State) (w : Option Writer)
    → LetBe old now
    → WriterFits server old w
    → WriterFits server now w
LetBe-WriterFits old now w (inl e) f = subst (λ s. WriterFits server s w) (sym e) f
LetBe-WriterFits old now w (inr (e, o)) f = rw e tt

LetBe-ReaderFits :
    (old now : State) (r : Option Reader) → LetBe old now → ReaderFits old r → ReaderFits now r
LetBe-ReaderFits old now r (inl e) f = subst (λ s. ReaderFits s r) (sym e) f
LetBe-ReaderFits old now r (inr (e, inl o)) f = λ _. f (rw o (cc, cc, cc))
LetBe-ReaderFits old now r (inr (e, inr (inl o))) f = λ _. f (rw o (cc, cc, cc))
LetBe-ReaderFits old now r (inr (e, inr (inr o))) f = λ _. f (rw o (cc, cc, cc))

the_other : (r s : Role) → s ≢ r → s ≡ other_role r
the_other client client n = absurd (n refl)
the_other client server n = refl
the_other server client n = refl
the_other server server n = absurd (n refl)

-- What holds of a role's state, and goes on holding of a server's whose cycle is over.
module _ (P : Role → State → Type 0)
    (kept : (old now : State) → LetBe old now → P server old → P server now) (r : Role)
    (event : Event) (m : ConnectionState) where
  proposed_keeps :
      (s : Role) → s ≢ r → P s (get_state m.states s) → P s (get_state (propose r event m).states s)
  unfolding propose
  proposed_keeps client d f = by_role r event d
    where
      by_role :
          (r : Role) (event : Event)
          → client ≢ r
          → P client (get_state (propose r event m).states client)
      by_role client event d = absurd (d refl)
      by_role server event d = f
  proposed_keeps server d f = kept _ _ (propose-LetBe r event m) f

  -- A refused event leaves the other role alone, but for its proposals.
  refused_keeps :
      (n : ConnectionState)
      → get_state n.states (other_role r) ≡ get_state (propose r event m).states (other_role r)
      → (s : Role) → s ≢ r
      → P s (get_state m.states s)
      → P s (get_state n.states s)
  refused_keeps n e s d f =
      let same =
        subst (λ x. get_state n.states x ≡ get_state (propose r event m).states x)
          (sym (the_other r s d)) e in
      subst (P s) (sym same) (proposed_keeps s d f)

-- An event is accepted, or refused.
pub data Processed (r : Role) (c : Connection) : Result (Unit {0}) × Connection → Type 0 where
  processed : {c' : Connection} → Fits c' → c'.our_role ≡ c.our_role → Processed r c (ok tt, c')
  refused :
      {e : Error} {c' : Connection}
      → Refusal r c.cstate e
      → FitsBut r c'
      → c'.our_role ≡ c.our_role
      → Processed r c (err e, c')

of_outcome :
    (r : Role) (c : Connection) (p : Result (Unit {0}) × Connection)
    → (p.0 ≡ ok tt) × Fits p.1 × (p.1.our_role ≡ c.our_role)
    → Processed r c p
of_outcome r c p (e, f, o) = subst (λ x. Processed r c (x, p.1)) (sym e) (processed f o)

-- Where the state machine has accepted it.
accepted :
    (r : Role) (event : Event) (c d : Connection)
    → Fits c
    → IsMade event
    → IsSound d.cstate
    → d.cstate ≡ handle_keep_alive event (after r event c.cstate).1
    → d ≡ record c {
      cstate = d.cstate;
      request_method = d.request_method;
      their_http_version = d.their_http_version;
      client_is_waiting_for_100_continue = d.client_is_waiting_for_100_continue;
    }
    → Processed r c (respond_to_state_changes c.cstate.states (some event) d)
accepted r event c d f h s e k = of_outcome r c _ (
    let (returned, fits, o) = Responded-Fits d _ s (rw k f.cached) (
      respond-Responded c.cstate.states (some event) d (λ x. event-Ready r x event d c.cstate h e)
        (λ x. IsSound-IsRoleState x d.cstate s)
        (λ same. subst (λ x. WriterFits d.our_role x d.writer) (sym same) (rw k f.writer))
        (λ same. subst (λ x. ReaderFits x d.reader) (sym same) (rw k f.reader))) in
    (returned, fits, o ∙ ap (λ x. x.our_role) k))

module _ (r : Role) (event : Event) (c : Connection) (f : Fits c) (h : IsMade event) where
  outcome :
      (p : Result (Unit {0}) × ConnectionState)
      → p ≡ after r event c.cstate
      → IsSound p.1
      → Answered r (propose r event c.cstate) p
      → Processed r c (
          continue p.0
            (λ _. modify (note_event r event) >>= λ _.
              respond_to_state_changes c.cstate.states (some event))
            (record c { cstate = p.1 }))
  outcome (ok u, n) e s a =
      let d : Connection = record c { cstate = n } in
      let k = noted r event d in
      let sound = (handle_keep_alive-Healthy event false n (s, λ w. absurd (cc))).0 in
      rw (k.result) (
        accepted r event c
          (record d {
            cstate = handle_keep_alive event n;
            request_method = k.method;
            their_http_version = k.version;
            client_is_waiting_for_100_continue =
                waiting_after r event c.client_is_waiting_for_100_continue;
          })
          f h sound (ap (λ p. handle_keep_alive event p.1) e) refl)
  outcome (err x, n) e s a =
      refused (propose-Refusal r event c.cstate x a.0)
        (record {
          sound = s;
          cached = f.cached;
          writer = λ d.
              refused_keeps (λ x y. WriterFits x y c.writer) (λ o y. LetBe-WriterFits o y c.writer)
                r event c.cstate n a.1 c.our_role d f.writer;
          reader = λ d.
              refused_keeps (λ x y. ReaderFits y c.reader) (λ o y. LetBe-ReaderFits o y c.reader) r
                event c.cstate n a.1 (their_role c) d f.reader;
        })
        refl

  pub process_event_of-Processed : Processed r c (process_event_of r event c)
  unfolding process_event_of
  process_event_of-Processed =
      let m = propose r event c.cstate in
      let sw = switch_event_of r event m in
      outcome (after r event c.cstate) refl
        (process_event-IsSound r (type_of event) sw m
          (propose-Healthy r event false c.cstate (f.sound, λ w. absurd (cc))).0)
        (process_event-Answered r (type_of event) sw m (switch_event_of-IsAnnotable r event m))
