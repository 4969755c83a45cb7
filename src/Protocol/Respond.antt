-- ===== src/Protocol/Respond.antt =====
-- `_respond_to_state_changes` (h11/_connection.py), where each role that has come to its body has a
-- framing.
use h.Prelude.{
  ◌≡◌, ◌≢◌, refl, sym, subst, ◌⊎◌, inl, inr, true, false, Option, some, arith, Bool-cases,
}
use h.Prelude.Exec.{Result, ok}
use h.Events.{Event}
use h.State.Table.{Role, State, send_body, States, get_state, state_eq}
use h.Readers.Defs.{Framing, Reader, body_reader, readers}
use h.Writers.Defs.{Writer, body_writer, writers}
use h.Connection.Framing.{body_framing}
use h.Connection.Defs.{
  Connection, our_state, their_state, their_role, get_io_object, update_writer, update_reader,
  respond_to_state_changes,
}
use h.Connection.Kept.{Quiet}
use h.Protocol.Framing.{Framable}
use h.Protocol.Fits.{
  ReaderFits, WriterFits, IsRoleState, readers-Fits, writers-Fits, body_writer-Fits,
}

state_eq_of_eq : (a b : State) → a ≡ b → state_eq a b ≡ true
state_eq_of_eq a b h = ground arith

state_eq_of_ne : (a b : State) → a ≢ b → state_eq a b ≡ false
state_eq_of_ne a b h = ground arith

eq_of_state_eq : (a b : State) → state_eq a b ≡ true → a ≡ b
eq_of_state_eq a b h = ground arith

-- The role stays where it was, or has no body to begin, or its body has a framing.
abbrev pub Ready : States → Option Event → Connection → Role → Type 0
Ready old event c r =
    Quiet (get_state old r) (get_state c.cstate.states r)
    ⊎ Framable (body_framing c.request_method event)

-- What is looked up for a state that has changed.
data LookedUp {Io : Type 0} (by_framing : Framing → Io) (by_state : Option Io) (now : State)
    : Result (Option Io) → Type 0 where
  of_state : now ≢ send_body → LookedUp by_framing by_state now (ok by_state)
  of_body :
      (f : Framing) → now ≡ send_body → LookedUp by_framing by_state now (ok (some (by_framing f)))

is_body : (s : State) → (s ≡ send_body) ⊎ (s ≢ send_body)
is_body send_body = inl refl
is_body _ = inr (cc)

module _ {Io : Type 0} (by_framing : Framing → Io) (by_state : Role → State → Option Io) where
  looked_up :
      (old : States) (event : Option Event) (c : Connection) (r : Role)
      → state_eq (get_state c.cstate.states r) (get_state old r) ≡ false
      → Ready old event c r
      → LookedUp by_framing
          (by_state r (get_state c.cstate.states r))
          (get_state c.cstate.states r)
          (get_io_object by_framing by_state r event c)
  unfolding get_io_object
  looked_up old event c r changed ready = by_cases (is_body (get_state c.cstate.states r)) ready
    where
      by_cases :
          (get_state c.cstate.states r ≡ send_body) ⊎ (get_state c.cstate.states r ≢ send_body)
          → Ready old event c r
          → LookedUp by_framing
              (by_state r (get_state c.cstate.states r))
              (get_state c.cstate.states r)
              (get_io_object by_framing by_state r event c)
      by_cases (inr no_body) _ = rw (state_eq_of_ne _ _ no_body) (of_state no_body)
      by_cases (inl body) (inl (inl same)) = absurd (cc (state_eq_of_eq _ _ same))
      by_cases (inl body) (inl (inr no_body)) = absurd (no_body body)
      by_cases (inl body) (inr (f, e)) = rw (state_eq_of_eq _ _ body, e) (of_body f body)

reader_fits :
    (r : Role) (s : State) (io : Result (Option Reader))
    → IsRoleState r s
    → LookedUp body_reader (readers r s) s io
    → (reader : Option Reader) × (io ≡ ok reader) × ReaderFits s reader
reader_fits r s io h (of_state no_body) = (readers r s, refl, readers-Fits r s h no_body)
reader_fits r s io h (of_body f body) = (some (body_reader f), refl, λ _. cc)

writer_fits :
    (r : Role) (s : State) (io : Result (Option Writer))
    → IsRoleState r s
    → LookedUp body_writer (writers r s) s io
    → (writer : Option Writer) × (io ≡ ok writer) × WriterFits r s writer
writer_fits r s io h (of_state no_body) = (writers r s, refl, writers-Fits r s h no_body)
writer_fits r s io h (of_body f body) = (
  some (body_writer f),
  refl,
  subst (λ x. WriterFits r x (some (body_writer f))) (sym body) (body_writer-Fits r f),
)

module _ (old : States) (event : Option Event) (c : Connection) where
  reader_updated :
      Ready old event c (their_role c)
      → IsRoleState (their_role c) (their_state c)
      → (their_state c ≡ get_state old (their_role c) → ReaderFits (their_state c) c.reader)
      → (reader : Option Reader) × (update_reader old event c
          ≡ (ok tt, record c { reader = reader }))
        × ReaderFits (their_state c) reader
  unfolding update_reader
  reader_updated ready h k =
      elim (Bool-cases (state_eq (their_state c) (get_state old (their_role c)))) [
        | inl same ↦ rw same (c.reader, refl, k (eq_of_state_eq _ _ same))
        | inr changed ↦
            let (reader, e, fits) =
              reader_fits (their_role c) (their_state c)
                (get_io_object body_reader readers (their_role c) event c) h
                (looked_up body_reader readers old event c (their_role c) changed ready) in
            (reader, rw (changed, e), fits)
      ]

  writer_updated :
      Ready old event c c.our_role
      → IsRoleState c.our_role (our_state c)
      → (our_state c ≡ get_state old c.our_role → WriterFits c.our_role (our_state c) c.writer)
      → (writer : Option Writer) × (update_writer old event c
          ≡ (ok tt, record c { writer = writer }))
        × WriterFits c.our_role (our_state c) writer
  unfolding update_writer
  writer_updated ready h k = elim (Bool-cases (state_eq (our_state c) (get_state old c.our_role))) [
    | inl same ↦ rw same (c.writer, refl, k (eq_of_state_eq _ _ same))
    | inr changed ↦
        let (writer, e, fits) =
          writer_fits c.our_role (our_state c)
            (get_io_object body_writer writers c.our_role event c) h
            (looked_up body_writer writers old event c c.our_role changed ready) in
        (writer, rw (changed, e), fits)
  ]

-- Both are looked up without an error, and fit.
pub record Responded (c : Connection) (p : Result (Unit {0}) × Connection) : Type 0 where
  pub writer : Option Writer
  pub reader : Option Reader
  pub result : p ≡ (ok tt, record c { writer = writer; reader = reader })
  pub writer_fits : WriterFits c.our_role (our_state c) writer
  pub reader_fits : ReaderFits (their_state c) reader

pub respond-Responded :
    (old : States) (event : Option Event) (c : Connection)
    → ((r : Role) → Ready old event c r)
    → ((r : Role) → IsRoleState r (get_state c.cstate.states r))
    → (our_state c ≡ get_state old c.our_role → WriterFits c.our_role (our_state c) c.writer)
    → (their_state c ≡ get_state old (their_role c) → ReaderFits (their_state c) c.reader)
    → Responded c (respond_to_state_changes old event c)
unfolding respond_to_state_changes
respond-Responded old event c ready h kw kr =
    let (w, e, fw) = writer_updated old event c (ready c.our_role) (h c.our_role) kw in
    let (r, e', fr) =
      reader_updated old event (record c { writer = w }) (ready (their_role c)) (h (their_role c))
        kr in
    record { writer = w; reader = r; result = rw (e, e'); writer_fits = fw; reader_fits = fr }
