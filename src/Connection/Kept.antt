-- ===== src/Connection/Kept.antt =====
-- The change of readers and writers behind `_process_error` (h11/_connection.py), where no event is
-- given.
use h.Prelude.{◌≡◌, ◌≢◌, refl, ◌∙◌, ◌⊎◌, inl, inr, true, false, Option, none, arith, Bool-cases}
use h.Prelude.Exec.{Result, ok, err, Exec, continue}
use h.State.Table.{Role, client, server, State, send_body, error, States, get_state, state_eq}
use h.State.Defs.{ConnectionState, process_error, fire_round, fire_state_triggered_transitions}
use h.State.Fixpoint.{fire-eq-round}
use h.Readers.Defs.{Reader, readers}
use h.Writers.Defs.{Writer, writers}
use h.Connection.Defs.{
  Connection, our_state, their_state, their_role, update_writer, update_reader,
  respond_to_state_changes, process_error_of,
}

-- A call on the state machine that leaves a role alone, or moves it somewhere else than to
-- SEND_BODY.
abbrev pub Quiet : State → State → Type 0
Quiet old now = (now ≡ old) ⊎ (now ≢ send_body)

round-Quiet :
    (s : Role) (m : ConnectionState)
    → Quiet (get_state m.states s) (get_state (fire_round m).states s)
unfolding fire_round
round-Quiet client m = ground arith
round-Quiet server m = ground arith

round-error :
    (r : Role) (m : ConnectionState)
    → get_state m.states r ≡ error
    → get_state (fire_round m).states r ≡ error
unfolding fire_round
round-error client m h = ground arith
round-error server m h = ground arith

pub fire-Quiet :
    (s : Role) (m : ConnectionState)
    → Quiet (get_state m.states s) (get_state (fire_state_triggered_transitions m).states s)
fire-Quiet s m = rw (fire-eq-round m) (round-Quiet s m)

pub process_error-error :
    (r : Role) (m : ConnectionState) → get_state (process_error r m).states r ≡ error
unfolding process_error
process_error-error client m = rw (fire-eq-round _) (round-error client _ refl)
process_error-error server m = rw (fire-eq-round _) (round-error server _ refl)

error-Quiet : (old now : State) → now ≡ error → Quiet old now
error-Quiet old now e = ground arith

pub process_error-Quiet :
    (r s : Role) (m : ConnectionState)
    → Quiet (get_state m.states s) (get_state (process_error r m).states s)
process_error-Quiet client client m = error-Quiet _ _ (process_error-error client m)
process_error-Quiet server server m = error-Quiet _ _ (process_error-error server m)
process_error-Quiet client server m = unfold process_error in fire-Quiet server _
process_error-Quiet server client m = unfold process_error in fire-Quiet client _

state_eq_of_eq : (a b : State) → a ≡ b → state_eq a b ≡ true
state_eq_of_eq a b h = ground arith

state_eq_of_ne : (a b : State) → a ≢ b → state_eq a b ≡ false
state_eq_of_ne a b h = ground arith

-- What a call keeps, when it returns.
pub record Kept (c : Connection) (p : Result (Unit {0}) × Connection) : Type 0 where
  pub returned : p.0 ≡ ok tt
  pub cstate : p.1.cstate ≡ c.cstate
  pub our_role : p.1.our_role ≡ c.our_role

-- A change of the reader and the writer alone.
Kept-io :
    (c : Connection) (w : Option Writer) (r : Option Reader)
    → Kept c (ok tt, record c { writer = w; reader = r })
Kept-io c w r = record { returned = refl; cstate = refl; our_role = refl }

module _ (old : States) (c : Connection) where
  -- Without an event a writer is only looked up.
  writer-Kept : Quiet (get_state old c.our_role) (our_state c) → Kept c (update_writer old none c)
  unfolding update_writer
  writer-Kept (inl same) = rw (state_eq_of_eq _ _ same) (Kept-io c c.writer c.reader)
  writer-Kept (inr other) = elim (Bool-cases (state_eq (our_state c) (get_state old c.our_role))) [
    | inl e ↦ rw e (Kept-io c c.writer c.reader)
    | inr e ↦
        rw (e, state_eq_of_ne _ _ other) (Kept-io c (writers c.our_role (our_state c)) c.reader)
  ]

  reader-Kept :
      Quiet (get_state old (their_role c)) (their_state c) → Kept c (update_reader old none c)
  unfolding update_reader
  reader-Kept (inl same) = rw (state_eq_of_eq _ _ same) (Kept-io c c.writer c.reader)
  reader-Kept (inr other) =
      elim (Bool-cases (state_eq (their_state c) (get_state old (their_role c)))) [
        | inl e ↦ rw e (Kept-io c c.writer c.reader)
        | inr e ↦
            rw (e, state_eq_of_ne _ _ other)
              (Kept-io c c.writer (readers (their_role c) (their_state c)))
      ]

then-Kept :
    (c : Connection) (p : Result (Unit {0}) × Connection) (f : Exec Connection (Unit {0}))
    → Kept c p
    → Kept p.1 (f p.1)
    → Kept c (continue p.0 (λ _. f) p.1)
then-Kept c (ok u, c') f k l = record {
  returned = l.returned;
  cstate = l.cstate ∙ k.cstate;
  our_role = l.our_role ∙ k.our_role;
}
then-Kept c (err e, c') f k l = cc (k.returned)

pub respond-Kept :
    (old : States) (c : Connection)
    → Quiet (get_state old c.our_role) (our_state c)
    → Quiet (get_state old (their_role c)) (their_state c)
    → Kept c (respond_to_state_changes old none c)
unfolding respond_to_state_changes
respond-Kept old c ours theirs =
    let k = writer-Kept old c ours in
    then-Kept c (update_writer old none c) (update_reader old none) k
      (reader-Kept old (update_writer old none c).1 (rw (k.cstate, k.our_role) theirs))

-- What `_process_error` does to the state machine.
pub process_error_of-Kept :
    (r : Role) (c : Connection)
    → Kept (record c { cstate = process_error r c.cstate }) (process_error_of r c)
unfolding process_error_of
process_error_of-Kept r c =
    respond-Kept c.cstate.states (record c { cstate = process_error r c.cstate })
      (process_error-Quiet r c.our_role c.cstate) (process_error-Quiet r (their_role c) c.cstate)
