-- ===== src/Protocol/Tried.antt =====
-- The `try` block of `next_event` (h11/_connection.py), for a connection whose reader and writer fit
-- its states.
use h.Prelude.{
  ◌∙◌, inl, ap, ◌≡◌, ◌≢◌, refl, sym, subst, Bool, true, false, ◌&&◌, ◌||◌, ltb, if◌then◌else◌,
  Option, none, some, arith,
}
use h.Prelude.Lists.{length}
use h.Prelude.Exec.{Error, Result, ok, err, Exec, pure, gets, lift, continue, ◌>>=◌}
use h.Buffer.Defs.{is_nonempty}
use h.State.Table.{Role, State, done, error, might_switch_protocol, switched_protocol, state_eq}
use h.Readers.Defs.{Reader, call_reader}
use h.Events.{Event}
use h.Connection.Defs.{Connection, their_state, their_role, other_role}
use h.Connection.Receive.{
  Received, received, need_data, paused, event_or_eof, run_reader, reader_after, read_with,
  extract_next_receive_event, process_received, check_buffer, try_next_event,
}
use h.Protocol.Defs.{
  OrAttribute, IsLocal-IsProtocolError, IsProtocolError, Gives-value, Gives-raised, Ends,
}
use h.Protocol.Buffers.{Anything}
use h.Protocol.Readers.{IsFound}
use h.Protocol.Calls.{IsReceivable, call_reader-Ends, Ending, event_or_eof-Ending}
use h.Protocol.Process.{Fits, FitsBut, Fits-FitsBut}
use h.Protocol.Refused.{OutOfTurn, refusal}
use h.Protocol.Event.{Processed, processed, refused, process_event_of-Processed}

-- They fit, in the role `r`.
abbrev pub FitsAs : Role → Connection → Type 0
FitsAs r c = Fits c × (c.our_role ≡ r)

run_reader-Ends :
    (reader : Reader) (c : Connection)
    → Fits c
    → Ends (FitsAs c.our_role) IsFound (run_reader reader c)
run_reader-Ends reader c f =
    let h = call_reader-Ends reader c.receive_buffer f.cached in
    record {
      gives = h.gives;
      keeps =
          (record { sound = f.sound; cached = h.keeps; writer = f.writer; reader = λ _. cc }, refl);
    }

or_false : (a b : Bool) → (a || b) ≡ false → (a ≡ false) × (b ≡ false)
or_false a b h = ground arith

pub eq_false : (a b : State) → state_eq a b ≡ false → a ≢ b
eq_false a b h = ground arith

-- What the `try` block does: it fits, but for the peer's reader where it raises, and there may be a
-- reason for an AttributeError.
pub data Tried {A : Type 0} (X : Type 0) (P : A → Type 0) (r : Role)
    : Result A × Connection → Type 0 where
  fine : {a : A} {c : Connection} → P a → Fits c → c.our_role ≡ r → Tried X P r (ok a, c)
  failed :
      {e : Error} {c : Connection}
      → OrAttribute IsProtocolError X e
      → FitsBut (their_role c) c
      → c.our_role ≡ r
      → Tried X P r (err e, c)

Tried-if :
    {A X : Type 0} {P : A → Type 0} {r : Role} (b : Bool) (p q : Result A × Connection)
    → (b ≡ true → Tried X P r p)
    → (b ≡ false → Tried X P r q)
    → Tried X P r (if b then p else q)
Tried-if true p q h k = h refl
Tried-if false p q h k = k refl

module _ {A B X : Type 0} {P : A → Type 0} {Q : B → Type 0} (k : A → Exec Connection B) where
  Tried-then :
      (r : Role) (p : Result A × Connection)
      → Tried X P r p
      → ((a : A) (c : Connection) → c ≡ p.1 → P a → Fits c → Tried X Q c.our_role (k a c))
      → Tried X Q r (continue p.0 k p.1)
  Tried-then r p (fine {a} {c} i f o) h = subst (λ x. Tried X Q x (k a c)) o (h a c refl i f)
  Tried-then r p (failed i f o) h = failed i f o

  Ends-Tried :
      (r : Role) (p : Result A × Connection)
      → Ends (FitsAs r) P p
      → ((a : A) (c : Connection) → P a → Fits c → Tried X Q c.our_role (k a c))
      → Tried X Q r (continue p.0 k p.1)
  Ends-Tried r (ok a, c) h l =
      subst (λ x. Tried X Q x (k a c)) h.keeps.1 (l a c (Gives-value h.gives) h.keeps.0)
  Ends-Tried r (err e, c) h l =
      failed (inl (IsLocal-IsProtocolError e (Gives-raised h.gives))) (Fits-FitsBut _ h.keeps.0)
        h.keeps.1

Ending-Tried :
    {X : Type 0} (x : Result Received) (c : Connection)
    → Ending x
    → Fits c
    → Tried X IsReceivable c.our_role (x, c)
Ending-Tried (ok x) c h f = fine h f refl
Ending-Tried (err e) c h f = failed (inl h) (Fits-FitsBut _ f) refl

read_with-Tried :
    {X : Type 0} (reader : Option Reader) (c : Connection)
    → reader ≢ none
    → Fits c
    → Tried X IsReceivable c.our_role (read_with reader c)
read_with-Tried none c n f = absurd (n refl)
read_with-Tried (some reader) c n f =
    Ends-Tried
      (λ found.
        gets (λ c. event_or_eof (reader_after reader c.reader) found c) >>= λ event. lift event)
      c.our_role (run_reader reader c) (run_reader-Ends reader c f)
      (λ found d h g.
        Ending-Tried (event_or_eof (reader_after reader d.reader) found d) d
          (event_or_eof-Ending (reader_after reader d.reader) found d h) g)

extract-Tried :
    {X : Type 0} (c : Connection)
    → Fits c
    → their_state c ≢ error
    → Tried X IsReceivable c.our_role (extract_next_receive_event c)
unfolding extract_next_receive_event
extract-Tried c f n =
    Tried-if (state_eq (their_state c) done && is_nonempty c.receive_buffer) _ _
      (λ _. fine tt f refl)
      (λ _.
        Tried-if
          (state_eq (their_state c) might_switch_protocol
            || state_eq (their_state c) switched_protocol)
          _ _ (λ _. fine tt f refl)
          (λ e.
            let (might, switched) = or_false _ _ e in
            read_with-Tried c.reader c (f.reader (n, eq_false _ _ might, eq_false _ _ switched)) f))

process_received-Tried :
    (x : Received) (c : Connection)
    → IsReceivable x
    → Fits c
    → Tried (OutOfTurn (their_role c) c.cstate) Anything c.our_role (process_received x c)
process_received-Tried need_data c h f = fine tt f refl
process_received-Tried paused c h f = fine tt f refl
process_received-Tried (received event) c h f =
    tried _ (process_event_of-Processed (their_role c) event c f h)
  where
    tried :
        (p : Result (Unit {0}) × Connection)
        → Processed (their_role c) c p
        → Tried (OutOfTurn (their_role c) c.cstate) Anything c.our_role p
    tried p (processed g o) = fine tt g o
    tried p (refused {e} {c'} w g o) =
        failed (refusal IsProtocolError _ _ e tt w)
          (subst (λ r. FitsBut (other_role r) c') (sym o) g) o

check_buffer-Tried :
    {X : Type 0} (x : Received) (c : Connection)
    → Fits c
    → Tried X Anything c.our_role (check_buffer x c)
check_buffer-Tried (received event) c f = fine tt f refl
check_buffer-Tried paused c f = fine tt f refl
check_buffer-Tried need_data c f =
    Tried-if (ltb c.max_incomplete_event_size (length c.receive_buffer.bytes)) _ _
      (λ _. failed (inl tt) (Fits-FitsBut _ f) refl)
      (λ _.
        Tried-if c.receive_buffer_closed _ _ (λ _. failed (inl tt) (Fits-FitsBut _ f) refl)
          (λ _. fine tt f refl))

-- Taking bytes changes neither the machine nor the role.
abbrev IsAsBefore : {A : Type 0} → Connection → Result A × Connection → Type 0
IsAsBefore c p = (p.1.cstate ≡ c.cstate) × (p.1.our_role ≡ c.our_role)

IsAsBefore-if :
    {A : Type 0} (c : Connection) (b : Bool) (p q : Result A × Connection)
    → IsAsBefore c p
    → IsAsBefore c q
    → IsAsBefore c (if b then p else q)
IsAsBefore-if c true p q h k = h
IsAsBefore-if c false p q h k = k

read_with-IsAsBefore : (reader : Option Reader) (c : Connection) → IsAsBefore c (read_with reader c)
read_with-IsAsBefore none c = (refl, refl)
read_with-IsAsBefore (some reader) c = by_result (call_reader reader c.receive_buffer).0
  where
    by_result :
        (x : Result (Option Event))
        → IsAsBefore c (
            continue x
              (λ found. gets (λ c. event_or_eof (reader_after reader c.reader) found c) >>= λ event.
                lift event)
              (run_reader reader c).1)
    by_result (ok found) = (refl, refl)
    by_result (err e) = (refl, refl)

extract-IsAsBefore : (c : Connection) → IsAsBefore c (extract_next_receive_event c)
unfolding extract_next_receive_event
extract-IsAsBefore c =
    IsAsBefore-if c (state_eq (their_state c) done && is_nonempty c.receive_buffer) _ _ (refl, refl)
      (IsAsBefore-if c
        (state_eq (their_state c) might_switch_protocol
          || state_eq (their_state c) switched_protocol)
        _ _ (refl, refl) (read_with-IsAsBefore c.reader c))

pub try_next_event-Tried :
    (c : Connection)
    → Fits c
    → their_state c ≢ error
    → Tried (OutOfTurn (their_role c) c.cstate) Anything c.our_role (try_next_event c)
unfolding try_next_event
try_next_event-Tried c f n =
    Tried-then (λ event. process_received event >>= λ _. check_buffer event >>= λ _. pure event)
      c.our_role (extract_next_receive_event c) (extract-Tried c f n)
      (λ event d e h g.
        Tried-then (λ _. check_buffer event >>= λ _. pure event) d.our_role
          (process_received event d) (same_turn event d e h g)
          (λ _ d _ _ g.
            Tried-then (λ _. pure event) d.our_role (check_buffer event d)
              (check_buffer-Tried event d g) (λ _ d _ _ g. fine tt g refl)))
  where
    same_turn :
        (event : Received) (d : Connection)
        → d ≡ (extract_next_receive_event c).1
        → IsReceivable event
        → Fits d
        → Tried (OutOfTurn (their_role c) c.cstate) Anything d.our_role (process_received event d)
    same_turn event d e h g =
        let (machine, role) = extract-IsAsBefore c in
        subst (λ X. Tried X Anything d.our_role (process_received event d))
          (ap (λ x. OutOfTurn (their_role x) x.cstate) e
            ∙ ap (λ r. OutOfTurn (other_role r) (extract_next_receive_event c).1.cstate) role
            ∙ ap (λ m. OutOfTurn (their_role c) m) machine)
          (process_received-Tried event d h g)
