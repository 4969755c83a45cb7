-- ===== src/Connection/Waits.antt =====
-- `next_event` (h11/_connection.py) where it answers NEED_DATA.
use h.Prelude.{
  ℕ, ◌≤◌, ◌≡◌, refl, Bool, true, false, ltb, ◌&&◌, ◌||◌, if◌then◌else◌, Option, none, some, arith,
}
use h.Prelude.Lists.{length}
use h.Prelude.Exec.{
  Result, ok, err, remote_protocol_error, pure, raise, lift, gets, continue, ◌>>=◌,
}
use h.Events.{Event}
use h.Buffer.Defs.{is_nonempty}
use h.Readers.Defs.{Reader}
use h.State.Table.{done, error, might_switch_protocol, switched_protocol, state_eq}
use h.Connection.Defs.{Connection, their_state, their_role}
use h.Connection.Receive.{
  Received, received, need_data, paused, event_or_eof, run_reader, reader_after, read_with,
  extract_next_receive_event, process_received, check_buffer, try_next_event, as_remote,
  handle_receive_error, next_event,
}
use h.Connection.Errors.{raised}

-- All but the buffer and the reader is as it was, the buffer is within its limit, and more may come.
pub record Waits (c d : Connection) : Type 0 where
  pub cstate : d.cstate ≡ c.cstate
  pub bounded : length d.receive_buffer.bytes ≤ c.max_incomplete_event_size
  pub may_grow : c.receive_buffer_closed ≡ false

-- What the reader leaves alone.
record Untouched (c d : Connection) : Type 0 where
  cstate : d.cstate ≡ c.cstate
  limit : d.max_incomplete_event_size ≡ c.max_incomplete_event_size
  closed : d.receive_buffer_closed ≡ c.receive_buffer_closed

Untouched-refl : (c : Connection) → Untouched c c
Untouched-refl c = record { cstate = refl; limit = refl; closed = refl }

read-Untouched :
    (c : Connection) (p : Result (Option Event) × Connection) (reader : Reader)
    → Untouched c p.1
    → Untouched c
        (continue p.0
          (λ found.
            gets (λ c. event_or_eof (reader_after reader c.reader) found c) >>= λ event. lift event)
          p.1).1
read-Untouched c (ok found, d) reader h = h
read-Untouched c (err e, d) reader h = h

read_with-Untouched : (reader : Option Reader) (c : Connection) → Untouched c (read_with reader c).1
read_with-Untouched none c = Untouched-refl c
read_with-Untouched (some reader) c =
    read-Untouched c (run_reader reader c) reader
      (record { cstate = refl; limit = refl; closed = refl })

if-Untouched :
    {A : Type 0} (c : Connection) (b : Bool) (p q : Result A × Connection)
    → Untouched c p.1
    → Untouched c q.1
    → Untouched c (if b then p else q).1
if-Untouched c true p q h k = h
if-Untouched c false p q h k = k

extract-Untouched : (c : Connection) → Untouched c (extract_next_receive_event c).1
unfolding extract_next_receive_event
extract-Untouched c =
    if-Untouched c (state_eq (their_state c) done && is_nonempty c.receive_buffer) (ok paused, c) _
      (Untouched-refl c)
      (if-Untouched c
        (state_eq (their_state c) might_switch_protocol
          || state_eq (their_state c) switched_protocol)
        (ok paused, c) (read_with c.reader c) (Untouched-refl c) (read_with-Untouched c.reader c))

-- What holds where the answer is NEED_DATA.
abbrev IfWaits : (Connection → Type 0) → Result Received × Connection → Type 0
IfWaits P (ok need_data, d) = P d
IfWaits P _ = Unit {0}

IfWaits-elim :
    (P : Connection → Type 0) (p : Result Received × Connection)
    → IfWaits P p
    → p.0 ≡ ok need_data
    → P p.1
IfWaits-elim P (ok need_data, d) h e = h
IfWaits-elim P (ok (received event), d) h e = absurd (cc)
IfWaits-elim P (ok paused, d) h e = absurd (cc)
IfWaits-elim P (err x, d) h e = absurd (cc)

within : (n m : ℕ) → ltb m n ≡ false → n ≤ m
within n m h = ground arith

tried :
    (c : Connection) (p : Result Received × Connection)
    → Untouched c p.1
    → IfWaits (Waits c) (
        continue p.0
          (λ event. process_received event >>= λ _. check_buffer event >>= λ _. pure event)
          p.1)
tried c (err e, d) u = tt
tried c (ok (received event), d) u = processed (process_received (received event) d)
  where
    processed :
        (p : Result (Unit {0}) × Connection)
        → IfWaits
            (Waits c)
            (continue p.0 (λ _. check_buffer (received event) >>= λ _. pure (received event)) p.1)
    processed (ok v, d) = tt
    processed (err e, d) = tt
tried c (ok paused, d) u = tt
tried c (ok need_data, d) u =
    checked (ltb d.max_incomplete_event_size (length d.receive_buffer.bytes))
      d.receive_buffer_closed refl refl
  where
    checked :
        (b e : Bool)
        → ltb d.max_incomplete_event_size (length d.receive_buffer.bytes) ≡ b
        → d.receive_buffer_closed ≡ e
        → IfWaits (Waits c) (
            let p : Result (Unit {0}) × Connection =
              if b
              then raise (remote_protocol_error 431) d
              else if e
              then raise (remote_protocol_error 400) d
              else pure tt d in
            continue p.0 (λ _. pure need_data) p.1)
    checked true e h k = tt
    checked false true h k = tt
    checked false false h k = record {
      cstate = u.cstate;
      bounded = rw (u.limit) at (within _ _ h);
      may_grow = rw (u.closed) at k;
    }

handled :
    (c : Connection) (p : Result Received × Connection)
    → IfWaits (Waits c) p
    → IfWaits (Waits c) (handle_receive_error p.0 p.1)
handled c (ok event, d) h = h
handled c (err e, d) h = rw (raised Received (as_remote e) (their_role d) d) tt

-- Whatever the connection: where `next_event` answers NEED_DATA, the state machine is as it was, the
-- bytes left in the buffer are no more than `max_incomplete_event_size`, and the end of the peer's
-- data has not been received.
pub next_event-Waits : (c : Connection) → (next_event c).0 ≡ ok need_data → Waits c (next_event c).1
unfolding next_event try_next_event
next_event-Waits c e =
    IfWaits-elim (Waits c) (next_event c) (reads (state_eq (their_state c) error)) e
  where
    reads :
        (b : Bool)
        → IfWaits (Waits c) (
            if b
            then raise (remote_protocol_error 400) c
            else handle_receive_error (try_next_event c).0 (try_next_event c).1)
    reads true = tt
    reads false =
        handled c (try_next_event c) (tried c (extract_next_receive_event c) (extract-Untouched c))
