-- ===== src/Connection/Healthy.antt =====
-- What holds of a `Connection` (h11/_connection.py) between two calls of its methods.
use h.Prelude.{◌≡◌, refl, Bool, true, false, if◌then◌else◌, Option, none, some}
use h.Prelude.Bytes.{Bytes, codes, bytes_eq}
use h.Prelude.Exec.{Result, ok, err, Exec, continue, modify, ◌>>=◌}
use h.Events.{
  Event, request, informational_response, response, data_event, end_of_message, connection_closed,
  type_of,
}
use h.Headers.Defs.{get_comma_header}
use h.State.Table.{
  get_state, state_eq, Role, client, server, SwitchType, switch_upgrade, switch_connect, States,
}
use h.State.Defs.{ConnectionState, process_error, process_event}
use h.State.Invariant.{
  IsSound, process_error-IsSound, keep_alive_disabled-IsSound, client_switch_proposal-IsSound,
  process_event-IsSound,
}
use h.Readers.Defs.{Reader, readers, body_reader}
use h.Writers.Defs.{Writer, writers, body_writer}
use h.Connection.Defs.{
  get_io_object, our_state, their_state, their_role, Connection, same_role, note_method,
  note_version, update_writer, update_reader, set_writer, set_reader, respond_to_state_changes,
  process_error_of, propose, propose_if, switch_event_of, disable_unless, handle_keep_alive,
  waiting_after, note_event, process_event_of, is_nonempty_list,
}
use h.Connection.Waiting.{
  Held, process_error-Held, keep_alive_disabled-Held, switch_proposal-Held, Handled,
  process_event-Handled,
}

abbrev pub Healthy : Connection → Type 0
Healthy c = IsSound c.cstate × Held c.client_is_waiting_for_100_continue c.cstate

-- A method that keeps it, returning or raising.
abbrev pub Preserves : {A : Type 0} → Exec Connection A → Type 0
Preserves m = (c : Connection) → Healthy c → Healthy (m c).1

module _ {A B : Type 0} where
  pub then-Preserves :
      (m : Exec Connection A) (f : A → Exec Connection B)
      → Preserves m
      → ((a : A) → Preserves (f a))
      → Preserves (m >>= f)
  then-Preserves m f h k c i = continued (m c) (h c i)
    where
      continued : (p : Result A × Connection) → Healthy p.1 → Healthy (continue p.0 f p.1).1
      continued (ok a, c') i' = k a c' i'
      continued (err e, c') i' = i'

pub if-Healthy :
    {A : Type 0} (b : Bool) (p q : Result A × Connection)
    → Healthy p.1
    → Healthy q.1
    → Healthy (if b then p else q).1
if-Healthy true p q h k = h
if-Healthy false p q h k = k

set_writer-Preserves : (w : Result (Option Writer)) → Preserves (set_writer w)
set_writer-Preserves (ok w) c i = i
set_writer-Preserves (err e) c i = i

set_reader-Preserves : (r : Result (Option Reader)) → Preserves (set_reader r)
set_reader-Preserves (ok r) c i = i
set_reader-Preserves (err e) c i = i

update_writer-Preserves :
    (old : States) (event : Option Event) → Preserves (update_writer old event)
unfolding update_writer
update_writer-Preserves old event c i =
    let io = get_io_object body_writer writers c.our_role event c in
    if-Healthy (state_eq (our_state c) (get_state old c.our_role)) (ok tt, c) (set_writer io c) i
      (set_writer-Preserves io c i)

update_reader-Preserves :
    (old : States) (event : Option Event) → Preserves (update_reader old event)
unfolding update_reader
update_reader-Preserves old event c i =
    let io = get_io_object body_reader readers (their_role c) event c in
    if-Healthy (state_eq (their_state c) (get_state old (their_role c))) (ok tt, c)
      (set_reader io c) i (set_reader-Preserves io c i)

pub respond-Preserves :
    (old : States) (event : Option Event) → Preserves (respond_to_state_changes old event)
unfolding respond_to_state_changes
respond-Preserves old event =
    then-Preserves (update_writer old event) (λ _. update_reader old event)
      (update_writer-Preserves old event) (λ _. update_reader-Preserves old event)

pub process_error_of-Preserves : (r : Role) → Preserves (process_error_of r)
unfolding process_error_of
process_error_of-Preserves r c i =
    respond-Preserves c.cstate.states none (record c { cstate = process_error r c.cstate })
      (process_error-IsSound r c.cstate i.0, process_error-Held r _ c.cstate i.1)

-- The proposals, and keep-alive.
propose_if-Healthy :
    (b : Bool) (sw : SwitchType) (w : Bool) (m : ConnectionState)
    → IsSound m × Held w m
    → IsSound (propose_if b sw m) × Held w (propose_if b sw m)
propose_if-Healthy true sw w m i =
    (client_switch_proposal-IsSound sw m i.0, switch_proposal-Held sw w m i.1)
propose_if-Healthy false sw w m i = i

pub propose-Healthy :
    (r : Role) (event : Event) (w : Bool) (m : ConnectionState)
    → IsSound m × Held w m
    → IsSound (propose r event m) × Held w (propose r event m)
unfolding propose
propose-Healthy client (request q) w m i =
    propose_if-Healthy (is_nonempty_list (get_comma_header q.headers (codes "upgrade")))
      switch_upgrade w (propose_if (bytes_eq q.method (codes "CONNECT")) switch_connect m)
      (propose_if-Healthy (bytes_eq q.method (codes "CONNECT")) switch_connect w m i)
propose-Healthy client (informational_response q) w m i = i
propose-Healthy client (response q) w m i = i
propose-Healthy client (data_event d) w m i = i
propose-Healthy client (end_of_message hs) w m i = i
propose-Healthy client connection_closed w m i = i
propose-Healthy server event w m i = i

disable_unless-Healthy :
    (b w : Bool) (m : ConnectionState)
    → IsSound m × Held w m
    → IsSound (disable_unless b m) × Held w (disable_unless b m)
disable_unless-Healthy true w m i = i
disable_unless-Healthy false w m i =
    (keep_alive_disabled-IsSound m i.0, keep_alive_disabled-Held w m i.1)

pub handle_keep_alive-Healthy :
    (event : Event) (w : Bool) (m : ConnectionState)
    → IsSound m × Held w m
    → IsSound (handle_keep_alive event m) × Held w (handle_keep_alive event m)
handle_keep_alive-Healthy (request q) w m i = disable_unless-Healthy _ w m i
handle_keep_alive-Healthy (response q) w m i = disable_unless-Healthy _ w m i
handle_keep_alive-Healthy (informational_response q) w m i = i
handle_keep_alive-Healthy (data_event d) w m i = i
handle_keep_alive-Healthy (end_of_message hs) w m i = i
handle_keep_alive-Healthy connection_closed w m i = i

-- The fields that an event is noted in, beside those that count here.
record Same (c d : Connection) : Type 0 where
  cstate : d.cstate ≡ c.cstate
  waiting : d.client_is_waiting_for_100_continue ≡ c.client_is_waiting_for_100_continue

-- Two connections with these fields in common.
Same-fields :
    (c : Connection) (method version : Option Bytes)
    → Same c (record c { request_method = method; their_http_version = version })
Same-fields c method version = record { cstate = refl; waiting = refl }

note_method-Same : (event : Event) (c : Connection) → Same c (note_method event c)
note_method-Same (request q) c = Same-fields c (some q.method) c.their_http_version
note_method-Same (informational_response q) c = Same-fields c c.request_method c.their_http_version
note_method-Same (response q) c = Same-fields c c.request_method c.their_http_version
note_method-Same (data_event d) c = Same-fields c c.request_method c.their_http_version
note_method-Same (end_of_message hs) c = Same-fields c c.request_method c.their_http_version
note_method-Same connection_closed c = Same-fields c c.request_method c.their_http_version

if-Same : (b : Bool) (c d : Connection) → Same c d → Same c (if b then d else c)
if-Same true c d h = h
if-Same false c d h = Same-fields c c.request_method c.their_http_version

note_version-Same : (r : Role) (event : Event) (c : Connection) → Same c (note_version r event c)
note_version-Same r (request q) c =
    if-Same (same_role r (their_role c)) c (record c { their_http_version = some q.http_version })
      (Same-fields c c.request_method (some q.http_version))
note_version-Same r (informational_response q) c =
    if-Same (same_role r (their_role c)) c (record c { their_http_version = some q.http_version })
      (Same-fields c c.request_method (some q.http_version))
note_version-Same r (response q) c =
    if-Same (same_role r (their_role c)) c (record c { their_http_version = some q.http_version })
      (Same-fields c c.request_method (some q.http_version))
note_version-Same r (data_event d) c = Same-fields c c.request_method c.their_http_version
note_version-Same r (end_of_message hs) c = Same-fields c c.request_method c.their_http_version
note_version-Same r connection_closed c = Same-fields c c.request_method c.their_http_version

note_event-Healthy :
    (r : Role) (event : Event) (c : Connection)
    → IsSound c.cstate
    → Held (waiting_after r event c.client_is_waiting_for_100_continue) c.cstate
    → Healthy (note_event r event c)
unfolding note_event
note_event-Healthy r event c i h =
    let k = note_method-Same event c in
    let l = note_version-Same r event (note_method event c) in
    rw (l.cstate, l.waiting, k.cstate, k.waiting)
      (handle_keep_alive-Healthy event (waiting_after r event c.client_is_waiting_for_100_continue)
        c.cstate (i, h))

after_event :
    (old : States) (r : Role) (event : Event) (c : Connection)
    (p : Result (Unit {0}) × ConnectionState)
    → IsSound p.1
    → Handled (waiting_after r event) c.client_is_waiting_for_100_continue p
    → Healthy
        (continue p.0
          (λ _. modify (note_event r event) >>= λ _. respond_to_state_changes old (some event))
          (record c { cstate = p.1 })).1
after_event old r event c (ok u, m) i h =
    respond-Preserves old (some event) (note_event r event (record c { cstate = m }))
      (note_event-Healthy r event (record c { cstate = m }) i h)
after_event old r event c (err e, m) i h = (i, h)

pub process_event_of-Preserves : (r : Role) (event : Event) → Preserves (process_event_of r event)
unfolding process_event_of
process_event_of-Preserves r event c i =
    let w = c.client_is_waiting_for_100_continue in
    let m = propose r event c.cstate in
    let proposed = propose-Healthy r event w c.cstate i in
    let sw = switch_event_of r event m in
    after_event c.cstate.states r event (record c { cstate = m })
      (process_event r (type_of event) sw m)
      (process_event-IsSound r (type_of event) sw m proposed.0)
      (process_event-Handled r event sw w m proposed.1)
