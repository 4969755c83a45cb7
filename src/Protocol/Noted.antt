-- ===== src/Protocol/Noted.antt =====
-- The fields that an event is noted in (`_process_event` of h11/_connection.py).
use h.Prelude.{◌≡◌, refl, Bool, true, false, if◌then◌else◌, Option, some}
use h.Prelude.Bytes.{Bytes}
use h.Events.{
  Event, request, informational_response, response, data_event, end_of_message, connection_closed,
}
use h.State.Table.{Role}
use h.Connection.Defs.{
  Connection, their_role, same_role, note_method, note_version, handle_keep_alive, waiting_after,
  note_event,
}

pub record Noted (r : Role) (event : Event) (c : Connection) : Type 0 where
  pub method : Option Bytes
  pub version : Option Bytes
  pub result : note_event r event c ≡ record c {
    cstate = handle_keep_alive event c.cstate;
    request_method = method;
    their_http_version = version;
    client_is_waiting_for_100_continue = waiting_after r event c.client_is_waiting_for_100_continue;
  }

-- The version, whether or not it is noted.
record Version (c d : Connection) : Type 0 where
  version : Option Bytes
  is : d ≡ record c { their_http_version = version }

Version-if :
    (b : Bool) (c : Connection) (v : Bytes)
    → Version c (if b then record c { their_http_version = some v } else c)
Version-if true c v = record { version = some v; is = refl }
Version-if false c v = record { version = c.their_http_version; is = refl }

note_version-Version :
    (r : Role) (event : Event) (c : Connection) → Version c (note_version r event c)
note_version-Version r (request q) c = Version-if (same_role r (their_role c)) c q.http_version
note_version-Version r (informational_response q) c =
    Version-if (same_role r (their_role c)) c q.http_version
note_version-Version r (response q) c = Version-if (same_role r (their_role c)) c q.http_version
note_version-Version r (data_event d) c = record { version = c.their_http_version; is = refl }
note_version-Version r (end_of_message hs) c = record { version = c.their_http_version; is = refl }
note_version-Version r connection_closed c = record { version = c.their_http_version; is = refl }

record Method (c d : Connection) : Type 0 where
  method : Option Bytes
  is : d ≡ record c { request_method = method }

note_method-Method : (event : Event) (c : Connection) → Method c (note_method event c)
note_method-Method (request q) c = record { method = some q.method; is = refl }
note_method-Method (informational_response q) c = record { method = c.request_method; is = refl }
note_method-Method (response q) c = record { method = c.request_method; is = refl }
note_method-Method (data_event d) c = record { method = c.request_method; is = refl }
note_method-Method (end_of_message hs) c = record { method = c.request_method; is = refl }
note_method-Method connection_closed c = record { method = c.request_method; is = refl }

pub noted : (r : Role) (event : Event) (c : Connection) → Noted r event c
unfolding note_event
noted r event c =
    let m = note_method-Method event c in
    let v = note_version-Version r event (note_method event c) in
    record { method = m.method; version = v.version; result = rw (v.is, m.is) refl }
