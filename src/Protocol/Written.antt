-- ===== src/Protocol/Written.antt =====
-- What a writer (h11/_writers.py) does with an event that the state machine has accepted.
use h.Prelude.{
  ◌≡◌, refl, subst, ◌⊎◌, inl, inr, Bool, true, false, not, if◌then◌else◌, Option, some, List, [],
  ◌∷◌,
}
use h.Prelude.Lists.{length}
use h.Prelude.Int.{ℤ, sub_nat, is_negative, is_zero}
use h.Prelude.Bytes.{Bytes, bytes_eq, codes}
use h.Prelude.Exec.{local_protocol_error, Result, ok, err}
use h.Events.{
  Event, Request, Response, request, informational_response, response, data_event, end_of_message,
  connection_closed, type_of,
}
use h.Headers.Defs.{Headers}
use h.State.Table.{Role, client, server, State, idle, send_response, send_body}
use h.Writers.Defs.{
  Writer, request_writer, any_response_writer, chunked_writer, http10_writer, content_length_writer,
  has_headers, write_request, write_any_response, content_length_send_data, content_length_send_eom,
  http10_send_eom, write_response_event, write_content_length, write_chunked, write_http10,
  call_writer,
}
use h.Protocol.Defs.{IsLocal}
use h.Protocol.Fits.{WriterFits, IsBodyWriter}
use h.Protocol.Writable.{Writable}

abbrev pub IsFine : {A : Type 0} → Result A → Type 0
IsFine (ok a) = Unit {0}
IsFine (err e) = IsLocal e

IsFine-if :
    {A : Type 0} (b : Bool) (x y : Result A) → IsFine x → IsFine y → IsFine (if b then x else y)
IsFine-if true x y h k = h
IsFine-if false x y h k = k

-- A writer that says something or refuses, and goes on fitting.
pub record Wrote (r : Role) (s : State) (p : Result (List Bytes) × Writer) : Type 0 where
  pub fine : IsFine p.0
  pub fits : WriterFits r s (some p.1)

request-IsFine : (q : Request) → IsFine (write_request q)
unfolding write_request
request-IsFine q = IsFine-if (not (bytes_eq q.http_version (codes "1.1"))) _ _ tt tt

any_response-IsFine : (q : Response) → IsFine (write_any_response q)
unfolding write_any_response
any_response-IsFine q = IsFine-if (not (bytes_eq q.http_version (codes "1.1"))) _ _ tt tt

send_data-IsFine : (left : ℤ) (chunk : Bytes) → IsFine (content_length_send_data left chunk).0
unfolding content_length_send_data
send_data-IsFine left chunk = by_sign (is_negative (sub_nat left (length chunk)))
  where
    by_sign :
        (b : Bool)
        → IsFine
            (if◌then◌else◌ {A = Result (List Bytes) × ℤ} b
              (err (local_protocol_error 400), sub_nat left (length chunk))
              (ok (chunk ∷ []), sub_nat left (length chunk))).0
    by_sign true = tt
    by_sign false = tt

send_eom-IsFine : (left : ℤ) (hs : Headers) → IsFine (content_length_send_eom left hs)
unfolding content_length_send_eom
send_eom-IsFine left hs =
    IsFine-if (not (is_zero left)) _ _ tt (IsFine-if (has_headers hs) _ _ tt tt)

http10_eom-IsFine : (hs : Headers) → IsFine (http10_send_eom hs)
unfolding http10_send_eom
http10_eom-IsFine hs = IsFine-if (has_headers hs) _ _ tt tt

-- The events of a body.
abbrev IsPart : Event → Type 0
IsPart (data_event d) = Unit {0}
IsPart (end_of_message hs) = Unit {0}
IsPart _ = ⊥

body_fits :
    (r : Role) (s : State) (w : Writer) → s ≡ send_body → IsBodyWriter w → WriterFits r s (some w)
body_fits client s w e i = rw e (w, refl, i)
body_fits server s w e i = rw e (w, refl, i)

body-Wrote :
    (r : Role) (s : State) (w : Writer) (event : Event)
    → s ≡ send_body
    → IsBodyWriter w
    → IsPart event
    → Wrote r s (call_writer w event)
unfolding call_writer write_chunked write_http10 write_content_length
body-Wrote r s chunked_writer (data_event d) e i h = record {
  fine = tt;
  fits = body_fits r s _ e tt;
}
body-Wrote r s chunked_writer (end_of_message hs) e i h = record {
  fine = tt;
  fits = body_fits r s _ e tt;
}
body-Wrote r s http10_writer (data_event d) e i h = record {
  fine = tt;
  fits = body_fits r s _ e tt;
}
body-Wrote r s http10_writer (end_of_message hs) e i h = record {
  fine = http10_eom-IsFine hs;
  fits = body_fits r s _ e tt;
}
body-Wrote r s (content_length_writer n) (data_event d) e i h = record {
  fine = send_data-IsFine n d.chunk;
  fits = body_fits r s _ e tt;
}
body-Wrote r s (content_length_writer n) (end_of_message hs) e i h = record {
  fine = send_eom-IsFine n hs;
  fits = body_fits r s _ e tt;
}
body-Wrote r s request_writer event e i h = absurd i
body-Wrote r s any_response_writer event e i h = absurd i
body-Wrote r s w (request q) e i h = absurd h
body-Wrote r s w (informational_response q) e i h = absurd h
body-Wrote r s w (response q) e i h = absurd h
body-Wrote r s w connection_closed e i h = absurd h

part_of :
    (r : Role) (s : State) (w : Option Writer) (event : Event)
    → s ≡ send_body
    → IsPart event
    → WriterFits r s w
    → (v : Writer) × (w ≡ some v) × Wrote r s (call_writer v event)
part_of r s w event e h f = by_role r (subst (λ x. WriterFits r x w) e f)
  where
    by_role :
        (r : Role)
        → WriterFits r send_body w
        → (v : Writer) × (w ≡ some v) × Wrote r s (call_writer v event)
    by_role client (v, k, i) = (v, k, body-Wrote client s v event e i h)
    by_role server (v, k, i) = (v, k, body-Wrote server s v event e i h)

-- The writer in place is one for the event.
abbrev pub Calls : Role → State → Option Writer → Event → Type 0
Calls r s w connection_closed = Unit {0}
Calls r s w event = (v : Writer) × (w ≡ some v) × Wrote r s (call_writer v event)

answered :
    (s : State) (w : Option Writer) (event : Event)
    → (s ≡ idle) ⊎ (s ≡ send_response)
    → WriterFits server s w
    → IsFine (write_response_event event)
    → (v : Writer) × (w ≡ some v) × Wrote server s (call_writer v event)
unfolding call_writer
answered s w event (inl e) f h = (
  any_response_writer,
  subst (λ x. WriterFits server x w) e f,
  record { fine = h; fits = rw e refl },
)
answered s w event (inr e) f h = (
  any_response_writer,
  subst (λ x. WriterFits server x w) e f,
  record { fine = h; fits = rw e refl },
)

pub call-Calls :
    (r : Role) (s : State) (w : Option Writer) (event : Event)
    → WriterFits r s w
    → Writable r s (type_of event)
    → Calls r s w event
unfolding call_writer
call-Calls client s w (request q) f e = (
  request_writer,
  subst (λ x. WriterFits client x w) e f,
  record { fine = request-IsFine q; fits = rw e refl },
)
call-Calls server s w (request q) f e = absurd e
call-Calls client s w (informational_response q) f e = absurd e
call-Calls server s w (informational_response q) f e =
    answered s w (informational_response q) (inr e) f (any_response-IsFine q)
call-Calls client s w (response q) f e = absurd e
call-Calls server s w (response q) f e = answered s w (response q) e f (any_response-IsFine q)
call-Calls client s w (data_event d) f e = part_of client s w (data_event d) e tt f
call-Calls server s w (data_event d) f e = part_of server s w (data_event d) e tt f
call-Calls client s w (end_of_message hs) f e = part_of client s w (end_of_message hs) e tt f
call-Calls server s w (end_of_message hs) f e = part_of server s w (end_of_message hs) e tt f
call-Calls client s w connection_closed f e = tt
call-Calls server s w connection_closed f e = tt
