-- ===== src/Writers/Defs.antt =====
-- The writers of h11/_writers.py. A call gives the list of what was handed to `write`, or an
-- error, with the writer after it.
use h.Prelude.{Bool, true, false, not, if◌then◌else◌, Option, none, some, List, [], ◌∷◌, ◌++◌}
use h.Prelude.Lists.{length}
use h.Prelude.Int.{ℤ, pos, sub_nat, is_negative, is_zero}
use h.Prelude.Bytes.{Bytes, bytes_eq, codes, to_decimal, to_hexadecimal}
use h.Prelude.Exec.{Result, ok, err, local_protocol_error, assertion_error, attribute_error}
use h.Events.{
  Event, Request, Response, request, informational_response, response, data_event, end_of_message,
}
use h.Headers.Defs.{Headers, Item}
use h.Readers.Defs.{Framing, content_length, chunked, http10}
use h.State.Table.{Role, client, server, State, idle, send_response}

abbrev pub crlf : Bytes
crlf = 13 ∷ 10 ∷ []

-- `b"%s: %s\r\n" % (raw_name, value)`
abbrev pub header_line : Item → Bytes
header_line item = item.raw_name ++ codes ": " ++ item.value ++ crlf

-- One of the two loops: over the headers named `host`, and over the others.
unfoldable pub header_lines : Bool → Headers → List Bytes
header_lines is_host [] = []
header_lines is_host (item ∷ items) =
    let rest = header_lines is_host items in
    let matches = bytes_eq item.name (codes "host") in
    if (if is_host then matches else not matches) then header_line item ∷ rest else rest

unfoldable pub write_headers : Headers → List Bytes
unfolding header_lines
write_headers headers = header_lines true headers ++ header_lines false headers ++ crlf ∷ []

unfoldable pub write_request : Request → Result (List Bytes)
unfolding write_headers
write_request r =
    if not (bytes_eq r.http_version (codes "1.1"))
    then err (local_protocol_error 400)
    else ok
        ((r.method ++ codes " " ++ r.target ++ codes " HTTP/1.1" ++ crlf) ∷ write_headers r.headers)

unfoldable pub write_any_response : Response → Result (List Bytes)
unfolding write_headers to_decimal
write_any_response r =
    if not (bytes_eq r.http_version (codes "1.1"))
    then err (local_protocol_error 400)
    else ok (
        (codes "HTTP/1.1 " ++ to_decimal r.status_code ++ codes " " ++ r.reason ++ crlf)
        ∷ write_headers r.headers)

abbrev pub has_headers : Headers → Bool
has_headers [] = false
has_headers (item ∷ items) = true

-- `ContentLengthWriter`: the field is what `_length` holds.
unfoldable pub content_length_send_data : ℤ → Bytes → Result (List Bytes) × ℤ
content_length_send_data left chunk =
    let left' = sub_nat left (length chunk) in
    if is_negative left' then (err (local_protocol_error 400), left') else (ok (chunk ∷ []), left')

unfoldable pub content_length_send_eom : ℤ → Headers → Result (List Bytes)
content_length_send_eom left headers =
    if not (is_zero left)
    then err (local_protocol_error 400)
    else if has_headers headers
    then err (local_protocol_error 400)
    else ok []

-- `ChunkedWriter`
unfoldable pub chunked_send_data : Bytes → List Bytes
chunked_send_data [] = []
chunked_send_data (x ∷ chunk) =
    (to_hexadecimal (length (x ∷ chunk)) ++ crlf) ∷ (x ∷ chunk) ∷ crlf ∷ []

unfoldable pub chunked_send_eom : Headers → List Bytes
unfolding write_headers
chunked_send_eom headers = (codes "0" ++ crlf) ∷ write_headers headers

-- `Http10Writer.send_eom`
unfoldable pub http10_send_eom : Headers → Result (List Bytes)
http10_send_eom headers = if has_headers headers then err (local_protocol_error 400) else ok []

-- The writers that `WRITERS` holds or makes.
pub data Writer : Type 0 where
  request_writer any_response_writer chunked_writer http10_writer : Writer
  content_length_writer : ℤ → Writer

-- `BodyWriter.__call__` of the three body writers.
unfoldable pub write_content_length : ℤ → Event → Result (List Bytes) × ℤ
unfolding content_length_send_data content_length_send_eom
write_content_length left (data_event d) = content_length_send_data left d.chunk
write_content_length left (end_of_message headers) = (content_length_send_eom left headers, left)
write_content_length left _ = (err assertion_error, left)

unfoldable pub write_chunked : Event → Result (List Bytes)
unfolding chunked_send_data chunked_send_eom
write_chunked (data_event d) = ok (chunked_send_data d.chunk)
write_chunked (end_of_message headers) = ok (chunked_send_eom headers)
write_chunked _ = err assertion_error

unfoldable pub write_http10 : Event → Result (List Bytes)
unfolding http10_send_eom
write_http10 (data_event d) = ok (d.chunk ∷ [])
write_http10 (end_of_message headers) = http10_send_eom headers
write_http10 _ = err assertion_error

-- The two writers of messages, on events without the attributes that they read.
abbrev pub write_request_event : Event → Result (List Bytes)
write_request_event (request r) = write_request r
write_request_event _ = err attribute_error

abbrev pub write_response_event : Event → Result (List Bytes)
write_response_event (informational_response r) = write_any_response r
write_response_event (response r) = write_any_response r
write_response_event _ = err attribute_error

-- `writer(event, data_list.append)`
unfoldable pub call_writer : Writer → Event → Result (List Bytes) × Writer
unfolding write_request write_any_response write_content_length write_chunked write_http10
    to_hexadecimal
call_writer request_writer e = (write_request_event e, request_writer)
call_writer any_response_writer e = (write_response_event e, any_response_writer)
call_writer chunked_writer e = (write_chunked e, chunked_writer)
call_writer http10_writer e = (write_http10 e, http10_writer)
call_writer (content_length_writer left) e =
    let (r, left') = write_content_length left e in (r, content_length_writer left')

-- `WRITERS[SEND_BODY]`
unfoldable pub body_writer : Framing → Writer
body_writer (content_length n) = content_length_writer (pos n)
body_writer chunked = chunked_writer
body_writer http10 = http10_writer

-- `WRITERS.get((role, state))`
unfoldable pub writers : Role → State → Option Writer
writers client idle = some request_writer
writers server idle = some any_response_writer
writers server send_response = some any_response_writer
writers _ _ = none

-- `b"".join(data_list)`
unfoldable pub join : List Bytes → Bytes
join [] = []
join (chunk ∷ chunks) = chunk ++ join chunks
