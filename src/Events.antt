-- ===== src/Events.antt =====
-- The events and their constructors (h11/_events.py).
use h.Prelude.{ℕ, suc, Bool, ◌==◌, ltb, leb, ◌&&◌, if◌then◌else◌, List, [], ◌∷◌}
use h.Prelude.Bytes.{Bytes, bytes_eq, codes}
use h.Prelude.Exec.{Result, ok, err, local_protocol_error}
use h.Abnf.{validate, when, match_token, match_request_target}
use h.Headers.Defs.{Headers, normalize_and_validate}
use h.Prelude.Fallible.{◌>>=◌, ◌>>◌}
use h.State.Table.{EventType}

pub record Request : Type 0 where
  pub method : Bytes
  pub headers : Headers
  pub target : Bytes
  pub http_version : Bytes

-- `InformationalResponse` and `Response` have the same fields.
pub record Response : Type 0 where
  pub headers : Headers
  pub http_version : Bytes
  pub reason : Bytes
  pub status_code : ℕ

pub record Data : Type 0 where
  pub chunk : Bytes
  pub chunk_start : Bool
  pub chunk_end : Bool

pub data Event : Type 0 where
  request : Request → Event
  informational_response : Response → Event
  response : Response → Event
  data_event : Data → Event
  end_of_message : Headers → Event
  connection_closed : Event

-- `type(event)`
abbrev pub type_of : Event → EventType
type_of (request r) = EventType.request
type_of (informational_response r) = EventType.informational_response
type_of (response r) = EventType.response
type_of (data_event d) = EventType.data_event
type_of (end_of_message hs) = EventType.end_of_message
type_of connection_closed = EventType.connection_closed

-- The argument `headers`: a list that is still to be checked, or `Headers`.
pub data HeadersArgument : Type 0 where
  pairs : List (Bytes × Bytes) → HeadersArgument
  headers : Headers → HeadersArgument

abbrev pub headers_of : Bool → HeadersArgument → Result Headers
headers_of parsed (pairs l) = normalize_and_validate parsed l
headers_of parsed (headers hs) = ok hs

-- How many headers have a name.
unfoldable pub count_headers : Bytes → Headers → ℕ
count_headers name [] = 0
count_headers name (item ∷ items) =
    let n = count_headers name items in if bytes_eq item.name name then suc n else n

-- The rules on `Host`.
abbrev pub check_host : Bytes → ℕ → Result (Unit {0})
check_host http_version host_count =
    if bytes_eq http_version (codes "1.1") && host_count == 0
    then err (local_protocol_error 400)
    else if ltb 1 host_count
    then err (local_protocol_error 400)
    else ok tt

unfoldable pub new_request : Bytes → HeadersArgument → Bytes → Bytes → Bool → Result Request
unfolding count_headers validate match_token match_request_target normalize_and_validate
new_request method hs target http_version parsed = do
  items ← headers_of parsed hs
  check_host http_version (count_headers (codes "host") items)
  validate (when (match_token method))
  validate (when (match_request_target target))
  ok (record { method = method; headers = items; target = target; http_version = http_version })

-- `_ResponseBase.__init__`, up to `__post_init__`.
abbrev pub new_response_base : HeadersArgument → ℕ → Bytes → Bytes → Bool → Result Response
new_response_base hs status_code http_version reason parsed = do
  items ← headers_of parsed hs
  ok (record {
    headers = items;
    http_version = http_version;
    reason = reason;
    status_code = status_code;
  })

unfoldable pub new_informational_response :
    HeadersArgument → ℕ → Bytes → Bytes → Bool → Result Event
new_informational_response hs status_code http_version reason parsed = do
  r ← new_response_base hs status_code http_version reason parsed
  if leb 100 r.status_code && ltb r.status_code 200
      then ok (informational_response r)
      else err (local_protocol_error 400)

unfoldable pub new_response : HeadersArgument → ℕ → Bytes → Bytes → Bool → Result Event
new_response hs status_code http_version reason parsed = do
  r ← new_response_base hs status_code http_version reason parsed
  if leb 200 r.status_code && ltb r.status_code 1000
      then ok (response r)
      else err (local_protocol_error 400)

-- `EndOfMessage(headers=...)`; without headers it is `end_of_message []`.
unfoldable pub new_end_of_message : HeadersArgument → Bool → Result Event
new_end_of_message hs parsed = do items ← headers_of parsed hs; ok (end_of_message items)
