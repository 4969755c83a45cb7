-- ===== src/Connection/Framing.antt =====
-- `_keep_alive` and `_body_framing` of h11/_connection.py.
use h.Prelude.{
  ℕ, Bool, true, false, ◌==◌, ltb, leb, ◌&&◌, ◌||◌, if◌then◌else◌, Option, none, some, List, [],
  ◌∷◌,
}
use h.Prelude.Bytes.{Bytes, bytes_eq, bytes_lt, codes, decimal}
use h.Prelude.Exec.{Result, ok, err, assertion_error}
use h.Events.{Event, Response, request, response}
use h.Headers.Defs.{Headers, get_comma_header, is_in}
use h.Readers.Defs.{Framing, content_length, chunked, http10}

-- The version and the headers of a Request or a Response.
unfoldable pub keep_alive : Bytes → Headers → Bool
unfolding get_comma_header bytes_lt
keep_alive http_version headers =
    if is_in (codes "close") (get_comma_header headers (codes "connection"))
    then false
    else if bytes_lt http_version (codes "1.1")
    then false
    else true

-- `request_method == b"..."`, where it may be None.
abbrev pub is_method : Option Bytes → Bytes → Bool
is_method none name = false
is_method (some m) name = bytes_eq m name

-- Step 3, and step 4 with its default.
abbrev pub framing_by_length : Framing → List Bytes → Framing
framing_by_length default [] = default
framing_by_length default (value ∷ values) = content_length (decimal 0 value)

-- Step 2, with what follows it.
abbrev pub framing_by_headers : Framing → List Bytes → List Bytes → Result Framing
framing_by_headers default [] content_lengths = ok (framing_by_length default content_lengths)
framing_by_headers default (value ∷ []) content_lengths =
    if bytes_eq value (codes "chunked") then ok chunked else err assertion_error
framing_by_headers default (value ∷ _ ∷ _) content_lengths = err assertion_error

-- Steps 2 to 4.
unfoldable pub headers_framing : Framing → Headers → Result Framing
unfolding get_comma_header
headers_framing default headers =
    framing_by_headers default (get_comma_header headers (codes "transfer-encoding"))
      (get_comma_header headers (codes "content-length"))

-- Step 1: the responses that have no body, whatever their headers say.
unfoldable pub has_no_body : Option Bytes → ℕ → Bool
has_no_body request_method status_code =
    status_code == 204
    || status_code == 304
    || is_method request_method (codes "HEAD")
    || is_method request_method (codes "CONNECT") && leb 200 status_code && ltb status_code 300

unfoldable pub response_framing : Option Bytes → Response → Result Framing
unfolding headers_framing has_no_body
response_framing request_method r =
    if has_no_body request_method r.status_code
    then ok (content_length 0)
    else if leb 200 r.status_code
    then headers_framing http10 r.headers
    else err assertion_error

-- `none` is an event that is not given.
unfoldable pub body_framing : Option Bytes → Option Event → Result Framing
unfolding headers_framing response_framing
body_framing request_method (some (request r)) = headers_framing (content_length 0) r.headers
body_framing request_method (some (response r)) = response_framing request_method r
body_framing request_method _ = err assertion_error
