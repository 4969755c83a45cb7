-- ===== src/Readers/Lines.antt =====
-- From the lines of a header block to a request or a response (h11/_readers.py).
use h.Prelude.{true, ltb, if◌then◌else◌, Option, none, some, List, [], ◌∷◌, ◌++◌}
use h.Prelude.Bytes.{Bytes, decimal, strip_left}
use h.Prelude.Exec.{Result, ok, err, local_protocol_error}
use h.Prelude.Fallible.{◌>>=◌}
use h.Abnf.{validate, is_blank, match_header_field, match_request_line, match_status_line}
use h.Events.{Event, request, pairs, new_request, new_informational_response, new_response}

-- `_obsolete_line_fold`: a line that begins with a blank goes on from the last one.
unfoldable pub fold_lines : Option Bytes → List Bytes → Result (List Bytes)
fold_lines none [] = ok []
fold_lines (some last) [] = ok (last ∷ [])
fold_lines none ([] ∷ lines) = fold_lines (some []) lines
fold_lines (some last) ([] ∷ lines) = do rest ← fold_lines (some []) lines; ok (last ∷ rest)
fold_lines none ((c ∷ line) ∷ lines) =
    let rest = fold_lines (some (c ∷ line)) lines in
    if is_blank c then err (local_protocol_error 400) else rest
fold_lines (some last) ((c ∷ line) ∷ lines) =
    let continued = fold_lines (some (last ++ 32 ∷ strip_left is_blank (c ∷ line))) lines in
    let rest = fold_lines (some (c ∷ line)) lines >>= λ r. ok (last ∷ r) in
    if is_blank c then continued else rest

unfoldable pub obsolete_line_fold : List Bytes → Result (List Bytes)
unfolding fold_lines
obsolete_line_fold lines = fold_lines none lines

abbrev pub decode_fields : List Bytes → Result (List (Bytes × Bytes))
decode_fields [] = ok []
decode_fields (line ∷ lines) = do
  matches ← validate (match_header_field line)
  rest ← decode_fields lines
  ok ((matches.field_name, matches.field_value) ∷ rest)

unfoldable pub decode_header_lines : List Bytes → Result (List (Bytes × Bytes))
unfolding obsolete_line_fold
decode_header_lines lines = obsolete_line_fold lines >>= decode_fields

-- The request of a block of lines.
unfoldable pub request_of_lines : List Bytes → Result Event
unfolding decode_header_lines
request_of_lines [] = err (local_protocol_error 400)
request_of_lines (first ∷ lines) = do
  matches ← validate (match_request_line first)
  hs ← decode_header_lines lines
  r ← new_request matches.method (pairs hs) matches.target matches.http_version true
  ok (request r)

-- `b"" if matches["reason"] is None else matches["reason"]`
abbrev pub reason_of : Option Bytes → Bytes
reason_of none = []
reason_of (some reason) = reason

unfoldable pub response_of_lines : List Bytes → Result Event
unfolding decode_header_lines
response_of_lines [] = err (local_protocol_error 400)
response_of_lines (first ∷ lines) = do
  matches ← validate (match_status_line first)
  let status_code = decimal 0 matches.status_code
  hs ← decode_header_lines lines
  if ltb status_code 200
      then new_informational_response (pairs hs) status_code matches.http_version
          (reason_of matches.reason) true
      else new_response (pairs hs) status_code matches.http_version (reason_of matches.reason) true
