-- ===== src/Examples/Wire.antt =====
-- The theorems on what is written and read (h11/_receivebuffer.py, h11/_headers.py, h11/_readers.py,
-- h11/_writers.py) at concrete bytes.
use h.Prelude.{◌≡◌, refl, true, Option, some, List, [], ◌∷◌, ◌++◌, arith}
use h.Prelude.Int.{pos}
use h.Prelude.Bytes.{Bytes, codes, split, strip, lower, all_bytes}
use h.Prelude.Exec.{ok, err, local_protocol_error}
use h.Abnf.{validate}
use h.Buffer.Defs.{ReceiveBuffer, new, maybe_extract_lines}
use h.Buffer.Cache.{fresh-IsCached}
use h.Buffer.Plain.{view}
use h.Buffer.Refines.{
  Call, receive, read_at_most, read_line, read_lines, perform, perform_plain, run_calls,
  cache_is_transparent,
}
use h.Buffer.Lines.{lines_never_raise}
use h.Buffer.RoundTrip.{render, lines-render}
use h.Headers.Defs.{
  Headers, nonempty, normalize_and_validate, normalize_from, normalize_header, parse_content_length,
}
use h.Writers.Defs.{join}
use h.Readers.Defs.{new_chunked_reader, new_content_length_reader}
use h.Events.{Response, response, pairs, new_response}
use h.Connection.ResponseFramed.{ResponseFramed, made-ResponseFramed}
use h.Connection.Framing.{body_framing}
use h.Connection.Framed.{Framed}
use h.Body.Chunked.{reads, body_events, wire, chunked_round_trip}
use h.Body.Length.{send_body, send_body_other}
use h.Body.Fragments.{read_body, read_message, content_length_fragments, content_length_round_trip}
use h.Events.{end_of_message}

-- Two calls that fail and one that answers.
abbrev calls : List Call
calls =
    receive (codes "a\r")
    ∷ read_line
    ∷ receive (codes "\nb\r\n")
    ∷ read_lines
    ∷ read_line
    ∷ read_at_most 2
    ∷ []

cache_is_transparent_example :
    ((run_calls perform calls new).0 ≡ (run_calls perform_plain calls []).0)
    × ((run_calls perform calls new).1.bytes ≡ (run_calls perform_plain calls []).1)
cache_is_transparent_example = cache_is_transparent calls

abbrev holds : Bytes → ReceiveBuffer
holds d = record { bytes = d; next_line_search = 0; multiple_lines_search = 0 }

abbrev two_lines : List Bytes
two_lines = codes "ab" ∷ codes "c:d" ∷ []

lines_never_raise_example :
    (o : Option (List Bytes)) × ((maybe_extract_lines (holds (13 ∷ 10 ∷ 10 ∷ []))).0 ≡ ok o)
lines_never_raise_example =
    lines_never_raise (holds (13 ∷ 10 ∷ 10 ∷ [])) (fresh-IsCached (13 ∷ 10 ∷ 10 ∷ []))

-- What follows the block looks like another end of it.
lines-render_example :
    view (maybe_extract_lines (holds (render two_lines ++ 13 ∷ 10 ∷ 10 ∷ 10 ∷ [])))
    ≡ (ok (some two_lines), 10 ∷ 10 ∷ [])
lines-render_example =
    lines-render (holds (render two_lines ++ 13 ∷ 10 ∷ 10 ∷ 10 ∷ [])) two_lines (10 ∷ 10 ∷ [])
      (fresh-IsCached (render two_lines ++ 13 ∷ 10 ∷ 10 ∷ 10 ∷ [])) refl (ground arith)

-- The same length twice, and one in a list.
abbrev given : List (Bytes × Bytes)
given =
    (codes "Host", codes "a")
    ∷ (codes "Content-Length", codes "10, 10")
    ∷ (codes "content-length", codes "10")
    ∷ []

abbrev normal : Headers
normal =
    record { raw_name = codes "Host"; name = codes "host"; value = codes "a" }
    ∷ record {
      raw_name = codes "Content-Length";
      name = codes "content-length";
      value = codes "10";
    }
    ∷ []

abbrev a_response : Response
a_response = record { headers = normal; http_version = codes "1.1"; reason = []; status_code = 200 }

a_response_made : new_response (pairs given) 200 (codes "1.1") [] true ≡ ok (response a_response)
unfolding new_response normalize_and_validate normalize_from normalize_header parse_content_length
    validate split strip lower all_bytes
a_response_made = refl

made-ResponseFramed_example :
    ResponseFramed
      (some (codes "GET"))
      a_response
      (body_framing (some (codes "GET")) (some (response a_response)))
made-ResponseFramed_example =
    made-ResponseFramed (some (codes "GET")) true given 200 (codes "1.1") [] a_response
      a_response_made

-- A chunk that looks like the end of the body, and an empty one.
abbrev chunks : List Bytes
chunks = codes "0\r\n\r\n" ∷ [] ∷ codes "x" ∷ []

chunked_round_trip_example :
    ((reads 3 (new_chunked_reader, holds (wire chunks ++ codes "GET"))).0
      ≡ ok (body_events (nonempty chunks)))
    × ((reads 3 (new_chunked_reader, holds (wire chunks ++ codes "GET"))).1.1.bytes ≡ codes "GET")
chunked_round_trip_example =
    chunked_round_trip chunks (codes "GET") (holds (wire chunks ++ codes "GET")) (ground arith)
      (fresh-IsCached (wire chunks ++ codes "GET")) refl

-- The body is cut inside of its chunks, and a fragment holds its end and what follows.
abbrev fragments : List Bytes
fragments = codes "h" ∷ [] ∷ codes "ell" ∷ codes "oGET" ∷ []

content_length_fragments_example :
    ((read_body fragments (new_content_length_reader 5, new)).0 ≡ ok (codes "hello"))
    × ((read_body fragments (new_content_length_reader 5, new)).1.1.bytes ≡ codes "GET")
unfolding join
content_length_fragments_example = content_length_fragments 5 fragments

content_length_round_trip_example :
    (send_body (pos 5) (codes "he" ∷ codes "llo" ∷ []) ≡ ok (codes "he" ∷ codes "llo" ∷ []))
    × ((read_message fragments (new_content_length_reader 5, new)).0
        ≡ ok (codes "hello", some (end_of_message [])))
    × ((read_message fragments (new_content_length_reader 5, new)).1.1.bytes ≡ codes "GET")
unfolding join
content_length_round_trip_example =
    content_length_round_trip 5 (codes "he" ∷ codes "llo" ∷ []) fragments (codes "GET") refl refl

send_body_other_example :
    send_body (pos 4) (codes "he" ∷ codes "llo" ∷ []) ≡ err (local_protocol_error 400)
send_body_other_example = send_body_other (codes "he" ∷ codes "llo" ∷ []) 4 (ground arith)
