-- ===== src/Examples/Messages.antt =====
-- The theorems on whole messages (h11/_writers.py, h11/_readers.py) at concrete messages.
use h.Prelude.{◌≡◌, refl, some, List, [], ◌∷◌, ◌++◌, true, false}
use h.Prelude.Bytes.{Bytes, codes, all_bytes}
use h.Prelude.Exec.{ok}
use h.Abnf.{is_field_byte}
use h.Headers.Defs.{raw_items, Headers, normalize_and_validate}
use h.Events.{
  Request, Response, request, response, informational_response, pairs, new_request, new_response,
  new_informational_response,
}
use h.Buffer.Defs.{ReceiveBuffer}
use h.Buffer.Cache.{fresh-IsCached}
use h.Readers.Defs.{maybe_read_from_idle_client}
use h.Writers.Defs.{write_request, write_any_response}
use h.Message.Again.{normalize_idempotent, host_first}
use h.Message.Request.{sent, request_round_trip}
use h.Message.Exchange.{Arrives, first_request-Arrives}
use h.Message.RoundTrip.{ReadBack, response_round_trip, informational_round_trip}

abbrev holds : Bytes → ReceiveBuffer
holds d = record { bytes = d; next_line_search = 0; multiple_lines_search = 0 }

abbrev raw : List (Bytes × Bytes)
raw = (codes "Accept", codes "a b") ∷ (codes "Host", codes "c") ∷ []

abbrev items : Headers
items =
    record { raw_name = codes "Accept"; name = codes "accept"; value = codes "a b" }
    ∷ record { raw_name = codes "Host"; name = codes "host"; value = codes "c" }
    ∷ []

abbrev get : Request
get = record {
  method = codes "GET";
  headers = items;
  target = codes "/";
  http_version = codes "1.1";
}

get_made : new_request (codes "GET") (pairs raw) (codes "/") (codes "1.1") false ≡ ok get
unfolding new_request
get_made = refl

abbrev get_buffer : ReceiveBuffer
get_buffer = holds (sent (write_request get) ++ codes "GET")

request_round_trip_example :
    ((maybe_read_from_idle_client get_buffer).0
      ≡ ok (some (request (record get { headers = host_first items }))))
    × ((maybe_read_from_idle_client get_buffer).1.bytes ≡ codes "GET")
request_round_trip_example =
    request_round_trip (codes "GET") (codes "/") raw get get_buffer (codes "GET") get_made
      (fresh-IsCached (sent (write_request get) ++ codes "GET")) refl

first_request-Arrives_example : Arrives get (codes "GET") 100 16384
first_request-Arrives_example =
    first_request-Arrives (codes "GET") (codes "/") raw get (codes "GET") 100 16384 get_made

abbrev given_twice : List (Bytes × Bytes)
given_twice =
    (codes "Content-Length", codes "5, 5")
    ∷ (codes "content-length", codes "5")
    ∷ (codes "Transfer-Encoding", codes "Chunked")
    ∷ []

abbrev kept_once : Headers
kept_once =
    record { raw_name = codes "Content-Length"; name = codes "content-length"; value = codes "5" }
    ∷ record {
      raw_name = codes "Transfer-Encoding";
      name = codes "transfer-encoding";
      value = codes "chunked";
    }
    ∷ []

given_once : normalize_and_validate false given_twice ≡ ok kept_once
unfolding normalize_and_validate
given_once = refl

normalize_idempotent_example : normalize_and_validate false (raw_items kept_once) ≡ ok kept_once
normalize_idempotent_example = normalize_idempotent false given_twice kept_once given_once

abbrev found : Response
found = record {
  headers = items;
  http_version = codes "1.1";
  reason = codes "OK";
  status_code = 200;
}

found_made : new_response (pairs raw) 200 (codes "1.1") (codes "OK") false ≡ ok (response found)
unfolding new_response normalize_and_validate
found_made = refl

printable : all_bytes is_field_byte (codes "OK") ≡ true
unfolding all_bytes
printable = refl

abbrev found_buffer : ReceiveBuffer
found_buffer = holds (sent (write_any_response found) ++ codes "ab")

response_round_trip_example :
    ReadBack (response (record found { headers = host_first items })) found_buffer (codes "ab")
response_round_trip_example =
    response_round_trip 200 raw (codes "OK") found found_buffer (codes "ab") found_made printable
      (fresh-IsCached (sent (write_any_response found) ++ codes "ab")) refl

abbrev going_on : Response
going_on = record {
  headers = items;
  http_version = codes "1.1";
  reason = codes "OK";
  status_code = 100;
}

going_on_made :
    new_informational_response (pairs raw) 100 (codes "1.1") (codes "OK") false
    ≡ ok (informational_response going_on)
unfolding new_informational_response normalize_and_validate
going_on_made = refl

abbrev going_on_buffer : ReceiveBuffer
going_on_buffer = holds (sent (write_any_response going_on) ++ codes "ab")

informational_round_trip_example :
    ReadBack
      (informational_response (record going_on { headers = host_first items }))
      going_on_buffer
      (codes "ab")
informational_round_trip_example =
    informational_round_trip 100 raw (codes "OK") going_on going_on_buffer (codes "ab")
      going_on_made printable (fresh-IsCached (sent (write_any_response going_on) ++ codes "ab"))
      refl
