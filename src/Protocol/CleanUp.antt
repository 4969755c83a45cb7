-- ===== src/Protocol/CleanUp.antt =====
-- The headers of a Response for sending (`_clean_up_response_headers_for_sending` of
-- h11/_connection.py).
use h.Prelude.{Bool, true, false, not, ◌||◌, Option, List, [], ◌∷◌, ◌++◌, map}
use h.Prelude.Bytes.{Bytes, codes, title}
use h.Prelude.Exec.{Result}
use h.Headers.Defs.{Headers, get_comma_header, other_headers, set_comma_header}
use h.Events.{
  Event, Response, request, informational_response, response, data_event, end_of_message,
  connection_closed, headers, pairs,
}
use h.Readers.Defs.{Framing, content_length, chunked, http10}
use h.Connection.Framing.{response_framing}
use h.Connection.Defs.{Connection}
use h.Connection.Send.{
  choosing_method, is_old_peer, frame_unknown_length, frame_headers, sorted_set, discard, set_close,
  close_headers, clean_up_response_headers, clean_up,
}
use h.Protocol.Defs.{Gives, returns, Gives-if, Gives-then}
use h.Protocol.Events.{IsAccepted, IsMade, headers_of-Gives, new_response-Gives}
use h.Protocol.Framing.{Framable, response-Framable}

set_comma_header-Gives :
    (hs : Headers) (name : Bytes) (values : List Bytes)
    → Gives IsAccepted (set_comma_header hs name values)
unfolding set_comma_header
set_comma_header-Gives hs name values =
    headers_of-Gives false
      (pairs (other_headers hs name ++ map (λ new_value. (title name, new_value)) values)) tt

abbrev IsFramed : Headers × Bool → Type 0
IsFramed p = IsAccepted p.0

frame_unknown_length-Gives :
    (method version : Option Bytes) (hs : Headers)
    → Gives IsFramed (frame_unknown_length method version hs)
unfolding frame_unknown_length
frame_unknown_length-Gives method version hs =
    Gives-then (set_comma_header hs (codes "content-length") []) _
      (set_comma_header-Gives hs (codes "content-length") [])
      (λ items _ _.
        Gives-if (is_old_peer version) _ _
          (λ _.
            Gives-then (set_comma_header items (codes "transfer-encoding") []) _
              (set_comma_header-Gives items (codes "transfer-encoding") []) (λ _ _ a. returns a))
          (λ _.
            Gives-then (set_comma_header items (codes "transfer-encoding") (codes "chunked" ∷ [])) _
              (set_comma_header-Gives items (codes "transfer-encoding") (codes "chunked" ∷ []))
              (λ _ _ a. returns a)))

frame_headers-Gives :
    (framing : Framing) (method version : Option Bytes) (hs : Headers)
    → IsAccepted hs
    → Gives IsFramed (frame_headers framing method version hs)
frame_headers-Gives (content_length n) method version hs a = returns a
frame_headers-Gives chunked method version hs a = frame_unknown_length-Gives method version hs
frame_headers-Gives http10 method version hs a = frame_unknown_length-Gives method version hs

close_headers-Gives :
    (b : Bool) (hs : Headers) → IsAccepted hs → Gives IsAccepted (close_headers b hs)
unfolding set_close
close_headers-Gives true hs a = set_comma_header-Gives hs (codes "connection") (
    sorted_set
      (codes "close" ∷ discard (codes "keep-alive") (get_comma_header hs (codes "connection"))))
close_headers-Gives false hs a = returns a

framing-Gives : (r : Result Framing) → Framable r → Gives (λ _. Unit {0}) r
framing-Gives r (f, e) = rw e (returns tt)

response-Gives :
    (method version : Option Bytes) (keep_alive : Bool) (r : Response)
    → IsMade (response r)
    → Gives IsMade (clean_up_response_headers method version keep_alive r)
unfolding clean_up_response_headers
response-Gives method version keep_alive r (a, final) =
    Gives-then (response_framing (choosing_method method) r) _
      (framing-Gives _ (response-Framable (choosing_method method) r a final))
      (λ framing _ _.
        Gives-then (frame_headers framing method version r.headers) _
          (frame_headers-Gives framing method version r.headers a)
          (λ framed _ b.
            Gives-then (close_headers (not keep_alive || framed.1) framed.0) _
              (close_headers-Gives (not keep_alive || framed.1) framed.0 b)
              (λ items _ i.
                new_response-Gives (headers items) r.status_code r.http_version r.reason false i)))

-- Headers that were accepted stay so.
pub clean_up-Gives :
    (event : Event) (c : Connection) → IsMade event → Gives IsMade (clean_up event c)
clean_up-Gives (response r) c h =
    response-Gives c.request_method c.their_http_version c.cstate.keep_alive r h
clean_up-Gives (request q) c h = returns h
clean_up-Gives (informational_response q) c h = returns tt
clean_up-Gives (data_event d) c h = returns tt
clean_up-Gives (end_of_message hs) c h = returns tt
clean_up-Gives connection_closed c h = returns tt
