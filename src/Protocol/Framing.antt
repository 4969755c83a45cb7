-- ===== src/Protocol/Framing.antt =====
-- `_body_framing` (h11/_connection.py) of an event that its constructor made.
use h.Prelude.{◌≡◌, refl, true, leb, Option, some, Bool-cases, inl, inr}
use h.Prelude.Bytes.{Bytes}
use h.Prelude.Exec.{Result, ok}
use h.Headers.Defs.{Headers}
use h.Events.{Request, Response, request}
use h.Readers.Defs.{Framing, content_length, http10}
use h.Connection.Framing.{headers_framing, has_no_body, response_framing, body_framing}
use h.Connection.Framed.{Framed, by_encoding, by_length, by_default, accepted-Framed}
use h.Protocol.Events.{IsAccepted}

-- There is a framing.
abbrev pub Framable : Result Framing → Type 0
Framable r = (framing : Framing) × (r ≡ ok framing)

Framed-Framable :
    {default : Framing} {hs : Headers} {r : Result Framing} → Framed default hs r → Framable r
Framed-Framable (by_encoding e) = (_, refl)
Framed-Framable (by_length e v l) = (_, refl)
Framed-Framable (by_default e v) = (_, refl)

headers-Framable :
    (default : Framing) (hs : Headers) → IsAccepted hs → Framable (headers_framing default hs)
headers-Framable default hs a =
    Framed-Framable (accepted-Framed default a.parsed a.given hs a.accepted)

pub request-Framable :
    (method : Option Bytes) (r : Request)
    → IsAccepted r.headers
    → Framable (body_framing method (some (request r)))
unfolding body_framing
request-Framable method r a = headers-Framable (content_length 0) r.headers a

pub response-Framable :
    (method : Option Bytes) (r : Response)
    → IsAccepted r.headers
    → leb 200 r.status_code ≡ true
    → Framable (response_framing method r)
unfolding response_framing
response-Framable method r a final = elim (Bool-cases (has_no_body method r.status_code)) [
  | inl without ↦ rw without (content_length 0, refl)
  | inr body ↦ rw (body, final) (headers-Framable http10 r.headers a)
]
