-- ===== src/Connection/Framed.antt =====
-- The framing of bodies (`_body_framing` of h11/_connection.py), for headers that the constructors
-- of events accept.
use h.Prelude.{◌≡◌, ◌⊎◌, inl, inr, Bool, List, [], ◌∷◌}
use h.Prelude.Bytes.{Bytes, codes, decimal}
use h.Prelude.Exec.{Result, ok}
use h.Headers.Defs.{Headers, nothing_seen, normalize_and_validate, get_comma_header}
use h.Headers.Steps.{IsLength}
use h.Headers.Normal.{IsNormalAfter, normalize-IsNormal}
use h.Readers.Defs.{Framing, content_length, chunked}
use h.Connection.Framing.{headers_framing, framing_by_headers}

-- The rules of RFC 7230, section 3.3.3, where the headers decide.
pub data Framed (default : Framing) (hs : Headers) : Result Framing → Type 0 where
  by_encoding :
      get_comma_header hs (codes "transfer-encoding") ≡ codes "chunked" ∷ []
      → Framed default hs (ok chunked)
  by_length :
      {v : Bytes}
      → get_comma_header hs (codes "transfer-encoding") ≡ []
      → get_comma_header hs (codes "content-length") ≡ v ∷ []
      → IsLength v
      → Framed default hs (ok (content_length (decimal 0 v)))
  by_default :
      get_comma_header hs (codes "transfer-encoding") ≡ []
      → get_comma_header hs (codes "content-length") ≡ []
      → Framed default hs (ok default)

normal-Framed :
    (default : Framing) (hs : Headers)
    → IsNormalAfter nothing_seen hs
    → Framed default hs (headers_framing default hs)
unfolding headers_framing
normal-Framed default hs n = by_cases n.encodings n.lengths
  where
    by_cases :
        (get_comma_header hs (codes "transfer-encoding") ≡ [])
          ⊎ (get_comma_header hs (codes "transfer-encoding") ≡ codes "chunked" ∷ [])
        → (get_comma_header hs (codes "content-length") ≡ [])
          ⊎ ((v : Bytes) × (get_comma_header hs (codes "content-length") ≡ v ∷ []) × IsLength v)
        → Framed default hs (
            framing_by_headers default
              (get_comma_header hs (codes "transfer-encoding"))
              (get_comma_header hs (codes "content-length")))
    by_cases (inr te) l = rw te (by_encoding te)
    by_cases (inl te) (inl cl) = rw (te, cl) (by_default te cl)
    by_cases (inl te) (inr (v, cl, l)) = rw (te, cl) (by_length te cl l)

pub accepted-Framed :
    (default : Framing) (parsed : Bool) (l : List (Bytes × Bytes)) (hs : Headers)
    → normalize_and_validate parsed l ≡ ok hs
    → Framed default hs (headers_framing default hs)
accepted-Framed default parsed l hs h = normal-Framed default hs (normalize-IsNormal parsed l hs h)
