-- ===== src/Connection/ResponseFramed.antt =====
-- The framing of a response's body (`_body_framing` of h11/_connection.py), for the responses that
-- the constructor of h11/_events.py makes.
use h.Prelude.{
  ◌⊎◌, ◌≤◌, ◌<◌, ◌==◌, ◌||◌, none, arith, ℕ, ◌≡◌, refl, ap, subst, ◌∙◌, inl, inr, Bool, true, false,
  ◌&&◌, leb, ltb, if◌then◌else◌, Option, some, List, Bool-cases,
}
use h.Prelude.Bytes.{Bytes, codes, bytes_eq_refl, eq_of_bytes_eq}
use h.Prelude.Exec.{Result, ok, err, local_protocol_error}
use h.Prelude.Fallible.{>>=-eq-ok, ok-injective}
use h.Headers.Defs.{normalize_and_validate}
use h.Events.{Response, response, pairs, new_response_base, new_response}
use h.Readers.Defs.{Framing, content_length, http10}
use h.Connection.Framing.{is_method, has_no_body, response_framing, body_framing}
use h.Connection.Framed.{Framed, accepted-Framed}

-- The responses that have no body, of RFC 7230, section 3.3.3: answers to HEAD, answers of success to
-- CONNECT, and 204 and 304.
pub data HasNoBody (method : Option Bytes) (status_code : ℕ) : Type 0 where
  no_content : status_code ≡ 204 → HasNoBody method status_code
  not_modified : status_code ≡ 304 → HasNoBody method status_code
  of_head : method ≡ some (codes "HEAD") → HasNoBody method status_code
  of_connect :
      method ≡ some (codes "CONNECT")
      → 200 ≤ status_code
      → status_code < 300
      → HasNoBody method status_code

method_is :
    (method : Option Bytes) (name : Bytes) → is_method method name ≡ true → method ≡ some name
method_is none name h = cc
method_is (some m) name h = ap some (eq_of_bytes_eq m name h)

is_its_method :
    (method : Option Bytes) (name : Bytes) → method ≡ some name → is_method method name ≡ true
is_its_method method name h = rw h (bytes_eq_refl name)

-- The four tests, whatever their outcomes.
no_body_cases :
    (s : ℕ) (head connect : Bool)
    → (s == 204 || s == 304 || head || connect && leb 200 s && ltb s 300) ≡ true
    → (s ≡ 204) ⊎ (s ≡ 304) ⊎ (head ≡ true) ⊎ ((connect ≡ true) × (200 ≤ s) × (s < 300))
no_body_cases s head connect h = ground arith

has_no_body-HasNoBody :
    (method : Option Bytes) (s : ℕ) → has_no_body method s ≡ true → HasNoBody method s
unfolding has_no_body
has_no_body-HasNoBody method s h =
    elim (no_body_cases s (is_method method (codes "HEAD")) (is_method method (codes "CONNECT"))
      h) [
        | inl e ↦ no_content e
        | inr (inl e) ↦ not_modified e
        | inr (inr (inl e)) ↦ of_head (method_is method _ e)
        | inr (inr (inr (e, low, high))) ↦ of_connect (method_is method _ e) low high
      ]

no_body_so :
    (s : ℕ) (head connect : Bool)
    → (s ≡ 204) ⊎ (s ≡ 304) ⊎ (head ≡ true) ⊎ ((connect ≡ true) × (200 ≤ s) × (s < 300))
    → (s == 204 || s == 304 || head || connect && leb 200 s && ltb s 300) ≡ true
no_body_so s head connect h = ground arith

HasNoBody-has_no_body :
    (method : Option Bytes) (s : ℕ) → HasNoBody method s → has_no_body method s ≡ true
unfolding has_no_body
HasNoBody-has_no_body method s h =
    no_body_so s (is_method method (codes "HEAD")) (is_method method (codes "CONNECT")) (cases h)
  where
    cases :
        HasNoBody method s
        → (s ≡ 204)
          ⊎ (s ≡ 304)
          ⊎ (is_method method (codes "HEAD") ≡ true)
          ⊎ ((is_method method (codes "CONNECT") ≡ true) × (200 ≤ s) × (s < 300))
    cases (no_content e) = inl e
    cases (not_modified e) = inr (inl e)
    cases (of_head e) = inr (inr (inl (is_its_method method _ e)))
    cases (of_connect e low high) = inr (inr (inr (is_its_method method _ e, low, high)))

-- A response that has no body, whatever its headers say, and one that has what they say.
pub data ResponseFramed (method : Option Bytes) (r : Response) : Result Framing → Type 0 where
  without_body : HasNoBody method r.status_code → ResponseFramed method r (ok (content_length 0))
  with_body :
      {framing : Result Framing}
      → (HasNoBody method r.status_code → ⊥)
      → Framed http10 r.headers framing
      → ResponseFramed method r framing

-- What the constructor checked.
record IsMade (parsed : Bool) (l : List (Bytes × Bytes)) (r : Response) : Type 0 where
  accepted : normalize_and_validate parsed l ≡ ok r.headers
  final : leb 200 r.status_code ≡ true

in_range :
    (x r : Response) (b c : Bool)
    → (if b && c then ok (response x) else err (local_protocol_error 400)) ≡ ok (response r)
    → (b ≡ true) × (x ≡ r)
in_range x r true true h = (refl, cc)
in_range x r true false h = cc
in_range x r false c h = cc

new_response-IsMade :
    (parsed : Bool) (l : List (Bytes × Bytes)) (status_code : ℕ) (http_version reason : Bytes)
    (r : Response)
    → new_response (pairs l) status_code http_version reason parsed ≡ ok (response r)
    → IsMade parsed l r
unfolding new_response
new_response-IsMade parsed l status_code http_version reason r h =
    let (x, e, k) =
      >>=-eq-ok (new_response_base (pairs l) status_code http_version reason parsed) _ h in
    let (items, a, b) = >>=-eq-ok (normalize_and_validate parsed l) _ e in
    let (final, same) = in_range x r (leb 200 x.status_code) (ltb x.status_code 1000) k in
    let y = ok-injective _ x b in
    subst (IsMade parsed l) same
      (record { accepted = a ∙ ap ok (ap (λ q. q.headers) y); final = final })

framed_response :
    (method : Option Bytes) (parsed : Bool) (l : List (Bytes × Bytes)) (r : Response)
    → IsMade parsed l r
    → ResponseFramed method r (response_framing method r)
unfolding response_framing
framed_response method parsed l r h = elim (Bool-cases (has_no_body method r.status_code)) [
  | inl t ↦ rw t (without_body (has_no_body-HasNoBody method r.status_code t))
  | inr f ↦
      rw (f, h.final)
        (with_body (λ n. absurd (cc (HasNoBody-has_no_body method r.status_code n, f)))
          (accepted-Framed http10 parsed l r.headers h.accepted))
]

-- For every response that the constructor makes, `_body_framing` raises nothing: it gives no body to
-- an answer to HEAD, to a 2xx answer to CONNECT, and to 204 and 304, and to any other response what
-- its headers ask for, or a body up to the end of the connection where they ask for nothing.
pub made-ResponseFramed :
    (method : Option Bytes) (parsed : Bool) (l : List (Bytes × Bytes)) (status_code : ℕ)
    (http_version reason : Bytes) (r : Response)
    → new_response (pairs l) status_code http_version reason parsed ≡ ok (response r)
    → ResponseFramed method r (body_framing method (some (response r)))
unfolding body_framing
made-ResponseFramed method parsed l status_code http_version reason r h =
    framed_response method parsed l r
      (new_response-IsMade parsed l status_code http_version reason r h)
