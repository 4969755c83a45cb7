-- ===== src/Protocol/Events.antt =====
-- What the constructors of h11/_events.py, and the readers of lines of h11/_readers.py, make or
-- raise.
use h.Prelude.{
  ℕ, ◌≡◌, refl, Bool, true, false, ◌==◌, ltb, leb, ◌&&◌, Option, none, some, List, [], ◌∷◌, ◌++◌,
}
use h.Prelude.Bytes.{Bytes, codes, bytes_eq, decimal, strip_left}
use h.Prelude.Exec.{Result, ok, err}
use h.Abnf.{
  validate, when, match_token, match_request_target, match_header_field, match_request_line,
  match_status_line, is_blank,
}
use h.Headers.Defs.{Headers, normalize_and_validate}
use h.Events.{
  Event, request, response, HeadersArgument, pairs, headers, headers_of, count_headers, check_host,
  new_request, new_response_base, new_informational_response, new_response, new_end_of_message,
}
use h.Readers.Lines.{
  fold_lines, obsolete_line_fold, decode_fields, decode_header_lines, request_of_lines, reason_of,
  response_of_lines,
}
use h.Protocol.Defs.{
  Gives, returns, raised, Safe, Safe-ok, Safe-local, Gives-local, Gives-if, Gives-then,
  validate-Safe,
}
use h.Protocol.Headers.{normalize-Safe}

-- Headers that came out of `normalize_and_validate`.
pub record IsAccepted (hs : Headers) : Type 0 where
  pub parsed : Bool
  pub given : List (Bytes × Bytes)
  pub accepted : normalize_and_validate parsed given ≡ ok hs

-- What the constructors promise of a Request or a Response; other events promise nothing here.
abbrev pub IsMade : Event → Type 0
IsMade (request r) = IsAccepted r.headers
IsMade (response r) = IsAccepted r.headers × (leb 200 r.status_code ≡ true)
IsMade _ = Unit {0}

-- An argument `headers` is a list, or headers of another event.
abbrev pub IsUsable : HeadersArgument → Type 0
IsUsable (pairs l) = Unit {0}
IsUsable (headers hs) = IsAccepted hs

pub headers_of-Gives :
    (parsed : Bool) (hs : HeadersArgument) → IsUsable hs → Gives IsAccepted (headers_of parsed hs)
headers_of-Gives parsed (headers hs) u = returns u
headers_of-Gives parsed (pairs l) u =
    by_result (normalize_and_validate parsed l) refl (normalize-Safe parsed l)
  where
    by_result :
        (r : Result Headers) → normalize_and_validate parsed l ≡ r → Safe r → Gives IsAccepted r
    by_result (ok hs) e s = returns (record { parsed = parsed; given = l; accepted = e })
    by_result (err x) e (raised i) = raised i

check_host-Safe : (version : Bytes) (n : ℕ) → Safe (check_host version n)
check_host-Safe version n =
    Gives-if (bytes_eq version (codes "1.1") && n == 0) _ _ (λ _. Safe-local 400)
      (λ _. Gives-if (ltb 1 n) _ _ (λ _. Safe-local 400) (λ _. Safe-ok tt))

pub new_request-Gives :
    (method : Bytes) (hs : HeadersArgument) (target version : Bytes) (parsed : Bool)
    → IsUsable hs
    → Gives (λ r. IsAccepted r.headers) (new_request method hs target version parsed)
unfolding new_request
new_request-Gives method hs target version parsed u =
    Gives-then (headers_of parsed hs) _ (headers_of-Gives parsed hs u) (λ items _ a.
      Gives-then (check_host version (count_headers (codes "host") items)) _
        (check_host-Safe version (count_headers (codes "host") items))
        (λ _ _ _.
          Gives-then (validate (when (match_token method))) _
            (validate-Safe (when (match_token method)))
            (λ _ _ _.
              Gives-then (validate (when (match_request_target target))) _
                (validate-Safe (when (match_request_target target))) (λ _ _ _. returns a))))

base-Gives :
    (hs : HeadersArgument) (status : ℕ) (version reason : Bytes) (parsed : Bool)
    → IsUsable hs
    → Gives (λ r. IsAccepted r.headers) (new_response_base hs status version reason parsed)
base-Gives hs status version reason parsed u =
    Gives-then (headers_of parsed hs) _ (headers_of-Gives parsed hs u) (λ items _ a. returns a)

pub new_informational_response-Gives :
    (hs : HeadersArgument) (status : ℕ) (version reason : Bytes) (parsed : Bool)
    → IsUsable hs
    → Gives IsMade (new_informational_response hs status version reason parsed)
unfolding new_informational_response
new_informational_response-Gives hs status version reason parsed u =
    Gives-then (new_response_base hs status version reason parsed) _
      (base-Gives hs status version reason parsed u)
      (λ r _ a.
        Gives-if (leb 100 r.status_code && ltb r.status_code 200) _ _ (λ _. returns tt)
          (λ _. Gives-local 400))

from_range : (b c : Bool) → (b && c) ≡ true → b ≡ true
from_range true c h = refl
from_range false c h = h

pub new_response-Gives :
    (hs : HeadersArgument) (status : ℕ) (version reason : Bytes) (parsed : Bool)
    → IsUsable hs
    → Gives IsMade (new_response hs status version reason parsed)
unfolding new_response
new_response-Gives hs status version reason parsed u =
    Gives-then (new_response_base hs status version reason parsed) _
      (base-Gives hs status version reason parsed u)
      (λ r _ a.
        Gives-if (leb 200 r.status_code && ltb r.status_code 1000) _ _
          (λ h. returns (a, from_range (leb 200 r.status_code) (ltb r.status_code 1000) h))
          (λ _. Gives-local 400))

pub new_end_of_message-Gives :
    (l : List (Bytes × Bytes)) (parsed : Bool) → Gives IsMade (new_end_of_message (pairs l) parsed)
unfolding new_end_of_message
new_end_of_message-Gives l parsed =
    Gives-then (normalize_and_validate parsed l) _ (normalize-Safe parsed l) (λ hs _ _. returns tt)

fold_lines-Safe : (last : Option Bytes) (lines : List Bytes) → Safe (fold_lines last lines)
unfolding fold_lines
fold_lines-Safe none [] = Safe-ok []
fold_lines-Safe (some last) [] = Safe-ok (last ∷ [])
fold_lines-Safe none ([] ∷ lines) = fold_lines-Safe (some []) lines
fold_lines-Safe (some last) ([] ∷ lines) =
    Gives-then (fold_lines (some []) lines) _ (fold_lines-Safe (some []) lines)
      (λ rest _ _. Safe-ok (last ∷ rest))
fold_lines-Safe none ((c ∷ line) ∷ lines) =
    Gives-if (is_blank c) _ _ (λ _. Safe-local 400) (λ _. fold_lines-Safe (some (c ∷ line)) lines)
fold_lines-Safe (some last) ((c ∷ line) ∷ lines) =
    Gives-if (is_blank c) _ _
      (λ _. fold_lines-Safe (some (last ++ 32 ∷ strip_left is_blank (c ∷ line))) lines)
      (λ _.
        Gives-then (fold_lines (some (c ∷ line)) lines) _ (fold_lines-Safe (some (c ∷ line)) lines)
          (λ rest _ _. Safe-ok (last ∷ rest)))

decode_fields-Safe : (lines : List Bytes) → Safe (decode_fields lines)
decode_fields-Safe [] = Safe-ok []
decode_fields-Safe (line ∷ lines) =
    Gives-then (validate (match_header_field line)) _ (validate-Safe (match_header_field line))
      (λ m _ _.
        Gives-then (decode_fields lines) _ (decode_fields-Safe lines)
          (λ rest _ _. Safe-ok ((m.field_name, m.field_value) ∷ rest)))

pub decode_header_lines-Safe : (lines : List Bytes) → Safe (decode_header_lines lines)
unfolding decode_header_lines obsolete_line_fold
decode_header_lines-Safe lines =
    Gives-then (fold_lines none lines) decode_fields (fold_lines-Safe none lines)
      (λ folded _ _. decode_fields-Safe folded)

pub request_of_lines-Gives : (lines : List Bytes) → Gives IsMade (request_of_lines lines)
unfolding request_of_lines
request_of_lines-Gives [] = Gives-local 400
request_of_lines-Gives (first ∷ lines) =
    Gives-then (validate (match_request_line first)) _ (validate-Safe (match_request_line first))
      (λ m _ _. Gives-then (decode_header_lines lines) _ (decode_header_lines-Safe lines) (λ hs _ _.
        Gives-then (new_request m.method (pairs hs) m.target m.http_version true) _
          (new_request-Gives m.method (pairs hs) m.target m.http_version true tt)
          (λ r _ a. returns a)))

pub response_of_lines-Gives : (lines : List Bytes) → Gives IsMade (response_of_lines lines)
unfolding response_of_lines
response_of_lines-Gives [] = Gives-local 400
response_of_lines-Gives (first ∷ lines) =
    Gives-then (validate (match_status_line first)) _ (validate-Safe (match_status_line first))
      (λ m _ _. Gives-then (decode_header_lines lines) _ (decode_header_lines-Safe lines) (λ hs _ _.
        Gives-if (ltb (decimal 0 m.status_code) 200) _ _
          (λ _.
            new_informational_response-Gives (pairs hs) (decimal 0 m.status_code) m.http_version
              (reason_of m.reason) true tt)
          (λ _.
            new_response-Gives (pairs hs) (decimal 0 m.status_code) m.http_version
              (reason_of m.reason) true tt)))
