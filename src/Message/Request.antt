-- ===== src/Message/Request.antt =====
-- A request, written (h11/_writers.py) and read (h11/_readers.py).
use h.Prelude.{
  ℕ, ◌≡◌, refl, sym, ap, subst, ◌∙◌, true, false, some, List, [], ◌∷◌, ◌++◌, map, arith,
}
use mathlib.Core.List.{append_assoc}
use h.Prelude.Bytes.{Bytes, codes, all_bytes}
use h.Prelude.Exec.{Result, ok, err}
use h.Prelude.Fallible.{>>=-eq-ok, ok-injective}
use h.Abnf.{
  validate, when, is_vchar, is_field_byte, match_token, match_request_target, match_request_line,
}
use h.Headers.Defs.{Headers, nothing_seen, raw_items, normalize_and_validate}
use h.Events.{Request, request, pairs, count_headers, check_host, new_request}
use h.Buffer.Defs.{ReceiveBuffer}
use h.Buffer.Cache.{IsCached}
use h.Buffer.RoundTrip.{AreLines, render, lines-render}
use h.Readers.Lines.{request_of_lines}
use h.Readers.Defs.{maybe_read_from_idle_client}
use h.Writers.Defs.{write_request, join}
use h.Grammar.FieldValue.{all-append, all-weaker, all_of_run}
use h.Grammar.RequestLine.{line_complete}
use h.Message.Accepted.{validated, AreItems, normalize-AreItems}
use h.Message.Again.{host_first, host_first-AreItems, normalize-again, count-host_first}
use h.Message.Lines.{field_line, IsLine-token, fields-AreLines, join-write_headers, fields-decoded}

-- What the constructor checked.
pub record IsChecked (method target : Bytes) (items : Headers) : Type 0 where
  pub accepted : AreItems nothing_seen items
  hosts : check_host (codes "1.1") (count_headers (codes "host") items) ≡ ok tt
  token : match_token method ≡ true
  visible : match_request_target target ≡ true

-- The bytes that are sent.
abbrev pub sent : Result (List Bytes) → Bytes
sent (ok chunks) = join chunks
sent (err e) = []

abbrev first_line : Bytes → Bytes → Bytes
first_line method target = method ++ (32 ∷ (target ++ (32 ∷ codes "HTTP/1.1")))

abbrev pub made : Bytes → Bytes → Headers → Request
made method target items = record {
  method = method;
  headers = items;
  target = target;
  http_version = codes "1.1";
}

module _ (method target : Bytes) (items : Headers) (c : IsChecked method target items) where
  match-first_line :
      match_request_line (first_line method target)
      ≡ some (record { method = method; target = target; http_version = codes "1.1" })
  unfolding match_token match_request_target
  match-first_line =
      line_complete (first_line method target)
        (record { method = method; target = target; http_version = codes "1.1" })
        (record {
          method = c.token;
          target = c.visible;
          version = record {
            major = 49;
            minor = 49;
            is = refl;
            major_digit = refl;
            minor_digit = refl;
          };
          string = refl;
        })

  made_again :
      new_request method (pairs (raw_items (host_first items))) target (codes "1.1") true
      ≡ ok (made method target (host_first items))
  unfolding new_request normalize_and_validate validate
  made_again =
      rw
        (
          normalize-again true nothing_seen (host_first items)
              (host_first-AreItems nothing_seen items c.accepted),
          count-host_first items,
          c.hosts,
          c.token,
          c.visible,
        )
        refl

  request-again :
      request_of_lines (first_line method target ∷ map field_line (host_first items))
      ≡ ok (request (made method target (host_first items)))
  unfolding request_of_lines validate
  request-again =
      rw
        (
          match-first_line,
          fields-decoded nothing_seen (host_first items)
              (host_first-AreItems nothing_seen items c.accepted),
          made_again,
        )
        refl

  lines-AreLines : AreLines (first_line method target ∷ map field_line (host_first items))
  unfolding match_token match_request_target
  lines-AreLines = (
    IsLine-token method (32 ∷ (target ++ (32 ∷ codes "HTTP/1.1"))) c.token (
        unfold all_bytes in
        all-append is_field_byte target (32 ∷ codes "HTTP/1.1")
          (all-weaker is_vchar is_field_byte target visible_field
            (all_of_run is_vchar target c.visible))
          refl),
    fields-AreLines nothing_seen (host_first items)
        (host_first-AreItems nothing_seen items c.accepted),
  )
    where
      visible_field : (x : ℕ) → is_vchar x ≡ true → is_field_byte x ≡ true
      visible_field x h = ground arith

  -- What is written is the block of these lines.
  written_block :
      (rest : Bytes)
      → sent (write_request (made method target items)) ++ rest
        ≡ render (first_line method target ∷ map field_line (host_first items)) ++ (13 ∷ 10 ∷ rest)
  unfolding write_request join
  written_block rest =
      let fields = render (map field_line (host_first items)) in
      let first = method ++ codes " " ++ target ++ codes " HTTP/1.1" in
      let head = first_line method target in
      ap (λ x. first ++ (13 ∷ 10 ∷ []) ++ x ++ rest) (join-write_headers items)
      ∙ append_assoc (first ++ (13 ∷ 10 ∷ [])) (fields ++ (13 ∷ 10 ∷ [])) rest
      ∙ append_assoc first (13 ∷ 10 ∷ []) (fields ++ (13 ∷ 10 ∷ []) ++ rest)
      ∙ ap (λ x. x ++ (13 ∷ 10 ∷ (fields ++ (13 ∷ 10 ∷ []) ++ rest))) same_line
      ∙ ap (λ x. head ++ (13 ∷ 10 ∷ x)) (append_assoc fields (13 ∷ 10 ∷ []) rest)
      ∙ sym (append_assoc head (13 ∷ 10 ∷ fields) (13 ∷ 10 ∷ rest))
    where
      same_line : method ++ codes " " ++ target ++ codes " HTTP/1.1" ≡ first_line method target
      same_line =
          append_assoc (method ++ codes " ") target (codes " HTTP/1.1")
          ∙ append_assoc method (codes " ") (target ++ codes " HTTP/1.1")

  pub read_back :
      (b : ReceiveBuffer) (rest : Bytes)
      → IsCached b
      → b.bytes ≡ sent (write_request (made method target items)) ++ rest
      → ((maybe_read_from_idle_client b).0
          ≡ ok (some (request (made method target (host_first items)))))
        × ((maybe_read_from_idle_client b).1.bytes ≡ rest)
  unfolding maybe_read_from_idle_client
  read_back b rest i e =
      let ls = first_line method target ∷ map field_line (host_first items) in
      let v = lines-render b ls rest i (e ∙ written_block rest) lines-AreLines in
      rw (ap (λ p. p.0) v) (rw request-again refl, ap (λ p. p.1) v)

-- What the constructor made, of version 1.1.
pub record IsMadeOf (method target : Bytes) (l : List (Bytes × Bytes)) (r : Request) : Type 0 where
  pub items : Headers
  pub given : normalize_and_validate false l ≡ ok items
  pub checked : IsChecked method target items
  pub is : made method target items ≡ r

pub new_request-IsMadeOf :
    (method target : Bytes) (l : List (Bytes × Bytes)) (r : Request)
    → new_request method (pairs l) target (codes "1.1") false ≡ ok r
    → IsMadeOf method target l r
unfolding new_request normalize_and_validate
new_request-IsMadeOf method target l r h =
    let (items, a, k) = >>=-eq-ok (normalize_and_validate false l) _ h in
    let (u, hosts, k₁) =
      >>=-eq-ok (check_host (codes "1.1") (count_headers (codes "host") items)) _ k in
    let (u₁, token, k₂) = >>=-eq-ok (validate (when (match_token method))) _ k₁ in
    let (u₂, visible, k₃) = >>=-eq-ok (validate (when (match_request_target target))) _ k₂ in
    record {
      items = items;
      given = a;
      checked = record {
        accepted = normalize-AreItems nothing_seen l items a;
        hosts = hosts;
        token = validated (match_token method) u₁ token;
        visible = validated (match_request_target target) u₂ visible;
      };
      is = ok-injective _ r k₃;
    }

-- Where the constructor makes a request of method, target and headers that it checks, and of version
-- 1.1, the bytes that `write_request` writes are read back by `maybe_read_from_idle_client`, from any
-- buffer that begins with them and whose search positions have passed no match, as the same request
-- with its `Host` header first; whatever follows them stays in the buffer.
pub request_round_trip :
    (method target : Bytes) (l : List (Bytes × Bytes)) (r : Request) (b : ReceiveBuffer)
    (rest : Bytes)
    → new_request method (pairs l) target (codes "1.1") false ≡ ok r
    → IsCached b
    → b.bytes ≡ sent (write_request r) ++ rest
    → ((maybe_read_from_idle_client b).0
        ≡ ok (some (request (record r { headers = host_first r.headers }))))
      × ((maybe_read_from_idle_client b).1.bytes ≡ rest)
request_round_trip method target l r b rest h i e =
    let m = new_request-IsMadeOf method target l r h in
    subst
      (λ x.
        ((maybe_read_from_idle_client b).0
          ≡ ok (some (request (record x { headers = host_first x.headers }))))
        × ((maybe_read_from_idle_client b).1.bytes ≡ rest))
      m.is
      (read_back method target m.items m.checked b rest i
        (subst (λ x. b.bytes ≡ sent (write_request x) ++ rest) (sym m.is) e))
