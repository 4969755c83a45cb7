-- ===== src/Message/Response.antt =====
-- A response, written (h11/_writers.py) and read (h11/_readers.py).
use h.Prelude.{
  ℕ, ◌≤◌, ◌<◌, ◌≡◌, refl, sym, ap, ◌∙◌, Bool, true, false, ltb, leb, ◌&&◌, if◌then◌else◌, some, [],
  ◌∷◌, ◌++◌, map, arith,
}
use mathlib.Core.List.{append_assoc}
use h.Prelude.Bytes.{Bytes, codes, all_bytes, is_digit, to_decimal}
use h.Prelude.Exec.{ok, err, local_protocol_error}
use h.Abnf.{validate, is_field_byte, match_status_line}
use h.Headers.Defs.{Headers, nothing_seen, raw_items, normalize_and_validate}
use h.Events.{
  Event, Response, informational_response, response, pairs, new_informational_response,
  new_response,
}
use h.Buffer.Defs.{ReceiveBuffer}
use h.Buffer.Cache.{IsCached}
use h.Buffer.RoundTrip.{AreLines, render, lines-render}
use h.Readers.Lines.{response_of_lines}
use h.Readers.Defs.{maybe_read_from_send_response_server}
use h.Writers.Defs.{write_any_response, join}
use h.Grammar.FieldValue.{all-append}
use h.Grammar.StatusParts.{IsThreeDigits}
use h.Grammar.StatusLine.{line_complete}
use h.Message.Accepted.{AreItems}
use h.Message.Again.{host_first, host_first-AreItems, normalize-again}
use h.Message.Lines.{field_line, no_breaks, fields-AreLines, join-write_headers, fields-decoded}
use h.Message.Request.{sent}
use h.Message.StatusCode.{to_decimal-IsThreeDigits, decimal-to_decimal}

-- What the constructor checked, and what it did not.
pub record IsChecked (status : ℕ) (reason : Bytes) (items : Headers) : Type 0 where
  pub accepted : AreItems nothing_seen items
  pub least : 100 ≤ status
  pub most : status < 1000
  pub printable : all_bytes is_field_byte reason ≡ true

abbrev first_line : ℕ → Bytes → Bytes
first_line status reason = codes "HTTP/1.1 " ++ (to_decimal status ++ (32 ∷ reason))

abbrev pub made : ℕ → Bytes → Headers → Response
made status reason items = record {
  headers = items;
  http_version = codes "1.1";
  reason = reason;
  status_code = status;
}

-- A status below 200 is that of an informational response.
abbrev pub kind_of : Response → Event
kind_of r = if ltb r.status_code 200 then informational_response r else response r

digit_is_field : (c : ℕ) → is_digit c ≡ true → is_field_byte c ≡ true
digit_is_field c h = ground arith

code_is_field : (s : Bytes) → IsThreeDigits s → all_bytes is_field_byte s ≡ true
unfolding all_bytes
code_is_field s d =
    rw
      (
        d.is,
        digit_is_field d.first d.first_digit,
        digit_is_field d.second d.second_digit,
        digit_is_field d.third d.third_digit,
      )
      refl

module _ (status : ℕ) (reason : Bytes) (items : Headers) (c : IsChecked status reason items) where
  match-first_line :
      match_status_line (first_line status reason)
      ≡ some (record {
        http_version = codes "1.1";
        status_code = to_decimal status;
        reason = some reason;
      })
  match-first_line =
      line_complete (first_line status reason)
        (record {
          http_version = codes "1.1";
          status_code = to_decimal status;
          reason = some reason;
        })
        (record {
          version = record {
            major = 49;
            minor = 49;
            is = refl;
            major_digit = refl;
            minor_digit = refl;
          };
          code = to_decimal-IsThreeDigits status c.least c.most;
          reason = c.printable;
          string = refl;
        })

  made_again :
      (if ltb status 200
        then new_informational_response
            (pairs (raw_items (host_first items)))
            status
            (codes "1.1")
            reason
            true
        else new_response (pairs (raw_items (host_first items))) status (codes "1.1") reason true)
      ≡ ok (kind_of (made status reason (host_first items)))
  unfolding new_informational_response new_response normalize_and_validate
  made_again =
      rw
        (normalize-again true nothing_seen (host_first items)
          (host_first-AreItems nothing_seen items c.accepted))
        (ranged (ltb status 200) (leb 100 status) (ltb status 1000) (leb 200 status) refl low high
          not_low)
    where
      r : Response
      r = made status reason (host_first items)

      low : leb 100 status ≡ true
      low = ground (arith, c.least)

      high : ltb status 1000 ≡ true
      high = ground (arith, c.most)

      not_low : ltb status 200 ≡ false → leb 200 status ≡ true
      not_low h = ground arith

      ranged :
          (a b d e : Bool)
          → ltb status 200 ≡ a
          → b ≡ true
          → d ≡ true
          → (a ≡ false → e ≡ true)
          → (if a
              then (if b && a
                  then ok (informational_response r)
                  else err (local_protocol_error 400))
              else (if e && d then ok (response r) else err (local_protocol_error 400)))
            ≡ ok (if a then informational_response r else response r)
      ranged true b d e h x y z = rw x refl
      ranged false b d e h x y z = rw (z refl, y) refl

  response-again :
      response_of_lines (first_line status reason ∷ map field_line (host_first items))
      ≡ ok (kind_of (made status reason (host_first items)))
  unfolding response_of_lines validate
  response-again =
      rw
        (
          match-first_line,
          fields-decoded nothing_seen (host_first items)
              (host_first-AreItems nothing_seen items c.accepted),
          decimal-to_decimal status c.least c.most,
        )
        made_again

  lines-AreLines : AreLines (first_line status reason ∷ map field_line (host_first items))
  unfolding all_bytes
  lines-AreLines = (
    no_breaks (first_line status reason) (
        all-append is_field_byte (to_decimal status) (32 ∷ reason)
          (code_is_field (to_decimal status) (to_decimal-IsThreeDigits status c.least c.most))
          c.printable),
    fields-AreLines nothing_seen (host_first items)
        (host_first-AreItems nothing_seen items c.accepted),
  )

  -- What is written is the block of these lines.
  written_block :
      (rest : Bytes)
      → sent (write_any_response (made status reason items)) ++ rest
        ≡ render (first_line status reason ∷ map field_line (host_first items)) ++ (13 ∷ 10 ∷ rest)
  unfolding write_any_response join
  written_block rest =
      let fields = render (map field_line (host_first items)) in
      let code = to_decimal status in
      let first = codes "HTTP/1.1 " ++ code ++ codes " " ++ reason in
      let head = first_line status reason in
      ap (λ x. first ++ (13 ∷ 10 ∷ []) ++ x ++ rest) (join-write_headers items)
      ∙ append_assoc (first ++ (13 ∷ 10 ∷ [])) (fields ++ (13 ∷ 10 ∷ [])) rest
      ∙ append_assoc first (13 ∷ 10 ∷ []) (fields ++ (13 ∷ 10 ∷ []) ++ rest)
      ∙ ap (λ x. x ++ (13 ∷ 10 ∷ (fields ++ (13 ∷ 10 ∷ []) ++ rest))) same_line
      ∙ ap (λ x. head ++ (13 ∷ 10 ∷ x)) (append_assoc fields (13 ∷ 10 ∷ []) rest)
      ∙ sym (append_assoc head (13 ∷ 10 ∷ fields) (13 ∷ 10 ∷ rest))
    where
      same_line :
          codes "HTTP/1.1 " ++ to_decimal status ++ codes " " ++ reason ≡ first_line status reason
      same_line =
          append_assoc (codes "HTTP/1.1 " ++ to_decimal status) (codes " ") reason
          ∙ append_assoc (codes "HTTP/1.1 ") (to_decimal status) (32 ∷ reason)

  pub read_back :
      (b : ReceiveBuffer) (rest : Bytes)
      → IsCached b
      → b.bytes ≡ sent (write_any_response (made status reason items)) ++ rest
      → ((maybe_read_from_send_response_server b).0
          ≡ ok (some (kind_of (made status reason (host_first items)))))
        × ((maybe_read_from_send_response_server b).1.bytes ≡ rest)
  unfolding maybe_read_from_send_response_server
  read_back b rest i e =
      let ls = first_line status reason ∷ map field_line (host_first items) in
      let v = lines-render b ls rest i (e ∙ written_block rest) lines-AreLines in
      rw (ap (λ p. p.0) v) (rw response-again refl, ap (λ p. p.1) v)
