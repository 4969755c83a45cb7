-- ===== src/Protocol/Headers.antt =====
-- The exceptions of h11/_headers.py and of the constructors of h11/_events.py.
use h.Prelude.{Bool, true, false, ltb, if◌then◌else◌, Option, none, some, List, [], ◌∷◌, map}
use h.Prelude.Lists.{length}
use h.Prelude.Bytes.{Bytes, bytes_eq, codes, lower, strip, split, is_digit}
use h.Prelude.Exec.{ok, err, local_protocol_error}
use h.Abnf.{validate, when, one_or_more, match_token, match_field_value}
use h.Headers.Defs.{
  Item, Seen, check_header, all_equal, single_length, check_length, content_length_max_digits,
  parse_content_length, see_content_length, see_transfer_encoding, normalize_header, normalize_from,
  nothing_seen, normalize_and_validate,
}
use h.Protocol.Defs.{Safe, Safe-ok, Safe-local, Gives-if, Gives-then, validate-Safe}

check_header-Safe : (parsed : Bool) (name value : Bytes) → Safe (check_header parsed name value)
check_header-Safe true n v = Safe-ok tt
check_header-Safe false n v =
    Gives-then (validate (when (match_token n))) (λ _. validate (when (match_field_value v)))
      (validate-Safe (when (match_token n))) (λ _ _ _. validate-Safe (when (match_field_value v)))

single_length-Safe : (l : List Bytes) → Safe (single_length l)
single_length-Safe [] = Safe-local 400
single_length-Safe (a ∷ r) =
    Gives-if (all_equal a r) (ok a) (err (local_protocol_error 400)) (λ _. Safe-ok a)
      (λ _. Safe-local 400)

check_length-Safe : (v : Bytes) → Safe (check_length v)
check_length-Safe v =
    Gives-then (validate (when (one_or_more is_digit v)))
      (λ _.
        if ltb content_length_max_digits (length v) then err (local_protocol_error 400) else ok v)
      (validate-Safe (when (one_or_more is_digit v)))
      (λ _ _ _.
        Gives-if (ltb content_length_max_digits (length v)) (err (local_protocol_error 400)) (ok v)
          (λ _. Safe-local 400) (λ _. Safe-ok v))

parse_content_length-Safe : (v : Bytes) → Safe (parse_content_length v)
unfolding parse_content_length
parse_content_length-Safe v =
    Gives-then (single_length (map strip (split b',' v))) check_length
      (single_length-Safe (map strip (split b',' v))) (λ w _ _. check_length-Safe w)

see_content_length-Safe : (old : Option Bytes) (item : Item) → Safe (see_content_length old item)
see_content_length-Safe none item = Safe-ok _
see_content_length-Safe (some old) item =
    Gives-if (bytes_eq old item.value) (ok (none, some old)) (err (local_protocol_error 400))
      (λ _. Safe-ok _) (λ _. Safe-local 400)

see_transfer_encoding-Safe : (seen : Bool) (item : Item) → Safe (see_transfer_encoding seen item)
see_transfer_encoding-Safe true item = Safe-local 501
see_transfer_encoding-Safe false item =
    Gives-if (bytes_eq (lower item.value) (codes "chunked"))
      (ok (record item { value = lower item.value })) (err (local_protocol_error 501))
      (λ _. Safe-ok _) (λ _. Safe-local 501)

normalize_header-Safe :
    (parsed : Bool) (seen : Seen) (raw_name value : Bytes)
    → Safe (normalize_header parsed seen (raw_name, value))
unfolding normalize_header
normalize_header-Safe parsed seen raw_name value =
    Gives-then (check_header parsed raw_name value) _ (check_header-Safe parsed raw_name value)
      (λ _ _ _.
        Gives-if (bytes_eq (lower raw_name) (codes "content-length")) _ _
          (λ _.
            Gives-then (parse_content_length value) _ (parse_content_length-Safe value) (λ v _ _.
              Gives-then (see_content_length seen.content_length _) _
                (see_content_length-Safe seen.content_length _) (λ kept _ _. Safe-ok _)))
          (λ _.
            Gives-if (bytes_eq (lower raw_name) (codes "transfer-encoding")) _ _
              (λ _.
                Gives-then (see_transfer_encoding seen.transfer_encoding _) _
                  (see_transfer_encoding-Safe seen.transfer_encoding _) (λ item _ _. Safe-ok _))
              (λ _. Safe-ok _)))

normalize_from-Safe :
    (parsed : Bool) (seen : Seen) (l : List (Bytes × Bytes)) → Safe (normalize_from parsed seen l)
unfolding normalize_from
normalize_from-Safe parsed seen [] = Safe-ok []
normalize_from-Safe parsed seen ((raw_name, value) ∷ l) =
    Gives-then (normalize_header parsed seen (raw_name, value)) _
      (normalize_header-Safe parsed seen raw_name value)
      (λ step _ _.
        Gives-then (normalize_from parsed step.1 l) _ (normalize_from-Safe parsed step.1 l)
          (λ items _ _. Safe-ok _))

pub normalize-Safe :
    (parsed : Bool) (l : List (Bytes × Bytes)) → Safe (normalize_and_validate parsed l)
unfolding normalize_and_validate
normalize-Safe parsed l = normalize_from-Safe parsed nothing_seen l
