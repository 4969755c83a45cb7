-- ===== src/Headers/Defs.antt =====
-- `Headers` of h11/_headers.py, and the functions over it.
use h.Prelude.{
  ℕ, Bool, true, false, ltb, ◌&&◌, ◌||◌, if◌then◌else◌, Option, none, some, List, [], ◌∷◌, ◌++◌,
  map,
}
use h.Prelude.Lists.{length}
use h.Prelude.Bytes.{
  Bytes, bytes_eq, bytes_lt, codes, all_bytes, is_digit, lower, title, strip, split,
}
use h.Prelude.Exec.{Result, ok, err, local_protocol_error}
use h.Prelude.Fallible.{◌>>=◌, ◌>>◌}
use h.Abnf.{validate, when, one_or_more, match_token, match_field_value}

-- An entry of `_full_items`: the name as it was given, the name in lower case, and the value.
pub record Item : Type 0 where
  pub raw_name : Bytes
  pub name : Bytes
  pub value : Bytes

abbrev pub Headers : Type 0
Headers = List Item

-- `raw_items()`
unfoldable pub raw_items : Headers → List (Bytes × Bytes)
raw_items items = map (λ i. (i.raw_name, i.value)) items

abbrev pub content_length_max_digits : ℕ
content_length_max_digits = 20

-- Whether the header is out of the parser; if it is not, it is checked here.
abbrev pub check_header : Bool → Bytes → Bytes → Result (Unit {0})
check_header true name value = ok tt
check_header false name value =
    validate (when (match_token name)) >> validate (when (match_field_value value))

-- `{length.strip() for length in value.split(b",")}`, where it has one member.
abbrev pub all_equal : Bytes → List Bytes → Bool
all_equal a [] = true
all_equal a (b ∷ bs) = bytes_eq a b && all_equal a bs

abbrev pub single_length : List Bytes → Result Bytes
single_length [] = err (local_protocol_error 400)
single_length (a ∷ r) = if all_equal a r then ok a else err (local_protocol_error 400)

-- `validate(_content_length_re, value)` and the bound on its digits.
abbrev pub check_length : Bytes → Result Bytes
check_length value = do
  validate (when (one_or_more is_digit value))
  if ltb content_length_max_digits (length value) then err (local_protocol_error 400) else ok value

unfoldable pub parse_content_length : Bytes → Result Bytes
unfolding split strip validate all_bytes
parse_content_length value = do
  value' ← single_length (map strip (split b',' value))
  check_length value'

-- What the loop keeps, beside the headers that it has appended.
pub record Seen : Type 0 where
  pub content_length : Option Bytes
  pub transfer_encoding : Bool

-- `seen_content_length`: the first is kept, the same again is dropped.
abbrev pub see_content_length : Option Bytes → Item → Result (Option Item × Option Bytes)
see_content_length none item = ok (some item, some item.value)
see_content_length (some old) item =
    if bytes_eq old item.value then ok (none, some old) else err (local_protocol_error 400)

-- `transfer-encoding`, with its value in lower case.
abbrev pub see_transfer_encoding : Bool → Item → Result Item
see_transfer_encoding true item = err (local_protocol_error 501)
see_transfer_encoding false item =
    if bytes_eq (lower item.value) (codes "chunked")
    then ok (record item { value = lower item.value })
    else err (local_protocol_error 501)

-- The body of the loop: the header to append, if any, and what was seen.
unfoldable pub normalize_header : Bool → Seen → Bytes × Bytes → Result (Option Item × Seen)
unfolding validate match_token match_field_value lower parse_content_length
normalize_header parsed seen (raw_name, value) = do
  check_header parsed raw_name value
  let name = lower raw_name
  if bytes_eq name (codes "content-length")
      then (do
        v ← parse_content_length value
        kept ←
            see_content_length seen.content_length
              (record { raw_name = raw_name; name = name; value = v })
        ok (kept.0, record seen { content_length = kept.1 }))
      else if bytes_eq name (codes "transfer-encoding")
      then (do
        item ←
            see_transfer_encoding seen.transfer_encoding
              (record { raw_name = raw_name; name = name; value = value })
        ok (some item, record seen { transfer_encoding = true }))
      else ok (some (record { raw_name = raw_name; name = name; value = value }), seen)

abbrev pub append_item : Option Item → Headers → Headers
append_item none items = items
append_item (some item) items = item ∷ items

unfoldable pub normalize_from : Bool → Seen → List (Bytes × Bytes) → Result Headers
normalize_from parsed seen [] = ok []
normalize_from parsed seen (header ∷ headers) = do
  step ← normalize_header parsed seen header
  items ← normalize_from parsed step.1 headers
  ok (append_item step.0 items)

abbrev pub nothing_seen : Seen
nothing_seen = record { content_length = none; transfer_encoding = false }

unfoldable pub normalize_and_validate : Bool → List (Bytes × Bytes) → Result Headers
unfolding normalize_from normalize_header
normalize_and_validate parsed headers = normalize_from parsed nothing_seen headers

-- `for found_split_value in ...: if found_split_value: out.append(...)`
abbrev pub nonempty : List Bytes → List Bytes
nonempty [] = []
nonempty ([] ∷ vs) = nonempty vs
nonempty ((c ∷ v) ∷ vs) = (c ∷ v) ∷ nonempty vs

unfoldable pub get_comma_header : Headers → Bytes → List Bytes
unfolding split strip lower
get_comma_header [] name = []
get_comma_header (item ∷ items) name =
    let rest = get_comma_header items name in
    if bytes_eq item.name name
    then nonempty (map strip (split b',' (lower item.value))) ++ rest
    else rest

-- The headers of other names, as they were given.
unfoldable pub other_headers : Headers → Bytes → List (Bytes × Bytes)
other_headers [] name = []
other_headers (item ∷ items) name =
    let rest = other_headers items name in
    if bytes_eq item.name name then rest else (item.raw_name, item.value) ∷ rest

unfoldable pub set_comma_header : Headers → Bytes → List Bytes → Result Headers
unfolding other_headers title normalize_and_validate
set_comma_header headers name new_values =
    normalize_and_validate false
      (other_headers headers name ++ map (λ new_value. (title name, new_value)) new_values)

-- `x in xs`
abbrev pub is_in : Bytes → List Bytes → Bool
is_in x [] = false
is_in x (y ∷ ys) = bytes_eq x y || is_in x ys

-- The request is given by its version and its headers.
unfoldable pub has_expect_100_continue : Bytes → Headers → Bool
unfolding bytes_lt get_comma_header
has_expect_100_continue http_version headers =
    if bytes_lt http_version (codes "1.1")
    then false
    else is_in (codes "100-continue") (get_comma_header headers (codes "expect"))
