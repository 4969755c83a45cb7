-- ===== src/Message/Again.antt =====
-- Headers that are normalised for a second time (h11/_headers.py), the `Host` headers first, as
-- `write_headers` (h11/_writers.py) puts them.
use h.Prelude.{
  ◌+◌, ◌≡◌, refl, sym, ap, subst, ◌∙◌, inl, inr, Bool, true, false, not, List, if◌then◌else◌, some,
  [], ◌∷◌, ◌++◌, arith, Bool-cases,
}
use h.Prelude.Bytes.{Bytes, bytes_eq, codes, all_bytes, is_digit, lower, eq_of_bytes_eq}
use h.Prelude.Exec.{ok}
use h.Abnf.{validate, match_token}
use h.Grammar.FieldShape.{IsTrimmed-match_field_value}
use h.Headers.Defs.{
  Item, Headers, Seen, raw_items, parse_content_length, normalize_header, normalize_from,
  check_header, normalize_and_validate, nothing_seen,
}
use h.Headers.Steps.{IsLength, Step, other, first_length, encoding}
use h.Headers.Digits.{split-digits, strip-digits}
use h.Events.{count_headers}
use h.Message.Accepted.{normalize-AreItems, IsItem, AreItems, nil, item}

-- One of the two loops of `write_headers`.
abbrev pub select : Bool → Headers → Headers
select is_host [] = []
select is_host (i ∷ items) =
    let rest = select is_host items in
    let matches = bytes_eq i.name (codes "host") in
    if (if is_host then matches else not matches) then i ∷ rest else rest

abbrev pub host_first : Headers → Headers
host_first items = select true items ++ select false items

parse-again : (v : Bytes) → IsLength v → parse_content_length v ≡ ok v
unfolding parse_content_length validate
parse-again [] l = absurd (cc (l.digits))
parse-again (x ∷ v) l =
    let digits : all_bytes is_digit (x ∷ v) ≡ true = unfold all_bytes in l.digits in
    rw (split-digits (x ∷ v) digits, strip-digits (x ∷ v) digits, l.digits, l.short) refl

-- The items pass both checks of names and values again.
check_header-again :
    (parsed : Bool) (i : Item) → IsItem i → check_header parsed i.raw_name i.value ≡ ok tt
unfolding validate match_token
check_header-again true i n = refl
check_header-again false i n = rw (n.token, IsTrimmed-match_field_value i.value n.value) refl

normalize_header_again :
    (parsed : Bool) (s t : Seen) (i : Item)
    → IsItem i
    → Step s (some i) t
    → normalize_header parsed s (i.raw_name, i.value) ≡ ok (some i, t)
unfolding normalize_header
normalize_header_again parsed s t i n (other a b) =
    rw (check_header-again parsed i n, ← n.name, a, b) refl
normalize_header_again parsed s t i n (first_length e m l) =
    let is_length : bytes_eq i.name (codes "content-length") ≡ true = rw m refl in
    rw (check_header-again parsed i n, ← n.name, is_length, parse-again i.value l, e) refl
normalize_header_again parsed s t i n (encoding e m v) =
    let no_length : bytes_eq i.name (codes "content-length") ≡ false = rw m refl in
    let is_encoding : bytes_eq i.name (codes "transfer-encoding") ≡ true = rw m refl in
    let same : lower i.value ≡ i.value = ap lower v ∙ chunked_lower ∙ sym v in
    let is_chunked : bytes_eq i.value (codes "chunked") ≡ true = rw v refl in
    rw (check_header-again parsed i n, ← n.name, no_length, is_encoding, e, same, is_chunked) refl
  where
    chunked_lower : lower (codes "chunked") ≡ codes "chunked"
    chunked_lower = unfold lower in refl

pub normalize-again :
    (parsed : Bool) (s : Seen) (items : Headers)
    → AreItems s items
    → normalize_from parsed s (raw_items items) ≡ ok items
unfolding normalize_from raw_items
normalize-again parsed s [] nil = refl
normalize-again parsed s (i ∷ items) (item {t = t} n st a) =
    rw (normalize_header_again parsed s t i n st, normalize-again parsed t items a) refl

-- Where `normalize_and_validate` returns headers for raw headers that are not parsed yet, it returns
-- the same headers for their raw items, whether these count as parsed or not.
pub normalize_idempotent :
    (parsed : Bool) (l : List (Bytes × Bytes)) (items : Headers)
    → normalize_and_validate false l ≡ ok items
    → normalize_and_validate parsed (raw_items items) ≡ ok items
unfolding normalize_and_validate
normalize_idempotent parsed l items h =
    normalize-again parsed nothing_seen items (normalize-AreItems nothing_seen l items h)

-- A `Host` header is seen by no test of the loop.
no_framing :
    (name : Bytes)
    → bytes_eq name (codes "host") ≡ true
    → (bytes_eq name (codes "content-length") ≡ false)
      × (bytes_eq name (codes "transfer-encoding") ≡ false)
no_framing name h =
    subst
      (λ x.
        (bytes_eq x (codes "content-length") ≡ false)
        × (bytes_eq x (codes "transfer-encoding") ≡ false))
      (sym (eq_of_bytes_eq name (codes "host") h)) (refl, refl)

host-Step :
    (s t : Seen) (i : Item) → bytes_eq i.name (codes "host") ≡ true → Step s (some i) t → t ≡ s
host-Step s t i h (other a b) = refl
host-Step s t i h (first_length e m l) = absurd (cc ((no_framing i.name h).0, is_length))
  where
    is_length : bytes_eq i.name (codes "content-length") ≡ true
    is_length = rw m refl
host-Step s t i h (encoding e m v) = absurd (cc ((no_framing i.name h).1, is_encoding))
  where
    is_encoding : bytes_eq i.name (codes "transfer-encoding") ≡ true
    is_encoding = rw m refl

others-AreItems : (s : Seen) (items : Headers) → AreItems s items → AreItems s (select false items)
others-AreItems s [] nil = nil
others-AreItems s (i ∷ items) (item {t = t} n st a) =
    elim (Bool-cases (bytes_eq i.name (codes "host"))) [
      | inl host ↦ rw host (
          subst (λ x. AreItems x (select false items)) (host-Step s t i host st)
            (others-AreItems t items a))
      | inr no_host ↦ rw no_host (item n st (others-AreItems t items a))
    ]

-- Items that are named `host`.
abbrev AreHosts : Headers → Type 0
AreHosts [] = Unit {0}
AreHosts (i ∷ items) = IsItem i × (bytes_eq i.name (codes "host") ≡ true) × AreHosts items

hosts-AreHosts : (s : Seen) (items : Headers) → AreItems s items → AreHosts (select true items)
hosts-AreHosts s [] nil = tt
hosts-AreHosts s (i ∷ items) (item {t = t} n st a) =
    elim (Bool-cases (bytes_eq i.name (codes "host"))) [
      | inl host ↦ rw host (n, host, hosts-AreHosts t items a)
      | inr no_host ↦ rw no_host (hosts-AreHosts t items a)
    ]

in_front :
    (s : Seen) (hosts items : Headers)
    → AreHosts hosts
    → AreItems s items
    → AreItems s (hosts ++ items)
in_front s [] items h a = a
in_front s (i ∷ hosts) items (n, host, h) a =
    let (x, y) = no_framing i.name host in item n (other x y) (in_front s hosts items h a)

pub host_first-AreItems :
    (s : Seen) (items : Headers) → AreItems s items → AreItems s (host_first items)
host_first-AreItems s items a =
    in_front s (select true items) (select false items) (hosts-AreHosts s items a)
      (others-AreItems s items a)

count-append :
    (name : Bytes) (a b : Headers)
    → count_headers name (a ++ b) ≡ count_headers name a + count_headers name b
unfolding count_headers
count-append name [] b = omega arith
count-append name (i ∷ a) b = elim (Bool-cases (bytes_eq i.name name)) [
  | inl same ↦ rw same (omega (arith, count-append name a b))
  | inr differs ↦ rw differs (count-append name a b)
]

count-select :
    (items : Headers)
    → count_headers (codes "host") (select true items)
        + count_headers (codes "host") (select false items)
      ≡ count_headers (codes "host") items
unfolding count_headers
count-select [] = refl
count-select (i ∷ items) = elim (Bool-cases (bytes_eq i.name (codes "host"))) [
  | inl host ↦ rw (host, host) (omega (arith, count-select items))
  | inr no_host ↦ rw (no_host, no_host) (count-select items)
]

-- There are as many `Host` headers.
pub count-host_first :
    (items : Headers)
    → count_headers (codes "host") (host_first items) ≡ count_headers (codes "host") items
count-host_first items =
    count-append (codes "host") (select true items) (select false items) ∙ count-select items
