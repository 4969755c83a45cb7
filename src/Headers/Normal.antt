-- ===== src/Headers/Normal.antt =====
-- What `normalize_and_validate` (h11/_headers.py) leaves of the two framing headers.
use h.Prelude.{
  if◌then◌else◌, ◌≡◌, refl, sym, ap, ◌∙◌, subst, ◌⊎◌, inl, inr, Bool, true, false, Option, none,
  some, List, [], ◌∷◌, ◌++◌, map,
}
use h.Prelude.Bytes.{Bytes, bytes_eq, codes, lower, strip, split, bytes_eq_refl}
use h.Prelude.Exec.{ok}
use h.Prelude.Fallible.{>>=-eq-ok, ok-injective}
use h.Headers.Defs.{
  Item, Headers, Seen, nothing_seen, normalize_header, normalize_from, normalize_and_validate,
  append_item, get_comma_header, nonempty,
}
use h.Headers.Digits.{comma_parts-digits}
use h.Headers.Steps.{IsLength, Step, header-Step, other, first_length, same_length, encoding}

-- The values of the two headers that a list of headers has, where some were seen before it.
abbrev LengthValues : Option Bytes → List Bytes → Type 0
LengthValues (some old) values = values ≡ []
LengthValues none values = (values ≡ []) ⊎ ((v : Bytes) × (values ≡ v ∷ []) × IsLength v)

abbrev EncodingValues : Bool → List Bytes → Type 0
EncodingValues true values = values ≡ []
EncodingValues false values = (values ≡ []) ⊎ (values ≡ codes "chunked" ∷ [])

-- The values as they stand, empty ones included.
abbrev pub values_of : Headers → Bytes → List Bytes
values_of [] name = []
values_of (item ∷ items) name =
    let rest = values_of items name in if bytes_eq item.name name then item.value ∷ rest else rest

pub record IsNormalAfter (s : Seen) (items : Headers) : Type 0 where
  pub lengths : LengthValues s.content_length (get_comma_header items (codes "content-length"))
  pub encodings :
      EncodingValues s.transfer_encoding (get_comma_header items (codes "transfer-encoding"))
  pub length_values : LengthValues s.content_length (values_of items (codes "content-length"))
  pub encoding_values :
      EncodingValues s.transfer_encoding (values_of items (codes "transfer-encoding"))

-- One header more: it is found under its name, and passed over under another.
found_value :
    (i : Item) (items : Headers) (name : Bytes)
    → i.name ≡ name
    → get_comma_header (i ∷ items) name
      ≡ nonempty (map strip (split b',' (lower i.value))) ++ get_comma_header items name
unfolding get_comma_header
found_value i items name e = rw (e, bytes_eq_refl name)

other_value :
    (i : Item) (items : Headers) (name : Bytes)
    → bytes_eq i.name name ≡ false
    → get_comma_header (i ∷ items) name ≡ get_comma_header items name
unfolding get_comma_header
other_value i items name e = rw e

one_value :
    (i : Item) (items : Headers) (name : Bytes)
    → i.name ≡ name
    → values_of items name ≡ []
    → values_of (i ∷ items) name ≡ i.value ∷ []
one_value i items name e h = rw (e, bytes_eq_refl name, h) refl

passed_over :
    (i : Item) (items : Headers) (name : Bytes)
    → bytes_eq i.name name ≡ false
    → values_of (i ∷ items) name ≡ values_of items name
passed_over i items name e = rw e refl

normal_nil : (s : Seen) → IsNormalAfter s []
unfolding get_comma_header
normal_nil s = record {
  lengths = none_left s.content_length;
  encodings = no_coding s.transfer_encoding;
  length_values = none_left s.content_length;
  encoding_values = no_coding s.transfer_encoding;
}
  where
    none_left : (o : Option Bytes) → LengthValues o []
    none_left none = inl refl
    none_left (some old) = refl

    no_coding : (b : Bool) → EncodingValues b []
    no_coding true = refl
    no_coding false = inl refl

length_cons :
    (i : Item) (items : Headers)
    → i.name ≡ codes "content-length"
    → IsLength i.value
    → get_comma_header items (codes "content-length") ≡ []
    → get_comma_header (i ∷ items) (codes "content-length") ≡ i.value ∷ []
length_cons i items e l h =
    found_value i items (codes "content-length") e
    ∙ ap (λ vs. nonempty (map strip (split b',' (lower i.value))) ++ vs) h
    ∙ rw (comma_parts-digits i.value l.digits) refl

encoding_cons :
    (i : Item) (items : Headers)
    → i.name ≡ codes "transfer-encoding"
    → i.value ≡ codes "chunked"
    → get_comma_header items (codes "transfer-encoding") ≡ []
    → get_comma_header (i ∷ items) (codes "transfer-encoding") ≡ codes "chunked" ∷ []
encoding_cons i items e v h =
    found_value i items (codes "transfer-encoding") e
    ∙ ap (λ vs. nonempty (map strip (split b',' (lower i.value))) ++ vs) h
    ∙ ap (λ w. nonempty (map strip (split b',' (lower w))) ++ []) v
    ∙ (unfold lower split strip in refl)

named_other :
    (i : Item) (items : Headers) (name name' : Bytes)
    → i.name ≡ name
    → bytes_eq name name' ≡ false
    → get_comma_header (i ∷ items) name' ≡ get_comma_header items name'
named_other i items name name' e h = other_value i items name' (rw e h)

normal_cons :
    {s s' : Seen} {o : Option Item} (items : Headers)
    → Step s o s'
    → IsNormalAfter s' items
    → IsNormalAfter s (append_item o items)
normal_cons items (other {s = s} {i = i} a b) n = record {
  lengths =
      subst (LengthValues s.content_length) (sym (other_value i items (codes "content-length") a))
        n.lengths;
  encodings =
      subst (EncodingValues s.transfer_encoding)
        (sym (other_value i items (codes "transfer-encoding") b)) n.encodings;
  length_values =
      subst (LengthValues s.content_length) (sym (passed_over i items (codes "content-length") a))
        n.length_values;
  encoding_values =
      subst (EncodingValues s.transfer_encoding)
        (sym (passed_over i items (codes "transfer-encoding") b)) n.encoding_values;
}
normal_cons items (first_length {s = s} {i = i} e m l) n = record {
  lengths =
      subst (λ o. LengthValues o (get_comma_header (i ∷ items) (codes "content-length"))) (sym e)
        (inr (i.value, length_cons i items m l n.lengths, l));
  encodings =
      subst (EncodingValues s.transfer_encoding)
        (sym (named_other i items (codes "content-length") (codes "transfer-encoding") m refl))
        n.encodings;
  length_values =
      subst (λ o. LengthValues o (values_of (i ∷ items) (codes "content-length"))) (sym e)
        (inr (i.value, one_value i items (codes "content-length") m n.length_values, l));
  encoding_values =
      subst (EncodingValues s.transfer_encoding)
        (sym (passed_over i items (codes "transfer-encoding") (rw m refl))) n.encoding_values;
}
normal_cons items (same_length e) n = n
normal_cons items (encoding {s = s} {i = i} e m v) n = record {
  lengths =
      subst (LengthValues s.content_length)
        (sym (named_other i items (codes "transfer-encoding") (codes "content-length") m refl))
        n.lengths;
  encodings =
      subst (λ b. EncodingValues b (get_comma_header (i ∷ items) (codes "transfer-encoding")))
        (sym e) (inr (encoding_cons i items m v n.encodings));
  length_values =
      subst (LengthValues s.content_length)
        (sym (passed_over i items (codes "content-length") (rw m refl))) n.length_values;
  encoding_values =
      subst (λ b. EncodingValues b (values_of (i ∷ items) (codes "transfer-encoding"))) (sym e)
        (inr
          (one_value i items (codes "transfer-encoding") m n.encoding_values ∙ ap (λ w. w ∷ []) v));
}

from-IsNormal :
    (parsed : Bool) (s : Seen) (l : List (Bytes × Bytes)) (items : Headers)
    → normalize_from parsed s l ≡ ok items
    → IsNormalAfter s items
unfolding normalize_from
from-IsNormal parsed s [] items h = subst (IsNormalAfter s) (ok-injective [] items h) (normal_nil s)
from-IsNormal parsed s ((raw_name, value) ∷ l) items h =
    let (p, e, r) = >>=-eq-ok (normalize_header parsed s (raw_name, value)) _ h in
    let (rest, e', r') = >>=-eq-ok (normalize_from parsed p.1 l) _ r in
    subst (IsNormalAfter s) (ok-injective (append_item p.0 rest) items r') (
      normal_cons rest (header-Step parsed s p.1 raw_name value p.0 e)
        (from-IsNormal parsed p.1 l rest e'))

pub normalize-IsNormal :
    (parsed : Bool) (l : List (Bytes × Bytes)) (items : Headers)
    → normalize_and_validate parsed l ≡ ok items
    → IsNormalAfter nothing_seen items
unfolding normalize_and_validate
normalize-IsNormal parsed l items h = from-IsNormal parsed nothing_seen l items h
