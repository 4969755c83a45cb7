-- ===== src/Message/Accepted.antt =====
-- What `normalize_and_validate` (h11/_headers.py) keeps of headers that it has checked.
use h.Prelude.{
  ℕ, ◌≡◌, refl, sym, ap, subst, ◌∙◌, inl, inr, Bool, true, false, if◌then◌else◌, Option, none, some,
  List, [], ◌∷◌, arith, Bool-cases,
}
use mathlib.Core.List.{append-nil}
use h.Prelude.Bytes.{Bytes, bytes_eq, codes, all_bytes, is_digit, lower}
use h.Prelude.Exec.{Result, ok, err, local_protocol_error}
use h.Prelude.Fallible.{>>=-eq-ok, ok-injective}
use h.Abnf.{
  validate, when, one_or_more, is_tchar, is_vchar_or_obs_text, match_token, match_field_value,
}
use h.Headers.Defs.{
  Item, Headers, Seen, check_header, parse_content_length, see_content_length,
  see_transfer_encoding, normalize_header, normalize_from, append_item,
}
use h.Headers.Steps.{Step, other, first_length, same_length, encoding, header-Step}
use h.Grammar.Regex.{done}
use h.Grammar.Classes.{some_run}
use h.Grammar.FieldShape.{IsTrimmed, match_field_value-IsTrimmed}
use h.Grammar.FieldValue.{of_value, all-weaker}

-- An item as it is written and read: its name is a token, its value has no blanks around it.
pub record IsItem (i : Item) : Type 0 where
  pub name : i.name ≡ lower i.raw_name
  pub token : one_or_more is_tchar i.raw_name ≡ true
  pub value : IsTrimmed i.value

-- Items that the loop can append, one after the other.
pub data AreItems : Seen → Headers → Type 0 where
  nil : {s : Seen} → AreItems s []
  item :
      {s t : Seen} {i : Item} {items : Headers}
      → IsItem i
      → Step s (some i) t
      → AreItems t items
      → AreItems s (i ∷ items)

-- What the item keeps of its header.
record Keeps (given value : Bytes) (i : Item) : Type 0 where
  raw_name : i.raw_name ≡ given
  name : i.name ≡ lower given
  kept_value :
      bytes_eq i.name (codes "content-length") ≡ false
      → bytes_eq i.name (codes "transfer-encoding") ≡ false
      → i.value ≡ value

abbrev IfItem : (Item → Type 0) → Option Item → Type 0
IfItem P none = Unit {0}
IfItem P (some i) = P i

pub validated : (b : Bool) (u : Unit {0}) → validate (when b) ≡ ok u → b ≡ true
unfolding validate
validated true u h = refl
validated false u h = cc

Keeps-if :
    (given value : Bytes) (i : Item) (b : Bool) (o : Option Item) (t t' : Option Bytes)
    → if◌then◌else◌ {A = Result (Option Item × Option Bytes)} b
        (ok (none, t))
        (err (local_protocol_error 400))
      ≡ ok (o, t')
    → IfItem (Keeps given value) o
Keeps-if given value i true o t t' h =
    subst (λ (q : Option Item × Option Bytes). IfItem (Keeps given value) q.0)
      (ok-injective (none, t) (o, t') h) tt
Keeps-if given value i false o t t' h = cc

module _ (s s' : Seen) (given value : Bytes) (o : Option Item) where
  length-Keeps :
      (v : Bytes) (k : Option Item × Option Bytes)
      → bytes_eq (lower given) (codes "content-length") ≡ true
      → see_content_length s.content_length
          (record { raw_name = given; name = lower given; value = v })
        ≡ ok k
      → IfItem (Keeps given value) k.0
  length-Keeps v k e h = by_seen s.content_length k h
    where
      i : Item
      i = record { raw_name = given; name = lower given; value = v }

      by_seen :
          (old : Option Bytes) (k : Option Item × Option Bytes)
          → see_content_length old i ≡ ok k
          → IfItem (Keeps given value) k.0
      by_seen none k h =
          subst (λ (q : Option Item × Option Bytes). IfItem (Keeps given value) q.0)
            (ok-injective (some i, some v) k h)
            (record { raw_name = refl; name = refl; kept_value = λ x y. absurd (cc (x, e)) })
      by_seen (some old) k h = Keeps-if given value i (bytes_eq old v) k.0 (some old) k.1 h

  encoding-Keeps :
      (j : Item)
      → bytes_eq (lower given) (codes "transfer-encoding") ≡ true
      → see_transfer_encoding s.transfer_encoding
          (record { raw_name = given; name = lower given; value = value })
        ≡ ok j
      → Keeps given value j
  encoding-Keeps j e h = by_seen s.transfer_encoding h
    where
      i : Item
      i = record { raw_name = given; name = lower given; value = value }

      lowered :
          (b : Bool)
          → (if b then ok (record i { value = lower value }) else err (local_protocol_error 501))
            ≡ ok j
          → Keeps given value j
      lowered true h =
          subst (Keeps given value) (ok-injective (record i { value = lower value }) j h)
            (record { raw_name = refl; name = refl; kept_value = λ x y. absurd (cc (y, e)) })
      lowered false h = cc

      by_seen : (b : Bool) → see_transfer_encoding b i ≡ ok j → Keeps given value j
      by_seen true h = cc
      by_seen false h = lowered (bytes_eq (lower value) (codes "chunked")) h

  header-Keeps :
      normalize_header false s (given, value) ≡ ok (o, s')
      → (match_token given ≡ true) × (match_field_value value ≡ true) × IfItem (Keeps given value) o
  unfolding normalize_header
  header-Keeps h =
      let (u, e, r) = >>=-eq-ok (check_header false given value) _ h in
      let (u₁, e₁, e₂) = >>=-eq-ok (validate (when (match_token given))) _ e in
      let name = lower given in
      (
        validated _ u₁ e₁,
        validated _ u e₂,
        elim (Bool-cases (bytes_eq name (codes "content-length"))) [
          | inl is_length ↦
              let (v, ev, r₁) = >>=-eq-ok (parse_content_length value) _ (rw is_length at r) in
              let (k, ek, r₂) = >>=-eq-ok (see_content_length s.content_length _) _ r₁ in
              subst (λ (q : Option Item × Seen). IfItem (Keeps given value) q.0)
                (ok-injective (k.0, record s { content_length = k.1 }) (o, s') r₂)
                (length-Keeps v k is_length ek)
          | inr no_length ↦ elim (Bool-cases (bytes_eq name (codes "transfer-encoding"))) [
            | inl is_encoding ↦
                let (j, ej, r₁) =
                  >>=-eq-ok (see_transfer_encoding s.transfer_encoding _) _
                    (rw (no_length, is_encoding) at r) in
                subst (λ (q : Option Item × Seen). IfItem (Keeps given value) q.0)
                  (ok-injective (some j, record s { transfer_encoding = true }) (o, s') r₁)
                  (encoding-Keeps j is_encoding ej)
            | inr no_encoding ↦
                let i : Item = record { raw_name = given; name = name; value = value } in
                subst (λ (q : Option Item × Seen). IfItem (Keeps given value) q.0)
                  (ok-injective (some i, s) (o, s') (rw (no_length, no_encoding) at r))
                  (record { raw_name = refl; name = refl; kept_value = λ x y. refl })
          ]
        ],
      )

-- A value that the loop gives is one that the header could have had.
digit_visible : (c : ℕ) → is_digit c ≡ true → is_vchar_or_obs_text c ≡ true
digit_visible c h = ground arith

digits-IsTrimmed : (v : Bytes) → one_or_more is_digit v ≡ true → IsTrimmed v
digits-IsTrimmed [] h = absurd (cc)
digits-IsTrimmed (c ∷ v) h =
    let digits : all_bytes is_digit (c ∷ v) ≡ true = unfold all_bytes in h in
    let visible = all-weaker is_digit is_vchar_or_obs_text (c ∷ v) digit_visible digits in
    let run : one_or_more is_vchar_or_obs_text (c ∷ v) ≡ true = unfold all_bytes in visible in
    (of_value (c ∷ v) [] (
      inl (
        c ∷ v,
        [],
        [],
        [],
        sym (append-nil (c ∷ v)),
        refl,
        some_run is_vchar_or_obs_text (c ∷ v) run,
        (done, refl),
      ))).0

chunked_matches : match_field_value (codes "chunked") ≡ true
unfolding match_field_value
chunked_matches = refl

next_value-IsTrimmed :
    (s t : Seen) (given value : Bytes) (i : Item)
    → Step s (some i) t
    → Keeps given value i
    → IsTrimmed value
    → IsTrimmed i.value
next_value-IsTrimmed s t given value i (other a b) k h = subst IsTrimmed (sym (k.kept_value a b)) h
next_value-IsTrimmed s t given value i (first_length e n l) k h = digits-IsTrimmed i.value l.digits
next_value-IsTrimmed s t given value i (encoding e n v) k h =
    subst IsTrimmed (sym v) (match_field_value-IsTrimmed (codes "chunked") chunked_matches)

-- What is accepted can be appended item by item.
pub normalize-AreItems :
    (s : Seen) (l : List (Bytes × Bytes)) (items : Headers)
    → normalize_from false s l ≡ ok items
    → AreItems s items
unfolding normalize_from match_token
normalize-AreItems s [] items h = subst (AreItems s) (ok-injective [] items h) nil
normalize-AreItems s ((given, value) ∷ l) items h =
    let (step, e, r) = >>=-eq-ok (normalize_header false s (given, value)) _ h in
    let (rest, e', r') = >>=-eq-ok (normalize_from false step.1 l) _ r in
    let (token, valid, kept) = header-Keeps s step.1 given value step.0 e in
    subst (AreItems s) (ok-injective (append_item step.0 rest) items r') (
      appended step.0 step.1 rest token valid (header-Step false s step.1 given value step.0 e) kept
        (normalize-AreItems step.1 l rest e'))
  where
    appended :
        (o : Option Item) (t : Seen) (rest : Headers)
        → match_token given ≡ true
        → match_field_value value ≡ true
        → Step s o t
        → IfItem (Keeps given value) o
        → AreItems t rest
        → AreItems s (append_item o rest)
    appended none t rest token valid (same_length e) k a = a
    appended (some i) t rest token valid st k a =
        item
          (record {
            name = k.name ∙ ap lower (sym k.raw_name);
            token = subst (λ x. one_or_more is_tchar x ≡ true) (sym k.raw_name) token;
            value =
                next_value-IsTrimmed s t given value i st k
                  (match_field_value-IsTrimmed value valid);
          })
          st a
