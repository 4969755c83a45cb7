-- ===== src/Headers/Steps.antt =====
-- One header in the loop of `normalize_and_validate` (h11/_headers.py).
use h.Prelude.{
  ◌≡◌, refl, subst, inl, inr, Bool, true, false, ltb, if◌then◌else◌, Option, none, some, map,
  Bool-cases,
}
use h.Prelude.Lists.{length}
use h.Prelude.Bytes.{Bytes, bytes_eq, codes, is_digit, lower, strip, split, eq_of_bytes_eq}
use h.Prelude.Exec.{ok, err, local_protocol_error}
use h.Prelude.Fallible.{>>=-eq-ok, ok-injective}
use h.Abnf.{one_or_more, validate, when}
use h.Headers.Defs.{
  Item, Seen, check_header, parse_content_length, single_length, check_length, see_content_length,
  see_transfer_encoding, normalize_header, content_length_max_digits,
}

-- A value that `int` reads: one to twenty digits.
pub record IsLength (v : Bytes) : Type 0 where
  pub digits : one_or_more is_digit v ≡ true
  pub short : ltb 20 (length v) ≡ false

-- What one header does to what was seen, and what is appended for it.
pub data Step : Seen → Option Item → Seen → Type 0 where
  other :
      {s : Seen} {i : Item}
      → bytes_eq i.name (codes "content-length") ≡ false
      → bytes_eq i.name (codes "transfer-encoding") ≡ false
      → Step s (some i) s
  first_length :
      {s : Seen} {i : Item}
      → s.content_length ≡ none
      → i.name ≡ codes "content-length"
      → IsLength i.value
      → Step s (some i) (record s { content_length = some i.value })
  same_length : {s : Seen} {v : Bytes} → s.content_length ≡ some v → Step s none s
  encoding :
      {s : Seen} {i : Item}
      → s.transfer_encoding ≡ false
      → i.name ≡ codes "transfer-encoding"
      → i.value ≡ codes "chunked"
      → Step s (some i) (record s { transfer_encoding = true })

when-true : (b : Bool) (u : Unit {0}) → validate (when b) ≡ ok u → b ≡ true
unfolding validate
when-true true u h = refl
when-true false u h = cc

check_length-IsLength : (v w : Bytes) → check_length v ≡ ok w → IsLength w
check_length-IsLength v w h =
    let (u, digits, r) =
      >>=-eq-ok (validate (when (one_or_more is_digit v)))
        (λ _.
          if ltb content_length_max_digits (length v) then err (local_protocol_error 400) else ok v)
        h in
    elim (Bool-cases (ltb content_length_max_digits (length v))) [
      | inl long ↦ absurd (long_refused (ltb content_length_max_digits (length v)) v w long r)
      | inr short ↦
          let q : v ≡ w = kept (ltb content_length_max_digits (length v)) v w short r in
          subst IsLength q (record { digits = when-true _ u digits; short = short })
    ]
  where
    long_refused :
        (b : Bool) (x y : Bytes)
        → b ≡ true
        → (if b then err (local_protocol_error 400) else ok x) ≡ ok y
        → ⊥
    long_refused true x y t e = cc
    long_refused false x y t e = cc

    kept :
        (b : Bool) (x y : Bytes)
        → b ≡ false
        → (if b then err (local_protocol_error 400) else ok x) ≡ ok y
        → x ≡ y
    kept true x y t e = cc
    kept false x y t e = ok-injective x y e

module _ (s : Seen) (i : Item) where
  length-Step :
      (o : Option Bytes) (p : Option Item × Option Bytes)
      → s.content_length ≡ o
      → IsLength i.value
      → i.name ≡ codes "content-length"
      → see_content_length o i ≡ ok p
      → Step s p.0 (record s { content_length = p.1 })
  length-Step none p e l n h =
      subst (λ q. Step s q.0 (record s { content_length = q.1 }))
        (ok-injective (some i, some i.value) p h) (first_length e n l)
  length-Step (some old) p e l n h = elim (Bool-cases (bytes_eq old i.value)) [
    | inl same ↦
        subst (λ q. Step s q.0 (record s { content_length = q.1 }))
          (ok-injective (none, some old) p (rw same at h))
          (subst (λ x. Step s none (record s { content_length = x })) e (same_length e))
    | inr differs ↦ cc (rw differs at h)
  ]

  encoding-Step :
      (b : Bool) (j : Item)
      → s.transfer_encoding ≡ b
      → i.name ≡ codes "transfer-encoding"
      → see_transfer_encoding b i ≡ ok j
      → Step s (some j) (record s { transfer_encoding = true })
  encoding-Step true j e n h = cc
  encoding-Step false j e n h = elim (Bool-cases (bytes_eq (lower i.value) (codes "chunked"))) [
    | inl same ↦
        subst (λ k. Step s (some k) (record s { transfer_encoding = true }))
          (ok-injective (record i { value = lower i.value }) j (rw same at h))
          (encoding e n (eq_of_bytes_eq (lower i.value) (codes "chunked") same))
    | inr differs ↦ cc (rw differs at h)
  ]

parse-IsLength : (value v : Bytes) → parse_content_length value ≡ ok v → IsLength v
unfolding parse_content_length
parse-IsLength value v h =
    let (v', e, r) = >>=-eq-ok (single_length (map strip (split b',' value))) _ h in
    check_length-IsLength v' v r

pub header-Step :
    (parsed : Bool) (s s' : Seen) (raw_name value : Bytes) (o : Option Item)
    → normalize_header parsed s (raw_name, value) ≡ ok (o, s')
    → Step s o s'
unfolding normalize_header
header-Step parsed s s' raw_name value o h =
    let (u, e, r) = >>=-eq-ok (check_header parsed raw_name value) _ h in
    let name = lower raw_name in
    elim (Bool-cases (bytes_eq name (codes "content-length"))) [
      | inl is_length ↦
          let (v, ev, r₁) = >>=-eq-ok (parse_content_length value) _ (rw is_length at r) in
          let i : Item = record { raw_name = raw_name; name = name; value = v } in
          let (k, ek, r₂) = >>=-eq-ok (see_content_length s.content_length i) _ r₁ in
          subst (λ (q : Option Item × Seen). Step s q.0 q.1)
            (ok-injective (k.0, record s { content_length = k.1 }) (o, s') r₂)
            (length-Step s i s.content_length k refl (parse-IsLength value v ev)
              (eq_of_bytes_eq name (codes "content-length") is_length) ek)
      | inr no_length ↦ elim (Bool-cases (bytes_eq name (codes "transfer-encoding"))) [
        | inl is_encoding ↦
            let i : Item = record { raw_name = raw_name; name = name; value = value } in
            let (j, ej, r₁) =
              >>=-eq-ok (see_transfer_encoding s.transfer_encoding i) _
                (rw (no_length, is_encoding) at r) in
            subst (λ (q : Option Item × Seen). Step s q.0 q.1)
              (ok-injective (some j, record s { transfer_encoding = true }) (o, s') r₁)
              (encoding-Step s i s.transfer_encoding j refl
                (eq_of_bytes_eq name (codes "transfer-encoding") is_encoding) ej)
        | inr no_encoding ↦
            let i : Item = record { raw_name = raw_name; name = name; value = value } in
            subst (λ (q : Option Item × Seen). Step s q.0 q.1)
              (ok-injective (some i, s) (o, s') (rw (no_length, no_encoding) at r))
              (other no_length no_encoding)
      ]
    ]
