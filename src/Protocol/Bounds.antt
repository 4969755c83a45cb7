-- ===== src/Protocol/Bounds.antt =====
-- The numbers that are read from the peer (h11/_connection.py, h11/_readers.py), as ranges.
use h.Prelude.{
  ℕ, suc, ◌+◌, ◌*◌, ◌-◌, ◌^◌, ◌≤◌, ◌<◌, ◌≡◌, ap, ◌∙◌, subst, inl, inr, Bool, true, false, ltb, ◌&&◌,
  Option, some, [], ◌∷◌, arith, Bool-cases,
}
use native.Mathlib.Nat.{
  mul-le-mul_right, pow-le-pow_right, mul_assoc, mul_comm, pow-suc, lt_of_lt_of_le,
}
use h.Prelude.Lists.{length}
use h.Prelude.Bytes.{Bytes, all_bytes, is_digit, decimal, hex_digit, hexadecimal}
use h.Prelude.Exec.{Result, ok}
use h.Abnf.{one_or_more, is_hexdig}
use h.Headers.Defs.{Headers, content_length_max_digits}
use h.Headers.Steps.{IsLength}
use h.Events.{
  Event, request, informational_response, response, data_event, end_of_message, connection_closed,
}
use h.Readers.Defs.{Framing, content_length, http10}
use h.Connection.Framing.{headers_framing, has_no_body, response_framing, body_framing}
use h.Connection.Framed.{Framed, by_encoding, by_length, by_default, accepted-Framed}
use h.Protocol.Events.{IsAccepted, IsMade}

pub and_true : (a b : Bool) → (a && b) ≡ true → (a ≡ true) × (b ≡ true)
and_true a b h = ground arith

grown : (a c x b : ℕ) → b ≤ a * c → b * x ≤ a * (x * c)
grown a c x b h =
    subst (λ y. b * x ≤ y) (mul_assoc a c x ∙ ap (λ y. a * y) (mul_comm c x)) (mul-le-mul_right x h)

-- One digit more.
decimal_step : (n d k m : ℕ) → d < 10 → m < suc (n * 10 + d) * 10 ^ k → m < suc n * 10 ^ suc k
decimal_step n d k m h i =
    let p = grown (suc n) 10 (10 ^ k) (suc (n * 10 + d)) (omega arith) in
    rw (pow-suc 10 k) (lt_of_lt_of_le i p)

hexadecimal_step : (n d k m : ℕ) → d < 16 → m < suc (n * 16 + d) * 16 ^ k → m < suc n * 16 ^ suc k
hexadecimal_step n d k m h i =
    let p = grown (suc n) 16 (16 ^ k) (suc (n * 16 + d)) (omega arith) in
    rw (pow-suc 16 k) (lt_of_lt_of_le i p)

is_digit-lt : (x : ℕ) → is_digit x ≡ true → x - 48 < 10
is_digit-lt x h = ground arith

is_hexdig-lt : (x : ℕ) → is_hexdig x ≡ true → hex_digit x < 16
is_hexdig-lt x h = ground arith

decimal-bound :
    (n : ℕ) (v : Bytes) → all_bytes is_digit v ≡ true → decimal n v < suc n * 10 ^ length v
unfolding decimal all_bytes
decimal-bound n [] h = omega arith
decimal-bound n (x ∷ v) h =
    let (d, r) = and_true (is_digit x) (all_bytes is_digit v) h in
    decimal_step n (x - 48) (length v) _ (is_digit-lt x d) (decimal-bound (n * 10 + (x - 48)) v r)

pub hexadecimal-bound :
    (n : ℕ) (v : Bytes) → all_bytes is_hexdig v ≡ true → hexadecimal n v < suc n * 16 ^ length v
unfolding hexadecimal all_bytes
hexadecimal-bound n [] h = omega arith
hexadecimal-bound n (x ∷ v) h =
    let (d, r) = and_true (is_hexdig x) (all_bytes is_hexdig v) h in
    hexadecimal_step n (hex_digit x) (length v) _ (is_hexdig-lt x d)
      (hexadecimal-bound (n * 16 + hex_digit x) v r)

length_bound : (v : Bytes) → IsLength v → decimal 0 v < 10 ^ content_length_max_digits
unfolding all_bytes
length_bound v l = lt_of_lt_of_le (decimal-bound 0 v (digits_of v l.digits)) (
    subst (λ x. x ≤ 10 ^ content_length_max_digits) (one_times (10 ^ length v))
      (pow-le-pow_right {n = 10} (omega arith) (short_of (length v) l.short)))
  where
    digits_of : (v : Bytes) → one_or_more is_digit v ≡ true → all_bytes is_digit v ≡ true
    digits_of [] h = cc
    digits_of (x ∷ v) h = h

    short_of : (n : ℕ) → ltb content_length_max_digits n ≡ false → n ≤ content_length_max_digits
    short_of n h = ground arith

    one_times : (n : ℕ) → n ≡ 1 * n
    one_times n = omega arith

-- A declared length, if any, is in range.
abbrev pub IsBounded : Result Framing → Type 0
IsBounded (ok (content_length n)) = n < 10 ^ content_length_max_digits
IsBounded _ = Unit {0}

Framed-IsBounded :
    {default : Framing} {hs : Headers} {r : Result Framing}
    → IsBounded (ok default)
    → Framed default hs r
    → IsBounded r
Framed-IsBounded d (by_encoding e) = tt
Framed-IsBounded d (by_length e v l) = length_bound _ l
Framed-IsBounded d (by_default e v) = d

headers-IsBounded :
    (default : Framing) (hs : Headers)
    → IsBounded (ok default)
    → IsAccepted hs
    → IsBounded (headers_framing default hs)
headers-IsBounded default hs d a =
    Framed-IsBounded d (accepted-Framed default a.parsed a.given hs a.accepted)

zero-IsBounded : IsBounded (ok (content_length 0))
zero-IsBounded = omega arith

-- Whatever event its constructor made, `_body_framing` finds no declared length of 10 ^ 20 or more.
pub body_framing-IsBounded :
    (method : Option Bytes) (event : Event)
    → IsMade event
    → IsBounded (body_framing method (some event))
unfolding body_framing response_framing
body_framing-IsBounded method (request r) h =
    headers-IsBounded (content_length 0) r.headers zero-IsBounded h
body_framing-IsBounded method (response r) h =
    elim (Bool-cases (has_no_body method r.status_code)) [
      | inl without ↦ rw without zero-IsBounded
      | inr body ↦ rw (body, h.1) (headers-IsBounded http10 r.headers tt h.0)
    ]
body_framing-IsBounded method (informational_response r) h = tt
body_framing-IsBounded method (data_event d) h = tt
body_framing-IsBounded method (end_of_message hs) h = tt
body_framing-IsBounded method connection_closed h = tt
