-- ===== src/Message/RoundTrip.antt =====
-- Responses of both kinds, from their constructors (h11/_events.py) through the writer
-- (h11/_writers.py) to the reader (h11/_readers.py).
use h.Prelude.{
  ℕ, ◌≤◌, ◌<◌, ◌≡◌, refl, sym, ap, subst, Bool, true, false, ltb, leb, ◌&&◌, if◌then◌else◌, some,
  List, ◌++◌, arith,
}
use h.Prelude.Bytes.{Bytes, codes, all_bytes}
use h.Prelude.Exec.{ok, err, local_protocol_error}
use h.Prelude.Fallible.{>>=-eq-ok, ok-injective}
use h.Abnf.{is_field_byte}
use h.Headers.Defs.{Headers, nothing_seen, normalize_and_validate}
use h.Events.{
  Event, Response, informational_response, response, pairs, new_response_base,
  new_informational_response, new_response,
}
use h.Buffer.Defs.{ReceiveBuffer}
use h.Buffer.Cache.{IsCached}
use h.Readers.Defs.{maybe_read_from_send_response_server}
use h.Writers.Defs.{write_any_response}
use h.Message.Accepted.{normalize-AreItems}
use h.Message.Again.{host_first}
use h.Message.Request.{sent}
use h.Message.Response.{IsChecked, made, kind_of, read_back}

-- What the base class makes of its arguments.
record IsPlainResponse (l : List (Bytes × Bytes)) (status : ℕ) (reason : Bytes) (r : Response)
    : Type 0 where
  items : Headers
  accepted : normalize_and_validate false l ≡ ok items
  is : r ≡ made status reason items

new_response_base-IsPlainResponse :
    (l : List (Bytes × Bytes)) (status : ℕ) (reason : Bytes) (r : Response)
    → new_response_base (pairs l) status (codes "1.1") reason false ≡ ok r
    → IsPlainResponse l status reason r
new_response_base-IsPlainResponse l status reason r h =
    let (items, a, k) = >>=-eq-ok (normalize_and_validate false l) _ h in
    record { items = items; accepted = a; is = sym (ok-injective _ r k) }

-- A status in range.
in_range :
    (f : Response → Event) (x : Response) (event : Event) (b c : Bool)
    → (if b && c then ok (f x) else err (local_protocol_error 400)) ≡ ok event
    → (b ≡ true) × (c ≡ true) × (f x ≡ event)
in_range f x event true true h = (refl, refl, ok-injective (f x) event h)
in_range f x event true false h = absurd (cc)
in_range f x event false c h = absurd (cc)

-- What is read back.
abbrev pub ReadBack : Event → ReceiveBuffer → Bytes → Type 0
ReadBack event b rest =
    ((maybe_read_from_send_response_server b).0 ≡ ok (some event))
    × ((maybe_read_from_send_response_server b).1.bytes ≡ rest)

module _ (status : ℕ) (l : List (Bytes × Bytes)) (reason : Bytes) (r : Response) where
  base_back :
      (b : ReceiveBuffer) (rest : Bytes)
      → new_response_base (pairs l) status (codes "1.1") reason false ≡ ok r
      → 100 ≤ status
      → status < 1000
      → all_bytes is_field_byte reason ≡ true
      → IsCached b
      → b.bytes ≡ sent (write_any_response r) ++ rest
      → ReadBack (kind_of (record r { headers = host_first r.headers })) b rest
  unfolding normalize_and_validate
  base_back b rest h least most printable i e =
      let base = new_response_base-IsPlainResponse l status reason r h in
      let c : IsChecked status reason base.items = record {
        accepted = normalize-AreItems nothing_seen l base.items base.accepted;
        least = least;
        most = most;
        printable = printable;
      } in
      subst (λ x. ReadBack (kind_of (record x { headers = host_first x.headers })) b rest)
        (sym base.is)
        (read_back status reason base.items c b rest i
          (subst (λ x. b.bytes ≡ sent (write_any_response x) ++ rest) base.is e))

low_status : (n : ℕ) → leb 100 n ≡ true → ltb n 200 ≡ true → (100 ≤ n) × (n < 1000)
low_status n h k = ground arith

high_status :
    (n : ℕ) → leb 200 n ≡ true → ltb n 1000 ≡ true → (100 ≤ n) × (n < 1000) × (ltb n 200 ≡ false)
high_status n h k = ground arith

same_final : (x r : Response) → response x ≡ response r → x ≡ r
same_final x r h = cc

same_informational : (x r : Response) → informational_response x ≡ informational_response r → x ≡ r
same_informational x r h = cc

-- Where the constructor makes a Response of version 1.1 whose reason, which it does not check, has
-- only bytes that a reason may have, the bytes that `write_any_response` writes are read back by
-- `maybe_read_from_send_response_server`, from any buffer that begins with them and whose search
-- positions have passed no match, as the same response with its `Host` headers, if any, first;
-- whatever follows them stays in the buffer.
pub response_round_trip :
    (status : ℕ) (l : List (Bytes × Bytes)) (reason : Bytes) (r : Response) (b : ReceiveBuffer)
    (rest : Bytes)
    → new_response (pairs l) status (codes "1.1") reason false ≡ ok (response r)
    → all_bytes is_field_byte reason ≡ true
    → IsCached b
    → b.bytes ≡ sent (write_any_response r) ++ rest
    → ReadBack (response (record r { headers = host_first r.headers })) b rest
unfolding new_response
response_round_trip status l reason r b rest h printable i e =
    let (x, ex, k) =
      >>=-eq-ok (new_response_base (pairs l) status (codes "1.1") reason false) _ h in
    let (low, high, same) =
      in_range response x (response r) (leb 200 x.status_code) (ltb x.status_code 1000) k in
    let x_is_r = same_final x r same in
    let base =
      subst (λ y. new_response_base (pairs l) status (codes "1.1") reason false ≡ ok y) x_is_r ex in
    let status_is : r.status_code ≡ status =
      ap (λ y. y.status_code) ((new_response_base-IsPlainResponse l status reason r base).is) in
    let (least, most, final) =
      high_status r.status_code (subst (λ y. leb 200 y.status_code ≡ true) x_is_r low)
        (subst (λ y. ltb y.status_code 1000 ≡ true) x_is_r high) in
    let back =
      base_back status l reason r b rest base (subst (λ n. 100 ≤ n) status_is least)
        (subst (λ n. n < 1000) status_is most) printable i e in
    rw final at back

-- Where the constructor makes an InformationalResponse of version 1.1 whose reason, which it does not
-- check, has only bytes that a reason may have, the bytes that `write_any_response` writes are read
-- back by `maybe_read_from_send_response_server`, from any buffer that begins with them and whose
-- search positions have passed no match, as the same response with its `Host` headers, if any,
-- first; whatever follows them stays in the buffer.
pub informational_round_trip :
    (status : ℕ) (l : List (Bytes × Bytes)) (reason : Bytes) (r : Response) (b : ReceiveBuffer)
    (rest : Bytes)
    → new_informational_response (pairs l) status (codes "1.1") reason false
      ≡ ok (informational_response r)
    → all_bytes is_field_byte reason ≡ true
    → IsCached b
    → b.bytes ≡ sent (write_any_response r) ++ rest
    → ReadBack (informational_response (record r { headers = host_first r.headers })) b rest
unfolding new_informational_response
informational_round_trip status l reason r b rest h printable i e =
    let (x, ex, k) =
      >>=-eq-ok (new_response_base (pairs l) status (codes "1.1") reason false) _ h in
    let (low, high, same) =
      in_range informational_response x (informational_response r) (leb 100 x.status_code)
        (ltb x.status_code 200) k in
    let x_is_r = same_informational x r same in
    let base =
      subst (λ y. new_response_base (pairs l) status (codes "1.1") reason false ≡ ok y) x_is_r ex in
    let status_is : r.status_code ≡ status =
      ap (λ y. y.status_code) ((new_response_base-IsPlainResponse l status reason r base).is) in
    let below = subst (λ y. ltb y.status_code 200 ≡ true) x_is_r high in
    let (least, most) =
      low_status r.status_code (subst (λ y. leb 100 y.status_code ≡ true) x_is_r low) below in
    let back =
      base_back status l reason r b rest base (subst (λ n. 100 ≤ n) status_is least)
        (subst (λ n. n < 1000) status_is most) printable i e in
    rw below at back
