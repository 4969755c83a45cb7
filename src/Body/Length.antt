-- ===== src/Body/Length.antt =====
-- Bodies with a Content-Length: `ContentLengthWriter` (h11/_writers.py).
use native.Mathlib.Decide.{dec_le}
use h.Prelude.{ℕ, ◌+◌, ◌-◌, ◌≤◌, ◌<◌, ◌≡◌, ◌≢◌, sym, List, [], ◌∷◌, ◌++◌, arith}
use h.Prelude.Lists.{length}
use h.Prelude.Int.{ℤ, pos}
use h.Prelude.Bytes.{Bytes}
use h.Prelude.Exec.{Result, ok, err, local_protocol_error}
use h.Writers.Defs.{content_length_send_data, content_length_send_eom}

abbrev pub total_length : List Bytes → ℕ
total_length [] = 0
total_length (chunk ∷ chunks) = length chunk + total_length chunks

-- Data events and the end of the message, handed to one writer, up to the first error.
abbrev then_rest : Bytes → Result (List Bytes) → Result (List Bytes) → Result (List Bytes)
then_rest chunk (ok out) (ok rest) = ok (out ++ rest)
then_rest chunk (ok out) (err e) = err e
then_rest chunk (err e) rest = err e

abbrev pub send_body : ℤ → List Bytes → Result (List Bytes)
send_body left [] = content_length_send_eom left []
send_body left (chunk ∷ chunks) =
    let (r, left') = content_length_send_data left chunk in
    then_rest chunk r (send_body left' chunks)

sends_data :
    (n : ℕ) (chunk : Bytes)
    → length chunk ≤ n
    → content_length_send_data (pos n) chunk ≡ (ok (chunk ∷ []), pos (n - length chunk))
unfolding content_length_send_data
sends_data n chunk h = ground arith

too_much :
    (n : ℕ) (chunk : Bytes)
    → n < length chunk
    → (content_length_send_data (pos n) chunk).0 ≡ err (local_protocol_error 400)
unfolding content_length_send_data
too_much n chunk h = ground arith

sends_end : (n : ℕ) → n ≡ 0 → content_length_send_eom (pos n) [] ≡ ok []
unfolding content_length_send_eom
sends_end n h = ground arith

too_little : (n : ℕ) → n ≢ 0 → content_length_send_eom (pos n) [] ≡ err (local_protocol_error 400)
unfolding content_length_send_eom
too_little n h = ground arith

-- A body of exactly the declared length is written as it is.
pub send_body_exact :
    (chunks : List Bytes) (n : ℕ) → total_length chunks ≡ n → send_body (pos n) chunks ≡ ok chunks
send_body_exact [] n h = sends_end n (sym h)
send_body_exact (chunk ∷ chunks) n h =
    rw (sends_data n chunk (omega arith), send_body_exact chunks (n - length chunk) (omega arith))

-- Data events whose lengths do not add up to the declared length, and then the end of the message
-- with no headers: `ContentLengthWriter` raises a LocalProtocolError at one of them.
pub send_body_other :
    (chunks : List Bytes) (n : ℕ)
    → total_length chunks ≢ n
    → send_body (pos n) chunks ≡ err (local_protocol_error 400)
send_body_other [] n h = too_little n (λ e. h (sym e))
send_body_other (chunk ∷ chunks) n h = elim (dec_le (length chunk) n) [
  | yes fits ↦
      rw (sends_data n chunk fits)
        (rw (send_body_other chunks (n - length chunk) (λ e. h (omega arith))))
  | no more ↦ rw (too_much n chunk (omega arith))
]
