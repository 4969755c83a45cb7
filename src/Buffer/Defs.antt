-- ===== src/Buffer/Defs.antt =====
-- `ReceiveBuffer` of h11/_receivebuffer.py: the bytes that were received and not yet read, with
-- how far they were searched.
use h.Prelude.{
  ℕ, ◌+◌, ◌-◌, Bool, false, ◌==◌, ltb, ◌&&◌, if◌then◌else◌, Option, none, some, List, [], ◌∷◌, ◌++◌,
  map,
}
use h.Prelude.Lists.{length, drop, take}
use h.Prelude.Bytes.{Bytes, bytes_eq, split}
use h.Prelude.Exec.{
  assertion_error, index_error, lift, Result, ok, err, Exec, pure, modify, gets, ◌>>=◌, ◌>>◌,
}
use h.Buffer.Search.{match_crlf, match_blank_line, search_from}

pub record ReceiveBuffer : Type 0 where
  pub bytes : Bytes
  pub next_line_search : ℕ
  pub multiple_lines_search : ℕ

abbrev pub new : ReceiveBuffer
new = record { bytes = []; next_line_search = 0; multiple_lines_search = 0 }

-- `self += byteslike`
unfoldable pub append : Bytes → ReceiveBuffer → ReceiveBuffer
append more b = record b { bytes = b.bytes ++ more }

-- `bool(self)` and `len(self)`
abbrev pub is_nonempty : ReceiveBuffer → Bool
is_nonempty b = ltb 0 (length b.bytes)

unfoldable pub extract : ℕ → Exec ReceiveBuffer Bytes
extract count b = (
  ok (take count b.bytes),
  record { bytes = drop count b.bytes; next_line_search = 0; multiple_lines_search = 0 },
)

-- `if not out: return None`
abbrev pub extract_unless_empty : Bytes → ℕ → Exec ReceiveBuffer (Option Bytes)
extract_unless_empty [] count = pure none
extract_unless_empty (x ∷ out) count = do chunk ← extract count; pure (some chunk)

unfoldable pub maybe_extract_at_most : ℕ → Exec ReceiveBuffer (Option Bytes)
unfolding extract
maybe_extract_at_most count = do
  out ← gets (λ b. take count b.bytes)
  extract_unless_empty out count

-- What follows the search for `\r\n`.
abbrev pub line_at : Option (ℕ × ℕ) → Exec ReceiveBuffer (Option Bytes)
line_at none = do modify (λ b. record b { next_line_search = length b.bytes }); pure none
line_at (some (partial_idx, _)) = do line ← extract (partial_idx + 2); pure (some line)

unfoldable pub maybe_extract_next_line : Exec ReceiveBuffer (Option Bytes)
unfolding extract
maybe_extract_next_line = do
  found ← gets (λ b. search_from match_crlf (b.next_line_search - 1) b.bytes)
  line_at found

-- `if line.endswith(b"\r"): del line[-1]`
unfoldable pub strip_cr : Bytes → Bytes
strip_cr [] = []
strip_cr (x ∷ []) = if x == 13 then [] else x ∷ []
strip_cr (x ∷ y ∷ r) = x ∷ strip_cr (y ∷ r)

-- `assert lines[-2] == lines[-1] == b""` and `del lines[-2:]`
unfoldable pub drop_blank_pair : List Bytes → Result (List Bytes)
drop_blank_pair (a ∷ b ∷ []) = if bytes_eq a b && bytes_eq b [] then ok [] else err assertion_error
drop_blank_pair (a ∷ b ∷ c ∷ r) =
    let rest = drop_blank_pair (b ∷ c ∷ r) in
    elim rest [ ok lines ↦ ok (a ∷ lines) | err e ↦ err e ]
drop_blank_pair (a ∷ []) = err index_error
drop_blank_pair [] = err index_error

-- The lines of the bytes up to a blank line and with it.
unfoldable pub lines_of : Bytes → Result (List Bytes)
unfolding split strip_cr drop_blank_pair
lines_of out = drop_blank_pair (map strip_cr (split 10 out))

-- What follows the search for a blank line.
abbrev pub lines_at : Option (ℕ × ℕ) → Exec ReceiveBuffer (Option (List Bytes))
lines_at none = do modify (λ b. record b { multiple_lines_search = length b.bytes - 2 }); pure none
lines_at (some (_, idx)) = do out ← extract idx; lines ← lift (lines_of out); pure (some lines)

unfoldable pub maybe_extract_lines : Exec ReceiveBuffer (Option (List Bytes))
unfolding extract
maybe_extract_lines b =
    if bytes_eq (take 1 b.bytes) (10 ∷ [])
    then (do extract 1; pure (some [])) b
    else if bytes_eq (take 2 b.bytes) (13 ∷ 10 ∷ [])
    then (do extract 2; pure (some [])) b
    else lines_at (search_from match_blank_line b.multiple_lines_search b.bytes) b

unfoldable pub is_next_line_obviously_invalid_request_line : ReceiveBuffer → Bool
is_next_line_obviously_invalid_request_line b = elim b.bytes [ [] ↦ false | x ∷ r ↦ ltb x 0x21 ]
