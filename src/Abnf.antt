-- ===== src/Abnf.antt =====
-- The regular expressions of h11/_abnf.py, each as the function that says whether the whole of
-- its input matches and what the named groups hold; and `validate` of h11/_util.py.
use h.Prelude.{
  ℕ, Bool, true, false, not, ◌==◌, leb, ◌&&◌, ◌||◌, if◌then◌else◌, Option, none, some, [], ◌∷◌,
}
use h.Prelude.Lists.{length}
use h.Prelude.Bytes.{
  Bytes, bytes_eq, codes, all_bytes, span, is_upper, is_lower, is_digit, is_space, strip_left,
  strip_right,
}
use h.Prelude.Exec.{Result, ok, err, local_protocol_error}

-- `validate(regex, data)`: the groups, or a LocalProtocolError.
unfoldable pub validate {ℓ} : {A : Type ℓ} → Option A → Result A
validate none = err (local_protocol_error 400)
validate (some groups) = ok groups

-- A match with no group to read.
abbrev pub when : Bool → Option (Unit {0})
when true = some tt
when false = none

-- A non-empty run of bytes of one class.
abbrev pub one_or_more : (ℕ → Bool) → Bytes → Bool
one_or_more p [] = false
one_or_more p (x ∷ xs) = p x && all_bytes p xs

abbrev pub is_member : ℕ → Bytes → Bool
is_member c [] = false
is_member c (x ∷ xs) = c == x || is_member c xs

-- `[-!#$%&'*+.^_`|~0-9a-zA-Z]`
unfoldable pub is_tchar : ℕ → Bool
is_tchar c = is_upper c || is_lower c || is_digit c || is_member c (codes "-!#$%&'*+.^_`|~")

-- `token`, which is also `field_name` and `method`
unfoldable pub match_token : Bytes → Bool
unfolding is_tchar all_bytes
match_token s = one_or_more is_tchar s

-- `[ \t]`
abbrev pub is_blank : ℕ → Bool
is_blank c = c == 32 || c == 9

-- `[\x21-\x7e]`
abbrev pub is_vchar : ℕ → Bool
is_vchar c = leb 0x21 c && leb c 0x7e

-- `[^\x00\s]`
abbrev pub is_vchar_or_obs_text : ℕ → Bool
is_vchar_or_obs_text c = not (c == 0 || is_space c)

abbrev pub is_field_byte : ℕ → Bool
is_field_byte c = is_vchar_or_obs_text c || is_blank c

-- The first byte is no blank, and the last byte is none.
abbrev pub starts_blank : Bytes → Bool
starts_blank [] = false
starts_blank (x ∷ xs) = is_blank x

unfoldable pub ends_blank : Bytes → Bool
ends_blank [] = false
ends_blank (x ∷ []) = is_blank x
ends_blank (x ∷ y ∷ r) = ends_blank (y ∷ r)

-- `field_value`: nothing, or runs of `field_vchar` with blanks between them.
unfoldable pub match_field_value : Bytes → Bool
unfolding ends_blank all_bytes
match_field_value s = all_bytes is_field_byte s && not (starts_blank s) && not (ends_blank s)

pub record HeaderField : Type 0 where
  pub field_name : Bytes
  pub field_value : Bytes

-- Behind the name: `:`, blanks, the value and blanks.
abbrev pub after_name : Bytes → Bytes → Option HeaderField
after_name name [] = none
after_name name (c ∷ r) =
    let value = strip_right is_blank (strip_left is_blank r) in
    if c == b':' && all_bytes is_field_byte value
    then some (record { field_name = name; field_value = value })
    else none

-- `header_field`: a name has no `:`, so it ends where its bytes do.
unfoldable pub match_header_field : Bytes → Option HeaderField
unfolding match_token is_tchar span strip_left strip_right all_bytes
match_header_field s =
    let (name, r) = span is_tchar s in if match_token name then after_name name r else none

-- `HTTP/(?P<http_version>[0-9]\.[0-9])`, and what follows it.
unfoldable pub match_http_version : Bytes → Option (Bytes × Bytes)
match_http_version (h ∷ t ∷ t' ∷ p ∷ s ∷ a ∷ d ∷ b ∷ r) =
    if bytes_eq (h ∷ t ∷ t' ∷ p ∷ s ∷ []) (codes "HTTP/") && is_digit a && d == b'.' && is_digit b
    then some (a ∷ d ∷ b ∷ [], r)
    else none
match_http_version _ = none

pub record RequestLine : Type 0 where
  pub method : Bytes
  pub target : Bytes
  pub http_version : Bytes

abbrev pub at_end : Bytes → Bytes → Option (Bytes × Bytes) → Option RequestLine
at_end m t none = none
at_end m t (some (v, [])) = some (record { method = m; target = t; http_version = v })
at_end m t (some (v, _ ∷ _)) = none

-- `vchar+ HTTP-version`, each behind one space.
abbrev pub after_target : Bytes → Bytes → Bytes → Option RequestLine
after_target m t [] = none
after_target m t (c ∷ r) = if c == 32 then at_end m t (match_http_version r) else none

abbrev pub after_method : Bytes → Bytes → Option RequestLine
after_method m [] = none
after_method m (c ∷ r) =
    let (target, r') = span is_vchar r in
    if c == 32 && one_or_more is_vchar target then after_target m target r' else none

-- `request_line`: neither a method nor a target has a space.
unfoldable pub match_request_line : Bytes → Option RequestLine
unfolding match_token is_tchar span match_http_version all_bytes
match_request_line s =
    let (m, r) = span is_tchar s in if match_token m then after_method m r else none

-- `request_target`
unfoldable pub match_request_target : Bytes → Bool
unfolding all_bytes
match_request_target s = one_or_more is_vchar s

pub record StatusLine : Type 0 where
  pub http_version : Bytes
  pub status_code : Bytes
  pub reason : Option Bytes

-- `(?: (?P<reason>...))?`
abbrev pub match_reason : Bytes → Option (Option Bytes)
match_reason [] = some none
match_reason (c ∷ r) = if c == 32 && all_bytes is_field_byte r then some (some r) else none

abbrev pub with_reason : Bytes → Bytes → Option (Option Bytes) → Option StatusLine
with_reason v code none = none
with_reason v code (some reason) =
    some (record { http_version = v; status_code = code; reason = reason })

-- ` [0-9]{3}`
abbrev pub after_version : Option (Bytes × Bytes) → Option StatusLine
after_version (some (v, c ∷ x ∷ y ∷ z ∷ r)) =
    if c == 32 && is_digit x && is_digit y && is_digit z
    then with_reason v (x ∷ y ∷ z ∷ []) (match_reason r)
    else none
after_version (some (v, _)) = none
after_version none = none

unfoldable pub match_status_line : Bytes → Option StatusLine
unfolding match_http_version all_bytes
match_status_line s = after_version (match_http_version s)

abbrev pub is_hexdig : ℕ → Bool
is_hexdig c = is_digit c || leb b'A' c && leb c b'F' || leb b'a' c && leb c b'f'

-- Everything but the last two bytes, if those are `\r\n`.
unfoldable pub before_crlf : Bytes → Option Bytes
before_crlf [] = none
before_crlf (x ∷ []) = none
before_crlf (x ∷ y ∷ []) = if x == 13 && y == 10 then some [] else none
before_crlf (x ∷ y ∷ z ∷ r) = elim (before_crlf (y ∷ z ∷ r)) [ none ↦ none | some s ↦ some (x ∷ s) ]

-- `(;.*)?[ \t]*`: `.` is any byte but `\n`.
abbrev pub match_chunk_ext : Option Bytes → Bool
match_chunk_ext none = false
match_chunk_ext (some []) = true
match_chunk_ext (some (c ∷ r)) =
    if c == b';' then all_bytes (λ x. not (x == 10)) r else all_bytes is_blank (c ∷ r)

-- `chunk_header`: the group `chunk_size`.
unfoldable pub match_chunk_header : Bytes → Option Bytes
unfolding span before_crlf all_bytes
match_chunk_header s =
    let (size, r) = span is_hexdig s in
    if leb 1 (length size) && leb (length size) 20 && match_chunk_ext (before_crlf r)
    then some size
    else none
