-- ===== src/Message/Lines.antt =====
-- The lines of a header block, as they are written (h11/_writers.py), folded and matched
-- (h11/_readers.py, h11/_abnf.py).
use h.Prelude.{
  ℕ, ◌≡◌, ◌≢◌, refl, sym, ap, ◌∙◌, Bool, true, false, not, if◌then◌else◌, some, List, [], ◌∷◌, ◌++◌,
  map, arith,
}
use mathlib.Core.List.{append_assoc, append-nil}
use h.Prelude.Bytes.{Bytes, bytes_eq, codes, all_bytes}
use h.Prelude.Exec.{ok}
use h.Abnf.{validate, one_or_more, is_tchar, is_blank, is_field_byte, match_header_field}
use h.Headers.Defs.{Item, Headers, Seen, raw_items}
use h.Writers.Defs.{header_line, header_lines, write_headers, join}
use h.Readers.Lines.{fold_lines, obsolete_line_fold, decode_fields, decode_header_lines}
use h.Buffer.RoundTrip.{NoBreaks, IsLine, AreLines, render}
use h.Grammar.Spans.{and_true}
use h.Grammar.FieldValue.{all-append, all-weaker, all_of_run}
use h.Grammar.HeaderField.{field_complete}
use h.Message.Accepted.{IsItem, AreItems, nil, item}
use h.Message.Again.{select, host_first}

abbrev pub field_line : Item → Bytes
field_line i = i.raw_name ++ (58 ∷ 32 ∷ i.value)

-- Neither CR nor LF is a byte of a line.
no_break : (c : ℕ) → is_field_byte c ≡ true → (c ≢ 10) × (c ≢ 13)
no_break c h = (λ e. ground arith, λ e. ground arith)

pub no_breaks : (s : Bytes) → all_bytes is_field_byte s ≡ true → NoBreaks s
unfolding all_bytes
no_breaks [] h = tt
no_breaks (c ∷ s) h =
    let (first, others) = and_true (is_field_byte c) (all_bytes is_field_byte s) h in
    let (lf, cr) = no_break c first in (lf, cr, no_breaks s others)

pub tchar_is_field : (c : ℕ) → is_tchar c ≡ true → is_field_byte c ≡ true
unfolding is_tchar
tchar_is_field c h = ground arith

pub tchar_not_blank : (c : ℕ) → is_tchar c ≡ true → is_blank c ≡ false
unfolding is_tchar
tchar_not_blank c h = ground arith

-- A line that begins with a token.
pub IsLine-token :
    (name rest : Bytes)
    → one_or_more is_tchar name ≡ true
    → all_bytes is_field_byte rest ≡ true
    → IsLine (name ++ rest)
IsLine-token [] rest h k = absurd (cc)
IsLine-token (c ∷ name) rest h k = no_breaks (c ∷ (name ++ rest)) (
    all-append is_field_byte (c ∷ name) rest
      (all-weaker is_tchar is_field_byte (c ∷ name) tchar_is_field
        (all_of_run is_tchar (c ∷ name) h))
      k)

field-IsLine : (i : Item) → IsItem i → IsLine (field_line i)
field-IsLine i n =
    IsLine-token i.raw_name (58 ∷ 32 ∷ i.value) n.token (unfold all_bytes in n.value.bytes)

pub fields-AreLines :
    (s : Seen) (items : Headers) → AreItems s items → AreLines (map field_line items)
fields-AreLines s [] nil = tt
fields-AreLines s (i ∷ items) (item {t = t} n st a) = (field-IsLine i n, fields-AreLines t items a)

-- What is written is these lines.
header_lines-select :
    (b : Bool) (items : Headers) → header_lines b items ≡ map header_line (select b items)
unfolding header_lines
header_lines-select b [] = refl
header_lines-select b (i ∷ items) =
    chosen (if b then bytes_eq i.name (codes "host") else not (bytes_eq i.name (codes "host")))
      (header_lines-select b items)
  where
    chosen :
        (c : Bool)
        → header_lines b items ≡ map header_line (select b items)
        → (if c then header_line i ∷ header_lines b items else header_lines b items)
          ≡ map header_line (if c then i ∷ select b items else select b items)
    chosen true e = ap (λ x. header_line i ∷ x) e
    chosen false e = e

pub join-append : (a b : List Bytes) → join (a ++ b) ≡ join a ++ join b
unfolding join
join-append [] b = refl
join-append (x ∷ a) b = ap (λ y. x ++ y) (join-append a b) ∙ sym (append_assoc x (join a) (join b))

header_line-field :
    (i : Item) (rest : Bytes) → header_line i ++ rest ≡ field_line i ++ (13 ∷ 10 ∷ rest)
header_line-field i rest =
    append_assoc (i.raw_name ++ codes ": " ++ i.value) (13 ∷ 10 ∷ []) rest
    ∙ append_assoc (i.raw_name ++ codes ": ") i.value (13 ∷ 10 ∷ rest)
    ∙ append_assoc i.raw_name (codes ": ") (i.value ++ (13 ∷ 10 ∷ rest))
    ∙ sym (append_assoc i.raw_name (58 ∷ 32 ∷ i.value) (13 ∷ 10 ∷ rest))

join-fields : (items : Headers) → join (map header_line items) ≡ render (map field_line items)
unfolding join
join-fields [] = refl
join-fields (i ∷ items) =
    header_line-field i (join (map header_line items))
    ∙ ap (λ y. field_line i ++ (13 ∷ 10 ∷ y)) (join-fields items)

map-append : (a b : Headers) → map header_line (a ++ b) ≡ map header_line a ++ map header_line b
map-append [] b = refl
map-append (i ∷ a) b = ap (λ y. header_line i ∷ y) (map-append a b)

-- `write_headers` writes the items as lines, and the empty line.
pub join-write_headers :
    (items : Headers)
    → join (write_headers items) ≡ render (map field_line (host_first items)) ++ (13 ∷ 10 ∷ [])
unfolding write_headers
join-write_headers items =
    ap (λ x. join (x ++ header_lines false items ++ ((13 ∷ 10 ∷ []) ∷ [])))
      (header_lines-select true items)
    ∙ ap (λ x. join (map header_line (select true items) ++ x ++ ((13 ∷ 10 ∷ []) ∷ [])))
        (header_lines-select false items)
    ∙ ap (λ x. join (x ++ ((13 ∷ 10 ∷ []) ∷ [])))
        (sym (map-append (select true items) (select false items)))
    ∙ join-append (map header_line (host_first items)) ((13 ∷ 10 ∷ []) ∷ [])
    ∙ ap (λ x. x ++ join ((13 ∷ 10 ∷ []) ∷ [])) (join-fields (host_first items))
    ∙ ap (λ x. render (map field_line (host_first items)) ++ x) just_crlf
  where
    just_crlf : join ((13 ∷ 10 ∷ []) ∷ []) ≡ 13 ∷ 10 ∷ []
    just_crlf = unfold join in refl

-- Each line gives its name and its value back.
match-field_line :
    (i : Item)
    → IsItem i
    → match_header_field (field_line i)
      ≡ some (record { field_name = i.raw_name; field_value = i.value })
unfolding all_bytes
match-field_line i n =
    field_complete (field_line i) (record { field_name = i.raw_name; field_value = i.value })
      (record {
        name = n.token;
        value = n.value;
        before = 32 ∷ [];
        behind = [];
        before_blank = refl;
        behind_blank = refl;
        string = ap (λ y. i.raw_name ++ (58 ∷ 32 ∷ y)) (sym (append-nil i.value));
      })

fields-decode :
    (s : Seen) (items : Headers)
    → AreItems s items
    → decode_fields (map field_line items) ≡ ok (raw_items items)
unfolding raw_items validate
fields-decode s [] nil = refl
fields-decode s (i ∷ items) (item {t = t} n st a) =
    rw (match-field_line i n, fields-decode t items a) refl

-- Lines that begin with no blank are not folded.
abbrev AreUnfolded : List Bytes → Type 0
AreUnfolded [] = Unit {0}
AreUnfolded ([] ∷ ls) = ⊥
AreUnfolded ((c ∷ l) ∷ ls) = (is_blank c ≡ false) × AreUnfolded ls

fold-behind :
    (last : Bytes) (ls : List Bytes) → AreUnfolded ls → fold_lines (some last) ls ≡ ok (last ∷ ls)
unfolding fold_lines
fold-behind last [] h = refl
fold-behind last ([] ∷ ls) h = absurd h
fold-behind last ((c ∷ l) ∷ ls) (b, h) = rw (b, fold-behind (c ∷ l) ls h) refl

fold-unfolded : (ls : List Bytes) → AreUnfolded ls → obsolete_line_fold ls ≡ ok ls
unfolding fold_lines obsolete_line_fold
fold-unfolded [] h = refl
fold-unfolded ([] ∷ ls) h = absurd h
fold-unfolded ((c ∷ l) ∷ ls) (b, h) = rw b (fold-behind (c ∷ l) ls h)

begins :
    (name rest : Bytes) (ls : List Bytes)
    → one_or_more is_tchar name ≡ true
    → AreUnfolded ls
    → AreUnfolded ((name ++ rest) ∷ ls)
begins [] rest ls h k = absurd (cc)
begins (c ∷ name) rest ls h k = (tchar_not_blank c (and_true (is_tchar c) _ h).0, k)

fields-AreUnfolded :
    (s : Seen) (items : Headers) → AreItems s items → AreUnfolded (map field_line items)
fields-AreUnfolded s [] nil = tt
fields-AreUnfolded s (i ∷ items) (item {t = t} n st a) =
    begins i.raw_name (58 ∷ 32 ∷ i.value) (map field_line items) n.token
      (fields-AreUnfolded t items a)

pub fields-decoded :
    (s : Seen) (items : Headers)
    → AreItems s items
    → decode_header_lines (map field_line items) ≡ ok (raw_items items)
unfolding decode_header_lines
fields-decoded s items a =
    rw (fold-unfolded (map field_line items) (fields-AreUnfolded s items a))
      (fields-decode s items a)
