-- ===== src/Grammar/HeaderField.antt =====
-- `header_field` of h11/_abnf.py, and `match_header_field` of Abnf.
use h.Prelude.{◌≡◌, refl, sym, ap, subst, ◌∙◌, ◌==◌, true, ◌&&◌, some, [], ◌∷◌, ◌++◌}
use h.Prelude.Bytes.{Bytes, codes, all_bytes, span, strip_left, strip_right}
use h.Abnf.{
  one_or_more, is_tchar, is_blank, is_field_byte, match_token, HeaderField, after_name,
  match_header_field,
}
use h.Grammar.Spans.{and_true, span-all, append-span}
use h.Grammar.Regex.{Groups, Matches}
use h.Grammar.Defs.{header_field}
use h.Grammar.Classes.{
  Decides, both-Decides, some-injective, byte_eq, if_some, run_of, run, plus_of, some_run, text_of,
  spelled,
}
use h.Grammar.FieldShape.{IsTrimmed, value_of}
use h.Grammar.FieldValue.{of_value}
use h.Grammar.Strips.{stripped, strip_left-StripsFront, strip_right-StripsBack}

abbrev pub field_groups : HeaderField → Groups
field_groups m = (codes "field_name", m.field_name) ∷ (codes "field_value", m.field_value) ∷ []

-- The parts of a line, one behind the other.
pub record IsHeaderField (s : Bytes) (m : HeaderField) : Type 0 where
  pub name : one_or_more is_tchar m.field_name ≡ true
  pub value : IsTrimmed m.field_value
  pub before : Bytes
  pub behind : Bytes
  pub before_blank : all_bytes is_blank before ≡ true
  pub behind_blank : all_bytes is_blank behind ≡ true
  pub string : s ≡ m.field_name ++ (58 ∷ (before ++ (m.field_value ++ behind)))

parts_of :
    (s : Bytes) (g : Groups)
    → Matches header_field s g
    → (m : HeaderField) × IsHeaderField s m × (g ≡ field_groups m)
parts_of s g
      (
        s₁,
        t₁,
        g₁,
        h₁,
        e₁,
        k₁,
        (i₁, l₁, m₁),
        (
          s₂,
          t₂,
          g₂,
          h₂,
          e₂,
          k₂,
          m₂,
          (s₃, t₃, g₃, h₃, e₃, k₃, m₃, (s₄, t₄, g₄, h₄, e₄, k₄, (i₄, l₄, m₄), m₅)),
        ),
      ) =
    let (name, a) = plus_of is_tchar s₁ i₁ m₁ in
    let (colon, b) = text_of (codes ":") s₂ g₂ m₂ in
    let (before, c) = run_of is_blank s₃ g₃ m₃ in
    let (value, d) = of_value s₄ i₄ m₄ in
    let (behind, f) = run_of is_blank t₄ h₄ m₅ in
    (
      record { field_name = s₁; field_value = s₄ },
      record {
        name = name;
        value = value;
        before = s₃;
        behind = t₄;
        before_blank = before;
        behind_blank = behind;
        string = rw (e₁, e₂, colon, e₃, e₄) refl;
      },
      rw (k₁, l₁, a, k₂, b, k₃, c, k₄, l₄, d, f) refl,
    )

parts : (s : Bytes) (m : HeaderField) → IsHeaderField s m → Matches header_field s (field_groups m)
parts s m p = (
  m.field_name,
  58 ∷ (p.before ++ (m.field_value ++ p.behind)),
  _,
  _,
  p.string,
  refl,
  ([], refl, some_run is_tchar m.field_name p.name),
  (
    58 ∷ [],
    p.before ++ (m.field_value ++ p.behind),
    [],
    _,
    refl,
    refl,
    spelled (codes ":"),
    (
      p.before,
      m.field_value ++ p.behind,
      [],
      _,
      refl,
      refl,
      run is_blank p.before p.before_blank,
      (
        m.field_value,
        p.behind,
        (codes "field_value", m.field_value) ∷ [],
        [],
        refl,
        refl,
        ([], refl, value_of m.field_value p.value),
        run is_blank p.behind p.behind_blank,
      ),
    ),
  ),
)

colon :
    (name r : Bytes)
    → one_or_more is_tchar name ≡ true
    → span is_tchar (name ++ (58 ∷ r)) ≡ (name, 58 ∷ r)
unfolding is_tchar
colon [] r h = absurd (cc)
colon (x ∷ name) r h = unfold all_bytes in span-all is_tchar (x ∷ name) 58 r h refl

pub field_complete :
    (s : Bytes) (m : HeaderField) → IsHeaderField s m → match_header_field s ≡ some m
unfolding match_header_field match_token
field_complete s m p =
    let rest = p.before ++ (m.field_value ++ p.behind) in
    rw
      (
        p.string,
        colon m.field_name rest p.name,
        p.name,
        stripped p.before m.field_value p.behind p.before_blank p.behind_blank p.value,
        p.value.bytes,
      )
      refl

module _ (s : Bytes) (m : HeaderField) where
  named :
      (name r : Bytes)
      → one_or_more is_tchar name ≡ true
      → name ++ r ≡ s
      → after_name name r ≡ some m
      → IsHeaderField s m
  named name [] h k e = absurd (cc)
  named name (c ∷ r) h k e =
      let l = strip_left-StripsFront r in
      let t = strip_right-StripsBack (strip_left is_blank r) in
      let value = strip_right is_blank (strip_left is_blank r) in
      let (tests, same) = if_some (c == 58 && all_bytes is_field_byte value) _ m e in
      let (colon, bytes) = and_true (c == 58) (all_bytes is_field_byte value) tests in
      subst (IsHeaderField s) (some-injective _ m same) (record {
        name = h;
        value = record { bytes = bytes; starts = t.starts l.starts; ends = t.ends };
        before = l.off;
        behind = t.off;
        before_blank = l.blank;
        behind_blank = t.blank;
        string =
            sym k
            ∙ ap (λ x. name ++ (x ∷ r)) (byte_eq c 58 colon)
            ∙ ap (λ x. name ++ (58 ∷ x)) l.is
            ∙ ap (λ x. name ++ (58 ∷ (l.off ++ x))) t.is;
      })

  field_sound : match_header_field s ≡ some m → IsHeaderField s m
  unfolding match_header_field match_token
  field_sound e =
      let (found, e') = if_some (one_or_more is_tchar (span is_tchar s).0) _ m e in
      named (span is_tchar s).0 (span is_tchar s).1 found (append-span is_tchar s) e'

groups_injective : (a b : HeaderField) → field_groups a ≡ field_groups b → a ≡ b
groups_injective a b h = ap read h
  where
    read : Groups → HeaderField
    read ((x, name) ∷ (y, value) ∷ g) = record { field_name = name; field_value = value }
    read g = a

-- `match_header_field` decides `header_field`: where it gives a name and a value, the line matches
-- the regular expression with these groups and with no others, and where it refuses, the line does
-- not match.
pub match_header_field-Decides :
    (s : Bytes) → Decides (λ m. Matches header_field s (field_groups m)) (match_header_field s)
match_header_field-Decides s =
    both-Decides (match_header_field s) (λ m e. parts s m (field_sound s m e))
      (λ m h.
        let (n, p, k) = parts_of s (field_groups m) h in
        field_complete s n p ∙ ap some (sym (groups_injective m n k)))
