-- ===== src/Grammar/StatusParts.antt =====
-- The parts of a string that matches `status_line` of h11/_abnf.py.
use h.Prelude.{
  ℕ, ◌≡◌, refl, sym, ◌∙◌, ◌⊎◌, inl, inr, Bool, true, ◌||◌, Option, none, some, [], ◌∷◌, ◌++◌, arith,
}
use mathlib.Core.List.{append_assoc}
use h.Prelude.Bytes.{Bytes, codes, all_bytes, is_digit}
use h.Abnf.{is_blank, is_vchar_or_obs_text, is_field_byte, StatusLine}
use h.Grammar.Spans.{and_true}
use h.Grammar.Regex.{Groups, Matches, Star, done, more, one, alt, seq, opt, text, group}
use h.Grammar.Defs.{status_code, reason_phrase, status_line}
use h.Grammar.Classes.{text_of, spelled}
use h.Grammar.Version.{IsVersion, http_version_of, http_version_lem}

-- A group that took no part is not there.
abbrev pub reason_groups : Option Bytes → Groups
reason_groups none = []
reason_groups (some reason) = (codes "reason", reason) ∷ []

abbrev pub status_groups : StatusLine → Groups
status_groups m =
    (codes "http_version", m.http_version)
    ∷ (codes "status_code", m.status_code)
    ∷ reason_groups m.reason

abbrev pub reason_text : Option Bytes → Bytes
reason_text none = []
reason_text (some reason) = 32 ∷ reason

abbrev pub IsReason : Option Bytes → Type 0
IsReason none = Unit {0}
IsReason (some reason) = all_bytes is_field_byte reason ≡ true

pub record IsThreeDigits (code : Bytes) : Type 0 where
  pub first : ℕ
  pub second : ℕ
  pub third : ℕ
  pub is : code ≡ first ∷ second ∷ third ∷ []
  pub first_digit : is_digit first ≡ true
  pub second_digit : is_digit second ≡ true
  pub third_digit : is_digit third ≡ true

-- The parts of a line, one behind the other.
pub record IsStatusLine (s : Bytes) (m : StatusLine) : Type 0 where
  pub version : IsVersion m.http_version
  pub code : IsThreeDigits m.status_code
  pub reason : IsReason m.reason
  pub string :
      s ≡ codes "HTTP/" ++ (m.http_version ++ (32 ∷ (m.status_code ++ reason_text m.reason)))

either_true : (a b : Bool) → b ≡ true → (a || b) ≡ true
either_true a b h = ground arith

or_cases : (a b : Bool) → (a || b) ≡ true → (a ≡ true) ⊎ (b ≡ true)
or_cases a b h = ground arith

of_phrase :
    (s : Bytes)
    → Star (λ t. Matches (alt (one is_blank) (one is_vchar_or_obs_text)) t []) s
    → all_bytes is_field_byte s ≡ true
unfolding all_bytes
of_phrase s done = refl
of_phrase s (more a b e (inl (c, x, y, z)) r) =
    rw (e, x) (rw (either_true (is_vchar_or_obs_text c) (is_blank c) y, of_phrase b r) refl)
of_phrase s (more a b e (inr (c, x, y, z)) r) = rw (e, x) (rw (y, of_phrase b r) refl)

to_phrase :
    (s : Bytes)
    → all_bytes is_field_byte s ≡ true
    → Star (λ t. Matches (alt (one is_blank) (one is_vchar_or_obs_text)) t []) s
unfolding all_bytes
to_phrase [] h = done
to_phrase (c ∷ s) h =
    let (first, others) = and_true (is_field_byte c) (all_bytes is_field_byte s) h in
    more (c ∷ []) s refl
      (elim (or_cases (is_vchar_or_obs_text c) (is_blank c) first) [
        | inl v ↦ inr (c, refl, v, refl)
        | inr w ↦ inl (c, refl, w, refl)
      ])
      (to_phrase s others)

code-IsThreeDigits : (s : Bytes) (g : Groups) → Matches status_code s g → IsThreeDigits s × (g ≡ [])
code-IsThreeDigits s g
      (
        s₁,
        t₁,
        g₁,
        h₁,
        e₁,
        k₁,
        (a, a₁, a₂, a₃),
        (
          s₂,
          t₂,
          g₂,
          h₂,
          e₂,
          k₂,
          (b, b₁, b₂, b₃),
          (s₃, t₃, g₃, h₃, e₃, k₃, (c, c₁, c₂, c₃), (d₁, d₂)),
        ),
      ) =
    (
      record {
        first = a;
        second = b;
        third = c;
        is = rw (e₁, a₁, e₂, b₁, e₃, c₁, d₁) refl;
        first_digit = a₂;
        second_digit = b₂;
        third_digit = c₂;
      },
      rw (k₁, a₃, k₂, b₃, k₃, c₃, d₂) refl,
    )

three_digits : (s : Bytes) → IsThreeDigits s → Matches status_code s []
three_digits s c = (
  c.first ∷ [],
  c.second ∷ c.third ∷ [],
  [],
  [],
  c.is,
  refl,
  (c.first, refl, c.first_digit, refl),
  (
    c.second ∷ [],
    c.third ∷ [],
    [],
    [],
    refl,
    refl,
    (c.second, refl, c.second_digit, refl),
    (c.third ∷ [], [], [], [], refl, refl, (c.third, refl, c.third_digit, refl), (refl, refl)),
  ),
)

reason_of :
    (s : Bytes) (g : Groups)
    → Matches (opt (seq (text (codes " ")) (group (codes "reason") reason_phrase))) s g
    → (o : Option Bytes) × IsReason o × (s ≡ reason_text o) × (g ≡ reason_groups o)
reason_of s g (inr (e, k)) = (none, tt, e, k)
reason_of s g (inl (s₁, r, g₁, g₂, e, k, t, (h, l, (p, q)))) =
    let (space, w) = text_of (codes " ") s₁ g₁ t in
    (some r, of_phrase r p, rw (e, space) refl, rw (k, w, l, q) refl)

reason :
    (o : Option Bytes)
    → IsReason o
    → Matches
        (opt (seq (text (codes " ")) (group (codes "reason") reason_phrase)))
        (reason_text o)
        (reason_groups o)
reason none h = inr (refl, refl)
reason (some r) h = inl (
  32 ∷ [],
  r,
  [],
  (codes "reason", r) ∷ [],
  refl,
  refl,
  spelled (codes " "),
  ([], refl, (to_phrase r h, refl)),
)

pub parts_of :
    (s : Bytes) (g : Groups)
    → Matches status_line s g
    → (m : StatusLine) × IsStatusLine s m × (g ≡ status_groups m)
parts_of s g
      (
        s₁,
        t₁,
        g₁,
        h₁,
        e₁,
        k₁,
        m₁,
        (s₂, t₂, g₂, h₂, e₂, k₂, m₂, (s₃, t₃, g₃, h₃, e₃, k₃, (i₃, l₃, m₃), m₄)),
      ) =
    let v = http_version_of s₁ g₁ m₁ in
    let (space, b) = text_of (codes " ") s₂ g₂ m₂ in
    let (code, c) = code-IsThreeDigits s₃ i₃ m₃ in
    let (o, r, x, y) = reason_of t₃ h₃ m₄ in
    (
      record { http_version = v.v; status_code = s₃; reason = o },
      record {
        version = v.is_version;
        code = code;
        reason = r;
        string = rw (e₁, v.string, e₂, space, e₃, x) (append_assoc (codes "HTTP/") v.v _);
      },
      rw (k₁, v.groups, k₂, b, k₃, l₃, c, y) refl,
    )

pub parts :
    (s : Bytes) (m : StatusLine) → IsStatusLine s m → Matches status_line s (status_groups m)
parts s m p = (
  codes "HTTP/" ++ m.http_version,
  32 ∷ (m.status_code ++ reason_text m.reason),
  _,
  _,
  p.string ∙ sym (append_assoc (codes "HTTP/") m.http_version _),
  refl,
  http_version_lem m.http_version p.version,
  (
    32 ∷ [],
    _,
    [],
    _,
    refl,
    refl,
    spelled (codes " "),
    (
      m.status_code,
      _,
      (codes "status_code", m.status_code) ∷ [],
      _,
      refl,
      refl,
      ([], refl, three_digits m.status_code p.code),
      reason m.reason p.reason,
    ),
  ),
)
