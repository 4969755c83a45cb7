-- ===== src/Grammar/Version.antt =====
-- `http_version` of h11/_abnf.py, and `match_http_version` of Abnf.
use h.Prelude.{ℕ, ◌≡◌, refl, sym, ap, ◌∙◌, ◌==◌, true, some, [], ◌∷◌, ◌++◌}
use h.Prelude.Bytes.{Bytes, codes, bytes_eq, eq_of_bytes_eq, is_digit}
use h.Abnf.{match_http_version}
use h.Grammar.Spans.{and_true}
use h.Grammar.Regex.{Groups, Matches}
use h.Grammar.Defs.{version_number, http_version}
use h.Grammar.Classes.{some-injective, byte_eq, if_some, text_of, spelled}

pub record IsVersion (v : Bytes) : Type 0 where
  pub major : ℕ
  pub minor : ℕ
  pub is : v ≡ major ∷ 46 ∷ minor ∷ []
  pub major_digit : is_digit major ≡ true
  pub minor_digit : is_digit minor ≡ true

version_of : (s : Bytes) (g : Groups) → Matches version_number s g → IsVersion s × (g ≡ [])
version_of s g
      (s₁, s₂, g₁, g₂, e, k, (a, x, y, z), (s₃, s₄, g₃, g₄, e', k', dot, (b, x', y', z'))) =
    let (d, w) = text_of (codes ".") s₃ g₃ dot in
    (
      record {
        major = a;
        minor = b;
        is = rw (e, x, e', d, x') refl;
        major_digit = y;
        minor_digit = y';
      },
      rw (k, z, k', w, z') refl,
    )

version : (s : Bytes) → IsVersion s → Matches version_number s []
version s v = (
  v.major ∷ [],
  46 ∷ v.minor ∷ [],
  [],
  [],
  v.is,
  refl,
  (v.major, refl, v.major_digit, refl),
  (
    46 ∷ [],
    v.minor ∷ [],
    [],
    [],
    refl,
    refl,
    spelled (codes "."),
    (v.minor, refl, v.minor_digit, refl),
  ),
)

-- The string and the group.
pub record IsHttpVersion (s : Bytes) (g : Groups) : Type 0 where
  pub v : Bytes
  pub is_version : IsVersion v
  pub string : s ≡ codes "HTTP/" ++ v
  pub groups : g ≡ (codes "http_version", v) ∷ []

pub http_version_of : (s : Bytes) (g : Groups) → Matches http_version s g → IsHttpVersion s g
http_version_of s g (s₁, v, g₁, g₂, e, k, t, (h, l, m)) =
    let (d, w) = text_of (codes "HTTP/") s₁ g₁ t in
    let (i, n) = version_of v h m in
    record { v = v; is_version = i; string = rw (e, d) refl; groups = rw (k, w, l, n) refl }

pub http_version_lem :
    (v : Bytes)
    → IsVersion v
    → Matches http_version (codes "HTTP/" ++ v) ((codes "http_version", v) ∷ [])
http_version_lem v i = (
  codes "HTTP/",
  v,
  [],
  (codes "http_version", v) ∷ [],
  refl,
  refl,
  spelled (codes "HTTP/"),
  ([], refl, version v i),
)

pub match_http_version_complete :
    (v r : Bytes) → IsVersion v → match_http_version (codes "HTTP/" ++ v ++ r) ≡ some (v, r)
unfolding match_http_version
match_http_version_complete v r i = rw (i.is, i.major_digit, i.minor_digit) refl

-- What is in front of the rest.
pub record IsBefore (s v r : Bytes) : Type 0 where
  pub is_version : IsVersion v
  pub string : s ≡ codes "HTTP/" ++ v ++ r

pub match_http_version_sound : (s v r : Bytes) → match_http_version s ≡ some (v, r) → IsBefore s v r
unfolding match_http_version
match_http_version_sound (h ∷ t ∷ t' ∷ p ∷ s ∷ a ∷ d ∷ b ∷ q) v r e =
    let (tests, same) = if_some _ _ (v, r) e in
    let (rest, minor) = and_true _ (is_digit b) tests in
    let (rest', dot) = and_true _ (d == 46) rest in
    let (name, major) =
      and_true (bytes_eq (h ∷ t ∷ t' ∷ p ∷ s ∷ []) (codes "HTTP/")) (is_digit a) rest' in
    let pair = some-injective _ (v, r) same in
    let number : a ∷ d ∷ b ∷ [] ≡ v = ap (λ x. x.0) pair in
    let dotted : d ≡ 46 = byte_eq d 46 dot in
    record {
      is_version = record {
        major = a;
        minor = b;
        is = sym number ∙ ap (λ x. a ∷ x ∷ b ∷ []) dotted;
        major_digit = major;
        minor_digit = minor;
      };
      string =
          ap (λ x. x ++ a ∷ d ∷ b ∷ q)
            (eq_of_bytes_eq (h ∷ t ∷ t' ∷ p ∷ s ∷ []) (codes "HTTP/") name)
          ∙ ap (λ x. codes "HTTP/" ++ x.0 ++ x.1) pair;
    }
match_http_version_sound [] v r e = cc
match_http_version_sound (h ∷ []) v r e = cc
match_http_version_sound (h ∷ t ∷ []) v r e = cc
match_http_version_sound (h ∷ t ∷ t' ∷ []) v r e = cc
match_http_version_sound (h ∷ t ∷ t' ∷ p ∷ []) v r e = cc
match_http_version_sound (h ∷ t ∷ t' ∷ p ∷ s ∷ []) v r e = cc
match_http_version_sound (h ∷ t ∷ t' ∷ p ∷ s ∷ a ∷ []) v r e = cc
match_http_version_sound (h ∷ t ∷ t' ∷ p ∷ s ∷ a ∷ d ∷ []) v r e = cc
