-- ===== src/Grammar/RequestLine.antt =====
-- `request_line` of h11/_abnf.py, and `match_request_line` of Abnf.
use h.Prelude.{
  ℕ, ◌≡◌, refl, sym, ap, ◌∙◌, ◌==◌, Bool, true, false, ◌&&◌, Option, none, some, [], ◌∷◌, ◌++◌,
}
use mathlib.Core.List.{append-nil}
use h.Prelude.Bytes.{Bytes, codes, all_bytes, span}
use h.Abnf.{
  one_or_more, is_tchar, is_vchar, match_token, match_http_version, RequestLine, at_end,
  after_target, after_method, match_request_line,
}
use h.Grammar.Spans.{and_true, span-all, append-span}
use h.Grammar.Regex.{Groups, Matches}
use h.Grammar.Defs.{request_line}
use h.Grammar.Classes.{
  Decides, both-Decides, some-injective, byte_eq, if_some, plus_of, some_run, text_of, spelled,
}
use h.Grammar.Version.{
  IsVersion, http_version_of, http_version_lem, match_http_version_complete,
  match_http_version_sound,
}

abbrev pub request_groups : RequestLine → Groups
request_groups m =
    (codes "method", m.method)
    ∷ (codes "target", m.target)
    ∷ (codes "http_version", m.http_version)
    ∷ []

-- The parts of a line, one behind the other.
pub record IsRequestLine (s : Bytes) (m : RequestLine) : Type 0 where
  pub method : one_or_more is_tchar m.method ≡ true
  pub target : one_or_more is_vchar m.target ≡ true
  pub version : IsVersion m.http_version
  pub string : s ≡ m.method ++ (32 ∷ (m.target ++ (32 ∷ (codes "HTTP/" ++ m.http_version))))

parts_of :
    (s : Bytes) (g : Groups)
    → Matches request_line s g
    → (m : RequestLine) × IsRequestLine s m × (g ≡ request_groups m)
parts_of s g
      (
        s₁,
        t₁,
        g₁,
        h₁,
        e₁,
        k₁,
        (i₁, l₁, m₁),
        (
          s₂,
          t₂,
          g₂,
          h₂,
          e₂,
          k₂,
          m₂,
          (s₃, t₃, g₃, h₃, e₃, k₃, (i₃, l₃, m₃), (s₄, t₄, g₄, h₄, e₄, k₄, m₄, m₅)),
        ),
      ) =
    let (method, a) = plus_of is_tchar s₁ i₁ m₁ in
    let (space, b) = text_of (codes " ") s₂ g₂ m₂ in
    let (target, c) = plus_of is_vchar s₃ i₃ m₃ in
    let (space', d) = text_of (codes " ") s₄ g₄ m₄ in
    let v = http_version_of t₄ h₄ m₅ in
    (
      record { method = s₁; target = s₃; http_version = v.v },
      record {
        method = method;
        target = target;
        version = v.is_version;
        string = rw (e₁, e₂, space, e₃, e₄, space', v.string) refl;
      },
      rw (k₁, l₁, a, k₂, b, k₃, l₃, c, k₄, d, v.groups) refl,
    )

parts :
    (s : Bytes) (m : RequestLine) → IsRequestLine s m → Matches request_line s (request_groups m)
parts s m p = (
  m.method,
  _,
  _,
  _,
  p.string,
  refl,
  ([], refl, some_run is_tchar m.method p.method),
  (
    32 ∷ [],
    _,
    [],
    _,
    refl,
    refl,
    spelled (codes " "),
    (
      m.target,
      _,
      _,
      _,
      refl,
      refl,
      ([], refl, some_run is_vchar m.target p.target),
      (
        32 ∷ [],
        _,
        [],
        _,
        refl,
        refl,
        spelled (codes " "),
        http_version_lem m.http_version p.version,
      ),
    ),
  ),
)

token_span :
    (p : ℕ → Bool) (a r : Bytes)
    → one_or_more p a ≡ true
    → p 32 ≡ false
    → span p (a ++ (32 ∷ r)) ≡ (a, 32 ∷ r)
token_span p [] r h k = absurd (cc)
token_span p (x ∷ a) r h k = unfold all_bytes in span-all p (x ∷ a) 32 r h k

target_complete :
    (m target v : Bytes)
    → one_or_more is_vchar target ≡ true
    → IsVersion v
    → after_method m (32 ∷ (target ++ (32 ∷ (codes "HTTP/" ++ v))))
      ≡ some (record { method = m; target = target; http_version = v })
target_complete m target v h i =
    let version : match_http_version (codes "HTTP/" ++ v) ≡ some (v, []) =
      ap (λ x. match_http_version (codes "HTTP/" ++ x)) (sym (append-nil v))
      ∙ match_http_version_complete v [] i in
    rw (token_span is_vchar target (codes "HTTP/" ++ v) h refl, h, version) refl

pub line_complete :
    (s : Bytes) (m : RequestLine) → IsRequestLine s m → match_request_line s ≡ some m
unfolding match_request_line match_token
line_complete s m p =
    let rest = m.target ++ (32 ∷ (codes "HTTP/" ++ m.http_version)) in
    rw (p.string, token_span is_tchar m.method rest p.method (unfold is_tchar in refl), p.method)
      (target_complete m.method m.target m.http_version p.target p.version)

-- A run that was found, and the byte behind it.
line_sound : (s : Bytes) (m : RequestLine) → match_request_line s ≡ some m → IsRequestLine s m
unfolding match_request_line match_token
line_sound s m e =
    let (found, e') = if_some (one_or_more is_tchar (span is_tchar s).0) _ m e in
    behind (span is_tchar s).0 (span is_tchar s).1 found (append-span is_tchar s) e'
  where
    at_the_end :
        (a t : Bytes) (o : Option (Bytes × Bytes))
        → at_end a t o ≡ some m
        → (v : Bytes) × (o ≡ some (v, []))
          × (m ≡ record { method = a; target = t; http_version = v })
    at_the_end a t none e = absurd (cc)
    at_the_end a t (some (v, [])) e = (v, refl, sym (some-injective _ m e))
    at_the_end a t (some (v, x ∷ r)) e = absurd (cc)

    targeted :
        (a t r : Bytes)
        → one_or_more is_tchar a ≡ true
        → one_or_more is_vchar t ≡ true
        → a ++ (32 ∷ (t ++ r)) ≡ s
        → after_target a t r ≡ some m
        → IsRequestLine s m
    targeted a t [] h i k e = absurd (cc)
    targeted a t (c ∷ r) h i k e =
        let (space, e') = if_some (c == 32) (at_end a t (match_http_version r)) m e in
        let (v, found, same) = at_the_end a t (match_http_version r) e' in
        let b = match_http_version_sound r v [] found in
        rw same (record {
          method = h;
          target = i;
          version = b.is_version;
          string =
              sym k
              ∙ ap (λ x. a ++ (32 ∷ (t ++ (x ∷ r)))) (byte_eq c 32 space)
              ∙ ap (λ x. a ++ (32 ∷ (t ++ (32 ∷ x)))) b.string
              ∙ ap (λ x. a ++ (32 ∷ (t ++ (32 ∷ (codes "HTTP/" ++ x))))) (append-nil v);
        })

    behind :
        (a r : Bytes)
        → one_or_more is_tchar a ≡ true
        → a ++ r ≡ s
        → after_method a r ≡ some m
        → IsRequestLine s m
    behind a [] h k e = absurd (cc)
    behind a (c ∷ r) h k e =
        let t = (span is_vchar r).0 in
        let (tests, e') = if_some (c == 32 && one_or_more is_vchar t) _ m e in
        let (space, found) = and_true (c == 32) (one_or_more is_vchar t) tests in
        targeted a t (span is_vchar r).1 h found
          (ap (λ x. a ++ (32 ∷ x)) (append-span is_vchar r)
            ∙ ap (λ x. a ++ (x ∷ r)) (sym (byte_eq c 32 space))
            ∙ k)
          e'

groups_injective : (a b : RequestLine) → request_groups a ≡ request_groups b → a ≡ b
groups_injective a b h = ap read h
  where
    read : Groups → RequestLine
    read ((x, method) ∷ (y, target) ∷ (z, version) ∷ g) = record {
      method = method;
      target = target;
      http_version = version;
    }
    read g = a

-- `match_request_line` decides `request_line`: where it gives a method, a target and a version, the
-- line matches the regular expression with these three groups and with no others, and where it
-- refuses, the line does not match.
pub match_request_line-Decides :
    (s : Bytes) → Decides (λ m. Matches request_line s (request_groups m)) (match_request_line s)
match_request_line-Decides s =
    both-Decides (match_request_line s) (λ m e. parts s m (line_sound s m e))
      (λ m h.
        let (n, p, k) = parts_of s (request_groups m) h in
        line_complete s n p ∙ ap some (sym (groups_injective m n k)))
