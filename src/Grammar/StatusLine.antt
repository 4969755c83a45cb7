-- ===== src/Grammar/StatusLine.antt =====
-- `status_line` of h11/_abnf.py, and `match_status_line` of Abnf.
use h.Prelude.{◌≡◌, refl, sym, ap, subst, ◌∙◌, ◌==◌, ◌&&◌, Option, none, some, [], ◌∷◌, ◌++◌}
use mathlib.Core.List.{append_assoc}
use h.Prelude.Bytes.{Bytes, codes, all_bytes, is_digit}
use h.Abnf.{
  is_field_byte, match_http_version, StatusLine, match_reason, with_reason, after_version,
  match_status_line,
}
use h.Grammar.Spans.{and_true}
use h.Grammar.Regex.{Groups, Matches}
use h.Grammar.Defs.{status_line}
use h.Grammar.Classes.{Decides, both-Decides, some-injective, byte_eq, if_some}
use h.Grammar.Version.{IsVersion, match_http_version_complete, match_http_version_sound}
use h.Grammar.StatusParts.{
  status_groups, reason_text, IsReason, IsThreeDigits, IsStatusLine, parts_of, parts,
}

reason_complete : (o : Option Bytes) → IsReason o → match_reason (reason_text o) ≡ some o
reason_complete none h = refl
reason_complete (some r) h = rw h refl

code_complete :
    (v code : Bytes) (o : Option Bytes)
    → IsThreeDigits code
    → IsReason o
    → after_version (some (v, 32 ∷ (code ++ reason_text o)))
      ≡ some (record { http_version = v; status_code = code; reason = o })
code_complete v code o c r =
    rw (c.is, c.first_digit, c.second_digit, c.third_digit, reason_complete o r) refl

pub line_complete : (s : Bytes) (m : StatusLine) → IsStatusLine s m → match_status_line s ≡ some m
unfolding match_status_line
line_complete s m p =
    rw
      (
        p.string,
        match_http_version_complete m.http_version (32 ∷ (m.status_code ++ reason_text m.reason))
            p.version,
      )
      (code_complete m.http_version m.status_code m.reason p.code p.reason)

reason_sound :
    (r : Bytes) (o : Option Bytes) → match_reason r ≡ some o → IsReason o × (r ≡ reason_text o)
reason_sound [] o e =
    subst (λ x. IsReason x × ([] ≡ reason_text x)) (some-injective none o e) (tt, refl)
reason_sound (c ∷ r) o e =
    let (tests, e') = if_some (c == 32 && all_bytes is_field_byte r) (some (some r)) o e in
    let (space, h) = and_true (c == 32) (all_bytes is_field_byte r) tests in
    subst (λ x. IsReason x × (c ∷ r ≡ reason_text x)) (some-injective (some r) o e')
      (h, ap (λ x. x ∷ r) (byte_eq c 32 space))

module _ (s : Bytes) (m : StatusLine) where
  reasoned :
      (v code r : Bytes) (o : Option (Option Bytes))
      → IsVersion v
      → IsThreeDigits code
      → s ≡ codes "HTTP/" ++ (v ++ (32 ∷ (code ++ r)))
      → match_reason r ≡ o
      → with_reason v code o ≡ some m
      → IsStatusLine s m
  reasoned v code r none i c k e w = absurd (cc)
  reasoned v code r (some o) i c k e w =
      let (h, x) = reason_sound r o e in
      subst (IsStatusLine s) (some-injective _ m w) (record {
        version = i;
        code = c;
        reason = h;
        string = k ∙ ap (λ y. codes "HTTP/" ++ (v ++ (32 ∷ (code ++ y)))) x;
      })

  versioned :
      (o : Option (Bytes × Bytes))
      → match_http_version s ≡ o
      → after_version o ≡ some m
      → IsStatusLine s m
  versioned none e w = absurd (cc)
  versioned (some (v, [])) e w = absurd (cc)
  versioned (some (v, c ∷ [])) e w = absurd (cc)
  versioned (some (v, c ∷ x ∷ [])) e w = absurd (cc)
  versioned (some (v, c ∷ x ∷ y ∷ [])) e w = absurd (cc)
  versioned (some (v, c ∷ x ∷ y ∷ z ∷ r)) e w =
      let b = match_http_version_sound s v (c ∷ x ∷ y ∷ z ∷ r) e in
      let (tests, w') = if_some (c == 32 && is_digit x && is_digit y && is_digit z) _ m w in
      let (rest, third) = and_true _ (is_digit z) tests in
      let (rest', second) = and_true _ (is_digit y) rest in
      let (space, first) = and_true (c == 32) (is_digit x) rest' in
      reasoned v (x ∷ y ∷ z ∷ []) r (match_reason r) b.is_version
        (record {
          first = x;
          second = y;
          third = z;
          is = refl;
          first_digit = first;
          second_digit = second;
          third_digit = third;
        })
        (b.string
          ∙ append_assoc (codes "HTTP/") v (c ∷ x ∷ y ∷ z ∷ r)
          ∙ ap (λ q. codes "HTTP/" ++ (v ++ (q ∷ x ∷ y ∷ z ∷ r))) (byte_eq c 32 space))
        refl w'

  line_sound : match_status_line s ≡ some m → IsStatusLine s m
  unfolding match_status_line
  line_sound e = versioned (match_http_version s) refl e

groups_injective : (a b : StatusLine) → status_groups a ≡ status_groups b → a ≡ b
groups_injective a b h = sym (read_same a.reason) ∙ ap read h ∙ read_same b.reason
  where
    read_reason : Groups → Option Bytes
    read_reason [] = none
    read_reason ((x, phrase) ∷ g) = some phrase

    read : Groups → StatusLine
    read ((x, v) ∷ (y, c) ∷ g) = record {
      http_version = v;
      status_code = c;
      reason = read_reason g;
    }
    read g = a

    read_same :
        {v c : Bytes} (o : Option Bytes)
        → read (status_groups (record { http_version = v; status_code = c; reason = o }))
          ≡ record { http_version = v; status_code = c; reason = o }
    read_same none = refl
    read_same (some phrase) = refl

-- `match_status_line` decides `status_line`: where it gives a version, a status code and perhaps a
-- reason, the line matches the regular expression with these groups and with no others, and where it
-- refuses, the line does not match.
pub match_status_line-Decides :
    (s : Bytes) → Decides (λ m. Matches status_line s (status_groups m)) (match_status_line s)
match_status_line-Decides s =
    both-Decides (match_status_line s) (λ m e. parts s m (line_sound s m e))
      (λ m h.
        let (n, p, k) = parts_of s (status_groups m) h in
        line_complete s n p ∙ ap some (sym (groups_injective m n k)))
