-- ===== src/Grammar/ChunkHeader.antt =====
-- `chunk_header` of h11/_abnf.py, and `match_chunk_header` of Abnf.
use h.Prelude.{
  ℕ, ◌≤◌, ◌≡◌, refl, sym, ap, subst, ◌∙◌, inl, inr, ◌==◌, true, false, leb, ◌&&◌, Option, none,
  some, [], ◌∷◌, ◌++◌, arith, Bool-cases,
}
use h.Prelude.Lists.{length}
use h.Prelude.Bytes.{Bytes, codes, all_bytes, span}
use h.Abnf.{is_hexdig, is_blank, before_crlf, match_chunk_ext, match_chunk_header}
use h.Grammar.Spans.{and_true, span-all, span-All, append-span}
use h.Grammar.Regex.{Groups, Matches}
use h.Grammar.Defs.{chunk_header}
use h.Grammar.Classes.{Decides, both-Decides, some-injective, byte_eq, if_some}
use h.Grammar.ChunkParts.{
  IsRepeat, IsExtension, blanks, extension, IsChunkHeader, ext_groups, parts_of, parts,
}

before_crlf-append : (q : Bytes) → before_crlf (q ++ (13 ∷ 10 ∷ [])) ≡ some q
unfolding before_crlf
before_crlf-append [] = refl
before_crlf-append (c ∷ []) = refl
before_crlf-append (c ∷ d ∷ q) = longer q c d (before_crlf-append (d ∷ q))
  where
    longer :
        (q : Bytes) (c d : ℕ)
        → before_crlf (d ∷ (q ++ (13 ∷ 10 ∷ []))) ≡ some (d ∷ q)
        → before_crlf (c ∷ d ∷ (q ++ (13 ∷ 10 ∷ []))) ≡ some (c ∷ d ∷ q)
    longer [] c d h = refl
    longer (x ∷ q) c d h = rw h refl

crlf_behind : (r q : Bytes) → before_crlf r ≡ some q → r ≡ q ++ (13 ∷ 10 ∷ [])
unfolding before_crlf
crlf_behind [] q e = absurd (cc)
crlf_behind (x ∷ []) q e = absurd (cc)
crlf_behind (x ∷ y ∷ []) q e =
    let (tests, e') = if_some (x == 13 && y == 10) (some []) q e in
    let (cr, lf) = and_true (x == 13) (y == 10) tests in
    rw (byte_eq x 13 cr, byte_eq y 10 lf) (ap (λ z. z ++ (13 ∷ 10 ∷ [])) (some-injective [] q e'))
crlf_behind (x ∷ y ∷ z ∷ r) q e = by_rest (before_crlf (y ∷ z ∷ r)) refl e (crlf_behind (y ∷ z ∷ r))
  where
    by_rest :
        (o : Option Bytes)
        → before_crlf (y ∷ z ∷ r) ≡ o
        → (elim o [ none ↦ none | some s ↦ some (x ∷ s) ]) ≡ some q
        → ((s : Bytes) → before_crlf (y ∷ z ∷ r) ≡ some s → y ∷ z ∷ r ≡ s ++ (13 ∷ 10 ∷ []))
        → x ∷ y ∷ z ∷ r ≡ q ++ (13 ∷ 10 ∷ [])
    by_rest none h k f = absurd (cc)
    by_rest (some s) h k f =
        ap (λ w. x ∷ w) (f s h) ∙ ap (λ w. w ++ (13 ∷ 10 ∷ [])) (some-injective (x ∷ s) q k)

semicolon_no_blank : (c : ℕ) → is_blank c ≡ true → (c == 59) ≡ false
semicolon_no_blank c h = ground arith

extension_complete : (q : Bytes) → IsExtension q → match_chunk_ext (some q) ≡ true
unfolding all_bytes
extension_complete [] i = refl
extension_complete (c ∷ q) (blanks h) =
    let (first, others) = and_true (is_blank c) (all_bytes is_blank q) h in
    rw (semicolon_no_blank c first) h
extension_complete (_ ∷ _) (extension h) = h

match_chunk_ext-IsExtension : (q : Bytes) → match_chunk_ext (some q) ≡ true → IsExtension q
unfolding all_bytes
match_chunk_ext-IsExtension [] h = blanks refl
match_chunk_ext-IsExtension (c ∷ q) h = elim (Bool-cases (c == 59)) [
  | inl e ↦ rw (byte_eq c 59 e) (extension (rw e at h))
  | inr n ↦ blanks (rw n at h)
]

-- Neither an extension nor the end of the line begins with a digit.
not_hexdig : (c : ℕ) → is_blank c ≡ true → is_hexdig c ≡ false
not_hexdig c h = ground arith

size_span :
    (size q : Bytes)
    → all_bytes is_hexdig size ≡ true
    → IsExtension q
    → span is_hexdig (size ++ (q ++ (13 ∷ 10 ∷ []))) ≡ (size, q ++ (13 ∷ 10 ∷ []))
unfolding all_bytes
size_span size [] h i = span-all is_hexdig size 13 (10 ∷ []) h refl
size_span size (c ∷ q) h (blanks b) =
    let (first, others) = and_true (is_blank c) (all_bytes is_blank q) b in
    span-all is_hexdig size c (q ++ (13 ∷ 10 ∷ [])) h (not_hexdig c first)
size_span size (_ ∷ q) h (extension b) = span-all is_hexdig size 59 (q ++ (13 ∷ 10 ∷ [])) h refl

bounds_test : (n : ℕ) → 1 ≤ n → n ≤ 20 → (leb 1 n && leb n 20) ≡ true
bounds_test n a b = ground arith

header_complete : (s size : Bytes) → IsChunkHeader s size → match_chunk_header s ≡ some size
unfolding match_chunk_header
header_complete s size p =
    rw
      (
        p.string,
        size_span size p.between p.digits.bytes p.is_extension,
        before_crlf-append p.between,
        extension_complete p.between p.is_extension,
        bounds_test (length size) p.digits.least p.digits.most,
      )
      refl

bounds_of : (n : ℕ) → (leb 1 n && leb n 20) ≡ true → (1 ≤ n) × (n ≤ 20)
bounds_of n h = ground arith

header_sound : (s size : Bytes) → match_chunk_header s ≡ some size → IsChunkHeader s size
unfolding match_chunk_header
header_sound s size e =
    let found = (span is_hexdig s).0 in
    let rest = (span is_hexdig s).1 in
    let (tests, same) = if_some _ (some found) size e in
    let (bounds, ext) = and_true _ (match_chunk_ext (before_crlf rest)) tests in
    let (least, most) = bounds_of (length found) bounds in
    subst (IsChunkHeader s) (some-injective found size same) (
      by_end (before_crlf rest) refl ext
        (record { bytes = span-All is_hexdig s; least = least; most = most }))
  where
    by_end :
        (o : Option Bytes)
        → before_crlf (span is_hexdig s).1 ≡ o
        → match_chunk_ext o ≡ true
        → IsRepeat is_hexdig 1 19 (span is_hexdig s).0
        → IsChunkHeader s (span is_hexdig s).0
    by_end none h x r = absurd (cc)
    by_end (some q) h x r = record {
      digits = r;
      between = q;
      is_extension = match_chunk_ext-IsExtension q x;
      string =
          sym (append-span is_hexdig s)
          ∙ ap (λ y. (span is_hexdig s).0 ++ y) (crlf_behind (span is_hexdig s).1 q h);
    }

-- `match_chunk_header` decides `chunk_header`: where it gives a size, the line matches the regular
-- expression with this group, perhaps with a group for the extension behind it, and with no other
-- size, and where it refuses, the line does not match.
pub match_chunk_header-Decides :
    (s : Bytes)
    → Decides
        (λ size. (g : Groups) × Matches chunk_header s ((codes "chunk_size", size) ∷ g))
        (match_chunk_header s)
match_chunk_header-Decides s =
    both-Decides (match_chunk_header s)
      (λ size e. let p = header_sound s size e in (ext_groups p.is_extension, parts s size p))
      (λ size (g, h). header_complete s size (parts_of s size g h))
