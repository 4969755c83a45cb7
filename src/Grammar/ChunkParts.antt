-- ===== src/Grammar/ChunkParts.antt =====
-- The parts of a string that matches `chunk_header` of h11/_abnf.py.
use h.Prelude.{
  ℕ, zero, suc, ◌+◌, ◌≤◌, ◌≡◌, refl, sym, ap, subst, ◌∙◌, inl, inr, ◌==◌, Bool, true, not, [], ◌∷◌,
  ◌++◌, arith,
}
use mathlib.Core.List.{append_assoc}
use h.Prelude.Lists.{length}
use h.Prelude.Bytes.{Bytes, codes, all_bytes}
use h.Abnf.{is_hexdig, is_blank}
use h.Grammar.Spans.{and_true}
use h.Grammar.Regex.{Groups, Matches, one, seq, repeat, group, opt, text}
use h.Grammar.Defs.{ows, chunk_ext, chunk_header}
use h.Grammar.Classes.{run_of, run, text_of, spelled}
use h.Grammar.FieldValue.{all-append, all-weaker}

-- A run of a bounded length.
pub record IsRepeat (p : ℕ → Bool) (m k : ℕ) (s : Bytes) : Type 0 where
  pub bytes : all_bytes p s ≡ true
  pub least : m ≤ length s
  pub most : length s ≤ m + k

repeat_of :
    (p : ℕ → Bool) (m k : ℕ) (s : Bytes) (g : Groups)
    → Matches (repeat m k (one p)) s g
    → IsRepeat p m k s × (g ≡ [])
unfolding all_bytes
repeat_of p zero zero s g (e, l) =
    (rw e (record { bytes = refl; least = omega arith; most = omega arith }), l)
repeat_of p zero (suc k) s g (inr (e, l)) =
    (rw e (record { bytes = refl; least = omega arith; most = omega arith }), l)
repeat_of p zero (suc k) s g (inl (s₁, s₂, g₁, g₂, e, l, (c, x, y, z), m)) =
    let (r, w) = repeat_of p zero k s₂ g₂ m in
    (
      rw (e, x)
          (record {
            bytes = rw (y, r.bytes) refl;
            least = omega arith;
            most = omega (arith, r.most);
          }),
      rw (l, z, w) refl,
    )
repeat_of p (suc n) k s g (s₁, s₂, g₁, g₂, e, l, (c, x, y, z), m) =
    let (r, w) = repeat_of p n k s₂ g₂ m in
    (
      rw (e, x)
          (record {
            bytes = rw (y, r.bytes) refl;
            least = omega (arith, r.least);
            most = omega (arith, r.most);
          }),
      rw (l, z, w) refl,
    )

repeated :
    (p : ℕ → Bool) (m k : ℕ) (s : Bytes)
    → all_bytes p s ≡ true
    → m ≤ length s
    → length s ≤ m + k
    → Matches (repeat m k (one p)) s []
unfolding all_bytes
repeated p zero zero [] h a b = (refl, refl)
repeated p zero zero (c ∷ s) h a b = absurd (omega arith)
repeated p zero (suc k) [] h a b = inr (refl, refl)
repeated p zero (suc k) (c ∷ s) h a b =
    let (first, others) = and_true (p c) (all_bytes p s) h in
    inl (
      c ∷ [],
      s,
      [],
      [],
      refl,
      refl,
      (c, refl, first, refl),
      repeated p zero k s others (omega arith) (omega arith),
    )
repeated p (suc m) k [] h a b = absurd (omega arith)
repeated p (suc m) k (c ∷ s) h a b =
    let (first, others) = and_true (p c) (all_bytes p s) h in
    (
      c ∷ [],
      s,
      [],
      [],
      refl,
      refl,
      (c, refl, first, refl),
      repeated p m k s others (omega arith) (omega arith),
    )

-- What stands between the size and the end of the line: an extension, or blanks.
pub data IsExtension : Bytes → Type 0 where
  blanks : {q : Bytes} → all_bytes is_blank q ≡ true → IsExtension q
  extension : {q : Bytes} → all_bytes (λ c. not (c == 10)) q ≡ true → IsExtension (59 ∷ q)

pub record IsChunkHeader (s size : Bytes) : Type 0 where
  pub digits : IsRepeat is_hexdig 1 19 size
  pub between : Bytes
  pub is_extension : IsExtension between
  pub string : s ≡ size ++ (between ++ (13 ∷ 10 ∷ []))

blank_no_newline : (c : ℕ) → is_blank c ≡ true → not (c == 10) ≡ true
blank_no_newline c h = ground arith

ext-IsExtension :
    (s t : Bytes) (g : Groups)
    → Matches (opt (group (codes "chunk_ext") chunk_ext)) s g
    → all_bytes is_blank t ≡ true
    → IsExtension (s ++ t)
ext-IsExtension s t g (inr (e, l)) h = rw e (blanks h)
ext-IsExtension s t g (inl (i, l, (s₁, s₂, g₁, g₂, e, k, m, n))) h =
    let (semicolon, x) = text_of (codes ";") s₁ g₁ m in
    let (any, y) = run_of (λ c. not (c == 10)) s₂ g₂ n in
    rw (e, semicolon)
      (extension (
        all-append (λ c. not (c == 10)) s₂ t any
          (all-weaker is_blank (λ c. not (c == 10)) t blank_no_newline h)))

pub parts_of :
    (s size : Bytes) (g : Groups)
    → Matches chunk_header s ((codes "chunk_size", size) ∷ g)
    → IsChunkHeader s size
parts_of s size g
      (
        s₁,
        t₁,
        g₁,
        h₁,
        e₁,
        k₁,
        (i₁, l₁, m₁),
        (s₂, t₂, g₂, h₂, e₂, k₂, m₂, (s₃, t₃, g₃, h₃, e₃, k₃, m₃, m₄)),
      ) =
    let (digits, a) = repeat_of is_hexdig 1 19 s₁ i₁ m₁ in
    let (blank, b) = run_of is_blank s₃ g₃ m₃ in
    let (crlf, c) = text_of (codes "\r\n") t₃ h₃ m₄ in
    let same : size ≡ s₁ = ap first (k₁ ∙ ap (λ x. x ++ h₁) l₁) in
    subst (IsChunkHeader s) (sym same) (record {
      digits = digits;
      between = s₂ ++ s₃;
      is_extension = ext-IsExtension s₂ s₃ g₂ m₂ blank;
      string = rw (e₁, e₂, e₃, crlf) (ap (λ x. s₁ ++ x) (sym (append_assoc s₂ s₃ (13 ∷ 10 ∷ []))));
    })
  where
    first : Groups → Bytes
    first [] = size
    first ((x, v) ∷ h) = v

-- The groups that a match has.
abbrev pub ext_groups : {q : Bytes} → IsExtension q → Groups
ext_groups (blanks h) = []
ext_groups (extension {q} h) = (codes "chunk_ext", 59 ∷ q) ∷ []

pub parts :
    (s size : Bytes) (p : IsChunkHeader s size)
    → Matches chunk_header s ((codes "chunk_size", size) ∷ ext_groups p.is_extension)
parts s size p = (
  size,
  p.between ++ (13 ∷ 10 ∷ []),
  (codes "chunk_size", size) ∷ [],
  _,
  p.string,
  refl,
  ([], refl, repeated is_hexdig 1 19 size p.digits.bytes p.digits.least p.digits.most),
  behind p.between p.is_extension,
)
  where
    behind :
        (q : Bytes) (i : IsExtension q)
        → Matches
            (seq (opt (group (codes "chunk_ext") chunk_ext)) (seq ows (text (codes "\r\n"))))
            (q ++ (13 ∷ 10 ∷ []))
            (ext_groups i)
    behind q (blanks h) = (
      [],
      q ++ (13 ∷ 10 ∷ []),
      [],
      [],
      refl,
      refl,
      inr (refl, refl),
      (q, 13 ∷ 10 ∷ [], [], [], refl, refl, run is_blank q h, spelled (codes "\r\n")),
    )
    behind _ (extension {q} h) = (
      59 ∷ q,
      13 ∷ 10 ∷ [],
      (codes "chunk_ext", 59 ∷ q) ∷ [],
      [],
      refl,
      refl,
      inl (
        [],
        refl,
        (59 ∷ [], q, [], [], refl, refl, spelled (codes ";"), run (λ c. not (c == 10)) q h),
      ),
      (
        [],
        13 ∷ 10 ∷ [],
        [],
        [],
        refl,
        refl,
        run is_blank [] (unfold all_bytes in refl),
        spelled (codes "\r\n"),
      ),
    )
