-- ===== src/Grammar/Strips.antt =====
-- What `strip` takes off and leaves (`strip_left` and `strip_right` of Prelude/Bytes), for blanks.
use h.Prelude.{◌≡◌, refl, sym, ap, ◌∙◌, inl, inr, Bool, true, false, [], ◌∷◌, ◌++◌, Bool-cases}
use mathlib.Core.List.{append-nil}
use h.Prelude.Bytes.{Bytes, all_bytes, strip_left, strip_right}
use h.Abnf.{is_blank, starts_blank, ends_blank}
use h.Grammar.Spans.{and_true}
use h.Grammar.FieldShape.{IsTrimmed}
use h.Grammar.FieldValue.{all-append}

-- What the two strips take off.
strip_left-run :
    (a s : Bytes)
    → all_bytes is_blank a ≡ true
    → starts_blank s ≡ false
    → strip_left is_blank (a ++ s) ≡ s
unfolding strip_left all_bytes
strip_left-run [] [] h k = refl
strip_left-run [] (c ∷ s) h k = rw k refl
strip_left-run (c ∷ a) s h k =
    let (first, others) = and_true (is_blank c) (all_bytes is_blank a) h in
    rw (first, strip_left-run a s others k) refl

strip_right-blank : (a : Bytes) → all_bytes is_blank a ≡ true → strip_right is_blank a ≡ []
unfolding strip_right all_bytes
strip_right-blank [] h = refl
strip_right-blank (c ∷ a) h =
    let (first, others) = and_true (is_blank c) (all_bytes is_blank a) h in
    rw (strip_right-blank a others, first) refl

strip_right-run :
    (s b : Bytes)
    → ends_blank s ≡ false
    → all_bytes is_blank b ≡ true
    → strip_right is_blank (s ++ b) ≡ s
unfolding strip_right ends_blank
strip_right-run [] b k h = strip_right-blank b h
strip_right-run (c ∷ []) b k h = rw (strip_right-blank b h, k) refl
strip_right-run (c ∷ d ∷ s) b k h = rw (strip_right-run (d ∷ s) b k h) refl

pub stripped :
    (a v b : Bytes)
    → all_bytes is_blank a ≡ true
    → all_bytes is_blank b ≡ true
    → IsTrimmed v
    → strip_right is_blank (strip_left is_blank (a ++ (v ++ b))) ≡ v
unfolding strip_right
stripped a [] b h k t =
    let blanks = all-append is_blank a b h k in
    ap (strip_right is_blank) (
      ap (strip_left is_blank) (sym (append-nil (a ++ b))) ∙ strip_left-run (a ++ b) [] blanks refl)
stripped a (c ∷ v) b h k t =
    rw (strip_left-run a (c ∷ (v ++ b)) h t.starts) (strip_right-run (c ∷ v) b t.ends k)

-- What the strips leave.
pub record StripsFront (s : Bytes) : Type 0 where
  pub off : Bytes
  pub blank : all_bytes is_blank off ≡ true
  pub is : s ≡ off ++ strip_left is_blank s
  pub starts : starts_blank (strip_left is_blank s) ≡ false

pub strip_left-StripsFront : (s : Bytes) → StripsFront s
unfolding strip_left all_bytes
strip_left-StripsFront [] = record { off = []; blank = refl; is = refl; starts = refl }
strip_left-StripsFront (c ∷ s) = elim (Bool-cases (is_blank c)) [
  | inl b ↦
      let l = strip_left-StripsFront s in
      record {
        off = c ∷ l.off;
        blank = rw (b, l.blank) refl;
        is = rw b (ap (λ x. c ∷ x) l.is);
        starts = rw b (l.starts);
      }
  | inr v ↦ record { off = []; blank = refl; is = rw v refl; starts = rw v (v) }
]

pub record StripsBack (s : Bytes) : Type 0 where
  pub off : Bytes
  pub blank : all_bytes is_blank off ≡ true
  pub is : s ≡ strip_right is_blank s ++ off
  pub ends : ends_blank (strip_right is_blank s) ≡ false
  pub starts : starts_blank s ≡ false → starts_blank (strip_right is_blank s) ≡ false

pub strip_right-StripsBack : (s : Bytes) → StripsBack s
unfolding strip_right ends_blank all_bytes
strip_right-StripsBack [] = record {
  off = [];
  blank = refl;
  is = refl;
  ends = refl;
  starts = λ h. refl;
}
strip_right-StripsBack (c ∷ s) = by_rest (strip_right is_blank s) (strip_right-StripsBack s) refl
  where
    by_last :
        (b : Bool) (r : StripsBack s)
        → is_blank c ≡ b
        → strip_right is_blank s ≡ []
        → StripsBack (c ∷ s)
    by_last true r b e = record {
      off = c ∷ s;
      blank = rw (b, r.is, e, r.blank) refl;
      is = rw (e, b) refl;
      ends = rw (e, b) refl;
      starts = λ h. rw (e, b) refl;
    }
    by_last false r b e = record {
      off = s;
      blank = rw (r.is, e) (r.blank);
      is = rw (e, b) refl;
      ends = rw (e, b) (b);
      starts = λ h. rw (e, b) (b);
    }

    by_rest : (o : Bytes) → StripsBack s → strip_right is_blank s ≡ o → StripsBack (c ∷ s)
    by_rest [] r e = by_last (is_blank c) r refl e
    by_rest (y ∷ ys) r e = record {
      off = r.off;
      blank = r.blank;
      is = rw e (ap (λ x. c ∷ x) (r.is ∙ ap (λ x. x ++ r.off) e));
      ends = rw e (ap ends_blank (sym e) ∙ r.ends);
      starts = λ h. rw e h;
    }
