-- ===== src/Grammar/FieldValue.antt =====
-- `field_value` of h11/_abnf.py, and `match_field_value` of Abnf.
use h.Prelude.{ℕ, ◌≡◌, refl, sym, ap, subst, ◌∙◌, inl, inr, Bool, true, false, [], ◌∷◌, ◌++◌, arith}
use mathlib.Core.List.{append_assoc, append-nil}
use h.Prelude.Bytes.{Bytes, all_bytes}
use h.Abnf.{
  when, one_or_more, is_blank, is_vchar_or_obs_text, is_field_byte, starts_blank, ends_blank,
  match_field_value,
}
use h.Grammar.Spans.{and_true}
use h.Grammar.Regex.{Groups, Matches, Star, done, more}
use h.Grammar.Defs.{field_value}
use h.Grammar.Classes.{Decides, plus_of}
use h.Grammar.FieldShape.{
  IsTrimmed, match_field_value-IsTrimmed, IsTrimmed-match_field_value, Spaced, visible_not_blank,
  value_of,
}

pub all-append :
    (p : ℕ → Bool) (a b : Bytes)
    → all_bytes p a ≡ true
    → all_bytes p b ≡ true
    → all_bytes p (a ++ b) ≡ true
unfolding all_bytes
all-append p [] b h k = k
all-append p (c ∷ a) b h k =
    let (first, others) = and_true (p c) (all_bytes p a) h in
    rw (first, all-append p a b others k) refl

pub all-weaker :
    (p q : ℕ → Bool) (s : Bytes)
    → ((c : ℕ) → p c ≡ true → q c ≡ true)
    → all_bytes p s ≡ true
    → all_bytes q s ≡ true
unfolding all_bytes
all-weaker p q [] w h = refl
all-weaker p q (c ∷ s) w h =
    let (first, others) = and_true (p c) (all_bytes p s) h in
    rw (w c first, all-weaker p q s w others) refl

pub all_of_run : (p : ℕ → Bool) (s : Bytes) → one_or_more p s ≡ true → all_bytes p s ≡ true
unfolding all_bytes
all_of_run p [] h = refl
all_of_run p (c ∷ s) h = h

ends-append : (a : Bytes) (c : ℕ) (b : Bytes) → ends_blank (a ++ (c ∷ b)) ≡ ends_blank (c ∷ b)
unfolding ends_blank
ends-append [] c b = refl
ends-append (x ∷ []) c b = refl
ends-append (x ∷ y ∷ a) c b = ends-append (y ∷ a) c b

-- Field bytes, the last of which is visible.
record IsSolid (s : Bytes) : Type 0 where
  first : ℕ
  others : Bytes
  is : s ≡ first ∷ others
  bytes : all_bytes is_field_byte s ≡ true
  ends : ends_blank s ≡ false

run_ends : (s : Bytes) → one_or_more is_vchar_or_obs_text s ≡ true → ends_blank s ≡ false
unfolding ends_blank all_bytes
run_ends [] h = absurd (cc)
run_ends (c ∷ []) h = visible_not_blank c (and_true (is_vchar_or_obs_text c) true h).0
run_ends (c ∷ d ∷ s) h = run_ends (d ∷ s) (and_true (is_vchar_or_obs_text c) _ h).1

visible_is_field : (c : ℕ) → is_vchar_or_obs_text c ≡ true → is_field_byte c ≡ true
visible_is_field c h = ground arith

blank_is_field : (c : ℕ) → is_blank c ≡ true → is_field_byte c ≡ true
blank_is_field c h = ground arith

run-IsSolid : (s : Bytes) → one_or_more is_vchar_or_obs_text s ≡ true → IsSolid s
run-IsSolid [] h = absurd (cc)
run-IsSolid (c ∷ s) h = record {
  first = c;
  others = s;
  is = refl;
  bytes =
      all-weaker is_vchar_or_obs_text is_field_byte (c ∷ s) visible_is_field
        (all_of_run is_vchar_or_obs_text (c ∷ s) h);
  ends = run_ends (c ∷ s) h;
}

behind-IsSolid : (a b : Bytes) → all_bytes is_field_byte a ≡ true → IsSolid b → IsSolid (a ++ b)
behind-IsSolid [] b h t = t
behind-IsSolid (c ∷ a) b h t = record {
  first = c;
  others = a ++ b;
  is = refl;
  bytes = all-append is_field_byte (c ∷ a) b h t.bytes;
  ends =
      ap (λ x. ends_blank ((c ∷ a) ++ x)) t.is
      ∙ ends-append (c ∷ a) t.first t.others
      ∙ sym (ap ends_blank t.is)
      ∙ t.ends;
}

repeated-IsSolid : (s r : Bytes) → IsSolid s → Star Spaced r → IsSolid (s ++ r)
repeated-IsSolid s r t done = subst IsSolid (sym (append-nil s)) t
repeated-IsSolid s r t (more a b e (s₁, s₂, g₁, g₂, k, l, m, n) q) =
    let (blank, x) = plus_of is_blank s₁ g₁ m in
    let (visible, y) = plus_of is_vchar_or_obs_text s₂ g₂ n in
    let front =
      behind-IsSolid s₁ s₂
        (all-weaker is_blank is_field_byte s₁ blank_is_field (all_of_run is_blank s₁ blank))
        (run-IsSolid s₂ visible) in
    let whole =
      repeated-IsSolid (s ++ a) b (behind-IsSolid s a t.bytes (subst IsSolid (sym k) front)) q in
    subst IsSolid (append_assoc s a b ∙ ap (λ x. s ++ x) (sym e)) whole

starts_of_run :
    (u r : Bytes) → one_or_more is_vchar_or_obs_text u ≡ true → starts_blank (u ++ r) ≡ false
starts_of_run [] r h = absurd (cc)
starts_of_run (c ∷ u) r h = visible_not_blank c (and_true (is_vchar_or_obs_text c) _ h).0

pub of_value : (s : Bytes) (g : Groups) → Matches field_value s g → IsTrimmed s × (g ≡ [])
unfolding all_bytes ends_blank
of_value s g (inr (e, k)) = (rw e (record { bytes = refl; starts = refl; ends = refl }), k)
of_value s g (inl (u, r, g₁, g₂, e, k, m, (q, w))) =
    let (visible, y) = plus_of is_vchar_or_obs_text u g₁ m in
    let t = repeated-IsSolid u r (run-IsSolid u visible) q in
    (
      rw e (record { bytes = t.bytes; starts = starts_of_run u r visible; ends = t.ends }),
      rw (k, y, w) refl,
    )

-- `match_field_value` decides `field_value`.
pub match_field_value-Decides :
    (s : Bytes) → Decides (λ _. Matches field_value s []) (when (match_field_value s))
match_field_value-Decides s = decided (match_field_value s) refl
  where
    decided :
        (b : Bool) → match_field_value s ≡ b → Decides (λ _. Matches field_value s []) (when b)
    decided true e = (value_of s (match_field_value-IsTrimmed s e), λ b h. refl)
    decided false e = λ b h. absurd (cc (IsTrimmed-match_field_value s (of_value s [] h).0))
