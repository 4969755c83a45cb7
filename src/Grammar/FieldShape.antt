-- ===== src/Grammar/FieldShape.antt =====
-- The runs and the gaps of a field's value, as `field_content` of h11/_abnf.py has them.
use h.Prelude.{
  ℕ, ◌≡◌, refl, sym, ap, ◌∙◌, ◌⊎◌, inl, inr, Bool, true, false, not, ◌&&◌, [], ◌∷◌, ◌++◌, arith,
}
use mathlib.Core.List.{append_assoc}
use h.Prelude.Bytes.{Bytes, all_bytes}
use h.Abnf.{
  one_or_more, is_blank, is_vchar_or_obs_text, is_field_byte, starts_blank, ends_blank,
  match_field_value,
}
use h.Grammar.Spans.{and_true}
use h.Grammar.Regex.{Matches, Star, done, more, one, seq, plus}
use h.Grammar.Defs.{field_vchar, field_content, field_value}
use h.Grammar.Classes.{some_run}

-- Bytes of a field, with no blank at either end.
pub record IsTrimmed (s : Bytes) : Type 0 where
  pub bytes : all_bytes is_field_byte s ≡ true
  pub starts : starts_blank s ≡ false
  pub ends : ends_blank s ≡ false

trimmed_of_true :
    (a b c : Bool) → (a && not b && not c) ≡ true → (a ≡ true) × (b ≡ false) × (c ≡ false)
trimmed_of_true a b c h = ground arith

true_of_trimmed : (a b c : Bool) → a ≡ true → b ≡ false → c ≡ false → (a && not b && not c) ≡ true
true_of_trimmed a b c h k l = ground arith

pub match_field_value-IsTrimmed : (s : Bytes) → match_field_value s ≡ true → IsTrimmed s
unfolding match_field_value
match_field_value-IsTrimmed s h =
    let (a, b, c) = trimmed_of_true _ _ _ h in record { bytes = a; starts = b; ends = c }

pub IsTrimmed-match_field_value : (s : Bytes) → IsTrimmed s → match_field_value s ≡ true
unfolding match_field_value
IsTrimmed-match_field_value s t = true_of_trimmed _ _ _ t.bytes t.starts t.ends

-- The part that repeats.
abbrev pub Spaced : Bytes → Type 0
Spaced t = Matches (seq (plus (one is_blank)) (plus field_vchar)) t []

-- A string that begins with a visible byte, or with a blank.
data Shape (s : Bytes) : Type 0 where
  content :
      (u r : Bytes)
      → s ≡ u ++ r
      → one_or_more is_vchar_or_obs_text u ≡ true
      → Star Spaced r
      → Shape s
  tail :
      (b u r : Bytes)
      → s ≡ b ++ (u ++ r)
      → one_or_more is_blank b ≡ true
      → one_or_more is_vchar_or_obs_text u ≡ true
      → Star Spaced r
      → Shape s

spaced :
    (b u : Bytes)
    → one_or_more is_blank b ≡ true
    → one_or_more is_vchar_or_obs_text u ≡ true
    → Spaced (b ++ u)
spaced b u h k =
    (b, u, [], [], refl, refl, some_run is_blank b h, some_run is_vchar_or_obs_text u k)

one_more :
    (p : ℕ → Bool) (c : ℕ) (u : Bytes)
    → p c ≡ true
    → one_or_more p u ≡ true
    → one_or_more p (c ∷ u) ≡ true
unfolding all_bytes
one_more p c [] h k = absurd (cc)
one_more p c (x ∷ u) h k = rw (h, k) refl

just_one : (p : ℕ → Bool) (c : ℕ) → p c ≡ true → one_or_more p (c ∷ []) ≡ true
unfolding all_bytes
just_one p c h = rw h refl

visible_or_blank :
    (c : ℕ) → is_field_byte c ≡ true → (is_vchar_or_obs_text c ≡ true) ⊎ (is_blank c ≡ true)
visible_or_blank c h = ground arith

pub visible_not_blank : (c : ℕ) → is_vchar_or_obs_text c ≡ true → is_blank c ≡ false
visible_not_blank c h = ground arith

shape :
    (c : ℕ) (s : Bytes)
    → all_bytes is_field_byte (c ∷ s) ≡ true
    → ends_blank (c ∷ s) ≡ false
    → Shape (c ∷ s)
unfolding all_bytes ends_blank
shape c [] h e =
    let (field, others) = and_true (is_field_byte c) true h in
    elim (visible_or_blank c field) [
      | inl v ↦ content (c ∷ []) [] refl (just_one is_vchar_or_obs_text c v) done
      | inr w ↦ absurd (cc)
    ]
shape c (d ∷ s) h e =
    let (field, others) = and_true (is_field_byte c) (all_bytes is_field_byte (d ∷ s)) h in
    further (visible_or_blank c field) (shape d s others e)
  where
    further :
        (is_vchar_or_obs_text c ≡ true) ⊎ (is_blank c ≡ true) → Shape (d ∷ s) → Shape (c ∷ d ∷ s)
    further (inl v) (content u r k l q) =
        content (c ∷ u) r (ap (λ t. c ∷ t) k) (one_more is_vchar_or_obs_text c u v l) q
    further (inl v) (tail b u r k l l' q) =
        content (c ∷ []) (d ∷ s) refl (just_one is_vchar_or_obs_text c v)
          (more (b ++ u) r (k ∙ sym (append_assoc b u r)) (spaced b u l l') q)
    further (inr w) (content u r k l q) =
        tail (c ∷ []) u r (ap (λ t. c ∷ t) k) (just_one is_blank c w) l q
    further (inr w) (tail b u r k l l' q) =
        tail (c ∷ b) u r (ap (λ t. c ∷ t) k) (one_more is_blank c b w l) l' q

content_of :
    (c : ℕ) (s : Bytes) → is_blank c ≡ false → Shape (c ∷ s) → Matches field_content (c ∷ s) []
content_of c s w (content u r k l q) =
    (u, r, [], [], k, refl, some_run is_vchar_or_obs_text u l, (q, refl))
content_of c s w (tail [] u r k l l' q) = absurd (cc)
content_of c s w (tail (b ∷ bs) u r k l l' q) =
    absurd (false_true (sym w ∙ ap first_blank k ∙ (and_true (is_blank b) _ l).0))
  where
    first_blank : Bytes → Bool
    first_blank [] = false
    first_blank (x ∷ xs) = is_blank x

    false_true : ¬ (false ≡ true)
    false_true e = cc

pub value_of : (s : Bytes) → IsTrimmed s → Matches field_value s []
value_of [] t = inr (refl, refl)
value_of (c ∷ s) t = inl (content_of c s t.starts (shape c s t.bytes t.ends))
