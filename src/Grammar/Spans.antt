-- ===== src/Grammar/Spans.antt =====
-- Runs of bytes of one class, and what follows them.
use h.Prelude.{
  ℕ, ◌≡◌, refl, ap, Bool, true, false, ◌&&◌, [], ◌∷◌, ◌++◌, arith, Bool-cases, inl, inr,
}
use h.Prelude.Bytes.{Bytes, all_bytes, span}

pub and_true : (a b : Bool) → (a && b) ≡ true → (a ≡ true) × (b ≡ true)
and_true a b h = ground arith

pub span-all :
    (p : ℕ → Bool) (a : Bytes) (x : ℕ) (r : Bytes)
    → all_bytes p a ≡ true
    → p x ≡ false
    → span p (a ++ x ∷ r) ≡ (a, x ∷ r)
unfolding span all_bytes
span-all p [] x r h k = rw k
span-all p (y ∷ a) x r h k =
    let (first, others) = and_true (p y) (all_bytes p a) h in rw (span-all p a x r others k, first)

pub span-All : (p : ℕ → Bool) (s : Bytes) → all_bytes p (span p s).0 ≡ true
unfolding span all_bytes
span-All p [] = refl
span-All p (x ∷ s) = elim (Bool-cases (p x)) [
  | inl in_it ↦ rw (in_it, in_it, span-All p s) refl
  | inr out ↦ rw out refl
]

pub append-span : (p : ℕ → Bool) (s : Bytes) → (span p s).0 ++ (span p s).1 ≡ s
unfolding span
append-span p [] = refl
append-span p (x ∷ s) = elim (Bool-cases (p x)) [
  | inl in_it ↦ rw in_it (ap (λ t. x ∷ t) (append-span p s))
  | inr out ↦ rw out refl
]
