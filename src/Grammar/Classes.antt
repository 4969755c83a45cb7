-- ===== src/Grammar/Classes.antt =====
-- The simplest expressions of h11/_abnf.py, and the tests of Abnf for them.
use h.Prelude.{
  ℕ, ◌≡◌, refl, sym, ◌==◌, Bool, true, false, if◌then◌else◌, Option, none, some, [], ◌∷◌, arith,
}
use h.Prelude.Bytes.{Bytes, all_bytes}
use h.Grammar.Spans.{and_true}
use h.Abnf.{one_or_more}
use h.Grammar.Regex.{one, star, Groups, Star, done, more, Matches, plus, text}

-- Where a recogniser answers `a`, `R a` holds, and of nothing else; where it refuses, of nothing.
abbrev pub Decides : {A : Type 0} → (A → Type 0) → Option A → Type 0
Decides {A} R (some a) = R a × ((b : A) → R b → b ≡ a)
Decides {A} R none = (b : A) → ¬ R b

pub some-injective : {A : Type 0} (a b : A) → some a ≡ some b → a ≡ b
some-injective a b h = cc

pub both-Decides :
    {A : Type 0} {R : A → Type 0} (o : Option A)
    → ((a : A) → o ≡ some a → R a)
    → ((a : A) → R a → o ≡ some a)
    → Decides R o
both-Decides (some a) sound complete =
    (sound a refl, λ b h. some-injective b a (sym (complete b h)))
both-Decides none sound complete = λ b h. absurd (cc (complete b h))

-- A test has no answer but yes.
pub if_some :
    {A : Type 0} (b : Bool) (x : Option A) (a : A)
    → (if b then x else none) ≡ some a
    → (b ≡ true) × (x ≡ some a)
if_some true x a h = (refl, h)
if_some false x a h = absurd (cc)

module _ (p : ℕ → Bool) where
  of_Star : (s : Bytes) → Star (λ t. Matches (one p) t []) s → all_bytes p s ≡ true
  unfolding all_bytes
  of_Star s done = refl
  of_Star s (more a b e (c, x, y, z) r) = rw (e, x) (rw (y, of_Star b r) refl)

  to_Star : (s : Bytes) → all_bytes p s ≡ true → Star (λ t. Matches (one p) t []) s
  unfolding all_bytes
  to_Star [] h = done
  to_Star (c ∷ s) h =
      let (first, others) = and_true (p c) (all_bytes p s) h in
      more (c ∷ []) s refl (c, refl, first, refl) (to_Star s others)

  pub run_of :
      (s : Bytes) (g : Groups) → Matches (star (one p)) s g → (all_bytes p s ≡ true) × (g ≡ [])
  run_of s g (h, e) = (of_Star s h, e)

  pub run : (s : Bytes) → all_bytes p s ≡ true → Matches (star (one p)) s []
  run s h = (to_Star s h, refl)

  pub plus_of :
      (s : Bytes) (g : Groups) → Matches (plus (one p)) s g → (one_or_more p s ≡ true) × (g ≡ [])
  plus_of s g (s₁, s₂, g₁, g₂, e, k, (c, x, y, z), (r, w)) =
      (rw (e, x) (rw (y, of_Star s₂ r) refl), rw (k, z, w) refl)

  pub some_run : (s : Bytes) → one_or_more p s ≡ true → Matches (plus (one p)) s []
  some_run [] h = absurd (cc)
  some_run (c ∷ s) h =
      let (first, others) = and_true (p c) (all_bytes p s) h in
      (c ∷ [], s, [], [], refl, refl, (c, refl, first, refl), (to_Star s others, refl))

pub byte_eq : (x c : ℕ) → (x == c) ≡ true → x ≡ c
byte_eq x c h = ground arith

byte_same : (c : ℕ) → (c == c) ≡ true
byte_same c = ground arith

pub text_of : (t s : Bytes) (g : Groups) → Matches (text t) s g → (s ≡ t) × (g ≡ [])
text_of [] s g (e, k) = (e, k)
text_of (c ∷ t) s g (s₁, s₂, g₁, g₂, e, k, (x, y, z, w), r) =
    let (f, l) = text_of t s₂ g₂ r in (rw (e, y, byte_eq x c z, f) refl, rw (k, w, l) refl)

pub spelled : (t : Bytes) → Matches (text t) t []
spelled [] = (refl, refl)
spelled (c ∷ t) = (c ∷ [], t, [], [], refl, refl, (c, refl, byte_same c, refl), spelled t)
