-- ===== src/Protocol/Defs.antt =====
-- Results whose only exception is a LocalProtocolError (h11/_util.py), with what holds of the
-- value, and methods that keep something of their object besides.
use h.Prelude.{◌⊎◌, ℕ, ◌≡◌, refl, Bool, true, false, if◌then◌else◌, Option, none, some}
use h.Prelude.Exec.{
  Error, local_protocol_error, remote_protocol_error, assertion_error, runtime_error, index_error,
  attribute_error, Result, ok, err, Exec, continue, ◌>>=◌,
}
use h.Prelude.Fallible
use h.Abnf.{validate}

abbrev pub IsLocal : Error → Type 0
IsLocal (local_protocol_error hint) = Unit {0}
IsLocal _ = ⊥

abbrev pub IsRemote : Error → Type 0
IsRemote (remote_protocol_error hint) = Unit {0}
IsRemote _ = ⊥

abbrev pub IsProtocolError : Error → Type 0
IsProtocolError (local_protocol_error hint) = Unit {0}
IsProtocolError (remote_protocol_error hint) = Unit {0}
IsProtocolError _ = ⊥

pub IsLocal-IsProtocolError : (e : Error) → IsLocal e → IsProtocolError e
IsLocal-IsProtocolError (local_protocol_error hint) i = tt
IsLocal-IsProtocolError (remote_protocol_error hint) i = tt
IsLocal-IsProtocolError assertion_error i = absurd i
IsLocal-IsProtocolError runtime_error i = absurd i
IsLocal-IsProtocolError index_error i = absurd i
IsLocal-IsProtocolError attribute_error i = absurd i

-- An exception of a class with `E`, or an AttributeError where there is a reason for it.
abbrev pub OrAttribute : (Error → Type 0) → Type 0 → Error → Type 0
OrAttribute E reason e = E e ⊎ ((e ≡ attribute_error) × reason)

pub data Gives {A : Type 0} (P : A → Type 0) : Result A → Type 0 where
  returns : {a : A} → P a → Gives P (ok a)
  raised : {e : Error} → IsLocal e → Gives P (err e)

-- Nothing is said of the value.
abbrev pub Safe : {A : Type 0} → Result A → Type 0
Safe r = Gives (λ _. Unit {0}) r

pub Safe-ok : {A : Type 0} (a : A) → Safe (ok a)
Safe-ok a = returns tt

pub Safe-local : {A : Type 0} (hint : ℕ) → Safe {A = A} (err (local_protocol_error hint))
Safe-local hint = raised tt

module _ {A : Type 0} {P : A → Type 0} where
  pub Gives-local : (hint : ℕ) → Gives P (err (local_protocol_error hint))
  Gives-local hint = raised tt

  pub Gives-if :
      (b : Bool) (x y : Result A)
      → (b ≡ true → Gives P x)
      → (b ≡ false → Gives P y)
      → Gives P (if b then x else y)
  Gives-if true x y h k = h refl
  Gives-if false x y h k = k refl

  pub Gives-value : {a : A} → Gives P (ok a) → P a
  Gives-value (returns p) = p

  pub Gives-raised : {e : Error} → Gives P (err e) → IsLocal e
  Gives-raised (raised i) = i

  pub Gives-error : (r : Result A) (e : Error) → Gives P r → r ≡ err e → IsLocal e
  Gives-error r e g h = Gives-raised (rw h at g)

module _ {A B : Type 0} {P : A → Type 0} {Q : B → Type 0} where
  pub Gives-then :
      (r : Result A) (f : A → Result B)
      → Gives P r
      → ((a : A) → r ≡ ok a → P a → Gives Q (f a))
      → Gives Q (Fallible.◌>>=◌ r f)
  Gives-then r f (returns {a} p) k = k a refl p
  Gives-then r f (raised i) k = raised i

pub validate-Safe : {A : Type 0} (groups : Option A) → Safe (validate groups)
unfolding validate
validate-Safe none = raised tt
validate-Safe (some groups) = returns tt

-- A method that returns a value with `P`, or raises a LocalProtocolError, and keeps `I` either way.
pub record Ends {S A : Type 0} (I : S → Type 0) (P : A → Type 0) (p : Result A × S) : Type 0 where
  pub gives : Gives P p.0
  pub keeps : I p.1

module _ {S A : Type 0} {I : S → Type 0} {P : A → Type 0} where
  pub Ends-if :
      (b : Bool) (x y : Result A × S)
      → (b ≡ true → Ends I P x)
      → (b ≡ false → Ends I P y)
      → Ends I P (if b then x else y)
  Ends-if true x y h k = h refl
  Ends-if false x y h k = k refl

  -- A test between two methods.
  pub Ends-either :
      (b : Bool) (m n : Exec S A) (s : S)
      → (b ≡ true → Ends I P (m s))
      → (b ≡ false → Ends I P (n s))
      → Ends I P ((if b then m else n) s)
  Ends-either true m n s h k = h refl
  Ends-either false m n s h k = k refl

  pub Ends-lift : (r : Result A) (s : S) → Gives P r → I s → Ends I P (r, s)
  Ends-lift r s g i = record { gives = g; keeps = i }

module _ {S A B : Type 0} {I J : S → Type 0} {P : A → Type 0} {Q : B → Type 0} where
  pub Ends-then :
      (p : Result A × S) (f : A → Exec S B)
      → Ends I P p
      → ((s : S) → I s → J s)
      → ((a : A) (s : S) → P a → I s → Ends J Q (f a s))
      → Ends J Q (continue p.0 f p.1)
  Ends-then (ok a, s) f h w k = k a s (Gives-value h.gives) h.keeps
  Ends-then (err e, s) f h w k = record {
    gives = raised (Gives-raised h.gives);
    keeps = w s h.keeps;
  }

module _ {S A B : Type 0} {I : S → Type 0} {P : A → Type 0} {Q : B → Type 0} where
  -- The same invariant before and after.
  pub Ends-bind :
      (m : Exec S A) (f : A → Exec S B) (s : S)
      → Ends I P (m s)
      → ((a : A) (s : S) → P a → I s → Ends I Q (f a s))
      → Ends I Q ((m >>= f) s)
  Ends-bind m f s h k = Ends-then (m s) f h (λ s i. i) k
