-- ===== src/Prelude/Exec.antt =====
-- Python's exceptions as values, and its methods: a method takes the fields of its object and gives
-- them back beside what it returns or raises, since an exception undoes no assignment.
use Prim.Native.Nat.{ℕ}
use mathlib.Core.Bool.{Bool, true, false}

-- The classes of exceptions that the program raises. The two protocol errors (h11/_util.py) keep
-- their `error_status_hint`; the text of a message is left out.
pub data Error : Type 0 where
  local_protocol_error : ℕ → Error
  remote_protocol_error : ℕ → Error
  assertion_error : Error
  runtime_error : Error
  index_error attribute_error : Error

pub data Result {ℓ} (A : Type ℓ) : Type ℓ where
  ok : A → Result A
  err : Error → Result A

abbrev pub Exec {ℓ} : Type ℓ → Type ℓ → Type ℓ
Exec S A = S → Result A × S

module _ {ℓ} {S A : Type ℓ} where
  -- An expression that reads fields.
  abbrev pub gets : (S → A) → Exec S A
  gets read self = (ok (read self), self)

  -- A call of a function that may raise.
  abbrev pub lift : Result A → Exec S A
  lift outcome self = (outcome, self)

  abbrev pub raise : Error → Exec S A
  raise e self = (err e, self)

  -- `return a`
  abbrev pub pure : A → Exec S A
  pure a self = (ok a, self)

-- Assignments to attributes.
abbrev pub modify : {S : Type 0} → (S → S) → Exec S (Unit {0})
modify f s = (ok tt, f s)

-- `assert b`
abbrev pub assert : {S : Type 0} → Bool → Exec S (Unit {0})
assert true s = (ok tt, s)
assert false s = (err assertion_error, s)

module _ {ℓ} {S A B : Type ℓ} where
  abbrev pub continue : Result A → (A → Exec S B) → Exec S B
  continue (err e) rest self = (err e, self)
  continue (ok a) rest self = rest a self

  infixl 10 ◌>>=◌ ◌>>◌
  abbrev pub ◌>>=◌ : Exec S A → (A → Exec S B) → Exec S B
  ◌>>=◌ m rest self = continue (m self).0 rest (m self).1

  abbrev pub ◌>>◌ : Exec S A → Exec S B → Exec S B
  m >> n = m >>= λ _. n
