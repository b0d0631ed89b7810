-- ===== src/Base/Exec.antt =====
-- Functions that may fail, and methods that change an object and may fail: what was written before
-- an error stays written, so the object comes back beside the error too.
use mathlib.Core.Path.{◌≡◌, refl}
use mathlib.Core.Option.{Option, none, some}
use native.Mathlib.Omega.{arith}

pub data Result {ℓ} (E A : Type ℓ) : Type ℓ where
  ok : A → Result E A
  err : E → Result E A

module _ {ℓ} {E A B : Type ℓ} where
  infixl 5 ◌>>=◌
  abbrev pub ◌>>=◌ : Result E A → (A → Result E B) → Result E B
  ok a >>= f = f a
  err e >>= f = err e

abbrev pub or_fail {ℓ} : {E A : Type ℓ} → E → Option A → Result E A
or_fail e none = err e
or_fail e (some a) = ok a

-- A method of an object of type `S`.
abbrev pub Exec {ℓ} : Type ℓ → Type ℓ → Type ℓ → Type ℓ
Exec S E A = S → Result E A × S

module _ {ℓ} {S E A B : Type ℓ} where
  -- `if err != nil { return err }`, and otherwise the rest of the method.
  abbrev pub and_then : Result E A × S → (A → Exec S E B) → Result E B × S
  and_then (ok a, s) f = f a s
  and_then (err e, s) f = (err e, s)

module _ {ℓ} {S E A B : Type ℓ} where
  -- Where the whole succeeds, the first part has.
  pub and_then-ok :
      (m : Result E A × S) (f : A → Exec S E B) {b : B} {t : S}
      → and_then m f ≡ (ok b, t)
      → (a : A) × (m.0 ≡ ok a) × (f a m.1 ≡ (ok b, t))
  and_then-ok (ok a, s) f e = (a, refl, e)
  and_then-ok (err x, s) f e = cc

module _ {ℓ} {S E A : Type ℓ} where
  -- What a caller that drops the result goes on with.
  abbrev pub state_of : Result E A × S → S
  state_of r = r.1

  abbrev pub result_of : Result E A × S → Result E A
  result_of r = r.0

module _ {ℓ} {E A B : Type ℓ} where
  -- Where a chain of results succeeds, its first has.
  pub bind_ok :
      (m : Result E A) (f : A → Result E B) {b : B}
      → (m >>= f) ≡ ok b
      → (a : A) × (m ≡ ok a) × (f a ≡ ok b)
  bind_ok (ok a) f e = (a, refl, e)
  bind_ok (err x) f e = cc

module _ {ℓ} {E A : Type ℓ} where
  pub or_fail_ok : (x : E) (o : Option A) {a : A} → or_fail x o ≡ ok a → o ≡ some a
  or_fail_ok x none e = cc
  or_fail_ok x (some b) e = ground arith
