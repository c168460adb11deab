-- ===== src/Prelude/Calls.antt =====
-- What a Go call ends in: a value, a returned error, a run-time panic, or, in the model only, the
-- end of the fuel of a loop.
use mathlib.Core.Path.{◌≡◌, refl}
use mathlib.Core.Bool.{Bool, true, false}
use lumine_for_android.Prelude.Tests.{if◌then◌else◌}
use mathlib.Core.Option.{Option, none, some}

pub data Outcome {ℓ} (E A : Type ℓ) : Type ℓ where
  ok : A → Outcome E A
  err : E → Outcome E A
  panic : Outcome E A
  out_of_fuel : Outcome E A

infixl 5 ◌>>=◌ ◌>>◌
abbrev pub ◌>>=◌ {ℓ} : {E A B : Type ℓ} → Outcome E A → (A → Outcome E B) → Outcome E B
ok a >>= f = f a
err e >>= f = err e
panic >>= f = panic
out_of_fuel >>= f = out_of_fuel

abbrev pub ◌>>◌ : {E B : Type 0} → Outcome E (Unit {0}) → Outcome E B → Outcome E B
m >> k = m >>= λ _. k

-- `if !test { return err }`
unfoldable pub guard : {E : Type 0} → Bool → E → Outcome E (Unit {0})
guard true e = ok tt
guard false e = err e

-- an index or a slice out of range
abbrev pub or_panic : {E A : Type 0} → Option A → Outcome E A
or_panic none = panic
or_panic (some a) = ok a

-- The call returns, with a value of which `P` holds or with an error.
abbrev pub Returns {ℓ} : {E A : Type ℓ} → (A → Type 0) → Outcome E A → Type 0
Returns P (ok a) = P a
Returns P (err _) = Unit
Returns P panic = ⊥
Returns P out_of_fuel = ⊥

-- The rules for the steps of a `do` block.
pub Returns-bind :
    {E A B : Type 0} (P : A → Type 0) (Q : B → Type 0) (m : Outcome E A) (f : A → Outcome E B)
    → Returns P m
    → ((a : A) → P a → Returns Q (f a))
    → Returns Q (m >>= f)
Returns-bind P Q (ok a) f h k = k a h
Returns-bind P Q (err e) f h k = tt
Returns-bind P Q panic f h k = h
Returns-bind P Q out_of_fuel f h k = h

pub Returns-map :
    {E A : Type 0} (P Q : A → Type 0) (m : Outcome E A)
    → ((a : A) → P a → Q a)
    → Returns P m
    → Returns Q m
Returns-map P Q (ok a) f h = f a h
Returns-map P Q (err e) f h = tt
Returns-map P Q panic f h = h
Returns-map P Q out_of_fuel f h = h

pub Returns-guard :
    {E B : Type 0} (Q : B → Type 0) (b : Bool) (e : E) (k : Outcome E B)
    → (b ≡ true → Returns Q k)
    → Returns Q (guard b e >> k)
unfolding guard
Returns-guard Q true e k h = h refl
Returns-guard Q false e k h = tt

pub Returns-if :
    {E A : Type 0} (Q : A → Type 0) (b : Bool) (x y : Outcome E A)
    → (b ≡ true → Returns Q x)
    → (b ≡ false → Returns Q y)
    → Returns Q (if b then x else y)
Returns-if Q true x y h k = h refl
Returns-if Q false x y h k = k refl
