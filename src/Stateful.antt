-- ===== src/Stateful.antt =====
-- Calls that change a state of type `S` and end in an outcome.
use lumine_for_android.Prelude.{
  ◌≡◌, refl, Bool, true, false, if◌then◌else◌, Outcome, Returns, ok, err, panic, out_of_fuel,
}

abbrev pub Call {ℓ} : Type ℓ → Type ℓ → Type ℓ → Type ℓ
Call S E A = S → Outcome E A × S

module _ {S E A B : Type 0} where
  abbrev pub and_then : Outcome E A × S → (A → Call S E B) → Outcome E B × S
  and_then (ok a, s) f = f a s
  and_then (err e, s) f = (err e, s)
  and_then (panic, s) f = (panic, s)
  and_then (out_of_fuel, s) f = (out_of_fuel, s)

  infixl 5 ◌>>=◌
  abbrev pub ◌>>=◌ : Call S E A → (A → Call S E B) → Call S E B
  m >>= f = λ s. and_then (m s) f

abbrev pub return : {S E A : Type 0} → A → Call S E A
return a = λ s. (ok a, s)

abbrev pub fail : {S E A : Type 0} → E → Call S E A
fail e = λ s. (err e, s)

-- an outcome that needs no state, its error wrapped
abbrev pub wrapped : {E F A : Type 0} → (E → F) → Outcome E A → Outcome F A
wrapped f (ok a) = ok a
wrapped f (err e) = err (f e)
wrapped f panic = panic
wrapped f out_of_fuel = out_of_fuel

-- From every state with the invariant `I` the call returns, without a panic, a value with the property
-- `P` or an error, and it leaves the invariant.
abbrev pub Yields : {S E A : Type 0} → (S → Type 0) → (A → Type 0) → Call S E A → Type 0
Yields {S} I P m = (s : S) → I s → Returns P (m s).0 × I (m s).1

module _ {S E A B : Type 0} (I : S → Type 0) (P : A → Type 0) (Q : B → Type 0) where
  Yields-and_then :
      (o : Outcome E A × S) (f : A → Call S E B)
      → Returns P o.0 × I o.1
      → ((a : A) → P a → Yields I Q (f a))
      → Returns Q (and_then o f).0 × I (and_then o f).1
  Yields-and_then (ok a, t) f h k = k a h.0 t h.1
  Yields-and_then (err e, t) f h k = (tt, h.1)
  Yields-and_then (panic, t) f h k = h
  Yields-and_then (out_of_fuel, t) f h k = h

  pub Yields-bind :
      (m : Call S E A) (f : A → Call S E B)
      → Yields I P m
      → ((a : A) → P a → Yields I Q (f a))
      → Yields I Q (m >>= f)
  Yields-bind m f h k s i = Yields-and_then (m s) f (h s i) k

  Returns-and_then :
      (o : Outcome E A × S) (f : A → Call S E B)
      → Returns P o.0 × I o.1
      → ((a : A) (t : S) → o ≡ (ok a, t) → P a → I t → Returns Q (f a t).0 × I (f a t).1)
      → Returns Q (and_then o f).0 × I (and_then o f).1
  Returns-and_then (ok a, t) f h k = k a t refl h.0 h.1
  Returns-and_then (err e, t) f h k = (tt, h.1)
  Returns-and_then (panic, t) f h k = h
  Returns-and_then (out_of_fuel, t) f h k = h

  -- one step of a chain from the state `s`, with what it gave
  pub Returns-step :
      (m : Call S E A) (f : A → Call S E B) (s : S)
      → Returns P (m s).0 × I (m s).1
      → ((a : A) (t : S) → m s ≡ (ok a, t) → P a → I t → Returns Q (f a t).0 × I (f a t).1)
      → Returns Q ((m >>= f) s).0 × I ((m >>= f) s).1
  Returns-step m f s = Returns-and_then (m s) f

-- The call has returned, without a panic, a value as `P` says in the state it left, or an error, and it
-- left the invariant `I`.
abbrev pub Leads : {S E A : Type 0} → (S → Type 0) → (A → S → Type 0) → Outcome E A × S → Type 0
Leads I P (ok a, s) = P a s × I s
Leads I P (err e, s) = I s
Leads I P (panic, s) = ⊥
Leads I P (out_of_fuel, s) = ⊥

module _ {S E A : Type 0} (I : S → Type 0) (P : A → S → Type 0) where
  pub Leads-pure : (o : Outcome E A) (s : S) → Returns (λ a. P a s) o → I s → Leads I P (o, s)
  Leads-pure (ok a) s h i = (h, i)
  Leads-pure (err e) s h i = i
  Leads-pure panic s h i = h
  Leads-pure out_of_fuel s h i = h

module _ {S E A B : Type 0} (I : S → Type 0) (P : A → S → Type 0) (Q : B → S → Type 0) where
  pub Leads-and_then :
      (o : Outcome E A × S) (f : A → Call S E B)
      → Leads I P o
      → ((a : A) (t : S) → P a t → I t → Leads I Q (f a t))
      → Leads I Q (and_then o f)
  Leads-and_then (ok a, s) f h k = k a s h.0 h.1
  Leads-and_then (err e, s) f h k = h
  Leads-and_then (panic, s) f h k = h
  Leads-and_then (out_of_fuel, s) f h k = h

module _ {S E A : Type 0} (I : S → Type 0) (Q : A → Type 0) where
  pub Yields-if :
      (b : Bool) (m n : Call S E A)
      → (b ≡ true → Yields I Q m)
      → (b ≡ false → Yields I Q n)
      → Yields I Q (if b then m else n)
  Yields-if true m n h k = h refl
  Yields-if false m n h k = k refl

pub Returns-wrapped :
    {E F A : Type 0} (f : E → F) (P : A → Type 0) (o : Outcome E A)
    → Returns P o
    → Returns P (wrapped f o)
Returns-wrapped f P (ok a) h = h
Returns-wrapped f P (err e) h = tt
Returns-wrapped f P panic h = h
Returns-wrapped f P out_of_fuel h = h
