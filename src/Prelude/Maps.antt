-- ===== src/Prelude/Maps.antt =====
-- Go's maps with strings as keys, as association lists.
use mathlib.Core.Path.{◌≡◌, refl, ap, ◌∙◌}
use mathlib.Core.Logic.{inl, inr}
use mathlib.Core.Bool.{false}
use mathlib.Core.List.{List, [], ◌∷◌}
use mathlib.Core.Option.{Option, none, some}
use native.Mathlib.Omega.{arith}
use lumine_for_android.Prelude.Tests.{if◌then◌else◌, Bool-cases}
use lumine_for_android.Prelude.Text.{Bytes, same, same_refl, same→eq}

abbrev pub Assoc {ℓ} : Type ℓ → Type ℓ
Assoc V = List (Bytes × V)

module _ {ℓ} {V : Type ℓ} where
  unfoldable pub lookup : Bytes → Assoc V → Option V
  lookup k [] = none
  lookup k ((j, v) ∷ l) = if same j k then some v else lookup k l

  -- `delete(m, k)`
  unfoldable pub erase : Bytes → Assoc V → Assoc V
  erase k [] = []
  erase k ((j, v) ∷ l) = let rest = erase k l in if same j k then rest else (j, v) ∷ rest

  -- `m[k] = v`
  abbrev pub insert : Bytes → V → Assoc V → Assoc V
  insert k v l = (k, v) ∷ erase k l

  pub lookup-erase_self : (k : Bytes) (l : Assoc V) → lookup k (erase k l) ≡ none
  unfolding lookup erase
  lookup-erase_self k [] = refl
  lookup-erase_self k ((j, v) ∷ l) = elim (Bool-cases (same j k)) [
    | inl t ↦ rw t (lookup-erase_self k l)
    | inr t ↦ rw (t, t) (lookup-erase_self k l)
  ]

  pub lookup-erase_ne :
      (k j : Bytes) (l : Assoc V) → same k j ≡ false → lookup j (erase k l) ≡ lookup j l
  unfolding lookup erase
  lookup-erase_ne k j [] h = refl
  lookup-erase_ne k j ((i, v) ∷ l) h = elim (Bool-cases (same i k)) [
    | inl t ↦
        let e : same i j ≡ false = ap (λ (x : Bytes). same x j) (same→eq i k t) ∙ h in
        rw (t, e) (lookup-erase_ne k j l h)
    | inr t ↦ rw t (ground (arith, lookup-erase_ne k j l h))
  ]

  pub lookup-insert_self : (k : Bytes) (v : V) (l : Assoc V) → lookup k (insert k v l) ≡ some v
  unfolding lookup
  lookup-insert_self k v l = rw (same_refl k)

  pub lookup-insert_ne :
      (k j : Bytes) (v : V) (l : Assoc V) → same k j ≡ false → lookup j (insert k v l) ≡ lookup j l
  unfolding lookup
  lookup-insert_ne k j v l h = rw h (lookup-erase_ne k j l h)
