-- ===== src/Pattern/Fuel.antt =====
-- The recursion of `expandPattern` ends: what is behind a group is shorter than the pattern.
use lumine_for_android.Prelude.{
  Bytes, ℕ, zero, suc, ◌+◌, ◌-◌, ◌≤◌, ◌<◌, ◌≡◌, refl, inl, inr, Bool, true, false, Option, none,
  some, List, [], ◌∷◌, arith, ◌==◌, Bool-cases, length,
}
use lumine_for_android.Pattern.{
  split_open, split_by_pipe, put_first, split_close, products, all_products, expand_fuel,
  first_group, expand_pattern,
}

-- The rest that a split gives is shorter than the text.
Shorter : Bytes → Option (Bytes × Bytes) → Type 0
Shorter s none = Unit
Shorter s (some (_, rest)) = length rest < length s

put_first-Shorter :
    (b : ℕ) (s : Bytes) (o : Option (Bytes × Bytes)) → Shorter s o → Shorter (b ∷ s) (put_first b o)
unfolding Shorter
put_first-Shorter b s none h = tt
put_first-Shorter b s (some (_, rest)) h = omega arith

Bool-Shorter :
    (s : Bytes) (b : Bool) (x y : Option (Bytes × Bytes))
    → Shorter s x
    → Shorter s y
    → Shorter s (elim b [ true ↦ x | false ↦ y ])
Bool-Shorter s true x y h k = h
Bool-Shorter s false x y h k = k

split_open-Shorter : (s : Bytes) → Shorter s (split_open s)
unfolding Shorter split_open
split_open-Shorter [] = tt
split_open-Shorter (b ∷ bs) = elim (Bool-cases (b == b'(')) [
  | inl t ↦ rw (t, split_open) (omega arith)
  | inr t ↦ rw (t, split_open) (put_first-Shorter b bs (split_open bs) (split_open-Shorter bs))
]

split_close-Shorter : (depth : ℕ) (s : Bytes) → Shorter s (split_close depth s)
unfolding Shorter split_close
split_close-Shorter depth [] = tt
split_close-Shorter depth (b ∷ bs) =
    Bool-Shorter (b ∷ bs) (b == b'(') _ _
      (put_first-Shorter b bs _ (split_close-Shorter (depth + 1) bs))
      (Bool-Shorter (b ∷ bs) (b == b')') _ _
        (Bool-Shorter (b ∷ bs) (depth == 1) (some ([], bs)) _ (omega arith)
          (put_first-Shorter b bs _ (split_close-Shorter (depth - 1) bs)))
        (put_first-Shorter b bs _ (split_close-Shorter depth bs)))

-- what is behind the first group
BehindShorter : Bytes → Option (Bytes × Bytes × Bytes) → Type 0
BehindShorter s none = Unit
BehindShorter s (some (_, _, suffix)) = length suffix < length s

behind_close :
    (s prefix rest : Bytes) (o : Option (Bytes × Bytes))
    → length rest < length s
    → Shorter rest o
    → BehindShorter s (elim o [ none ↦ none | some (inner, suffix) ↦ some (prefix, inner, suffix) ])
unfolding Shorter BehindShorter
behind_close s prefix rest none h k = tt
behind_close s prefix rest (some (inner, suffix)) h k = omega arith

first_group-BehindShorter : (s : Bytes) → BehindShorter s (first_group s)
unfolding first_group BehindShorter Shorter
first_group-BehindShorter s = go (split_open s) (split_open-Shorter s)
  where
    go :
        (o : Option (Bytes × Bytes))
        → Shorter s o
        → BehindShorter s (elim o [
          | none ↦ none
          | some (prefix, rest) ↦ elim (split_close 1 rest) [
            | none ↦ none
            | some (inner, suffix) ↦ some (prefix, inner, suffix)
          ]
        ])
    go none h = tt
    go (some (prefix, rest)) h = behind_close s prefix rest _ h (split_close-Shorter 1 rest)

-- The fuel suffices for a text: it is expanded.
unfoldable pub Expands : ℕ → Bytes → Type 0
Expands fuel s = (ws : List Bytes) × (expand_fuel fuel s ≡ some ws)

all_products-some :
    (prefix inner : Bytes) (o : Option (List Bytes))
    → (ws : List Bytes) × (o ≡ some ws)
    → (vs : List Bytes) × (all_products prefix inner o ≡ some vs)
all_products-some prefix inner o (ws, h) = rw h (products prefix (split_by_pipe inner) ws, refl)

group-Expands :
    (fuel : ℕ) (s : Bytes) (o : Option (Bytes × Bytes × Bytes))
    → length s ≤ fuel
    → ((suffix : Bytes) → length suffix < fuel → Expands fuel suffix)
    → BehindShorter s o
    → (ws : List Bytes) × ((elim o [
      | none ↦ some (split_by_pipe s)
      | some (prefix, inner, suffix) ↦ all_products prefix inner (expand_fuel fuel suffix)
    ])
        ≡ some ws)
unfolding Expands BehindShorter
group-Expands fuel s none h rec k = (split_by_pipe s, refl)
group-Expands fuel s (some (prefix, inner, suffix)) h rec k =
    all_products-some prefix inner (expand_fuel fuel suffix) (rec suffix (omega arith))

expand_fuel-Expands : (fuel : ℕ) (s : Bytes) → length s < fuel → Expands fuel s
unfolding Expands expand_fuel
expand_fuel-Expands zero s h = absurd (omega arith)
expand_fuel-Expands (suc fuel) s h =
    group-Expands fuel s (first_group s) (omega arith)
      (λ suffix k. expand_fuel-Expands fuel suffix k) (first_group-BehindShorter s)

-- The expansion of any text ends with a list of words, however its brackets stand: a round of fuel
-- for each byte, and one more, is enough.
pub expand_pattern-Expands : (s : Bytes) → (ws : List Bytes) × (expand_pattern s ≡ some ws)
unfolding Expands
expand_pattern-Expands s = expand_fuel-Expands (suc (length s)) s (omega arith)
