-- ===== src/Fragment/Parts.antt =====
-- The parts of a split are the data again, and the cut lies inside it.
use lumine_for_android.Prelude.{
  Bytes, ℕ, zero, suc, ◌+◌, ◌-◌, ◌*◌, ◌/◌, ◌≤◌, ◌<◌, ◌≡◌, refl, sym, inl, inr, ◌||◌, Option, some,
  List, [], ◌∷◌, ◌++◌, map, append-nil, append_assoc, arith, ltb, ◌==◌, if◌then◌else◌, Bool-cases,
  Option-cases, suc-==-zero, length, take, drop, take-append-drop, length-take, length-drop,
  drop-add, All, ℤ, pos, negsuc,
}
use lumine_for_android.Fragment.{find_cut, last_index, wrap, parts_from, split_and_append, flatten}

pub flatten-append : (xs ys : List Bytes) → flatten (xs ++ ys) ≡ flatten xs ++ flatten ys
flatten-append [] ys = refl
flatten-append (x ∷ xs) ys =
    rw (flatten-append xs ys) (sym (append_assoc x (flatten xs) (flatten ys)))

last_index-lt : (c : ℕ) (xs : Bytes) (i : ℕ) → last_index c xs ≡ some i → i < length xs
unfolding last_index
last_index-lt c [] i h = ground arith
last_index-lt c (x ∷ xs) i h = elim (Option-cases (last_index c xs)) [
  | inl e ↦ ground arith
  | inr (j, e) ↦ ground (arith, last_index-lt c xs j e)
]

-- The cut lies in the data, and at a name inside the data it is not in front of the name.
pub find_cut_le : (d : Bytes) (start : ℤ) (len : ℕ) → find_cut d start len ≤ length d
unfolding find_cut
find_cut_le d (negsuc n) len = omega arith
find_cut_le d (pos start) len = elim (Option-cases (last_index b'.' (take len (drop start d)))) [
  | inl e ↦ ground arith
  | inr (i, e) ↦ ground (
    arith,
    last_index-lt b'.' (take len (drop start d)) i e,
    length-take len (drop start d),
    length-drop start d,
  )
]

pub start-le-find_cut :
    (d : Bytes) (start len : ℕ)
    → 0 < len
    → start + len ≤ length d
    → start ≤ find_cut d (pos start) len
unfolding find_cut
start-le-find_cut d start len h k = ground arith

-- The loop's parts from round `i` on are the data from there on.
pub flatten-parts_from :
    (left i base : ℕ) (d : Bytes) → flatten (parts_from (suc left) i base d) ≡ drop (i * base) d
unfolding parts_from
flatten-parts_from zero i base d = rw append-nil
flatten-parts_from (suc left) i base d = rw (flatten-parts_from left (i + 1) base d) (
    let e : (i + 1) * base ≡ i * base + base = grind arith in
    let f : (i + 1) * base - i * base ≡ base = grind arith in
    rw (suc-==-zero left, f, e, drop-add (i * base) base d)
      (take-append-drop base (drop (i * base) d)))

parts_from_lengths :
    (left i base : ℕ) (d : Bytes)
    → All (λ (p : Bytes). length p ≤ length d) (parts_from left i base d)
unfolding parts_from
parts_from_lengths zero i base d = tt
parts_from_lengths (suc left) i base d = (
  ground (
    arith,
    length-take ((i + 1) * base - i * base) (drop (i * base) d),
    length-drop (i * base) d,
  ),
  parts_from_lengths left (i + 1) base d,
)

-- What is appended before it is put into records.
unfoldable pub parts : Bytes → ℕ → List Bytes
parts d n =
    if n == 0
    then []
    else if n == 1 || ltb (length d) n
    then d ∷ []
    else parts_from n 0 (length d / n) d

pub split-eq-map :
    (d : Bytes) (header : Option Bytes) (n : ℕ)
    → split_and_append d header n ≡ map (wrap header) (parts d n)
unfolding split_and_append parts
split-eq-map d header n = ground arith

pub flatten-parts : (d : Bytes) (n : ℕ) → 0 < n → flatten (parts d n) ≡ d
unfolding parts
flatten-parts d zero h = absurd (omega arith)
flatten-parts d (suc n) h = elim (Bool-cases (suc n == 1 || ltb (length d) (suc n))) [
  | inl e ↦ rw (suc-==-zero n, e) (append-nil d)
  | inr e ↦
      rw (suc-==-zero n, e)
        (let z : 0 * (length d / suc n) ≡ 0 = omega arith in
          rw z at (flatten-parts_from n 0 (length d / suc n) d))
]

pub parts_lengths : (d : Bytes) (n : ℕ) → All (λ (p : Bytes). length p ≤ length d) (parts d n)
unfolding parts
parts_lengths d zero = tt
parts_lengths d (suc n) = elim (Bool-cases (suc n == 1 || ltb (length d) (suc n))) [
  | inl e ↦ rw (suc-==-zero n, e) (omega arith)
  | inr e ↦ rw (suc-==-zero n, e) (parts_from_lengths (suc n) 0 (length d / suc n) d)
]

parts_from-cons :
    (left i base : ℕ) (d : Bytes)
    → (p : Bytes) × (ps : List Bytes) × (parts_from (suc left) i base d ≡ p ∷ ps)
unfolding parts_from
parts_from-cons left i base d = (_, _, refl)

pub parts-cons :
    (d : Bytes) (n : ℕ) → 0 < n → (p : Bytes) × (ps : List Bytes) × (parts d n ≡ p ∷ ps)
unfolding parts
parts-cons d zero h = absurd (omega arith)
parts-cons d (suc n) h = elim (Bool-cases (suc n == 1 || ltb (length d) (suc n))) [
  | inl e ↦ (d, [], rw (suc-==-zero n, e))
  | inr e ↦
      let (p, ps, f) = parts_from-cons n 0 (length d / suc n) d in (p, ps, rw (suc-==-zero n, e) f)
]
