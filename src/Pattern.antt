-- ===== src/Pattern.antt =====
-- The patterns of a configuration: `expandPattern` and `splitByPipe` of enimul/internal/core/config.go.
-- A byte below 0x80 always begins a rune, so a loop over runes that looks for one looks at each byte.
pub mod Words
pub mod Expand
pub mod Fuel
use lumine_for_android.Prelude.{
  Bytes, ℕ, zero, suc, ◌+◌, ◌-◌, ◌/◌, ◌%◌, Bool, true, false, ◌&&◌, Option, none, some, List, [],
  ◌∷◌, ◌++◌, ltb, leb, ◌==◌, if◌then◌else◌, length,
}

-- For each first byte of more than one in UTF-8, the ranges of the bytes that may follow.
abbrev pub any_next : ℕ × ℕ
any_next = (0x80, 0xBF)

unfoldable pub next_ranges : ℕ → List (ℕ × ℕ)
next_ranges b =
    if leb 0xC2 b && leb b 0xDF
    then any_next ∷ []
    else if b == 0xE0
    then (0xA0, 0xBF) ∷ any_next ∷ []
    else if b == 0xED
    then (0x80, 0x9F) ∷ any_next ∷ []
    else if leb 0xE1 b && leb b 0xEF
    then any_next ∷ any_next ∷ []
    else if b == 0xF0
    then (0x90, 0xBF) ∷ any_next ∷ any_next ∷ []
    else if leb 0xF1 b && leb b 0xF3
    then any_next ∷ any_next ∷ any_next ∷ []
    else if b == 0xF4
    then (0x80, 0x8F) ∷ any_next ∷ any_next ∷ []
    else []

unfoldable pub follow : List (ℕ × ℕ) → Bytes → Bool
follow [] bs = true
follow (r ∷ rs) [] = false
follow ((lo, hi) ∷ rs) (b ∷ bs) = leb lo b && leb b hi && follow rs bs

-- how many bytes of a rune follow its first; none if the encoding is not valid
unfoldable pub next_bytes : ℕ → Bytes → ℕ
next_bytes b bs = if follow (next_ranges b) bs then length (next_ranges b) else 0

-- the bytes at the indices of `for i := range s`, with `skip` bytes of a rune left
unfoldable pub first_bytes : ℕ → Bytes → Bytes
first_bytes skip [] = []
first_bytes (suc skip) (b ∷ bs) = first_bytes skip bs
first_bytes zero (b ∷ bs) = b ∷ first_bytes (next_bytes b bs) bs

-- `string(b)` of a byte: the encoding of the rune of that number
unfoldable pub string_of : ℕ → Bytes
string_of b = if ltb b 0x80 then b ∷ [] else (0xC0 + b / 64) ∷ (0x80 + b % 64) ∷ []

-- the loop of `splitByPipe`
unfoldable pub split_loop : Bytes → Bytes → List Bytes
split_loop curr [] = curr ∷ []
split_loop curr (b ∷ bs) = elim (b == b'|') [
  | true ↦ curr ∷ split_loop [] bs
  | false ↦ split_loop (curr ++ string_of b) bs
]

-- `splitByPipe`
unfoldable pub split_by_pipe : Bytes → List Bytes
split_by_pipe [] = [] ∷ []
split_by_pipe (b ∷ bs) = split_loop [] (first_bytes 0 (b ∷ bs))

-- the first opening bracket: the text in front of it and behind it
unfoldable pub split_open : Bytes → Option (Bytes × Bytes)
split_open [] = none
split_open (b ∷ bs) = elim (b == b'(') [
  | true ↦ some ([], bs)
  | false ↦ elim (split_open bs) [ some (prefix, rest) ↦ some (b ∷ prefix, rest) | none ↦ none ]
]

abbrev pub put_first : ℕ → Option (Bytes × Bytes) → Option (Bytes × Bytes)
put_first b none = none
put_first b (some (inner, suffix)) = some (b ∷ inner, suffix)

-- the bracket that closes `depth` brackets
unfoldable pub split_close : ℕ → Bytes → Option (Bytes × Bytes)
split_close depth [] = none
split_close depth (b ∷ bs) = elim (b == b'(') [
  | true ↦ put_first b (split_close (depth + 1) bs)
  | false ↦ elim (b == b')') [
    | true ↦ elim (depth == 1) [
      | true ↦ some ([], bs)
      | false ↦ put_first b (split_close (depth - 1) bs)
    ]
    | false ↦ put_first b (split_close depth bs)
  ]
]

-- the two loops over the parts and the words of the suffix
unfoldable pub with_suffixes : Bytes → List Bytes → List Bytes
with_suffixes start [] = []
with_suffixes start (w ∷ ws) = (start ++ w) ∷ with_suffixes start ws

unfoldable pub products : Bytes → List Bytes → List Bytes → List Bytes
products prefix [] ws = []
products prefix (p ∷ ps) ws = with_suffixes (prefix ++ p) ws ++ products prefix ps ws

-- the groups of a pattern: the text in front, inside and behind the first
unfoldable pub first_group : Bytes → Option (Bytes × Bytes × Bytes)
first_group s = elim (split_open s) [
  | none ↦ none
  | some (prefix, rest) ↦ elim (split_close 1 rest) [
    | none ↦ none
    | some (inner, suffix) ↦ some (prefix, inner, suffix)
  ]
]

abbrev pub all_products : Bytes → Bytes → Option (List Bytes) → Option (List Bytes)
all_products prefix inner none = none
all_products prefix inner (some ws) = some (products prefix (split_by_pipe inner) ws)

-- `expandPattern`; `none` is the end of the fuel.
unfoldable pub expand_fuel : ℕ → Bytes → Option (List Bytes)
expand_fuel zero s = none
expand_fuel (suc fuel) s = elim (first_group s) [
  | none ↦ some (split_by_pipe s)
  | some (prefix, inner, suffix) ↦ all_products prefix inner (expand_fuel fuel suffix)
]

abbrev pub expand_pattern : Bytes → Option (List Bytes)
expand_pattern s = expand_fuel (suc (length s)) s
