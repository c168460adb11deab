-- ===== src/Addrtrie/Domain.antt =====
-- The matcher of domain patterns: enimul/internal/addrtrie/domain.go.
pub mod Paths
pub mod Lookup
use mathlib.Core.List.{reverse}
use lumine_for_android.Prelude.{
  Bytes, codes, has_byte, same, has_prefix, Bool, true, false, not, Option, none, some, List, [],
  ◌∷◌, map, ◌==◌, if◌then◌else◌, drop,
}

-- `labelNode`; a value whose flag is false is `none`, and the map of children is a list of pairs.
mutual
  pub data Node (V : Type 0) : Type 0 where
    node : Option V → Option V → Children V → Node V

  pub data Children (V : Type 0) : Type 0 where
    no_child : Children V
    child : Bytes → Node V → Children V → Children V

module _ {V : Type 0} where
  unfoldable pub exact : Node V → Option V
  exact (node e w cs) = e

  unfoldable pub wildcard : Node V → Option V
  wildcard (node e w cs) = w

  unfoldable pub children : Node V → Children V
  children (node e w cs) = cs

  -- `node.children[label]`
  unfoldable pub get_child : Bytes → Children V → Option (Node V)
  get_child l no_child = none
  get_child l (child k n cs) = if same k l then some n else get_child l cs

  unfoldable pub put_child : Bytes → Node V → Children V → Children V
  put_child l m no_child = child l m no_child
  put_child l m (child k n cs) = if same k l then child k m cs else child k n (put_child l m cs)

  -- `NewDomainMatcher`: the root
  abbrev pub new_node : Node V
  new_node = node none none no_child

abbrev pub or_new : {V : Type 0} → Option (Node V) → Node V
or_new none = new_node
or_new (some n) = n

-- The labels from the right, as the loops of `insertPattern` and `Find` take them off, each with the
-- test `j != -1`: whether a dot stands in front of it. A dot at the very front ends the loop.
unfoldable pub split_labels : Bytes → Bytes → List (Bytes × Bool)
split_labels label [] = (label, false) ∷ []
split_labels label (c ∷ []) = elim (c == b'.') [
  | true ↦ (label, true) ∷ []
  | false ↦ (c ∷ label, false) ∷ []
]
split_labels label (c ∷ d ∷ rest) = elim (c == b'.') [
  | true ↦ (label, true) ∷ split_labels [] (d ∷ rest)
  | false ↦ split_labels (c ∷ label) (d ∷ rest)
]

unfoldable pub labels : Bytes → List (Bytes × Bool)
labels [] = []
labels (c ∷ s) = split_labels [] (reverse (c ∷ s))

abbrev pub names : List (Bytes × Bool) → List Bytes
names = map (λ l. l.0)

module _ {V : Type 0} where
  -- `insertPattern`
  unfoldable pub insert_labels : List Bytes → V → Bool → Bool → Node V → Node V
  insert_labels [] value is_wildcard is_exact n =
      node (if is_exact then some value else exact n)
        (if is_wildcard then some value else wildcard n) (children n)
  insert_labels (l ∷ ls) value is_wildcard is_exact n = node (exact n) (wildcard n) (
      put_child l (insert_labels ls value is_wildcard is_exact (or_new (get_child l (children n))))
        (children n))

  unfoldable pub insert_pattern : Bytes → V → Bool → Bool → Node V → Node V
  insert_pattern pattern value is_wildcard is_exact =
      insert_labels (names (labels pattern)) value is_wildcard is_exact

  -- `Add`; `none` is the error "invalid pattern"
  unfoldable pub add : Bytes → V → Node V → Option (Node V)
  add pattern value root =
      if same pattern (codes "*")
      then some (node (exact root) (some value) (children root))
      else if not (has_byte b'.' pattern)
      then none
      else if has_prefix (codes "*.") pattern
      then some (insert_pattern (drop 2 pattern) value true false root)
      else if has_prefix (codes "*") pattern
      then some (insert_pattern (drop 1 pattern) value true true root)
      else some (insert_pattern pattern value false true root)

-- `Option.orElse`
abbrev pub or_else : {V : Type 0} → Option V → Option V → Option V
or_else (some v) d = some v
or_else none d = d

-- where the loop of `Find` stops: the node, the candidate, and `fullyMatched`
pub record Found (V : Type 0) : Type 0 where
  pub at : Node V
  pub candidate : Option V
  pub fully_matched : Bool

module _ {V : Type 0} where
  unfoldable pub find_loop : List (Bytes × Bool) → Node V → Option V → Found V
  find_loop [] n candidate = record { at = n; candidate = candidate; fully_matched = true }
  find_loop ((l, more) ∷ ls) n candidate = elim (get_child l (children n)) [
    | none ↦ record { at = n; candidate = candidate; fully_matched = false }
    | some m ↦ find_loop ls m (if more then or_else (wildcard m) candidate else candidate)
  ]

  -- `Find`
  unfoldable pub find : Node V → Bytes → Option V
  find root domain =
      let f = find_loop (labels domain) root none in
      or_else (if f.fully_matched then exact f.at else none) (or_else f.candidate (wildcard root))
