-- ===== src/Addrtrie/Domain/Paths.antt =====
-- What an insertion does to the values at the nodes.
use lumine_for_android.Prelude.{
  Bytes, same_iff, same_refl, same→eq, same, ◌≡◌, refl, inl, inr, Bool, true, false, ◌&&◌, Option,
  none, some, List, [], ◌∷◌, arith, if◌then◌else◌, Bool-cases,
}
use lumine_for_android.Addrtrie.Domain.{
  Node, Children, exact, wildcard, children, get_child, put_child, new_node, or_new, insert_labels,
  no_child, child,
}

-- `==` on lists of labels
unfoldable pub same_path : List Bytes → List Bytes → Bool
same_path [] [] = true
same_path [] (l ∷ ls) = false
same_path (k ∷ ks) [] = false
same_path (k ∷ ks) (l ∷ ls) = same k l && same_path ks ls

pub same_path_refl : (p : List Bytes) → same_path p p ≡ true
unfolding same_path
same_path_refl [] = refl
same_path_refl (l ∷ ls) = ground (arith, same_refl l, same_path_refl ls)

module _ {V : Type 0} where
  -- The values below a node, by the labels on the way; where a child is missing there are none.
  unfoldable pub exact_at : Node V → List Bytes → Option V
  exact_at n [] = exact n
  exact_at n (l ∷ ls) = exact_at (or_new (get_child l (children n))) ls

  unfoldable pub wildcard_at : Node V → List Bytes → Option V
  wildcard_at n [] = wildcard n
  wildcard_at n (l ∷ ls) = wildcard_at (or_new (get_child l (children n))) ls

  get-put :
      (k l : Bytes) (m : Node V) (cs : Children V)
      → get_child k (put_child l m cs) ≡ (if same l k then some m else get_child k cs)
  unfolding get_child put_child
  get-put k l m no_child = refl
  get-put k l m (child j n cs) =
      ground (arith, get-put k l m cs, same_iff j l, same_iff j k, same_iff l k)

  pub new_exact_at : (ls : List Bytes) → exact_at (new_node {V = V}) ls ≡ none
  unfolding exact_at exact get_child children
  new_exact_at [] = refl
  new_exact_at (l ∷ ls) = new_exact_at ls

  pub new_wildcard_at : (ls : List Bytes) → wildcard_at (new_node {V = V}) ls ≡ none
  unfolding wildcard_at wildcard get_child children
  new_wildcard_at [] = refl
  new_wildcard_at (l ∷ ls) = new_wildcard_at ls

module _ {V : Type 0} (value : V) (is_wildcard is_exact : Bool) where
  -- An insertion sets the exact value at its own path, if it is exact, and no other.
  pub exact_at-insert :
      (p q : List Bytes) (n : Node V)
      → exact_at (insert_labels p value is_wildcard is_exact n) q
        ≡ (if same_path p q && is_exact then some value else exact_at n q)
  unfolding insert_labels exact_at same_path exact children
  exact_at-insert [] [] n = refl
  exact_at-insert [] (l ∷ ls) n = refl
  exact_at-insert (k ∷ ks) [] n = refl
  exact_at-insert (k ∷ ks) (l ∷ ls) n = elim (Bool-cases (same k l)) [
    | inl e ↦ rw (get-put l k, e, exact_at-insert ks ls, same→eq k l e)
    | inr e ↦ rw (get-put l k, e)
  ]

  -- So for the value of a wildcard.
  pub wildcard_at-insert :
      (p q : List Bytes) (n : Node V)
      → wildcard_at (insert_labels p value is_wildcard is_exact n) q
        ≡ (if same_path p q && is_wildcard then some value else wildcard_at n q)
  unfolding insert_labels wildcard_at same_path wildcard children
  wildcard_at-insert [] [] n = refl
  wildcard_at-insert [] (l ∷ ls) n = refl
  wildcard_at-insert (k ∷ ks) [] n = refl
  wildcard_at-insert (k ∷ ks) (l ∷ ls) n = elim (Bool-cases (same k l)) [
    | inl e ↦ rw (get-put l k, e, wildcard_at-insert ks ls, same→eq k l e)
    | inr e ↦ rw (get-put l k, e)
  ]
