-- ===== src/Addrtrie/Bits/Longest.antt =====
-- `Find` returns the value of the longest prefix that was inserted.
use lumine_for_android.Prelude.{
  ◌≡◌, refl, Bool, true, false, Option, none, some, List, [], ◌∷◌, arith, if◌then◌else◌,
}
use lumine_for_android.Addrtrie.Bits.{Trie, child, value, insert_bits, find_bits, leaf, branch}

-- `==` on lists of bits
unfoldable pub same_bits : List Bool → List Bool → Bool
same_bits [] [] = true
same_bits [] (b ∷ bs) = false
same_bits (a ∷ as') [] = false
same_bits (true ∷ p) (true ∷ q) = same_bits p q
same_bits (false ∷ p) (false ∷ q) = same_bits p q
same_bits (true ∷ p) (false ∷ q) = false
same_bits (false ∷ p) (true ∷ q) = false

module _ {V : Type 0} where
  -- the value that a prefix has in the trie
  unfoldable pub value_at : Trie V → List Bool → Option V
  value_at t [] = value t
  value_at t (b ∷ bs) = value_at (child b t) bs

  -- An insertion sets the value of its own prefix and of no other.
  pub value_at-insert :
      (p q : List Bool) (v : V) (t : Trie V)
      → value_at (insert_bits p v t) q ≡ (if same_bits p q then some v else value_at t q)
  unfolding value_at insert_bits same_bits
  value_at-insert [] [] v leaf = refl
  value_at-insert [] [] v (branch _ l r) = refl
  value_at-insert [] (true ∷ q) v leaf = refl
  value_at-insert [] (false ∷ q) v leaf = refl
  value_at-insert [] (true ∷ q) v (branch _ l r) = refl
  value_at-insert [] (false ∷ q) v (branch _ l r) = refl
  value_at-insert (true ∷ p) [] v leaf = refl
  value_at-insert (false ∷ p) [] v leaf = refl
  value_at-insert (true ∷ p) [] v (branch _ l r) = refl
  value_at-insert (false ∷ p) [] v (branch _ l r) = refl
  value_at-insert (true ∷ p) (true ∷ q) v leaf = value_at-insert p q v leaf
  value_at-insert (true ∷ p) (false ∷ q) v leaf = refl
  value_at-insert (false ∷ p) (true ∷ q) v leaf = refl
  value_at-insert (false ∷ p) (false ∷ q) v leaf = value_at-insert p q v leaf
  value_at-insert (true ∷ p) (true ∷ q) v (branch _ l r) = value_at-insert p q v r
  value_at-insert (true ∷ p) (false ∷ q) v (branch _ l r) = refl
  value_at-insert (false ∷ p) (true ∷ q) v (branch _ l r) = refl
  value_at-insert (false ∷ p) (false ∷ q) v (branch _ l r) = value_at-insert p q v l

  -- The value of the longest prefix of the bits that has one; `w` gives the values.
  unfoldable pub longest : (List Bool → Option V) → List Bool → Option V
  longest w [] = w []
  longest w (b ∷ bs) = elim (longest (λ p. w (b ∷ p)) bs) [ some v ↦ some v | none ↦ w [] ]

  longest-none :
      (w : List Bool → Option V) (bs : List Bool)
      → ((p : List Bool) → w p ≡ none)
      → longest w bs ≡ none
  unfolding longest
  longest-none w [] h = h []
  longest-none w (b ∷ bs) h =
      ground (arith, longest-none (λ p. w (b ∷ p)) bs (λ p. h (b ∷ p)), h [])

  value_at-leaf : (bs : List Bool) → value_at leaf bs ≡ none
  unfolding value_at
  value_at-leaf [] = refl
  value_at-leaf (b ∷ bs) = value_at-leaf bs

  pub find_bits-longest :
      (bs : List Bool) (t : Trie V) (found : Option V)
      → find_bits bs t found ≡ (elim (longest (value_at t) bs) [ some v ↦ some v | none ↦ found ])
  unfolding find_bits longest value_at
  find_bits-longest [] leaf found = refl
  find_bits-longest (b ∷ bs) leaf found = rw (longest-none (value_at leaf) bs value_at-leaf)
  find_bits-longest [] (branch v l r) found = refl
  find_bits-longest (true ∷ bs) (branch v l r) found =
      ground (arith, find_bits-longest bs r (elim v [ some w ↦ some w | none ↦ found ]))
  find_bits-longest (false ∷ bs) (branch v l r) found =
      ground (arith, find_bits-longest bs l (elim v [ some w ↦ some w | none ↦ found ]))

  -- Where no prefix has a value, the empty one has none.
  pub longest_root : (t : Trie V) (bs : List Bool) → longest (value_at t) bs ≡ none → value t ≡ none
  unfolding longest value_at
  longest_root t [] e = e
  longest_root t (b ∷ bs) e = ground arith
