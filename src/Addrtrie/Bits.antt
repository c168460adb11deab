-- ===== src/Addrtrie/Bits.antt =====
-- The binary tries: `bitNode` and the loops of `Insert` and `Find` in
-- enimul/internal/addrtrie/ipv4.go and ipv6.go, over the bits of an address from the highest on.
pub mod Longest
use lumine_for_android.Prelude.{
  ℕ, zero, suc, ◌+◌, ◌-◌, ◌/◌, ◌%◌, ◌^◌, Bool, true, false, Option, none, some, List, [], ◌∷◌, ◌==◌,
}

-- A nil pointer is `leaf`; a node's value is `none` where `valueExists` is false.
pub data Trie (V : Type 0) : Type 0 where
  leaf : Trie V
  branch : Option V → Trie V → Trie V → Trie V

-- `getBit32` and `getBit128`: bit `i` of `width` bits, from the highest
unfoldable pub bit : ℕ → ℕ → ℕ → Bool
bit width v i = (v / 2 ^ (width - 1 - i)) % 2 == 1

-- `for i := range n`: the bits from `i` on
unfoldable pub bits_from : ℕ → ℕ → ℕ → ℕ → List Bool
bits_from width v zero i = []
bits_from width v (suc n) i = bit width v i ∷ bits_from width v n (i + 1)

unfoldable pub bits : ℕ → ℕ → ℕ → List Bool
bits width v n = bits_from width v n 0

module _ {V : Type 0} where
  abbrev pub value : Trie V → Option V
  value leaf = none
  value (branch v zeros ones) = v

  abbrev pub child : Bool → Trie V → Trie V
  child b leaf = leaf
  child true (branch v zeros ones) = ones
  child false (branch v zeros ones) = zeros

  abbrev pub set_child : Bool → Trie V → Trie V → Trie V
  set_child true t leaf = branch none leaf t
  set_child false t leaf = branch none t leaf
  set_child true t (branch v zeros ones) = branch v zeros t
  set_child false t (branch v zeros ones) = branch v t ones

  abbrev pub set_value : V → Trie V → Trie V
  set_value v leaf = branch (some v) leaf leaf
  set_value v (branch _ zeros ones) = branch (some v) zeros ones

  -- The loop of `Insert`: missing nodes are made on the way.
  unfoldable pub insert_bits : List Bool → V → Trie V → Trie V
  insert_bits [] v t = set_value v t
  insert_bits (b ∷ bs) v t = set_child b (insert_bits bs v (child b t)) t

  -- The loop of `Find`: the last value that was met, down to the first missing child.
  unfoldable pub find_bits : List Bool → Trie V → Option V → Option V
  find_bits bs leaf found = found
  find_bits [] (branch v zeros ones) found = elim v [ some w ↦ some w | none ↦ found ]
  find_bits (true ∷ bs) (branch v zeros ones) found =
      find_bits bs ones (elim v [ some w ↦ some w | none ↦ found ])
  find_bits (false ∷ bs) (branch v zeros ones) found =
      find_bits bs zeros (elim v [ some w ↦ some w | none ↦ found ])
