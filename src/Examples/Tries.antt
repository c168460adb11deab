-- ===== src/Examples/Tries.antt =====
-- Patterns for names and prefixes of addresses.
use mathlib.Core.Option
use lumine_for_android.Prelude.{
  codes, same, ℕ, ◌-◌, ◌/◌, ◌^◌, ◌≡◌, refl, Bool, false, none, some, List, arith, ◌==◌,
  if◌then◌else◌,
}
use lumine_for_android.Addrtrie.Domain.{Node, new_node, add, find, labels}
use lumine_for_android.Addrtrie.Domain.Paths.{exact_at, wildcard_at}
use lumine_for_android.Addrtrie.Domain.Lookup.{
  spec_find, view, spec_add, find-eq-spec_find, add-refines,
}
use lumine_for_android.Addrtrie.Bits.{Trie, leaf, bits, insert_bits}
use lumine_for_android.Addrtrie.Bits.Longest.{value_at, longest}
use lumine_for_android.Addrtrie.Ip.{parse4, insert4, Netip, v4, v6, unmap, find4, find6}
use lumine_for_android.Addrtrie.Ip.Match.{insert4-network, find4-longest, find6-longest}

abbrev root : Node ℕ
root = new_node

find-eq-spec_find_example :
    find root (codes "x.a.b")
    ≡ spec_find (exact_at root) (wildcard_at root) (labels (codes "x.a.b"))
find-eq-spec_find_example = find-eq-spec_find root (codes "x.a.b")

add-refines_example :
    Option.map view (add (codes "*.a.b") 1 root) ≡ spec_add (codes "*.a.b") 1 (view root)
add-refines_example = add-refines (codes "*.a.b") 1 root

-- 10.0.0.0/8 and the address 10.1.2.3
abbrev network : List Bool
network = bits 32 167772160 8

abbrev trie : Trie ℕ
trie = insert_bits network 1 leaf

-- a reader that knows one address of each family
abbrev netip4 : Netip
netip4 = record { parse_prefix = λ s. none; parse_addr = λ s. some (v4 167838211) }

abbrev netip6 : Netip
netip6 = record { parse_prefix = λ s. none; parse_addr = λ s. some (v6 1) }

ten_unmap : unmap (v4 167838211) ≡ v4 167838211
unfolding unmap
ten_unmap = refl

loopback_unmap : unmap (v6 1) ≡ v6 1
unfolding unmap
loopback_unmap = refl

find4-longest_example :
    find4 netip4 trie (codes "10.1.2.3") ≡ longest (value_at trie) (bits 32 167838211 32)
find4-longest_example =
    find4-longest trie netip4 (codes "10.1.2.3") (v4 167838211) 167838211 refl ten_unmap

find6-longest_example : find6 netip6 trie (codes "::1") ≡ longest (value_at trie) (bits 128 1 128)
find6-longest_example = find6-longest trie netip6 (codes "::1") (v6 1) 1 refl loopback_unmap

-- a reader that knows the prefix 10.0.0.0/8
abbrev netip_ten : Netip
netip_ten = record { parse_prefix = λ s. some (v4 167772160, 8); parse_addr = λ s. none }

ten_parse4 : parse4 netip_ten (codes "10.0.0.0/8") ≡ some (167772160, 8)
unfolding parse4
ten_parse4 = refl

ten_not_star : same (codes "10.0.0.0/8") (codes "*") ≡ false
unfolding same
ten_not_star = refl

insert4-network_example :
    (t' : Trie ℕ) × (insert4 netip_ten (codes "10.0.0.0/8") 2 trie ≡ some t')
    × (value_at t' (bits 32 167838211 8) ≡ (
        if 167772160 / 2 ^ (32 - 8) == 167838211 / 2 ^ (32 - 8)
        then some 2
        else value_at trie (bits 32 167838211 8)))
insert4-network_example =
    insert4-network netip_ten (codes "10.0.0.0/8") 167772160 8 167838211 2 trie ten_not_star
      ten_parse4 (omega arith) (omega arith) (omega arith)
