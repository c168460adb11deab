-- ===== src/Addrtrie/Ip.antt =====
-- `IPv4Trie` and `IPv6Trie`: enimul/internal/addrtrie/ipv4.go and ipv6.go. The readers of
-- `net/netip` are parameters, which give an address as a number of 32 or 128 bits.
pub mod Match
use lumine_for_android.Prelude.{
  Bytes, codes, same, ℕ, ◌/◌, ◌%◌, ◌^◌, Bool, Option, none, some, List, leb, ◌==◌, if◌then◌else◌,
}
use lumine_for_android.Addrtrie.Bits.{Trie, bits, value, set_value, insert_bits, find_bits}

-- `netip.Addr`
pub data Addr : Type 0 where
  v4 : ℕ → Addr
  v6 : ℕ → Addr

-- `Addr.Unmap`: ::ffff:0:0/96 holds the IPv4 addresses
unfoldable pub unmap : Addr → Addr
unmap (v4 n) = v4 n
unmap (v6 n) = if n / 2 ^ 32 == 0xffff then v4 (n % 2 ^ 32) else v6 n

-- `netip.ParsePrefix` and `netip.ParseAddr`
pub record Netip : Type 0 where
  pub parse_prefix : Bytes → Option (Addr × ℕ)
  pub parse_addr : Bytes → Option Addr

-- The tests that follow a prefix or an address that was read; `none` is an error.
abbrev pub prefix4 : Addr × ℕ → Option (ℕ × ℕ)
prefix4 (v4 n, len) = if leb len 32 then some (n, len) else none
prefix4 (v6 n, len) = none

abbrev pub addr4 : Addr → Option (ℕ × ℕ)
addr4 (v4 n) = some (n, 32)
addr4 (v6 n) = none

abbrev pub prefix6 : Addr → ℕ → Option (ℕ × ℕ)
prefix6 (v4 n) len = none
prefix6 (v6 n) len = if leb len 128 then some (n, len) else none

abbrev pub addr6 : Addr → Option (ℕ × ℕ)
addr6 (v4 n) = none
addr6 (v6 n) = some (n, 128)

abbrev pub bits4 : Addr → Option (List Bool)
bits4 (v4 n) = some (bits 32 n 32)
bits4 (v6 n) = none

abbrev pub bits6 : Addr → Option (List Bool)
bits6 (v4 n) = none
bits6 (v6 n) = some (bits 128 n 128)

module _ {V : Type 0} where
  -- the last test of `Find`, on the value of the root
  abbrev pub or_root : Trie V → Option V → Option V
  or_root t (some v) = some v
  or_root t none = value t

  abbrev pub find_in : Trie V → Option (List Bool) → Option V
  find_in t none = none
  find_in t (some bs) = or_root t (find_bits bs t none)

module _ (netip : Netip) where
  -- `parseIPv4OrCIDR` and `parseIPv6OrCIDR`
  unfoldable pub parse4 : Bytes → Option (ℕ × ℕ)
  parse4 s = elim (netip.parse_prefix s) [
    | some p ↦ prefix4 p
    | none ↦ elim (netip.parse_addr s) [ some a ↦ addr4 (unmap a) | none ↦ none ]
  ]

  unfoldable pub parse6 : Bytes → Option (ℕ × ℕ)
  parse6 s = elim (netip.parse_prefix s) [
    | some (a, len) ↦ prefix6 (unmap a) len
    | none ↦ elim (netip.parse_addr s) [ some a ↦ addr6 (unmap a) | none ↦ none ]
  ]

  module _ {V : Type 0} where
    -- `Insert`; `none` is an error, which leaves the trie as it was
    unfoldable pub insert4 : Bytes → V → Trie V → Option (Trie V)
    insert4 prefix v t =
        if same prefix (codes "*") then some (set_value v t) else elim (parse4 prefix) [
          | some (ip, len) ↦ some (insert_bits (bits 32 ip len) v t)
          | none ↦ none
        ]

    unfoldable pub insert6 : Bytes → V → Trie V → Option (Trie V)
    insert6 prefix v t =
        if same prefix (codes "*") then some (set_value v t) else elim (parse6 prefix) [
          | some (ip, len) ↦ some (insert_bits (bits 128 ip len) v t)
          | none ↦ none
        ]

    -- `Find`
    unfoldable pub find4 : Trie V → Bytes → Option V
    find4 t ip = elim (netip.parse_addr ip) [ some a ↦ find_in t (bits4 (unmap a)) | none ↦ none ]

    unfoldable pub find6 : Trie V → Bytes → Option V
    find6 t ip = elim (netip.parse_addr ip) [ some a ↦ find_in t (bits6 (unmap a)) | none ↦ none ]
