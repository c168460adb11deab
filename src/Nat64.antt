-- ===== src/Nat64.antt =====
-- The mapping of IPv4 addresses behind a NAT64 prefix: enimul/internal/core/nat64.go. The readers of
-- net, which give an address as 16 bytes, in a number of 128 bits, are parameters.
use lumine_for_android.Prelude.{
  Bytes, same, has_byte, ℕ, ◌+◌, ◌*◌, ◌/◌, ◌%◌, ◌^◌, Bool, not, Option, none, some, [], ◌∷◌, ◌==◌,
  if◌then◌else◌,
}
use lumine_for_android.Addrtrie.Ip.{Addr, v4, v6}
use lumine_for_android.Policy.{Policy}

-- `strings.TrimSpace`, `net.ParseIP` with an IPv4 address mapped into 16 bytes, the network of
-- `net.ParseCIDR` with the length that its IP has, and `String` of an IP of 16 bytes
pub record Net : Type 0 where
  pub trim_space : Bytes → Bytes
  pub parse_ip : Bytes → Option ℕ
  pub parse_cidr : Bytes → Option Addr
  pub text : ℕ → Bytes

-- `To4`
unfoldable pub to4 : ℕ → Option ℕ
to4 n = if n / 2 ^ 32 == 0xffff then some (n % 2 ^ 32) else none

-- an IP of 16 bytes
abbrev pub of_16 : Option Addr → Option ℕ
of_16 none = none
of_16 (some (v4 n)) = none
of_16 (some (v6 n)) = some n

module _ (net : Net) where
  -- `prefixIP`, where it has 16 bytes
  unfoldable pub prefix_ip : Bytes → Option ℕ
  prefix_ip prefix =
      if has_byte b'/' prefix then of_16 (net.parse_cidr prefix) else net.parse_ip prefix

  -- the first 12 bytes of the prefix and the 4 bytes of the address
  unfoldable pub joined : ℕ → ℕ → ℕ
  joined prefix ip = prefix / 2 ^ 32 * 2 ^ 32 + ip

  -- `mapNAT64Addr`; `none` is its result `false`
  unfoldable pub map_trimmed : Bytes → Bytes → Option Bytes
  map_trimmed ip [] = some ip
  map_trimmed ip (c ∷ cs) = elim (net.parse_ip ip) [
    | none ↦ some ip
    | some n ↦ elim (to4 n) [
      | none ↦ none
      | some low ↦ elim (prefix_ip (c ∷ cs)) [
        | none ↦ some ip
        | some high ↦ some (net.text (joined high low))
      ]
    ]
  ]

  unfoldable pub map_nat64_addr : Bytes → Bytes → Option Bytes
  map_nat64_addr ip prefix = map_trimmed ip (net.trim_space prefix)

  -- `isNAT64Enabled`
  unfoldable pub is_nat64_enabled : Policy → Bool
  is_nat64_enabled p = not (same (net.trim_space p.nat64_prefix) [])
