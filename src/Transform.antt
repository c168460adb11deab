-- ===== src/Transform.antt =====
-- `transformIP` of enimul/internal/core/policy.go, which maps an address into a network. The readers
-- and printers of net/netip are parameters, which give an address as a number of 32 or 128 bits.
pub mod Bits
use Prim.Native.Nat.{bit_and, bit_or}
use lumine_for_android.Prelude.{
  Bytes, ℕ, zero, suc, ◌+◌, ◌-◌, ◌*◌, ◌/◌, ◌%◌, ◌^◌, Option, none, some, [], ◌∷◌, leb,
  if◌then◌else◌, length, Outcome, ◌>>=◌, ok, err,
}
use lumine_for_android.Addrtrie.Ip.{Netip, Addr, v4, v6}
use lumine_for_android.Pool.{PoolError}
use lumine_for_android.Dns.{DnsError}

-- the errors of a plan
pub data PlanError : Type 0 where
  host_is_empty plan_failed : PlanError
  invalid_ip invalid_target_network ip_version_mismatch : PlanError
  native_ipv6 : PlanError
  pool_error : PoolError → PlanError
  dns_error : DnsError → PlanError

-- The readers and the printer of net/netip
pub record Addresses : Type 0 where
  pub netip : Netip
  pub text : Addr → Bytes

-- the bytes of an address of `w` bytes, the first first, and back
unfoldable pub bytes_of : ℕ → ℕ → Bytes
bytes_of zero n = []
bytes_of (suc w) n = n / 256 ^ w % 256 ∷ bytes_of w n

unfoldable pub number_of : Bytes → ℕ
number_of [] = 0
number_of (b ∷ bs) = b * 256 ^ length bs + number_of bs

-- a byte of the loop that the prefix ends in
unfoldable pub mixed : ℕ → ℕ → ℕ → ℕ
mixed mask_bits ip net =
    let mask = 0xFF * 2 ^ (8 - mask_bits) % 256 in
    bit_or (bit_and net mask) (bit_and ip (0xFF - mask))

-- the loop of `transformIP`, from the bit `bit_pos` on
unfoldable pub transform_bytes : ℕ → ℕ → Bytes → Bytes → Bytes
transform_bytes len bit_pos (ip ∷ ips) (net ∷ nets) =
    let rest = transform_bytes len (bit_pos + 8) ips nets in
    if leb (bit_pos + 8) len
    then net ∷ rest
    else if leb len bit_pos
    then ip ∷ rest
    else mixed (len - bit_pos) ip net ∷ rest
transform_bytes len bit_pos [] nets = []
transform_bytes len bit_pos (ip ∷ ips) [] = []

-- `prefix.Masked().Addr()`, of an address of `w` bits
abbrev pub masked : ℕ → ℕ → ℕ → ℕ
masked w n len = n / 2 ^ (w - len) * 2 ^ (w - len)

-- the bytes of the new address, where both are of `w` bytes
abbrev pub transformed : ℕ → ℕ → ℕ → ℕ → Bytes
transformed w ip net len =
    transform_bytes len 0 (bytes_of w ip) (bytes_of w (masked (8 * w) net len))

-- `transformIP` behind its readers
unfoldable pub transform : Addr → Addr × ℕ → Outcome PlanError Addr
transform (v4 ip) (v4 net, len) = ok (v4 (number_of (transformed 4 ip net len)))
transform (v6 ip) (v6 net, len) = ok (v6 (number_of (transformed 16 ip net len)))
transform (v4 ip) (v6 net, len) = err ip_version_mismatch
transform (v6 ip) (v4 net, len) = err ip_version_mismatch

abbrev pub or_error : {A : Type 0} → PlanError → Option A → Outcome PlanError A
or_error e none = err e
or_error e (some x) = ok x

-- `transformIP`
unfoldable pub transform_ip : Addresses → Bytes → Bytes → Outcome PlanError Bytes
transform_ip addresses ip target = do
  from ← or_error invalid_ip (addresses.netip.parse_addr ip)
  prefix ← or_error invalid_target_network (addresses.netip.parse_prefix target)
  to ← transform from prefix
  ok (addresses.text to)
