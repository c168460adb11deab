-- ===== src/Bootstrap.antt =====
-- The resolution of the host of a DNS server: enimul/internal/core/bootstrap.go. The system's
-- resolver, `net.ParseIP`, `To4` and `String` are parameters, and so is the cache of names.
pub mod Preferred
use lumine_for_android.Prelude.{
  Bytes, ◌*◌, ◌^◌, Bool, true, false, ◌||◌, Option, none, some, List, [], ◌∷◌, if◌then◌else◌,
  Outcome, ok, err, ℤ, pos,
}
use lumine_for_android.Dns.{NameCache}

pub data BootstrapError : Type 0 where
  bootstrap_resolve no_address_found : BootstrapError

-- Addresses `N`, as `net.IP` has them, and what is asked of them and of the system. A nil address of
-- the resolver's list is `none` there.
pub record System (N : Type 0) : Type 0 where
  pub to4 : N → Option N
  pub text : N → Bytes
  pub reads_as_ip : Bytes → Bool
  pub lookup_ip : Bytes → Option (List (Option N))

-- `reverseMappingTTL`, in nanoseconds
abbrev pub reverse_mapping_ttl : ℤ
reverse_mapping_ttl = pos (5 * 60 * 10 ^ 9)

-- `s == ""`
abbrev pub is_empty : Bytes → Bool
is_empty [] = true
is_empty (c ∷ s) = false

module _ {N : Type 0} (sys : System N) where
  abbrev pub v4_or : Option N → Bytes → Bytes
  v4_or (some v4) rest = sys.text v4
  v4_or none rest = rest

  -- the loop of `pickBootstrapIP`
  unfoldable pub pick_loop : List (Option N) → Bytes → Bytes
  pick_loop [] first = first
  pick_loop (none ∷ addrs) first = pick_loop addrs first
  pick_loop (some ip ∷ addrs) first =
      v4_or (sys.to4 ip) (pick_loop addrs (if is_empty first then sys.text ip else first))

  unfoldable pub pick_bootstrap_ip : List (Option N) → Bytes
  pick_bootstrap_ip addrs = pick_loop addrs []

  module _ {C : Type 0} (lru : NameCache C) where
    abbrev pub remembered : Option C → Bytes → Option Bytes
    remembered none host = none
    remembered (some c) host = lru.get c host

    abbrev pub add_with_lifetime : Option C → Bytes → Bytes → Option C
    add_with_lifetime none host ip = none
    add_with_lifetime (some c) host ip = some (lru.add c host ip reverse_mapping_ttl)

    -- what `resolveBootstrapHost` makes of the address that was picked
    abbrev pub bootstrapped : Bytes → Bytes → Option C → Outcome BootstrapError Bytes × Option C
    bootstrapped host [] cache = (err no_address_found, cache)
    bootstrapped host (c ∷ ip) cache = (ok (c ∷ ip), add_with_lifetime cache host (c ∷ ip))

    abbrev pub looked_up :
        Bytes → Option (List (Option N)) → Option C → Outcome BootstrapError Bytes × Option C
    looked_up host none cache = (err bootstrap_resolve, cache)
    looked_up host (some addrs) cache = bootstrapped host (pick_bootstrap_ip addrs) cache

    -- `resolveBootstrapHost`
    unfoldable pub resolve_bootstrap_host :
        Bytes → Option C → Outcome BootstrapError Bytes × Option C
    resolve_bootstrap_host host cache =
        if is_empty host || sys.reads_as_ip host
        then (ok host, cache)
        else elim (remembered cache host) [
          | some ip ↦ (ok ip, cache)
          | none ↦ looked_up host (sys.lookup_ip host) cache
        ]
