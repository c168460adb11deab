-- ===== src/Redirect.antt =====
-- The policies of addresses, and where an address is redirected: `getIPPolicy` and `ipRedirect` of
-- enimul/internal/core/policy.go.
pub mod Total
use lumine_for_android.Prelude.{
  Bytes, codes, has_prefix, has_byte, Assoc, Bool, ◌||◌, Option, none, some, if◌then◌else◌, drop,
}
use lumine_for_android.Addrtrie.Domain.{Node}
use lumine_for_android.Addrtrie.Bits.{Trie}
use lumine_for_android.Addrtrie.Ip.{find4, find6}
use lumine_for_android.Transform.{PlanError, Addresses, transform_ip, pool_error}
use lumine_for_android.Policy.{Policy, no_string, empty_string}
use lumine_for_android.Pool.{get_from_ip_pool, IpPool}
use lumine_for_android.Dns.{DnsState}
use lumine_for_android.Stateful.{Call, ◌>>=◌, return, wrapped}

-- What `LoadConfig` sets: the matchers and the default policy.
pub record Rules : Type 0 where
  pub domains : Node Policy
  pub gfw_domains : Node (Unit {0})
  pub gfw_bypass : Node (Unit {0})
  pub hosts : Node Bytes
  pub ips : Trie Policy
  pub ip6s : Trie Policy
  pub default_policy : Policy

-- `isIPv6`
unfoldable pub is_ipv6 : Bytes → Bool
is_ipv6 ip = has_byte b':' ip

abbrev pub no_redirect_prefix : Bytes
no_redirect_prefix = codes "^"

abbrev pub ip_pool_tag_prefix : Bytes
ip_pool_tag_prefix = codes "$"

abbrev pub resolve_prefix : Bytes
resolve_prefix = codes "?"

-- `x == "" || x == unsetString`
unfoldable pub not_set : Bytes → Bool
not_set s = empty_string s || no_string s

-- what a plan changes: the DNS client, and the counters of the pools
pub record World (C : Type 0) : Type 0 where
  pub dns : DnsState C
  pub pools : Assoc IpPool

-- `getIPPolicy`
unfoldable pub get_ip_policy : Addresses → Rules → Bytes → Option Policy
get_ip_policy addresses rules ip =
    if is_ipv6 ip then find6 addresses.netip rules.ip6s ip else find4 addresses.netip rules.ips ip

module _ (addresses : Addresses) (rules : Rules) {C : Type 0} where
  -- `getFromIPPool`, which moves the counter of a pool on
  unfoldable pub from_pool : Bytes → Call (World C) PlanError Bytes
  from_pool tag w =
      let (o, pools) = get_from_ip_pool tag w.pools in
      (wrapped pool_error o, record w { pools = pools })

  -- the choice of `ipRedirect` by the form of `map_to`
  unfoldable pub map_target : Bytes → Bytes → Call (World C) PlanError Bytes
  map_target ip map_to =
      if has_prefix ip_pool_tag_prefix map_to
      then from_pool (drop 1 map_to)
      else if has_byte b'/' map_to
      then (λ w. (transform_ip addresses ip map_to, w))
      else return map_to

  -- `ipRedirect`
  unfoldable pub ip_redirect : Bytes → Call (World C) PlanError (Bytes × Option Policy)
  ip_redirect ip = elim (get_ip_policy addresses rules ip) [
    | none ↦ return (ip, none)
    | some p ↦
        if not_set p.map_to
        then return (ip, some p)
        else map_target ip p.map_to >>= λ target. return (target, some p)
  ]
