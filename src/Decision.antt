-- ===== src/Decision.antt =====
-- `genPolicy` of enimul/internal/core/policy.go: the policy of a host, and where to connect to. What
-- it logs is left out. `net.ParseIP` is a parameter, as the test whether it reads an address.
pub mod Select
pub mod Target
pub mod Merged
use lumine_for_android.Prelude.{
  Bytes, codes, same, has_prefix, Bool, true, false, ◌||◌, Option, none, some, List, [], ◌∷◌,
  if◌then◌else◌, drop,
}
use lumine_for_android.Addrtrie.Domain.{find}
use lumine_for_android.Policy.{Policy, Mode, merge_policies}
use lumine_for_android.Dns.{NameCache, Upstreams, dns_resolve, found}
use lumine_for_android.Transform.{PlanError, Addresses, dns_error}
use lumine_for_android.Redirect.{
  Rules, World, no_redirect_prefix, ip_pool_tag_prefix, resolve_prefix, not_set, from_pool,
  ip_redirect,
}
use lumine_for_android.Stateful.{Call, ◌>>=◌, return, wrapped}

-- What it returns, less the error that `failed` stands for: `blocked`, `domainNotFound`, or the
-- target and its policy.
pub data Decision : Type 0 where
  host_blocked domain_not_found : Decision
  chosen : Bytes → Policy → Decision

-- What stands outside of the repository, or belongs to another component.
pub record Outside (C : Type 0) : Type 0 where
  pub addresses : Addresses
  pub is_ip : Bytes → Bool
  pub lru : NameCache C
  pub upstreams : Upstreams

unfoldable pub is_block : Mode → Bool
is_block Mode.block = true
is_block _ = false

-- a `noRedirectPrefix` taken off
unfoldable pub without_prefix : Bytes → Bytes
without_prefix host = if has_prefix no_redirect_prefix host then drop 1 host else host

-- the policies that a redirect is merged from: the domain's where there is one, then the address's
abbrev pub with_domain : Option Policy → Policy → Policy → List Policy
with_domain (some d) p default = d ∷ p ∷ default ∷ []
with_domain none p default = p ∷ default ∷ []

-- `selectedHost` as `hostsMatcher` gives it: "" if it has none
abbrev pub or_empty : Option Bytes → Bytes
or_empty none = []
or_empty (some host) = host

module _ {C : Type 0} (out : Outside C) (rules : Rules) where
  -- `dnsResolve` with the times of the policy
  unfoldable pub resolve : Policy → Bytes → Call (World C) PlanError Bytes
  resolve p host w =
      let (o, dns) = dns_resolve out.lru out.upstreams host p.dns_mode p.dns_cache_ttl w.dns in
      (wrapped dns_error o, record w { dns = dns })

  -- the policy of an address, merged with the default policy
  abbrev pub ip_merged : Option Policy → Policy
  ip_merged none = rules.default_policy
  ip_merged (some p) = merge_policies (p ∷ rules.default_policy ∷ [])

  abbrev pub unless_blocked : Bytes → Policy → Decision
  unless_blocked host p = if is_block p.mode then host_blocked else chosen host p

  -- the branch for an address
  unfoldable pub decide_ip : Bytes → Call (World C) PlanError Decision
  decide_ip host =
      ip_redirect out.addresses rules host >>= λ r. return (unless_blocked r.0 (ip_merged r.1))

  -- the last step for a domain: the redirect of its target, whose policy comes in behind the domain's
  abbrev pub redirected : Option Policy → Policy → Bytes × Option Policy → Decision
  redirected found p (host, none) = chosen host p
  redirected found p (host, some q) =
      unless_blocked host (merge_policies (with_domain found q rules.default_policy))

  unfoldable pub finish : Bool → Option Policy → Policy → Bytes → Call (World C) PlanError Decision
  finish no_redirect found p host =
      if no_redirect
      then return (chosen host p)
      else ip_redirect out.addresses rules host >>= λ r. return (redirected found p r)

  -- the target that a selected host names
  unfoldable pub select_target : Policy → Bytes → Bytes → Call (World C) PlanError Bytes
  select_target p origin selected =
      if has_prefix resolve_prefix selected
      then resolve p (drop 1 selected)
      else if same selected (codes "self")
      then return origin
      else if has_prefix ip_pool_tag_prefix selected
      then from_pool out.addresses rules (drop 1 selected)
      else return selected

  -- Behind a resolution: a target that is still empty is selected again.
  abbrev pub or_select : Policy → Bytes → Bytes → Bytes → Call (World C) PlanError Bytes
  or_select p origin selected [] = select_target p origin selected
  or_select p origin selected (c ∷ cs) = return (c ∷ cs)

  -- a domain whose policy names no host: `hosts`, and the resolver where that has nothing either
  unfoldable pub decide_hosts :
      Bool → Option Policy → Policy → Bytes → Bytes → Call (World C) PlanError Decision
  decide_hosts early found p origin host =
      let no_redirect = has_prefix no_redirect_prefix host in
      let selected = without_prefix host in
      if not_set selected
      then if early
        then return domain_not_found
        else resolve p origin >>= or_select p origin selected >>= finish no_redirect found p
      else select_target p origin selected >>= finish no_redirect found p

  -- a domain with its policy, merged
  unfoldable pub decide_domain :
      Bool → Option Policy → Policy → Bytes → Call (World C) PlanError Decision
  decide_domain early found p origin =
      let selected = without_prefix p.host in
      if not_set selected
      then decide_hosts early found p origin (or_empty (find rules.hosts origin))
      else select_target p origin selected >>= finish (has_prefix no_redirect_prefix p.host) found p

  -- a domain with its rule, if it has one
  unfoldable pub decide_rule : Bytes → Bool → Option Policy → Call (World C) PlanError Decision
  decide_rule origin early none = decide_domain early none rules.default_policy origin
  decide_rule origin early (some d) =
      if is_block d.mode
      then return host_blocked
      else decide_domain early (some d) (merge_policies (d ∷ rules.default_policy ∷ [])) origin

  -- `genPolicy`
  unfoldable pub gen_policy : Bytes → Bool → Bool → Call (World C) PlanError Decision
  gen_policy origin is_ip early =
      if is_ip || out.is_ip origin
      then decide_ip origin
      else decide_rule origin early (find rules.domains origin)
