-- ===== src/Plan.antt =====
-- `PlanRequest` of enimul/internal/core/dial_plan.go, and `planNat64` of nat64.go: the fake address
-- recovered, the decision of `genPolicy`, the fallback for a domain without a rule, and NAT64.
pub mod Precedence
pub mod Request
use lumine_for_android.Prelude.{
  Bytes, same, ℕ, Bool, true, false, not, ◌&&◌, ◌||◌, Option, none, some, [], ◌∷◌, if◌then◌else◌,
  Outcome, ok, err, panic, out_of_fuel, ℤ, ltb_ℤ, pos,
}
use lumine_for_android.Addrtrie.Domain.{find}
use lumine_for_android.Addrtrie.Ip.{Addr, v4, v6}
use lumine_for_android.Policy.{Policy, zero_policy}
use lumine_for_android.Route.{Matchers, classify_domain_route, fallback_policy, plain, rule, gfw}
use lumine_for_android.FakeIp.{FakeStore, contains, lookup_domain}
use lumine_for_android.Transform.{PlanError, host_is_empty, plan_failed, native_ipv6}
use lumine_for_android.Redirect.{Rules, World, get_ip_policy}
use lumine_for_android.Nat64.{Net, map_nat64_addr, is_nat64_enabled}
use lumine_for_android.Decision.{
  Decision, Outside, or_empty, resolve, gen_policy, domain_not_found, chosen, host_blocked,
}
use lumine_for_android.Stateful.{Call, ◌>>=◌, return}

-- `RequestContext`; `early` is the mode `PreserveDomainTarget`.
pub record RequestContext : Type 0 where
  pub source : Bytes
  pub host : Bytes
  pub port : ℤ
  pub early : Bool

pub record DialPlan : Type 0 where
  pub source : Bytes
  pub origin_host : Bytes
  pub origin_port : ℤ
  pub recovered_domain : Bytes
  pub matched_domain : Bool
  pub matched_ip : Bool
  pub target_host : Bytes
  pub target_port : ℤ
  pub policy : Policy
  pub blocked : Bool

-- the state of a plan: what `genPolicy` changes, the fake-IP stores, and `ipDomainCache`
pub record Running (C : Type 0) : Type 0 where
  pub world : World C
  pub fake4 : FakeStore
  pub fake6 : FakeStore
  pub ip_domains : Option C

abbrev pub matchers_of : Rules → Matchers
matchers_of rules = record {
  domains = some rules.domains;
  gfw_domains = some rules.gfw_domains;
  gfw_bypass = some rules.gfw_bypass;
}

abbrev pub is_some : {A : Type 0} → Option A → Bool
is_some none = false
is_some (some _) = true

module _ {C : Type 0} (out : Outside C) (rules : Rules) (net : Net) (to_lower : Bytes → Bytes) where
  -- `lookupFakeDomainByIP`, at the time `now`
  unfoldable pub lookup_fake_domain_by_ip : Bytes → ℕ → Running C → Option Bytes × Running C
  lookup_fake_domain_by_ip ip now s =
      let (d4, fake4) = lookup_domain ip now s.fake4 in
      let (d6, fake6) = lookup_domain ip now s.fake6 in
      elim d4 [
        | some d ↦ (some d, record s { fake4 = fake4 })
        | none ↦ (d6, record s { fake4 = fake4; fake6 = fake6 })
      ]

  abbrev pub cached_domain : Bytes → Option C → Option Bytes
  cached_domain ip none = none
  cached_domain [] (some c) = none
  cached_domain (x ∷ xs) (some c) = out.lru.get c (x ∷ xs)

  -- `lookupDomainByIP`
  unfoldable pub lookup_domain_by_ip : Bytes → ℕ → Running C → Option Bytes × Running C
  lookup_domain_by_ip ip now s =
      let (o, t) = lookup_fake_domain_by_ip ip now s in
      elim o [ some d ↦ (some d, t) | none ↦ (cached_domain ip t.ip_domains, t) ]

  abbrev pub in_store : Addr → Running C → Bool
  in_store (v4 n) s = contains s.fake4 n
  in_store (v6 n) s = contains s.fake6 n

  -- `isFakeIPAddress`
  unfoldable pub is_fake_ip_address : Bytes → Running C → Bool
  is_fake_ip_address ip s = elim (out.addresses.netip.parse_addr ip) [
    | some addr ↦ in_store addr s
    | none ↦ false
  ]

  -- a step on the world below
  abbrev pub on_world : {A : Type 0} → Call (World C) PlanError A → Call (Running C) PlanError A
  on_world m s = ((m s.world).0, record s { world = (m s.world).1 })

  abbrev pub or_native : Option Bytes → Outcome PlanError Bytes
  or_native none = err native_ipv6
  or_native (some ip) = ok ip

  -- `planNat64`, where it is enabled
  unfoldable pub plan_nat64 : Policy → Bytes → Call (Running C) PlanError Bytes
  plan_nat64 p host =
      (if out.is_ip host then return host else on_world (resolve out rules p host)) >>= λ ip.
      λ s. (or_native (map_nat64_addr net ip p.nat64_prefix), s)

  -- the host that is planned for, and whether it is an address
  unfoldable pub recovered : RequestContext → ℕ → Running C → Bytes × Running C
  recovered req now s =
      if out.is_ip req.host
      then (or_empty (lookup_domain_by_ip req.host now s).0, (lookup_domain_by_ip req.host now s).1)
      else ([], s)

  -- `planningHost` and `isIP`
  abbrev pub planned_host : RequestContext → Bytes → Bytes × Bool
  planned_host req [] = (req.host, out.is_ip req.host)
  planned_host req (c ∷ cs) = (c ∷ cs, false)

  -- The policy behind the fallback for a domain without a rule, and `matchedDomain`.
  unfoldable pub with_fallback : Bytes → Bool → Bool → Policy → Policy × Bool
  with_fallback host is_ip matched p =
      if not is_ip && not matched
      then (
        fallback_policy to_lower (matchers_of rules) rules.default_policy host p,
        elim (classify_domain_route to_lower (matchers_of rules) host) [
          | plain ↦ false
          | rule ↦ false
          | gfw ↦ true
        ],
      )
      else (p, matched)

  -- the NAT64 step of `PlanRequest`
  unfoldable pub nat64_target : Bytes → Policy → Bytes → Call (Running C) PlanError Bytes
  nat64_target recovered_domain p host s =
      if is_nat64_enabled net p
        && (not (same recovered_domain []) || not (is_fake_ip_address host s))
      then plan_nat64 p host s
      else (ok host, s)

  abbrev pub target_port : ℤ → Policy → ℤ
  target_port port p = if ltb_ℤ (pos 0) p.port then p.port else port

  -- the plan of a request that is blocked, and of one that is not
  abbrev pub blocked_plan : RequestContext → Bytes → Bool → Bool → DialPlan
  blocked_plan req domain matched_domain matched_ip = record {
    source = req.source;
    origin_host = req.host;
    origin_port = req.port;
    recovered_domain = domain;
    matched_domain = matched_domain;
    matched_ip = matched_ip;
    target_host = [];
    target_port = pos 0;
    policy = zero_policy;
    blocked = true;
  }

  abbrev pub open_plan : RequestContext → Bytes → Bool → Bool → Policy → Bytes → DialPlan
  open_plan req domain matched_domain matched_ip p target = record {
    source = req.source;
    origin_host = req.host;
    origin_port = req.port;
    recovered_domain = domain;
    matched_domain = matched_domain;
    matched_ip = matched_ip;
    target_host = target;
    target_port = target_port req.port p;
    policy = p;
    blocked = false;
  }

  -- `matchedIP` behind the decision
  unfoldable pub matches_ip : Bool → Bytes → Bool
  matches_ip matched_ip host =
      matched_ip
      || not (same host []) && out.is_ip host && is_some (get_ip_policy out.addresses rules host)

  -- the end of `PlanRequest`, with a target and its policy
  unfoldable pub plan_target :
      RequestContext
      → Bytes
      → Bytes × Bool
      → Bool
      → Bool
      → Bytes
      → Policy
      → Call (Running C) PlanError DialPlan
  plan_target req domain (host, is_ip) matched_domain matched_ip target p =
      let q = with_fallback host is_ip matched_domain p in
      nat64_target domain q.0 target >>= λ mapped.
      return (open_plan req domain q.1 (matches_ip matched_ip target) q.0 mapped)

  -- what `PlanRequest` makes of each decision
  unfoldable pub plan_decision :
      RequestContext
      → Bytes
      → Bytes × Bool
      → Bool
      → Bool
      → Decision
      → Call (Running C) PlanError DialPlan
  plan_decision req domain host matched_domain matched_ip host_blocked =
      return (blocked_plan req domain matched_domain matched_ip)
  plan_decision req domain host matched_domain matched_ip domain_not_found =
      plan_target req domain host matched_domain matched_ip host.0 rules.default_policy
  plan_decision req domain host matched_domain matched_ip (chosen target p) =
      plan_target req domain host matched_domain matched_ip target p

  -- any error of `genPolicy` is the same error of `PlanRequest`
  abbrev pub as_failed : Outcome PlanError Decision → Outcome PlanError Decision
  as_failed (ok d) = ok d
  as_failed (err e) = err plan_failed
  as_failed panic = panic
  as_failed out_of_fuel = out_of_fuel

  -- whether an explicit rule matches
  abbrev pub domain_matched : Bytes × Bool → Bool
  domain_matched (host, is_ip) = not is_ip && is_some (find rules.domains host)

  abbrev pub ip_matched : Bytes × Bool → Bool
  ip_matched (host, is_ip) = is_ip && is_some (get_ip_policy out.addresses rules host)

  unfoldable pub plan_host :
      RequestContext → Bytes → Bytes × Bool → Call (Running C) PlanError DialPlan
  plan_host req domain host =
      (λ s.
        let (o, t) = on_world (gen_policy out rules host.0 host.1 req.early) s in (as_failed o, t))
      >>= plan_decision req domain host (domain_matched host) (ip_matched host)

  -- `PlanRequest`, at the time `now`
  unfoldable pub plan_request : RequestContext → ℕ → Call (Running C) PlanError DialPlan
  plan_request req now s =
      if same req.host []
      then (err host_is_empty, s)
      else (let (domain, t) = recovered req now s in
          plan_host req domain (planned_host req domain) t)

  -- `PlanAddress`
  abbrev pub plan_address : Bytes → ℕ → Call (Running C) PlanError DialPlan
  plan_address host now =
      plan_request (record { source = []; host = host; port = pos 0; early = false }) now
