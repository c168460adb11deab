-- ===== src/Route.antt =====
-- Which domains are in the built-in list, and the policies that stand in for a missing rule:
-- enimul/internal/core/gfwlist.go, the fallback of `PlanRequest` in dial_plan.go, and
-- `DefaultDialTimeout` of tun_bridge.go. `strings.ToLower` is the parameter `to_lower`.
pub mod Fallback
use lumine_for_android.Prelude.{
  Bytes, Bool, true, false, Option, none, some, [], ◌∷◌, if◌then◌else◌, ℤ, ltb_ℤ, pos,
}
use lumine_for_android.Policy.{Policy, Mode, zero_policy, merge_policies}
use lumine_for_android.Addrtrie.Domain.{Node, find}

-- `domainRouteClass`
pub data RouteClass : Type 0 where
  plain rule gfw : RouteClass

-- `plainFallbackPolicy` and `gfwFallbackPolicy`
abbrev pub plain_fallback_policy : Policy
plain_fallback_policy = record zero_policy { mode = Mode.raw }

abbrev pub gfw_fallback_policy : Policy
gfw_fallback_policy = record zero_policy { mode = Mode.tls_rf }

-- The matchers, where they are set: `domainMatcher`, `gfwDomainMatcher` and `gfwBypassMatcher`.
pub record Matchers : Type 0 where
  pub domains : Option (Node Policy)
  pub gfw_domains : Option (Node (Unit {0}))
  pub gfw_bypass : Option (Node (Unit {0}))

abbrev pub matches : {V : Type 0} → Option (Node V) → Bytes → Bool
matches none domain = false
matches (some m) domain = elim (find m domain) [ some _ ↦ true | none ↦ false ]

module _ (to_lower : Bytes → Bytes) (m : Matchers) where
  -- `isGFWDomain`
  unfoldable pub is_gfw_domain : Bytes → Bool
  is_gfw_domain [] = false
  is_gfw_domain (c ∷ cs) = elim m.gfw_domains [
    | none ↦ false
    | some _ ↦
        if matches m.gfw_bypass (to_lower (c ∷ cs))
        then false
        else matches m.gfw_domains (to_lower (c ∷ cs))
  ]

  -- `classifyDomainRoute`, for a domain in lower case
  unfoldable pub classify_lower : Bytes → RouteClass
  classify_lower [] = plain
  classify_lower (c ∷ cs) =
      if matches m.domains (c ∷ cs) then rule else if is_gfw_domain (c ∷ cs) then gfw else plain

  abbrev pub classify_domain_route : Bytes → RouteClass
  classify_domain_route domain = classify_lower (to_lower domain)

  -- `shouldUseFakeIP`
  unfoldable pub should_use_fake_ip : Bytes → Bool
  should_use_fake_ip domain = elim (classify_domain_route domain) [
    | plain ↦ false
    | rule ↦ true
    | gfw ↦ true
  ]

  -- the policy that `PlanRequest` goes on with for a domain that no rule matched
  unfoldable pub fallback_policy : Policy → Bytes → Policy → Policy
  fallback_policy default_policy domain p = elim (classify_domain_route domain) [
    | plain ↦ merge_policies (plain_fallback_policy ∷ default_policy ∷ [])
    | rule ↦ p
    | gfw ↦ merge_policies (gfw_fallback_policy ∷ default_policy ∷ [])
  ]

-- `DefaultDialTimeout`: ten seconds, where the policy has no time
abbrev pub default_dial_timeout : Policy → ℤ
default_dial_timeout p =
    if ltb_ℤ (pos 0) p.connect_timeout then p.connect_timeout else pos 10000000000
