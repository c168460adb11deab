-- ===== src/Plan/Precedence.antt =====
-- What a plan makes of the decision of `genPolicy`: an explicit rule goes before the fallback.
use lumine_for_android.Prelude.{
  Bytes, same, ◌<◌, ◌≡◌, refl, ◌≢◌, ◌⊎◌, inl, inr, Bool, true, false, not, ◌&&◌, ◌||◌, Option, none,
  some, [], ◌∷◌, arith, Bool-cases, Returns, Returns-map, ok, ℤ, ◌≤ℤ◌, ltb_ℤ, pos,
}
use lumine_for_android.Addrtrie.Domain.{find}
use lumine_for_android.Policy.{Policy, merge_policies}
use lumine_for_android.Route.{
  RouteClass, plain, rule, gfw, plain_fallback_policy, gfw_fallback_policy, classify_domain_route,
  fallback_policy,
}
use lumine_for_android.Transform.{PlanError}
use lumine_for_android.Redirect.{Rules, World}
use lumine_for_android.Nat64.{Net, map_nat64_addr, is_nat64_enabled}
use lumine_for_android.Decision.{
  Outside, gen_policy, resolve, host_blocked, Decision, domain_not_found, chosen,
}
use lumine_for_android.Decision.Select.{Stocked, resolve-Yields}
use lumine_for_android.Decision.Target.{IsDecision}
use lumine_for_android.Plan.{
  Running, RequestContext, DialPlan, matchers_of, is_fake_ip_address, on_world, or_native,
  plan_nat64, with_fallback, nat64_target, target_port, domain_matched, plan_target, plan_decision,
  is_some,
}
use lumine_for_android.Stateful.{Call, Yields, Yields-bind, Yields-if, return}

module _ {C : Type 0} (out : Outside C) (rules : Rules) (net : Net) (to_lower : Bytes → Bytes)
    (some_upstream : 0 < out.upstreams.count) where
  abbrev pub class_of : Bytes → RouteClass
  class_of host = classify_domain_route to_lower (matchers_of rules) host

  -- The policy of a domain with the rule `own`, of the class `c`, for which `p` was decided.
  unfoldable pub routed_to : Option Policy → RouteClass → Policy → Policy
  routed_to (some d) c p = p
  routed_to none c p = elim c [
    | plain ↦ merge_policies (plain_fallback_policy ∷ rules.default_policy ∷ [])
    | rule ↦ p
    | gfw ↦ merge_policies (gfw_fallback_policy ∷ rules.default_policy ∷ [])
  ]

  -- the policy of a host for which `p` was decided
  unfoldable pub routed : Bytes → Bool → Policy → Policy
  routed host true p = p
  routed host false p = routed_to (find rules.domains host) (class_of host) p

  -- The port of the policy if it is positive, and else that of the request.
  unfoldable pub IsPort : ℤ → Policy → ℤ → Type 0
  IsPort requested p port =
      ((pos 1 ≤ℤ p.port) × (port ≡ p.port)) ⊎ ((p.port ≤ℤ pos 0) × (port ≡ requested))

  -- what every plan takes from the request, and the domain that a fake address stands for
  abbrev pub IsFor : RequestContext → Bytes → DialPlan → Type 0
  IsFor req domain plan =
      (plan.source ≡ req.source)
      × (plan.origin_host ≡ req.host)
      × (plan.origin_port ≡ req.port)
      × (plan.recovered_domain ≡ domain)

  -- A plan that is not blocked, for a host, with the target and the policy of its decision.
  unfoldable pub IsOpenPlan : RequestContext → Bytes → Bool → Bytes → Policy → DialPlan → Type 0
  IsOpenPlan req host is_ip target p plan =
      (plan.blocked ≡ false)
      × (plan.policy ≡ routed host is_ip p)
      × IsPort req.port plan.policy plan.target_port
      × (is_nat64_enabled net plan.policy ≡ false → plan.target_host ≡ target)

  -- the plan that each decision leads to
  unfoldable pub Planned : RequestContext → Bytes → Bool → Decision → DialPlan → Type 0
  Planned req host is_ip host_blocked plan = plan.blocked ≡ true
  Planned req host is_ip domain_not_found plan =
      IsOpenPlan req host is_ip host rules.default_policy plan
  Planned req host is_ip (chosen target p) plan = IsOpenPlan req host is_ip target p plan

  -- A plan for a host, from the world `w`: it follows what `genPolicy` decides there.
  unfoldable pub IsPlan : RequestContext → Bytes → Bytes → Bool → World C → DialPlan → Type 0
  IsPlan req domain host is_ip w plan =
      (d : Decision) × ((gen_policy out rules host is_ip req.early w).0 ≡ ok d)
      × IsDecision out rules host is_ip req.early w d
      × IsFor req domain plan
      × Planned req host is_ip d plan

  -- The pools of the world below are ready.
  unfoldable pub RunsStocked : Running C → Type 0
  RunsStocked s = Stocked out rules s.world

  on_world-Yields :
      {A : Type 0} (P : A → Type 0) (m : Call (World C) PlanError A)
      → Yields (Stocked out rules) P m
      → Yields RunsStocked P (on_world out rules net to_lower m)
  unfolding RunsStocked
  on_world-Yields P m h s i = h s.world i

  or_native-Returns : (o : Option Bytes) → Returns (λ x. Unit) (or_native out rules net to_lower o)
  or_native-Returns none = tt
  or_native-Returns (some x) = tt

  plan_nat64-Yields :
      (p : Policy) (host : Bytes)
      → Yields RunsStocked (λ x. Unit) (plan_nat64 out rules net to_lower p host)
  unfolding plan_nat64
  plan_nat64-Yields p host =
      Yields-bind RunsStocked (λ x. Unit) (λ x. Unit) _ _
        (Yields-if RunsStocked (λ x. Unit) (out.is_ip host) (return host)
          (on_world out rules net to_lower (resolve out rules p host)) (λ _ s i. (tt, i))
          (λ _.
            on_world-Yields (λ x. Unit) (resolve out rules p host)
              (resolve-Yields out rules some_upstream p host)))
        (λ ip _ s i. (or_native-Returns (map_nat64_addr net ip p.nat64_prefix), i))

  and_left : (a b : Bool) → (a && b) ≡ true → a ≢ false
  and_left true b h e = absurd (cc)
  and_left false b h e = absurd (cc)

  nat64_target-Yields :
      (domain : Bytes) (p : Policy) (host : Bytes)
      → Yields RunsStocked
          (λ mapped. is_nat64_enabled net p ≡ false → mapped ≡ host)
          (nat64_target out rules net to_lower domain p host)
  unfolding nat64_target
  nat64_target-Yields domain p host s i =
      elim (Bool-cases (
        is_nat64_enabled net p
        && (not (same domain []) || not (is_fake_ip_address out rules net to_lower host s)))) [
          | inl t ↦
              let (r, j) = plan_nat64-Yields p host s i in
              let plan = plan_nat64 out rules net to_lower p host s in
              let enabled : is_nat64_enabled net p ≢ false = and_left _ _ t in
              rw t (
                Returns-map (λ x. Unit) (λ mapped. is_nat64_enabled net p ≡ false → mapped ≡ host)
                    plan.0 (λ x _ disabled. absurd (enabled disabled)) r,
                j,
              )
          | inr t ↦ rw t (λ _. refl, i)
        ]

  with_fallback-routed_to :
      (host : Bytes) (own : Option Policy) (p : Policy)
      → (with_fallback out rules net to_lower host false (is_some own) p).0
        ≡ routed_to own (class_of host) p
  unfolding with_fallback fallback_policy routed_to
  with_fallback-routed_to host (some d) p = refl
  with_fallback-routed_to host none p = refl

  with_fallback-routed :
      (host : Bytes) (is_ip : Bool) (p : Policy)
      → (with_fallback out rules net to_lower host is_ip
          (domain_matched out rules net to_lower (host, is_ip))
          p).0
        ≡ routed host is_ip p
  unfolding with_fallback routed
  with_fallback-routed host true p = refl
  with_fallback-routed host false p = with_fallback-routed_to host (find rules.domains host) p

  target_port-IsPort :
      (requested : ℤ) (p : Policy)
      → IsPort requested p (target_port out rules net to_lower requested p)
  unfolding IsPort
  target_port-IsPort requested p = elim (Bool-cases (ltb_ℤ (pos 0) p.port)) [
    | inl t ↦ rw t (inl (ground arith, refl))
    | inr t ↦ rw t (inr (ground arith, refl))
  ]

  plan_target-IsOpenPlan :
      (req : RequestContext) (domain host : Bytes) (is_ip by_ip : Bool) (target : Bytes)
      (p : Policy)
      → Yields RunsStocked
          (λ plan. IsFor req domain plan × IsOpenPlan req host is_ip target p plan)
          (plan_target out rules net to_lower req domain
            (host, is_ip)
            (domain_matched out rules net to_lower (host, is_ip))
            by_ip
            target
            p)
  unfolding plan_target IsOpenPlan
  plan_target-IsOpenPlan req domain host is_ip by_ip target p =
      let matched = domain_matched out rules net to_lower (host, is_ip) in
      let q : Policy × Bool = with_fallback out rules net to_lower host is_ip matched p in
      Yields-bind RunsStocked (λ mapped. is_nat64_enabled net q.0 ≡ false → mapped ≡ target) _
        (nat64_target out rules net to_lower domain q.0 target) _
        (nat64_target-Yields domain q.0 target)
        (λ mapped disabled s i. (
          (
            (refl, refl, refl, refl),
            (refl, with_fallback-routed host is_ip p, target_port-IsPort req.port q.0, disabled),
          ),
          i,
        ))

  pub plan_decision-Planned :
      (req : RequestContext) (domain host : Bytes) (is_ip by_ip : Bool) (d : Decision)
      → Yields RunsStocked
          (λ plan. IsFor req domain plan × Planned req host is_ip d plan)
          (plan_decision out rules net to_lower req domain
            (host, is_ip)
            (domain_matched out rules net to_lower (host, is_ip))
            by_ip
            d)
  unfolding plan_decision Planned
  plan_decision-Planned req domain host is_ip by_ip host_blocked =
      λ s i. (((refl, refl, refl, refl), refl), i)
  plan_decision-Planned req domain host is_ip by_ip domain_not_found =
      plan_target-IsOpenPlan req domain host is_ip by_ip host rules.default_policy
  plan_decision-Planned req domain host is_ip by_ip (chosen target p) =
      plan_target-IsOpenPlan req domain host is_ip by_ip target p
