-- ===== src/Plan/Request.antt =====
-- `PlanRequest` as a whole: it returns, and its plan follows the rules.
use lumine_for_android.Prelude.{
  Bytes, same, ℕ, ◌<◌, ◌≡◌, refl, sym, ap, subst, inl, inr, Bool, true, false, ◌||◌, Option, none,
  some, [], ◌∷◌, if◌then◌else◌, Bool-cases, Option-cases, Outcome, Returns, Returns-map, ok, err,
  panic, out_of_fuel,
}
use lumine_for_android.FakeIp.{lookup_domain}
use lumine_for_android.Transform.{PlanError}
use lumine_for_android.Redirect.{Rules, World}
use lumine_for_android.Nat64.{Net}
use lumine_for_android.Decision.{or_empty, Decision, Outside, gen_policy}
use lumine_for_android.Decision.Target.{IsDecision}
use lumine_for_android.Decision.Merged.{gen_policy-IsDecision}
use lumine_for_android.Decision.Select.{Stocked}
use lumine_for_android.Plan.{
  cached_domain, Running, RequestContext, lookup_fake_domain_by_ip, lookup_domain_by_ip, recovered,
  planned_host, as_failed, plan_host, on_world, plan_decision, domain_matched, ip_matched,
  plan_request,
}
use lumine_for_android.Plan.Precedence.{IsPlan, IsFor, Planned, RunsStocked, plan_decision-Planned}
use lumine_for_android.Stateful.{Call, Returns-step}

module _ {C : Type 0} (out : Outside C) (rules : Rules) (net : Net) (to_lower : Bytes → Bytes)
    (some_upstream : 0 < out.upstreams.count) where
  as_failed-Returns :
      (P : Decision → Type 0) (o : Outcome PlanError Decision)
      → Returns P o
      → Returns P (as_failed out rules net to_lower o)
  as_failed-Returns P (ok d) h = h
  as_failed-Returns P (err e) h = tt
  as_failed-Returns P panic h = h
  as_failed-Returns P out_of_fuel h = h

  abbrev Stocks : Running C → Type 0
  Stocks = RunsStocked out rules net to_lower some_upstream

  as_failed-ok :
      (o : Outcome PlanError Decision) (d : Decision)
      → as_failed out rules net to_lower o ≡ ok d
      → o ≡ ok d
  as_failed-ok (ok c) d h = h
  as_failed-ok (err e) d h = absurd (cc)
  as_failed-ok panic d h = absurd (cc)
  as_failed-ok out_of_fuel d h = absurd (cc)

  -- the decision of `genPolicy`, as a step of the plan
  abbrev decide : Bytes → Bool → Bool → Call (Running C) PlanError Decision
  decide host is_ip early s =
      let (o, t) = on_world out rules net to_lower (gen_policy out rules host is_ip early) s in
      (as_failed out rules net to_lower o, t)

  plan_host-IsPlan :
      (req : RequestContext) (domain host : Bytes) (is_ip : Bool) (s : Running C)
      → (is_ip || out.is_ip host) ≡ is_ip
      → Stocks s
      → Returns
          (IsPlan out rules net to_lower some_upstream req domain host is_ip s.world)
          (plan_host out rules net to_lower req domain (host, is_ip) s).0
        × Stocks (plan_host out rules net to_lower req domain (host, is_ip) s).1
  unfolding plan_host RunsStocked IsPlan
  plan_host-IsPlan req domain host is_ip s e i =
      let P : Decision → Type 0 = IsDecision out rules host is_ip req.early s.world in
      let (r, j) = gen_policy-IsDecision out rules some_upstream host is_ip req.early s.world i in
      let decided =
        subst
          (λ (b : Bool).
            Returns (IsDecision out rules host b req.early s.world)
              (gen_policy out rules host is_ip req.early s.world).0)
          e r in
      Returns-step Stocks P
        (IsPlan out rules net to_lower some_upstream req domain host is_ip s.world)
        (decide host is_ip req.early)
        (plan_decision out rules net to_lower req domain (host, is_ip)
          (domain_matched out rules net to_lower (host, is_ip))
          (ip_matched out rules net to_lower (host, is_ip)))
        s (as_failed-Returns P (gen_policy out rules host is_ip req.early s.world).0 decided, j)
        (λ d t h p k.
          let (q, l) =
            plan_decision-Planned out rules net to_lower some_upstream req domain host is_ip
              (ip_matched out rules net to_lower (host, is_ip)) d t k in
          (
            Returns-map
                (λ plan.
                  IsFor out rules net to_lower some_upstream req domain plan
                  × Planned out rules net to_lower some_upstream req host is_ip d plan)
                (IsPlan out rules net to_lower some_upstream req domain host is_ip s.world) _
                (λ plan u. (d, as_failed-ok _ d (ap (λ x. x.0) h), p, u.0, u.1)) q,
            l,
          ))

  lookup_fake-world :
      (ip : Bytes) (now : ℕ) (s : Running C)
      → (lookup_fake_domain_by_ip out rules net to_lower ip now s).1.world ≡ s.world
  unfolding lookup_fake_domain_by_ip
  lookup_fake-world ip now s = elim (Option-cases (lookup_domain ip now s.fake4).0) [
    | inl n ↦ rw (n, lookup_fake_domain_by_ip) refl
    | inr (d, e) ↦ rw (e, lookup_fake_domain_by_ip) refl
  ]

  lookup_domain_by_ip-world :
      (ip : Bytes) (now : ℕ) (s : Running C)
      → (lookup_domain_by_ip out rules net to_lower ip now s).1.world ≡ s.world
  unfolding lookup_domain_by_ip
  lookup_domain_by_ip-world ip now s =
      elim (Option-cases (lookup_fake_domain_by_ip out rules net to_lower ip now s).0) [
        | inl n ↦ rw (n, lookup_domain_by_ip) (lookup_fake-world ip now s)
        | inr (d, e) ↦ rw (e, lookup_domain_by_ip) (lookup_fake-world ip now s)
      ]

  recovered-world :
      (req : RequestContext) (now : ℕ) (s : Running C)
      → (recovered out rules net to_lower req now s).1.world ≡ s.world
  unfolding recovered
  recovered-world req now s = elim (Bool-cases (out.is_ip req.host)) [
    | inl t ↦ rw (t, recovered) (lookup_domain_by_ip-world req.host now s)
    | inr t ↦ rw (t, recovered) refl
  ]

  or_same : (b : Bool) → (b || b) ≡ b
  or_same true = refl
  or_same false = refl

  -- What is known of an address: the domain that its fake address stands for, or the one that the
  -- cache of resolved addresses has; else nothing.
  abbrev pub known_of : Bytes → Option Bytes → Option Bytes → Running C → Bytes
  known_of ip (some d) o s = d
  known_of ip none (some d) s = d
  known_of ip none none s = or_empty (cached_domain out rules net to_lower ip s.ip_domains)

  abbrev pub known_domain : RequestContext → ℕ → Running C → Bytes
  known_domain req now s =
      if out.is_ip req.host
      then known_of req.host (lookup_domain req.host now s.fake4).0
          (lookup_domain req.host now s.fake6).0 s
      else []

  -- the host that is planned for: the domain where one is known
  abbrev pub planning : Bytes → Bytes → Bytes
  planning host [] = host
  planning host (c ∷ cs) = c ∷ cs

  lookup_domain_by_ip-known :
      (ip : Bytes) (now : ℕ) (s : Running C)
      → or_empty (lookup_domain_by_ip out rules net to_lower ip now s).0
        ≡ known_of ip (lookup_domain ip now s.fake4).0 (lookup_domain ip now s.fake6).0 s
  unfolding lookup_domain_by_ip lookup_fake_domain_by_ip
  lookup_domain_by_ip-known ip now s = elim (Option-cases (lookup_domain ip now s.fake4).0) [
    | inr (d, e) ↦ rw (e, lookup_domain_by_ip, lookup_fake_domain_by_ip)
    | inl n ↦ elim (Option-cases (lookup_domain ip now s.fake6).0) [
      | inr (d, e) ↦ rw (n, lookup_domain_by_ip, lookup_fake_domain_by_ip, e)
      | inl m ↦
          rw (lookup_domain_by_ip, lookup_fake_domain_by_ip, n, m, lookup_fake_domain_by_ip, n)
    ]
  ]

  recovered-known :
      (req : RequestContext) (now : ℕ) (s : Running C)
      → (recovered out rules net to_lower req now s).0 ≡ known_domain req now s
  unfolding recovered
  recovered-known req now s = elim (Bool-cases (out.is_ip req.host)) [
    | inl t ↦ rw (t, recovered) (lookup_domain_by_ip-known req.host now s)
    | inr t ↦ rw (t, recovered) refl
  ]

  planned_host-planning :
      (req : RequestContext) (domain : Bytes)
      → out.is_ip domain ≡ false
      → planned_host out rules net to_lower req domain
        ≡ (planning req.host domain, out.is_ip (planning req.host domain))
  planned_host-planning req [] h = refl
  planned_host-planning req (c ∷ cs) h = rw (h)

  -- A request for a host, from any state whose pools are ready, ends in an error or in a plan that
  -- follows what `genPolicy` decides, in that state, on the host, or on the domain that is known
  -- for an address, from a fake-IP store or else from the cache of resolved addresses; this is a
  -- decision as the rules say. Where it blocks, the plan is blocked, and nowhere else. Where it
  -- finds no domain, the host and the default policy stand for its result. Unless NAT64 is
  -- enabled, the target is the one decided. The policy is the one decided, but a domain without a
  -- rule gets the fallback policy of its class instead, if it has the class `plain` or `gfw`. The
  -- port is the policy's, if that is positive, and else the request's. The plan names the source,
  -- the host and the port of the request and that domain. The pools stay ready. There must be an
  -- upstream, and what is known for an address must not be an address itself.
  pub plan_request-IsPlan :
      (req : RequestContext) (now : ℕ) (s : Running C)
      → Stocks s
      → out.is_ip (known_domain req now s) ≡ false
      → Returns
          (IsPlan out rules net to_lower some_upstream req
            (known_domain req now s)
            (planning req.host (known_domain req now s))
            (out.is_ip (planning req.host (known_domain req now s)))
            s.world)
          (plan_request out rules net to_lower req now s).0
        × Stocks (plan_request out rules net to_lower req now s).1
  unfolding plan_request RunsStocked
  plan_request-IsPlan req now s i h = elim (Bool-cases (same req.host [])) [
    | inl t ↦ rw (t, plan_request) (tt, i)
    | inr t ↦
        let domain = known_domain req now s in
        let host = planning req.host domain in
        let s' = (recovered out rules net to_lower req now s).1 in
        let same_world : s'.world ≡ s.world = recovered-world req now s in
        rw (t, plan_request, recovered-known req now s, planned_host-planning req domain h)
          (subst
            (λ (w : World C).
              Returns
                (IsPlan out rules net to_lower some_upstream req domain host (out.is_ip host) w)
                (plan_host out rules net to_lower req domain (host, out.is_ip host) s').0
              × Stocks (plan_host out rules net to_lower req domain (host, out.is_ip host) s').1)
            same_world
            (plan_host-IsPlan req domain host (out.is_ip host) s' (or_same (out.is_ip host))
              (subst (Stocked out rules) (sym same_world) i)))
  ]
