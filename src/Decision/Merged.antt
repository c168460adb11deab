-- ===== src/Decision/Merged.antt =====
-- Which target a decision of `genPolicy` has, which policies its policy is merged from, and when it
-- blocks.
use lumine_for_android.Prelude.{
  Bytes, has_prefix, ◌<◌, ◌≡◌, refl, ap, subst, ◌≢◌, inl, inr, Bool, true, false, ◌&&◌, ◌||◌,
  Option, none, some, arith, if◌then◌else◌, Bool-cases, Returns, Returns-map, ok,
}
use lumine_for_android.Addrtrie.Domain.{find}
use lumine_for_android.Policy.{Policy, Mode, merge_policies}
use lumine_for_android.Transform.{PlanError}
use lumine_for_android.Redirect.{
  World, Rules, get_ip_policy, ip_redirect, no_redirect_prefix, not_set,
}
use lumine_for_android.Redirect.Total.{ip_redirect-Yields}
use lumine_for_android.Decision.{
  Decision, Outside, is_block, with_domain, resolve, ip_merged, unless_blocked, decide_ip,
  redirected, finish, host_blocked, domain_not_found, without_prefix, or_empty, decide_hosts,
  decide_domain, decide_rule, gen_policy,
}
use lumine_for_android.Decision.Target.{
  base, with_target, IsOpen, IsClosed, naming, is_unnamed, selection, redirect_of, IsTargetDecision,
  IsDomainDecision, IsIpDecision, IsDecision,
}
use lumine_for_android.Decision.Select.{
  Stocked, resolve-Yields, select_target-Yields, or_select-Yields,
}
use lumine_for_android.Stateful.{Returns-step, Call, Yields, ◌>>=◌, return, Yields-bind, Yields-if}

is_block_sound : (m : Mode) → is_block m ≡ true → m ≡ Mode.block
unfolding is_block
is_block_sound m h = ground arith

is_block_refuted : (m : Mode) → is_block m ≡ false → m ≢ Mode.block
unfolding is_block
is_block_refuted m h e = ground arith

module _ {C : Type 0} (out : Outside C) (rules : Rules) where
  with_domain-with_target :
      (own : Option Policy) (q : Policy)
      → merge_policies (with_domain own q rules.default_policy) ≡ with_target out rules own q
  with_domain-with_target none q = refl
  with_domain-with_target (some d) q = refl

  -- an address has its policy as a domain has it
  ip_merged-base : (o : Option Policy) → ip_merged out rules o ≡ base out rules o
  ip_merged-base none = refl
  ip_merged-base (some p) = refl

  -- From the world `w`, with its pools ready, the call returns a decision as `P` says or an error, and
  -- the pools stay ready.
  abbrev pub Decides : (Decision → Type 0) → Call (World C) PlanError Decision → World C → Type 0
  Decides P m w = Returns P (m w).0 × Stocked out rules (m w).1

  own_block :
      (early : Bool) (d : Policy) (origin : Bytes) (w : World C)
      → is_block d.mode ≡ true
      → IsDomainDecision out rules early (some d) origin w host_blocked
  unfolding IsDomainDecision IsClosed
  own_block early d origin w h = inl (is_block_sound d.mode h, refl)

  Decides-map :
      (P Q : Decision → Type 0) (m : Call (World C) PlanError Decision) (w : World C)
      → ((d : Decision) → P d → Q d)
      → Decides P m w
      → Decides Q m w
  Decides-map P Q m w f h = (Returns-map P Q (m w).0 f h.0, h.1)

  unless_blocked-IsIpDecision :
      (ip host : Bytes) (w : World C) (o : Option Policy)
      → o ≡ get_ip_policy out.addresses rules ip
      → redirect_of out rules ip w ≡ ok (host, o)
      → IsIpDecision out rules ip w (unless_blocked out rules host (ip_merged out rules o))
  unfolding IsIpDecision
  unless_blocked-IsIpDecision ip host w o e r =
      let mine : Option Policy = get_ip_policy out.addresses rules ip in
      let p : Policy = base out rules mine in
      let r' : redirect_of out rules ip w ≡ ok (host, mine) =
        subst (λ (x : Option Policy). redirect_of out rules ip w ≡ ok (host, x)) e r in
      rw (e, ip_merged-base mine)
        (elim (Bool-cases (is_block p.mode)) [
          | inl t ↦ rw t (host, r', is_block_sound p.mode t)
          | inr t ↦ rw t (r', refl, is_block_refuted p.mode t)
        ])

  decide_ip-Decides :
      (ip : Bytes) (w : World C)
      → Stocked out rules w
      → Decides (IsIpDecision out rules ip w) (decide_ip out rules ip) w
  unfolding decide_ip
  decide_ip-Decides ip w h =
      Returns-step (Stocked out rules) _ (IsIpDecision out rules ip w)
        (ip_redirect out.addresses rules ip) _ w (ip_redirect-Yields out.addresses rules ip w h)
        (λ r w' e o i. (unless_blocked-IsIpDecision ip r.0 w r.1 o (ap (λ x. x.0) e), i))

  module _ (own : Option Policy) (found : Call (World C) PlanError Bytes) (w : World C) where
    redirected-IsTargetDecision :
        (target : Bytes) (w' : World C)
        → found w ≡ (ok target, w')
        → (host : Bytes) (o : Option Policy) → redirect_of out rules target w' ≡ ok (host, o)
        → IsTargetDecision out rules own false found w
            (redirected out rules own (base out rules own) (host, o))
    unfolding IsTargetDecision
    redirected-IsTargetDecision target w' e host none r = (target, w', e, inr (refl, inl (r, refl)))
    redirected-IsTargetDecision target w' e host (some q) r =
        let p : Policy = with_target out rules own q in
        rw (with_domain-with_target own q) (elim (Bool-cases (is_block p.mode)) [
          | inl t ↦ rw t (refl, (target, w', e, (host, q, r, is_block_sound p.mode t)))
          | inr t ↦ rw t (target, w', e, inr (refl, inr (q, r, refl, is_block_refuted p.mode t)))
        ])

    finish-Decides :
        (no_redirect : Bool) (target : Bytes) (w' : World C)
        → found w ≡ (ok target, w')
        → Stocked out rules w'
        → Decides
            (IsTargetDecision out rules own no_redirect found w)
            (finish out rules no_redirect own (base out rules own) target)
            w'
    unfolding finish IsTargetDecision
    finish-Decides true target w' e i = ((target, w', e, inl (refl, refl, refl)), i)
    finish-Decides false target w' e i =
        Returns-step (Stocked out rules) _ (IsTargetDecision out rules own false found w)
          (ip_redirect out.addresses rules target) _ w'
          (ip_redirect-Yields out.addresses rules target w' i)
          (λ r w'' e' o j. (redirected-IsTargetDecision target w' e r.0 r.1 (ap (λ x. x.0) e'), j))

    target-Decides :
        (no_redirect : Bool)
        → Yields (Stocked out rules) (λ x. Unit) found
        → Stocked out rules w
        → Decides
            (IsTargetDecision out rules own no_redirect found w)
            (found >>= finish out rules no_redirect own (base out rules own))
            w
    target-Decides no_redirect y i =
        Returns-step (Stocked out rules) (λ x. Unit)
          (IsTargetDecision out rules own no_redirect found w) found _ w (y w i)
          (λ t w' e _ j. finish-Decides no_redirect t w' e j)

  -- The branches of a domain whose rule does not block, as one.
  decide_domain-selection :
      (early : Bool) (own : Option Policy) (origin : Bytes)
      → decide_domain out rules early own (base out rules own) origin ≡ (
          if early && is_unnamed out rules own origin
          then return domain_not_found
          else (selection out rules own origin
              >>= finish out rules
                  (has_prefix no_redirect_prefix (naming out rules own origin))
                  own
                  (base out rules own)))
  unfolding decide_domain decide_hosts
  decide_domain-selection true own origin =
      let host = or_empty (find rules.hosts origin) in
      elim (Bool-cases (not_set (without_prefix (base out rules own).host))) [
        | inr t ↦ rw (t, decide_domain, decide_hosts, t)
        | inl t ↦ elim (Bool-cases (not_set (without_prefix host))) [
          | inr u ↦ rw (t, decide_domain, decide_hosts, u)
          | inl u ↦ rw (t, decide_domain, decide_hosts, u)
        ]
      ]
  decide_domain-selection false own origin =
      let host = or_empty (find rules.hosts origin) in
      elim (Bool-cases (not_set (without_prefix (base out rules own).host))) [
        | inr t ↦ rw (t, decide_domain, decide_hosts, t)
        | inl t ↦ elim (Bool-cases (not_set (without_prefix host))) [
          | inr u ↦ rw (t, decide_domain, decide_hosts, u)
          | inl u ↦ rw (t, decide_domain, decide_hosts, u)
        ]
      ]

  module _ (some_upstream : 0 < out.upstreams.count) where
    selection-Yields :
        (own : Option Policy) (origin : Bytes)
        → Yields (Stocked out rules) (λ x. Unit) (selection out rules own origin)
    selection-Yields own origin =
        let name = without_prefix (naming out rules own origin) in
        Yields-if (Stocked out rules) (λ x. Unit) (is_unnamed out rules own origin) _ _
          (λ _.
            Yields-bind (Stocked out rules) (λ x. Unit) (λ x. Unit)
              (resolve out rules (base out rules own) origin) _
              (resolve-Yields out rules some_upstream (base out rules own) origin)
              (λ ip _.
                or_select-Yields out rules some_upstream (base out rules own) origin name ip))
          (λ _. select_target-Yields out rules some_upstream (base out rules own) origin name)

    decide_domain-Decides :
        (early : Bool) (own : Option Policy) (origin : Bytes) (w : World C)
        → IsOpen out rules own
        → Stocked out rules w
        → Decides
            (IsDomainDecision out rules early own origin w)
            (decide_domain out rules early own (base out rules own) origin)
            w
    unfolding IsDomainDecision
    decide_domain-Decides early own origin w o i =
        let name = naming out rules own origin in
        elim (Bool-cases (early && is_unnamed out rules own origin)) [
          | inl t ↦ rw (decide_domain-selection early own origin, t) (inr (o, inl (t, refl)), i)
          | inr t ↦
              rw (decide_domain-selection early own origin, t)
                (Decides-map
                  (IsTargetDecision out rules own (has_prefix no_redirect_prefix name)
                    (selection out rules own origin) w)
                  (IsDomainDecision out rules early own origin w)
                  (selection out rules own origin
                    >>= finish out rules (has_prefix no_redirect_prefix name) own
                        (base out rules own))
                  w (λ d h. inr (o, inr (t, h)))
                  (target-Decides own (selection out rules own origin) w
                    (has_prefix no_redirect_prefix name) (selection-Yields own origin) i))
        ]

    decide_rule-Decides :
        (origin : Bytes) (early : Bool) (own : Option Policy) (w : World C)
        → Stocked out rules w
        → Decides
            (IsDomainDecision out rules early own origin w)
            (decide_rule out rules origin early own)
            w
    unfolding decide_rule IsOpen
    decide_rule-Decides origin early none w i = decide_domain-Decides early none origin w tt i
    decide_rule-Decides origin early (some d) w i = elim (Bool-cases (is_block d.mode)) [
      | inl t ↦ rw (t, decide_rule) (own_block early d origin w t, i)
      | inr t ↦
          rw (t, decide_rule)
            (decide_domain-Decides early (some d) origin w (is_block_refuted d.mode t) i)
    ]

    -- From any world whose pools are ready the decision on a host returns, or is an error. For
    -- an address the policy is merged from the rule of that address and the default policy; it
    -- blocks exactly if the merged mode says so, and else the target is what `ipRedirect` makes of
    -- it. For a domain it blocks if its rule blocks. It is `domainNotFound` exactly if the request
    -- keeps domains and neither the policy nor `hosts` names a target. Else a target is found by
    -- that name or by a resolution. If the name begins with the mark against redirects, the target
    -- and the domain's policy are the result. If not, the target is redirected: where its address
    -- has no rule the policy is the domain's, and where it has one, the merge of the domain's
    -- rule, this rule and the default policy, which blocks exactly if its mode says so. What is
    -- selected by a name, resolved and redirected to is as `select_target`, `resolve` and
    -- `ip_redirect` give it. The pools stay ready. There must be an upstream.
    pub gen_policy-IsDecision :
        (origin : Bytes) (is_ip early : Bool) (w : World C)
        → Stocked out rules w
        → Decides
            (IsDecision out rules origin (is_ip || out.is_ip origin) early w)
            (gen_policy out rules origin is_ip early)
            w
    unfolding gen_policy IsDecision
    gen_policy-IsDecision origin is_ip early w i = elim (Bool-cases (is_ip || out.is_ip origin)) [
      | inl t ↦ rw (t, gen_policy) (decide_ip-Decides origin w i)
      | inr t ↦
          rw (t, gen_policy) (decide_rule-Decides origin early (find rules.domains origin) w i)
    ]
