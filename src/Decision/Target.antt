-- ===== src/Decision/Target.antt =====
-- What `genPolicy` is to decide: the target, the policies that are merged, and when it blocks.
use lumine_for_android.Prelude.{
  Bytes, has_prefix, ◌≡◌, ◌≢◌, ◌⊎◌, Bool, true, false, ◌&&◌, Option, none, some, [], ◌∷◌,
  if◌then◌else◌, Outcome, ok,
}
use lumine_for_android.Addrtrie.Domain.{find}
use lumine_for_android.Policy.{Policy, Mode, merge_policies}
use lumine_for_android.Transform.{PlanError}
use lumine_for_android.Redirect.{
  World, Rules, get_ip_policy, ip_redirect, no_redirect_prefix, not_set,
}
use lumine_for_android.Decision.{
  Decision, Outside, resolve, select_target, or_select, host_blocked, domain_not_found, chosen,
  without_prefix, or_empty,
}
use lumine_for_android.Stateful.{Call, ◌>>=◌}

module _ {C : Type 0} (out : Outside C) (rules : Rules) where
  -- the policy that is merged from the rule of a domain, if it has one, and the default policy
  abbrev pub base : Option Policy → Policy
  base none = rules.default_policy
  base (some d) = merge_policies (d ∷ rules.default_policy ∷ [])

  -- the policy that a rule `q` for the target comes into, behind the domain's
  abbrev pub with_target : Option Policy → Policy → Policy
  with_target none q = merge_policies (q ∷ rules.default_policy ∷ [])
  with_target (some d) q = merge_policies (d ∷ q ∷ rules.default_policy ∷ [])

  -- The rule of the domain, if it has one, does not block.
  unfoldable pub IsOpen : Option Policy → Type 0
  IsOpen none = Unit
  IsOpen (some d) = d.mode ≢ Mode.block

  unfoldable pub IsClosed : Option Policy → Type 0
  IsClosed none = ⊥
  IsClosed (some d) = d.mode ≡ Mode.block

  -- The text that names the target of a domain: the host of its policy, or else its entry of `hosts`.
  abbrev pub naming : Option Policy → Bytes → Bytes
  naming own origin =
      if not_set (without_prefix (base own).host)
      then or_empty (find rules.hosts origin)
      else (base own).host

  abbrev pub is_unnamed : Option Policy → Bytes → Bool
  is_unnamed own origin = not_set (without_prefix (naming own origin))

  -- how the target is found: by the name, or by a resolution where there is none
  abbrev pub selection : Option Policy → Bytes → Call (World C) PlanError Bytes
  selection own origin =
      if is_unnamed own origin
      then resolve out rules (base own) origin
        >>= or_select out rules (base own) origin (without_prefix (naming own origin))
      else select_target out rules (base own) origin (without_prefix (naming own origin))

  abbrev pub redirect_of : Bytes → World C → Outcome PlanError (Bytes × Option Policy)
  redirect_of target w = (ip_redirect out.addresses rules target w).0

  -- What is decided for a domain whose target `found` gives from the world `w`. Without a redirect it is
  -- that target and the domain's policy. With one it is what the target is redirected to: with the
  -- domain's policy if no rule is met there, and else with the merge of both, unless that blocks.
  unfoldable pub IsTargetDecision :
      Option Policy → Bool → Call (World C) PlanError Bytes → World C → Decision → Type 0
  IsTargetDecision own no_redirect found w host_blocked =
      (no_redirect ≡ false)
      × ((target : Bytes) × (w' : World C) × (found w ≡ (ok target, w'))
          × ((host : Bytes) × (q : Policy) × (redirect_of target w' ≡ ok (host, some q))
              × ((with_target own q).mode ≡ Mode.block)))
  IsTargetDecision own no_redirect found w domain_not_found = ⊥
  IsTargetDecision own no_redirect found w (chosen host p) =
      (target : Bytes) × (w' : World C) × (found w ≡ (ok target, w'))
      × (((no_redirect ≡ true) × (host ≡ target) × (p ≡ base own))
          ⊎ (no_redirect ≡ false)
            × (((redirect_of target w' ≡ ok (host, none)) × (p ≡ base own))
                ⊎ ((q : Policy) × (redirect_of target w' ≡ ok (host, some q))
                    × (p ≡ with_target own q)
                    × (p.mode ≢ Mode.block))))

  -- What is decided for a domain whose rule is `own`: a block if that rule blocks; `domainNotFound`
  -- if the request keeps domains and nothing names a target; and else what its target gives.
  unfoldable pub IsDomainDecision : Bool → Option Policy → Bytes → World C → Decision → Type 0
  IsDomainDecision early own origin w d =
      (IsClosed own × (d ≡ host_blocked))
      ⊎ IsOpen own
        × (((early && is_unnamed own origin ≡ true) × (d ≡ domain_not_found))
            ⊎ (early && is_unnamed own origin ≡ false)
              × IsTargetDecision own (has_prefix no_redirect_prefix (naming own origin))
                  (selection own origin) w d)

  -- What is decided for an address: its rule, merged, blocks exactly if its mode says so, and the
  -- target is what the rule redirects to.
  unfoldable pub IsIpDecision : Bytes → World C → Decision → Type 0
  IsIpDecision ip w host_blocked =
      (host : Bytes) × (redirect_of ip w ≡ ok (host, get_ip_policy out.addresses rules ip))
      × ((base (get_ip_policy out.addresses rules ip)).mode ≡ Mode.block)
  IsIpDecision ip w domain_not_found = ⊥
  IsIpDecision ip w (chosen host p) =
      (redirect_of ip w ≡ ok (host, get_ip_policy out.addresses rules ip))
      × (p ≡ base (get_ip_policy out.addresses rules ip))
      × (p.mode ≢ Mode.block)

  -- the decision for a host that is an address, or is not
  unfoldable pub IsDecision : Bytes → Bool → Bool → World C → Decision → Type 0
  IsDecision host true early w d = IsIpDecision host w d
  IsDecision host false early w d = IsDomainDecision early (find rules.domains host) host w d
