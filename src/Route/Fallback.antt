-- ===== src/Route/Fallback.antt =====
-- What a domain without a rule is given.
use lumine_for_android.Prelude.{
  Bytes, same, ◌≡◌, refl, sym, ap, ◌∙◌, subst, ◌⊎◌, inl, inr, [], ◌∷◌, pos,
}
use lumine_for_android.Policy.{
  with_defaults, merge_step, pick, no_int, no_string, Policy, merge_policies,
}
use lumine_for_android.Route.{
  default_dial_timeout, Matchers, plain_fallback_policy, gfw_fallback_policy, fallback_policy,
  classify_domain_route, classify_lower, RouteClass, plain, rule, gfw,
}

-- The fallback policies hold no time, port, host or status of their own, and yet hide the default
-- policy's, since a zero counts as set there.
pub Zeroed : Policy → Type 0
Zeroed p =
    (p.connect_timeout ≡ pos 0)
    × (p.port ≡ pos 0)
    × (p.host ≡ [])
    × (p.http_status ≡ pos 0)
    × (p.send_interval ≡ pos 0)
    × (p.dns_cache_ttl ≡ pos 0)
    × (p.single_timeout ≡ pos 0)

gfw-Zeroed : (d : Policy) → Zeroed (merge_policies (gfw_fallback_policy ∷ d ∷ []))
unfolding Zeroed merge_policies with_defaults merge_step pick no_int no_string same
gfw-Zeroed d = (refl, refl, refl, refl, refl, refl, refl)

plain-Zeroed : (d : Policy) → Zeroed (merge_policies (plain_fallback_policy ∷ d ∷ []))
unfolding Zeroed merge_policies with_defaults merge_step pick no_int no_string same
plain-Zeroed d = (refl, refl, refl, refl, refl, refl, refl)

Zeroed-timeout : (p : Policy) → Zeroed p → default_dial_timeout p ≡ pos 10000000000
unfolding Zeroed
Zeroed-timeout p h = rw h.0

by_class : Policy → Policy → RouteClass → Policy
by_class d p plain = merge_policies (plain_fallback_policy ∷ d ∷ [])
by_class d p rule = p
by_class d p gfw = merge_policies (gfw_fallback_policy ∷ d ∷ [])

fallback_policy-class :
    (to_lower : Bytes → Bytes) (m : Matchers) (d p : Policy) (domain : Bytes) (r : RouteClass)
    → classify_domain_route to_lower m domain ≡ r
    → fallback_policy to_lower m d domain p ≡ by_class d p r
unfolding fallback_policy by_class classify_lower
fallback_policy-class to_lower m d p domain r e =
    by_cases (classify_domain_route to_lower m domain) ∙ ap (by_class d p) e
  where
    by_cases :
        (k : RouteClass)
        → (elim k as (λ _. Policy) [
          | plain ↦ merge_policies (plain_fallback_policy ∷ d ∷ [])
          | rule ↦ p
          | gfw ↦ merge_policies (gfw_fallback_policy ∷ d ∷ [])
        ])
          ≡ by_class d p k
    by_cases plain = refl
    by_cases rule = refl
    by_cases gfw = refl

-- A domain that is in no rule gets a policy in which the timeouts, the port, the host, the status and
-- the interval are zero or empty, whatever the default policy sets, and so the dial timeout of ten
-- seconds.
pub fallback_policy-hides_default :
    (to_lower : Bytes → Bytes) (m : Matchers) (d p : Policy) (domain : Bytes)
    → (classify_domain_route to_lower m domain ≡ plain)
      ⊎ (classify_domain_route to_lower m domain ≡ gfw)
    → Zeroed (fallback_policy to_lower m d domain p)
      × (default_dial_timeout (fallback_policy to_lower m d domain p) ≡ pos 10000000000)
unfolding by_class
fallback_policy-hides_default to_lower m d p domain (inl e) =
    let z =
      subst Zeroed (sym (fallback_policy-class to_lower m d p domain plain e)) (plain-Zeroed d) in
    (z, Zeroed-timeout (fallback_policy to_lower m d domain p) z)
fallback_policy-hides_default to_lower m d p domain (inr e) =
    let z = subst Zeroed (sym (fallback_policy-class to_lower m d p domain gfw e)) (gfw-Zeroed d) in
    (z, Zeroed-timeout (fallback_policy to_lower m d domain p) z)
