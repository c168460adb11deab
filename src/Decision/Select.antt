-- ===== src/Decision/Select.antt =====
-- The targets of `genPolicy` are selected without a panic.
use lumine_for_android.Prelude.{
  Bytes, codes, same, has_prefix, ◌<◌, inl, inr, [], ◌∷◌, Option-cases, drop, Returns, Returns-map,
  ℤ,
}
use lumine_for_android.Policy.{Policy, DnsMode}
use lumine_for_android.Dns.{dns_resolve, DnsState, cached_name}
use lumine_for_android.Dns.Family.{do_dns_resolve-IsAnswer}
use lumine_for_android.Transform.{dns_error}
use lumine_for_android.Redirect.{World, Rules, ip_pool_tag_prefix, resolve_prefix}
use lumine_for_android.Redirect.Total.{IsStocked, from_pool-Yields}
use lumine_for_android.Decision.{Outside, resolve, select_target, or_select}
use lumine_for_android.Stateful.{Yields, Yields-if, Returns-wrapped}

module _ {C : Type 0} (out : Outside C) (rules : Rules) where
  abbrev pub Stocked : World C → Type 0
  Stocked = IsStocked out.addresses rules

  module _ (some_upstream : 0 < out.upstreams.count) where
    dns_resolve-Returns :
        (host : Bytes) (mode : DnsMode) (life : ℤ) (s : DnsState C)
        → Returns (λ x. Unit) (dns_resolve out.lru out.upstreams host mode life s).0
    unfolding dns_resolve
    dns_resolve-Returns host mode life s =
        elim (Option-cases (cached_name out.lru out.upstreams s.cache host)) [
          | inl n ↦
              rw (n, dns_resolve)
                (Returns-map _ (λ x. Unit) _ (λ ip h. tt)
                  (do_dns_resolve-IsAnswer out.lru out.upstreams some_upstream host mode life s))
          | inr (ip, e) ↦ rw (e, dns_resolve) tt
        ]

    pub resolve-Yields :
        (p : Policy) (host : Bytes) → Yields Stocked (λ x. Unit) (resolve out rules p host)
    unfolding resolve IsStocked
    resolve-Yields p host w h = (
      Returns-wrapped dns_error (λ x. Unit) _
          (dns_resolve-Returns host p.dns_mode p.dns_cache_ttl w.dns),
      h,
    )

    pub select_target-Yields :
        (p : Policy) (origin selected : Bytes)
        → Yields Stocked (λ x. Unit) (select_target out rules p origin selected)
    unfolding select_target
    select_target-Yields p origin selected =
        Yields-if Stocked _ (has_prefix resolve_prefix selected) _ _
          (λ _. resolve-Yields p (drop 1 selected))
          (λ _.
            Yields-if Stocked _ (same selected (codes "self")) _ _ (λ _ w h. (tt, h))
              (λ _.
                Yields-if Stocked _ (has_prefix ip_pool_tag_prefix selected) _ _
                  (λ _. from_pool-Yields out.addresses rules (drop 1 selected)) (λ _ w h. (tt, h))))

    pub or_select-Yields :
        (p : Policy) (origin selected host : Bytes)
        → Yields Stocked (λ x. Unit) (or_select out rules p origin selected host)
    or_select-Yields p origin selected [] = select_target-Yields p origin selected
    or_select-Yields p origin selected (c ∷ cs) = λ w h. (tt, h)
