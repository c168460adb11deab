-- ===== src/Redirect/Total.antt =====
-- A redirect returns, and says which policy the address has.
use lumine_for_android.Prelude.{
  Bytes, same, has_prefix, has_byte, Assoc, lookup, ℕ, ◌≡◌, refl, subst, inl, inr, Option, none,
  some, [], ◌∷◌, arith, Bool-cases, Option-cases, drop, All, Outcome, Returns, Returns-bind, ok,
  err, panic, out_of_fuel,
}
use lumine_for_android.Stateful.{Yields, Yields-if, Returns-wrapped, Yields-bind}
use lumine_for_android.Transform.{
  PlanError, Addresses, transform, or_error, transform_ip, pool_error,
}
use lumine_for_android.Redirect.{
  World, Rules, ip_pool_tag_prefix, get_ip_policy, from_pool, map_target, ip_redirect, not_set,
}
use lumine_for_android.Addrtrie.Ip.{v4, Addr, v6}
use lumine_for_android.Pool.{IpPool, PoolError, get, nonempty, replace, get_from_ip_pool}
use lumine_for_android.Pool.Ready.{IsReady}
use lumine_for_android.Pool.Get.{get-Returns}

-- Every pool of the map is ready.
unfoldable pub ArePools : Assoc IpPool → Type 0
ArePools ps = All (λ kp. IsReady kp.1) ps

lookup-IsReady :
    (k : Bytes) (ps : Assoc IpPool) (p : IpPool) → ArePools ps → lookup k ps ≡ some p → IsReady p
unfolding ArePools lookup
lookup-IsReady k [] p h e = absurd (cc)
lookup-IsReady k ((j, q) ∷ ps) p h e = elim (Bool-cases (same j k)) [
  | inl t ↦ let w : q ≡ p = ground arith in subst IsReady w h.0
  | inr t ↦ lookup-IsReady k ps p h.1 (ground arith)
]

replace-ArePools :
    (k : Bytes) (p : IpPool) (ps : Assoc IpPool)
    → IsReady p
    → ArePools ps
    → ArePools (replace k p ps)
unfolding ArePools replace
replace-ArePools k p [] r h = tt
replace-ArePools k p ((j, q) ∷ ps) r h = elim (Bool-cases (same j k)) [
  | inl t ↦ rw t (r, h.1)
  | inr t ↦ rw t (h.0, replace-ArePools k p ps r h.1)
]

nonempty-Returns :
    (P : Bytes → Type 0) (o : Outcome PoolError Bytes)
    → Returns P o
    → Returns (λ ip. Unit) (nonempty o)
nonempty-Returns P (ok []) h = tt
nonempty-Returns P (ok (c ∷ cs)) h = tt
nonempty-Returns P (err e) h = tt
nonempty-Returns P panic h = h
nonempty-Returns P out_of_fuel h = h

get_from_ip_pool-Returns :
    (tag : Bytes) (ps : Assoc IpPool)
    → ArePools ps
    → Returns (λ ip. Unit) (get_from_ip_pool tag ps).0 × ArePools (get_from_ip_pool tag ps).1
unfolding get_from_ip_pool
get_from_ip_pool-Returns tag [] h = (tt, h)
get_from_ip_pool-Returns tag (q ∷ qs) h = elim (Option-cases (lookup tag (q ∷ qs))) [
  | inl n ↦ rw (n, get_from_ip_pool) (tt, h)
  | inr (p, e) ↦
      let r : IsReady p = lookup-IsReady tag (q ∷ qs) p h e in
      rw (e, get_from_ip_pool)
        (
          nonempty-Returns _ (get p).0 (get-Returns p r).0,
          replace-ArePools tag (get p).1 (q ∷ qs) (get-Returns p r).1 h,
        )
]

transform-Returns : (from : Addr) (p : Addr × ℕ) → Returns (λ x. Unit) (transform from p)
unfolding transform
transform-Returns (v4 ip) (v4 net, len) = tt
transform-Returns (v4 ip) (v6 net, len) = tt
transform-Returns (v6 ip) (v4 net, len) = tt
transform-Returns (v6 ip) (v6 net, len) = tt

or_error-Returns : {A : Type 0} (e : PlanError) (o : Option A) → Returns (λ x. Unit) (or_error e o)
or_error-Returns e none = tt
or_error-Returns e (some x) = tt

transform_ip-Returns :
    (addresses : Addresses) (ip target : Bytes)
    → Returns (λ x. Unit) (transform_ip addresses ip target)
unfolding transform_ip
transform_ip-Returns addresses ip target = elim (Option-cases (addresses.netip.parse_addr ip)) [
  | inl n ↦ rw n tt
  | inr (from, e) ↦ elim (Option-cases (addresses.netip.parse_prefix target)) [
    | inl n ↦ rw (e, n) tt
    | inr (p, f) ↦
        rw (e, f)
          (Returns-bind (λ x. Unit) (λ x. Unit) (transform from p) (λ to. ok (addresses.text to))
            (transform-Returns from p) (λ to _. tt))
  ]
]

module _ (addresses : Addresses) (rules : Rules) {C : Type 0} where
  -- The pools of the world are ready.
  unfoldable pub IsStocked : World C → Type 0
  IsStocked w = ArePools w.pools

  pub from_pool-Yields :
      (tag : Bytes) → Yields IsStocked (λ x. Unit) (from_pool addresses rules tag)
  unfolding IsStocked from_pool
  from_pool-Yields tag w h =
      let r = get_from_ip_pool-Returns tag w.pools h in
      (Returns-wrapped pool_error (λ x. Unit) (get_from_ip_pool tag w.pools).0 r.0, r.1)

  map_target-Yields :
      (ip map_to : Bytes) → Yields IsStocked (λ x. Unit) (map_target addresses rules ip map_to)
  unfolding map_target
  map_target-Yields ip map_to =
      Yields-if IsStocked (λ x. Unit) (has_prefix ip_pool_tag_prefix map_to) _ _
        (λ _. from_pool-Yields (drop 1 map_to))
        (λ _.
          Yields-if IsStocked (λ x. Unit) (has_byte b'/' map_to) _ _
            (λ _ w h. (transform_ip-Returns addresses ip map_to, h)) (λ _ w h. (tt, h)))

  -- A redirect returns, from any ready pools, with the policy of the address that was given.
  pub ip_redirect-Yields :
      (ip : Bytes)
      → Yields IsStocked
          (λ r. r.1 ≡ get_ip_policy addresses rules ip)
          (ip_redirect addresses rules ip)
  unfolding ip_redirect
  ip_redirect-Yields ip = elim (Option-cases (get_ip_policy addresses rules ip)) [
    | inl n ↦ rw (n, ip_redirect) (λ w h. (refl, h))
    | inr (p, e) ↦
        rw (e, ip_redirect)
          (Yields-if IsStocked _ (not_set p.map_to) _ _ (λ _ w h. (refl, h))
            (λ _.
              Yields-bind IsStocked (λ x. Unit) _ (map_target addresses rules ip p.map_to) _
                (map_target-Yields ip p.map_to) (λ target _ w h. (refl, h))))
  ]
