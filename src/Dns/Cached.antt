-- ===== src/Dns/Cached.antt =====
-- What the cache of names makes of a resolution.
use lumine_for_android.Prelude.{
  Bytes, ◌<◌, ◌≡◌, refl, ap, ◌∙◌, false, Option, none, some, List, Outcome, ok, err, panic,
  out_of_fuel, ℤ, eqb_ℤ, pos,
}
use lumine_for_android.Policy.{DnsMode, unset_int}
use lumine_for_android.Dns.{
  Upstreams, QueryType, Query, ResourceRecord, DnsError, NameCache, DnsState, query, ask, ask_other,
  or_other, pick_ip, first_query, keep, do_dns_resolve, cached_name, dns_resolve,
}
use lumine_for_android.Dns.Rotation.{exchange_msg-cache}

module _ {C : Type 0} (lru : NameCache C) (up : Upstreams) (some_upstream : 0 < up.count) where
  ask-cache : (q : Query) (s : DnsState C) → (ask lru up q s).1.cache ≡ s.cache
  unfolding ask
  ask-cache q s = exchange_msg-cache lru up s q some_upstream

  or_other-cache :
      (domain : Bytes) (t : QueryType) (o : Option Bytes) (s : DnsState C)
      → (or_other lru up domain t o s).1.cache ≡ s.cache
  unfolding or_other ask_other
  or_other-cache domain t none s = ask-cache (query lru up domain t) s
  or_other-cache domain t (some ip) s = refl

  pick_ip-cache :
      (domain : Bytes) (mode : DnsMode) (o : Outcome DnsError (List ResourceRecord))
      (s : DnsState C)
      → (pick_ip lru up domain mode o s).1.cache ≡ s.cache
  unfolding pick_ip
  pick_ip-cache domain mode (err e) s = refl
  pick_ip-cache domain mode panic s = refl
  pick_ip-cache domain mode out_of_fuel s = refl
  pick_ip-cache domain DnsMode.unset (ok rs) s = refl
  pick_ip-cache domain DnsMode.ipv4_only (ok rs) s = refl
  pick_ip-cache domain DnsMode.ipv6_only (ok rs) s = refl
  pick_ip-cache domain DnsMode.prefer_ipv4 (ok rs) s = or_other-cache domain _ _ s
  pick_ip-cache domain DnsMode.prefer_ipv6 (ok rs) s = or_other-cache domain _ _ s

  -- the resolution before it fills the cache
  abbrev picked : Bytes → DnsMode → DnsState C → Outcome DnsError Bytes × DnsState C
  picked domain mode s =
      let q = first_query lru up domain mode in
      pick_ip lru up domain mode (ask lru up q s).0 (ask lru up q s).1

  picked-cache :
      (domain : Bytes) (mode : DnsMode) (s : DnsState C) → (picked domain mode s).1.cache ≡ s.cache
  picked-cache domain mode s =
      let q = first_query lru up domain mode in
      pick_ip-cache domain mode (ask lru up q s).0 (ask lru up q s).1 ∙ ask-cache q s

  do_dns_resolve-keeps :
      (domain ip : Bytes) (mode : DnsMode) (life : ℤ) (s : DnsState C) (c : C)
      → (do_dns_resolve lru up domain mode life s).0 ≡ ok ip
      → s.cache ≡ some c
      → eqb_ℤ life (pos 0) ≡ false
      → eqb_ℤ life unset_int ≡ false
      → (do_dns_resolve lru up domain mode life s).1.cache ≡ some (lru.add c domain ip life)
  unfolding do_dns_resolve keep
  do_dns_resolve-keeps domain ip mode life s c h k z u = rw (h, picked-cache domain mode s, k, z, u)

  cached_hit :
      (domain ip : Bytes) (mode : DnsMode) (life : ℤ) (s : DnsState C)
      → cached_name lru up s.cache domain ≡ some ip
      → (dns_resolve lru up domain mode life s).0 ≡ ok ip
  unfolding dns_resolve
  cached_hit domain ip mode life s h = rw (h, dns_resolve)

  -- An answer that a resolution got is what the next resolution of that domain gives, even if it asks
  -- for the other family only: the mode is no part of the key. The policy of the first must set a
  -- lifetime, a cache must be set and give what was just added, and there must be an upstream.
  pub dns_resolve-ignores_mode :
      (domain ip : Bytes) (mode mode' : DnsMode) (life life' : ℤ) (s : DnsState C) (c : C)
      → lru.get (lru.add c domain ip life) domain ≡ some ip
      → (do_dns_resolve lru up domain mode life s).0 ≡ ok ip
      → s.cache ≡ some c
      → eqb_ℤ life (pos 0) ≡ false
      → eqb_ℤ life unset_int ≡ false
      → (dns_resolve lru up domain mode' life' (do_dns_resolve lru up domain mode life s).1).0
        ≡ ok ip
  dns_resolve-ignores_mode domain ip mode mode' life life' s c law h k z u =
      cached_hit domain ip mode' life' (do_dns_resolve lru up domain mode life s).1 (
        ap (λ (x : Option C). cached_name lru up x domain)
          (do_dns_resolve-keeps domain ip mode life s c h k z u)
        ∙ law)
