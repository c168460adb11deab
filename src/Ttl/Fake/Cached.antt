-- ===== src/Ttl/Fake/Cached.antt =====
-- What `getFakeTTL` answers for a peer at a fixed distance, with and without a cached TTL.
use lumine_for_android.Prelude.{
  guard, Bytes, ℕ, ◌≤◌, ◌<◌, ◌≡◌, refl, ◌∙◌, ◌⊎◌, inl, inr, false, Option, none, some, List, arith,
  guard, ok, err, ℤ, eqb_ℤ, pos, negsuc,
}
use lumine_for_android.Policy.{Policy, unset_int}
use lumine_for_android.Ttl.{Dialed, TtlRule, calc_ttl, not_reachable}
use lumine_for_android.Ttl.Fake.{TtlCache, get_fake_ttl, probe, minimum_ttl, use_minimum, remember}
use lumine_for_android.Ttl.Search.{IsAt, nearest, probe_ttl-nearest}

-- The policy asks for a probe.
unfoldable pub Probes : Policy → Type 0
Probes p = (p.fake_ttl ≡ pos 0) ⊎ (p.fake_ttl ≡ unset_int)

-- The policy keeps what a probe found.
unfoldable pub Keeps : Policy → Type 0
Keeps p = (eqb_ℤ p.ttl_cache_ttl (pos 0) ≡ false) × (eqb_ℤ p.ttl_cache_ttl unset_int ≡ false)

nearest_in : (max_ttl m : ℕ) → m ≤ max_ttl → nearest max_ttl m ≡ pos m
nearest_in max_ttl m h = ground arith

nearest_out : (max_ttl m : ℕ) → max_ttl < m → nearest max_ttl m ≡ negsuc 0
nearest_out max_ttl m h = ground arith

use_minimum-found :
    (rules : Option (List TtlRule)) (m : ℕ)
    → use_minimum rules (ok (pos m)) ≡ calc_ttl rules (pos m)
unfolding use_minimum guard
use_minimum-found rules m = refl

use_minimum_none :
    (rules : Option (List TtlRule)) → use_minimum rules (ok (negsuc 0)) ≡ err not_reachable
unfolding use_minimum guard
use_minimum_none rules = refl

module _ {C : Type 0} (lru : TtlCache C) where
  get_fake_ttl-Probes :
      (split_host : Bytes → Option Bytes)
      → (dial : ℕ → ℕ → Dialed) → (rules : Option (List TtlRule)) → (p : Policy) → (addr ip : Bytes)
      → (cache : Option C) → Probes p
      → split_host addr ≡ some ip
      → get_fake_ttl lru split_host dial rules p addr cache ≡ (
        use_minimum rules (minimum_ttl lru dial ip p.max_ttl p.attempts p.ttl_cache_ttl cache).0,
        (minimum_ttl lru dial ip p.max_ttl p.attempts p.ttl_cache_ttl cache).1,
      )
  unfolding get_fake_ttl Probes
  get_fake_ttl-Probes split_host dial rules p addr ip cache (inl e) s = rw (e, s, get_fake_ttl)
  get_fake_ttl-Probes split_host dial rules p addr ip cache (inr e) s = rw (e, s, get_fake_ttl)

  minimum_ttl-hit :
      (dial : ℕ → ℕ → Dialed)
      → (ip : Bytes) → (max_ttl attempts life ttl : ℤ) → (c : C) → lru.get c ip ≡ some ttl
      → minimum_ttl lru dial ip max_ttl attempts life (some c) ≡ (ok ttl, some c)
  unfolding minimum_ttl
  minimum_ttl-hit dial ip max_ttl attempts life ttl c e = rw (e, minimum_ttl)

  minimum_ttl-miss :
      (dial : ℕ → ℕ → Dialed)
      → (ip : Bytes) → (max_ttl attempts m : ℕ) → (life : ℤ) → (c : C) → 1 ≤ m
      → IsAt dial attempts max_ttl m
      → lru.get c ip ≡ none
      → minimum_ttl lru dial ip (pos max_ttl) (pos attempts) life (some c)
        ≡ (ok (nearest max_ttl m), remember lru ip (nearest max_ttl m) life (some c))
  unfolding minimum_ttl probe
  minimum_ttl-miss dial ip max_ttl attempts m life c h r e =
      rw (e, minimum_ttl, probe_ttl-nearest dial attempts max_ttl m h r, probe)

  remember-drops :
      (ip : Bytes) (p : Policy) (c : C)
      → remember lru ip (negsuc 0) p.ttl_cache_ttl (some c) ≡ some c
  unfolding remember
  remember-drops ip p c = refl

  remember-Keeps :
      (ip : Bytes) (m : ℕ) (p : Policy) (c : C)
      → Keeps p
      → remember lru ip (pos m) p.ttl_cache_ttl (some c)
        ≡ some (lru.add c ip (pos m) p.ttl_cache_ttl)
  unfolding remember Keeps
  remember-Keeps ip m p c h = rw (h.0, h.1)

  module _ (split_host : Bytes → Option Bytes) (rules : Option (List TtlRule)) (p : Policy)
      (addr ip : Bytes) (c : C) (max_ttl attempts m : ℕ) where
    -- For a policy that probes and keeps what a probe finds, an address with a port, so that
    -- `SplitHostPort` finds the host in it, a peer at the distance `m` within reach and a host that is
    -- not cached yet, in a cache that gives back what is added: the fake TTL is
    -- calculated from `m`, `m` is cached, and with that cache the answer is the same whatever a dial
    -- would do.
    pub get_fake_ttl-cached :
        (dial : ℕ → ℕ → Dialed)
        → Probes p
        → Keeps p
        → split_host addr ≡ some ip
        → p.max_ttl ≡ pos max_ttl
        → p.attempts ≡ pos attempts
        → 1 ≤ m
        → m ≤ max_ttl
        → IsAt dial attempts max_ttl m
        → lru.get c ip ≡ none
        → lru.get (lru.add c ip (pos m) p.ttl_cache_ttl) ip ≡ some (pos m)
        → (get_fake_ttl lru split_host dial rules p addr (some c)
            ≡ (calc_ttl rules (pos m), some (lru.add c ip (pos m) p.ttl_cache_ttl)))
          × ((later : ℕ → ℕ → Dialed)
              → get_fake_ttl lru split_host later rules p addr
                  (some (lru.add c ip (pos m) p.ttl_cache_ttl))
                ≡ (calc_ttl rules (pos m), some (lru.add c ip (pos m) p.ttl_cache_ttl)))
    get_fake_ttl-cached dial hp hk hs hm ha h1 h2 r miss hit = (
      get_fake_ttl-Probes split_host dial rules p addr ip (some c) hp hs
          ∙ rw (
            hm,
            ha,
            minimum_ttl-miss dial ip max_ttl attempts m p.ttl_cache_ttl c h1 r miss,
            nearest_in max_ttl m h2,
            use_minimum-found rules m,
            remember-Keeps ip m p c hk,
          ),
      λ later.
          get_fake_ttl-Probes split_host later rules p addr ip
            (some (lru.add c ip (pos m) p.ttl_cache_ttl)) hp hs
          ∙ rw (
            minimum_ttl-hit later ip p.max_ttl p.attempts p.ttl_cache_ttl (pos m)
                (lru.add c ip (pos m) p.ttl_cache_ttl) hit,
            use_minimum-found rules m,
          ),
    )

    -- For a policy that probes, an address in which `SplitHostPort` finds a host, that host not cached,
    -- and a peer that is out of reach of the largest TTL: an error, and nothing is cached.
    pub get_fake_ttl-unreachable :
        (dial : ℕ → ℕ → Dialed)
        → Probes p
        → split_host addr ≡ some ip
        → p.max_ttl ≡ pos max_ttl
        → p.attempts ≡ pos attempts
        → max_ttl < m
        → IsAt dial attempts max_ttl m
        → lru.get c ip ≡ none
        → get_fake_ttl lru split_host dial rules p addr (some c) ≡ (err not_reachable, some c)
    get_fake_ttl-unreachable dial hp hs hm ha h r miss =
        get_fake_ttl-Probes split_host dial rules p addr ip (some c) hp hs
        ∙ rw (
          hm,
          ha,
          minimum_ttl-miss dial ip max_ttl attempts m p.ttl_cache_ttl c (omega arith) r miss,
          nearest_out max_ttl m h,
          use_minimum_none rules,
          remember-drops ip p c,
        )
