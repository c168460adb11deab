-- ===== src/Ttl/Fake.antt =====
-- `getFakeTTL` and the cache of the TTLs: enimul/internal/core/desync.go. The cache itself is the
-- library internal/freelru, and `net.SplitHostPort` is of the standard library: both are parameters.
pub mod Cached
use lumine_for_android.Prelude.{
  guard, Bytes, ℕ, not, ◌&&◌, Option, none, some, List, if◌then◌else◌, Outcome, ◌>>=◌, ◌>>◌, guard,
  ok, err, panic, out_of_fuel, ℤ, eqb_ℤ, pos, negsuc,
}
use lumine_for_android.Policy.{Policy, unset_int}
use lumine_for_android.Ttl.{
  TtlError, Dialed, probe_ttl, calc_ttl, bad_address, not_reachable, TtlRule,
}

-- `Get` and `AddWithLifetime`
pub record TtlCache (C : Type 0) : Type 0 where
  pub get : C → Bytes → Option ℤ
  pub add : C → Bytes → ℤ → ℤ → C

-- what `getFakeTTL` makes of the TTL that it got; `calcTTL` has been set by the configuration
unfoldable pub use_minimum : Option (List TtlRule) → Outcome TtlError ℤ → Outcome TtlError ℤ
use_minimum rules least = do
  ttl ← least
  guard (not (eqb_ℤ ttl unset_int)) not_reachable
  calc_ttl rules ttl

module _ {C : Type 0} (lru : TtlCache C) where
  -- the end of `probeMinimumReachableTTL`
  unfoldable pub remember : Bytes → ℤ → ℤ → Option C → Option C
  remember ip found life none = none
  remember ip found life (some c) =
      if not (eqb_ℤ found (negsuc 0)) && not (eqb_ℤ life (pos 0)) && not (eqb_ℤ life unset_int)
      then some (lru.add c ip found life)
      else some c

  -- `probeMinimumReachableTTL`: the cache keeps what a search found, and an error leaves it.
  unfoldable pub probe :
      (ℕ → ℕ → Dialed) → Bytes → ℤ → ℤ → ℤ → Option C → Outcome TtlError ℤ × Option C
  probe dial ip max_ttl attempts life cache = elim (probe_ttl dial max_ttl attempts) [
    | ok found ↦ (ok found, remember ip found life cache)
    | err e ↦ (err e, cache)
    | panic ↦ (panic, cache)
    | out_of_fuel ↦ (out_of_fuel, cache)
  ]

  abbrev pub cached : Option C → Bytes → Option ℤ
  cached none ip = none
  cached (some c) ip = lru.get c ip

  -- `getMinimumReachableTTL` behind `SplitHostPort`; the group of `singleflight` only merges calls
  -- that run at the same time.
  unfoldable pub minimum_ttl :
      (ℕ → ℕ → Dialed) → Bytes → ℤ → ℤ → ℤ → Option C → Outcome TtlError ℤ × Option C
  minimum_ttl dial ip max_ttl attempts life cache = elim (cached cache ip) [
    | some ttl ↦ (ok ttl, cache)
    | none ↦ probe dial ip max_ttl attempts life cache
  ]

  -- `getFakeTTL`
  unfoldable pub get_fake_ttl :
      (Bytes → Option Bytes)
      → (ℕ → ℕ → Dialed)
      → Option (List TtlRule)
      → Policy
      → Bytes
      → Option C
      → Outcome TtlError ℤ × Option C
  get_fake_ttl split_host dial rules p addr cache =
      if not (eqb_ℤ p.fake_ttl (pos 0)) && not (eqb_ℤ p.fake_ttl unset_int)
      then (ok p.fake_ttl, cache)
      else (elim (split_host addr) [
        | none ↦ (err bad_address, cache)
        | some ip ↦
            let (least, cache') = minimum_ttl dial ip p.max_ttl p.attempts p.ttl_cache_ttl cache in
            (use_minimum rules least, cache')
      ])
