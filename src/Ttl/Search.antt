-- ===== src/Ttl/Search.antt =====
-- The binary search finds the least TTL that reaches the peer.
use lumine_for_android.Prelude.{
  ℕ, zero, suc, ◌+◌, ◌-◌, ◌/◌, ◌≤◌, ◌<◌, ◌≡◌, refl, sym, ap, ◌∙◌, ◌⊎◌, inl, inr, Bool, true, false,
  arith, leb, if◌then◌else◌, leb→le, Bool-cases, ok, ℤ, pos, negsuc,
}
use lumine_for_android.Ttl.{search_ttl, try_dial, Dialed, probe_ttl}

-- the least TTL up to `max_ttl` that is `m` or more, or -1
abbrev pub nearest : ℕ → ℕ → ℤ
nearest max_ttl m = if leb m max_ttl then pos m else negsuc 0

-- What was found so far is just above `high`.
Above : ℕ → ℕ → ℕ → ℤ → Type 0
Above max_ttl m high found =
    ((found ≡ negsuc 0) × (high ≡ max_ttl))
    ⊎ ((found ≡ pos (suc high)) × (m ≤ suc high) × (suc high ≤ max_ttl))

Above-nearest :
    (max_ttl m high : ℕ) (found : ℤ)
    → high < m
    → Above max_ttl m high found
    → found ≡ nearest max_ttl m
unfolding Above
Above-nearest max_ttl m high found h (inl (e, k)) = ground arith
Above-nearest max_ttl m high found h (inr (e, k, l)) = ground arith

Above-found :
    (max_ttl m mid : ℕ) → 1 ≤ mid → m ≤ mid → mid ≤ max_ttl → Above max_ttl m (mid - 1) (pos mid)
unfolding Above
Above-found max_ttl m mid p q r =
    let e : suc (mid - 1) ≡ mid = omega arith in inr (ap pos (sym e), omega arith, omega arith)

module _ (dial : ℕ → ℕ → Dialed) (attempts max_ttl m : ℕ) where
  -- a peer at the distance `m`: the attempts at a TTL of `m` or more succeed, at a lower one time out
  unfoldable pub IsAt : Type 0
  IsAt = (ttl : ℕ) → 1 ≤ ttl → ttl ≤ max_ttl → try_dial dial ttl 0 attempts ≡ ok (leb m ttl)

  search_ttl-stop :
      (fuel low high : ℕ) (found : ℤ)
      → high < low
      → search_ttl dial attempts fuel low high found ≡ ok found
  unfolding search_ttl
  search_ttl-stop zero low high found h = ground arith
  search_ttl-stop (suc fuel) low high found h = ground arith

  search_ttl-round :
      (fuel low high mid : ℕ) (found : ℤ) (b : Bool)
      → low ≤ high
      → (low + high) / 2 ≡ mid
      → try_dial dial mid 0 attempts ≡ ok b
      → search_ttl dial attempts (suc fuel) low high found ≡ (elim b [
        | true ↦ search_ttl dial attempts fuel low (mid - 1) (pos mid)
        | false ↦ search_ttl dial attempts fuel (mid + 1) high found
      ])
  unfolding search_ttl
  search_ttl-round fuel low high mid found true h k e =
      let t : leb low high ≡ true = ground arith in rw (t, search_ttl, k, e, k)
  search_ttl-round fuel low high mid found false h k e =
      let t : leb low high ≡ true = ground arith in rw (t, search_ttl, k, e, k)

  search_ttl-nearest :
      (fuel low high : ℕ) (found : ℤ)
      → IsAt
      → 1 ≤ low
      → high ≤ max_ttl
      → suc high ≤ low + fuel
      → low ≤ m
      → Above max_ttl m high found
      → search_ttl dial attempts fuel low high found ≡ ok (nearest max_ttl m)
  unfolding IsAt
  search_ttl-nearest zero low high found r l h f lm a =
      search_ttl-stop zero low high found (omega arith)
      ∙ ap (λ (z : ℤ). ok z) (Above-nearest max_ttl m high found (omega arith) a)
  search_ttl-nearest (suc n) low high found r l h f lm a = elim (Bool-cases (leb low high)) [
    | inr t ↦
        let lt : high < low = ground arith in
        search_ttl-stop (suc n) low high found lt
        ∙ ap (λ (z : ℤ). ok z) (Above-nearest max_ttl m high found (omega arith) a)
    | inl t ↦
        let le : low ≤ high = leb→le _ _ t in
        let mid : ℕ = (low + high) / 2 in
        let lo : low ≤ mid = omega arith in
        let hi : mid ≤ high = omega arith in
        let reach : try_dial dial mid 0 attempts ≡ ok (leb m mid) =
          r mid (omega arith) (omega arith) in
        elim (Bool-cases (leb m mid)) [
          | inl q ↦
              let near : m ≤ mid = leb→le _ _ q in
              search_ttl-round n low high mid found true le refl (reach ∙ ap (λ (z : Bool). ok z) q)
              ∙ search_ttl-nearest n low (mid - 1) (pos mid) r l (omega arith) (omega arith) lm
                  (Above-found max_ttl m mid (omega arith) near (omega arith))
          | inr q ↦
              let far : mid < m = ground arith in
              search_ttl-round n low high mid found false le refl
                (reach ∙ ap (λ (z : Bool). ok z) q)
              ∙ search_ttl-nearest n (mid + 1) high found r (omega arith) h (omega arith)
                  (omega arith) a
        ]
  ]

Above-start : (max_ttl m : ℕ) → Above max_ttl m max_ttl (negsuc 0)
unfolding Above
Above-start max_ttl m = inl (refl, refl)

-- Where a peer at the distance `m` is reached by every TTL from `m` on and by no lower one, the search
-- ends with `m`, or with -1 where `m` is above the largest TTL that it may use.
pub probe_ttl-nearest :
    (dial : ℕ → ℕ → Dialed) (attempts max_ttl m : ℕ)
    → 1 ≤ m
    → IsAt dial attempts max_ttl m
    → probe_ttl dial (pos max_ttl) (pos attempts) ≡ ok (nearest max_ttl m)
unfolding probe_ttl
probe_ttl-nearest dial attempts max_ttl m h r =
    search_ttl-nearest dial attempts max_ttl m max_ttl 1 max_ttl (negsuc 0) r (omega arith)
      (omega arith) (omega arith) h (Above-start max_ttl m)
