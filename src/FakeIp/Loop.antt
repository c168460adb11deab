-- ===== src/FakeIp/Loop.antt =====
-- The loop of `Allocate` ends: at a free address of the pool, or when every address is taken.
use lumine_for_android.Prelude.{
  Bytes, lookup, ℕ, zero, suc, ◌+◌, ◌≤◌, ◌<◌, ◌≡◌, sym, ap, ◌∙◌, subst, ◌≢◌, ◌⊎◌, inl, inr, true,
  false, [], arith, ltb, ◌==◌, if◌then◌else◌, ltb→lt, Bool-cases, Outcome, ok, err, panic,
  out_of_fuel,
}
use lumine_for_android.FakeIp.{
  FakeStore, FakeError, pool_exhausted, contains, taken, find_free, empty_domain,
}

module _ (text : ℕ → Bytes) (s : FakeStore) (now : ℕ) where
  -- what the loop ends in
  unfoldable pub Searched : Outcome FakeError ℕ → Type 0
  Searched (ok a) = (s.base < a) × (a < s.base + s.size) × (taken text s now a ≡ false)
  Searched (err empty_domain) = ⊥
  Searched (err pool_exhausted) =
      (a : ℕ) → s.base < a → a < s.base + s.size → taken text s now a ≡ true
  Searched panic = ⊥
  Searched out_of_fuel = ⊥

  TakenIn : ℕ → ℕ → Type 0
  TakenIn i j = (a : ℕ) → i ≤ a → a < j → a < s.base + s.size → taken text s now a ≡ true

  -- The loop, begun at `start`, is at `c`: what lies between is taken, and the fuel covers the rest.
  Visited : ℕ → ℕ → ℕ → Type 0
  Visited start c fuel =
      ((start ≤ c) × (s.base + s.size + start < c + s.base + fuel) × TakenIn start c)
      ⊎ ((c < start)
          × (start ≤ c + fuel)
          × TakenIn start (s.base + s.size)
          × TakenIn (s.base + 1) c)

  TakenIn-suc : (i j : ℕ) → TakenIn i j → taken text s now j ≡ true → TakenIn i (suc j)
  unfolding TakenIn
  TakenIn-suc i j h t a p q r = elim (Bool-cases (a == j)) [
    | inl e ↦ let k : a ≡ j = ground arith in ap (λ (x : ℕ). taken text s now x) k ∙ t
    | inr e ↦ h a p (ground arith) r
  ]

  -- one round: the address that is looked at
  find_free-free :
      (start c a fuel : ℕ)
      → (if contains s c then c else s.base + 1) ≡ a
      → taken text s now a ≡ false
      → find_free text s now start c (suc fuel) ≡ ok a
  unfolding find_free
  find_free-free start c a fuel e t = rw (e, t, find_free, e)

  find_free-next :
      (start c a fuel : ℕ)
      → (if contains s c then c else s.base + 1) ≡ a
      → taken text s now a ≡ true
      → find_free text s now start c (suc fuel) ≡ (elim (suc a == start) [
        | true ↦ err pool_exhausted
        | false ↦ find_free text s now start (suc a) fuel
      ])
  unfolding find_free
  find_free-next start c a fuel e t =
      ap
        (λ (x : ℕ). elim (taken text s now x) as (λ _. Outcome FakeError ℕ) [
          | false ↦ ok x
          | true ↦ elim (suc x == start) [
            | true ↦ err pool_exhausted
            | false ↦ find_free text s now start (suc x) fuel
          ]
        ])
        e
      ∙ rw t

  find_free-full :
      (start c a fuel : ℕ)
      → (if contains s c then c else s.base + 1) ≡ a
      → taken text s now a ≡ true
      → suc a ≡ start
      → find_free text s now start c (suc fuel) ≡ err pool_exhausted
  find_free-full start c a fuel e t q =
      let k : (suc a == start) ≡ true = ground arith in find_free-next start c a fuel e t ∙ rw k

  find_free-again :
      (start c a fuel : ℕ)
      → (if contains s c then c else s.base + 1) ≡ a
      → taken text s now a ≡ true
      → suc a ≢ start
      → find_free text s now start c (suc fuel) ≡ find_free text s now start (suc a) fuel
  find_free-again start c a fuel e t q =
      let k : (suc a == start) ≡ false = ground arith in find_free-next start c a fuel e t ∙ rw k

  -- the address of a round, for a candidate in the pool and for the one behind its end
  inside : (c : ℕ) → s.base < c → c < s.base + s.size → (if contains s c then c else s.base + 1) ≡ c
  inside c h k = let t : contains s c ≡ true = ground arith in rw t

  wrapped : (c : ℕ) → c ≡ s.base + s.size → (if contains s c then c else s.base + 1) ≡ s.base + 1
  wrapped c h = let t : contains s c ≡ false = ground arith in rw t

  TakenIn-all :
      (start c : ℕ)
      → TakenIn start (s.base + s.size)
      → TakenIn (s.base + 1) c
      → start ≤ c
      → Searched (err pool_exhausted)
  unfolding TakenIn Searched
  TakenIn-all start c p q h a k l = elim (Bool-cases (ltb a c)) [
    | inl t ↦ q a (omega arith) (ltb→lt _ _ t) l
    | inr t ↦ p a (ground arith) l l
  ]

  TakenIn-one : (a : ℕ) → taken text s now a ≡ true → TakenIn a (suc a)
  unfolding TakenIn
  TakenIn-one a t b p q r = let k : b ≡ a = omega arith in ap (λ (x : ℕ). taken text s now x) k ∙ t

  -- the state of the loop behind a round
  Visited-inside :
      (start c fuel : ℕ)
      → suc c ≢ start
      → taken text s now c ≡ true
      → c < s.base + s.size
      → Visited start c (suc fuel)
      → Visited start (suc c) fuel
  unfolding Visited
  Visited-inside start c fuel n t h (inl (p, q, r)) =
      inl (omega arith, omega arith, TakenIn-suc start c r t)
  Visited-inside start c fuel n t h (inr (p, q, r, u)) =
      inr (omega arith, omega arith, r, TakenIn-suc (s.base + 1) c u t)

  Visited-wrapped :
      (start c fuel : ℕ)
      → suc (s.base + 1) ≢ start
      → s.base + 2 ≤ start
      → start ≤ s.base + s.size
      → c ≡ s.base + s.size
      → taken text s now (s.base + 1) ≡ true
      → Visited start c (suc fuel)
      → Visited start (suc (s.base + 1)) fuel
  unfolding Visited
  Visited-wrapped start c fuel n h k e t (inl (p, q, r)) =
      inr (omega arith, omega arith, subst (λ x. TakenIn start x) e r, TakenIn-one (s.base + 1) t)
  Visited-wrapped start c fuel n h k e t (inr (p, q, r, u)) = absurd (omega arith)

  full_inside :
      (start c fuel : ℕ)
      → suc c ≡ start
      → taken text s now c ≡ true
      → Visited start c fuel
      → Searched (err pool_exhausted)
  unfolding Visited
  full_inside start c fuel e t (inl (p, q, r)) = absurd (omega arith)
  full_inside start c fuel e t (inr (p, q, r, u)) =
      TakenIn-all start (suc c) r (TakenIn-suc (s.base + 1) c u t) (omega arith)

  full_wrapped :
      (start c fuel : ℕ)
      → suc (s.base + 1) ≡ start
      → start ≤ s.base + s.size
      → c ≡ s.base + s.size
      → taken text s now (s.base + 1) ≡ true
      → Visited start c fuel
      → Searched (err pool_exhausted)
  unfolding Visited
  full_wrapped start c fuel k l e t (inl (p, q, r)) =
      TakenIn-all start (suc (s.base + 1)) (subst (λ x. TakenIn start x) e r)
        (TakenIn-one (s.base + 1) t) (omega arith)
  full_wrapped start c fuel k l e t (inr (p, q, r, u)) = absurd (omega arith)

  Visited-zero : (start c : ℕ) → s.base < start → c ≤ s.base + s.size → Visited start c 0 → ⊥
  unfolding Visited
  Visited-zero start c h k (inl (p, q, r)) = omega arith
  Visited-zero start c h k (inr (p, q, r, u)) = omega arith

  find_free-Searched :
      (fuel start c : ℕ)
      → s.base + 2 ≤ start
      → start ≤ s.base + s.size
      → s.base < c
      → c ≤ s.base + s.size
      → Visited start c fuel
      → Searched (find_free text s now start c fuel)
  unfolding Searched
  find_free-Searched zero start c h k l m v = absurd (Visited-zero start c (omega arith) m v)
  find_free-Searched (suc fuel) start c h k l m v = elim (Bool-cases (ltb c (s.base + s.size))) [
    | inl t ↦
        let lt : c < s.base + s.size = ltb→lt _ _ t in
        let a = inside c l lt in
        elim (Bool-cases (taken text s now c)) [
          | inr f ↦ subst Searched (sym (find_free-free start c c fuel a f)) (l, lt, f)
          | inl y ↦ elim (Bool-cases (suc c == start)) [
            | inl q ↦
                let e : suc c ≡ start = ground arith in
                subst Searched (sym (find_free-full start c c fuel a y e))
                  (full_inside start c (suc fuel) e y v)
            | inr q ↦
                let n : suc c ≢ start = ground arith in
                subst Searched (sym (find_free-again start c c fuel a y n)) (
                  find_free-Searched fuel start (suc c) h k (omega arith) lt
                    (Visited-inside start c fuel n y lt v))
          ]
        ]
    | inr t ↦
        let e : c ≡ s.base + s.size = ground arith in
        let a = wrapped c e in
        elim (Bool-cases (taken text s now (s.base + 1))) [
          | inr f ↦
              subst Searched (sym (find_free-free start c (s.base + 1) fuel a f))
                (omega arith, omega arith, f)
          | inl y ↦ elim (Bool-cases (suc (s.base + 1) == start)) [
            | inl q ↦
                let u : suc (s.base + 1) ≡ start = ground arith in
                subst Searched (sym (find_free-full start c (s.base + 1) fuel a y u))
                  (full_wrapped start c (suc fuel) u k e y v)
            | inr q ↦
                let n : suc (s.base + 1) ≢ start = ground arith in
                subst Searched (sym (find_free-again start c (s.base + 1) fuel a y n)) (
                  find_free-Searched fuel start (suc (s.base + 1)) h k (omega arith) (omega arith)
                    (Visited-wrapped start c fuel n h k e y v))
          ]
        ]
  ]

-- The next address is where the last allocation left it, or nothing was ever allocated.
unfoldable pub IsPlaced : FakeStore → Type 0
IsPlaced s =
    ((s.base + 2 ≤ s.next) × (s.next ≤ s.base + s.size))
    ⊎ ((s.next ≡ s.base + 1) × (2 ≤ s.size) × (s.ip_to_entry ≡ []))

module _ (text : ℕ → Bytes) (s : FakeStore) (now : ℕ) where
  Visited-start : Visited text s now s.next s.next (s.size + 1)
  unfolding Visited TakenIn
  Visited-start = inl (omega arith, omega arith, λ a p q r. absurd (omega arith))

  nothing_taken : (a : ℕ) → s.ip_to_entry ≡ [] → taken text s now a ≡ false
  unfolding lookup
  nothing_taken a e = rw e

  fresh :
      (a : ℕ)
      → s.base < a
      → a < s.base + s.size
      → taken text s now a ≡ false
      → Searched text s now (ok a)
  unfolding Searched
  fresh a h k t = (h, k, t)

  -- The search of `Allocate` over the whole pool, with as many rounds as it has addresses and one more.
  pub find_free-IsPlaced :
      IsPlaced s → Searched text s now (find_free text s now s.next s.next (s.size + 1))
  unfolding IsPlaced
  find_free-IsPlaced (inl (h, k)) =
      find_free-Searched text s now (s.size + 1) s.next s.next h k (omega arith) k Visited-start
  find_free-IsPlaced (inr (e, h, m)) =
      let a = inside text s now s.next (omega arith) (omega arith) in
      let t = nothing_taken s.next m in
      let run : find_free text s now s.next s.next (s.size + 1) ≡ ok s.next =
        rw (add_suc s.size) (find_free-free text s now s.next s.next s.next s.size a t) in
      subst (Searched text s now) (sym run) (fresh s.next (omega arith) (omega arith) t)
    where
      add_suc : (n : ℕ) → n + 1 ≡ suc n
      add_suc n = omega arith
