-- ===== src/FakeIp/Allocate.antt =====
-- What `Allocate` (enimul/internal/core/fake_ip.go) answers.
use lumine_for_android.Prelude.{
  Bytes, lookup-insert_self, lookup, ℕ, suc, ◌+◌, ◌<◌, ◌≡◌, refl, sym, ap, ◌∙◌, subst, ◌≢◌, inl,
  inr, true, none, some, [], ◌∷◌, lt→ltb, Bool-cases, Option-cases, Outcome, ok, err, panic,
  out_of_fuel, ℤ,
}
use lumine_for_android.FakeIp.{
  allocate, allocate_lower, at_least_default, cleanup_expired, FakeStore, FakeError, Entry, alive,
  taken, put_entry, lookup_domain, find_free, vacate, take_address, allocate_in, empty_domain,
  pool_exhausted,
}
use lumine_for_android.FakeIp.Mirror.{IsMirror, Half}
use lumine_for_android.FakeIp.Mirror.Steps.{delete_expired-IsMirror}
use lumine_for_android.FakeIp.Place.{
  SamePlace-IsPlaced, delete_expired-SamePlace, take_address-IsPlaced, refresh-IsPlaced,
}
use lumine_for_android.FakeIp.Loop.{IsPlaced, Searched, find_free-IsPlaced}

lookup_domain-put :
    (e : Entry) (t : ℕ) (s : FakeStore)
    → t < e.expires_at
    → (lookup_domain e.ip t (put_entry e s)).0 ≡ some e.domain
unfolding lookup_domain put_entry
lookup_domain-put e t s h =
    let k : alive t e ≡ true = lt→ltb t e.expires_at h in
    rw (lookup-insert_self e.ip e s.ip_to_entry, lookup_domain, k)

-- the next address is no matter to a lookup
lookup_domain-next :
    (ip : Bytes) (t : ℕ) (s : FakeStore) (n : ℕ)
    → (lookup_domain ip t (record s { next = n })).0 ≡ (lookup_domain ip t s).0
unfolding lookup_domain
lookup_domain-next ip t s n = elim (Option-cases (lookup ip s.ip_to_entry)) [
  | inl e ↦ rw (e, lookup_domain)
  | inr (c, e) ↦ elim (Bool-cases (alive t c)) [
    | inl k ↦ rw (e, lookup_domain, k)
    | inr k ↦ rw (e, lookup_domain, k)
  ]
]

module _ (text : ℕ → Bytes) (life now : ℕ) where
  -- What `Allocate` answers for a domain: an error for the empty domain and only for it; else an
  -- address that stands for the domain until it expires, or an error for a store `s` in which every address of the pool is taken.
  unfoldable pub Answers : Bytes → FakeStore → Outcome FakeError Bytes × FakeStore → Type 0
  Answers domain s (ok ip, s') =
      (domain ≢ []) × ((t : ℕ) → t < now + life → (lookup_domain ip t s').0 ≡ some domain)
  Answers domain s (err empty_domain, s') = domain ≡ []
  Answers domain s (err pool_exhausted, s') =
      (domain ≢ []) × ((a : ℕ) → s.base < a → a < s.base + s.size → taken text s now a ≡ true)
  Answers domain s (panic, s') = ⊥
  Answers domain s (out_of_fuel, s') = ⊥

  -- the end of `allocate_in`, for what the loop found
  ended : Bytes → FakeStore → Outcome FakeError ℕ → Outcome FakeError Bytes × FakeStore
  ended domain s (ok a) = (ok (text a), take_address text domain (now + life) a s)
  ended domain s (err e) = (err e, s)
  ended domain s panic = (panic, s)
  ended domain s out_of_fuel = (out_of_fuel, s)

  allocate_in-new :
      (domain : Bytes) (s : FakeStore)
      → lookup domain s.domain_to_entry ≡ none
      → allocate_in text domain life now s
        ≡ ended domain s (find_free text s now s.next s.next (s.size + 1))
  unfolding allocate_in ended
  allocate_in-new domain s n =
      rw (n, allocate_in) (by_outcome (find_free text s now s.next s.next (s.size + 1)))
    where
      by_outcome :
          (o : Outcome FakeError ℕ)
          → (elim o as (λ _. Outcome FakeError Bytes × FakeStore) [
            | ok a ↦ (ok (text a), take_address text domain (now + life) a s)
            | err e ↦ (err e, s)
            | panic ↦ (panic, s)
            | out_of_fuel ↦ (out_of_fuel, s)
          ])
            ≡ ended domain s o
      by_outcome (ok a) = refl
      by_outcome (err e) = refl
      by_outcome panic = refl
      by_outcome out_of_fuel = refl

  allocate_in-old :
      (domain : Bytes) (e : Entry) (s : FakeStore)
      → lookup domain s.domain_to_entry ≡ some e
      → allocate_in text domain life now s
        ≡ (ok e.ip, put_entry (record e { expires_at = now + life }) s)
  unfolding allocate_in
  allocate_in-old domain e s n = rw (n, allocate_in)

  take_address-lookup :
      (domain : Bytes) (a : ℕ) (s : FakeStore) (t : ℕ)
      → t < now + life
      → (lookup_domain (text a) t (take_address text domain (now + life) a s)).0 ≡ some domain
  unfolding take_address
  take_address-lookup domain a s t h =
      lookup_domain-next (text a) t
        (put_entry (record { domain = domain; ip = text a; expires_at = now + life })
          (vacate text a s))
        (suc a)
      ∙ lookup_domain-put (record { domain = domain; ip = text a; expires_at = now + life }) t
          (vacate text a s) h

  ended-Answers :
      (domain : Bytes) (s : FakeStore) (o : Outcome FakeError ℕ)
      → domain ≢ []
      → Searched text s now o
      → Answers domain s (ended domain s o)
  unfolding Answers ended Searched
  ended-Answers domain s (ok a) d h = (d, take_address-lookup domain a s)
  ended-Answers domain s (err empty_domain) d h = absurd h
  ended-Answers domain s (err pool_exhausted) d h = (d, h)
  ended-Answers domain s panic d h = h
  ended-Answers domain s out_of_fuel d h = h

  allocate_in-Answers :
      (domain : Bytes) (s : FakeStore)
      → domain ≢ []
      → IsPlaced s
      → IsMirror s
      → Answers domain s (allocate_in text domain life now s)
  unfolding Answers IsMirror Half
  allocate_in-Answers domain s d p m = elim (Option-cases (lookup domain s.domain_to_entry)) [
    | inl n ↦ subst (Answers domain s) (sym (allocate_in-new domain s n)) (
        ended-Answers domain s (find_free text s now s.next s.next (s.size + 1)) d
          (find_free-IsPlaced text s now p))
    | inr (e, n) ↦
        let j : e.domain ≡ domain = (m.0 domain e n).0 in
        subst (Answers domain s) (sym (allocate_in-old domain e s n)) (
          d,
          λ t h.
              lookup_domain-put (record e { expires_at = now + life }) t s h
              ∙ ap (λ (x : Bytes). some x) j,
        )
  ]

  ended-IsPlaced :
      (domain : Bytes) (s : FakeStore) (o : Outcome FakeError ℕ)
      → Searched text s now o
      → IsPlaced s
      → IsPlaced (ended domain s o).1
  unfolding ended Searched
  ended-IsPlaced domain s (ok a) h p = take_address-IsPlaced text domain (now + life) a s h.0 h.1
  ended-IsPlaced domain s (err e) h p = p
  ended-IsPlaced domain s panic h p = p
  ended-IsPlaced domain s out_of_fuel h p = p

  allocate_in-IsPlaced :
      (domain : Bytes) (s : FakeStore)
      → IsPlaced s
      → IsMirror s
      → IsPlaced (allocate_in text domain life now s).1
  allocate_in-IsPlaced domain s p m = elim (Option-cases (lookup domain s.domain_to_entry)) [
    | inl n ↦
        subst (λ r. IsPlaced r.1) (sym (allocate_in-new domain s n))
          (ended-IsPlaced domain s (find_free text s now s.next s.next (s.size + 1))
            (find_free-IsPlaced text s now p) p)
    | inr (e, n) ↦
        subst (λ r. IsPlaced r.1) (sym (allocate_in-old domain e s n))
          (refresh-IsPlaced domain e (now + life) s n m p)
  ]

allocate_lower-Answers :
    (text : ℕ → Bytes) (domain : Bytes) (life now : ℕ) (s : FakeStore)
    → IsPlaced s
    → IsMirror s
    → Answers text life now domain (cleanup_expired now s) (allocate_lower text domain life now s)
      × IsPlaced (allocate_lower text domain life now s).1
unfolding allocate_lower Answers
allocate_lower-Answers text [] life now s p m = (refl, p)
allocate_lower-Answers text (c ∷ cs) life now s p m =
    let k = delete_expired-IsMirror now s.domain_to_entry s m in
    let q =
      SamePlace-IsPlaced s (cleanup_expired now s)
        (delete_expired-SamePlace now s.domain_to_entry s) p in
    (
      allocate_in-Answers text life now (c ∷ cs) (cleanup_expired now s) (λ e. cc) q k,
      allocate_in-IsPlaced text life now (c ∷ cs) (cleanup_expired now s) q k,
    )

-- From a store whose maps mirror each other and whose next address is in its place, `Allocate` ends.
-- For the empty domain, and for no other, it is the error `empty_domain`. Otherwise it gives an address under which the domain is found
-- until the lifetime is over, or it is an error and every address of the pool is taken. The next
-- address is in its place again.
pub allocate-Answers :
    (to_lower : Bytes → Bytes)
    → (text : ℕ → Bytes) → (domain : Bytes) → (life : ℤ) → (now : ℕ) → (s : FakeStore) → IsPlaced s
    → IsMirror s
    → Answers text
        (at_least_default life)
        now
        (to_lower domain)
        (cleanup_expired now s)
        (allocate to_lower text domain life now s)
      × IsPlaced (allocate to_lower text domain life now s).1
unfolding allocate
allocate-Answers to_lower text domain life now s p m =
    allocate_lower-Answers text (to_lower domain) (at_least_default life) now s p m
