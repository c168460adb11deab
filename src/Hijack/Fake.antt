-- ===== src/Hijack/Fake.antt =====
-- A fake address as a record: `allocateFakeIP` and `buildFakeAnswerRR` return.
use lumine_for_android.Prelude.{
  Bytes, ℕ, ◌≤◌, ◌≡◌, refl, sym, ◌≢◌, ◌⊎◌, inl, inr, Option, none, some, [], arith, ◌==◌,
  Bool-cases, Outcome, Returns, Returns-map, Returns-if, ok, err, panic, out_of_fuel,
}
use lumine_for_android.FakeIp.{allocate, FakeStore, FakeError, lookup_domain, at_least_default}
use lumine_for_android.FakeIp.Loop.{IsPlaced}
use lumine_for_android.FakeIp.Mirror.{IsMirror}
use lumine_for_android.FakeIp.Mirror.Steps.{allocate-IsMirror}
use lumine_for_android.FakeIp.Allocate.{Answers, allocate-Answers}
use lumine_for_android.Hijack.{
  ip4, ip16, RecordData, Rr, Stores, Outer, rr_a, rr_aaaa, lifetime, allocate_fake_ip, ip4_of,
  ip16_of, fake_data, allocate_fake_ip_error, HijackError, fake_rr, build_fake_answer_rr,
  invalid_fake_ipv4, invalid_fake_ipv6, unsupported_answer_type, if_ip4, unless_ip4,
}
use lumine_for_android.Nat64.{to4}
use lumine_for_android.Stateful.{wrapped, Leads, Leads-pure, Returns-wrapped}

-- both stores keep their invariants
unfoldable pub AreStores : Stores → Type 0
AreStores s = (IsPlaced s.fake4 × IsMirror s.fake4) × (IsPlaced s.fake6 × IsMirror s.fake6)

-- In the store of the type, the address with this text stands for the domain, at the present time.
unfoldable pub StandsFor : Outer → Bytes → ℕ → Bytes → Stores → Type 0
StandsFor out domain qtype ip s =
    ((qtype ≡ rr_a) × ((lookup_domain ip out.now s.fake4).0 ≡ some (out.to_lower domain)))
    ⊎ (qtype ≡ rr_aaaa) × ((lookup_domain ip out.now s.fake6).0 ≡ some (out.to_lower domain))

Answers-Returns :
    (text : ℕ → Bytes) (life now : ℕ) (domain : Bytes) (before : FakeStore)
    (r : Outcome FakeError Bytes × FakeStore)
    → 1 ≤ life
    → Answers text life now domain before r
    → Returns (λ ip. (lookup_domain ip now r.1).0 ≡ some domain) r.0
unfolding Answers
Answers-Returns text life now domain before (ok x, s) l h = h.1 now (omega arith)
Answers-Returns text life now domain before (err e, s) l h = tt
Answers-Returns text life now domain before (panic, s) l h = h
Answers-Returns text life now domain before (out_of_fuel, s) l h = h

-- The text is read as an address of the type, which a record holds: of four bytes, or of sixteen that
-- are no IPv4 address.
unfoldable pub IsAddress : Outer → ℕ → Bytes → RecordData → Type 0
IsAddress out qtype ip d =
    (n : ℕ) × (out.net.parse_ip ip ≡ some n)
    × (((qtype ≡ rr_a) × ((m : ℕ) × (to4 n ≡ some m) × (d ≡ ip4 m)))
        ⊎ (qtype ≡ rr_aaaa) × (to4 n ≡ none) × (d ≡ ip16 n))

pub ok_injective :
    (x y : RecordData) → ◌≡◌ {A = Outcome HijackError RecordData} (ok x) (ok y) → x ≡ y
ok_injective x y h = ground arith

module _ (out : Outer) (domain : Bytes) (qtype : ℕ) (no_ip : out.net.parse_ip [] ≡ none) where
  lifetime-positive : (ttl : ℕ) → 1 ≤ at_least_default (lifetime out ttl)
  lifetime-positive ttl = ground arith

  pub allocate_fake_ip-Leads :
      (ttl : ℕ) (s : Stores)
      → AreStores s
      → Leads AreStores (StandsFor out domain qtype) (allocate_fake_ip out domain qtype ttl s)
  unfolding AreStores allocate_fake_ip StandsFor
  allocate_fake_ip-Leads ttl s ((p4, m4), (p6, m6)) =
      let life = lifetime out ttl in
      let r4 = allocate out.to_lower out.text4 domain life out.now s.fake4 in
      let r6 = allocate out.to_lower out.text6 domain life out.now s.fake6 in
      let (a4, q4) = allocate-Answers out.to_lower out.text4 domain life out.now s.fake4 p4 m4 in
      let (a6, q6) = allocate-Answers out.to_lower out.text6 domain life out.now s.fake6 p6 m6 in
      let n4 = allocate-IsMirror out.to_lower out.text4 domain life out.now s.fake4 m4 in
      let n6 = allocate-IsMirror out.to_lower out.text6 domain life out.now s.fake6 m6 in
      elim (Bool-cases (qtype == rr_a)) [
        | inl t ↦
            rw (t, allocate_fake_ip)
              (Leads-pure AreStores (StandsFor out domain qtype)
                (wrapped allocate_fake_ip_error r4.0) (record s { fake4 = r4.1 })
                (Returns-wrapped allocate_fake_ip_error
                  (λ ip. StandsFor out domain qtype ip (record s { fake4 = r4.1 })) r4.0
                  (Returns-map
                    (λ ip. (lookup_domain ip out.now r4.1).0 ≡ some (out.to_lower domain))
                    (λ ip. StandsFor out domain qtype ip (record s { fake4 = r4.1 })) r4.0
                    (λ ip e. inl (ground arith, e))
                    (Answers-Returns _ _ _ _ _ r4 (lifetime-positive ttl) a4)))
                ((q4, n4), (p6, m6)))
        | inr t ↦ elim (Bool-cases (qtype == rr_aaaa)) [
          | inl u ↦
              rw (t, u, allocate_fake_ip)
                (Leads-pure AreStores (StandsFor out domain qtype)
                  (wrapped allocate_fake_ip_error r6.0) (record s { fake6 = r6.1 })
                  (Returns-wrapped allocate_fake_ip_error
                    (λ ip. StandsFor out domain qtype ip (record s { fake6 = r6.1 })) r6.0
                    (Returns-map
                      (λ ip. (lookup_domain ip out.now r6.1).0 ≡ some (out.to_lower domain))
                      (λ ip. StandsFor out domain qtype ip (record s { fake6 = r6.1 })) r6.0
                      (λ ip e. inr (ground arith, e))
                      (Answers-Returns _ _ _ _ _ r6 (lifetime-positive ttl) a6)))
                  ((p4, m4), (q6, n6)))
          | inr u ↦ rw (t, u, allocate_fake_ip) ((p4, m4), (p6, m6))
        ]
      ]

  if_ip4-Returns : (o : Option ℕ) → Returns (λ x. Unit) (if_ip4 out o)
  if_ip4-Returns none = tt
  if_ip4-Returns (some m) = tt

  unless_ip4-Returns : (n : ℕ) (o : Option ℕ) → Returns (λ x. Unit) (unless_ip4 out n o)
  unless_ip4-Returns n none = tt
  unless_ip4-Returns n (some m) = tt

  ip4_of-Returns : (o : Option ℕ) → Returns (λ x. Unit) (ip4_of out o)
  ip4_of-Returns none = tt
  ip4_of-Returns (some n) = if_ip4-Returns (to4 n)

  ip16_of-Returns : (o : Option ℕ) → Returns (λ x. Unit) (ip16_of out o)
  ip16_of-Returns none = tt
  ip16_of-Returns (some n) = unless_ip4-Returns n (to4 n)

  fake_data-Returns : (t : ℕ) (ip : Bytes) → Returns (λ x. Unit) (fake_data out t ip)
  unfolding fake_data
  fake_data-Returns t ip =
      Returns-if (λ x. Unit) (t == rr_a) _ _ (λ _. ip4_of-Returns (out.net.parse_ip ip))
        (λ _.
          Returns-if (λ x. Unit) (t == rr_aaaa) _ _ (λ _. ip16_of-Returns (out.net.parse_ip ip))
            (λ _. tt))

  if_ip4-ok :
      (o : Option ℕ) (d : RecordData) → if_ip4 out o ≡ ok d → (m : ℕ) × (o ≡ some m) × (d ≡ ip4 m)
  if_ip4-ok none d h = absurd (cc)
  if_ip4-ok (some m) d h = (m, refl, ok_injective d (ip4 m) (sym h))

  unless_ip4-ok :
      (n : ℕ) (o : Option ℕ) (d : RecordData)
      → unless_ip4 out n o ≡ ok d
      → (o ≡ none) × (d ≡ ip16 n)
  unless_ip4-ok n none d h = (refl, ok_injective d (ip16 n) (sym h))
  unless_ip4-ok n (some m) d h = absurd (cc)

  ip4_of-ok :
      (o : Option ℕ) (d : RecordData)
      → ip4_of out o ≡ ok d
      → (n : ℕ) × (o ≡ some n) × ((m : ℕ) × (to4 n ≡ some m) × (d ≡ ip4 m))
  ip4_of-ok none d h = absurd (cc)
  ip4_of-ok (some n) d h = (n, refl, if_ip4-ok (to4 n) d h)

  ip16_of-ok :
      (o : Option ℕ) (d : RecordData)
      → ip16_of out o ≡ ok d
      → (n : ℕ) × (o ≡ some n) × (to4 n ≡ none) × (d ≡ ip16 n)
  ip16_of-ok none d h = absurd (cc)
  ip16_of-ok (some n) d h = let (e, f) = unless_ip4-ok n (to4 n) d h in (n, refl, e, f)

  pub fake_data-IsAddress :
      (t : ℕ) (ip : Bytes) (d : RecordData) → fake_data out t ip ≡ ok d → IsAddress out t ip d
  unfolding fake_data IsAddress
  fake_data-IsAddress t ip d h = elim (Bool-cases (t == rr_a)) [
    | inl e ↦
        let k : ip4_of out (out.net.parse_ip ip) ≡ ok d = rw (e, fake_data) at h in
        let (n, p, q) = ip4_of-ok (out.net.parse_ip ip) d k in (n, p, inl (ground arith, q))
    | inr e ↦ elim (Bool-cases (t == rr_aaaa)) [
      | inl u ↦
          let k : ip16_of out (out.net.parse_ip ip) ≡ ok d = rw (e, u, fake_data) at h in
          let (n, p, q, f) = ip16_of-ok (out.net.parse_ip ip) d k in
          (n, p, inr (ground arith, q, f))
      | inr u ↦
          let k : ◌≡◌ {A = Outcome HijackError RecordData} (err unsupported_answer_type) (ok d) =
            rw (e, u, fake_data) at h in
          absurd (cc)
    ]
  ]

  -- an empty text is no address
  pub fake_data-nil : (t : ℕ) (d : RecordData) → fake_data out t [] ≢ ok d
  unfolding fake_data
  fake_data-nil t d h = elim (Bool-cases (t == rr_a)) [
    | inl e ↦
        let k : fake_data out t [] ≡ err invalid_fake_ipv4 = rw (e, no_ip, fake_data) refl in
        absurd (cc)
    | inr e ↦ elim (Bool-cases (t == rr_aaaa)) [
      | inl u ↦
          let k : fake_data out t [] ≡ err invalid_fake_ipv6 = rw (e, u, no_ip, fake_data) refl in
          absurd (cc)
      | inr u ↦
          let k : fake_data out t [] ≡ err unsupported_answer_type = rw (e, u, fake_data) refl in
          absurd (cc)
    ]
  ]

  pub build-Returns :
      (P : Rr → Type 0) (name : Bytes) (t class ttl : ℕ) (ip : Bytes)
      → ((d : RecordData) → fake_data out t ip ≡ ok d → P (fake_rr out name t class ttl d))
      → Returns P (build_fake_answer_rr out name t class ttl ip)
  unfolding build_fake_answer_rr
  build-Returns P name t class ttl ip h = go (fake_data out t ip) (fake_data-Returns t ip) h
    where
      go :
          (o : Outcome HijackError RecordData)
          → Returns (λ x. Unit) o
          → ((d : RecordData) → o ≡ ok d → P (fake_rr out name t class ttl d))
          → Returns P (elim o [
            | ok d ↦ ok (fake_rr out name t class ttl d)
            | err e ↦ err e
            | panic ↦ panic
            | out_of_fuel ↦ out_of_fuel
          ])
      go (ok d) r k = k d refl
      go (err e) r k = tt
      go panic r k = r
      go out_of_fuel r k = r
