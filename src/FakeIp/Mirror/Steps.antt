-- ===== src/FakeIp/Mirror/Steps.antt =====
-- Every operation of the store keeps its maps inverse to each other.
use lumine_for_android.Prelude.{
  Bytes, same_refl, same→eq, same, Assoc, lookup-erase_self, lookup-erase_ne, lookup, erase, ℕ, ◌+◌,
  ◌≡◌, sym, ap, ◌∙◌, inl, inr, none, some, [], ◌∷◌, Bool-cases, Option-cases, Outcome, ok, err,
  panic, out_of_fuel, ℤ,
}
use lumine_for_android.FakeIp.{
  FakeError, Entry, drop_domain, drop_ip, FakeStore, delete_entry, alive, delete_expired, put_entry,
  lookup_domain, vacate, take_address, cleanup_expired, find_free, allocate_in, allocate,
  allocate_lower, at_least_default,
}
use lumine_for_android.FakeIp.Mirror.Delete.{delete_entry-IsMirror, drop_domain-some, drop_ip-some}
use lumine_for_android.FakeIp.Mirror.{some_inj, Half, IsMirror, Half-insert}

put_entry-IsMirror :
    (e : Entry) (s : FakeStore)
    → ((old : Entry) → lookup e.ip s.ip_to_entry ≡ some old → old.domain ≡ e.domain)
    → ((old : Entry) → lookup e.domain s.domain_to_entry ≡ some old → old.ip ≡ e.ip)
    → IsMirror s
    → IsMirror (put_entry e s)
unfolding put_entry IsMirror
put_entry-IsMirror e s u v (h, k) = (
  Half-insert (λ e. e.domain) (λ e. e.ip) s.domain_to_entry s.ip_to_entry e h u,
  Half-insert (λ e. e.ip) (λ e. e.domain) s.ip_to_entry s.domain_to_entry e k v,
)

pub delete_expired-IsMirror :
    (now : ℕ) (m : Assoc Entry) (s : FakeStore) → IsMirror s → IsMirror (delete_expired now m s)
unfolding delete_expired
delete_expired-IsMirror now [] s h = h
delete_expired-IsMirror now ((k, e) ∷ m) s h = elim (Bool-cases (alive now e)) [
  | inl t ↦ rw t (delete_expired-IsMirror now m s h)
  | inr t ↦ rw t (delete_expired-IsMirror now m (delete_entry e s) (delete_entry-IsMirror e s h))
]

-- `LookupDomain` keeps the two maps inverse to each other, also when it removes an expired entry.
pub lookup_domain-IsMirror :
    (ip : Bytes) (now : ℕ) (s : FakeStore) → IsMirror s → IsMirror (lookup_domain ip now s).1
unfolding lookup_domain
lookup_domain-IsMirror ip now s h = elim (Option-cases (lookup ip s.ip_to_entry)) [
  | inl n ↦ rw (n, lookup_domain) h
  | inr (e, n) ↦ elim (Bool-cases (alive now e)) [
    | inl t ↦ rw (n, lookup_domain, t) h
    | inr t ↦ rw (n, lookup_domain, t) (delete_entry-IsMirror e s h)
  ]
]

-- What an address is given to: it is in no map, nor is the domain.
IsVacant : Bytes → Bytes → FakeStore → Type 0
IsVacant domain ip s =
    IsMirror s × (lookup domain s.domain_to_entry ≡ none) × (lookup ip s.ip_to_entry ≡ none)

lookup-erase-none :
    (k j : Bytes) (m : Assoc Entry) → lookup j m ≡ none → lookup j (erase k m) ≡ none
lookup-erase-none k j m h = elim (Bool-cases (same k j)) [
  | inl t ↦ ap (λ (x : Bytes). lookup j (erase x m)) (same→eq k j t) ∙ lookup-erase_self j m
  | inr t ↦ lookup-erase_ne k j m t ∙ h
]

module _ (text : ℕ → Bytes) where
  delete_entry-IsVacant :
      (domain ip : Bytes) (e : Entry) (s : FakeStore)
      → IsMirror s
      → lookup domain s.domain_to_entry ≡ none
      → lookup ip s.ip_to_entry ≡ some e
      → IsVacant domain ip (delete_entry e s)
  unfolding delete_entry IsVacant IsMirror Half
  delete_entry-IsVacant domain ip e s w n l =
      let (j, o) = w.1 ip e l in
      let p : drop_domain e s.domain_to_entry ≡ erase e.domain s.domain_to_entry =
        drop_domain-some e s.domain_to_entry e o ∙ rw (same_refl e.ip) in
      let q : drop_ip e s.ip_to_entry ≡ erase e.ip s.ip_to_entry =
        drop_ip-some e s.ip_to_entry e (ap (λ (x : Bytes). lookup x s.ip_to_entry) j ∙ l)
        ∙ rw (same_refl e.domain) in
      (
        delete_entry-IsMirror e s w,
        rw p (lookup-erase-none e.domain domain s.domain_to_entry n),
        rw q (
            ap (λ (x : Bytes). lookup ip (erase x s.ip_to_entry)) j
            ∙ lookup-erase_self ip s.ip_to_entry),
      )

  vacate-IsVacant :
      (domain : Bytes) (a : ℕ) (s : FakeStore)
      → IsMirror s
      → lookup domain s.domain_to_entry ≡ none
      → IsVacant domain (text a) (vacate text a s)
  unfolding vacate IsVacant
  vacate-IsVacant domain a s h n = elim (Option-cases (lookup (text a) s.ip_to_entry)) [
    | inl o ↦ rw (o, vacate) (h, n, o)
    | inr (e, o) ↦ rw (o, vacate) (delete_entry-IsVacant domain (text a) e s h n o)
  ]

  take_address-IsMirror :
      (domain : Bytes) (expires a : ℕ) (s : FakeStore)
      → IsMirror s
      → lookup domain s.domain_to_entry ≡ none
      → IsMirror (take_address text domain expires a s)
  unfolding take_address IsVacant IsMirror
  take_address-IsMirror domain expires a s h n =
      let (m, d, i) = vacate-IsVacant domain a s h n in
      put_entry-IsMirror (record { domain = domain; ip = text a; expires_at = expires })
        (vacate text a s) (λ old l. absurd (cc)) (λ old l. absurd (cc)) m

  refresh-IsMirror :
      (domain : Bytes) (expires : ℕ) (e : Entry) (s : FakeStore)
      → IsMirror s
      → lookup domain s.domain_to_entry ≡ some e
      → IsMirror (put_entry (record e { expires_at = expires }) s)
  unfolding IsMirror Half
  refresh-IsMirror domain expires e s h n =
      let (j, o) = h.0 domain e n in
      put_entry-IsMirror (record e { expires_at = expires }) s
        (λ old l. ap (λ (x : Entry). x.domain) (some_inj old e (sym l ∙ o)))
        (λ old l.
          ap (λ (x : Entry). x.ip)
            (some_inj old e (sym l ∙ ap (λ (x : Bytes). lookup x s.domain_to_entry) j ∙ n)))
        h

  allocate_in-IsMirror :
      (domain : Bytes) (life now : ℕ) (s : FakeStore)
      → IsMirror s
      → IsMirror (allocate_in text domain life now s).1
  unfolding allocate_in
  allocate_in-IsMirror domain life now s h = elim (Option-cases (lookup domain s.domain_to_entry)) [
    | inr (e, n) ↦ rw (n, allocate_in) (refresh-IsMirror domain (now + life) e s h n)
    | inl n ↦
        rw (n, allocate_in)
          (elim (find_free text s now s.next s.next (s.size + 1))
            as (λ o.
              IsMirror
                (elim o as (λ _. Outcome FakeError Bytes × FakeStore) [
                  | ok a ↦ (ok (text a), take_address text domain (now + life) a s)
                  | err e ↦ (err e, s)
                  | panic ↦ (panic, s)
                  | out_of_fuel ↦ (out_of_fuel, s)
                ]).1) [
                  | ok a ↦ take_address-IsMirror domain (now + life) a s h n
                  | err e ↦ h
                  | panic ↦ h
                  | out_of_fuel ↦ h
                ])
  ]

allocate_lower-IsMirror :
    (text : ℕ → Bytes) (domain : Bytes) (life now : ℕ) (s : FakeStore)
    → IsMirror s
    → IsMirror (allocate_lower text domain life now s).1
unfolding allocate_lower
allocate_lower-IsMirror text [] life now s h = h
allocate_lower-IsMirror text (c ∷ cs) life now s h =
    allocate_in-IsMirror text (c ∷ cs) life now (cleanup_expired now s)
      (delete_expired-IsMirror now s.domain_to_entry s h)

-- `Allocate` keeps the two maps inverse to each other, on every branch.
pub allocate-IsMirror :
    (to_lower : Bytes → Bytes)
    → (text : ℕ → Bytes) → (domain : Bytes) → (life : ℤ) → (now : ℕ) → (s : FakeStore) → IsMirror s
    → IsMirror (allocate to_lower text domain life now s).1
unfolding allocate
allocate-IsMirror to_lower text domain life now s h =
    allocate_lower-IsMirror text (to_lower domain) (at_least_default life) now s h
