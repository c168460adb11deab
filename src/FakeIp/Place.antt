-- ===== src/FakeIp/Place.antt =====
-- The next address of the fake-IP store (enimul/internal/core/fake_ip.go) stays in its pool.
use lumine_for_android.Prelude.{
  Bytes, Assoc, lookup, ℕ, ◌+◌, ◌<◌, ◌≡◌, refl, sym, ap, ◌∙◌, inl, inr, some, [], ◌∷◌, arith,
  Bool-cases, Option-cases,
}
use lumine_for_android.FakeIp.{
  FakeStore, Entry, alive, delete_entry, drop_ip, put_entry, delete_expired, vacate, take_address,
}
use lumine_for_android.FakeIp.Mirror.{IsMirror, Half}
use lumine_for_android.FakeIp.Loop.{IsPlaced}

drop_ip_empty : (e : Entry) → drop_ip e [] ≡ []
unfolding drop_ip lookup
drop_ip_empty e = refl

-- A deletion keeps the pool, the next address and an empty map of addresses.
pub SamePlace : FakeStore → FakeStore → Type 0
SamePlace s s' =
    (s'.base ≡ s.base)
    × (s'.size ≡ s.size)
    × (s'.next ≡ s.next)
    × (s.ip_to_entry ≡ [] → s'.ip_to_entry ≡ [])

delete_entry-SamePlace : (e : Entry) (s : FakeStore) → SamePlace s (delete_entry e s)
unfolding SamePlace delete_entry
delete_entry-SamePlace e s = (refl, refl, refl, λ h. ap (drop_ip e) h ∙ drop_ip_empty e)

SamePlace-trans : (s t u : FakeStore) → SamePlace s t → SamePlace t u → SamePlace s u
unfolding SamePlace
SamePlace-trans s t u h k = (k.0 ∙ h.0, k.1 ∙ h.1, k.2 ∙ h.2, λ x. k.3 (h.3 x))

SamePlace-refl : (s : FakeStore) → SamePlace s s
unfolding SamePlace
SamePlace-refl s = (refl, refl, refl, λ h. h)

pub delete_expired-SamePlace :
    (now : ℕ) (m : Assoc Entry) (s : FakeStore) → SamePlace s (delete_expired now m s)
unfolding delete_expired
delete_expired-SamePlace now [] s = SamePlace-refl s
delete_expired-SamePlace now ((k, e) ∷ m) s = elim (Bool-cases (alive now e)) [
  | inl t ↦ rw t (delete_expired-SamePlace now m s)
  | inr t ↦ rw t (
      SamePlace-trans s (delete_entry e s) (delete_expired now m (delete_entry e s))
        (delete_entry-SamePlace e s) (delete_expired-SamePlace now m (delete_entry e s)))
]

pub SamePlace-IsPlaced : (s s' : FakeStore) → SamePlace s s' → IsPlaced s → IsPlaced s'
unfolding SamePlace IsPlaced
SamePlace-IsPlaced s s' h (inl (p, q)) = inl (rw (h.0, h.2) p, rw (h.0, h.1, h.2) q)
SamePlace-IsPlaced s s' h (inr (p, q, r)) = inr (rw (h.0, h.2) p, rw h.1 q, h.3 r)

vacate-SamePlace : (text : ℕ → Bytes) (a : ℕ) (s : FakeStore) → SamePlace s (vacate text a s)
unfolding vacate
vacate-SamePlace text a s = elim (Option-cases (lookup (text a) s.ip_to_entry)) [
  | inl o ↦ rw (o, vacate) (SamePlace-refl s)
  | inr (e, o) ↦ rw (o, vacate) (delete_entry-SamePlace e s)
]

pub take_address-IsPlaced :
    (text : ℕ → Bytes) (domain : Bytes) (expires a : ℕ) (s : FakeStore)
    → s.base < a
    → a < s.base + s.size
    → IsPlaced (take_address text domain expires a s)
unfolding take_address put_entry IsPlaced SamePlace
take_address-IsPlaced text domain expires a s h k =
    let p = vacate-SamePlace text a s in inl (rw p.0 (omega arith), rw (p.0, p.1) (omega arith))

-- a store with an entry has allocated before
pub refresh-IsPlaced :
    (domain : Bytes) (e : Entry) (expires : ℕ) (s : FakeStore)
    → lookup domain s.domain_to_entry ≡ some e
    → IsMirror s
    → IsPlaced s
    → IsPlaced (put_entry (record e { expires_at = expires }) s)
unfolding put_entry IsPlaced IsMirror Half lookup
refresh-IsPlaced domain e expires s n m (inl h) = inl h
refresh-IsPlaced domain e expires s n m (inr (p, q, r)) =
    let l : lookup e.ip [] ≡ some e = ap (lookup e.ip) (sym r) ∙ (m.0 domain e n).1 in absurd (cc)
