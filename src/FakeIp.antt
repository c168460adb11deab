-- ===== src/FakeIp.antt =====
-- `fakeIPStore`: enimul/internal/core/fake_ip.go. Addresses are numbers, `Addr.String` is the
-- parameter `text`, and times are in nanoseconds.
pub mod Loop
pub mod Mirror
pub mod Place
pub mod Allocate
use lumine_for_android.Prelude.{
  Bytes, same, Assoc, insert, lookup, erase, ℕ, zero, suc, ◌+◌, Bool, true, false, ◌&&◌, Option,
  none, some, [], ◌∷◌, ltb, leb, ◌==◌, if◌then◌else◌, Outcome, ok, err, panic, out_of_fuel, ℤ,
  pos_part, leb_ℤ, pos,
}

-- `fakeIPEntry`
pub record Entry : Type 0 where
  pub domain : Bytes
  pub ip : Bytes
  pub expires_at : ℕ

-- `fakeIPStore`; the prefix holds the `size` addresses from `base` on.
pub record FakeStore : Type 0 where
  pub base : ℕ
  pub size : ℕ
  pub next : ℕ
  pub domain_to_entry : Assoc Entry
  pub ip_to_entry : Assoc Entry

pub data FakeError : Type 0 where
  empty_domain pool_exhausted : FakeError

-- `mustNewFakeIPStore`
abbrev pub new_store : ℕ → ℕ → FakeStore
new_store base size = record {
  base = base;
  size = size;
  next = base + 1;
  domain_to_entry = [];
  ip_to_entry = [];
}

-- `expiresAt.After(now)`
abbrev pub alive : ℕ → Entry → Bool
alive now e = ltb now e.expires_at

-- `prefix.Contains`
abbrev pub contains : FakeStore → ℕ → Bool
contains s a = leb s.base a && ltb a (s.base + s.size)

-- the two `delete` of `deleteEntryLocked`, each behind its test
unfoldable pub drop_domain : Entry → Assoc Entry → Assoc Entry
drop_domain e m = elim (lookup e.domain m) [
  | some current ↦ if same current.ip e.ip then erase e.domain m else m
  | none ↦ m
]

unfoldable pub drop_ip : Entry → Assoc Entry → Assoc Entry
drop_ip e m = elim (lookup e.ip m) [
  | some current ↦ if same current.domain e.domain then erase e.ip m else m
  | none ↦ m
]

-- `deleteEntryLocked`
unfoldable pub delete_entry : Entry → FakeStore → FakeStore
delete_entry e s = record s {
  domain_to_entry = drop_domain e s.domain_to_entry;
  ip_to_entry = drop_ip e s.ip_to_entry;
}

-- `cleanupExpiredLocked`, over the entries that its `range` gives
unfoldable pub delete_expired : ℕ → Assoc Entry → FakeStore → FakeStore
delete_expired now [] s = s
delete_expired now ((k, e) ∷ m) s =
    delete_expired now m (if alive now e then s else delete_entry e s)

abbrev pub cleanup_expired : ℕ → FakeStore → FakeStore
cleanup_expired now s = delete_expired now s.domain_to_entry s

-- both maps get the entry
unfoldable pub put_entry : Entry → FakeStore → FakeStore
put_entry e s = record s {
  domain_to_entry = insert e.domain e s.domain_to_entry;
  ip_to_entry = insert e.ip e s.ip_to_entry;
}

-- `LookupDomain`
unfoldable pub lookup_domain : Bytes → ℕ → FakeStore → Option Bytes × FakeStore
lookup_domain ip now s = elim (lookup ip s.ip_to_entry) [
  | none ↦ (none, s)
  | some e ↦ if alive now e then (some e.domain, s) else (none, delete_entry e s)
]

-- `fakeIPLifetime`, in seconds
abbrev pub fake_ip_lifetime : ℕ → ℕ
fake_ip_lifetime zero = 60
fake_ip_lifetime (suc n) = if ltb (suc n) 60 then 60 else suc n

module _ (text : ℕ → Bytes) where
  -- An entry that has not expired holds the address.
  abbrev pub taken : FakeStore → ℕ → ℕ → Bool
  taken s now a = elim (lookup (text a) s.ip_to_entry) [ some e ↦ alive now e | none ↦ false ]

  -- The loop of `Allocate`: the address that it stops at.
  unfoldable pub find_free : FakeStore → ℕ → ℕ → ℕ → ℕ → Outcome FakeError ℕ
  find_free s now start candidate zero = out_of_fuel
  find_free s now start candidate (suc fuel) =
      let a = if contains s candidate then candidate else s.base + 1 in
      elim (taken s now a) [
        | false ↦ ok a
        | true ↦ elim (suc a == start) [
          | true ↦ err pool_exhausted
          | false ↦ find_free s now start (suc a) fuel
        ]
      ]

  -- an entry that is still there has expired
  unfoldable pub vacate : ℕ → FakeStore → FakeStore
  vacate a s = elim (lookup (text a) s.ip_to_entry) [ some e ↦ delete_entry e s | none ↦ s ]

  -- the end of the loop
  unfoldable pub take_address : Bytes → ℕ → ℕ → FakeStore → FakeStore
  take_address domain expires a s =
      let e : Entry = record { domain = domain; ip = text a; expires_at = expires } in
      record (put_entry e (vacate a s)) { next = suc a }

  -- `Allocate` of a domain in lower case, behind the test for an empty one and `cleanupExpiredLocked`
  unfoldable pub allocate_in : Bytes → ℕ → ℕ → FakeStore → Outcome FakeError Bytes × FakeStore
  allocate_in domain lifetime now s = elim (lookup domain s.domain_to_entry) [
    | some e ↦ (ok e.ip, put_entry (record e { expires_at = now + lifetime }) s)
    | none ↦ elim (find_free s now s.next s.next (s.size + 1)) [
      | ok a ↦ (ok (text a), take_address domain (now + lifetime) a s)
      | err e ↦ (err e, s)
      | panic ↦ (panic, s)
      | out_of_fuel ↦ (out_of_fuel, s)
    ]
  ]

-- `Allocate` of a domain in lower case
unfoldable pub allocate_lower :
    (ℕ → Bytes) → Bytes → ℕ → ℕ → FakeStore → Outcome FakeError Bytes × FakeStore
allocate_lower text [] life now s = (err empty_domain, s)
allocate_lower text (c ∷ cs) life now s = allocate_in text (c ∷ cs) life now (cleanup_expired now s)

-- a lifetime of 0 or less is 60 seconds
abbrev pub at_least_default : ℤ → ℕ
at_least_default lifetime = if leb_ℤ lifetime (pos 0) then 60000000000 else pos_part lifetime

-- `Allocate`; `to_lower` is `strings.ToLower`.
unfoldable pub allocate :
    (Bytes → Bytes) → (ℕ → Bytes) → Bytes → ℤ → ℕ → FakeStore → Outcome FakeError Bytes × FakeStore
allocate to_lower text domain lifetime now s =
    allocate_lower text (to_lower domain) (at_least_default lifetime) now s
