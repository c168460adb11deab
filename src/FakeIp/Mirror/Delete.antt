-- ===== src/FakeIp/Mirror/Delete.antt =====
-- A deletion removes an entry from both maps of the fake-IP store or from none.
use lumine_for_android.Prelude.{
  Bytes, same_refl, same→eq, same_sound, same, Assoc, lookup, erase, ◌≡◌, sym, ap, ◌∙◌, ◌⊎◌, inl,
  inr, true, none, some, if◌then◌else◌, Bool-cases, Option-cases,
}
use lumine_for_android.FakeIp.{Entry, drop_domain, drop_ip, FakeStore, delete_entry}
use lumine_for_android.FakeIp.Mirror.{some_inj, Half, IsMirror, Half-erase}

module _ (e : Entry) (m : Assoc Entry) where
  drop_domain-none : lookup e.domain m ≡ none → drop_domain e m ≡ m
  unfolding drop_domain
  drop_domain-none h = rw (h, drop_domain)

  pub drop_domain-some :
      (c : Entry)
      → lookup e.domain m ≡ some c
      → drop_domain e m ≡ (if same c.ip e.ip then erase e.domain m else m)
  unfolding drop_domain
  drop_domain-some c h = rw (h, drop_domain)

  drop_ip-none : lookup e.ip m ≡ none → drop_ip e m ≡ m
  unfolding drop_ip
  drop_ip-none h = rw (h, drop_ip)

  pub drop_ip-some :
      (c : Entry)
      → lookup e.ip m ≡ some c
      → drop_ip e m ≡ (if same c.domain e.domain then erase e.ip m else m)
  unfolding drop_ip
  drop_ip-some c h = rw (h, drop_ip)

  drop_ip-keeps : ((c : Entry) → lookup e.ip m ≡ some c → c.domain ≡ e.domain → ⊥) → drop_ip e m ≡ m
  drop_ip-keeps h = elim (Option-cases (lookup e.ip m)) [
    | inl o ↦ drop_ip-none o
    | inr (c, o) ↦ elim (Bool-cases (same c.domain e.domain)) [
      | inl t ↦ absurd (h c o (same→eq c.domain e.domain t))
      | inr t ↦ drop_ip-some c o ∙ rw t
    ]
  ]

module _ (e : Entry) (d i : Assoc Entry) where
  Kept : Type 0
  Kept = (drop_domain e d ≡ d) × (drop_ip e i ≡ i)

  Removed : Type 0
  Removed =
      (c : Entry) × (lookup e.domain d ≡ some c)
      × (e.domain ≡ c.domain)
      × (e.ip ≡ c.ip)
      × (drop_domain e d ≡ erase e.domain d)
      × (drop_ip e i ≡ erase e.ip i)

  -- A deletion removes the entry from both maps or from none.
  drop_both :
      Half (λ e. e.domain) (λ e. e.ip) d i → Half (λ e. e.ip) (λ e. e.domain) i d → Kept ⊎ Removed
  unfolding Half Kept Removed
  drop_both h k = elim (Option-cases (lookup e.domain d)) [
    | inl n ↦ inl (
      drop_domain-none e d n,
      drop_ip-keeps e i (λ c o t.
          let p : lookup e.domain d ≡ some c =
            ap (λ (x : Bytes). lookup x d) (sym t) ∙ (k e.ip c o).1 in
          cc),
    )
    | inr (c, n) ↦ elim (Bool-cases (same c.ip e.ip)) [
      | inl t ↦
          let j : c.ip ≡ e.ip = same→eq c.ip e.ip t in
          let (p, q) = h e.domain c n in
          let o : lookup e.ip i ≡ some c = ap (λ (x : Bytes). lookup x i) (sym j) ∙ q in
          let y : same c.domain e.domain ≡ true =
            ap (λ (x : Bytes). same x e.domain) p ∙ same_refl e.domain in
          inr (c, n, sym p, sym j, drop_domain-some e d c n ∙ rw t, drop_ip-some e i c o ∙ rw y)
      | inr t ↦ inl (
        drop_domain-some e d c n ∙ rw t,
        drop_ip-keeps e i (λ b o y.
            let p : lookup e.domain d ≡ some b =
              ap (λ (x : Bytes). lookup x d) (sym y) ∙ (k e.ip b o).1 in
            let same_entry : b ≡ c = some_inj b c (sym p ∙ n) in
            same_sound c.ip e.ip t (ap (λ (x : Entry). x.ip) (sym same_entry) ∙ (k e.ip b o).0)),
      )
    ]
  ]

pub delete_entry-IsMirror : (e : Entry) (s : FakeStore) → IsMirror s → IsMirror (delete_entry e s)
unfolding delete_entry IsMirror Kept Removed Half
delete_entry-IsMirror e s (h, k) = elim (drop_both e s.domain_to_entry s.ip_to_entry h k) [
  | inl (p, q) ↦ rw (p, q) (h, k)
  | inr (c, n, a, b, p, q) ↦
      rw (p, q, a, b)
        (
          Half-erase (λ e. e.domain) (λ e. e.ip) s.domain_to_entry s.ip_to_entry c h (rw a at n),
          Half-erase (λ e. e.ip) (λ e. e.domain) s.ip_to_entry s.domain_to_entry c k
              (h e.domain c n).1,
        )
]
