-- ===== src/FakeIp/Mirror.antt =====
-- The two maps of the store are inverse to each other: an entry is under its domain in one map
-- exactly when it is under its address in the other.
pub mod Delete
pub mod Steps
use lumine_for_android.Prelude.{
  Bytes, same→eq, same_sound, same, Assoc, insert, lookup-erase_self, lookup-erase_ne,
  lookup-insert_self, lookup-insert_ne, lookup, erase, ◌≡◌, sym, ap, ◌∙◌, inl, inr, none, some,
  Bool-cases,
}
use lumine_for_android.FakeIp.{FakeStore, Entry}

-- Under the key `f e` of its map an entry stands under `g e` in the other.
unfoldable pub Half : (Entry → Bytes) → (Entry → Bytes) → Assoc Entry → Assoc Entry → Type 0
Half f g m n = (k : Bytes) (e : Entry) → lookup k m ≡ some e → (f e ≡ k) × (lookup (g e) n ≡ some e)

unfoldable pub IsMirror : FakeStore → Type 0
IsMirror s =
    Half (λ e. e.domain) (λ e. e.ip) s.domain_to_entry s.ip_to_entry
    × Half (λ e. e.ip) (λ e. e.domain) s.ip_to_entry s.domain_to_entry

pub some_inj : (a b : Entry) → some a ≡ some b → a ≡ b
some_inj a b h = cc

module _ (f g : Entry → Bytes) (m n : Assoc Entry) where
  pub Half-erase :
      (c : Entry)
      → Half f g m n
      → lookup (f c) m ≡ some c
      → Half f g (erase (f c) m) (erase (g c) n)
  unfolding Half
  Half-erase c h u k e l = elim (Bool-cases (same (f c) k)) [
    | inl t ↦
        let q : lookup k (erase (f c) m) ≡ none =
          ap (λ (x : Bytes). lookup k (erase x m)) (same→eq (f c) k t) ∙ lookup-erase_self k m in
        absurd (cc)
    | inr t ↦
        let r = h k e (sym (lookup-erase_ne (f c) k m t) ∙ l) in
        elim (Bool-cases (same (g c) (g e))) [
          | inl y ↦
              let i : c ≡ e = some_inj c e (
                sym (h (f c) c u).1
                ∙ ap (λ (x : Bytes). lookup x n) (same→eq (g c) (g e) y)
                ∙ r.1) in
              absurd (same_sound (f c) k t (ap f i ∙ r.0))
          | inr y ↦ (r.0, lookup-erase_ne (g c) (g e) n y ∙ r.1)
        ]
  ]

  pub Half-insert :
      (c : Entry)
      → Half f g m n
      → ((old : Entry) → lookup (g c) n ≡ some old → f old ≡ f c)
      → Half f g (insert (f c) c m) (insert (g c) c n)
  unfolding Half
  Half-insert c h u k e l = elim (Bool-cases (same (f c) k)) [
    | inl t ↦
        let j : f c ≡ k = same→eq (f c) k t in
        let i : c ≡ e = some_inj c e (
          sym (lookup-insert_self (f c) c m)
          ∙ ap (λ (x : Bytes). lookup x (insert (f c) c m)) j
          ∙ l) in
        (
          ap f (sym i) ∙ j,
          ap (λ (x : Entry). lookup (g x) (insert (g c) c n)) (sym i)
              ∙ lookup-insert_self (g c) c n
              ∙ ap (λ (x : Entry). some x) i,
        )
    | inr t ↦
        let r = h k e (sym (lookup-insert_ne (f c) k c m t) ∙ l) in
        elim (Bool-cases (same (g c) (g e))) [
          | inl y ↦
              let w = u e (ap (λ (x : Bytes). lookup x n) (same→eq (g c) (g e) y) ∙ r.1) in
              absurd (same_sound (f c) k t (sym w ∙ r.0))
          | inr y ↦ (r.0, lookup-insert_ne (g c) (g e) c n y ∙ r.1)
        ]
  ]
