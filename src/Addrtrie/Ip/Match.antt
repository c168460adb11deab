-- ===== src/Addrtrie/Ip/Match.antt =====
-- `Find` is a longest-prefix match, and a prefix matches the addresses of its network.
use Prim.Native.Nat.add
use native.Mathlib.Nat.{pow-suc, div-div-eq-div-mul}
use lumine_for_android.Prelude.{
  Bytes, codes, same, ℕ, zero, suc, ◌+◌, ◌-◌, ◌/◌, ◌%◌, ◌^◌, ◌≤◌, ◌<◌, ◌≡◌, refl, sym, ap, ◌∙◌, ◌↔◌,
  inl, inr, Bool, true, false, Option, none, some, List, [], ◌∷◌, arith, ◌==◌, if◌then◌else◌,
  ==_iff, Bool-cases,
}
use lumine_for_android.Addrtrie.Ip.{
  parse4, insert4, bits4, bits6, or_root, find_in, find4, find6, Netip, Addr, v4, v6, unmap,
}
use lumine_for_android.Addrtrie.Bits.{insert_bits, bit, bits_from, Trie, bits}
use lumine_for_android.Addrtrie.Bits.Longest.{
  value_at-insert, same_bits, value_at, longest, find_bits-longest, longest_root,
}

div_half : (a k : ℕ) → a / 2 ^ suc k ≡ a / 2 ^ k / 2
div_half a k = ap (λ (t : ℕ). a / t) (pow-suc 2 k) ∙ sym (div-div-eq-div-mul a (2 ^ k) 2)

shift_down : (d m a b : ℕ) → a / 2 ^ m ≡ b / 2 ^ m → a / 2 ^ (d + m) ≡ b / 2 ^ (d + m)
shift_down zero m a b e = rw add.zero e
shift_down (suc d) m a b e =
    rw (add.suc, div_half, div_half) (ap (λ (t : ℕ). t / 2) (shift_down d m a b e))

same_bits-empty : same_bits [] [] ≡ true
unfolding same_bits
same_bits-empty = refl

same_bits-cons :
    (x y : Bool) (p q : List Bool)
    → (same_bits (x ∷ p) (y ∷ q) ≡ true) ↔ ((x ≡ y) × (same_bits p q ≡ true))
unfolding same_bits
same_bits-cons true true p q = (λ h. (refl, h), λ h. h.1)
same_bits-cons true false p q = (λ h. cc, λ h. cc)
same_bits-cons false true p q = (λ h. cc, λ h. cc)
same_bits-cons false false p q = (λ h. (refl, h), λ h. h.1)

odd_eq : (x y : ℕ) → x / 2 ≡ y / 2 → (x % 2 == 1) ≡ (y % 2 == 1) → x ≡ y
odd_eq x y e h = ground arith

-- The first `n` bits from `i` on agree exactly when the numbers agree above the `m` bits behind them.
same_bits-bits_from :
    (width a b m n i : ℕ)
    → i + n + m ≡ width
    → a / 2 ^ (n + m) ≡ b / 2 ^ (n + m)
    → (same_bits (bits_from width a n i) (bits_from width b n i) ≡ true) ↔ (a / 2 ^ m ≡ b / 2 ^ m)
unfolding bits_from same_bits bit
same_bits-bits_from width a b m zero i h e = (λ _. rw add.zero at e, λ _. same_bits-empty)
same_bits-bits_from width a b m (suc n) i h e =
    let k : width - 1 - i ≡ n + m = omega arith in
    let e' : a / 2 ^ (n + m) / 2 ≡ b / 2 ^ (n + m) / 2 = rw (add.suc, div_half, div_half) at e in
    rw k (
      λ s.
          let (x, rest) =
            (same_bits-cons (a / 2 ^ (n + m) % 2 == 1) (b / 2 ^ (n + m) % 2 == 1) _ _).0 s in
          (same_bits-bits_from width a b m n (i + 1) (omega arith) (odd_eq _ _ e' x)).0 rest,
      λ t.
          let d : a / 2 ^ (n + m) ≡ b / 2 ^ (n + m) = shift_down n m a b t in
          (same_bits-cons (a / 2 ^ (n + m) % 2 == 1) (b / 2 ^ (n + m) % 2 == 1) _ _).1 (
            ap (λ (q : ℕ). q % 2 == 1) d,
            (same_bits-bits_from width a b m n (i + 1) (omega arith) d).1 t,
          ),
    )

-- Of two addresses of `width` bits, the first `len` bits agree exactly when they lie in the same
-- network of that length.
same_bits_iff :
    (width a b len : ℕ)
    → a < 2 ^ width
    → b < 2 ^ width
    → len ≤ width
    → (same_bits (bits width a len) (bits width b len) ≡ true)
      ↔ (a / 2 ^ (width - len) ≡ b / 2 ^ (width - len))
unfolding bits
same_bits_iff width a b len ha hb h =
    same_bits-bits_from width a b (width - len) len 0 (omega arith)
      (let w : len + (width - len) ≡ width = omega arith in rw w (small a ha ∙ sym (small b hb)))
  where
    small : (x : ℕ) → x < 2 ^ width → x / 2 ^ width ≡ 0
    small x hx = grind arith

module _ {V : Type 0} (t : Trie V) where
  last_test :
      (bs : List Bool)
      → (o : Option V) → longest (value_at t) bs ≡ o
      → or_root t (elim o [ some v ↦ some v | none ↦ none ]) ≡ o
  last_test bs (some v) e = refl
  last_test bs none e = longest_root t bs e

  -- what the loop of `Find` returns, with the test on the root behind it
  find_in-longest : (bs : List Bool) → find_in t (some bs) ≡ longest (value_at t) bs
  find_in-longest bs =
      rw (find_bits-longest bs t none) (last_test bs (longest (value_at t) bs) refl)

  -- For a text that reads as an IPv4 address, `Find` gives the value of the longest prefix of its bits
  -- that has one.
  pub find4-longest :
      (netip : Netip)
      → (ip : Bytes) → (a : Addr) → (n : ℕ) → netip.parse_addr ip ≡ some a
      → unmap a ≡ v4 n
      → find4 netip t ip ≡ longest (value_at t) (bits 32 n 32)
  unfolding find4
  find4-longest netip ip a n e h =
      rw (e, find4) (ap (λ (x : Addr). find_in t (bits4 x)) h ∙ find_in-longest (bits 32 n 32))

  -- For a text that reads as an IPv6 address, `Find` gives the value of the longest prefix of its bits
  -- that has one.
  pub find6-longest :
      (netip : Netip)
      → (ip : Bytes) → (a : Addr) → (n : ℕ) → netip.parse_addr ip ≡ some a
      → unmap a ≡ v6 n
      → find6 netip t ip ≡ longest (value_at t) (bits 128 n 128)
  unfolding find6
  find6-longest netip ip a n e h =
      rw (e, find6) (ap (λ (x : Addr). find_in t (bits6 x)) h ∙ find_in-longest (bits 128 n 128))

module _ {V : Type 0} (netip : Netip) where
  -- For a text that reads as the prefix of `len` bits of the address `n`, `Insert` succeeds; of the
  -- prefixes of that length, those of an address in the same network get the new value, and the
  -- others keep theirs.
  pub insert4-network :
      (s : Bytes) (n len a : ℕ) (v : V) (t : Trie V)
      → same s (codes "*") ≡ false
      → parse4 netip s ≡ some (n, len)
      → n < 2 ^ 32
      → len ≤ 32
      → a < 2 ^ 32
      → (t' : Trie V) × (insert4 netip s v t ≡ some t')
        × (value_at t' (bits 32 a len) ≡ (
            if n / 2 ^ (32 - len) == a / 2 ^ (32 - len)
            then some v
            else value_at t (bits 32 a len)))
  unfolding insert4
  insert4-network s n len a v t star p hn hl ha =
      let net = same_bits_iff 32 n a len hn ha hl in
      (
        insert_bits (bits 32 n len) v t,
        rw (star, p, insert4),
        value_at-insert (bits 32 n len) (bits 32 a len) v t
            ∙ ap (λ (b : Bool). if b then some v else value_at t (bits 32 a len))
                (by_iff (same_bits (bits 32 n len) (bits 32 a len)) (n / 2 ^ (32 - len))
                  (a / 2 ^ (32 - len)) net),
      )
    where
      by_iff : (b : Bool) (x y : ℕ) → (b ≡ true) ↔ (x ≡ y) → b ≡ (x == y)
      by_iff true x y h = let e : x ≡ y = h.0 refl in ground arith
      by_iff false x y h = elim (Bool-cases (x == y)) [
        | inl t ↦ h.1 (((==_iff x y).0) t) ∙ sym t
        | inr t ↦ sym t
      ]
