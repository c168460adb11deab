-- ===== src/Transform/Bits.antt =====
-- The bits of a transformed address.
use Prim.Native.Nat.{bit_and, bit_or}
use lumine_for_android.Prelude.{
  Bytes, ℕ, zero, suc, ◌+◌, ◌-◌, ◌*◌, ◌/◌, ◌%◌, ◌^◌, ◌<◌, ◌≡◌, refl, sym, ap, ◌∙◌, inl, inr, Bool,
  true, false, ◌&&◌, List, [], ◌∷◌, ◌++◌, arith, leb, ◌==◌, if◌then◌else◌, ==_iff, Bool-cases,
  length, take, drop, All,
}
use lumine_for_android.Transform.{mixed, transform_bytes, bytes_of, masked, transformed}

-- the test of every number under a bound, the largest first
every : (ℕ → Bool) → ℕ → Bool
every test zero = true
every test (suc bound) = let rest = every test bound in if test bound then rest else false

every_sound :
    (test : ℕ → Bool) (bound : ℕ) → every test bound ≡ true → (x : ℕ) → x < bound → test x ≡ true
unfolding every
every_sound test zero e x lt = absurd (omega arith)
every_sound test (suc bound) e x lt = elim (Bool-cases (x == bound)) [
  | inl same_number ↦
      ap test ((==_iff x bound).0 same_number) ∙ (first_branch (test bound) (every test bound) e).0
  | inr smaller ↦
      every_sound test bound (first_branch (test bound) (every test bound) e).1 x (ground arith)
]
  where
    first_branch : (b c : Bool) → (if b then c else false) ≡ true → (b ≡ true) × (c ≡ true)
    first_branch b c h = ground arith

-- the mask of the high `m` bits of a byte
abbrev mask : ℕ → ℕ
mask m = 0xFF * 2 ^ (8 - m) % 256

-- For a mask of `m` bits, what the three operations of the loop do to a byte.
abbrev splits : ℕ → ℕ → Bool
splits m x =
    (bit_and x (mask m) == x / 2 ^ (8 - m) * 2 ^ (8 - m))
    && (bit_and x (0xFF - mask m) == x % 2 ^ (8 - m))
    && (bit_or (x / 2 ^ (8 - m) * 2 ^ (8 - m)) (x % 2 ^ (8 - m)) == x)

abbrev table : ℕ → Bool
table m = every (splits m) 256

table_holds : every table 8 ≡ true
unfolding every
table_holds = refl

all_three : (a b c : Bool) → (a && b && c) ≡ true → (a ≡ true) × (b ≡ true) × (c ≡ true)
all_three a b c h = ground arith

splits-facts :
    (m x : ℕ)
    → m < 8
    → x < 256
    → (bit_and x (mask m) ≡ x / 2 ^ (8 - m) * 2 ^ (8 - m))
      × (bit_and x (0xFF - mask m) ≡ x % 2 ^ (8 - m))
      × (bit_or (x / 2 ^ (8 - m) * 2 ^ (8 - m)) (x % 2 ^ (8 - m)) ≡ x)
splits-facts m x h k =
    let t : splits m x ≡ true =
      every_sound (splits m) 256 (every_sound table 8 table_holds m h) x k in
    let (a, b, c) = all_three _ _ _ t in ((==_iff _ _).0 a, (==_iff _ _).0 b, (==_iff _ _).0 c)

-- the bits of a byte, the highest first
pub bits8 : ℕ → List ℕ
bits8 b =
    b / 128 % 2
    ∷ b / 64 % 2
    ∷ b / 32 % 2
    ∷ b / 16 % 2
    ∷ b / 8 % 2
    ∷ b / 4 % 2
    ∷ b / 2 % 2
    ∷ b % 2
    ∷ []

cong8 :
    {a b c d e f g h a' b' c' d' e' f' g' h' : ℕ}
    → (a ≡ a') × (b ≡ b') × (c ≡ c') × (d ≡ d') × (e ≡ e') × (f ≡ f') × (g ≡ g') × (h ≡ h')
    → (a ∷ b ∷ c ∷ d ∷ e ∷ f ∷ g ∷ h ∷ []) ≡ (a' ∷ b' ∷ c' ∷ d' ∷ e' ∷ f' ∷ g' ∷ h' ∷ [])
cong8 (a, b, c, d, e, f, g, h) = λ i. a i ∷ b i ∷ c i ∷ d i ∷ e i ∷ f i ∷ g i ∷ h i ∷ []

-- the byte with the high `m` bits of `y` and the low bits of `x`
abbrev blend : ℕ → ℕ → ℕ → ℕ
blend m x y = y / 2 ^ (8 - m) * 2 ^ (8 - m) + x % 2 ^ (8 - m)

mixed-blend :
    (m x y : ℕ)
    → m < 8
    → x < 256
    → y < 256
    → blend m x y < 256
    → blend m x y / 2 ^ (8 - m) * 2 ^ (8 - m) ≡ y / 2 ^ (8 - m) * 2 ^ (8 - m)
    → blend m x y % 2 ^ (8 - m) ≡ x % 2 ^ (8 - m)
    → mixed m x y ≡ blend m x y
unfolding mixed
mixed-blend m x y hm hx hy hb high low =
    let (keep, _, _) = splits-facts m y hm hy in
    let (_, cut, _) = splits-facts m x hm hx in
    let (_, _, join) = splits-facts m (blend m x y) hm hb in
    ap (λ (t : ℕ). bit_or t (bit_and x (0xFF - mask m))) (keep ∙ sym high)
    ∙ ap (bit_or (blend m x y / 2 ^ (8 - m) * 2 ^ (8 - m))) (cut ∙ sym low)
    ∙ join

mixed_bits :
    (m x y : ℕ)
    → 0 < m
    → m < 8
    → x < 256
    → y < 256
    → bits8 (mixed m x y) ≡ take m (bits8 y) ++ drop m (bits8 x)
unfolding bits8
mixed_bits zero x y p h hx hy = absurd (omega arith)
mixed_bits (suc zero) x y p h hx hy =
    ap bits8 (mixed-blend 1 x y h hx hy (omega arith) (omega arith) (omega arith))
    ∙ cong8 (ground arith)
mixed_bits (suc (suc zero)) x y p h hx hy =
    ap bits8 (mixed-blend 2 x y h hx hy (omega arith) (omega arith) (omega arith))
    ∙ cong8 (ground arith)
mixed_bits (suc (suc (suc zero))) x y p h hx hy =
    ap bits8 (mixed-blend 3 x y h hx hy (omega arith) (omega arith) (omega arith))
    ∙ cong8 (ground arith)
mixed_bits (suc (suc (suc (suc zero)))) x y p h hx hy =
    ap bits8 (mixed-blend 4 x y h hx hy (omega arith) (omega arith) (omega arith))
    ∙ cong8 (ground arith)
mixed_bits (suc (suc (suc (suc (suc zero))))) x y p h hx hy =
    ap bits8 (mixed-blend 5 x y h hx hy (omega arith) (omega arith) (omega arith))
    ∙ cong8 (ground arith)
mixed_bits (suc (suc (suc (suc (suc (suc zero)))))) x y p h hx hy =
    ap bits8 (mixed-blend 6 x y h hx hy (omega arith) (omega arith) (omega arith))
    ∙ cong8 (ground arith)
mixed_bits (suc (suc (suc (suc (suc (suc (suc zero))))))) x y p h hx hy =
    ap bits8 (mixed-blend 7 x y h hx hy (omega arith) (omega arith) (omega arith))
    ∙ cong8 (ground arith)
mixed_bits (suc (suc (suc (suc (suc (suc (suc (suc m)))))))) x y p h hx hy = absurd (omega arith)

-- the bits of a list of bytes, the first first
pub bits_of : Bytes → List ℕ
bits_of [] = []
bits_of (b ∷ bs) = bits8 b ++ bits_of bs

-- what both address parts make of the rest, where the prefix has `n` more bits
abbrev spliced : ℕ → List ℕ → List ℕ → List ℕ
spliced n xs ys = take n ys ++ drop n xs

abbrev eight_more : ℕ → ℕ
eight_more n = suc (suc (suc (suc (suc (suc (suc (suc n)))))))

spliced-eight :
    (n x y : ℕ) (xs ys : List ℕ)
    → bits8 y ++ spliced n xs ys ≡ spliced (eight_more n) (bits8 x ++ xs) (bits8 y ++ ys)
unfolding bits8
spliced-eight n x y xs ys = refl

spliced-part :
    (m x y : ℕ) (xs ys : List ℕ)
    → m < 8
    → (take m (bits8 y) ++ drop m (bits8 x)) ++ xs ≡ spliced m (bits8 x ++ xs) (bits8 y ++ ys)
unfolding bits8
spliced-part zero x y xs ys h = refl
spliced-part (suc zero) x y xs ys h = refl
spliced-part (suc (suc zero)) x y xs ys h = refl
spliced-part (suc (suc (suc zero))) x y xs ys h = refl
spliced-part (suc (suc (suc (suc zero)))) x y xs ys h = refl
spliced-part (suc (suc (suc (suc (suc zero))))) x y xs ys h = refl
spliced-part (suc (suc (suc (suc (suc (suc zero)))))) x y xs ys h = refl
spliced-part (suc (suc (suc (suc (suc (suc (suc zero))))))) x y xs ys h = refl
spliced-part (suc (suc (suc (suc (suc (suc (suc (suc m)))))))) x y xs ys h = absurd (omega arith)

-- The loop, from the bit `start` on, over bytes of the same number.
pub transform_bytes-bits :
    (len start : ℕ) (xs ys : Bytes)
    → length xs ≡ length ys
    → All (λ b. b < 256) xs
    → All (λ b. b < 256) ys
    → bits_of (transform_bytes len start xs ys) ≡ spliced (len - start) (bits_of xs) (bits_of ys)
unfolding transform_bytes bits_of
transform_bytes-bits len start [] [] e hx hy = spliced_nil (len - start)
  where
    spliced_nil : (n : ℕ) → [] ≡ spliced n [] []
    spliced_nil zero = refl
    spliced_nil (suc n) = refl
transform_bytes-bits len start [] (y ∷ ys) e hx hy = absurd (omega arith)
transform_bytes-bits len start (x ∷ xs) [] e hx hy = absurd (omega arith)
transform_bytes-bits len start (x ∷ xs) (y ∷ ys) e hx hy =
    let ih = transform_bytes-bits len (start + 8) xs ys (omega arith) hx.1 hy.1 in
    elim (Bool-cases (leb (start + 8) len)) [
      | inl t ↦
          let n : len - start ≡ eight_more (len - (start + 8)) = ground arith in
          rw (t, n)
            (ap (◌++◌ (bits8 y)) ih
              ∙ spliced-eight (len - (start + 8)) x y (bits_of xs) (bits_of ys))
      | inr t ↦
          let z : len - (start + 8) ≡ 0 = ground arith in
          let ih' : bits_of (transform_bytes len (start + 8) xs ys) ≡ bits_of xs =
            ih ∙ ap (λ (n : ℕ). spliced n (bits_of xs) (bits_of ys)) z in
          elim (Bool-cases (leb len start)) [
            | inl u ↦
                let n : len - start ≡ 0 = ground arith in rw (t, u, n) (ap (◌++◌ (bits8 x)) ih')
            | inr u ↦
                let small : len - start < 8 = ground arith in
                rw (t, u)
                  (ap (◌++◌ (bits8 (mixed (len - start) x y))) ih'
                    ∙ ap (λ (b : List ℕ). b ++ bits_of xs)
                        (mixed_bits (len - start) x y (ground arith) small hx.0 hy.0)
                    ∙ spliced-part (len - start) x y (bits_of xs) (bits_of ys) small)
          ]
    ]

bytes_of-bounded : (w n : ℕ) → All (λ b. b < 256) (bytes_of w n)
unfolding bytes_of
bytes_of-bounded zero n = tt
bytes_of-bounded (suc w) n = (omega arith, bytes_of-bounded w n)

length-bytes_of : (w n : ℕ) → length (bytes_of w n) ≡ w
unfolding bytes_of
length-bytes_of zero n = refl
length-bytes_of (suc w) n = ap suc (length-bytes_of w n)

-- The address that `transformIP` makes, of `w` bytes, has the first `len` bits of the network's
-- address and behind them the bits of the address that was given.
pub transformed-bits :
    (w ip net len : ℕ)
    → bits_of (transformed w ip net len)
      ≡ take len (bits_of (bytes_of w (masked (8 * w) net len)))
        ++ drop len (bits_of (bytes_of w ip))
transformed-bits w ip net len =
    let ys = bytes_of w (masked (8 * w) net len) in
    let xs = bytes_of w ip in
    let z : len - 0 ≡ len = omega arith in
    transform_bytes-bits len 0 xs ys (length-bytes_of w ip ∙ sym (length-bytes_of w _))
      (bytes_of-bounded w ip) (bytes_of-bounded w _)
    ∙ ap (λ (n : ℕ). spliced n (bits_of xs) (bits_of ys)) z
