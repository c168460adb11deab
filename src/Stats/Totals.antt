-- ===== src/Stats/Totals.antt =====
-- What the statistics of a session show after any calls that count, in any order.
use mathlib.Core.List.{Permᴰ}
use lumine_for_android.Prelude.{
  ℕ, zero, suc, ◌+◌, ◌%◌, ◌^◌, ◌≡◌, refl, ◌∙◌, List, [], ◌∷◌, arith, ℤ, pos, negsuc,
}
use lumine_for_android.Stats.{
  SessionStats, add64, Counting, read, wrote, conn_blocked, tcp_opened, udp_opened, count,
  reset_stats, count_all,
}

abbrev positive_part : ℤ → ℕ
positive_part (pos n) = n
positive_part (negsuc n) = 0

-- what a call adds to each of the five numbers
abbrev received : Counting → ℕ
received (read n) = positive_part n
received _ = 0

abbrev transmitted : Counting → ℕ
transmitted (wrote n) = positive_part n
transmitted _ = 0

abbrev blocks : Counting → ℕ
blocks conn_blocked = 1
blocks _ = 0

abbrev opens_tcp : Counting → ℕ
opens_tcp tcp_opened = 1
opens_tcp _ = 0

abbrev opens_udp : Counting → ℕ
opens_udp udp_opened = 1
opens_udp _ = 0

abbrev sum_of : (Counting → ℕ) → List Counting → ℕ
sum_of f [] = 0
sum_of f (e ∷ es) = f e + sum_of f es

sum_of-Permᴰ :
    (f : Counting → ℕ) {es es' : List Counting} → Permᴰ es es' → sum_of f es ≡ sum_of f es'
sum_of-Permᴰ f Permᴰ.nil = refl
sum_of-Permᴰ f (Permᴰ.cons h p) = rw (h, sum_of-Permᴰ f p)
sum_of-Permᴰ f (Permᴰ.swap h k) = rw (h, k) omega arith
sum_of-Permᴰ f (Permᴰ.trans p q) = sum_of-Permᴰ f p ∙ sum_of-Permᴰ f q

-- the statistics with these numbers, as far as 64 bits hold them
abbrev pub holding : ℕ → ℕ → ℕ → ℕ → ℕ → ℤ → SessionStats
holding a b c d e t = record {
  down = a % 2 ^ 64;
  up = b % 2 ^ 64;
  blocked = c % 2 ^ 64;
  tcp_conns = d % 2 ^ 64;
  udp_conns = e % 2 ^ 64;
  started = t;
}

add64-mod : (a n : ℕ) → add64 (a % 2 ^ 64) n ≡ (a + n) % 2 ^ 64
add64-mod a n = omega arith

add_assoc : (a b c : ℕ) → a + b + c ≡ a + (b + c)
add_assoc a b c = omega arith

zero_add : (a : ℕ) → 0 + a ≡ a
zero_add a = omega arith

add_zero : (a : ℕ) → a + 0 ≡ a
add_zero a = omega arith

count-holding :
    (x : Counting) (a b c d e : ℕ) (t : ℤ)
    → count x (holding a b c d e t)
      ≡ holding
          (a + received x)
          (b + transmitted x)
          (c + blocks x)
          (d + opens_tcp x)
          (e + opens_udp x)
          t
unfolding count
count-holding (read (pos zero)) a b c d e t = simp (add_zero)
count-holding (read (pos (suc n))) a b c d e t = simp (add_zero, add64-mod)
count-holding (read (negsuc n)) a b c d e t = simp (add_zero)
count-holding (wrote (pos zero)) a b c d e t = simp (add_zero)
count-holding (wrote (pos (suc n))) a b c d e t = simp (add_zero, add64-mod)
count-holding (wrote (negsuc n)) a b c d e t = simp (add_zero)
count-holding conn_blocked a b c d e t = simp (add_zero, add64-mod)
count-holding tcp_opened a b c d e t = simp (add_zero, add64-mod)
count-holding udp_opened a b c d e t = simp (add_zero, add64-mod)

count_all-holding :
    (xs : List Counting) (a b c d e : ℕ) (t : ℤ)
    → count_all xs (holding a b c d e t)
      ≡ holding
          (a + sum_of received xs)
          (b + sum_of transmitted xs)
          (c + sum_of blocks xs)
          (d + sum_of opens_tcp xs)
          (e + sum_of opens_udp xs)
          t
unfolding count_all
count_all-holding [] a b c d e t = simp (add_zero)
count_all-holding (x ∷ xs) a b c d e t =
    rw (count-holding x a b c d e t, count_all-holding xs) simp (add_assoc)

-- The statistics that the calls `xs` make after a start at `now`.
abbrev pub totals : List Counting → ℤ → SessionStats
totals xs now =
    holding (sum_of received xs) (sum_of transmitted xs) (sum_of blocks xs) (sum_of opens_tcp xs)
      (sum_of opens_udp xs) now

-- After `ResetStats`, with the calls `xs` in any order `ys`, the statistics hold the positive
-- numbers of bytes received and sent, the connections blocked, and the TCP and UDP connections
-- opened, each summed over `xs` and taken modulo 2 ^ 64, and the time of the start.
pub count_all-totals :
    (xs ys : List Counting) (now : ℤ) (s : SessionStats)
    → Permᴰ ys xs
    → count_all ys (reset_stats now s) ≡ totals xs now
count_all-totals xs ys now s p =
    rw
      (
        count_all-holding ys 0 0 0 0 0 now,
        sum_of-Permᴰ received p,
        sum_of-Permᴰ transmitted p,
        sum_of-Permᴰ blocks p,
        sum_of-Permᴰ opens_tcp p,
        sum_of-Permᴰ opens_udp p,
      )
      simp (zero_add)
