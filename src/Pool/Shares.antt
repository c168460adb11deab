-- ===== src/Pool/Shares.antt =====
-- How often `Get` gives each address: over a full round of its counter, as often as its weight says.
use native.Mathlib.Nat.{suc-mul}
use native.Mathlib.Nat.{add-mod_right, mod-eq_of_lt, suc-mul}
use lumine_for_android.Pool.Get.{chosen, choose_best-ready, served_pos}
use lumine_for_android.Prelude.{
  Bytes, same, ℕ, zero, suc, ◌+◌, ◌*◌, ◌%◌, ◌^◌, ◌≤◌, ◌<◌, ◌≡◌, refl, ap, ◌∙◌, false, List, [], ◌∷◌,
  arith, ltb, ◌==◌, if◌then◌else◌, lt→ltb, length, get_elem?, take, length-take, Outcome, or_panic,
  ok, err, panic, out_of_fuel,
}
use lumine_for_android.Pool.{IpPool, PoolError, choose, choose_best, get}
use lumine_for_android.Pool.Slots.{sum}
use lumine_for_android.Pool.Ready.{IsReady}

-- g c + g (c + 1) + …, `n` terms
sum_from : (ℕ → ℕ) → ℕ → ℕ → ℕ
sum_from g c zero = 0
sum_from g c (suc n) = g c + sum_from g (suc c) n

sum_from-append :
    (g : ℕ → ℕ) (c m n : ℕ) → sum_from g c (m + n) ≡ sum_from g c m + sum_from g (c + m) n
unfolding sum_from
sum_from-append g c zero n =
    let a : 0 + n ≡ n = omega arith in
    let b : c + 0 ≡ c = omega arith in
    omega (arith, ap (λ (k : ℕ). sum_from g c k) a, ap (λ (d : ℕ). sum_from g d n) b)
sum_from-append g c (suc m) n =
    let a : suc m + n ≡ suc (m + n) = omega arith in
    let b : c + suc m ≡ suc c + m = omega arith in
    omega (
      arith,
      ap (λ (k : ℕ). sum_from g c k) a,
      ap (λ (d : ℕ). sum_from g d n) b,
      sum_from-append g (suc c) m n,
    )

sum_from-congr :
    (g h : ℕ → ℕ) (c n : ℕ)
    → ((t : ℕ) → c ≤ t → t < c + n → g t ≡ h t)
    → sum_from g c n ≡ sum_from h c n
unfolding sum_from
sum_from-congr g h c zero e = refl
sum_from-congr g h c (suc n) e = omega (
  arith,
  e c (omega arith) (omega arith),
  sum_from-congr g h (suc c) n (λ t p q. e t (omega arith) (omega arith)),
)

sum_from-const : (k c n : ℕ) → sum_from (λ t. k) c n ≡ n * k
unfolding sum_from
sum_from-const k c zero = omega arith
sum_from-const k c (suc n) = omega (arith, sum_from-const k (suc c) n, suc-mul n k)

-- A full period has the same sum wherever it begins.
sum_from-period :
    (g : ℕ → ℕ) (n : ℕ) → ((t : ℕ) → g (t + n) ≡ g t) → (c : ℕ) → sum_from g c n ≡ sum_from g 0 n
unfolding sum_from
sum_from-period g n e zero = refl
sum_from-period g n e (suc c) =
    let a : n + 1 ≡ suc n = omega arith in
    omega (
      arith,
      ap (λ (k : ℕ). sum_from g c k) a,
      sum_from-append g c n 1,
      e c,
      sum_from-period g n e c,
    )

-- 1 for the address `ip`, and 0 for another or none
pub is_ip : Bytes → Outcome PoolError Bytes → ℕ
is_ip ip (ok x) = if same x ip then 1 else 0
is_ip ip (err e) = 0
is_ip ip panic = 0
is_ip ip out_of_fuel = 0

-- how often `ip` is what `Get` gives, in `n` calls one after another
pub hits : Bytes → ℕ → IpPool → ℕ
hits ip zero p = 0
hits ip (suc n) p = is_ip ip (get p).0 + hits ip n (get p).1

-- the weights of the slots that name the address `ip`, added up
pub share : Bytes → List Bytes → List ℕ → List ℕ → ℕ
share ip ips [] is = 0
share ip ips (w ∷ ws) [] = 0
share ip ips (w ∷ ws) (i ∷ is) = w * is_ip ip (or_panic (get_elem? ips i)) + share ip ips ws is

module _ (ip : Bytes) (ips : List Bytes) (fallback : Bytes) where
  choose-hit :
      (t acc w i : ℕ) (ws is : List ℕ)
      → t < acc + w
      → choose ips fallback t acc (w ∷ ws) (i ∷ is) ≡ or_panic (get_elem? ips i)
  unfolding choose
  choose-hit t acc w i ws is h = rw (lt→ltb t (acc + w) h, choose)

  choose-miss :
      (t acc w i : ℕ) (ws is : List ℕ)
      → acc + w ≤ t
      → choose ips fallback t acc (w ∷ ws) (i ∷ is) ≡ choose ips fallback t (acc + w) ws is
  unfolding choose
  choose-miss t acc w i ws is h = let e : ltb t (acc + w) ≡ false = ground arith in rw (e, choose)

  sum_from-choose :
      (acc : ℕ) (ws is : List ℕ)
      → length ws ≤ length is
      → sum_from (λ t. is_ip ip (choose ips fallback t acc ws is)) acc (sum ws) ≡ share ip ips ws is
  unfolding share sum_from sum
  sum_from-choose acc [] is h = refl
  sum_from-choose acc (w ∷ ws) [] h = absurd (omega arith)
  sum_from-choose acc (w ∷ ws) (i ∷ is) h =
      let g : ℕ → ℕ = λ t. is_ip ip (choose ips fallback t acc (w ∷ ws) (i ∷ is)) in
      let one : ℕ = is_ip ip (or_panic (get_elem? ips i)) in
      let rest : ℕ → ℕ = λ t. is_ip ip (choose ips fallback t (acc + w) ws is) in
      sum_from-append g acc w (sum ws)
      ∙ ap (λ (x : ℕ). x + sum_from g (acc + w) (sum ws))
          (sum_from-congr g (λ t. one) acc w (λ t p q. ap (is_ip ip) (choose-hit t acc w i ws is q))
            ∙ sum_from-const one acc w)
      ∙ ap (λ (x : ℕ). w * one + x)
          (sum_from-congr g rest (acc + w) (sum ws)
              (λ t p q. ap (is_ip ip) (choose-miss t acc w i ws is p))
            ∙ sum_from-choose (acc + w) ws is (omega arith))

hits-sum_from :
    (ip : Bytes) (p : IpPool) (n c : ℕ)
    → (p.cur_valid_ips == 0) ≡ false
    → c + n < 2 ^ 32
    → hits ip n (record p { counter = c }) ≡ sum_from (λ d. is_ip ip (choose_best d p)) c n
unfolding hits sum_from get is_ip choose_best
hits-sum_from ip p zero c v h = refl
hits-sum_from ip p (suc n) c v h =
    let m : (c + 1) % 2 ^ 32 ≡ suc c = omega arith in
    rw v (
      omega (
        arith,
        ap (λ (d : ℕ). hits ip n (record p { counter = d })) m,
        hits-sum_from ip p n (suc c) v (omega arith),
      ))

-- Over as many calls of `Get` as the total weight says, each address is given exactly as often as the
-- weights of the slots that name it add up to, wherever the counter stands, if the pool is ready and
-- serves an address and the counter does not wrap meanwhile.
pub hits-share :
    (ip : Bytes) (p : IpPool)
    → IsReady p
    → 0 < p.cur_valid_ips
    → p.counter + p.total_weight < 2 ^ 32
    → hits ip p.total_weight p
      ≡ share ip p.ips (take p.cur_valid_ips p.best_weights) (take p.cur_valid_ips p.best_indexes)
hits-share ip p r h c =
    let n = p.total_weight in
    let ws = take p.cur_valid_ips p.best_weights in
    let is = take p.cur_valid_ips p.best_indexes in
    let g : ℕ → ℕ = λ t. is_ip ip (chosen p t) in
    let pos_total : 0 < n = served_pos p r h in
    let fits : length ws ≤ length is = omega (
      arith,
      length-take p.cur_valid_ips p.best_weights,
      length-take p.cur_valid_ips p.best_indexes,
      r.index_slots,
      r.weight_slots,
    ) in
    hits-sum_from ip p n p.counter (ground arith) c
    ∙ sum_from-congr (λ d. is_ip ip (choose_best d p)) (λ d. g (d % n)) p.counter n
        (λ t _ _. ap (is_ip ip) (choose_best-ready p t r pos_total))
    ∙ sum_from-period (λ d. g (d % n)) n (λ t. ap g (add-mod_right t n)) p.counter
    ∙ sum_from-congr (λ d. g (d % n)) g 0 n (λ t _ q. ap g (mod-eq_of_lt (omega arith)))
    ∙ ap (sum_from g 0) r.total_sum
    ∙ sum_from-choose ip p.ips p.fallback_ip 0 ws is fits
