-- ===== src/Pool/Get.antt =====
-- `Get` of a ready pool returns, and keeps the pool ready.
use native.Mathlib.Nat.{mod-lt}
use lumine_for_android.Prelude.{
  Bytes, ℕ, zero, suc, ◌+◌, ◌%◌, ◌^◌, ◌≤◌, ◌<◌, ◌≡◌, refl, sym, subst, ◌⊎◌, inl, inr, true, false,
  some, List, [], ◌∷◌, arith, ltb, leb, ◌==◌, Bool-cases, length, get_elem?, take, length-take, All,
  Outcome, or_panic, Returns, Returns-map,
}
use lumine_for_android.Pool.{IpPool, min_weight, max_weight, PoolError, choose, choose_best, get}
use lumine_for_android.Pool.Slots.{sum}
use lumine_for_android.Pool.Ready.{IsReady}

-- what `choose_best` is of a ready pool that serves an address
abbrev pub chosen : IpPool → ℕ → Outcome PoolError Bytes
chosen p t =
    choose p.ips p.fallback_ip t 0 (take p.cur_valid_ips p.best_weights)
      (take p.cur_valid_ips p.best_indexes)

pub choose_best-ready :
    (p : IpPool) (c : ℕ)
    → IsReady p
    → 0 < p.total_weight
    → choose_best c p ≡ chosen p (c % p.total_weight)
unfolding choose_best
choose_best-ready p c r h =
    let a : leb p.cur_valid_ips (length p.best_indexes) ≡ true =
      ground (arith, r.valid_slots, r.index_slots) in
    let b : leb p.cur_valid_ips (length p.best_weights) ≡ true =
      ground (arith, r.valid_slots, r.weight_slots) in
    let z : (p.total_weight == 0) ≡ false = ground arith in rw (a, b, z)

sum_pos : (ws : List ℕ) → All (λ w. (min_weight ≤ w) × (w ≤ max_weight)) ws → length ws ≤ sum ws
unfolding sum
sum_pos [] h = omega arith
sum_pos (w ∷ ws) h = omega (arith, sum_pos ws h.1, h.0.0)

pub served_pos : (p : IpPool) → IsReady p → 0 < p.cur_valid_ips → 0 < p.total_weight
served_pos p r h = omega (
  arith,
  sum_pos (take p.cur_valid_ips p.best_weights) r.weights_range,
  length-take p.cur_valid_ips p.best_weights,
  r.total_sum,
  r.valid_slots,
  r.weight_slots,
)

get_elem?-bound :
    (xs : List Bytes) (i : ℕ) → i < length xs → (x : Bytes) × (get_elem? xs i ≡ some x)
get_elem?-bound [] i h = absurd (omega arith)
get_elem?-bound (x ∷ xs) zero h = (x, refl)
get_elem?-bound (x ∷ xs) (suc i) h = get_elem?-bound xs i (omega arith)

-- `ip` is an address of the list.
pub IsIn : List Bytes → Bytes → Type 0
IsIn ips ip = (i : ℕ) × (get_elem? ips i ≡ some ip)

at_index :
    (ips : List Bytes) (i : ℕ)
    → i < length ips
    → Returns {E = PoolError} (IsIn ips) (or_panic (get_elem? ips i))
unfolding IsIn
at_index ips i h = let (x, e) = get_elem?-bound ips i h in rw e (i, e)

choose-IsIn :
    (ips : List Bytes) (fallback : Bytes) (t acc : ℕ) (ws is : List ℕ)
    → length ws ≤ length is
    → All (λ i. i < length ips) is
    → t < acc + sum ws
    → acc ≤ t
    → Returns (IsIn ips) (choose ips fallback t acc ws is)
unfolding choose sum
choose-IsIn ips fallback t acc [] is n a h k = absurd (omega arith)
choose-IsIn ips fallback t acc (w ∷ ws) [] n a h k = absurd (omega arith)
choose-IsIn ips fallback t acc (w ∷ ws) (i ∷ is) n a h k = elim (Bool-cases (ltb t (acc + w))) [
  | inl e ↦ rw (e, choose) (at_index ips i a.0)
  | inr e ↦
      rw (e, choose)
        (choose-IsIn ips fallback t (acc + w) ws is (omega arith) a.1 (omega arith) (ground arith))
]

choose_best-Returns :
    (p : IpPool) (c : ℕ) → IsReady p → 0 < p.total_weight → Returns (IsIn p.ips) (choose_best c p)
choose_best-Returns p c r h =
    subst (λ o. Returns (IsIn p.ips) o) (sym (choose_best-ready p c r h))
      (choose-IsIn p.ips p.fallback_ip (c % p.total_weight) 0 (take p.cur_valid_ips p.best_weights)
        (take p.cur_valid_ips p.best_indexes)
        (omega (
          arith,
          length-take p.cur_valid_ips p.best_weights,
          length-take p.cur_valid_ips p.best_indexes,
          r.index_slots,
          r.weight_slots,
        ))
        r.indexes_range (omega (arith, r.total_sum, mod-lt c h)) (omega arith))

counted-IsReady : (p : IpPool) (c : ℕ) → IsReady p → IsReady (record p { counter = c })
counted-IsReady p c r = record {
  valid_slots = r.valid_slots;
  total_sum = r.total_sum;
  weights_range = r.weights_range;
  indexes_range = r.indexes_range;
  index_slots = r.index_slots;
  weight_slots = r.weight_slots;
}

-- `Get` of a ready pool returns: an address of the pool if it serves one, and the fallback address if
-- it does not. The index into the slots, the index into the addresses and the remainder by the total
-- weight are never out of range or by zero, and the pool stays ready.
pub get-Returns :
    (p : IpPool)
    → IsReady p
    → Returns
        (λ ip. (p.cur_valid_ips ≡ 0) × (ip ≡ p.fallback_ip) ⊎ (0 < p.cur_valid_ips) × IsIn p.ips ip)
        (get p).0
      × IsReady (get p).1
unfolding get
get-Returns p r = elim (Bool-cases (p.cur_valid_ips == 0)) [
  | inl e ↦ rw e (inl (ground arith, refl), r)
  | inr e ↦ rw e (
    Returns-map (IsIn p.ips) _ (choose_best p.counter p) (λ ip h. inr (ground arith, h))
        (choose_best-Returns p p.counter r (served_pos p r (ground arith))),
    counted-IsReady p ((p.counter + 1) % 2 ^ 32) r,
  )
]
