-- ===== src/Pool/Ready.antt =====
-- A pool is ready: its weights are in range, their sum is the total, and its slots name addresses.
use lumine_for_android.Prelude.{
  Bytes, ℕ, zero, suc, ◌≤◌, ◌<◌, ◌≡◌, sym, ap, ◌∙◌, subst, inl, inr, Bool, true, false, List, [],
  ◌∷◌, map, arith, Bool-cases, length, take, length-take, All,
}
use lumine_for_android.Pool.{
  IpPool, Float64, min_weight, max_weight, IpResult, less, insert_result, sort_results, clamp,
  quotient, weight, update_best,
}
use lumine_for_android.Pool.Slots.{
  Serves, sum, best, update_best-Serves, update_best-ips, update_best-top_ip_count,
}

pub record IsReady (p : IpPool) : Type 0 where
  pub valid_slots : p.cur_valid_ips ≤ p.top_ip_count
  pub total_sum : p.total_weight ≡ sum (take p.cur_valid_ips p.best_weights)
  pub weights_range :
      All (λ w. (min_weight ≤ w) × (w ≤ max_weight)) (take p.cur_valid_ips p.best_weights)
  pub indexes_range : All (λ i. i < length p.ips) (take p.cur_valid_ips p.best_indexes)
  pub index_slots : length p.best_indexes ≡ p.top_ip_count
  pub weight_slots : length p.best_weights ≡ p.top_ip_count

-- What the code relies on of `float64`: whole numbers up to the largest weight are exact, and the
-- conversion of a number, which is equal to itself as NaN is not, stays between two of them.
pub record IsFloat64 {W : Type 0} (f : Float64 W) : Type 0 where
  pub truncate-of_nat : (n : ℕ) → n ≤ max_weight → f.truncate (f.of_nat n) ≡ n
  pub truncate_between :
      (a b : ℕ) (w : W)
      → b ≤ max_weight
      → f.equal w w ≡ true
      → f.lt w (f.of_nat a) ≡ false
      → f.lt (f.of_nat b) w ≡ false
      → (a ≤ f.truncate w) × (f.truncate w ≤ b)

module _ {W : Type 0} (f : Float64 W) (law : IsFloat64 f) where
  -- a result of a scan of `n` addresses
  abbrev pub IsMeasured : ℕ → IpResult W → Type 0
  IsMeasured n r = (r.ip_index < n) × (f.equal (quotient f r) (quotient f r) ≡ true)

  truncate-clamp_range :
      (q : W)
      → f.equal q q ≡ true
      → (min_weight ≤ f.truncate (clamp f q)) × (f.truncate (clamp f q) ≤ max_weight)
  unfolding clamp
  truncate-clamp_range q h = elim (Bool-cases (f.lt q (f.of_nat min_weight))) [
    | inl t ↦ rw (t, clamp) (omega (arith, law.truncate-of_nat min_weight (omega arith)))
    | inr t ↦ elim (Bool-cases (f.lt (f.of_nat max_weight) q)) [
      | inl u ↦ rw (t, u, clamp) (omega (arith, law.truncate-of_nat max_weight (omega arith)))
      | inr u ↦ rw (t, u, clamp) (law.truncate_between min_weight max_weight q (omega arith) h t u)
    ]
  ]

  weight_range :
      (r : IpResult W)
      → f.equal (quotient f r) (quotient f r) ≡ true
      → (min_weight ≤ weight f r) × (weight f r ≤ max_weight)
  unfolding weight
  weight_range r h = truncate-clamp_range (quotient f r) h

  All-branch :
      (P : IpResult W → Type 0) (b : Bool) (xs ys : List (IpResult W))
      → All P xs
      → All P ys
      → All P (elim b [ true ↦ xs | false ↦ ys ])
  All-branch P true xs ys h k = h
  All-branch P false xs ys h k = k

  All-insert_result :
      (P : IpResult W → Type 0) (r : IpResult W) (rs : List (IpResult W))
      → P r
      → All P rs
      → All P (insert_result f r rs)
  unfolding insert_result
  All-insert_result P r [] h hs = (h, tt)
  All-insert_result P r (x ∷ xs) h hs =
      All-branch P (less f x r) (x ∷ insert_result f r xs) (r ∷ x ∷ xs)
        (hs.0, All-insert_result P r xs h hs.1) (h, hs)

  All-sort_results :
      (P : IpResult W → Type 0) (rs : List (IpResult W)) → All P rs → All P (sort_results f rs)
  unfolding sort_results
  All-sort_results P [] h = tt
  All-sort_results P (r ∷ rs) h =
      All-insert_result P r (sort_results f rs) h.0 (All-sort_results P rs h.1)

  All-take :
      (P : IpResult W → Type 0) (n : ℕ) (rs : List (IpResult W)) → All P rs → All P (take n rs)
  All-take P zero rs h = tt
  All-take P (suc n) [] h = tt
  All-take P (suc n) (r ∷ rs) h = (h.0, All-take P n rs h.1)

  All-image :
      (P : IpResult W → Type 0) (Q : ℕ → Type 0) (g : IpResult W → ℕ) (rs : List (IpResult W))
      → ((r : IpResult W) → P r → Q (g r))
      → All P rs
      → All Q (map g rs)
  All-image P Q g [] k h = tt
  All-image P Q g (r ∷ rs) k h = (k r h.0, All-image P Q g rs k h.1)

  Serves-IsReady :
      (rs : List (IpResult W)) (p : IpPool)
      → Serves f rs p
      → length rs ≤ p.top_ip_count
      → All (IsMeasured (length p.ips)) rs
      → IsReady p
  Serves-IsReady rs p s h m =
      let n = length p.ips in
      record {
        valid_slots = omega (arith, s.valid);
        total_sum = s.total ∙ ap sum (sym s.weights);
        weights_range =
            subst (All _) (sym s.weights)
              (All-image (IsMeasured n) _ (weight f) rs (λ r k. weight_range r k.1) m);
        indexes_range =
            subst (All _) (sym s.indexes)
              (All-image (IsMeasured n) _ (λ r. r.ip_index) rs (λ r k. k.0) m);
        index_slots = s.index_slots;
        weight_slots = s.weight_slots;
      }

  -- A scan leaves a pool ready that was ready, whatever its results are, if each of them is one of the
  -- addresses of the pool and has a weight that is not NaN, under the laws of `float64` named here: at
  -- most as many slots are served as the pool has, each weight is between the smallest and the
  -- largest, their sum is the total, and each slot names an address of the pool.
  pub update_best-IsReady :
      (results : List (IpResult W)) (p : IpPool)
      → All (IsMeasured (length p.ips)) results
      → IsReady p
      → IsReady (update_best f results p)
  unfolding update_best
  update_best-IsReady [] p m r = r
  update_best-IsReady (x ∷ xs) p m r =
      let rs = x ∷ xs in
      let top = update_best-top_ip_count f rs p in
      let same_ips = update_best-ips f rs p in
      Serves-IsReady (best f p rs) (update_best f rs p)
        (update_best-Serves f x xs p r.index_slots r.weight_slots)
        (omega (arith, length-take p.top_ip_count (sort_results f rs), top))
        (subst (λ (l : List Bytes). All (IsMeasured (length l)) (best f p rs)) (sym same_ips)
          (All-take (IsMeasured (length p.ips)) p.top_ip_count (sort_results f rs)
            (All-sort_results (IsMeasured (length p.ips)) rs m)))
