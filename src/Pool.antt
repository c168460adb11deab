-- ===== src/Pool.antt =====
-- `IPPool`: enimul/internal/core/ippool.go, less the dials of a scan and its goroutines. A scan gives
-- its results in the order in which they arrived. The arithmetic of `float64` is a parameter.
pub mod Slots
pub mod Ready
pub mod Get
pub mod Shares
use lumine_for_android.Prelude.{
  Bytes, same, Assoc, lookup, ℕ, zero, suc, ◌+◌, ◌-◌, ◌/◌, ◌%◌, ◌^◌, Bool, true, false, not, ◌&&◌,
  Option, none, some, List, [], ◌∷◌, ltb, leb, ◌==◌, if◌then◌else◌, length, get_elem?, set, take,
  Outcome, or_panic, ok, err, panic, out_of_fuel,
}

-- what the code does with a `float64`
pub record Float64 (W : Type 0) : Type 0 where
  pub of_nat : ℕ → W
  pub hundred_thousandth : W
  pub add : W → W → W
  pub sub : W → W → W
  pub mul : W → W → W
  pub div : W → W → W
  pub lt : W → W → Bool
  pub equal : W → W → Bool
  -- `int(x)`
  pub truncate : W → ℕ

-- `minWeight`, `maxWeight` and `weightScaleFactor`
abbrev pub min_weight : ℕ
min_weight = 1

abbrev pub max_weight : ℕ
max_weight = 10000

abbrev pub weight_scale_factor : ℕ
weight_scale_factor = 10000

-- The pool, less its locks and channels and the times that only `monitor` reads.
pub record IpPool : Type 0 where
  pub ips : List Bytes
  pub fallback_ip : Bytes
  pub top_ip_count : ℕ
  pub best_indexes : List ℕ
  pub best_weights : List ℕ
  pub total_weight : ℕ
  pub cur_valid_ips : ℕ
  pub counter : ℕ

-- `ipResult`, with the latency in nanoseconds
pub record IpResult (W : Type 0) : Type 0 where
  pub ip_index : ℕ
  pub latency : ℕ
  pub loss : W

-- the loop that clears the weights of the `n` slots from `i` on
unfoldable pub clear_weights : ℕ → ℕ → List ℕ → List ℕ
clear_weights zero i ws = ws
clear_weights (suc n) i ws = clear_weights n (suc i) (set ws i 0)

abbrev pub clear_rest : IpPool → IpPool
clear_rest p = record p {
  best_weights = clear_weights (p.top_ip_count - p.cur_valid_ips) p.cur_valid_ips p.best_weights;
}

module _ {W : Type 0} (f : Float64 W) where
  -- `testIP`, on what each attempt ended in: the time that a dial took, or its failure
  abbrev pub successes : List (Option ℕ) → ℕ
  successes [] = 0
  successes (some t ∷ ts) = suc (successes ts)
  successes (none ∷ ts) = successes ts

  abbrev pub total_latency : List (Option ℕ) → ℕ
  total_latency [] = 0
  total_latency (some t ∷ ts) = t + total_latency ts
  total_latency (none ∷ ts) = total_latency ts

  unfoldable pub test_ip : ℕ → List (Option ℕ) → IpResult W
  test_ip index attempts =
      let n = successes attempts in
      let loss_rate = f.sub (f.of_nat 1) (f.div (f.of_nat n) (f.of_nat (length attempts))) in
      if n == 0
      then record { ip_index = index; latency = 2 ^ 63 - 1; loss = loss_rate }
      else record { ip_index = index; latency = total_latency attempts / n; loss = loss_rate }

  -- the results that `scan` passes on
  unfoldable pub valid_results : List (IpResult W) → List (IpResult W)
  valid_results [] = []
  valid_results (r ∷ rs) =
      let rest = valid_results rs in if f.lt r.loss (f.of_nat 1) then r ∷ rest else rest

  -- the order of `updateBest`
  unfoldable pub less : IpResult W → IpResult W → Bool
  less a b = if not (f.equal a.loss b.loss) then f.lt a.loss b.loss else ltb a.latency b.latency

  -- `sort.SliceStable`, as the insertion sort that keeps equal results in their order
  unfoldable pub insert_result : IpResult W → List (IpResult W) → List (IpResult W)
  insert_result r [] = r ∷ []
  insert_result r (x ∷ xs) = elim (less x r) [ true ↦ x ∷ insert_result r xs | false ↦ r ∷ x ∷ xs ]

  unfoldable pub sort_results : List (IpResult W) → List (IpResult W)
  sort_results [] = []
  sort_results (r ∷ rs) = insert_result r (sort_results rs)

  -- the weight of a result, cut to the range of weights
  unfoldable pub clamp : W → W
  clamp w =
      if f.lt w (f.of_nat min_weight)
      then f.of_nat min_weight
      else if f.lt (f.of_nat max_weight) w
      then f.of_nat max_weight
      else w

  abbrev pub quotient : IpResult W → W
  quotient r =
      let latency_ms = f.div (f.of_nat r.latency) (f.of_nat 1000000) in
      f.div (f.of_nat weight_scale_factor)
        (f.add (f.mul latency_ms (f.add (f.of_nat 1) r.loss)) f.hundred_thousandth)

  unfoldable pub weight : IpResult W → ℕ
  weight r = f.truncate (clamp (quotient r))

  -- one round of the loop over the best results
  unfoldable pub put_best : ℕ → IpResult W → IpPool → IpPool
  put_best i r p = record p {
    best_indexes = set p.best_indexes i r.ip_index;
    best_weights = set p.best_weights i (weight r);
    total_weight = p.total_weight + weight r;
    cur_valid_ips = suc p.cur_valid_ips;
  }

  -- that loop, for the `n` slots from `i` on
  unfoldable pub fill_best : ℕ → ℕ → List (IpResult W) → IpPool → IpPool
  fill_best zero i rs p = p
  fill_best (suc n) i [] p = p
  fill_best (suc n) i (r ∷ rs) p = fill_best n (suc i) rs (put_best i r p)

  -- `updateBest`
  unfoldable pub update_best : List (IpResult W) → IpPool → IpPool
  update_best [] p = p
  update_best (r ∷ rs) p = clear_rest (
      fill_best p.top_ip_count 0 (sort_results (r ∷ rs))
        (record p { total_weight = 0; cur_valid_ips = 0 }))

  -- `scan`
  abbrev pub scan : List (IpResult W) → IpPool → IpPool
  scan results p = update_best (valid_results results) p

-- the errors of `getFromIPPool`
pub data PoolError : Type 0 where
  no_ip_pools pool_does_not_exist cannot_get_ip : PoolError

-- the loop of `Get`
unfoldable pub choose : List Bytes → Bytes → ℕ → ℕ → List ℕ → List ℕ → Outcome PoolError Bytes
choose ips fallback target acc [] indexes = ok fallback
choose ips fallback target acc (w ∷ ws) [] = panic
choose ips fallback target acc (w ∷ ws) (i ∷ is) = elim (ltb target (acc + w)) [
  | true ↦ or_panic (get_elem? ips i)
  | false ↦ choose ips fallback target (acc + w) ws is
]

-- the slices and the remainder in front of it: past the capacity, or by zero, it panics
unfoldable pub choose_best : ℕ → IpPool → Outcome PoolError Bytes
choose_best current p =
    if leb p.cur_valid_ips (length p.best_indexes)
      && leb p.cur_valid_ips (length p.best_weights)
      && not (p.total_weight == 0)
    then choose p.ips p.fallback_ip (current % p.total_weight) 0
        (take p.cur_valid_ips p.best_weights) (take p.cur_valid_ips p.best_indexes)
    else panic

-- `Get`: the address, and the pool with its counter moved on
unfoldable pub get : IpPool → Outcome PoolError Bytes × IpPool
get p =
    if p.cur_valid_ips == 0
    then (ok p.fallback_ip, p)
    else (choose_best p.counter p, record p { counter = (p.counter + 1) % 2 ^ 32 })

abbrev pub nonempty : Outcome PoolError Bytes → Outcome PoolError Bytes
nonempty (ok []) = err cannot_get_ip
nonempty (ok (c ∷ cs)) = ok (c ∷ cs)
nonempty (err e) = err e
nonempty panic = panic
nonempty out_of_fuel = out_of_fuel

-- `m[k] = v` for a key that is there: the map's order stays
unfoldable pub replace : Bytes → IpPool → Assoc IpPool → Assoc IpPool
replace k p [] = []
replace k p ((j, q) ∷ ps) =
    let rest = replace k p ps in if same j k then (j, p) ∷ ps else (j, q) ∷ rest

-- `getFromIPPool`
unfoldable pub get_from_ip_pool : Bytes → Assoc IpPool → Outcome PoolError Bytes × Assoc IpPool
get_from_ip_pool tag [] = (err no_ip_pools, [])
get_from_ip_pool tag (q ∷ qs) = elim (lookup tag (q ∷ qs)) [
  | none ↦ (err pool_does_not_exist, q ∷ qs)
  | some p ↦ (nonempty (get p).0, replace tag (get p).1 (q ∷ qs))
]
