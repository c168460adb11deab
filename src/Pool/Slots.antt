-- ===== src/Pool/Slots.antt =====
-- What a scan leaves in the slots of a pool: the first of the sorted results, and their weights.
use lumine_for_android.Prelude.{
  ℕ, zero, suc, ◌+◌, ◌-◌, ◌≤◌, ◌<◌, ◌≡◌, refl, sym, ap, ◌∙◌, subst, List, [], ◌∷◌, ◌++◌, map,
  append-nil, append_assoc, arith, length, set, length-set, take, length-take, length-map,
}
use lumine_for_android.Pool.{
  IpPool, Float64, IpResult, weight, put_best, fill_best, clear_weights, sort_results, clear_rest,
  update_best,
}

unfoldable pub sum : List ℕ → ℕ
sum [] = 0
sum (x ∷ xs) = x + sum xs

-- writes at the places from `i` on
write_from : ℕ → List ℕ → List ℕ → List ℕ
write_from i [] xs = xs
write_from i (v ∷ vs) xs = write_from (suc i) vs (set xs i v)

length-write_from : (i : ℕ) (vs xs : List ℕ) → length (write_from i vs xs) ≡ length xs
unfolding write_from
length-write_from i [] xs = refl
length-write_from i (v ∷ vs) xs = length-write_from (suc i) vs (set xs i v) ∙ length-set xs i v

take_past-set :
    (xs : List ℕ) (i v : ℕ) → i < length xs → take (suc i) (set xs i v) ≡ take i xs ++ v ∷ []
take_past-set [] i v h = absurd (omega arith)
take_past-set (x ∷ xs) zero v h = refl
take_past-set (x ∷ xs) (suc i) v h = ap (◌∷◌ x) (take_past-set xs i v (omega arith))

take-set_later : (xs : List ℕ) (i j v : ℕ) → i ≤ j → take i (set xs j v) ≡ take i xs
take-set_later [] i j v h = refl
take-set_later (x ∷ xs) zero j v h = refl
take-set_later (x ∷ xs) (suc i) zero v h = absurd (omega arith)
take-set_later (x ∷ xs) (suc i) (suc j) v h = ap (◌∷◌ x) (take-set_later xs i j v (omega arith))

take-write_from :
    (i : ℕ) (vs xs : List ℕ)
    → i + length vs ≤ length xs
    → take (i + length vs) (write_from i vs xs) ≡ take i xs ++ vs
unfolding write_from
take-write_from i [] xs h = ap (λ (n : ℕ). take n xs) (omega arith) ∙ sym (append-nil (take i xs))
take-write_from i (v ∷ vs) xs h =
    ap (λ (n : ℕ). take n (write_from (suc i) vs (set xs i v))) (omega arith)
    ∙ take-write_from (suc i) vs (set xs i v) (omega (arith, length-set xs i v))
    ∙ ap (λ (ys : List ℕ). ys ++ vs) (take_past-set xs i v (omega arith))
    ∙ append_assoc (take i xs) (v ∷ []) vs

take-clear_weights : (n i j : ℕ) (ws : List ℕ) → i ≤ j → take i (clear_weights n j ws) ≡ take i ws
unfolding clear_weights
take-clear_weights zero i j ws h = refl
take-clear_weights (suc n) i j ws h =
    take-clear_weights n i (suc j) (set ws j 0) (omega arith) ∙ take-set_later ws i j 0 h

length-clear_weights : (n i : ℕ) (ws : List ℕ) → length (clear_weights n i ws) ≡ length ws
unfolding clear_weights
length-clear_weights zero i ws = refl
length-clear_weights (suc n) i ws = length-clear_weights n (suc i) (set ws i 0) ∙ length-set ws i 0

take-write_first :
    (n : ℕ) (vs xs : List ℕ)
    → n ≡ length vs
    → length vs ≤ length xs
    → take n (write_from 0 vs xs) ≡ vs
take-write_first n vs xs e h =
    ap (λ (m : ℕ). take m (write_from 0 vs xs)) (omega arith)
    ∙ take-write_from 0 vs xs (omega arith)

module _ {W : Type 0} (f : Float64 W) where
  abbrev indexes_of : List (IpResult W) → List ℕ
  indexes_of rs = map (λ r. r.ip_index) rs

  abbrev weights_of : List (IpResult W) → List ℕ
  weights_of rs = map (weight f) rs

  -- The slots of the pool hold the results `rs`, in their order.
  pub record Serves (rs : List (IpResult W)) (p : IpPool) : Type 0 where
    pub valid : p.cur_valid_ips ≡ length rs
    pub total : p.total_weight ≡ sum (map (weight f) rs)
    pub indexes : take p.cur_valid_ips p.best_indexes ≡ map (λ r. r.ip_index) rs
    pub weights : take p.cur_valid_ips p.best_weights ≡ map (weight f) rs
    pub index_slots : length p.best_indexes ≡ p.top_ip_count
    pub weight_slots : length p.best_weights ≡ p.top_ip_count

  -- the loop over the slots, all at once
  filled : ℕ → List (IpResult W) → IpPool → IpPool
  filled i rs p = record p {
    best_indexes = write_from i (indexes_of rs) p.best_indexes;
    best_weights = write_from i (weights_of rs) p.best_weights;
    total_weight = p.total_weight + sum (weights_of rs);
    cur_valid_ips = p.cur_valid_ips + length rs;
  }

  filled-nil : (i : ℕ) (p : IpPool) → p ≡ filled i [] p
  unfolding filled sum write_from
  filled-nil i p =
      let t : p.total_weight ≡ p.total_weight + 0 = omega arith in
      let v : p.cur_valid_ips ≡ p.cur_valid_ips + 0 = omega arith in
      λ k. record p { total_weight = t k; cur_valid_ips = v k }

  put_best-filled :
      (i : ℕ) (r : IpResult W) (rs : List (IpResult W)) (p : IpPool)
      → filled (suc i) rs (put_best f i r p) ≡ filled i (r ∷ rs) p
  unfolding filled sum write_from put_best
  put_best-filled i r rs p =
      let w = weight f r in
      let t : p.total_weight + w + sum (weights_of rs)
          ≡ p.total_weight + (w + sum (weights_of rs)) =
        omega arith in
      let v : suc p.cur_valid_ips + length rs ≡ p.cur_valid_ips + suc (length rs) = omega arith in
      λ k. record (filled i (r ∷ rs) p) { total_weight = t k; cur_valid_ips = v k }

  fill_best-filled :
      (n i : ℕ) (rs : List (IpResult W)) (p : IpPool)
      → fill_best f n i rs p ≡ filled i (take n rs) p
  unfolding fill_best
  fill_best-filled zero i rs p = filled-nil i p
  fill_best-filled (suc n) i [] p = filled-nil i p
  fill_best-filled (suc n) i (r ∷ rs) p =
      fill_best-filled n (suc i) rs (put_best f i r p) ∙ put_best-filled i r (take n rs) p

  -- the results that get a slot
  abbrev pub best : IpPool → List (IpResult W) → List (IpResult W)
  best p rs = take p.top_ip_count (sort_results f rs)

  filled-Serves :
      (rs : List (IpResult W)) (p : IpPool)
      → length p.best_indexes ≡ p.top_ip_count
      → length p.best_weights ≡ p.top_ip_count
      → length rs ≤ p.top_ip_count
      → Serves rs (clear_rest (filled 0 rs (record p { total_weight = 0; cur_valid_ips = 0 })))
  unfolding filled
  filled-Serves rs p hi hw h =
      let m : 0 + length rs ≡ length rs = omega arith in
      let li : 0 + length rs ≡ length (indexes_of rs) = m ∙ sym (length-map rs (λ r. r.ip_index)) in
      let lw : 0 + length rs ≡ length (weights_of rs) = m ∙ sym (length-map rs (weight f)) in
      let ws = write_from 0 (weights_of rs) p.best_weights in
      record {
        valid = m;
        total = omega arith;
        indexes = take-write_first (0 + length rs) (indexes_of rs) p.best_indexes li (omega arith);
        weights =
            take-clear_weights (p.top_ip_count - (0 + length rs)) (0 + length rs) (0 + length rs) ws
              (omega arith)
            ∙ take-write_first (0 + length rs) (weights_of rs) p.best_weights lw (omega arith);
        index_slots = length-write_from 0 (indexes_of rs) p.best_indexes ∙ hi;
        weight_slots =
            length-clear_weights (p.top_ip_count - (0 + length rs)) (0 + length rs) ws
            ∙ length-write_from 0 (weights_of rs) p.best_weights
            ∙ hw;
      }

  -- After a scan with results the slots hold the first of them, sorted by loss and latency, with
  -- their weights and the sum of these; the rest of the slots is not served.
  pub update_best-Serves :
      (r : IpResult W) (rs : List (IpResult W)) (p : IpPool)
      → length p.best_indexes ≡ p.top_ip_count
      → length p.best_weights ≡ p.top_ip_count
      → Serves (best p (r ∷ rs)) (update_best f (r ∷ rs) p)
  unfolding update_best
  update_best-Serves r rs p hi hw =
      let p' : IpPool = record p { total_weight = 0; cur_valid_ips = 0 } in
      subst (λ (q : IpPool). Serves (best p (r ∷ rs)) (clear_rest q))
        (sym (fill_best-filled p.top_ip_count 0 (sort_results f (r ∷ rs)) p'))
        (filled-Serves (best p (r ∷ rs)) p hi hw
          (omega (arith, length-take p.top_ip_count (sort_results f (r ∷ rs)))))

  -- the parts of the pool that a scan does not touch
  pub update_best-ips : (rs : List (IpResult W)) (p : IpPool) → (update_best f rs p).ips ≡ p.ips
  unfolding update_best filled
  update_best-ips [] p = refl
  update_best-ips (r ∷ rs) p =
      let p' : IpPool = record p { total_weight = 0; cur_valid_ips = 0 } in
      ap (λ (q : IpPool). q.ips) (fill_best-filled p.top_ip_count 0 (sort_results f (r ∷ rs)) p')

  pub update_best-top_ip_count :
      (rs : List (IpResult W)) (p : IpPool) → (update_best f rs p).top_ip_count ≡ p.top_ip_count
  unfolding update_best filled
  update_best-top_ip_count [] p = refl
  update_best-top_ip_count (r ∷ rs) p =
      let p' : IpPool = record p { total_weight = 0; cur_valid_ips = 0 } in
      ap (λ (q : IpPool). q.top_ip_count)
        (fill_best-filled p.top_ip_count 0 (sort_results f (r ∷ rs)) p')
