-- ===== src/Counter/Issued.antt =====
-- However the callers of the counter interleave, the numbers are returned in their order.
use lumine_for_android.Prelude.{
  ℕ, zero, suc, ◌+◌, ◌%◌, ◌≡◌, refl, sym, ap, ◌∙◌, List, [], ◌∷◌, arith,
}
use lumine_for_android.Counter.{
  bump, max_conn_id, CounterState, Step, load, swap, retry, Steps, stay, then_step, start,
}

-- The numbers 1, 2, … up to the largest and from 1 again, `n` of them, the newest first.
pub ids : ℕ → List ℕ
ids zero = []
ids (suc n) = (n % max_conn_id + 1) ∷ ids n

-- the last of them
latest : ℕ → ℕ
latest zero = 0
latest (suc n) = n % max_conn_id + 1

bump-latest : (n : ℕ) → bump (latest n) ≡ n % max_conn_id + 1
unfolding latest
bump-latest zero = ground arith
bump-latest (suc n) = ground arith

HasIssued : ℕ → CounterState → Type 0
HasIssued n s = (s.value ≡ latest n) × (s.returned ≡ ids n)

Step-HasIssued : (s t : CounterState) (n : ℕ) → Step s t → HasIssued n s → (m : ℕ) × HasIssued m t
unfolding HasIssued ids latest
Step-HasIssued _ _ n (load s i e) h = (n, h)
Step-HasIssued _ _ n (retry s i old e d) h = (n, h)
Step-HasIssued _ _ n (swap s i old e v) h =
    let b : bump old ≡ n % max_conn_id + 1 = ap bump (sym v ∙ h.0) ∙ bump-latest n in
    (suc n, (b, ap (λ (x : ℕ). x ∷ s.returned) b ∙ ap (◌∷◌ (n % max_conn_id + 1)) h.1))

Steps-HasIssued : (n : ℕ) (s t : CounterState) → Steps s t → HasIssued n s → (m : ℕ) × HasIssued m t
Steps-HasIssued n _ _ (stay s) h = (n, h)
Steps-HasIssued n _ _ (then_step s t u p q) h =
    let (m, k) = Steps-HasIssued n s t p h in Step-HasIssued t u m q k

-- From the zero value, in every state that the steps of any callers reach, the numbers returned are
-- 1, 2 and so on in their order, and from 1 again behind the largest: in between none is left out or
-- given twice.
pub Steps-ids :
    (callers : ℕ) (t : CounterState) → Steps (start callers) t → (n : ℕ) × (t.returned ≡ ids n)
unfolding HasIssued ids latest
Steps-ids callers t p = let (n, h) = Steps-HasIssued 0 (start callers) t p (refl, refl) in (n, h.1)
