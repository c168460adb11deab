-- ===== src/Examples/Counters.antt =====
-- Two callers of the counter: both load the value, and one is faster; and calls that count in two
-- orders.
use lumine_for_android.Prelude.{ℕ, ◌≡◌, refl, List, [], ◌∷◌, pos, negsuc}
use mathlib.Core.List.{Permᴰ}
use lumine_for_android.Stats.{Counting, read, wrote, tcp_opened, count_all, reset_stats}
use lumine_for_android.Stats.Totals.{totals, count_all-totals}
use lumine_for_android.Counter.{
  CounterState, load, swap, Steps, stay, then_step, start, idle, loaded,
}
use lumine_for_android.Counter.Issued.{ids, Steps-ids}

abbrev one_loaded : CounterState
one_loaded = record { value = 0; callers = loaded 0 ∷ idle ∷ []; returned = [] }

abbrev two_loaded : CounterState
two_loaded = record { value = 0; callers = loaded 0 ∷ loaded 0 ∷ []; returned = [] }

abbrev one_returned : CounterState
one_returned = record { value = 1; callers = idle ∷ loaded 0 ∷ []; returned = 1 ∷ [] }

one_faster : Steps (start 2) one_returned
one_faster =
    then_step (start 2) two_loaded one_returned
      (then_step (start 2) one_loaded two_loaded
        (then_step (start 2) (start 2) one_loaded (stay (start 2)) (load (start 2) 0 refl))
        (load one_loaded 1 refl))
      (swap two_loaded 0 0 refl refl)

Steps-ids_example : (n : ℕ) × (one_returned.returned ≡ ids n)
Steps-ids_example = Steps-ids 2 one_returned one_faster

-- one read of five bytes, one connection and a write that failed
abbrev calls : List Counting
calls = read (pos 5) ∷ tcp_opened ∷ wrote (negsuc 0) ∷ []

abbrev reordered : List Counting
reordered = tcp_opened ∷ read (pos 5) ∷ wrote (negsuc 0) ∷ []

count_all-totals_example :
    count_all reordered (reset_stats (pos 9) (totals calls (pos 3))) ≡ totals calls (pos 9)
count_all-totals_example =
    count_all-totals calls reordered (pos 9) (totals calls (pos 3)) (Permᴰ.swap refl refl)
