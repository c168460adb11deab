-- ===== src/Counter.antt =====
-- `Counter`: enimul/internal/core/counter.go. Callers of `Next` interleave: each loads the value, and
-- its `CompareAndSwap` succeeds where nobody else was faster, or the caller begins again.
pub mod Issued
use lumine_for_android.Prelude.{
  ℕ, ◌+◌, ◌%◌, ◌^◌, ◌≡◌, ◌≢◌, some, List, [], ◌∷◌, ltb, if◌then◌else◌, get_elem?, set, replicate,
}

-- `maxConnID`
abbrev pub max_conn_id : ℕ
max_conn_id = 0xfffff

-- the value that follows `old`, as an `uint32`
abbrev pub bump : ℕ → ℕ
bump old = if ltb max_conn_id ((old + 1) % 2 ^ 32) then 1 else (old + 1) % 2 ^ 32

-- A caller is outside of `Next` or at its label, or it has loaded a value.
pub data Caller : Type 0 where
  idle : Caller
  loaded : ℕ → Caller

-- The counter, its callers, and what was returned so far, the newest first.
pub record CounterState : Type 0 where
  pub value : ℕ
  pub callers : List Caller
  pub returned : List ℕ

-- one step of one caller
pub data Step : CounterState → CounterState → Type 0 where
  load :
      (s : CounterState) (i : ℕ)
      → get_elem? s.callers i ≡ some idle
      → Step s (record s { callers = set s.callers i (loaded s.value) })
  swap :
      (s : CounterState) (i old : ℕ)
      → get_elem? s.callers i ≡ some (loaded old)
      → s.value ≡ old
      → Step s (record {
        value = bump old;
        callers = set s.callers i idle;
        returned = bump old ∷ s.returned;
      })
  retry :
      (s : CounterState) (i old : ℕ)
      → get_elem? s.callers i ≡ some (loaded old)
      → s.value ≢ old
      → Step s (record s { callers = set s.callers i idle })

-- any number of steps
pub data Steps : CounterState → CounterState → Type 0 where
  stay : (s : CounterState) → Steps s s
  then_step : (s t u : CounterState) → Steps s t → Step t u → Steps s u

-- the zero value of the counter, with `n` callers
abbrev pub start : ℕ → CounterState
start n = record { value = 0; callers = replicate n idle; returned = [] }
