-- ===== src/Ttl.antt =====
-- The choice of the TTL of fake packets: enimul/internal/core/desync.go. The dials are a parameter.
pub mod Rules
pub mod Search
pub mod Fake
use lumine_for_android.Prelude.{
  guard, Bytes, ℕ, zero, suc, ◌+◌, ◌-◌, ◌*◌, ◌/◌, ◌%◌, ◌^◌, Bool, true, false, not, ◌&&◌, ◌||◌,
  Option, none, some, List, [], ◌∷◌, leb, ◌==◌, if◌then◌else◌, length, drop, Outcome, ◌>>=◌, ◌>>◌,
  guard, ok, err, out_of_fuel, ℤ, pos_part, ltb_ℤ, leb_ℤ, int64_of, sub_int64, pos, negsuc,
}

-- `ttlRule`
pub record TtlRule : Type 0 where
  pub threshold : ℤ
  pub typ : ℕ
  pub val : ℤ

pub data TtlError : Type 0 where
  no_left_number no_operator bad_operator no_right_number : TtlError
  no_matching_rule not_reachable bad_address : TtlError
  dial_failed : TtlError

abbrev pub is_digit : ℕ → Bool
is_digit c = leb 48 c && leb c 57

-- The digits at the front, and what follows them.
unfoldable pub digits : Bytes → Bytes
digits [] = []
digits (c ∷ b) = if is_digit c then c ∷ digits b else []

-- the value of digits, with the wrap-around of an `int` of 64 bits
unfoldable pub number : ℕ → Bytes → ℕ
number a [] = a
number a (c ∷ b) = number ((a * 10 + (c - 48)) % 2 ^ 64) b

-- `sort.Slice` by falling thresholds; by insertion, which keeps the order of equal ones, as Go
-- sorts slices of at most 12
unfoldable pub insert_rule : TtlRule → List TtlRule → List TtlRule
insert_rule r [] = r ∷ []
insert_rule r (s ∷ rules) =
    if ltb_ℤ r.threshold s.threshold then s ∷ insert_rule r rules else r ∷ s ∷ rules

unfoldable pub sort_rules : List TtlRule → List TtlRule
sort_rules [] = []
sort_rules (r ∷ rules) = insert_rule r (sort_rules rules)

abbrev skip_semicolon : Bytes → Bytes
skip_semicolon [] = []
skip_semicolon (c ∷ b) = if c == 59 then b else c ∷ b

-- One round of the loop: the rule, and the bytes behind it.
unfoldable pub parse_rule : Bytes → Outcome TtlError (TtlRule × Bytes)
parse_rule b = do
  let left = digits b
  guard (not (length left == 0)) no_left_number
  op ← elim (drop (length left) b) [ [] ↦ err no_operator | c ∷ _ ↦ ok c ]
  guard (op == 45 || op == 61) bad_operator
  let rest = drop (suc (length left)) b
  let right = digits rest
  guard (not (length right == 0)) no_right_number
  let rule : TtlRule = record {
    threshold = int64_of (number 0 left);
    typ = op;
    val = int64_of (number 0 right);
  }
  ok (rule, skip_semicolon (drop (length right) rest))

unfoldable pub parse_rules : ℕ → Bytes → Outcome TtlError (List TtlRule)
parse_rules fuel [] = ok []
parse_rules zero (c ∷ b) = out_of_fuel
parse_rules (suc fuel) (c ∷ b) = do
  (rule, rest) ← parse_rule (c ∷ b)
  rules ← parse_rules fuel rest
  ok (rule ∷ rules)

-- `parseTTLRules`
unfoldable pub parse_ttl_rules : Bytes → Outcome TtlError (List TtlRule)
parse_ttl_rules conf = do rules ← parse_rules (length conf) conf; ok (sort_rules rules)

-- what a rule that matches makes of a TTL
abbrev pub apply_rule : TtlRule → ℤ → ℤ
apply_rule r ttl = if r.typ == 45 then sub_int64 ttl r.val else r.val

unfoldable pub apply_rules : List TtlRule → ℤ → Outcome TtlError ℤ
apply_rules [] ttl = err no_matching_rule
apply_rules (r ∷ rules) ttl =
    if leb_ℤ r.threshold ttl then ok (apply_rule r ttl) else apply_rules rules ttl

-- `buildCalcTTL`: with no rules, one less than the TTL
abbrev pub calc_ttl : Option (List TtlRule) → ℤ → Outcome TtlError ℤ
calc_ttl none ttl = ok (sub_int64 ttl (pos 1))
calc_ttl (some rules) ttl = apply_rules rules ttl

unfoldable pub build_calc_ttl : Bytes → Outcome TtlError (ℤ → Outcome TtlError ℤ)
build_calc_ttl [] = ok (calc_ttl none)
build_calc_ttl (c ∷ conf) = do rules ← parse_ttl_rules (c ∷ conf); ok (calc_ttl (some rules))

-- The end of `dialer.Dial` with a TTL.
pub data Dialed : Type 0 where
  connected timed_out failed : Dialed

-- A TTL is probed in one run of attempts, so that a dial is told by its TTL and its attempt.
module _ (dial : ℕ → ℕ → Dialed) where
  -- `for range attempts`, from attempt `k` on
  unfoldable pub try_dial : ℕ → ℕ → ℕ → Outcome TtlError Bool
  try_dial ttl k zero = ok false
  try_dial ttl k (suc n) = elim (dial ttl k) [
    | connected ↦ ok true
    | timed_out ↦ try_dial ttl (k + 1) n
    | failed ↦ err dial_failed
  ]

  -- `for low <= high`
  unfoldable pub search_ttl : ℕ → ℕ → ℕ → ℕ → ℤ → Outcome TtlError ℤ
  search_ttl attempts zero low high found = if leb low high then out_of_fuel else ok found
  search_ttl attempts (suc fuel) low high found = elim (leb low high) [
    | false ↦ ok found
    | true ↦ do
      let mid = (low + high) / 2
      reached ← try_dial mid 0 attempts
      elim reached [
        | true ↦ search_ttl attempts fuel low (mid - 1) (pos mid)
        | false ↦ search_ttl attempts fuel (mid + 1) high found
      ]
  ]

  -- `probeMinimumReachableTTL`, less the cache
  unfoldable pub probe_ttl : ℤ → ℤ → Outcome TtlError ℤ
  probe_ttl max_ttl attempts =
      search_ttl (pos_part attempts) (pos_part max_ttl) 1 (pos_part max_ttl) (negsuc 0)
