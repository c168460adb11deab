-- ===== src/Ttl/Rules/Grammar.antt =====
-- The texts of the grammar: rules of digits, an operator and digits, each ended by a semicolon.
use lumine_for_android.Prelude.{
  guard, Bytes, ℕ, zero, suc, ◌+◌, ◌-◌, ◌*◌, ◌%◌, ◌^◌, ◌≤◌, ◌≡◌, refl, ap, ◌∙◌, ◌⊎◌, inl, inr, true,
  false, not, ◌||◌, List, [], ◌∷◌, ◌++◌, map, arith, ◌==◌, length, length-append, drop,
  drop-append_length, All, Outcome, ◌>>=◌, guard, ok, int64_of,
}
use lumine_for_android.Ttl.{
  TtlRule, digits, number, parse_rule, is_digit, sort_rules, parse_rules, parse_ttl_rules, TtlError,
}

pub record RuleText : Type 0 where
  pub left : Bytes
  pub operator : ℕ
  pub right : Bytes

unfoldable pub IsDigits : Bytes → Type 0
IsDigits b = (1 ≤ length b) × All (λ c. is_digit c ≡ true) b

unfoldable pub IsRule : RuleText → Type 0
IsRule t = IsDigits t.left × ((t.operator ≡ 45) ⊎ (t.operator ≡ 61)) × IsDigits t.right

unfoldable pub write_rules : List RuleText → Bytes
write_rules [] = []
write_rules (t ∷ ts) = t.left ++ t.operator ∷ (t.right ++ 59 ∷ write_rules ts)

-- the number that digits stand for, behind one that was read before them
unfoldable pub decimal : ℕ → Bytes → ℕ
decimal a [] = a
decimal a (c ∷ ds) = decimal (a * 10 + (c - 48)) ds

-- A rule with the numbers that its digits stand for, as values of `int`.
unfoldable pub meaning : RuleText → TtlRule
meaning t = record {
  threshold = int64_of (decimal 0 t.left);
  typ = t.operator;
  val = int64_of (decimal 0 t.right);
}

shift_mod : (a d : ℕ) → (a % 2 ^ 64 * 10 + d) % 2 ^ 64 ≡ (a * 10 + d) % 2 ^ 64
shift_mod a d = omega arith

number-decimal : (a : ℕ) (ds : Bytes) → number (a % 2 ^ 64) ds ≡ decimal a ds % 2 ^ 64
unfolding number decimal
number-decimal a [] = refl
number-decimal a (c ∷ ds) = rw (shift_mod a (c - 48)) (number-decimal (a * 10 + (c - 48)) ds)

mod_mod : (n : ℕ) → n % 2 ^ 64 % 2 ^ 64 ≡ n % 2 ^ 64
mod_mod n = omega arith

int64_of-number : (ds : Bytes) → int64_of (number 0 ds) ≡ int64_of (decimal 0 ds)
int64_of-number ds = rw (number-decimal 0 ds, mod_mod (decimal 0 ds))

digits-append :
    (ds rest : Bytes) (c : ℕ)
    → All (λ d. is_digit d ≡ true) ds
    → is_digit c ≡ false
    → digits (ds ++ c ∷ rest) ≡ ds
unfolding digits
digits-append [] rest c h e = rw e
digits-append (d ∷ ds) rest c h e = rw h.0 (ap (◌∷◌ d) (digits-append ds rest c h.1 e))

drop-suc-append : (ds rest : Bytes) (c : ℕ) → drop (suc (length ds)) (ds ++ c ∷ rest) ≡ rest
drop-suc-append [] rest c = refl
drop-suc-append (d ∷ ds) rest c = drop-suc-append ds rest c

operator-is_digit : (c : ℕ) → (c ≡ 45) ⊎ (c ≡ 61) → is_digit c ≡ false
operator-is_digit c (inl e) = rw e
operator-is_digit c (inr e) = rw e

operator_test : (c : ℕ) → (c ≡ 45) ⊎ (c ≡ 61) → (c == 45 || c == 61) ≡ true
operator_test c (inl e) = rw e
operator_test c (inr e) = rw e

parse_rule-write :
    (t : RuleText) (rest : Bytes)
    → IsRule t
    → parse_rule (t.left ++ t.operator ∷ (t.right ++ 59 ∷ rest)) ≡ ok (meaning t, rest)
unfolding parse_rule IsRule IsDigits meaning guard
parse_rule-write t rest h =
    let l =
      digits-append t.left (t.right ++ 59 ∷ rest) t.operator h.0.1
        (operator-is_digit t.operator h.1) in
    let r = digits-append t.right rest 59 h.2.1 refl in
    let some_left : not (length t.left == 0) ≡ true = ground arith in
    let some_right : not (length t.right == 0) ≡ true = ground arith in
    rw (
      l,
      some_left,
      drop-append_length t.left (t.operator ∷ (t.right ++ 59 ∷ rest)),
      operator_test t.operator h.1,
      drop-suc-append t.left (t.right ++ 59 ∷ rest) t.operator,
      r,
      some_right,
      drop-append_length t.right (59 ∷ rest),
      int64_of-number t.left,
      int64_of-number t.right,
    )

parse_rules-empty : (fuel : ℕ) → parse_rules fuel [] ≡ ok []
unfolding parse_rules
parse_rules-empty fuel = refl

-- the length of the text of a rule before `rest`
written :
    (t : RuleText) (rest : Bytes)
    → suc (length rest) ≤ length (t.left ++ t.operator ∷ (t.right ++ 59 ∷ rest))
written t rest = omega (
  arith,
  length-append t.left (t.operator ∷ (t.right ++ 59 ∷ rest)),
  length-append t.right (59 ∷ rest),
)

parse_rules-round :
    (b rest : Bytes) (r : TtlRule) (fuel : ℕ)
    → 1 ≤ length b
    → parse_rule b ≡ ok (r, rest)
    → parse_rules (suc fuel) b ≡ (parse_rules fuel rest >>= λ rules. ok (r ∷ rules))
unfolding parse_rules
parse_rules-round [] rest r fuel h e = absurd (omega arith)
parse_rules-round (c ∷ b) rest r fuel h e = rw e

-- The number of rounds is enough, since a rule has at least three bytes.
parse_rules-write :
    (ts : List RuleText) (fuel : ℕ)
    → All IsRule ts
    → length (write_rules ts) ≤ fuel
    → parse_rules fuel (write_rules ts) ≡ ok (map meaning ts)
unfolding write_rules
parse_rules-write [] fuel h f = parse_rules-empty fuel
parse_rules-write (t ∷ ts) zero h f = absurd (omega (arith, written t (write_rules ts)))
parse_rules-write (t ∷ ts) (suc fuel) h f =
    let shorter : length (write_rules ts) ≤ fuel = omega (arith, written t (write_rules ts)) in
    parse_rules-round (write_rules (t ∷ ts)) (write_rules ts) (meaning t) fuel
      (omega (arith, written t (write_rules ts))) (parse_rule-write t (write_rules ts) h.0)
    ∙ ap (λ (o : Outcome TtlError (List TtlRule)). o >>= λ rules. ok (meaning t ∷ rules))
        (parse_rules-write ts fuel h.1 shorter)

-- A text of rules, each with digits, an operator and digits and ended by a semicolon, is read as the
-- rules that it writes, sorted by falling thresholds, those with the same in their order; in
-- particular the rounds of the loop are enough. A number is the one its digits stand for, as an `int`.
pub parse_ttl_rules-write :
    (ts : List RuleText)
    → All IsRule ts
    → parse_ttl_rules (write_rules ts) ≡ ok (sort_rules (map meaning ts))
unfolding parse_ttl_rules
parse_ttl_rules-write ts h = rw (parse_rules-write ts (length (write_rules ts)) h (omega arith))
