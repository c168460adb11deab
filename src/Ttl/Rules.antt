-- ===== src/Ttl/Rules.antt =====
-- `parseTTLRules` reads what the grammar writes, and the rule applied is the one with the greatest
-- threshold that the TTL reaches, the first of several.
pub mod Grammar
use lumine_for_android.Prelude.{
  ◌≡◌, refl, sym, ap, ◌∙◌, subst, ◌⊎◌, inl, inr, true, false, Option, none, some, List, [], ◌∷◌,
  ◌++◌, arith, if◌then◌else◌, Bool-cases, All, All-append, All-map, Outcome, ok, err, ℤ, ◌≤ℤ◌,
  ltb_ℤ, leb_ℤ,
}
use lumine_for_android.Ttl.{
  TtlRule, insert_rule, sort_rules, TtlError, apply_rule, no_matching_rule, apply_rules,
}

module _ (P : TtlRule → Type 0) where
  All-insert_rule :
      (r : TtlRule) (rules : List TtlRule) → P r → All P rules → All P (insert_rule r rules)
  unfolding insert_rule
  All-insert_rule r [] h k = (h, tt)
  All-insert_rule r (s ∷ rules) h k = elim (Bool-cases (ltb_ℤ r.threshold s.threshold)) [
    | inl t ↦ rw t (k.0, All-insert_rule r rules h k.1)
    | inr t ↦ rw t (h, k)
  ]

-- Every rule has a threshold no greater than those before it.
IsFalling : List TtlRule → Type 0
IsFalling [] = Unit
IsFalling (r ∷ rules) = All (λ s. s.threshold ≤ℤ r.threshold) rules × IsFalling rules

All-weaken :
    (rules : List TtlRule) (a b : ℤ)
    → a ≤ℤ b
    → All (λ s. s.threshold ≤ℤ a) rules
    → All (λ s. s.threshold ≤ℤ b) rules
All-weaken [] a b h k = tt
All-weaken (s ∷ rules) a b h k = (omega (arith, h, k.0), All-weaken rules a b h k.1)

insert_rule-IsFalling :
    (r : TtlRule) (rules : List TtlRule) → IsFalling rules → IsFalling (insert_rule r rules)
unfolding insert_rule IsFalling
insert_rule-IsFalling r [] h = (tt, tt)
insert_rule-IsFalling r (s ∷ rules) h = elim (Bool-cases (ltb_ℤ r.threshold s.threshold)) [
  | inl t ↦
      let le : r.threshold ≤ℤ s.threshold = ground arith in
      rw t (
        All-insert_rule (λ (q : TtlRule). q.threshold ≤ℤ s.threshold) r rules le h.0,
        insert_rule-IsFalling r rules h.1,
      )
  | inr t ↦
      let le : s.threshold ≤ℤ r.threshold = ground arith in
      rw t ((le, All-weaken rules s.threshold r.threshold le h.0), h)
]

sort_rules-IsFalling : (rules : List TtlRule) → IsFalling (sort_rules rules)
unfolding sort_rules IsFalling
sort_rules-IsFalling [] = tt
sort_rules-IsFalling (r ∷ rules) =
    insert_rule-IsFalling r (sort_rules rules) (sort_rules-IsFalling rules)

module _ (ttl : ℤ) where
  -- The TTL does not reach the threshold.
  pub IsAbove : TtlRule → Type 0
  IsAbove r = leb_ℤ r.threshold ttl ≡ false

  -- The rule in front of the others is applied before `r`.
  pub IsBehind : TtlRule → TtlRule → Type 0
  IsBehind r s = (IsAbove s) ⊎ (ltb_ℤ s.threshold r.threshold ≡ true)

  pub IsNotBefore : TtlRule → TtlRule → Type 0
  IsNotBefore r s = (IsAbove s) ⊎ (s.threshold ≤ℤ r.threshold)

  IsBehind-below :
      (r s q : TtlRule) → ltb_ℤ r.threshold s.threshold ≡ false → IsBehind s q → IsNotBefore r q
  unfolding IsBehind IsNotBefore
  IsBehind-below r s q v (inl k) = inl k
  IsBehind-below r s q v (inr k) = inr (ground arith)

  IsNotBefore-below :
      (r s q : TtlRule) → ltb_ℤ r.threshold s.threshold ≡ false → IsNotBefore s q → IsNotBefore r q
  unfolding IsNotBefore
  IsNotBefore-below r s q v (inl k) = inl k
  IsNotBefore-below r s q v (inr k) = inr (ground arith)

  -- The first of the rules with the greatest threshold that the TTL reaches.
  abbrev pick : TtlRule → Option TtlRule → Option TtlRule
  pick r none = if leb_ℤ r.threshold ttl then some r else none
  pick r (some s) =
      if leb_ℤ r.threshold ttl
      then (if ltb_ℤ r.threshold s.threshold then some s else some r)
      else some s

  best : List TtlRule → Option TtlRule
  best [] = none
  best (r ∷ rules) = pick r (best rules)

  abbrev applied : Option TtlRule → Outcome TtlError ℤ
  applied none = err no_matching_rule
  applied (some r) = ok (apply_rule r ttl)

  pick_swap :
      (r s : TtlRule) (o : Option TtlRule)
      → ltb_ℤ r.threshold s.threshold ≡ true
      → pick s (pick r o) ≡ pick r (pick s o)
  pick_swap r s none h = ground arith
  pick_swap r s (some q) h = ground arith

  best-insert_rule :
      (r : TtlRule) (rules : List TtlRule) → best (insert_rule r rules) ≡ pick r (best rules)
  unfolding best insert_rule
  best-insert_rule r [] = refl
  best-insert_rule r (s ∷ rules) = elim (Bool-cases (ltb_ℤ r.threshold s.threshold)) [
    | inl t ↦ rw (t, insert_rule, best, best-insert_rule r rules) (pick_swap r s (best rules) t)
    | inr t ↦ rw (t, insert_rule, best) refl
  ]

  best-sort_rules : (rules : List TtlRule) → best (sort_rules rules) ≡ best rules
  unfolding best sort_rules
  best-sort_rules [] = refl
  best-sort_rules (r ∷ rules) =
      best-insert_rule r (sort_rules rules) ∙ ap (pick r) (best-sort_rules rules)

  -- Behind a rule that no other exceeds, nothing else is picked.
  pick-first :
      (r : TtlRule) (o : Option TtlRule)
      → leb_ℤ r.threshold ttl ≡ true
      → ((s : TtlRule) → o ≡ some s → s.threshold ≤ℤ r.threshold)
      → pick r o ≡ some r
  pick-first r none t h = ground arith
  pick-first r (some s) t h = let le = h s refl in ground arith

  abbrev AllOf : (TtlRule → Type 0) → Option TtlRule → Type 0
  AllOf P none = Unit
  AllOf P (some r) = P r

  pick-AllOf :
      (P : TtlRule → Type 0) (r : TtlRule) (o : Option TtlRule)
      → P r
      → AllOf P o
      → AllOf P (pick r o)
  pick-AllOf P r none h k = elim (Bool-cases (leb_ℤ r.threshold ttl)) [
    | inl t ↦ rw t h
    | inr t ↦ rw t tt
  ]
  pick-AllOf P r (some s) h k = elim (Bool-cases (leb_ℤ r.threshold ttl)) [
    | inr t ↦ rw t k
    | inl t ↦ elim (Bool-cases (ltb_ℤ r.threshold s.threshold)) [
      | inl u ↦ rw (t, u) k
      | inr u ↦ rw (t, u) h
    ]
  ]

  best-AllOf : (P : TtlRule → Type 0) (rules : List TtlRule) → All P rules → AllOf P (best rules)
  unfolding best
  best-AllOf P [] h = tt
  best-AllOf P (r ∷ rules) h = pick-AllOf P r (best rules) h.0 (best-AllOf P rules h.1)

  AllOf-some :
      (P : TtlRule → Type 0) (o : Option TtlRule) (s : TtlRule) → AllOf P o → o ≡ some s → P s
  AllOf-some P o s h e = subst (AllOf P) e h

  pick-miss : (r : TtlRule) (o : Option TtlRule) → leb_ℤ r.threshold ttl ≡ false → pick r o ≡ o
  pick-miss r none t = ground arith
  pick-miss r (some s) t = ground arith

  apply_rules-falling :
      (rules : List TtlRule) → IsFalling rules → apply_rules rules ttl ≡ applied (best rules)
  unfolding apply_rules IsFalling best
  apply_rules-falling [] f = refl
  apply_rules-falling (r ∷ rules) f = elim (Bool-cases (leb_ℤ r.threshold ttl)) [
    | inl t ↦
        let first = pick-first r (best rules) t (λ s e.
          AllOf-some (λ q. q.threshold ≤ℤ r.threshold) (best rules) s
            (best-AllOf (λ q. q.threshold ≤ℤ r.threshold) rules f.0) e) in
        rw (t, apply_rules, best, first) refl
    | inr t ↦ rw (t, apply_rules, best, pick-miss r (best rules) t) (apply_rules-falling rules f.1)
  ]

  -- `r` has the greatest threshold of those that the TTL reaches, and it is the first such rule.
  pub IsFirst : List TtlRule → TtlRule → Type 0
  IsFirst rules r =
      (before : List TtlRule) × (after : List TtlRule) × (rules ≡ before ++ r ∷ after)
      × (leb_ℤ r.threshold ttl ≡ true)
      × All (IsBehind r) before
      × All (IsNotBefore r) after

  Picked : List TtlRule → Option TtlRule → Type 0
  Picked rules none = All IsAbove rules
  Picked rules (some r) = IsFirst rules r

  pick-Picked :
      (r : TtlRule) (rules : List TtlRule) (o : Option TtlRule)
      → Picked rules o
      → Picked (r ∷ rules) (pick r o)
  unfolding Picked IsFirst IsBehind IsNotBefore IsAbove
  pick-Picked r rules none h = elim (Bool-cases (leb_ℤ r.threshold ttl)) [
    | inl t ↦ rw t ([], rules, refl, t, tt, All-map IsAbove (IsNotBefore r) rules (λ s k. inl k) h)
    | inr t ↦ rw t (t, h)
  ]
  pick-Picked r rules (some s) (before, after, e, u, b, a) =
      elim (Bool-cases (leb_ℤ r.threshold ttl)) [
        | inr t ↦ rw t (r ∷ before, after, ap (◌∷◌ r) e, u, (inl t, b), a)
        | inl t ↦ elim (Bool-cases (ltb_ℤ r.threshold s.threshold)) [
          | inl v ↦ rw (t, v) (r ∷ before, after, ap (◌∷◌ r) e, u, (inr v, b), a)
          | inr v ↦
              let below : All (IsNotBefore r) (before ++ s ∷ after) =
                All-append (IsNotBefore r) before (s ∷ after)
                  (All-map (IsBehind s) (IsNotBefore r) before (λ q k. IsBehind-below r s q v k) b)
                  (
                    inr (ground arith),
                    All-map (IsNotBefore s) (IsNotBefore r) after
                        (λ q k. IsNotBefore-below r s q v k) a,
                  ) in
              rw (t, v) ([], rules, refl, t, tt, subst (All (IsNotBefore r)) (sym e) below)
        ]
      ]

  best-Picked : (rules : List TtlRule) → Picked rules (best rules)
  unfolding best Picked
  best-Picked [] = tt
  best-Picked (r ∷ rules) = pick-Picked r rules (best rules) (best-Picked rules)

  -- The rules are applied by the first rule of the greatest threshold that the TTL reaches.
  pub Applies : List TtlRule → Outcome TtlError ℤ → Type 0
  Applies rules out =
      (All IsAbove rules × (out ≡ err no_matching_rule))
      ⊎ ((r : TtlRule) × IsFirst rules r × (out ≡ ok (apply_rule r ttl)))

  Picked-Applies :
      (rules : List TtlRule) (o : Option TtlRule) → Picked rules o → Applies rules (applied o)
  unfolding Picked Applies
  Picked-Applies rules none h = inl (h, refl)
  Picked-Applies rules (some r) h = inr (r, h, refl)

  -- After sorting, a TTL is calculated by the rule with the greatest threshold that the TTL reaches,
  -- of several with that threshold by the one that stands first in the text, and it is an error exactly
  -- where the TTL is below every threshold. The sort is the one by insertion, as Go has it for at most
  -- 12 rules.
  pub apply_rules-greatest :
      (rules : List TtlRule) → Applies rules (apply_rules (sort_rules rules) ttl)
  apply_rules-greatest rules =
      subst (Applies rules)
        (sym (
          apply_rules-falling (sort_rules rules) (sort_rules-IsFalling rules)
          ∙ ap applied (best-sort_rules rules)))
        (Picked-Applies rules (best rules) (best-Picked rules))
