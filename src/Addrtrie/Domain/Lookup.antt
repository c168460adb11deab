-- ===== src/Addrtrie/Domain/Lookup.antt =====
-- What `Find` returns, in terms of the values that the patterns have set.
use mathlib.Core.Option
use mathlib.Core.Path.{fun_ext}
use lumine_for_android.Prelude.{
  Bytes, codes, has_byte, same, has_prefix, ◌≡◌, refl, sym, ap, ◌∙◌, inl, inr, Bool, true, false,
  not, ◌&&◌, Option, none, some, List, [], ◌∷◌, arith, if◌then◌else◌, Bool-cases, Option-cases,
  drop,
}
use lumine_for_android.Addrtrie.Domain.{
  Node, exact, children, get_child, new_node, labels, names, or_else, find_loop, find, or_new,
  insert_labels, insert_pattern, add,
}
use lumine_for_android.Addrtrie.Domain.Paths.{
  exact_at, wildcard_at, new_exact_at, new_wildcard_at, same_path, exact_at-insert,
  wildcard_at-insert, same_path_refl,
}

module _ {V : Type 0} where
  -- The value of the longest path in front of which a dot stands; `w` gives the values by path.
  pub deepest : (List Bytes → Option V) → List (Bytes × Bool) → Option V → Option V
  deepest w [] candidate = candidate
  deepest w ((l, more) ∷ ls) candidate =
      deepest (λ p. w (l ∷ p)) ls (if more then or_else (w (l ∷ [])) candidate else candidate)

  -- The contract of `Find`: the exact value of the whole domain, else the value of the longest
  -- wildcard that the domain is below, else the value of the pattern "*".
  pub spec_find : (List Bytes → Option V) → (List Bytes → Option V) → List (Bytes × Bool) → Option V
  spec_find e w ls = or_else (e (names ls)) (or_else (deepest w ls none) (w []))

  deepest-none :
      (w : List Bytes → Option V) (ls : List (Bytes × Bool)) (c : Option V)
      → ((p : List Bytes) → w p ≡ none)
      → deepest w ls c ≡ c
  unfolding deepest
  deepest-none w [] c h = refl
  deepest-none w ((l, true) ∷ ls) c h =
      rw (h (l ∷ [])) (deepest-none (λ p. w (l ∷ p)) ls c (λ p. h (l ∷ p)))
  deepest-none w ((l, false) ∷ ls) c h = deepest-none (λ p. w (l ∷ p)) ls c (λ p. h (l ∷ p))

  below_new :
      (ls : List (Bytes × Bool)) (c : Option V) (more : Bool)
      → deepest
          (λ p. wildcard_at (new_node {V = V}) p)
          ls
          (if more then or_else (wildcard_at (new_node {V = V}) []) c else c)
        ≡ c
  below_new ls c true = rw (new_wildcard_at {V = V} []) (deepest-none _ ls c new_wildcard_at)
  below_new ls c false = deepest-none _ ls c new_wildcard_at

  find_loop-candidate :
      (ls : List (Bytes × Bool)) (n : Node V) (c : Option V)
      → (find_loop ls n c).candidate ≡ deepest (wildcard_at n) ls c
  unfolding find_loop deepest wildcard_at
  find_loop-candidate [] n c = refl
  find_loop-candidate ((l, more) ∷ ls) n c = elim (Option-cases (get_child l (children n))) [
    | inl e ↦ rw (e, find_loop) (sym (below_new ls c more))
    | inr (m, e) ↦ rw (e, find_loop) (find_loop-candidate ls m _)
  ]

  find_loop-exact :
      (ls : List (Bytes × Bool)) (n : Node V) (c : Option V)
      → (if (find_loop ls n c).fully_matched then exact (find_loop ls n c).at else none)
        ≡ exact_at n (names ls)
  unfolding find_loop exact_at
  find_loop-exact [] n c = refl
  find_loop-exact ((l, more) ∷ ls) n c = elim (Option-cases (get_child l (children n))) [
    | inl e ↦
        rw (e, find_loop)
          (sym (
            ap (λ (t : Option (Node V)). exact_at (or_new t) (names ls)) e
            ∙ new_exact_at (names ls)))
    | inr (m, e) ↦
        rw (e, find_loop)
          (find_loop-exact ls m _
            ∙ ap (λ (t : Option (Node V)). exact_at (or_new t) (names ls)) (sym e))
  ]

  -- `Find` meets its contract at every trie and every domain.
  pub find-eq-spec_find :
      (root : Node V) (domain : Bytes)
      → find root domain ≡ spec_find (exact_at root) (wildcard_at root) (labels domain)
  unfolding find spec_find wildcard_at
  find-eq-spec_find root domain =
      rw (find_loop-exact (labels domain) root none, find_loop-candidate (labels domain) root none)

not-star :
    (p : Bytes)
    → has_prefix (codes "*") p ≡ false
    → (same p (codes "*") ≡ false) × (has_prefix (codes "*.") p ≡ false)
unfolding same has_prefix
not-star [] h = ground arith
not-star (c ∷ []) h = ground arith
not-star (c ∷ d ∷ s) h = ground arith

-- The abstract matcher: the exact values and the wildcard values, by path.
abbrev pub Tables : Type 0 → Type 0
Tables V = (List Bytes → Option V) × (List Bytes → Option V)

abbrev pub at_path : {V : Type 0} → List Bytes → V → (List Bytes → Option V) → List Bytes → Option V
at_path p v w q = if same_path p q then some v else w q

abbrev pub path : Bytes → List Bytes
path s = names (labels s)

module _ {V : Type 0} where
  abbrev pub view : Node V → Tables V
  view root = (exact_at root, wildcard_at root)

  -- What adding a pattern is to do: "*" is the wildcard of the empty path, "*.x" a wildcard, "*x" a
  -- wildcard and an exact name, and any other name with a dot an exact name.
  pub spec_add : Bytes → V → Tables V → Option (Tables V)
  spec_add pattern v (e, w) =
      if same pattern (codes "*")
      then some (e, at_path [] v w)
      else if not (has_byte b'.' pattern)
      then none
      else if has_prefix (codes "*.") pattern
      then some (e, at_path (path (drop 2 pattern)) v w)
      else if has_prefix (codes "*") pattern
      then some (at_path (path (drop 1 pattern)) v e, at_path (path (drop 1 pattern)) v w)
      else some (at_path (path pattern) v e, w)

  view-insert :
      (p : List Bytes) (v : V) (is_wildcard is_exact : Bool) (root : Node V)
      → view (insert_labels p v is_wildcard is_exact root) ≡ (
        (λ q. if same_path p q && is_exact then some v else exact_at root q),
        (λ q. if same_path p q && is_wildcard then some v else wildcard_at root q),
      )
  view-insert p v is_wildcard is_exact root = λ i. (
    λ q. exact_at-insert v is_wildcard is_exact p q root i,
    λ q. wildcard_at-insert v is_wildcard is_exact p q root i,
  )

  and_true :
      (p : List Bytes) (v : V) (w : List Bytes → Option V)
      → (λ q. if same_path p q && true then some v else w q) ≡ at_path p v w
  and_true p v w = fun_ext (λ q. ground arith)

  and_false :
      (p : List Bytes) (v : V) (w : List Bytes → Option V)
      → (λ q. if same_path p q && false then some v else w q) ≡ w
  and_false p v w = fun_ext (λ q. ground arith)

  view-wildcard :
      (p : List Bytes) (v : V) (root : Node V)
      → view (insert_labels p v true false root) ≡ (exact_at root, at_path p v (wildcard_at root))
  view-wildcard p v root = view-insert p v true false root ∙ λ i.
      (and_false p v (exact_at root) i, and_true p v (wildcard_at root) i)

  view-both :
      (p : List Bytes) (v : V) (root : Node V)
      → view (insert_labels p v true true root)
        ≡ (at_path p v (exact_at root), at_path p v (wildcard_at root))
  view-both p v root = view-insert p v true true root ∙ λ i.
      (and_true p v (exact_at root) i, and_true p v (wildcard_at root) i)

  view-exact :
      (p : List Bytes) (v : V) (root : Node V)
      → view (insert_labels p v false true root) ≡ (at_path p v (exact_at root), wildcard_at root)
  view-exact p v root = view-insert p v false true root ∙ λ i.
      (and_true p v (exact_at root) i, and_false p v (wildcard_at root) i)

  -- `Add` refuses what the abstract matcher refuses, and otherwise does to the trie what the
  -- abstract matcher does to its tables.
  pub add-refines :
      (pattern : Bytes) (v : V) (root : Node V)
      → Option.map view (add pattern v root) ≡ spec_add pattern v (view root)
  unfolding add spec_add insert_pattern
  add-refines pattern v root = elim (Bool-cases (same pattern (codes "*"))) [
    | inl a ↦ rw a (ap some (unfold insert_labels in view-wildcard [] v root))
    | inr a ↦ rw a (elim (Bool-cases (not (has_byte b'.' pattern))) [
      | inl b ↦ rw b
      | inr b ↦ rw b (elim (Bool-cases (has_prefix (codes "*.") pattern)) [
        | inl c ↦ rw c (ap some (view-wildcard (path (drop 2 pattern)) v root))
        | inr c ↦ rw c (elim (Bool-cases (has_prefix (codes "*") pattern)) [
          | inl d ↦ rw d (ap some (view-both (path (drop 1 pattern)) v root))
          | inr d ↦ rw d (ap some (view-exact (path pattern) v root))
        ])
      ])
    ])
  ]

  -- The last exact pattern for a name decides what the name finds, whatever else was added.
  pub find-add_exact :
      (pattern : Bytes) (v : V) (root : Node V)
      → has_byte b'.' pattern ≡ true
      → has_prefix (codes "*") pattern ≡ false
      → (t : Node V) × (add pattern v root ≡ some t) × (find t pattern ≡ some v)
  unfolding add insert_pattern spec_find
  find-add_exact pattern v root h k =
      let (a, b) = not-star pattern k in
      let t = insert_labels (path pattern) v false true root in
      (
        t,
        rw (a, h, b, k),
        find-eq-spec_find t pattern
            ∙ rw (
              exact_at-insert v false true (path pattern) (path pattern) root,
              same_path_refl (path pattern),
            ),
      )
