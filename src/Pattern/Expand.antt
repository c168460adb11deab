-- ===== src/Pattern/Expand.antt =====
-- `expandPattern` gives the words that a pattern stands for.
use lumine_for_android.Prelude.{
  Bytes, ℕ, zero, suc, ◌≤◌, ◌<◌, ◌≡◌, refl, sym, ap, ◌∙◌, ◌≢◌, true, false, none, some, List, [],
  ◌∷◌, ◌++◌, map, append-nil, append_assoc, arith, ltb, ◌==◌, length, length-append, All,
  All-append, All-map,
}
use lumine_for_android.Pattern.{
  next_ranges, follow, next_bytes, first_bytes, string_of, split_loop, split_by_pipe, split_open,
  products, first_group, all_products, expand_fuel, expand_pattern, with_suffixes,
}
use lumine_for_android.Pattern.Words.{
  is_plain, ArePlain, AllPlain, Alternatives, choices, join, written_choices, plain_facts, Group,
  written, words, IsPattern, split_open-text, no_open, split_close-inside, crossed,
}

next_bytes-ascii : (b : ℕ) (bs : Bytes) → b < 0x80 → next_bytes b bs ≡ 0
unfolding next_bytes next_ranges follow
next_bytes-ascii b bs h = ground arith

first_bytes-ascii : (s : Bytes) → All (λ c. c < 0x80) s → first_bytes 0 s ≡ s
unfolding first_bytes
first_bytes-ascii [] h = refl
first_bytes-ascii (b ∷ bs) h =
    rw (next_bytes-ascii b bs h.0) (ap (◌∷◌ b) (first_bytes-ascii bs h.1))

split_loop-bar :
    (curr w rest : Bytes)
    → ArePlain w
    → split_loop curr (w ++ b'|' ∷ rest) ≡ (curr ++ w) ∷ split_loop [] rest
unfolding split_loop string_of
split_loop-bar curr [] rest h = ap (λ (c : Bytes). c ∷ split_loop [] rest) (sym (append-nil curr))
split_loop-bar curr (c ∷ cs) rest h =
    let f = plain_facts c h.0 in
    let t : (c == b'|') ≡ false = ground arith in
    let u : ltb c 0x80 ≡ true = ground arith in
    rw (t, u, split_loop, string_of)
      (split_loop-bar (curr ++ c ∷ []) cs rest h.1
        ∙ ap (λ (x : Bytes). x ∷ split_loop [] rest) (append_assoc curr (c ∷ []) cs))

split_loop-end : (curr w : Bytes) → ArePlain w → split_loop curr w ≡ (curr ++ w) ∷ []
unfolding split_loop string_of
split_loop-end curr [] h = ap (λ (c : Bytes). c ∷ []) (sym (append-nil curr))
split_loop-end curr (c ∷ cs) h =
    let f = plain_facts c h.0 in
    let t : (c == b'|') ≡ false = ground arith in
    let u : ltb c 0x80 ≡ true = ground arith in
    rw (t, u, split_loop, string_of)
      (split_loop-end (curr ++ c ∷ []) cs h.1
        ∙ ap (λ (x : Bytes). x ∷ []) (append_assoc curr (c ∷ []) cs))

split_loop-join :
    (w : Bytes) (ws : List Bytes) → AllPlain (w ∷ ws) → split_loop [] (join w ws) ≡ w ∷ ws
unfolding join
split_loop-join w [] h = split_loop-end [] w h.0
split_loop-join w (v ∷ vs) h =
    split_loop-bar [] w (join v vs) h.0 ∙ ap (◌∷◌ w) (split_loop-join v vs h.1)

split_by_pipe-split_loop : (s : Bytes) → split_by_pipe s ≡ split_loop [] (first_bytes 0 s)
unfolding split_by_pipe split_loop first_bytes
split_by_pipe-split_loop [] = refl
split_by_pipe-split_loop (b ∷ bs) = refl

-- a property of plain bytes and of the bar holds of what is joined
All-join :
    (P : ℕ → Type 0) (w : Bytes) (ws : List Bytes)
    → ((c : ℕ) → is_plain c ≡ true → P c)
    → P b'|'
    → AllPlain (w ∷ ws)
    → All P (join w ws)
unfolding join
All-join P w [] f b h = All-map (λ c. is_plain c ≡ true) P w f h.0
All-join P w (v ∷ vs) f b h =
    All-append P w (b'|' ∷ join v vs) (All-map (λ c. is_plain c ≡ true) P w f h.0)
      (b, All-join P v vs f b h.1)

split_by_pipe-choices :
    (a : Alternatives) → AllPlain (choices a) → split_by_pipe (written_choices a) ≡ choices a
split_by_pipe-choices a h =
    split_by_pipe-split_loop (written_choices a)
    ∙ ap (split_loop []) (
        first_bytes-ascii (written_choices a)
          (All-join (λ c. c < 0x80) a.first a.others (λ c p. (plain_facts c p).0) (omega arith) h))
    ∙ split_loop-join a.first a.others h

first_group-none :
    (a : Alternatives) → AllPlain (choices a) → first_group (written_choices a) ≡ none
unfolding first_group
first_group-none a h =
    let n : split_open (written_choices a) ≡ none =
      no_open (written_choices a)
        (All-join (λ c. c ≢ b'(') a.first a.others (λ c p. (plain_facts c p).1) (omega arith) h) in
    rw (n, first_group)

first_group-text :
    (text rest : Bytes) (a : Alternatives)
    → ArePlain text
    → AllPlain (choices a)
    → first_group (text ++ b'(' ∷ (written_choices a ++ b')' ∷ rest))
      ≡ some (text, written_choices a, rest)
unfolding first_group
first_group-text text rest a p h =
    let o = split_open-text text (written_choices a ++ b')' ∷ rest) p in
    let c = split_close-inside (written_choices a) rest (
      All-join (λ c. (c ≢ b'(') × (c ≢ b')')) a.first a.others
        (λ c q. let f = plain_facts c q in (f.1, f.2)) (omega arith, omega arith) h) in
    rw (o, c, first_group)

with_suffixes-map :
    (text a : Bytes) (ws : List Bytes) → with_suffixes (text ++ a) ws ≡ map (λ w. text ++ a ++ w) ws
unfolding with_suffixes
with_suffixes-map text a [] = refl
with_suffixes-map text a (w ∷ ws) = rw (append_assoc text a w, with_suffixes-map text a ws)

products-crossed :
    (text : Bytes) (rest ws : List Bytes) → products text rest ws ≡ crossed text rest ws
unfolding products crossed
products-crossed text [] ws = refl
products-crossed text (a ∷ rest) ws =
    rw (with_suffixes-map text a ws, products-crossed text rest ws)

expand_fuel-words :
    (fuel : ℕ) (gs : List Group) (last : Alternatives)
    → length gs < fuel
    → IsPattern gs last
    → expand_fuel fuel (written gs last) ≡ some (words gs last)
unfolding expand_fuel written words
expand_fuel-words zero gs last h p = absurd (omega arith)
expand_fuel-words (suc fuel) [] last h p =
    rw (first_group-none last p.0, expand_fuel) (ap some (split_by_pipe-choices last p.0))
expand_fuel-words (suc fuel) (g ∷ gs) last h p =
    rw (first_group-text g.text (written gs last) g.inside p.1.0.0 p.1.0.1, expand_fuel)
      (ap (all_products g.text (written_choices g.inside))
          (expand_fuel-words fuel gs last (omega arith) (p.0, p.1.1))
        ∙ ap (λ (ps : List Bytes). some (products g.text ps (words gs last)))
            (split_by_pipe-choices g.inside p.1.0.1)
        ∙ ap some (products-crossed g.text (choices g.inside) (words gs last)))

length-written : (gs : List Group) (last : Alternatives) → length gs ≤ length (written gs last)
unfolding written
length-written [] last = omega arith
length-written (g ∷ gs) last = omega (
  arith,
  length-written gs last,
  length-append g.text (b'(' ∷ (written_choices g.inside ++ b')' ∷ written gs last)),
  length-append (written_choices g.inside) (b')' ∷ written gs last),
)

-- A pattern that is written as texts with groups of alternatives, and alternatives at its end, expands
-- to the words that it stands for: each text, with each of its alternatives, in front of each word of
-- the rest. Its bytes must be ASCII and neither brackets nor bars.
pub expand_pattern-words :
    (gs : List Group) (last : Alternatives)
    → IsPattern gs last
    → expand_pattern (written gs last) ≡ some (words gs last)
expand_pattern-words gs last p =
    expand_fuel-words (suc (length (written gs last))) gs last
      (omega (arith, length-written gs last)) p
