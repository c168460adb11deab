-- ===== src/Fragment/Stream.antt =====
-- What the peer reads of a fragmented ClientHello.
use mathlib.Core.Option
use lumine_for_android.Prelude.{
  Bytes, ℕ, zero, suc, ◌+◌, ◌-◌, ◌*◌, ◌/◌, ◌%◌, ◌^◌, ◌≤◌, ◌<◌, ◌≡◌, refl, sym, ap, ◌∙◌, inl, inr,
  Bool, true, false, ◌&&◌, Option, none, some, List, [], ◌∷◌, ◌++◌, map, append-nil, append_assoc,
  arith, leb, ◌==◌, if◌then◌else◌, Bool-cases, length, length-append, take, drop, take-append-drop,
  drop-add, take-append_length, drop-append_length, All, ok, ℤ,
}
use lumine_for_android.Fragment.{
  find_cut, Action, make_record, wrap, split_and_append, send_parts, one_record, flatten, write,
  write_oob, wait_ack, record_chunks,
}
use lumine_for_android.Fragment.Parts.{
  parts, flatten-append, flatten-parts, split-eq-map, find_cut_le,
}

-- The bytes in the stream, without the urgent ones.
abbrev pub wire : List Action → Bytes
wire [] = []
wire (write b ∷ acts) = b ++ wire acts
wire (write_oob b _ ∷ acts) = b ++ wire acts
wire (wait_ack ∷ acts) = wire acts

pub wire-append : (acts more : List Action) → wire (acts ++ more) ≡ wire acts ++ wire more
wire-append [] more = refl
wire-append (write b ∷ acts) more =
    rw (wire-append acts more) (sym (append_assoc b (wire acts) (wire more)))
wire-append (write_oob b _ ∷ acts) more =
    rw (wire-append acts more) (sym (append_assoc b (wire acts) (wire more)))
wire-append (wait_ack ∷ acts) more = wire-append acts more

pub wire-send_parts : (oob : Bool) (ps : List Bytes) → wire (send_parts oob ps) ≡ flatten ps
unfolding send_parts
wire-send_parts oob [] = refl
wire-send_parts true (p ∷ ps) = ap (◌++◌ p) (wire-send_parts false ps)
wire-send_parts false (p ∷ ps) = ap (◌++◌ p) (wire-send_parts false ps)

map_id : (ps : List Bytes) → map (wrap none) ps ≡ ps
map_id [] = refl
map_id (p ∷ ps) = ap (◌∷◌ p) (map_id ps)

flatten-split : (d : Bytes) (n : ℕ) → 0 < n → flatten (split_and_append d none n) ≡ d
flatten-split d n h = rw (split-eq-map d none n, map_id (parts d n)) (flatten-parts d n h)

-- One record, in any number of packets, is the ClientHello unchanged.
pub wire-one_record :
    (hello : Bytes) (offset : ℤ) (len n : ℕ) (oob : Bool)
    → 0 < n
    → wire (one_record hello offset len n oob) ≡ hello
unfolding one_record
wire-one_record hello offset len n oob h = elim (Bool-cases (n == 1)) [
  | inl e ↦ rw e (append-nil hello)
  | inr e ↦
      let cut = find_cut hello offset len in
      let two : 2 ≤ n = ground arith in
      rw
        (
          e,
          wire-send_parts,
          flatten-append,
          flatten-split (take cut hello) (n / 2) (omega arith),
          flatten-split (drop cut hello) (n - n / 2) (omega arith),
        )
        (take-append-drop cut hello)
]

-- A TLS reader: it takes record after record and joins their contents.
pub read_records : ℕ → Bytes → Option Bytes
read_records fuel [] = some []
read_records (suc fuel) (kind ∷ major ∷ minor ∷ hi ∷ lo ∷ rest) =
    let n = hi * 256 + lo in
    let more =
      Option.map (λ (tail : Bytes). take n rest ++ tail) (read_records fuel (drop n rest)) in
    if leb n (length rest) then more else none
read_records _ _ = none

-- A record in front of the stream adds its content.
read-make_record :
    (fuel a b c : ℕ) (p rest tail : Bytes)
    → length p < 2 ^ 16
    → read_records fuel rest ≡ some tail
    → read_records (suc fuel) (make_record (a ∷ b ∷ c ∷ []) p ++ rest) ≡ some (p ++ tail)
unfolding read_records make_record
read-make_record fuel a b c p rest tail h e =
    let n : length p % 2 ^ 16 / 256 * 256 + length p % 2 ^ 16 % 256 ≡ length p = omega arith in
    let fits : leb (length p) (length (p ++ rest)) ≡ true = ground (arith, length-append p rest) in
    rw (n, fits, take-append_length, drop-append_length, e)

pub read-records :
    (ps : List Bytes) (fuel a b c : ℕ)
    → All (λ (p : Bytes). length p < 2 ^ 16) ps
    → length ps ≤ fuel
    → read_records fuel (flatten (map (wrap (some (a ∷ b ∷ c ∷ []))) ps)) ≡ some (flatten ps)
unfolding read_records
read-records [] zero a b c h k = refl
read-records [] (suc fuel) a b c h k = refl
read-records (p ∷ ps) zero a b c h k = absurd (omega arith)
read-records (p ∷ ps) (suc fuel) a b c h k =
    read-make_record fuel a b c p _ (flatten ps) h.0 (read-records ps fuel a b c h.1 (omega arith))

-- What `record_chunks` appends, when the cut lies behind the record header.
unfoldable pub pieces : Bytes → ℤ → ℕ → ℕ → List Bytes
pieces x offset len n =
    let cut = find_cut x offset len in
    parts (take (cut - 5) (drop 5 x)) (n / 2) ++ parts (drop cut x) (n - n / 2)

map_append_wrap :
    (h : Option Bytes) (xs ys : List Bytes)
    → map (wrap h) (xs ++ ys) ≡ map (wrap h) xs ++ map (wrap h) ys
map_append_wrap h [] ys = refl
map_append_wrap h (x ∷ xs) ys = ap (◌∷◌ (wrap h x)) (map_append_wrap h xs ys)

module _ (x : Bytes) (offset : ℤ) (len n : ℕ) where
  pub record_chunks-ok :
      5 ≤ find_cut x offset len
      → record_chunks x offset len n ≡ ok (map (wrap (some (take 3 x))) (pieces x offset len n))
  unfolding record_chunks pieces
  record_chunks-ok h =
      let k : (leb 5 (find_cut x offset len) && leb (find_cut x offset len) (length x)) ≡ true =
        ground (arith, find_cut_le x offset len) in
      rw (k, split-eq-map, split-eq-map, map_append_wrap)

  pub flatten-pieces :
      5 ≤ find_cut x offset len → 2 ≤ n → flatten (pieces x offset len n) ≡ drop 5 x
  unfolding pieces
  flatten-pieces h k =
      let cut = find_cut x offset len in
      let e : cut ≡ 5 + (cut - 5) = omega arith in
      rw
        (
          flatten-append,
          flatten-parts (take (cut - 5) (drop 5 x)) (n / 2) (omega arith),
          flatten-parts (drop cut x) (n - n / 2) (omega arith),
        )
        (ap (λ (t : Bytes). take (cut - 5) (drop 5 x) ++ t)
            (ap (λ (j : ℕ). drop j x) e ∙ drop-add 5 (cut - 5) x)
          ∙ take-append-drop (cut - 5) (drop 5 x))
