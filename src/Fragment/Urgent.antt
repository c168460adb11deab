-- ===== src/Fragment/Urgent.antt =====
-- `sendRecords` with urgent data, and with "records only".
use Prim.Native.Nat.add
use lumine_for_android.Prelude.{
  Bytes, ℕ, zero, suc, ◌+◌, ◌-◌, ◌/◌, ◌≤◌, ◌<◌, ◌≡◌, refl, sym, ap, ◌∙◌, inl, inr, true, false,
  Option, some, List, [], ◌∷◌, ◌++◌, map, append_assoc, arith, ltb, leb, ◌==◌, Bool-cases, length,
  get_elem?, take, drop, take-append-drop, drop-add, ok, ℤ, ◌-ℤ◌, ◌≤ℤ◌, pos, negsuc,
}
use lumine_for_android.Fragment.{
  find_cut, Action, send_parts, normal_segments, stamp, urgent_prefix, one_record, segment_count,
  send_one, record_chunks, flatten, send_records, write, write_oob, wait_ack, make_record, wrap,
  first_chunk, later_chunks, send_chunks, send_many,
}
use lumine_for_android.Fragment.Parts.{parts, parts-cons}
use lumine_for_android.Fragment.Stream.{
  wire, wire-one_record, wire-send_parts, pieces, record_chunks-ok,
}
use lumine_for_android.Fragment.Records.{
  normal_records_one, segment_count_pos, length-stamp, length-make_record, normal_records_pos,
}

-- The bytes as a peer reads them that takes urgent data in line.
abbrev pub inline : List Action → Bytes
inline [] = []
inline (write b ∷ acts) = b ++ inline acts
inline (write_oob b urgent ∷ acts) = b ++ urgent ∷ inline acts
inline (wait_ack ∷ acts) = inline acts

inline-send_parts : (ps : List Bytes) → inline (send_parts false ps) ≡ flatten ps
unfolding send_parts
inline-send_parts [] = refl
inline-send_parts (p ∷ ps) = ap (◌++◌ p) (inline-send_parts ps)

inline-one_record :
    (hello : Bytes) (offset : ℤ) (len n : ℕ)
    → inline (one_record hello offset len n false) ≡ wire (one_record hello offset len n false)
unfolding one_record
inline-one_record hello offset len n = elim (Bool-cases (n == 1)) [
  | inl e ↦ rw e
  | inr e ↦ rw (e, inline-send_parts, wire-send_parts)
]

take-get_elem? :
    (b : Bytes) (i k u : ℕ)
    → get_elem? b i ≡ some u
    → take (i + suc k) b ≡ take i b ++ u ∷ take k (drop (suc i) b)
take-get_elem? [] i k u h = cc
take-get_elem? (x ∷ b) zero k u h = rw add.zero (ground arith)
take-get_elem? (x ∷ b) (suc i) k u h = rw add.suc (ap (◌∷◌ x) (take-get_elem? b i k u h))

split_at_35 : (x : Bytes) → take 19 (drop 16 x) ++ drop 35 x ≡ drop 16 x
split_at_35 x = ap (◌++◌ (take 19 (drop 16 x))) (drop-add 16 19 x) ∙ take-append-drop 19 (drop 16 x)

take_35 :
    (x : Bytes) (u : ℕ) (rest : Bytes)
    → get_elem? x 15 ≡ some u
    → take 35 x ++ rest ≡ take 15 x ++ u ∷ (take 19 (drop 16 x) ++ rest)
take_35 x u rest h =
    ap (λ (t : Bytes). t ++ rest) (take-get_elem? x 15 19 u h)
    ∙ append_assoc (take 15 x) (u ∷ take 19 (drop 16 x)) rest

get_elem?-lt : (b : Bytes) (i : ℕ) → i < length b → (u : ℕ) × (get_elem? b i ≡ some u)
get_elem?-lt [] i h = elim h [ ]
get_elem?-lt (x ∷ b) zero h = (x, refl)
get_elem?-lt (x ∷ b) (suc i) h = get_elem?-lt b i (omega arith)

urgent_prefix-ok :
    (b : Bytes)
    → 35 ≤ length b
    → (u : ℕ) × (get_elem? b 15 ≡ some u)
      × (urgent_prefix b
          ≡ ok (write_oob (take 15 b) u ∷ write_oob (take 19 (drop 16 b)) 0 ∷ wait_ack ∷ []))
unfolding urgent_prefix
urgent_prefix-ok b h =
    let (u, e) = get_elem?-lt b 15 (omega arith) in
    let s : leb 15 (length b) ≡ true = ground arith in
    let t : leb 35 (length b) ≡ true = ground arith in (u, e, rw (s, t, e))

-- With at most one record, with `oobex` and without `oob`, on 35 bytes or more: the in-band stream is the ClientHello without
-- its byte 15, and a peer that takes urgent data in line reads the ClientHello with one zero byte
-- put in behind the first 35 bytes.
pub one_record-urgent :
    (hello : Bytes) (offset : ℤ) (len : ℕ) (records segs : ℤ) (minor : Option ℕ)
    → 35 ≤ length hello
    → records ≤ℤ pos 1
    → (acts : List Action) × (send_records hello offset len records segs minor false true ≡ ok acts)
      × (wire acts ≡ take 15 (stamp minor hello) ++ drop 16 (stamp minor hello))
      × (inline acts ≡ take 35 (stamp minor hello) ++ 0 ∷ drop 35 (stamp minor hello))
unfolding send_records send_one
one_record-urgent hello offset len records segs minor h r =
    let x = stamp minor hello in
    let lx : length x ≡ length hello = length-stamp minor hello in
    let count = segment_count (normal_segments segs) in
    let (u, at, prefix) = urgent_prefix-ok x (omega arith) in
    let rest = one_record (drop 35 x) (offset -ℤ pos 35) len count false in
    let w : wire rest ≡ drop 35 x =
      wire-one_record (drop 35 x) (offset -ℤ pos 35) len count false (segment_count_pos segs) in
    let i : inline rest ≡ drop 35 x =
      inline-one_record (drop 35 x) (offset -ℤ pos 35) len count ∙ w in
    let t0 : ltb (length hello) 5 ≡ false = ground arith in
    let t1 : ltb (length hello) 35 ≡ false = ground arith in
    (
      write_oob (take 15 x) u ∷ write_oob (take 19 (drop 16 x)) 0 ∷ wait_ack ∷ rest,
      rw (t0, t1, normal_records_one records r, prefix),
      ap (λ (t : Bytes). take 15 x ++ (take 19 (drop 16 x) ++ t)) w
          ∙ ap (◌++◌ (take 15 x)) (split_at_35 x),
      ap (λ (t : Bytes). take 15 x ++ u ∷ (take 19 (drop 16 x) ++ 0 ∷ t)) i
          ∙ sym (take_35 x u (0 ∷ drop 35 x) at),
    )

wire-later_chunks : (cs : List Bytes) → wire (later_chunks false cs) ≡ flatten cs
unfolding later_chunks
wire-later_chunks [] = refl
wire-later_chunks (c ∷ cs) = ap (◌++◌ c) (wire-later_chunks cs)

-- With two records or more, "records only" and no urgent data, the first record is never written:
-- the wire carries the records behind it alone.
pub records_only-drops_first :
    (hello : Bytes) (offset : ℤ) (len records n : ℕ) (minor : Option ℕ)
    → 5 ≤ length hello
    → 5 ≤ find_cut (stamp minor hello) offset len
    → 2 ≤ records
    → (first : Bytes) × (rest : List Bytes) × (acts : List Action) × (record_chunks
          (stamp minor hello)
          offset
          len
          records
        ≡ ok (first ∷ rest))
      × (2 ≤ length first)
      × (send_records hello offset len (pos records) (negsuc n) minor false false ≡ ok acts)
      × (wire acts ≡ flatten rest)
unfolding send_records send_many send_chunks first_chunk normal_segments pieces
records_only-drops_first hello offset len records n minor h cut two =
    let x = stamp minor hello in
    let c = find_cut x offset len in
    let header = take 3 x in
    let (p, ps, e) = parts-cons (take (c - 5) (drop 5 x)) (records / 2) (omega arith) in
    let rest = map (wrap (some header)) (ps ++ parts (drop c x) (records - records / 2)) in
    let chunks : record_chunks x offset len records ≡ ok (make_record header p ∷ rest) =
      record_chunks-ok x offset len records cut ∙ (rw e) in
    let t0 : ltb (length hello) 5 ≡ false = ground arith in
    let t2 : (records == 1) ≡ false = ground arith in
    (
      make_record header p,
      rest,
      wait_ack ∷ later_chunks false rest,
      chunks,
      length-make_record header p,
      rw (t0, normal_records_pos records (omega arith), t2, chunks),
      wire-later_chunks rest,
    )
