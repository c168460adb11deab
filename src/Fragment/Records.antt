-- ===== src/Fragment/Records.antt =====
-- `sendRecords` without urgent data: the peer's TLS stack sees the same handshake bytes.
use lumine_for_android.Prelude.{
  Bytes, ℕ, zero, suc, ◌+◌, ◌-◌, ◌*◌, ◌/◌, ◌%◌, ◌^◌, ◌≤◌, ◌<◌, ◌≡◌, refl, ap, ◌∙◌, inl, inr, Bool,
  false, ◌||◌, Option, none, some, List, [], ◌∷◌, ◌++◌, map, append-nil, arith, ltb, leb, ◌==◌,
  if◌then◌else◌, Bool-cases, suc-==-zero, length, length-append, length-set, take, drop,
  length-take, length-drop, All, All-append, ok, ℤ, ◌≤ℤ◌, pos, negsuc,
}
use lumine_for_android.Fragment.{
  find_cut, Action, wrap, normal_segments, normal_records, stamp, one_record, segment_count,
  send_one, send_merged, flatten, send_records, make_record, parts_from, send_segments, send_many,
  segments,
}
use lumine_for_android.Fragment.Parts.{
  parts, find_cut_le, start-le-find_cut, flatten-parts_from, parts_lengths,
}
use lumine_for_android.Fragment.Stream.{
  wire, wire-one_record, pieces, wire-send_parts, read_records, read-records, flatten-pieces,
  record_chunks-ok,
}

pub length-stamp : (minor : Option ℕ) (hello : Bytes) → length (stamp minor hello) ≡ length hello
unfolding stamp
length-stamp none hello = refl
length-stamp (some v) hello = length-set hello 2 v

pub normal_records_one : (r : ℤ) → r ≤ℤ pos 1 → normal_records r ≡ 1
unfolding normal_records
normal_records_one (negsuc n) h = refl
normal_records_one (pos n) h = ground arith

pub segment_count_pos : (s : ℤ) → 0 < segment_count (normal_segments s)
unfolding normal_segments
segment_count_pos (negsuc n) = omega arith
segment_count_pos (pos zero) = omega arith
segment_count_pos (pos (suc n)) = rw (suc-==-zero n) (omega arith)

-- With at most one record and no `oobex`, on five bytes or more, whatever the number of segments
-- (also "records only"), the bytes of the stream, those of `oob` not counted, are those of the ClientHello, with the minor version replaced where one is configured.
pub one_record-wire :
    (hello : Bytes) (offset : ℤ) (len : ℕ) (records segs : ℤ) (minor : Option ℕ) (oob : Bool)
    → 5 ≤ length hello
    → records ≤ℤ pos 1
    → (acts : List Action) × (send_records hello offset len records segs minor oob false ≡ ok acts)
      × (wire acts ≡ stamp minor hello)
unfolding send_records send_one
one_record-wire hello offset len records segs minor oob h r =
    let count = segment_count (normal_segments segs) in
    let one : normal_records records ≡ 1 = normal_records_one records r in
    let long : ltb (length hello) 5 ≡ false = ground arith in
    (
      one_record (stamp minor hello) offset len count oob,
      rw (long, one),
      wire-one_record (stamp minor hello) offset len count oob (segment_count_pos segs),
    )

All-lt :
    (ps : List Bytes) (m n : ℕ)
    → m ≤ n
    → All (λ (p : Bytes). length p ≤ m) ps
    → All (λ (p : Bytes). length p ≤ n) ps
All-lt [] m n h k = tt
All-lt (p ∷ ps) m n h k = (omega arith, All-lt ps m n h k.1)

pieces_lengths :
    (x : Bytes) (offset : ℤ) (len n : ℕ)
    → 5 ≤ find_cut x offset len
    → length x < 5 + 2 ^ 16
    → All (λ (p : Bytes). length p ≤ 2 ^ 16 - 1) (pieces x offset len n)
unfolding pieces
pieces_lengths x offset len n h k =
    let cut = find_cut x offset len in
    let le : cut ≤ length x = find_cut_le x offset len in
    let front = take (cut - 5) (drop 5 x) in
    let a : length front ≤ 2 ^ 16 - 1 =
      omega (arith, length-take (cut - 5) (drop 5 x), length-drop 5 x) in
    let b : length (drop cut x) ≤ 2 ^ 16 - 1 = omega (arith, length-drop cut x) in
    All-append _ (parts front (n / 2)) _
      (All-lt _ (length front) (2 ^ 16 - 1) a (parts_lengths front (n / 2)))
      (All-lt _ (length (drop cut x)) (2 ^ 16 - 1) b (parts_lengths (drop cut x) (n - n / 2)))

pub length-make_record : (header p : Bytes) → 2 ≤ length (make_record header p)
unfolding make_record
length-make_record header p = omega (
  arith,
  length-append (take 3 (header ++ 0 ∷ 0 ∷ 0 ∷ []))
      ((length p % 2 ^ 16 / 256) ∷ (length p % 2 ^ 16 % 256) ∷ p),
)

length-records :
    (header : Bytes) (ps : List Bytes) → length ps ≤ length (flatten (map (wrap (some header)) ps))
length-records header [] = omega arith
length-records header (p ∷ ps) = omega (
  arith,
  length-append (make_record header p) (flatten (map (wrap (some header)) ps)),
  length-make_record header p,
  length-records header ps,
)

merged_parts : (n base : ℕ) (d : Bytes) → flatten (parts_from (suc n) 0 base d) ≡ d
merged_parts n base d =
    let z : 0 * base ≡ 0 = omega arith in rw z at (flatten-parts_from n 0 base d)

wire-send_merged :
    (merged : Bytes) (n : ℕ) (oob : Bool) → 0 < n → wire (send_merged merged n oob) ≡ merged
unfolding send_merged
wire-send_merged merged zero oob h = absurd (omega arith)
wire-send_merged merged (suc n) oob h =
    elim (Bool-cases (suc n == 1 || leb (length merged) (suc n))) [
      | inl e ↦ rw e (append-nil merged)
      | inr e ↦ rw (e, wire-send_parts) (merged_parts n (length merged / suc n) merged)
    ]

All-below :
    (ps : List Bytes)
    → All (λ (p : Bytes). length p ≤ 2 ^ 16 - 1) ps
    → All (λ (p : Bytes). length p < 2 ^ 16) ps
All-below [] k = tt
All-below (p ∷ ps) k = (omega arith, All-below ps k.1)

-- The whole stream, read by `read_records`.
pub read_all : Bytes → Option Bytes
read_all s = read_records (length s) s

read_all-records :
    (x : Bytes) (ps : List Bytes)
    → 5 ≤ length x
    → All (λ (p : Bytes). length p ≤ 2 ^ 16 - 1) ps
    → read_all (flatten (map (wrap (some (take 3 x))) ps)) ≡ some (flatten ps)
unfolding read_all
read_all-records (a ∷ b ∷ c ∷ x) ps h k =
    read-records ps _ a b c (All-below ps k) (length-records (a ∷ b ∷ c ∷ []) ps)
read_all-records [] ps h k = absurd (omega arith)
read_all-records (a ∷ []) ps h k = absurd (omega arith)
read_all-records (a ∷ b ∷ []) ps h k = absurd (omega arith)

pub normal_records_pos : (n : ℕ) → 0 < n → normal_records (pos n) ≡ n
unfolding normal_records
normal_records_pos n h = ground arith

normal_segments_pos : (n : ℕ) → normal_segments (pos n) ≡ segments (if n == 0 then 1 else n)
unfolding normal_segments
normal_segments_pos n = ground arith

-- With two records or more, any number of segments that is not negative (so not "records only"), no
-- `oobex`, and with or without `oob`, which is not counted in the stream, a name inside the ClientHello behind the record
-- header, and a ClientHello that fits one record, the peer's reader gets from the stream exactly
-- what it would get from the one record: nothing is lost, doubled or reordered.
pub send_records-reassembles :
    (hello : Bytes) (start len records segs : ℕ) (minor : Option ℕ) (oob : Bool)
    → 0 < len
    → 5 ≤ start
    → start + len ≤ length hello
    → length hello < 5 + 2 ^ 16
    → 2 ≤ records
    → (acts : List Action) × (send_records hello
          (pos start)
          len
          (pos records)
          (pos segs)
          minor
          oob
          false
        ≡ ok acts)
      × (read_all (wire acts) ≡ some (drop 5 (stamp minor hello)))
unfolding send_records send_many send_segments
send_records-reassembles hello start len records segs minor oob h s fits small two =
    let x = stamp minor hello in
    let n = (if segs == 0 then 1 else segs) in
    let lx : length x ≡ length hello = length-stamp minor hello in
    let cut : 5 ≤ find_cut x (pos start) len =
      omega (arith, start-le-find_cut x start len h (omega arith)) in
    let ps = pieces x (pos start) len records in
    let merged = flatten (map (wrap (some (take 3 x))) ps) in
    let n-pos : 0 < n = ground arith in
    let t0 : ltb (length hello) 5 ≡ false = ground arith in
    let t1 : normal_records (pos records) ≡ records = normal_records_pos records (omega arith) in
    let t2 : (records == 1) ≡ false = ground arith in
    (
      send_merged merged n oob,
      rw (t0, t1, t2, normal_segments_pos segs, record_chunks-ok x (pos start) len records cut),
      rw (wire-send_merged merged n oob n-pos) (
          read_all-records x ps (omega arith)
            (pieces_lengths x (pos start) len records cut (omega arith))
          ∙ ap some (flatten-pieces x (pos start) len records cut two)),
    )
