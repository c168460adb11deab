-- ===== src/Fragment.antt =====
-- Splitting a ClientHello into records and segments: enimul/internal/core/fragment.go.
-- `sendRecords` is modelled by the list of the calls that it makes on the connection. Each of them
-- ends the function at once when it fails, so a failing connection sees a prefix of the list.
pub mod Parts
pub mod Stream
pub mod Records
pub mod Urgent
use lumine_for_android.Prelude.{
  Bytes, slice, ℕ, zero, suc, ◌+◌, ◌-◌, ◌*◌, ◌/◌, ◌%◌, ◌^◌, Bool, false, ◌&&◌, ◌||◌, Option, none,
  some, List, [], ◌∷◌, ◌++◌, map, ltb, leb, ◌==◌, if◌then◌else◌, length, get_elem?, set, take, drop,
  Outcome, ◌>>=◌, or_panic, ok, ℤ, ◌-ℤ◌, pos, negsuc,
}

-- `conn.Write(b)`, `sendWithOOB(conn, b, oob)` and `waitForAck`
pub data Action : Type 0 where
  write : Bytes → Action
  write_oob : Bytes → ℕ → Action
  wait_ack : Action

abbrev pub Plan : Type 0
Plan = Outcome (Unit {0}) (List Action)

-- `bytes.LastIndexByte`
unfoldable pub last_index : ℕ → Bytes → Option ℕ
last_index c [] = none
last_index c (x ∷ xs) = elim (last_index c xs) [
  | some i ↦ some (suc i)
  | none ↦ if x == c then some 0 else none
]

abbrev cut_at : ℕ → ℕ → Option ℕ → ℕ
cut_at start len none = len / 2 + start
cut_at start len (some i) = start + i

-- `findLastDotOrMidPos`
unfoldable pub find_cut : Bytes → ℤ → ℕ → ℕ
find_cut d (negsuc _) len = length d / 2
find_cut d (pos start) len =
    if len == 0 || ltb (length d) (start + len)
    then length d / 2
    else cut_at start len (last_index b'.' (take len (drop start d)))

-- `makeRecord`; the length is cut to 16 bits
unfoldable pub make_record : Bytes → Bytes → Bytes
make_record header payload =
    let n = length payload % 2 ^ 16 in
    take 3 (header ++ 0 ∷ 0 ∷ 0 ∷ []) ++ (n / 256) ∷ (n % 256) ∷ payload

-- a part as it is, or in a record of its own
abbrev pub wrap : Option Bytes → Bytes → Bytes
wrap none part = part
wrap (some header) part = make_record header part

-- the loop `for i := range n`, with `left` rounds to go; the last part takes what is left
unfoldable pub parts_from : ℕ → ℕ → ℕ → Bytes → List Bytes
parts_from zero i base d = []
parts_from (suc left) i base d =
    (if left == 0 then drop (i * base) d else take ((i + 1) * base - i * base) (drop (i * base) d))
    ∷ parts_from left (i + 1) base d

-- `splitAndAppend`: what it appends
unfoldable pub split_and_append : Bytes → Option Bytes → ℕ → List Bytes
split_and_append d header n =
    if n == 0
    then []
    else if n == 1 || ltb (length d) n
    then wrap header d ∷ []
    else map (wrap header) (parts_from n 0 (length d / n) d)

-- the two loops over packets and segments: urgent data goes with the first only
unfoldable pub send_parts : Bool → List Bytes → List Action
send_parts oob [] = []
send_parts oob (p ∷ ps) = (if oob then write_oob p 0 else write p) ∷ wait_ack ∷ send_parts false ps

-- the normalized `segments`
pub data Segments : Type 0 where
  records_only : Segments
  segments : ℕ → Segments

unfoldable pub normal_segments : ℤ → Segments
normal_segments (negsuc _) = records_only
normal_segments (pos n) = if n == 0 then segments 1 else segments n

unfoldable pub normal_records : ℤ → ℕ
normal_records (negsuc _) = 1
normal_records (pos n) = if n == 0 then 1 else n

-- `clientHello[2] = minorVersion.Byte()`
unfoldable pub stamp : Option ℕ → Bytes → Bytes
stamp none hello = hello
stamp (some v) hello = set hello 2 v

-- the three calls of `oobex` on the first 35 bytes
unfoldable pub urgent_prefix : Bytes → Plan
urgent_prefix b = do
  first ← or_panic (slice b 0 15)
  urgent ← or_panic (get_elem? b 15)
  second ← or_panic (slice b 16 35)
  ok (write_oob first urgent ∷ write_oob second 0 ∷ wait_ack ∷ [])

-- behind `if segments == 1`, and the split of one record into packets
unfoldable pub one_record : Bytes → ℤ → ℕ → ℕ → Bool → List Action
one_record hello offset len n oob =
    if n == 1
    then write hello ∷ []
    else (let cut = find_cut hello offset len in
        let left = n / 2 in
        send_parts oob (
          split_and_append (take cut hello) none left
          ++ split_and_append (drop cut hello) none (n - left)))

-- `segments < 1` counts as 1 where there is one record
abbrev pub segment_count : Segments → ℕ
segment_count records_only = 1
segment_count (segments n) = n

unfoldable pub send_one : Bytes → ℤ → ℕ → Segments → Bool → Bool → Plan
send_one hello offset len segs oob oobex =
    let plain = one_record hello offset len (segment_count segs) oob in
    let urgent = (do
      first ← urgent_prefix hello
      ok (first ++ one_record (drop 35 hello) (offset -ℤ pos 35) len (segment_count segs) oob)) in
    if oobex then urgent else ok plain

-- the records of a split into several
unfoldable pub record_chunks : Bytes → ℤ → ℕ → ℕ → Outcome (Unit {0}) (List Bytes)
record_chunks hello offset len records = do
  let cut = find_cut hello offset len
  let left = records / 2
  front ← or_panic (slice hello 5 cut)
  ok (
      split_and_append front (some (take 3 hello)) left
      ++ split_and_append (drop cut hello) (some (take 3 hello)) (records - left))

-- the round for the first chunk of "records only"
unfoldable pub first_chunk : Bytes → Bool → Bool → Plan
first_chunk chunk oob oobex =
    let l = length chunk in
    let split_last = (do
      front ← or_panic (slice chunk 0 (l - 1))
      last ← or_panic (get_elem? chunk (l - 1))
      ok (write_oob front last ∷ wait_ack ∷ [])) in
    if oob
    then ok (write_oob chunk 0 ∷ wait_ack ∷ [])
    else if oobex
    then split_last
    else ok (wait_ack ∷ [])

-- the rounds behind the first; the second chunk carries urgent data under `oobex`
unfoldable pub later_chunks : Bool → List Bytes → List Action
later_chunks oobex [] = []
later_chunks oobex (c ∷ cs) =
    (if oobex then write_oob c 0 else write c) ∷ wait_ack ∷ later_chunks false cs

unfoldable pub send_chunks : List Bytes → Bool → Bool → Plan
send_chunks [] oob oobex = ok []
send_chunks (c ∷ cs) oob oobex = do
  first ← first_chunk c oob oobex
  ok (first ++ later_chunks oobex cs)

-- the merged records, cut into segments
unfoldable pub send_merged : Bytes → ℕ → Bool → List Action
send_merged merged n oob =
    if n == 1 || leb (length merged) n
    then write merged ∷ []
    else send_parts oob (parts_from n 0 (length merged / n) merged)

abbrev pub flatten : List Bytes → Bytes
flatten [] = []
flatten (c ∷ cs) = c ++ flatten cs

unfoldable pub send_segments : List Bytes → ℕ → Bool → Bool → Plan
send_segments chunks n oob oobex =
    let merged = flatten chunks in
    let urgent = (do
      first ← urgent_prefix merged
      ok (first ++ send_merged (drop 35 merged) n oob)) in
    if oobex then urgent else ok (send_merged merged n oob)

unfoldable pub send_many : Bytes → ℤ → ℕ → ℕ → Segments → Bool → Bool → Plan
send_many hello offset len records records_only oob oobex = do
  chunks ← record_chunks hello offset len records
  send_chunks chunks oob oobex
send_many hello offset len records (segments n) oob oobex = do
  chunks ← record_chunks hello offset len records
  send_segments chunks n oob oobex

-- `sendRecords`
unfoldable pub send_records : Bytes → ℤ → ℕ → ℤ → ℤ → Option ℕ → Bool → Bool → Plan
send_records hello offset len records segs minor oob oobex =
    let n = normal_records records in
    let s = normal_segments segs in
    let one = send_one (stamp minor hello) offset len s oob oobex in
    let many = send_many (stamp minor hello) offset len n s oob oobex in
    if ltb (length hello) 5
    then ok (write hello ∷ [])
    else if oobex && ltb (length hello) 35
    then ok (write hello ∷ [])
    else if n == 1
    then one
    else many
