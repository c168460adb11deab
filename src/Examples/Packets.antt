-- ===== src/Examples/Packets.antt =====
-- A ClientHello for "a.b", split and sent.
use lumine_for_android.Prelude.{
  guard, Bytes, codes, ◌≤◌, ◌≡◌, refl, inr, true, false, none, some, List, [], ◌∷◌, ◌++◌, arith,
  length, take, drop, replicate, guard, Returns, ok, err, pos, negsuc,
}
use lumine_for_android.Tls.{byte_at, u16_at, handshake_too_short, header, Hello, parse_client_hello}
use lumine_for_android.Tls.Bounds.{SniInside, parse_client_hello-Returns}
use lumine_for_android.Fragment.{
  Action, send_records, stamp, record_chunks, flatten, find_cut, last_index,
}
use lumine_for_android.Fragment.Stream.{wire}
use lumine_for_android.Fragment.Records.{one_record-wire, send_records-reassembles, read_all}
use lumine_for_android.Fragment.Urgent.{inline, one_record-urgent, records_only-drops_first}
use lumine_for_android.Policy.{zero_policy, Mode}
use lumine_for_android.Addrtrie.Domain.{new_node}
use lumine_for_android.TunConn.{
  handle_record, record_length, write_bytes, Env, TunPlan, TunConn, Done, fine,
}
use lumine_for_android.TunConn.Stream.{
  IsUp, Carries, IsOpaque, payload, write_bytes-Carries, handle_record-unparsed,
}

abbrev hello : Bytes
hello =
    22 ∷ 3 ∷ 1 ∷ 0 ∷ 59 ∷ 1 ∷ 0 ∷ 0 ∷ 55 ∷ 3 ∷ 3 ∷ replicate 32 7
    ++ (0 ∷ 0 ∷ 2 ∷ 19 ∷ 1 ∷ 1 ∷ 0 ∷ 0 ∷ 12 ∷ 0 ∷ 0 ∷ 0 ∷ 8 ∷ 0 ∷ 6 ∷ 0 ∷ 0 ∷ 3 ∷ 97 ∷ 46 ∷ 98 ∷ [])

parse_client_hello-Returns_example :
    Returns (λ (r : Hello). SniInside hello r.seen.sni) (parse_client_hello hello)
parse_client_hello-Returns_example = parse_client_hello-Returns hello (omega arith)

one_record-wire_example :
    (acts : List Action) × (send_records hello (pos 61) 3 (pos 1) (pos 2) (some 3) false false
      ≡ ok acts)
    × (wire acts ≡ stamp (some 3) hello)
one_record-wire_example =
    one_record-wire hello (pos 61) 3 (pos 1) (pos 2) (some 3) false (omega arith) (omega arith)

send_records-reassembles_example :
    (acts : List Action) × (send_records hello (pos 61) 3 (pos 3) (pos 2) none false false
      ≡ ok acts)
    × (read_all (wire acts) ≡ some (drop 5 (stamp none hello)))
send_records-reassembles_example =
    send_records-reassembles hello 61 3 3 2 none false (omega arith) (omega arith) (omega arith)
      (omega arith) (omega arith)

one_record-urgent_example :
    (acts : List Action) × (send_records hello (pos 61) 3 (pos 1) (pos 2) none false true ≡ ok acts)
    × (wire acts ≡ take 15 (stamp none hello) ++ drop 16 (stamp none hello))
    × (inline acts ≡ take 35 (stamp none hello) ++ 0 ∷ drop 35 (stamp none hello))
one_record-urgent_example =
    one_record-urgent hello (pos 61) 3 (pos 1) (pos 2) none (omega arith) (omega arith)

cut_behind_header : 5 ≤ find_cut (stamp none hello) (pos 61) 3
unfolding find_cut stamp last_index
cut_behind_header = omega arith

records_only-drops_first_example :
    (first : Bytes) × (rest : List Bytes) × (acts : List Action) × (record_chunks
        (stamp none hello)
        (pos 61)
        3
        2
      ≡ ok (first ∷ rest))
    × (2 ≤ length first)
    × (send_records hello (pos 61) 3 (pos 2) (negsuc 0) none false false ≡ ok acts)
    × (wire acts ≡ flatten rest)
records_only-drops_first_example =
    records_only-drops_first hello (pos 61) 3 2 0 none (omega arith) cut_behind_header (omega arith)

-- a connection below that never fails, and a plan that leaves the traffic as it is
abbrev env : Env
env = record {
  succeeds = λ _ _. true;
  get_fake_ttl = λ _ _. none;
  domains = new_node;
  default_policy = zero_policy;
}

abbrev plan : TunPlan
plan = record {
  blocked = false;
  target_host = codes "a.b";
  policy = record zero_policy { mode = Mode.direct };
}

env-IsUp : IsUp env
unfolding IsUp
env-IsUp es e = refl

-- an open connection with two bytes of a request pending
abbrev waiting : TunConn
waiting = record { handled = false; closed = false; pending = codes "GE"; events = [] }

waiting-Carries : Carries (codes "GE") waiting
unfolding Carries payload
waiting-Carries = (refl, refl, λ h. absurd (cc))

request-IsOpaque : IsOpaque env plan (codes "GET / HTTP/1.1")
unfolding IsOpaque record_length
request-IsOpaque = inr refl

write_bytes-Carries_example :
    Returns
      (λ (r : Done × TunConn). (r.0 ≡ fine) × Carries (codes "GET / HTTP/1.1") r.1)
      (write_bytes env plan (codes "T / HTTP/1.1") waiting)
write_bytes-Carries_example =
    write_bytes-Carries env plan (codes "GE") (codes "T / HTTP/1.1") waiting env-IsUp refl refl
      request-IsOpaque waiting-Carries

-- a record of one byte, which is no hello, and two bytes behind it
abbrev garbled : TunConn
garbled = record {
  handled = false;
  closed = false;
  pending = 22 ∷ 3 ∷ 1 ∷ 0 ∷ 1 ∷ 9 ∷ 65 ∷ 66 ∷ [];
  events = [];
}

garbled_unparsed : parse_client_hello (22 ∷ 3 ∷ 1 ∷ 0 ∷ 1 ∷ 9 ∷ []) ≡ err handshake_too_short
unfolding parse_client_hello header guard byte_at u16_at
garbled_unparsed = refl

handle_record-unparsed_example :
    Returns
      (λ (c' : TunConn). payload c'.events ≡ payload [] ++ garbled.pending ++ 65 ∷ 66 ∷ [])
      (handle_record env plan 6 garbled)
handle_record-unparsed_example =
    handle_record-unparsed env plan garbled 6 65 (66 ∷ []) handshake_too_short refl env-IsUp
      garbled_unparsed refl
