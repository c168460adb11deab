-- ===== src/Dns.antt =====
-- The DNS client above its transports: `exchangeMsg`, `doDNSResolve` and `dnsResolve` of
-- enimul/internal/core/dns.go. What an upstream answers is a parameter; it may depend on how many
-- exchanges were made before. The cache is the library internal/freelru, a parameter too. The group
-- of `singleflight` only merges calls that run at the same time.
pub mod Rotation
pub mod Family
pub mod Cached
use lumine_for_android.Prelude.{
  Bytes, codes, ℕ, zero, suc, ◌+◌, ◌%◌, Bool, not, ◌&&◌, Option, none, some, List, [], ◌∷◌, ◌++◌,
  ◌==◌, if◌then◌else◌, Outcome, ◌>>=◌, ok, err, panic, out_of_fuel, ℤ, eqb_ℤ, pos,
}
use lumine_for_android.Policy.{DnsMode, unset_int}

pub data QueryType : Type 0 where
  type_a type_aaaa : QueryType

-- A query with its question, if one was set, and whether the option of `edns0_subnet` is added.
pub record Query : Type 0 where
  pub question : Option (Bytes × QueryType)
  pub with_subnet : Bool

-- A resource record, its address as the text that `String` gives.
pub data ResourceRecord : Type 0 where
  record_a record_aaaa : Bytes → ResourceRecord
  other_record : ResourceRecord

pub record Response : Type 0 where
  pub rcode : ℕ
  pub answer : List ResourceRecord

pub data DnsError : Type 0 where
  no_dns_upstream dns_exchange bad_rcode record_not_found : DnsError

-- `pickFirstARecord` and `pickFirstAAAARecord`
unfoldable pub pick_first_a_record : List ResourceRecord → Option Bytes
pick_first_a_record [] = none
pick_first_a_record (record_a ip ∷ rs) = some ip
pick_first_a_record (record_aaaa ip ∷ rs) = pick_first_a_record rs
pick_first_a_record (other_record ∷ rs) = pick_first_a_record rs

unfoldable pub pick_first_aaaa_record : List ResourceRecord → Option Bytes
pick_first_aaaa_record [] = none
pick_first_aaaa_record (record_a ip ∷ rs) = pick_first_aaaa_record rs
pick_first_aaaa_record (record_aaaa ip ∷ rs) = some ip
pick_first_aaaa_record (other_record ∷ rs) = pick_first_aaaa_record rs

abbrev pub pick_first : QueryType → List ResourceRecord → Option Bytes
pick_first type_a rs = pick_first_a_record rs
pick_first type_aaaa rs = pick_first_aaaa_record rs

-- `Get` and `AddWithLifetime`
pub record NameCache (C : Type 0) : Type 0 where
  pub get : C → Bytes → Option Bytes
  pub add : C → Bytes → Bytes → ℤ → C

-- `dnsExchanges`, by their number, and `dnsExchange`: what each gives for a query, the exchanges
-- made before being counted; and whether `edns0SubnetOpt` is set.
pub record Upstreams : Type 0 where
  pub count : ℕ
  pub exchange : ℕ → ℕ → Query → Option Response
  pub single : Option (ℕ → Query → Option Response)
  pub has_subnet : Bool

-- `dnsExchangeIdx` and `dnsCache`, and how many exchanges were made
pub record DnsState (C : Type 0) : Type 0 where
  pub index : ℕ
  pub calls : ℕ
  pub cache : Option C

-- `ip.String()` of a nil `net.IP`: "<nil>"
abbrev pub nil_text : Bytes
nil_text = codes "<nil>"

module _ {C : Type 0} (lru : NameCache C) (up : Upstreams) where
  abbrev pub counted : DnsState C → DnsState C
  counted s = record s { calls = suc s.calls }

  -- the loop of `exchangeMsg`, with `k` rounds left
  unfoldable pub exchange_loop :
      ℕ → ℕ → ℕ → Query → DnsState C → Outcome DnsError Response × DnsState C
  exchange_loop zero i start q s = (err dns_exchange, record s { index = 0 })
  exchange_loop (suc k) i start q s = elim (up.exchange ((start + i) % up.count) s.calls q) [
    | some resp ↦ (ok resp, record (counted s) { index = (start + i) % up.count })
    | none ↦ exchange_loop k (suc i) start q (counted s)
  ]

  abbrev pub answered : Option Response → Outcome DnsError Response
  answered (some resp) = ok resp
  answered none = err dns_exchange

  abbrev pub exchange_single :
      Option (ℕ → Query → Option Response)
      → Query
      → DnsState C
      → Outcome DnsError Response × DnsState C
  exchange_single none q s = (err no_dns_upstream, s)
  exchange_single (some f) q s = (answered (f s.calls q), counted s)

  -- `exchangeMsg`
  unfoldable pub exchange_msg : Query → DnsState C → Outcome DnsError Response × DnsState C
  exchange_msg q s =
      if up.count == 0
      then exchange_single up.single q s
      else exchange_loop up.count 0 (s.index % up.count) q s

  -- `msg.SetQuestion(domain+".", …)`, and the extra record
  abbrev pub query : Bytes → QueryType → Query
  query domain t = record { question = some (domain ++ codes ".", t); with_subnet = up.has_subnet }

  abbrev pub no_question : Query
  no_question = record { question = none; with_subnet = up.has_subnet }

  -- the answers of a response that succeeded
  abbrev pub answers : Response → Outcome DnsError (List ResourceRecord)
  answers r = if r.rcode == 0 then ok r.answer else err bad_rcode

  abbrev pub found : Option Bytes → Outcome DnsError Bytes
  found none = err record_not_found
  found (some ip) = ok ip

  -- a query, up to the test of its response code
  unfoldable pub ask : Query → DnsState C → Outcome DnsError (List ResourceRecord) × DnsState C
  ask q s = let (o, s') = exchange_msg q s in (o >>= answers, s')

  -- the second query of the modes that only prefer a family
  unfoldable pub ask_other : Bytes → QueryType → DnsState C → Outcome DnsError Bytes × DnsState C
  ask_other domain t s =
      let (o, s') = ask (query domain t) s in (o >>= λ rs. found (pick_first t rs), s')

  unfoldable pub or_other :
      Bytes → QueryType → Option Bytes → DnsState C → Outcome DnsError Bytes × DnsState C
  or_other domain t (some ip) s = (ok ip, s)
  or_other domain t none s = ask_other domain t s

  -- the `switch` over the mode, on the records of the first response
  unfoldable pub pick_ip :
      Bytes
      → DnsMode
      → Outcome DnsError (List ResourceRecord)
      → DnsState C
      → Outcome DnsError Bytes × DnsState C
  pick_ip domain mode (err e) s = (err e, s)
  pick_ip domain mode panic s = (panic, s)
  pick_ip domain mode out_of_fuel s = (out_of_fuel, s)
  pick_ip domain DnsMode.unset (ok rs) s = (ok nil_text, s)
  pick_ip domain DnsMode.ipv4_only (ok rs) s = (found (pick_first type_a rs), s)
  pick_ip domain DnsMode.ipv6_only (ok rs) s = (found (pick_first type_aaaa rs), s)
  pick_ip domain DnsMode.prefer_ipv4 (ok rs) s = or_other domain type_aaaa (pick_first type_a rs) s
  pick_ip domain DnsMode.prefer_ipv6 (ok rs) s = or_other domain type_a (pick_first type_aaaa rs) s

  abbrev pub first_query : Bytes → DnsMode → Query
  first_query domain DnsMode.unset = no_question
  first_query domain DnsMode.prefer_ipv4 = query domain type_a
  first_query domain DnsMode.ipv4_only = query domain type_a
  first_query domain DnsMode.prefer_ipv6 = query domain type_aaaa
  first_query domain DnsMode.ipv6_only = query domain type_aaaa

  -- `cache.AddWithLifetime`, where the answer is kept
  unfoldable pub keep : Bytes → ℤ → Outcome DnsError Bytes → Option C → Option C
  keep domain life (ok ip) (some c) =
      if not (eqb_ℤ life (pos 0)) && not (eqb_ℤ life unset_int)
      then some (lru.add c domain ip life)
      else some c
  keep domain life (ok ip) none = none
  keep domain life (err e) cache = cache
  keep domain life panic cache = cache
  keep domain life out_of_fuel cache = cache

  -- `doDNSResolve`
  unfoldable pub do_dns_resolve :
      Bytes → DnsMode → ℤ → DnsState C → Outcome DnsError Bytes × DnsState C
  do_dns_resolve domain mode life s =
      let (o, s') = ask (first_query domain mode) s in
      let (ip, t) = pick_ip domain mode o s' in
      (ip, record t { cache = keep domain life ip t.cache })

  abbrev pub cached_name : Option C → Bytes → Option Bytes
  cached_name none domain = none
  cached_name (some c) domain = lru.get c domain

  -- `dnsResolve`
  unfoldable pub dns_resolve :
      Bytes → DnsMode → ℤ → DnsState C → Outcome DnsError Bytes × DnsState C
  dns_resolve domain mode life s = elim (cached_name s.cache domain) [
    | some ip ↦ (ok ip, s)
    | none ↦ do_dns_resolve domain mode life s
  ]
