-- ===== src/Hijack.antt =====
-- The DNS queries that come out of the tun: enimul/internal/core/dns_hijack.go, between `Unpack` and
-- `Pack`, and `allocateFakeIP` of fake_ip.go. The upstream is a parameter. What is logged is left out.
pub mod Fake
pub mod Hidden
use lumine_for_android.Prelude.{
  Bytes, same, ℕ, zero, suc, ◌*◌, Bool, true, false, not, ◌&&◌, ◌||◌, Option, none, some, List, [],
  ◌∷◌, ◌++◌, ltb, ◌==◌, if◌then◌else◌, Outcome, ok, err, panic, out_of_fuel, ℤ, pos,
}
use lumine_for_android.FakeIp.{FakeStore, FakeError, fake_ip_lifetime, allocate}
use lumine_for_android.Route.{Matchers, should_use_fake_ip}
use lumine_for_android.Nat64.{Net, to4}
use lumine_for_android.Stateful.{Call, ◌>>=◌, return, wrapped}

-- the data of a resource record: an address of 4 or 16 bytes, or anything else
pub data RecordData : Type 0 where
  ip4 ip16 : ℕ → RecordData
  other_data : Bytes → RecordData

-- a record with its header
pub record Rr : Type 0 where
  pub name : Bytes
  pub rrtype : ℕ
  pub class : ℕ
  pub ttl : ℕ
  pub contents : RecordData

pub record Question : Type 0 where
  pub name : Bytes
  pub qtype : ℕ
  pub qclass : ℕ

pub record Message : Type 0 where
  pub questions : List Question
  pub rcode : ℕ
  pub answer : List Rr
  pub ns : List Rr
  pub extra : List Rr

pub data HijackError : Type 0 where
  no_upstream upstream_exchange unsupported_qtype : HijackError
  invalid_fake_ipv4 invalid_fake_ipv6 unsupported_answer_type : HijackError
  allocate_fake_ip_error : FakeError → HijackError

-- `dns.TypeA`, `dns.TypeAAAA` and `dns.ClassINET`
abbrev pub rr_a : ℕ
rr_a = 1

abbrev pub rr_aaaa : ℕ
rr_aaaa = 28

abbrev pub class_inet : ℕ
class_inet = 1

-- `defaultFakeIPv4Store` and `defaultFakeIPv6Store`
pub record Stores : Type 0 where
  pub fake4 : FakeStore
  pub fake6 : FakeStore

-- `fallbackFakeTTL`: the smallest TTL of a message that is not 0, or the default
unfoldable pub consider : ℕ → List Rr → ℕ
consider least [] = least
consider least (r ∷ rs) =
    consider (if not (r.ttl == 0) && (least == 0 || ltb r.ttl least) then r.ttl else least) rs

abbrev pub ttl_or_60 : ℕ → ℕ
ttl_or_60 zero = 60
ttl_or_60 (suc n) = suc n

unfoldable pub fallback_fake_ttl : Message → ℕ
fallback_fake_ttl m = ttl_or_60 (consider (consider (consider 0 m.answer) m.ns) m.extra)

-- `strings.TrimSuffix(name, ".")`
unfoldable pub trim_dot : Bytes → Bytes
trim_dot [] = []
trim_dot (c ∷ []) = if c == b'.' then [] else c ∷ []
trim_dot (c ∷ d ∷ cs) = c ∷ trim_dot (d ∷ cs)

unfoldable pub contains_name : Bytes → List Bytes → Bool
contains_name n [] = false
contains_name n (m ∷ ms) = same m n || contains_name n ms

-- What the loop over the answers has: `fakeIP`, `replacedNames`, `reply.Answer` and `replaced`.
pub record Reply : Type 0 where
  pub fake_ip : Bytes
  pub names : List Bytes
  pub answer : List Rr
  pub replaced : Bool

abbrev pub no_reply : Reply
no_reply = record { fake_ip = []; names = []; answer = []; replaced = false }

-- What stands outside, and the time.
pub record Outer : Type 0 where
  pub net : Net
  pub to_lower : Bytes → Bytes
  pub text4 : ℕ → Bytes
  pub text6 : ℕ → Bytes
  pub now : ℕ
  pub matchers : Matchers
  pub upstream : Option (Message → Option Message)

module _ (out : Outer) where
  -- `allocateFakeIP`, with the lifetime in nanoseconds
  abbrev pub lifetime : ℕ → ℤ
  lifetime ttl = pos (fake_ip_lifetime ttl * 1000000000)

  unfoldable pub allocate_fake_ip : Bytes → ℕ → ℕ → Call Stores HijackError Bytes
  allocate_fake_ip domain qtype ttl s =
      if qtype == rr_a
      then (let (o, t) = allocate out.to_lower out.text4 domain (lifetime ttl) out.now s.fake4 in
          (wrapped allocate_fake_ip_error o, record s { fake4 = t }))
      else if qtype == rr_aaaa
      then (let (o, t) = allocate out.to_lower out.text6 domain (lifetime ttl) out.now s.fake6 in
          (wrapped allocate_fake_ip_error o, record s { fake6 = t }))
      else (err unsupported_qtype, s)

  -- the address of a fake record: `ParseIP(fakeIP).To4()`, or an address that has no `To4`
  abbrev pub if_ip4 : Option ℕ → Outcome HijackError RecordData
  if_ip4 none = err invalid_fake_ipv4
  if_ip4 (some m) = ok (ip4 m)

  abbrev pub ip4_of : Option ℕ → Outcome HijackError RecordData
  ip4_of none = err invalid_fake_ipv4
  ip4_of (some n) = if_ip4 (to4 n)

  abbrev pub unless_ip4 : ℕ → Option ℕ → Outcome HijackError RecordData
  unless_ip4 n none = ok (ip16 n)
  unless_ip4 n (some m) = err invalid_fake_ipv6

  abbrev pub ip16_of : Option ℕ → Outcome HijackError RecordData
  ip16_of none = err invalid_fake_ipv6
  ip16_of (some n) = unless_ip4 n (to4 n)

  unfoldable pub fake_data : ℕ → Bytes → Outcome HijackError RecordData
  fake_data rrtype fake_ip =
      if rrtype == rr_a
      then ip4_of (out.net.parse_ip fake_ip)
      else if rrtype == rr_aaaa
      then ip16_of (out.net.parse_ip fake_ip)
      else err unsupported_answer_type

  abbrev pub fake_rr : Bytes → ℕ → ℕ → ℕ → RecordData → Rr
  fake_rr name rrtype class ttl contents = record {
    name = name;
    rrtype = rrtype;
    class = class;
    ttl = ttl_or_60 ttl;
    contents = contents;
  }

  -- `buildFakeAnswerRR`
  unfoldable pub build_fake_answer_rr : Bytes → ℕ → ℕ → ℕ → Bytes → Outcome HijackError Rr
  build_fake_answer_rr name rrtype class ttl fake_ip = elim (fake_data rrtype fake_ip) [
    | ok d ↦ ok (fake_rr name rrtype class ttl d)
    | err e ↦ err e
    | panic ↦ panic
    | out_of_fuel ↦ out_of_fuel
  ]

  -- `if fakeIP == ""` in the loop
  unfoldable pub ensure_fake_ip : Bytes → ℕ → ℕ → Bytes → Call Stores HijackError Bytes
  ensure_fake_ip domain qtype ttl [] = allocate_fake_ip domain qtype ttl
  ensure_fake_ip domain qtype ttl (c ∷ cs) = return (c ∷ cs)

  -- the fake record for a name that was not replaced yet
  abbrev pub append_fake : Reply → Rr → Bytes → Outcome HijackError Rr → Outcome HijackError Reply
  append_fake p r fake_ip (ok fake) = ok (record {
    fake_ip = fake_ip;
    names = r.name ∷ p.names;
    answer = p.answer ++ fake ∷ [];
    replaced = true;
  })
  append_fake p r fake_ip (err e) = err e
  append_fake p r fake_ip panic = panic
  append_fake p r fake_ip out_of_fuel = out_of_fuel

  unfoldable pub put_fake : Reply → Rr → Bytes → Outcome HijackError Reply
  put_fake p r fake_ip =
      if contains_name r.name p.names
      then ok (record p { fake_ip = fake_ip; replaced = true })
      else append_fake p r fake_ip (build_fake_answer_rr r.name r.rrtype r.class r.ttl fake_ip)

  -- one round of the loop
  unfoldable pub replace_one : Bytes → ℕ → Reply → Rr → Call Stores HijackError Reply
  replace_one domain qtype p r =
      if not (r.rrtype == qtype)
      then return (record p { answer = p.answer ++ r ∷ [] })
      else ensure_fake_ip domain qtype r.ttl p.fake_ip >>= λ fake_ip. λ s. (put_fake p r fake_ip, s)

  unfoldable pub replace_answers : Bytes → ℕ → List Rr → Reply → Call Stores HijackError Reply
  replace_answers domain qtype [] p = return p
  replace_answers domain qtype (r ∷ rs) p =
      replace_one domain qtype p r >>= replace_answers domain qtype rs

  -- the answer that stands in where no record was replaced
  abbrev pub single_answer : Message → Outcome HijackError Rr → Outcome HijackError Message
  single_answer m (ok fake) = ok (record m { answer = fake ∷ [] })
  single_answer m (err e) = err e
  single_answer m panic = panic
  single_answer m out_of_fuel = out_of_fuel

  unfoldable pub fallback_reply :
      Bytes → ℕ → List Question → Message → Call Stores HijackError Message
  fallback_reply domain qtype [] m = return m
  fallback_reply domain qtype (q ∷ qs) m =
      allocate_fake_ip domain qtype (fallback_fake_ttl m) >>= λ fake_ip. λ s. (
        single_answer m
            (build_fake_answer_rr q.name q.qtype q.qclass (fallback_fake_ttl m) fake_ip),
        s,
      )

  abbrev pub reply_of :
      Bytes → ℕ → List Question → Message → Reply → Call Stores HijackError Message
  reply_of domain qtype qs m p =
      if p.replaced
      then return (record m { answer = p.answer })
      else fallback_reply domain qtype qs m

  -- `buildFakeAddressResponse` behind the upstream's answer
  unfoldable pub build_reply : List Question → Bytes → ℕ → Message → Call Stores HijackError Message
  build_reply qs domain qtype m =
      if not (m.rcode == 0)
      then return m
      else if not (should_use_fake_ip out.to_lower out.matchers domain)
      then return m
      else replace_answers domain qtype m.answer no_reply >>= reply_of domain qtype qs m

  -- `exchangeUpstream`
  abbrev pub answer_of : Option Message → Outcome HijackError Message
  answer_of none = err upstream_exchange
  answer_of (some m) = ok m

  unfoldable pub exchange_upstream : Message → Outcome HijackError Message
  exchange_upstream req = elim out.upstream [ none ↦ err no_upstream | some f ↦ answer_of (f req) ]

  abbrev pub pass_through : Message → Call Stores HijackError Message
  pass_through req s = (exchange_upstream req, s)

  -- `buildFakeAddressResponse`
  unfoldable pub build_fake_address_response : Message → Bytes → ℕ → Call Stores HijackError Message
  build_fake_address_response req domain qtype =
      pass_through req >>= build_reply req.questions domain qtype

  -- a query with one question; all other types, HTTPS too, are passed through
  unfoldable pub handle_question : Message → Question → Call Stores HijackError Message
  handle_question req q =
      if not (q.qclass == class_inet)
      then pass_through req
      else if q.qtype == rr_a || q.qtype == rr_aaaa
      then build_fake_address_response req (out.to_lower (trim_dot q.name)) q.qtype
      else pass_through req

  -- `handleDNSQuery`
  unfoldable pub handle_questions : Message → List Question → Call Stores HijackError Message
  handle_questions req [] = pass_through req
  handle_questions req (q ∷ []) = handle_question req q
  handle_questions req (q ∷ r ∷ qs) = pass_through req

  abbrev pub handle_dns_query : Message → Call Stores HijackError Message
  handle_dns_query req = handle_questions req req.questions
