-- ===== src/Examples/Plans.antt =====
-- A plan with one rule, and the DNS client with two upstreams of which the first fails.
use lumine_for_android.Prelude.{
  Bytes, codes, ℕ, zero, suc, ◌*◌, ◌≡◌, refl, false, Option, none, some, [], ◌∷◌, ◌++◌, arith, ltb,
  if◌then◌else◌, take, drop, Returns, ok, pos,
}
use lumine_for_android.Dns.{
  Query, Response, record_a, NameCache, Upstreams, DnsState, exchange_msg, do_dns_resolve,
}
use lumine_for_android.Dns.Rotation.{RoundTrip, exchange_msg-RoundTrip, exchange_msg-answers}
use lumine_for_android.Dns.Family.{IsAnswer, do_dns_resolve-IsAnswer}
use lumine_for_android.Bootstrap.{System, resolve_bootstrap_host}
use lumine_for_android.Bootstrap.Preferred.{resolve_bootstrap_host-prefers}
use lumine_for_android.Policy.{DnsMode, Policy, Mode, nothing_set}
use lumine_for_android.Addrtrie.Domain.{new_node, or_new, add}
use lumine_for_android.Addrtrie.Bits.{leaf}
use lumine_for_android.FakeIp.{new_store}
use lumine_for_android.Redirect.{Rules, World}
use lumine_for_android.Redirect.Total.{IsStocked, ArePools}
use lumine_for_android.Decision.{Outside, gen_policy}
use lumine_for_android.Decision.Target.{IsDecision}
use lumine_for_android.Decision.Merged.{gen_policy-IsDecision}
use lumine_for_android.Nat64.{Net}
use lumine_for_android.Plan.{Running, RequestContext, plan_request}
use lumine_for_android.Plan.Precedence.{IsPlan, RunsStocked}
use lumine_for_android.Plan.Request.{plan_request-IsPlan}
use lumine_for_android.Transform.{Addresses, bytes_of, masked, transformed}
use lumine_for_android.Transform.Bits.{bits_of, transformed-bits}

-- the first 8 bits of 10.0.0.0 and the rest of 192.168.1.2
transformed-bits_example :
    bits_of (transformed 4 3232235778 167772160 8)
    ≡ take 8 (bits_of (bytes_of 4 (masked (8 * 4) 167772160 8)))
      ++ drop 8 (bits_of (bytes_of 4 3232235778))
transformed-bits_example = transformed-bits 4 3232235778 167772160 8

abbrev response : Response
response = record { rcode = 0; answer = record_a (codes "10.0.0.1") ∷ [] }

abbrev second_only : ℕ → ℕ → Query → Option Response
second_only zero c q = none
second_only (suc u) c q = some response

abbrev two : Upstreams
two = record { count = 2; exchange = second_only; single = none; has_subnet = false }

-- a cache that keeps nothing
abbrev no_cache : NameCache (Unit {0})
no_cache = record { get = λ c k. none; add = λ c k v l. c }

abbrev fresh : DnsState (Unit {0})
fresh = record { index = 0; calls = 0; cache = none }

abbrev a_query : Query
a_query = record { question = none; with_subnet = false }

exchange_msg-RoundTrip_example :
    RoundTrip no_cache two fresh a_query (exchange_msg no_cache two a_query fresh)
exchange_msg-RoundTrip_example = exchange_msg-RoundTrip no_cache two fresh a_query (omega arith)

exchange_msg-answers_example : (r : Response) × ((exchange_msg no_cache two a_query fresh).0 ≡ ok r)
exchange_msg-answers_example =
    exchange_msg-answers no_cache two fresh a_query 1 (omega arith) (λ c e. absurd (cc))

do_dns_resolve-IsAnswer_example :
    Returns
      (IsAnswer no_cache two (codes "a.b") DnsMode.ipv4_only)
      (do_dns_resolve no_cache two (codes "a.b") DnsMode.ipv4_only (pos 0) fresh).0
do_dns_resolve-IsAnswer_example =
    do_dns_resolve-IsAnswer no_cache two (omega arith) (codes "a.b") DnsMode.ipv4_only (pos 0) fresh

-- the reader of a network that has no addresses
abbrev no_netip : Addresses
no_netip = record {
  netip = record { parse_prefix = λ s. none; parse_addr = λ s. none };
  text = λ addr. [];
}

abbrev outside : Outside (Unit {0})
outside = record { addresses = no_netip; is_ip = λ s. false; lru = no_cache; upstreams = two }

-- a rule for one domain
abbrev own_rule : Policy
own_rule = record nothing_set { mode = Mode.ttl_d }

abbrev rules : Rules
rules = record {
  domains = or_new (add (codes "a.b") own_rule new_node);
  gfw_domains = new_node;
  gfw_bypass = new_node;
  hosts = new_node;
  ips = leaf;
  ip6s = leaf;
  default_policy = record nothing_set { mode = Mode.tls_rf };
}

abbrev world : World (Unit {0})
world = record { dns = fresh; pools = [] }

world-IsStocked : IsStocked no_netip rules world
unfolding IsStocked ArePools
world-IsStocked = tt

gen_policy-IsDecision_example :
    Returns
      (IsDecision outside rules (codes "a.b") false false world)
      (gen_policy outside rules (codes "a.b") false false world).0
    × IsStocked no_netip rules (gen_policy outside rules (codes "a.b") false false world).1
gen_policy-IsDecision_example =
    gen_policy-IsDecision outside rules (omega arith) (codes "a.b") false false world
      world-IsStocked

abbrev net : Net
net = record { trim_space = λ s. s; parse_ip = λ s. none; parse_cidr = λ s. none; text = λ n. [] }

abbrev keep_case : Bytes → Bytes
keep_case s = s

abbrev running : Running (Unit {0})
running = record {
  world = world;
  fake4 = new_store 0 16;
  fake6 = new_store 0 16;
  ip_domains = none;
}

abbrev request : RequestContext
request = record { source = []; host = codes "a.b"; port = pos 443; early = false }

running-RunsStocked : RunsStocked outside rules net keep_case (omega arith) running
unfolding RunsStocked
running-RunsStocked = world-IsStocked

plan_request-IsPlan_example :
    Returns
      (IsPlan outside rules net keep_case
        (omega arith)
        request
        []
        (codes "a.b")
        false
        running.world)
      (plan_request outside rules net keep_case request 0 running).0
    × RunsStocked outside rules net keep_case
        (omega arith)
        (plan_request outside rules net keep_case request 0 running).1
plan_request-IsPlan_example =
    plan_request-IsPlan outside rules net keep_case (omega arith) request 0 running
      running-RunsStocked refl

-- numbers for addresses, of which those below 100 have an IPv4 form
abbrev system : System ℕ
system = record {
  to4 = λ n. if ltb n 100 then some n else none;
  text = λ n. n ∷ [];
  reads_as_ip = λ s. false;
  lookup_ip = λ s. some (none ∷ some 200 ∷ some 7 ∷ []);
}

resolve_bootstrap_host-prefers_example :
    resolve_bootstrap_host system no_cache (codes "a.b") (some tt) ≡ (ok (7 ∷ []), some tt)
resolve_bootstrap_host-prefers_example =
    resolve_bootstrap_host-prefers system (λ ip. refl) no_cache (codes "a.b")
      (none ∷ some 200 ∷ some 7 ∷ []) (some tt) refl refl refl
