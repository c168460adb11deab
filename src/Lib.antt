-- ===== src/Lib.antt =====
-- The core of Lumine for Android: the part of the Go engine under enimul/internal that decides how
-- an outbound connection is routed, disguised and named.
--
-- How the parts work together. A request names a host. `PlanRequest` (dial_plan.go) recovers the
-- domain behind a fake address and asks `genPolicy` (policy.go) for a decision: the domain matcher
-- and the address tries (addrtrie) give the rules, which are merged with the default policy; the
-- target is a host of the policy, an address of an IP pool (ippool.go) or an answer of the DNS
-- client (dns.go), and may be redirected. A domain without a rule is classified by the built-in
-- list (gfwlist.go). On the tun side a domain stands behind a synthetic address of the fake-IP
-- store (fake_ip.go). The tun connection (tun_bridge.go) buffers what an app sends until its first
-- TLS record is whole, parses the ClientHello (tunnel.go), and sends it plainly, in fragments
-- (fragment.go), or behind a fake packet whose TTL is probed and calculated (desync.go).
--
-- Which file models which part:
-- - Tls: `parseClientHello` of enimul/internal/core/tunnel.go. Slices and indices out of range are
--   the outcome `panic`, errors are `err`.
-- - Fragment: enimul/internal/core/fragment.go. `sendRecords` is the list of the calls that it makes
--   on the connection, `wire` is what a peer reads of them.
-- - Policy: the types, `mergePolicies` and, in Policy.Decode, the decoding of a policy behind
--   encoding/json (enimul/internal/core/policy.go, and `DNSMode` of dns.go).
-- - Addrtrie: enimul/internal/addrtrie. Domain is the trie of labels, Bits the binary trie under both
--   families of addresses, Ip the operations on texts.
-- - Ttl: enimul/internal/core/desync.go, less the raw sockets: the rules, the binary search over
--   TTLs, and in Ttl.Fake the cache and `getFakeTTL`.
-- - FakeIp: `fakeIPStore` of enimul/internal/core/fake_ip.go, with the clock as an argument.
-- - TunConn: `tunPolicyConn` of enimul/internal/core/tun_bridge.go, whose effects are a list of events.
-- - Route: `classifyDomainRoute` and the fallback policies of enimul/internal/core/gfwlist.go.
-- - Pool: `IPPool` of enimul/internal/core/ippool.go. A scan is its results in the order in which they
--   arrived; float64 is a record of operations, with laws named where they are used.
-- - PoolConfig: `UnmarshalJSON` and `parseIPList` of the same file.
-- - Dns: `exchangeMsg`, `doDNSResolve` and `dnsResolve` of enimul/internal/core/dns.go. An upstream is
--   a function of the query and of the number of exchanges made before.
-- - Bootstrap: enimul/internal/core/bootstrap.go, with the system's resolver as a parameter.
-- - Transform, Redirect, Decision: `transformIP`, `ipRedirect` and `genPolicy` of
--   enimul/internal/core/policy.go.
-- - Nat64: enimul/internal/core/nat64.go, less `planNat64`, which stands in Plan.
-- - Plan: `PlanRequest` of enimul/internal/core/dial_plan.go, with the lookups of resolver.go and
--   fake_ip.go that it makes.
-- - Hijack: enimul/internal/core/dns_hijack.go, the queries that come out of the tun, between the
--   decoding and the encoding of their messages.
-- - Pattern: `expandPattern` of enimul/internal/core/config.go, on bytes, with the decoding of UTF-8
--   that a loop over a string does.
-- - Stateful: calls that change a state, and the rules for them.
-- - Counter: `Counter` of enimul/internal/core/counter.go, whose callers interleave step by step.
-- - Stats: enimul/internal/core/session_stats.go, on the sequences of its atomic additions.
-- - Prelude: bytes, maps, signed integers and the outcomes of calls, shared by all.
-- - Examples: concrete runs.
--
-- Conventions. Bytes and numbers are native naturals, texts are lists of bytes, and Go's `int` is a
-- signed integer; its wrap-around on 64 bits is written out where the code can reach it, in the
-- numbers of TTL rules and in the decoding of unsigned fields. An association list stands for a
-- map.
--
-- Fuel. The loop over the extensions of a ClientHello gets one round more than there are bytes, and
-- a round moves on by four bytes at least. The parser of TTL rules gets a round for each byte, and
-- a rule has three. The search over TTLs gets the largest TTL as its fuel, and each round makes the
-- interval smaller. The loop of `Allocate` gets one round more than the pool has addresses.
-- `expandPattern` gets one round more than the pattern has bytes, and what is behind a group is
-- shorter than the pattern.
--
-- Parameters, as they stand for code outside of the repository: the parsers and printers of
-- net/netip and net, what DNS upstreams answer, the arithmetic of float64, `strings.ToLower`,
-- `strings.TrimSpace`, `time.ParseDuration`, `net.SplitHostPort`, the dials and the writes on
-- sockets, and the LRU cache of enimul/internal/freelru, which is a copy of another project.
--
-- Not modelled: the servers (socks5.go, http.go), the transports of the DNS client and its
-- configuration, the dials of a scan, the loading of the configuration, socket
-- options, the mobile bindings, the tun stack, and the Android app. Log lines are left out. The
-- random order in which Go walks over a map is the order of the list here, and `sort.Slice` is the
-- insertion sort that Go uses for short slices. Locks are left out: each operation of a store runs
-- as one step.
pub mod Prelude
pub mod Tls
pub mod Fragment
pub mod Policy
pub mod Addrtrie
pub mod Ttl
pub mod FakeIp
pub mod TunConn
pub mod Route
pub mod Counter
pub mod Stats
pub mod Pool
pub mod Dns
pub mod Stateful
pub mod Transform
pub mod Redirect
pub mod Decision
pub mod Nat64
pub mod Plan
pub mod Pattern
pub mod PoolConfig
pub mod Bootstrap
pub mod Hijack
pub mod Examples
