-- ===== src/Policy.antt =====
-- Policies and how they are merged: enimul/internal/core/policy.go, and `DNSMode` of dns.go.
pub mod Merge
pub mod Fields
pub mod Decode
pub mod Ranges
pub mod Names
use mathlib.Core.List.{foldl}
use lumine_for_android.Prelude.{
  Bytes, same, ℕ, Bool, true, false, not, ◌&&◌, Option, none, some, List, [], ◌∷◌, if◌then◌else◌, ℤ,
  eqb_ℤ, pos, negsuc,
}

pub data SniffOverrideMode : Type 0 where
  unset off always policy_exists route_only : SniffOverrideMode

pub data Mode : Type 0 where
  unset raw direct tls_rf ttl_d block tls_alert : Mode

pub data DnsMode : Type 0 where
  unset prefer_ipv4 prefer_ipv6 ipv4_only ipv6_only : DnsMode

pub data TriBool : Type 0 where
  unset is_false is_true : TriBool

-- `unsetInt` and `unsetString`
abbrev pub unset_int : ℤ
unset_int = negsuc 0

abbrev pub unset_string : Bytes
unset_string = 0 ∷ []

-- The struct `Policy`. A `Byte` that is not valid is `none`; durations are in nanoseconds.
pub record Policy : Type 0 where
  pub reply_first : TriBool
  pub sniff_override_mode : SniffOverrideMode
  pub dns_mode : DnsMode
  pub dns_cache_ttl : ℤ
  pub connect_timeout : ℤ
  pub host : Bytes
  pub map_to : Bytes
  pub nat64_prefix : Bytes
  pub port : ℤ
  pub http_status : ℤ
  pub tls13_only : TriBool
  pub mode : Mode
  pub num_records : ℤ
  pub num_segments : ℤ
  pub wait_for_ack : TriBool
  pub oob : TriBool
  pub oob_ex : TriBool
  pub minor_ver : Option ℕ
  pub send_interval : ℤ
  pub fake_ttl : ℤ
  pub fake_sleep : ℤ
  pub max_ttl : ℤ
  pub attempts : ℤ
  pub single_timeout : ℤ
  pub ttl_cache_ttl : ℤ

-- Go's zero value
abbrev pub zero_policy : Policy
zero_policy = record {
  reply_first = TriBool.unset;
  sniff_override_mode = SniffOverrideMode.unset;
  dns_mode = DnsMode.unset;
  dns_cache_ttl = pos 0;
  connect_timeout = pos 0;
  host = [];
  map_to = [];
  nat64_prefix = [];
  port = pos 0;
  http_status = pos 0;
  tls13_only = TriBool.unset;
  mode = Mode.unset;
  num_records = pos 0;
  num_segments = pos 0;
  wait_for_ack = TriBool.unset;
  oob = TriBool.unset;
  oob_ex = TriBool.unset;
  minor_ver = none;
  send_interval = pos 0;
  fake_ttl = pos 0;
  fake_sleep = pos 0;
  max_ttl = pos 0;
  attempts = pos 0;
  single_timeout = pos 0;
  ttl_cache_ttl = pos 0;
}

-- the tests for "not set", one for each kind of field
abbrev pub no_tri : TriBool → Bool
no_tri TriBool.unset = true
no_tri TriBool.is_false = false
no_tri TriBool.is_true = false

abbrev pub holds : TriBool → Bool
holds TriBool.unset = false
holds TriBool.is_false = false
holds TriBool.is_true = true

abbrev pub no_sniff : SniffOverrideMode → Bool
no_sniff SniffOverrideMode.unset = true
no_sniff _ = false

abbrev pub no_dns_mode : DnsMode → Bool
no_dns_mode DnsMode.unset = true
no_dns_mode _ = false

abbrev pub no_mode : Mode → Bool
no_mode Mode.unset = true
no_mode _ = false

abbrev pub no_minor : Option ℕ → Bool
no_minor none = true
no_minor (some _) = false

unfoldable pub no_int : ℤ → Bool
no_int n = eqb_ℤ n unset_int

unfoldable pub no_string : Bytes → Bool
no_string s = same s unset_string

-- `0` and `""` where those stand for "not set"
unfoldable pub zero_int : ℤ → Bool
zero_int n = eqb_ℤ n (pos 0)

unfoldable pub empty_string : Bytes → Bool
empty_string s = same s []

-- `if merged.F == unset && p.F != unset { merged.F = p.F }`
unfoldable pub pick {ℓ} : {A : Type ℓ} → (A → Bool) → A → A → A
pick skip merged p = if skip merged && not (skip p) then p else merged

-- the literal at the head of `mergePolicies`
abbrev pub nothing_set : Policy
nothing_set = record zero_policy {
  host = unset_string;
  map_to = unset_string;
  port = unset_int;
  http_status = unset_int;
  send_interval = unset_int;
  fake_ttl = unset_int;
  connect_timeout = unset_int;
  single_timeout = unset_int;
  dns_cache_ttl = unset_int;
  ttl_cache_ttl = unset_int;
}

-- one round of its loop
unfoldable pub merge_step : Policy → Policy → Policy
merge_step merged p = record {
  reply_first = pick no_tri merged.reply_first p.reply_first;
  sniff_override_mode = pick no_sniff merged.sniff_override_mode p.sniff_override_mode;
  dns_mode = pick no_dns_mode merged.dns_mode p.dns_mode;
  dns_cache_ttl = pick no_int merged.dns_cache_ttl p.dns_cache_ttl;
  connect_timeout = pick no_int merged.connect_timeout p.connect_timeout;
  host = pick no_string merged.host p.host;
  map_to = pick no_string merged.map_to p.map_to;
  nat64_prefix = pick empty_string merged.nat64_prefix p.nat64_prefix;
  port = pick no_int merged.port p.port;
  http_status = pick no_int merged.http_status p.http_status;
  tls13_only = pick no_tri merged.tls13_only p.tls13_only;
  mode = pick no_mode merged.mode p.mode;
  num_records = pick zero_int merged.num_records p.num_records;
  num_segments = pick zero_int merged.num_segments p.num_segments;
  wait_for_ack = pick no_tri merged.wait_for_ack p.wait_for_ack;
  oob = pick no_tri merged.oob p.oob;
  oob_ex = pick no_tri merged.oob_ex p.oob_ex;
  minor_ver = pick no_minor merged.minor_ver p.minor_ver;
  send_interval = pick no_int merged.send_interval p.send_interval;
  fake_ttl = pick no_int merged.fake_ttl p.fake_ttl;
  fake_sleep = pick zero_int merged.fake_sleep p.fake_sleep;
  max_ttl = pick zero_int merged.max_ttl p.max_ttl;
  attempts = pick zero_int merged.attempts p.attempts;
  single_timeout = pick no_int merged.single_timeout p.single_timeout;
  ttl_cache_ttl = pick no_int merged.ttl_cache_ttl p.ttl_cache_ttl;
}

-- `ModeDefault` and `DNSModeDefault`, where the loop has set none
abbrev pub or_default : Mode → Mode
or_default Mode.unset = Mode.tls_rf
or_default m = m

abbrev pub or_prefer_ipv4 : DnsMode → DnsMode
or_prefer_ipv4 DnsMode.unset = DnsMode.prefer_ipv4
or_prefer_ipv4 m = m

unfoldable pub with_defaults : Policy → Policy
with_defaults m = record m { mode = or_default m.mode; dns_mode = or_prefer_ipv4 m.dns_mode }

-- `mergePolicies`
unfoldable pub merge_policies : List Policy → Policy
merge_policies ps = with_defaults (foldl merge_step nothing_set ps)
