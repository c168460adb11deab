-- ===== src/Policy/Decode.antt =====
-- `UnmarshalJSON` of the policy and of the values in it: enimul/internal/core/policy.go, dns.go. The
-- JSON reader itself is Go's: the model begins with the struct `tmp` that it fills, and with the
-- text of a JSON string. `time.ParseDuration` is a parameter. An `int` has 64 bits.
use lumine_for_android.Prelude.{
  Bytes, codes, same, ℕ, ◌-◌, ◌^◌, Bool, ◌&&◌, ◌||◌, Option, none, some, [], ◌∷◌, ltb, leb, ◌==◌,
  if◌then◌else◌, Outcome, ◌>>=◌, ok, err, ℤ, ltb_ℤ, leb_ℤ, eqb_ℤ, pos, negsuc,
}
use lumine_for_android.Policy.{
  Policy, SniffOverrideMode, Mode, DnsMode, TriBool, unset_int, unset_string,
}

pub data PolicyError : Type 0 where
  bad_mode bad_sniff bad_dns_mode bad_bool : PolicyError
  bad_host bad_map_to zero_num_records zero_num_segments small_num_segments : PolicyError
  zero_attempts zero_max_ttl : PolicyError
  unreadable_duration bad_connect_timeout bad_send_interval bad_fake_sleep : PolicyError
  bad_single_timeout bad_dns_cache_ttl bad_ttl_cache_ttl : PolicyError

-- `(*Mode).UnmarshalJSON`
unfoldable pub parse_mode : Bytes → Outcome PolicyError Mode
parse_mode s =
    if same s (codes "raw")
    then ok Mode.raw
    else if same s (codes "direct")
    then ok Mode.direct
    else if same s (codes "tls-rf")
    then ok Mode.tls_rf
    else if same s (codes "ttl-d")
    then ok Mode.ttl_d
    else if same s (codes "block")
    then ok Mode.block
    else if same s (codes "tls-alert")
    then ok Mode.tls_alert
    else err bad_mode

-- `Mode.String`
unfoldable pub mode_name : Mode → Bytes
mode_name Mode.raw = codes "raw"
mode_name Mode.direct = codes "direct"
mode_name Mode.tls_rf = codes "tls-rf"
mode_name Mode.ttl_d = codes "ttl-d"
mode_name Mode.block = codes "block"
mode_name Mode.tls_alert = codes "tls-alert"
mode_name Mode.unset = codes "unknown"

-- `(*SniffOverrideMode).UnmarshalJSON`
unfoldable pub parse_sniff : Bytes → Outcome PolicyError SniffOverrideMode
parse_sniff s =
    if same s (codes "off")
    then ok SniffOverrideMode.off
    else if same s (codes "always")
    then ok SniffOverrideMode.always
    else if same s (codes "policy_exists")
    then ok SniffOverrideMode.policy_exists
    else if same s (codes "route_only")
    then ok SniffOverrideMode.route_only
    else err bad_sniff

-- `(*DNSMode).UnmarshalJSON`
unfoldable pub parse_dns_mode : Bytes → Outcome PolicyError DnsMode
parse_dns_mode s =
    if same s (codes "prefer_ipv4")
    then ok DnsMode.prefer_ipv4
    else if same s (codes "prefer_ipv6")
    then ok DnsMode.prefer_ipv6
    else if same s (codes "ipv4_only")
    then ok DnsMode.ipv4_only
    else if same s (codes "ipv6_only")
    then ok DnsMode.ipv6_only
    else err bad_dns_mode

-- `DNSMode.String`
unfoldable pub dns_mode_name : DnsMode → Bytes
dns_mode_name DnsMode.prefer_ipv4 = codes "prefer_ipv4"
dns_mode_name DnsMode.prefer_ipv6 = codes "prefer_ipv6"
dns_mode_name DnsMode.ipv4_only = codes "ipv4_only"
dns_mode_name DnsMode.ipv6_only = codes "ipv6_only"
dns_mode_name DnsMode.unset = codes "unknown"

-- `(*TriBool).UnmarshalJSON`
unfoldable pub parse_tri : Bytes → Outcome PolicyError TriBool
parse_tri s =
    if same s (codes "false")
    then ok TriBool.is_false
    else if same s (codes "true")
    then ok TriBool.is_true
    else err bad_bool

-- The struct `tmp`: a nil pointer is `none`.
pub record PolicyJson : Type 0 where
  pub sniff_override_mode : SniffOverrideMode
  pub reply_first : TriBool
  pub connect_timeout : Option Bytes
  pub host : Option Bytes
  pub map_to : Option Bytes
  pub nat64_prefix : Option Bytes
  pub port : Option ℕ
  pub dns_mode : DnsMode
  pub dns_cache_ttl : Option Bytes
  pub http_status : Option ℕ
  pub tls13_only : TriBool
  pub mode : Mode
  pub num_records : Option ℕ
  pub num_segments : Option ℤ
  pub wait_for_ack : TriBool
  pub oob : TriBool
  pub oob_ex : TriBool
  pub minor_ver : Option ℕ
  pub send_interval : Option Bytes
  pub fake_ttl : Option ℕ
  pub fake_sleep : Option Bytes
  pub max_ttl : Option ℕ
  pub attempts : Option ℕ
  pub single_timeout : Option Bytes
  pub ttl_cache_ttl : Option Bytes

-- `int(x)` of an unsigned word
unfoldable pub to_int : ℕ → ℤ
to_int n = if ltb n (2 ^ 63) then pos n else negsuc (2 ^ 64 - 1 - n)

is_space : ℕ → Bool
is_space c = c == 32 || (leb 9 c && leb c 13)

trim_left : Bytes → Bytes
trim_left [] = []
trim_left (c ∷ s) = if is_space c then trim_left s else c ∷ s

trim_right : Bytes → Bytes
trim_right [] = []
trim_right (c ∷ s) = elim (trim_right s) [
  | [] ↦ if is_space c then [] else c ∷ []
  | x ∷ xs ↦ c ∷ x ∷ xs
]

-- `strings.TrimSpace` on ASCII text
unfoldable pub trim_space : Bytes → Bytes
unfolding is_space trim_left trim_right
trim_space s = trim_right (trim_left s)

-- `host` and `map_to`
unfoldable pub string_field : PolicyError → Option Bytes → Outcome PolicyError Bytes
string_field bad none = ok unset_string
string_field bad (some s) = if same s unset_string then err bad else ok s

unfoldable pub nat64_field : Option Bytes → Bytes
nat64_field none = []
nat64_field (some s) =
    let prefix = trim_space s in
    if same prefix unset_string || same prefix [] || same prefix (codes "off") then [] else prefix

-- `port`, `http_status` and `fake_ttl`
unfoldable pub int_field : Option ℕ → ℤ
int_field none = unset_int
int_field (some n) = to_int n

-- `num_records`, `attempts` and `max_ttl`: nil keeps what the receiver has
unfoldable pub nonzero_field : PolicyError → ℤ → Option ℕ → Outcome PolicyError ℤ
nonzero_field bad old none = ok old
nonzero_field bad old (some n) = if n == 0 then err bad else ok (to_int n)

unfoldable pub segments_field : ℤ → Option ℤ → Outcome PolicyError ℤ
segments_field old none = ok old
segments_field old (some n) =
    if eqb_ℤ n (pos 0)
    then err zero_num_segments
    else if ltb_ℤ n (negsuc 0)
    then err small_num_segments
    else ok n

unfoldable pub above : PolicyError → ℤ → Option ℤ → Outcome PolicyError ℤ
above bad bound none = err unreadable_duration
above bad bound (some d) = if leb_ℤ d bound then err bad else ok d

module _ (parse_duration : Bytes → Option ℤ) where
  -- A duration that has to be greater than `bound`.
  unfoldable pub duration_field : PolicyError → ℤ → ℤ → Option Bytes → Outcome PolicyError ℤ
  duration_field bad bound old none = ok old
  duration_field bad bound old (some s) = above bad bound (parse_duration s)

  -- `(*Policy).UnmarshalJSON`; `p` is the receiver.
  unfoldable pub decode_policy : Policy → PolicyJson → Outcome PolicyError Policy
  decode_policy p tmp = do
    host ← string_field bad_host tmp.host
    map_to ← string_field bad_map_to tmp.map_to
    num_records ← nonzero_field zero_num_records p.num_records tmp.num_records
    num_segments ← segments_field p.num_segments tmp.num_segments
    attempts ← nonzero_field zero_attempts p.attempts tmp.attempts
    max_ttl ← nonzero_field zero_max_ttl p.max_ttl tmp.max_ttl
    connect_timeout ← duration_field bad_connect_timeout (pos 0) unset_int tmp.connect_timeout
    send_interval ← duration_field bad_send_interval unset_int unset_int tmp.send_interval
    fake_sleep ← duration_field bad_fake_sleep (pos 0) p.fake_sleep tmp.fake_sleep
    single_timeout ← duration_field bad_single_timeout (pos 0) unset_int tmp.single_timeout
    dns_cache_ttl ← duration_field bad_dns_cache_ttl unset_int unset_int tmp.dns_cache_ttl
    ttl_cache_ttl ← duration_field bad_ttl_cache_ttl unset_int unset_int tmp.ttl_cache_ttl
    ok (record {
      reply_first = tmp.reply_first;
      sniff_override_mode = tmp.sniff_override_mode;
      dns_mode = tmp.dns_mode;
      dns_cache_ttl = dns_cache_ttl;
      connect_timeout = connect_timeout;
      host = host;
      map_to = map_to;
      nat64_prefix = nat64_field tmp.nat64_prefix;
      port = int_field tmp.port;
      http_status = int_field tmp.http_status;
      tls13_only = tmp.tls13_only;
      mode = tmp.mode;
      num_records = num_records;
      num_segments = num_segments;
      wait_for_ack = tmp.wait_for_ack;
      oob = tmp.oob;
      oob_ex = tmp.oob_ex;
      minor_ver = tmp.minor_ver;
      send_interval = send_interval;
      fake_ttl = int_field tmp.fake_ttl;
      fake_sleep = fake_sleep;
      max_ttl = max_ttl;
      attempts = attempts;
      single_timeout = single_timeout;
      ttl_cache_ttl = ttl_cache_ttl;
    })
