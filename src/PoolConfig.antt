-- ===== src/PoolConfig.antt =====
-- The configuration of a pool: `UnmarshalJSON` of `IPPool`, behind encoding/json, and `parseIPList`,
-- in enimul/internal/core/ippool.go. The readers of net/netip and the lookup of net are parameters.
pub mod Checked
use lumine_for_android.Prelude.{
  guard, Bytes, ℕ, zero, suc, Bool, true, false, not, ◌&&◌, ◌||◌, Option, none, some, List, [], ◌∷◌,
  ◌++◌, leb, ◌==◌, if◌then◌else◌, length, replicate, Outcome, ◌>>=◌, ◌>>◌, guard, ok, err,
  out_of_fuel, ℤ, pos_part, ltb_ℤ, leb_ℤ, eqb_ℤ, pos,
}
use lumine_for_android.Addrtrie.Ip.{Addr}
use lumine_for_android.Pool.{IpPool}
use lumine_for_android.Pattern.{expand_pattern}

-- the fields of the JSON object
pub record PoolJson : Type 0 where
  pub wait_scan_on_startup : Bool
  pub fallback_ip : Bytes
  pub ips : List Bytes
  pub port : ℤ
  pub top_ip_count : ℤ
  pub max_concurrency : ℤ
  pub timeout : Bytes
  pub update_interval : Bytes
  pub attempts : ℤ

-- what it sets
pub record PoolConfig : Type 0 where
  pub wait_scan_on_startup : Bool
  pub pool : IpPool
  pub port : ℕ
  pub attempts : ℕ
  pub timeout : ℤ
  pub update_interval : ℤ
  pub concurrency : ℤ

pub data ConfigError : Type 0 where
  pool_too_large lookup_failed no_valid_ips too_few_ips : ConfigError
  invalid_port invalid_max_concurrency invalid_top_ip_count : ConfigError
  invalid_attempts invalid_timeout invalid_update_interval : ConfigError

-- `maxIPPoolSize`
abbrev pub max_ip_pool_size : ℕ
max_ip_pool_size = 1000

-- `ParseAddr`, `ParsePrefix`, `Contains`, `Next` and `String` of net/netip, `net.LookupIP` with
-- `AddrFromSlice`, and `time.ParseDuration`
pub record Readers : Type 0 where
  pub parse_addr : Bytes → Option Addr
  pub parse_prefix : Bytes → Option (Addr × ℕ)
  pub contains : Addr × ℕ → Addr → Bool
  pub next : Addr → Option Addr
  pub text : Addr → Bytes
  pub lookup_ip : Bytes → Option (List (Option Addr))
  pub parse_duration : Bytes → Option ℤ

-- `if len(ips) >= maxIPPoolSize { return }` and `append`
unfoldable pub append_ip : List Bytes → Bytes → Outcome ConfigError (List Bytes)
append_ip ips s =
    if leb max_ip_pool_size (length ips) then err pool_too_large else ok (ips ++ s ∷ [])

-- a positive count that fits 8 bits, or the default for 0
unfoldable pub counted_byte : ConfigError → ℕ → ℤ → Outcome ConfigError ℕ
counted_byte e default n =
    if eqb_ℤ n (pos 0)
    then ok default
    else if leb_ℤ n (pos 0) || ltb_ℤ (pos 255) n
    then err e
    else ok (pos_part n)

-- the same for `top_ip_count`, which must not exceed the number of addresses either
unfoldable pub top_count : ℕ → ℤ → Outcome ConfigError ℕ
top_count ips n =
    if eqb_ℤ n (pos 0)
    then ok 3
    else if leb_ℤ n (pos 0) || ltb_ℤ (pos 255) n || ltb_ℤ (pos ips) n
    then err invalid_top_ip_count
    else ok (pos_part n)

module _ (readers : Readers) where
  -- the loop over the addresses of a prefix
  unfoldable pub prefix_loop : ℕ → Addr × ℕ → Addr → List Bytes → Outcome ConfigError (List Bytes)
  prefix_loop zero prefix addr ips = out_of_fuel
  prefix_loop (suc fuel) prefix addr ips = append_ip ips (readers.text addr) >>= λ more.
      elim (readers.next addr) [
        | none ↦ ok more
        | some addr' ↦ elim (readers.contains prefix addr') [
          | true ↦ prefix_loop fuel prefix addr' more
          | false ↦ ok more
        ]
      ]

  -- the addresses of a prefix; the prefix holds its own address
  unfoldable pub add_prefix : List Bytes → Addr × ℕ → Outcome ConfigError (List Bytes)
  add_prefix ips prefix =
      if readers.contains prefix prefix.0
      then prefix_loop (suc max_ip_pool_size) prefix prefix.0 ips
      else ok ips

  -- the addresses of a lookup
  unfoldable pub add_addrs : List Bytes → List (Option Addr) → Outcome ConfigError (List Bytes)
  add_addrs ips [] = ok ips
  add_addrs ips (none ∷ rest) = add_addrs ips rest
  add_addrs ips (some addr ∷ rest) =
      append_ip ips (readers.text addr) >>= λ more. add_addrs more rest

  abbrev pub add_found : List Bytes → Option (List (Option Addr)) → Outcome ConfigError (List Bytes)
  add_found ips none = err lookup_failed
  add_found ips (some addrs) = add_addrs ips addrs

  -- one text of an expanded pattern
  unfoldable pub add_text : List Bytes → Bytes → Outcome ConfigError (List Bytes)
  add_text ips s =
      if leb max_ip_pool_size (length ips)
      then err pool_too_large
      else elim (readers.parse_addr s) [
        | some addr ↦ ok (ips ++ s ∷ [])
        | none ↦ elim (readers.parse_prefix s) [
          | some prefix ↦ add_prefix ips prefix
          | none ↦ add_found ips (readers.lookup_ip s)
        ]
      ]

  unfoldable pub add_texts : List Bytes → List Bytes → Outcome ConfigError (List Bytes)
  add_texts ips [] = ok ips
  add_texts ips (s ∷ ss) = add_text ips s >>= λ more. add_texts more ss

  abbrev pub expanded : Option (List Bytes) → Outcome ConfigError (List Bytes)
  expanded none = out_of_fuel
  expanded (some ss) = ok ss

  -- `parseIPList`
  unfoldable pub parse_ip_list : List Bytes → List Bytes → Outcome ConfigError (List Bytes)
  parse_ip_list ips [] = ok ips
  parse_ip_list ips (pattern' ∷ rest) =
      expanded (expand_pattern pattern')
      >>= (λ ss. add_texts ips ss >>= λ more. parse_ip_list more rest)

  -- a duration that must be positive, or the default for an empty text
  abbrev pub positive : ConfigError → Option ℤ → Outcome ConfigError ℤ
  positive e none = err e
  positive e (some d) = if leb_ℤ d (pos 0) then err e else ok d

  unfoldable pub duration_or : ConfigError → ℤ → Bytes → Outcome ConfigError ℤ
  duration_or e default [] = ok default
  duration_or e default (c ∷ cs) = positive e (readers.parse_duration (c ∷ cs))

  -- the checks of `UnmarshalJSON`
  unfoldable pub check_ips : PoolJson → List Bytes → Outcome ConfigError (Unit {0})
  check_ips tmp ips = do
    guard (not (length ips == 0)) no_valid_ips
    guard (leb (length ips) max_ip_pool_size) pool_too_large
    guard (leb_ℤ tmp.top_ip_count (pos (length ips))) too_few_ips
    guard (leb_ℤ (pos 1) tmp.port && leb_ℤ tmp.port (pos 65535)) invalid_port
    ok tt

  unfoldable pub concurrency_of : ℤ → Outcome ConfigError ℤ
  concurrency_of n =
      if eqb_ℤ n (pos 0)
      then ok (pos 100)
      else if ltb_ℤ n (pos 1)
      then err invalid_max_concurrency
      else ok n

  abbrev pub new_ip_pool : PoolJson → List Bytes → ℕ → IpPool
  new_ip_pool tmp ips top = record {
    ips = ips;
    fallback_ip = tmp.fallback_ip;
    top_ip_count = top;
    best_indexes = replicate top 0;
    best_weights = replicate top 0;
    total_weight = 0;
    cur_valid_ips = 0;
    counter = 0;
  }

  -- `UnmarshalJSON`
  unfoldable pub decode_pool : PoolJson → Outcome ConfigError PoolConfig
  decode_pool tmp = do
    ips ← parse_ip_list [] tmp.ips
    checked ← check_ips tmp ips
    concurrency ← concurrency_of tmp.max_concurrency
    top ← top_count (length ips) tmp.top_ip_count
    attempts ← counted_byte invalid_attempts 4 tmp.attempts
    timeout ← duration_or invalid_timeout (pos 1000000000) tmp.timeout
    interval ← duration_or invalid_update_interval (pos 1800000000000) tmp.update_interval
    ok (record {
      wait_scan_on_startup = tmp.wait_scan_on_startup;
      pool = new_ip_pool tmp ips top;
      port = pos_part tmp.port;
      attempts = attempts;
      timeout = timeout;
      update_interval = interval;
      concurrency = concurrency;
    })
