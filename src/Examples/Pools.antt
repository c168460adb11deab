-- ===== src/Examples/Pools.antt =====
-- A pool of three addresses, and the patterns of a configuration.
use lumine_for_android.Prelude.{
  Bytes, codes, ℕ, ◌+◌, ◌-◌, ◌*◌, ◌/◌, ◌<◌, ◌≡◌, refl, ◌⊎◌, false, none, some, List, [], ◌∷◌, arith,
  ltb, ◌==◌, Returns, pos,
}
use lumine_for_android.Addrtrie.Ip.{v4}
use lumine_for_android.PoolConfig.{PoolJson, Readers, decode_pool}
use lumine_for_android.PoolConfig.Checked.{IsAccepted, decode_pool-IsAccepted}
use lumine_for_android.Pool.{Float64, IpPool, IpResult, update_best, get}
use lumine_for_android.Pool.Slots.{sum}
use lumine_for_android.Pool.Ready.{IsReady, IsFloat64, update_best-IsReady}
use lumine_for_android.Pool.Get.{IsIn, get-Returns}
use lumine_for_android.Pool.Shares.{hits, share, hits-share}
use lumine_for_android.Pattern.{expand_pattern}
use lumine_for_android.Pattern.Words.{Group, written, words, is_plain, Alternatives, IsPattern}
use lumine_for_android.Pattern.Expand.{expand_pattern-words}
use lumine_for_android.Pattern.Fuel.{expand_pattern-Expands}

-- The laws can be met: whole numbers, all of them equal to themselves.
abbrev whole : Float64 ℕ
whole = record {
  of_nat = λ n. n;
  hundred_thousandth = 0;
  add = λ a b. a + b;
  sub = λ a b. a - b;
  mul = λ a b. a * b;
  div = λ a b. a / b;
  lt = ltb;
  equal = λ a b. a == b;
  truncate = λ n. n;
}

whole-IsFloat64 : IsFloat64 whole
whole-IsFloat64 = record {
  truncate-of_nat = λ n h. refl;
  truncate_between = λ a b w h e l u. (ground arith, ground arith);
}

abbrev addresses : List Bytes
addresses = codes "10.0.0.1" ∷ codes "10.0.0.2" ∷ codes "10.0.0.3" ∷ []

-- the pool before its first scan
abbrev new_pool : IpPool
new_pool = record {
  ips = addresses;
  fallback_ip = codes "10.0.0.9";
  top_ip_count = 2;
  best_indexes = 0 ∷ 0 ∷ [];
  best_weights = 0 ∷ 0 ∷ [];
  total_weight = 0;
  cur_valid_ips = 0;
  counter = 0;
}

new_pool-IsReady : IsReady new_pool
unfolding sum
new_pool-IsReady = record {
  valid_slots = omega arith;
  total_sum = refl;
  weights_range = tt;
  indexes_range = tt;
  index_slots = refl;
  weight_slots = refl;
}

-- two addresses answered, in 20 and in 5 milliseconds
abbrev results : List (IpResult ℕ)
results =
    record { ip_index = 0; latency = 20000000; loss = 0 }
    ∷ record { ip_index = 2; latency = 5000000; loss = 0 }
    ∷ []

update_best-IsReady_example : IsReady (update_best whole results new_pool)
update_best-IsReady_example =
    update_best-IsReady whole whole-IsFloat64 results new_pool
      ((omega arith, refl), ((omega arith, refl), tt)) new_pool-IsReady

-- the pool with the weights 3 and 1
abbrev scanned : IpPool
scanned = record new_pool {
  best_indexes = 2 ∷ 0 ∷ [];
  best_weights = 3 ∷ 1 ∷ [];
  total_weight = 4;
  cur_valid_ips = 2;
  counter = 7;
}

scanned-IsReady : IsReady scanned
unfolding sum
scanned-IsReady = record {
  valid_slots = omega arith;
  total_sum = refl;
  weights_range = ((omega arith, omega arith), ((omega arith, omega arith), tt));
  indexes_range = (omega arith, (omega arith, tt));
  index_slots = refl;
  weight_slots = refl;
}

get-Returns_example :
    Returns
      (λ ip.
        (scanned.cur_valid_ips ≡ 0) × (ip ≡ scanned.fallback_ip)
        ⊎ (0 < scanned.cur_valid_ips) × IsIn addresses ip)
      (get scanned).0
    × IsReady (get scanned).1
get-Returns_example = get-Returns scanned scanned-IsReady

hits-share_example :
    hits (codes "10.0.0.3") 4 scanned ≡ share (codes "10.0.0.3") addresses (3 ∷ 1 ∷ []) (2 ∷ 0 ∷ [])
hits-share_example =
    hits-share (codes "10.0.0.3") scanned scanned-IsReady (omega arith) (omega arith)

-- the pattern "a(b|c).d|e"
abbrev group : Group
group = record { text = codes "a"; inside = record { first = codes "b"; others = codes "c" ∷ [] } }

abbrev ending : Alternatives
ending = record { first = codes ".d"; others = codes "e" ∷ [] }

group-IsPattern : IsPattern (group ∷ []) ending
unfolding is_plain
group-IsPattern =
    (((refl, (refl, tt)), ((refl, tt), tt)), (((refl, tt), ((refl, tt), ((refl, tt), tt))), tt))

expand_pattern-words_example :
    expand_pattern (written (group ∷ []) ending) ≡ some (words (group ∷ []) ending)
expand_pattern-words_example = expand_pattern-words (group ∷ []) ending group-IsPattern

expand_pattern-Expands_example : (ws : List Bytes) × (expand_pattern (codes "a((b|c)") ≡ some ws)
expand_pattern-Expands_example = expand_pattern-Expands (codes "a((b|c)")

-- a configuration that names two addresses by one pattern
abbrev pool_json : PoolJson
pool_json = record {
  wait_scan_on_startup = false;
  fallback_ip = codes "10.0.0.9";
  ips = codes "10.0.0.(1|2)" ∷ [];
  port = pos 443;
  top_ip_count = pos 2;
  max_concurrency = pos 0;
  timeout = [];
  update_interval = [];
  attempts = pos 0;
}

-- readers that read every text as an address
abbrev any_reader : Readers
any_reader = record {
  parse_addr = λ s. some (v4 1);
  parse_prefix = λ s. none;
  contains = λ p addr. false;
  next = λ addr. none;
  text = λ addr. [];
  lookup_ip = λ s. none;
  parse_duration = λ s. none;
}

decode_pool-IsAccepted_example : Returns (IsAccepted any_reader) (decode_pool any_reader pool_json)
decode_pool-IsAccepted_example = decode_pool-IsAccepted any_reader pool_json
