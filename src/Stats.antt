-- ===== src/Stats.antt =====
-- The statistics of a session: enimul/internal/core/session_stats.go. Each addition is one atomic
-- step of some connection, so what the connections do together is a sequence of additions.
pub mod Totals
use lumine_for_android.Prelude.{
  ℕ, zero, suc, ◌+◌, ◌%◌, ◌^◌, List, [], ◌∷◌, if◌then◌else◌, ℤ, ltb_ℤ, sub_int64, pos, negsuc,
}

pub record SessionStats : Type 0 where
  pub down : ℕ
  pub up : ℕ
  pub blocked : ℕ
  pub tcp_conns : ℕ
  pub udp_conns : ℕ
  pub started : ℤ

pub record StatsSnapshot : Type 0 where
  pub down : ℕ
  pub up : ℕ
  pub blocked : ℕ
  pub tcp_conns : ℕ
  pub udp_conns : ℕ
  pub uptime_ms : ℤ

-- `Add` of an `atomic.Uint64`
abbrev pub add64 : ℕ → ℕ → ℕ
add64 a n = (a + n) % 2 ^ 64

abbrev pub reset_stats : ℤ → SessionStats → SessionStats
reset_stats now s = record {
  down = 0;
  up = 0;
  blocked = 0;
  tcp_conns = 0;
  udp_conns = 0;
  started = now;
}

-- `AddRxBytes` and `AddTxBytes`, the number of a `Read` or a `Write`
abbrev pub add_rx_bytes : ℤ → SessionStats → SessionStats
add_rx_bytes (pos zero) s = s
add_rx_bytes (pos (suc n)) s = record s { down = add64 s.down (suc n) }
add_rx_bytes (negsuc n) s = s

abbrev pub add_tx_bytes : ℤ → SessionStats → SessionStats
add_tx_bytes (pos zero) s = s
add_tx_bytes (pos (suc n)) s = record s { up = add64 s.up (suc n) }
add_tx_bytes (negsuc n) s = s

abbrev pub add_blocked_conn : SessionStats → SessionStats
add_blocked_conn s = record s { blocked = add64 s.blocked 1 }

abbrev pub inc_tcp_conn : SessionStats → SessionStats
inc_tcp_conn s = record s { tcp_conns = add64 s.tcp_conns 1 }

abbrev pub inc_udp_conn : SessionStats → SessionStats
inc_udp_conn s = record s { udp_conns = add64 s.udp_conns 1 }

abbrev pub snapshot_stats : ℤ → SessionStats → StatsSnapshot
snapshot_stats now s = record {
  down = s.down;
  up = s.up;
  blocked = s.blocked;
  tcp_conns = s.tcp_conns;
  udp_conns = s.udp_conns;
  uptime_ms = if ltb_ℤ (pos 0) s.started then sub_int64 now s.started else pos 0;
}

-- The calls by which the connections count. `read n` is `Read` or `ReadFrom` of a session's
-- connection, `wrote n` its `Write` or `WriteTo`, with the number of bytes they return.
pub data Counting : Type 0 where
  read wrote : ℤ → Counting
  conn_blocked tcp_opened udp_opened : Counting

unfoldable pub count : Counting → SessionStats → SessionStats
count (read n) s = add_rx_bytes n s
count (wrote n) s = add_tx_bytes n s
count conn_blocked s = add_blocked_conn s
count tcp_opened s = inc_tcp_conn s
count udp_opened s = inc_udp_conn s

unfoldable pub count_all : List Counting → SessionStats → SessionStats
count_all [] s = s
count_all (e ∷ es) s = count_all es (count e s)
