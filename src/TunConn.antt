-- ===== src/TunConn.antt =====
-- `tunPolicyConn`: enimul/internal/core/tun_bridge.go, the connection that applies a dial plan to
-- what an app sends. What it does to the connection below is a list of events.
pub mod Stream
use lumine_for_android.Prelude.{
  Bytes, codes, slice, has_prefix, ℕ, ◌+◌, ◌*◌, Bool, true, false, not, ◌&&◌, ◌||◌, Option, none,
  some, List, [], ◌∷◌, ◌++◌, ltb, ◌==◌, if◌then◌else◌, length, take, drop, Outcome, ◌>>=◌, or_panic,
  ok, err, panic, out_of_fuel, ℤ, eqb_ℤ, pos, negsuc,
}
use lumine_for_android.Tls.{Hello, HelloError, parse_client_hello}
use lumine_for_android.Fragment.{Action, send_records}
use lumine_for_android.Policy.{Policy, Mode, holds, unset_int, merge_policies}
use lumine_for_android.Addrtrie.Domain.{Node, find}

-- what is done to the connection below
pub data Event : Type 0 where
  sent : Bytes → Event
  fragments : List Action → Event
  desync : Bool → Bytes → ℤ → ℕ → ℤ → ℤ → Event
  alert : Bytes → ℕ → Event
  close : Event

-- the fields of `DialPlan` that are read here
pub record TunPlan : Type 0 where
  pub blocked : Bool
  pub target_host : Bytes
  pub policy : Policy

-- `tunPolicyConn`; `events` is the history of the connection below.
pub record TunConn : Type 0 where
  pub handled : Bool
  pub closed : Bool
  pub pending : Bytes
  pub events : List Event

-- `tlsAlertAccessDenied` and `tlsAlertProtocolVersion`, with the values of the source
abbrev access_denied : ℕ
access_denied = 70

abbrev protocol_version : ℕ
protocol_version = 49

abbrev pub after : Event → TunConn → TunConn
after e c = record c { events = c.events ++ e ∷ [] }

-- `ok`, or that the caller gets an error
pub data Done : Type 0 where
  fine failed : Done

-- What the connection is used with: whether an event succeeds after a history, `getFakeTTL`, the
-- domain matcher and the default policy.
pub record Env : Type 0 where
  pub succeeds : List Event → Event → Bool
  pub get_fake_ttl : Policy → Bytes → Option ℤ
  pub domains : Node Policy
  pub default_policy : Policy

module _ (env : Env) (plan : TunPlan) where
  -- an operation on the connection below
  abbrev pub perform : Event → TunConn → Done × TunConn
  perform e c = (if env.succeeds c.events e then fine else failed, after e c)

  -- `flushPendingLocked`
  abbrev pub flush_end : Done × TunConn → Done × TunConn
  flush_end (fine, c) = (fine, record c { handled = true; pending = [] })
  flush_end (failed, c) = (failed, c)

  unfoldable pub flush_pending : TunConn → Done × TunConn
  flush_pending c =
      if length c.pending == 0
      then (fine, record c { handled = true })
      else flush_end (perform (sent c.pending) c)

  -- an alert that ends the connection
  abbrev pub refuse : Bytes → ℕ → TunConn → Done × TunConn
  refuse version description c =
      (failed, after close (after (alert version description) (record c { closed = true })))

  -- what the server name's own policy says: `none` goes on
  abbrev pub sni_verdict : Bytes → TunConn → Option Policy → Option (Done × TunConn)
  sni_verdict version c none = none
  sni_verdict version c (some p) = elim (merge_policies (p ∷ env.default_policy ∷ [])).mode [
    | Mode.block ↦ some (failed, after close (record c { closed = true }))
    | Mode.tls_alert ↦ some (refuse version access_denied c)
    | _ ↦ none
  ]

  -- `case ModeTTLD`
  unfoldable pub send_desync : Bytes → ℤ → ℕ → TunConn → Done × TunConn
  send_desync record' start len c =
      let ipv6 = has_prefix (codes "[") plan.target_host in
      let p = plan.policy in
      let ttl =
        (if eqb_ℤ p.fake_ttl (pos 0) || eqb_ℤ p.fake_ttl unset_int
          then env.get_fake_ttl p plan.target_host
          else some p.fake_ttl) in
      elim ttl [
        | none ↦ (failed, c)
        | some t ↦ perform (desync ipv6 record' start len t p.fake_sleep) c
      ]

  -- `switch mode`
  unfoldable pub send_mode : Mode → Bytes → ℤ → ℕ → TunConn → Outcome (Unit {0}) (Done × TunConn)
  send_mode Mode.tls_rf b start len c =
      let p = plan.policy in
      do
        actions ←
            send_records b start len p.num_records p.num_segments p.minor_ver (holds p.oob)
              (holds p.oob_ex)
        ok (perform (fragments actions) c)
  send_mode Mode.ttl_d b start len c = ok (send_desync b start len c)
  send_mode _ b start len c = ok (perform (sent b) c)

  -- the tests on the server name
  unfoldable pub send_hello : Bytes → Hello → TunConn → Outcome (Unit {0}) (Done × TunConn)
  send_hello b h c = elim h.seen.sni [
    | none ↦ send_mode Mode.direct b (negsuc 0) 0 c
    | some (start, len) ↦
        if start == 0 || len == 0 || h.seen.has_ech
        then send_mode Mode.direct b (pos start) len c
        else (do
          name ← or_panic (slice b start (start + len))
          elim (sni_verdict h.version c (find env.domains name)) [
            | some end ↦ ok end
            | none ↦ send_mode plan.policy.mode b (pos start) len c
          ])
  ]

  -- `handleTLSLocked`, for what `parseClientHello` says of the record
  unfoldable pub handle_hello :
      Bytes → Outcome HelloError Hello → TunConn → Outcome (Unit {0}) (Done × TunConn)
  handle_hello b (ok h) c = elim plan.policy.mode [
    | Mode.tls_alert ↦ ok (refuse h.version access_denied c)
    | _ ↦
        if holds plan.policy.tls13_only && not h.seen.has_key_share
        then ok (refuse h.version protocol_version c)
        else send_hello b h c
  ]
  handle_hello b (err e) c = ok (flush_pending c)
  handle_hello b panic c = panic
  handle_hello b out_of_fuel c = out_of_fuel

  -- `c.closed = err != nil`
  abbrev pub close_if_failed : Done × TunConn → TunConn
  close_if_failed (fine, c) = record c { closed = false }
  close_if_failed (failed, c) = record c { closed = true }

  -- what follows a handled record: the bytes behind it
  abbrev pub tail_end : Done × TunConn → TunConn
  tail_end (fine, c) = c
  tail_end (failed, c) = record c { closed = true }

  abbrev pub forward_tail : Bytes → TunConn → TunConn
  forward_tail [] c = c
  forward_tail (x ∷ tail) c = tail_end (perform (sent (x ∷ tail)) c)

  abbrev pub end_record : Bytes → Done × TunConn → TunConn
  end_record tail (failed, c) = record c { closed = true }
  end_record tail (fine, c) = forward_tail tail (record c { handled = true; pending = [] })

  -- a record of `n` bytes that has arrived whole
  unfoldable pub handle_record : ℕ → TunConn → Outcome (Unit {0}) TunConn
  handle_record n c = do
    r ← handle_hello (take n c.pending) (parse_client_hello (take n c.pending)) c
    ok (end_record (drop n c.pending) r)

  -- the length of the record that `p` begins with, if it begins with one
  unfoldable pub record_length : Bytes → Option ℕ
  record_length (t ∷ major ∷ minor ∷ hi ∷ lo ∷ _) =
      if t == 22 && major == 3 then some (5 + (hi * 256 + lo)) else none
  record_length _ = none

  -- `tryHandlePendingLocked`, behind the tests on the plan
  unfoldable pub handle_bytes : TunConn → Outcome (Unit {0}) TunConn
  handle_bytes c = if ltb (length c.pending) 5 then ok c else elim (record_length c.pending) [
    | none ↦ ok (close_if_failed (flush_pending (record c { handled = true })))
    | some n ↦ if ltb (length c.pending) n then ok c else handle_record n c
  ]

  abbrev pub is_block : Mode → Bool
  is_block Mode.block = true
  is_block _ = false

  abbrev pub is_raw : Mode → Bool
  is_raw Mode.raw = true
  is_raw _ = false

  unfoldable pub try_handle : TunConn → Outcome (Unit {0}) TunConn
  try_handle c =
      if length c.pending == 0
      then ok c
      else if plan.blocked || is_block plan.policy.mode
      then ok (after close (record c { closed = true }))
      else if is_raw plan.policy.mode
      then ok (close_if_failed (flush_pending c))
      else handle_bytes c

  -- `Write`; `failed` is an error, as of a closed connection.
  unfoldable pub write_bytes : Bytes → TunConn → Outcome (Unit {0}) (Done × TunConn)
  write_bytes b c =
      if c.closed
      then ok (failed, c)
      else if c.handled
      then ok (perform (sent b) c)
      else (do c' ← try_handle (record c { pending = c.pending ++ b }); ok (fine, c'))
