-- ===== src/PoolConfig/Checked.antt =====
-- The decoding of a pool ends, and what it accepts is in range.
use lumine_for_android.Prelude.{
  Bytes, ℕ, zero, suc, ◌+◌, ◌≤◌, ◌<◌, ◌≡◌, refl, inl, inr, Bool, true, false, not, ◌&&◌, Option,
  none, some, List, [], ◌∷◌, arith, leb, ◌==◌, Bool-cases, Option-cases, length, length-append,
  take, replicate, length-replicate, Returns, Returns-bind, Returns-guard, Returns-if, ok, err, ℤ,
  pos_part, leb_ℤ, pos, negsuc,
}
use lumine_for_android.Addrtrie.Ip.{Addr}
use lumine_for_android.Pool.Slots.{sum}
use lumine_for_android.Pool.Ready.{IsReady}
use lumine_for_android.Pattern.{expand_pattern}
use lumine_for_android.Pattern.Fuel.{expand_pattern-Expands}
use lumine_for_android.PoolConfig.{
  no_valid_ips, pool_too_large, too_few_ips, invalid_port, max_ip_pool_size, Readers, append_ip,
  prefix_loop, add_prefix, add_addrs, add_found, add_text, add_texts, expanded, parse_ip_list,
  PoolJson, PoolConfig, ConfigError, counted_byte, top_count, positive, duration_or, check_ips,
  concurrency_of, new_ip_pool, decode_pool, invalid_attempts, invalid_timeout,
  invalid_update_interval,
}

-- no more addresses than a pool may have
IsSmall : List Bytes → Type 0
IsSmall ips = length ips ≤ max_ip_pool_size

IsSmall-nil : IsSmall []
unfolding IsSmall
IsSmall-nil = omega arith

small_size : (ips : List Bytes) → IsSmall ips → length ips ≤ max_ip_pool_size
unfolding IsSmall
small_size ips h = h

append_ip-Returns :
    (ips : List Bytes) (s : Bytes)
    → Returns (λ more. IsSmall more × (length more ≡ suc (length ips))) (append_ip ips s)
unfolding append_ip IsSmall
append_ip-Returns ips s =
    Returns-if _ (leb max_ip_pool_size (length ips)) _ _ (λ _. tt)
      (λ t.
        let n = length-append ips (s ∷ []) in
        let small : length ips < max_ip_pool_size = ground arith in (omega arith, omega arith))

module _ (readers : Readers) where
  -- Each round appends an address, so the limit of the size ends the loop.
  prefix_loop-Returns :
      (fuel : ℕ) (prefix : Addr × ℕ) (addr : Addr) (ips : List Bytes)
      → IsSmall ips
      → max_ip_pool_size < fuel + length ips
      → Returns IsSmall (prefix_loop readers fuel prefix addr ips)
  unfolding prefix_loop IsSmall
  prefix_loop-Returns zero prefix addr ips small h = absurd (omega arith)
  prefix_loop-Returns (suc fuel) prefix addr ips fits h =
      Returns-bind _ IsSmall (append_ip ips (readers.text addr)) _
        (append_ip-Returns ips (readers.text addr))
        (λ more (small, n). elim (Option-cases (readers.next addr)) [
          | inl e ↦ rw e small
          | inr (addr', e) ↦ elim (Bool-cases (readers.contains prefix addr')) [
            | inl t ↦ rw (e, t) (prefix_loop-Returns fuel prefix addr' more small (omega arith))
            | inr t ↦ rw (e, t) small
          ]
        ])

  add_prefix-Returns :
      (ips : List Bytes) (prefix : Addr × ℕ)
      → IsSmall ips
      → Returns IsSmall (add_prefix readers ips prefix)
  unfolding add_prefix
  add_prefix-Returns ips prefix h =
      Returns-if IsSmall (readers.contains prefix prefix.0) _ _
        (λ _. prefix_loop-Returns (suc max_ip_pool_size) prefix prefix.0 ips h (omega arith))
        (λ _. h)

  add_addrs-Returns :
      (ips : List Bytes) (addrs : List (Option Addr))
      → IsSmall ips
      → Returns IsSmall (add_addrs readers ips addrs)
  unfolding add_addrs
  add_addrs-Returns ips [] h = h
  add_addrs-Returns ips (none ∷ rest) h = add_addrs-Returns ips rest h
  add_addrs-Returns ips (some addr ∷ rest) h =
      Returns-bind _ IsSmall (append_ip ips (readers.text addr)) _
        (append_ip-Returns ips (readers.text addr))
        (λ more (small, n). add_addrs-Returns more rest small)

  add_found-Returns :
      (ips : List Bytes) (o : Option (List (Option Addr)))
      → IsSmall ips
      → Returns IsSmall (add_found readers ips o)
  add_found-Returns ips none h = tt
  add_found-Returns ips (some addrs) h = add_addrs-Returns ips addrs h

  add_text-Returns :
      (ips : List Bytes) (s : Bytes) → IsSmall ips → Returns IsSmall (add_text readers ips s)
  unfolding add_text IsSmall
  add_text-Returns ips s h =
      Returns-if IsSmall (leb max_ip_pool_size (length ips)) _ _ (λ _. tt)
        (λ t.
          let n = length-append ips (s ∷ []) in
          elim (Option-cases (readers.parse_addr s)) [
            | inr (addr, e) ↦ rw e (ground arith)
            | inl e ↦ elim (Option-cases (readers.parse_prefix s)) [
              | inr (prefix, f) ↦ rw (e, f) (add_prefix-Returns ips prefix h)
              | inl f ↦ rw (e, f) (add_found-Returns ips (readers.lookup_ip s) h)
            ]
          ])

  add_texts-Returns :
      (ips : List Bytes) (ss : List Bytes)
      → IsSmall ips
      → Returns IsSmall (add_texts readers ips ss)
  unfolding add_texts
  add_texts-Returns ips [] h = h
  add_texts-Returns ips (s ∷ ss) h =
      Returns-bind IsSmall IsSmall (add_text readers ips s) _ (add_text-Returns ips s h)
        (λ more small. add_texts-Returns more ss small)

  expanded-Returns :
      (o : Option (List Bytes))
      → (ws : List Bytes) × (o ≡ some ws)
      → Returns (λ x. Unit) (expanded readers o)
  expanded-Returns o (ws, h) = rw h tt

  parse_ip_list-Returns :
      (ips ps : List Bytes) → IsSmall ips → Returns IsSmall (parse_ip_list readers ips ps)
  unfolding parse_ip_list
  parse_ip_list-Returns ips [] h = h
  parse_ip_list-Returns ips (p ∷ ps) h =
      Returns-bind (λ x. Unit) IsSmall (expanded readers (expand_pattern p)) _
        (expanded-Returns (expand_pattern p) (expand_pattern-Expands p))
        (λ ss _.
          Returns-bind IsSmall IsSmall (add_texts readers ips ss) _ (add_texts-Returns ips ss h)
            (λ more small. parse_ip_list-Returns more ps small))

  -- What an accepted configuration has.
  pub record IsAccepted (c : PoolConfig) : Type 0 where
    pub is_ready : IsReady c.pool
    pub some_ips : 1 ≤ length c.pool.ips
    pub size : length c.pool.ips ≤ max_ip_pool_size
    pub top_range : (1 ≤ c.pool.top_ip_count) × (c.pool.top_ip_count ≤ 255)
    pub port_range : (1 ≤ c.port) × (c.port ≤ 65535)
    pub attempts_range : (1 ≤ c.attempts) × (c.attempts ≤ 255)
    pub timeout_positive : leb_ℤ c.timeout (pos 0) ≡ false
    pub interval_positive : leb_ℤ c.update_interval (pos 0) ≡ false
    pub concurrency_positive : leb_ℤ (pos 1) c.concurrency ≡ true

  abbrev InByte : ℕ → Type 0
  InByte n = (1 ≤ n) × (n ≤ 255)

  counted_byte-Returns :
      (e : ConfigError) (default : ℕ) (n : ℤ)
      → InByte default
      → Returns InByte (counted_byte e default n)
  unfolding counted_byte
  counted_byte-Returns e default (pos n) h = ground arith
  counted_byte-Returns e default (negsuc n) h = ground arith

  top_count-Returns : (ips : ℕ) (n : ℤ) → Returns InByte (top_count ips n)
  unfolding top_count
  top_count-Returns ips (pos n) = ground arith
  top_count-Returns ips (negsuc n) = ground arith

  positive-Returns :
      (e : ConfigError) (o : Option ℤ)
      → Returns (λ d. leb_ℤ d (pos 0) ≡ false) (positive readers e o)
  positive-Returns e none = tt
  positive-Returns e (some d) = Returns-if _ (leb_ℤ d (pos 0)) (err e) (ok d) (λ _. tt) (λ t. t)

  duration_or-Returns :
      (e : ConfigError) (default : ℤ) (s : Bytes)
      → leb_ℤ default (pos 0) ≡ false
      → Returns (λ d. leb_ℤ d (pos 0) ≡ false) (duration_or readers e default s)
  unfolding duration_or
  duration_or-Returns e default [] h = h
  duration_or-Returns e default (c ∷ cs) h = positive-Returns e (readers.parse_duration (c ∷ cs))

  concurrency_of-Returns :
      (n : ℤ) → Returns (λ c. leb_ℤ (pos 1) c ≡ true) (concurrency_of readers n)
  unfolding concurrency_of
  concurrency_of-Returns (pos n) = ground arith
  concurrency_of-Returns (negsuc n) = ground arith

  both_hold : (a b : Bool) → (a && b) ≡ true → (a ≡ true) × (b ≡ true)
  both_hold a b h = ground arith

  port-range :
      (n : ℤ)
      → leb_ℤ (pos 1) n ≡ true
      → leb_ℤ n (pos 65535) ≡ true
      → (1 ≤ pos_part n) × (pos_part n ≤ 65535)
  port-range (pos n) h k = ground arith
  port-range (negsuc n) h k = ground arith

  abbrev Checks : PoolJson → List Bytes → Type 0
  Checks tmp ips = (1 ≤ length ips) × ((1 ≤ pos_part tmp.port) × (pos_part tmp.port ≤ 65535))

  check_ips-Returns :
      (tmp : PoolJson) (ips : List Bytes)
      → Returns (λ x. Checks tmp ips) (check_ips readers tmp ips)
  unfolding check_ips
  check_ips-Returns tmp ips = Returns-guard _ (not (length ips == 0)) no_valid_ips _ λ n.
      Returns-guard _ _ pool_too_large _ λ _. Returns-guard _ _ too_few_ips _ λ _.
        Returns-guard _ _ invalid_port _
          λ p. let (low, high) = both_hold _ _ p in (ground arith, port-range tmp.port low high)

  sum_of_none : (xs : List ℕ) → 0 ≡ sum (take 0 xs)
  unfolding sum
  sum_of_none xs = refl

  new_ip_pool-IsReady :
      (tmp : PoolJson) (ips : List Bytes) (top : ℕ) → IsReady (new_ip_pool readers tmp ips top)
  new_ip_pool-IsReady tmp ips top = record {
    valid_slots = omega arith;
    total_sum = sum_of_none (replicate top 0);
    weights_range = tt;
    indexes_range = tt;
    index_slots = length-replicate top 0;
    weight_slots = length-replicate top 0;
  }

  -- The decoding of a pool ends, for any texts and whatever their lookups give, in an error or in a
  -- pool that is ready: it has an address and at most as many as the limit, slots, a port and
  -- attempts in their ranges, positive times, and room for a scan.
  pub decode_pool-IsAccepted : (tmp : PoolJson) → Returns IsAccepted (decode_pool readers tmp)
  unfolding decode_pool
  decode_pool-IsAccepted tmp =
      Returns-bind IsSmall IsAccepted (parse_ip_list readers [] tmp.ips) _
        (parse_ip_list-Returns [] tmp.ips (IsSmall-nil))
        λ ips small.
          Returns-bind (λ x. Checks tmp ips) IsAccepted (check_ips readers tmp ips) _
            (check_ips-Returns tmp ips)
            λ _ c.
              Returns-bind (λ x. leb_ℤ (pos 1) x ≡ true) IsAccepted
                (concurrency_of readers tmp.max_concurrency) _
                (concurrency_of-Returns tmp.max_concurrency)
                λ concurrency r.
                  Returns-bind InByte IsAccepted (top_count (length ips) tmp.top_ip_count) _
                    (top_count-Returns (length ips) tmp.top_ip_count)
                    λ top t.
                      Returns-bind InByte IsAccepted (counted_byte invalid_attempts 4 tmp.attempts)
                        _
                        (counted_byte-Returns invalid_attempts 4 tmp.attempts
                          (omega arith, omega arith))
                        λ attempts a.
                          Returns-bind (λ d. leb_ℤ d (pos 0) ≡ false) IsAccepted
                            (duration_or readers invalid_timeout (pos 1000000000) tmp.timeout) _
                            (duration_or-Returns invalid_timeout (pos 1000000000) tmp.timeout refl)
                            λ timeout u.
                              Returns-bind (λ d. leb_ℤ d (pos 0) ≡ false) IsAccepted
                                (duration_or readers invalid_update_interval (pos 1800000000000)
                                  tmp.update_interval)
                                _
                                (duration_or-Returns invalid_update_interval (pos 1800000000000)
                                  tmp.update_interval refl)
                                λ interval v. record {
                                  is_ready = new_ip_pool-IsReady tmp ips top;
                                  some_ips = c.0;
                                  size = small_size ips small;
                                  top_range = t;
                                  port_range = c.1;
                                  attempts_range = a;
                                  timeout_positive = u;
                                  interval_positive = v;
                                  concurrency_positive = r;
                                }
