-- ===== src/Dns/Rotation.antt =====
-- `exchangeMsg` goes once around its upstreams, from the one that answered last.
use native.Mathlib.Nat.{add-mod_right, mod-eq_of_lt, mod-lt}
use lumine_for_android.Prelude.{
  ℕ, zero, suc, ◌+◌, ◌-◌, ◌%◌, ◌<◌, ◌≡◌, refl, sym, ap, ◌∙◌, subst, ◌≢◌, ◌⊎◌, inl, inr, false,
  Option, none, some, arith, leb, ◌==◌, if◌then◌else◌, ==_iff, Bool-cases, Option-cases, Outcome,
  ok, err,
}
use lumine_for_android.Dns.{
  Upstreams, Query, Response, DnsError, NameCache, DnsState, exchange_loop, exchange_msg,
  dns_exchange, counted,
}

module _ {C : Type 0} (lru : NameCache C) (up : Upstreams) where
  -- what the round `i` of an exchange gets that begins in the state `s`
  unfoldable pub attempt : DnsState C → Query → ℕ → Option Response
  attempt s q i = up.exchange ((s.index % up.count + i) % up.count) (s.calls + i) q

  -- The rounds before `i` failed, and the round `i` got `r`.
  pub record AnswersFirst (s : DnsState C) (q : Query) (i : ℕ) (r : Response) : Type 0 where
    pub in_range : i < up.count
    pub failed : (j : ℕ) → j < i → attempt s q j ≡ none
    pub answer : attempt s q i ≡ some r

  -- What an exchange ends in: all rounds failed, and the next one begins at the first upstream; or the
  -- first answer, and the next one begins at the upstream that gave it.
  unfoldable pub RoundTrip : DnsState C → Query → Outcome DnsError Response × DnsState C → Type 0
  RoundTrip s q (o, t) =
      ((i : ℕ) → i < up.count → attempt s q i ≡ none)
        × (o ≡ err dns_exchange)
        × (t ≡ record s { index = 0; calls = s.calls + up.count })
      ⊎ (i : ℕ) × (r : Response) × AnswersFirst s q i r
        × (o ≡ ok r)
        × (t ≡ record s { index = (s.index % up.count + i) % up.count; calls = s.calls + suc i })

  loop_failed :
      (start : ℕ) (q : Query) (k i : ℕ) (s : DnsState C)
      → up.exchange ((start + i) % up.count) s.calls q ≡ none
      → exchange_loop lru up (suc k) i start q s
        ≡ exchange_loop lru up k (suc i) start q (counted lru up s)
  unfolding exchange_loop
  loop_failed start q k i s h = rw (h, exchange_loop)

  loop_answered :
      (start : ℕ) (q : Query) (k i : ℕ) (s : DnsState C) (r : Response)
      → up.exchange ((start + i) % up.count) s.calls q ≡ some r
      → exchange_loop lru up (suc k) i start q s
        ≡ (ok r, record (counted lru up s) { index = (start + i) % up.count })
  unfolding exchange_loop
  loop_answered start q k i s r h = rw (h, exchange_loop)

  later :
      (s : DnsState C) (q : Query) (i : ℕ)
      → ((j : ℕ) → j < i → attempt s q j ≡ none)
      → attempt s q i ≡ none
      → (j : ℕ) → j < suc i
      → attempt s q j ≡ none
  later s q i h n j p = elim (Bool-cases (j == i)) [
    | inl e ↦ ap (attempt s q) ((==_iff j i).0 e) ∙ n
    | inr e ↦ h j (ground arith)
  ]

  loop-RoundTrip :
      (s : DnsState C) (q : Query) (k i : ℕ)
      → i + k ≡ up.count
      → ((j : ℕ) → j < i → attempt s q j ≡ none)
      → RoundTrip s q
          (exchange_loop lru up k i (s.index % up.count) q (record s { calls = s.calls + i }))
  unfolding RoundTrip attempt exchange_loop
  loop-RoundTrip s q zero i e h =
      let n : i ≡ up.count = omega arith in
      inl (
        (λ j p. h j (omega arith)),
        refl,
        ap (λ (c : ℕ). record s { index = 0; calls = s.calls + c }) n,
      )
  loop-RoundTrip s q (suc k) i e h = elim (Option-cases (attempt s q i)) [
    | inl n ↦
        let c : suc (s.calls + i) ≡ s.calls + suc i = omega arith in
        subst (RoundTrip s q)
          (sym (
            loop_failed (s.index % up.count) q k i (record s { calls = s.calls + i }) n
            ∙ ap
                (λ (x : ℕ).
                  exchange_loop lru up k (suc i) (s.index % up.count) q (record s { calls = x }))
                c))
          (loop-RoundTrip s q k (suc i) (omega arith) (later s q i h n))
    | inr (r, y) ↦
        let c : suc (s.calls + i) ≡ s.calls + suc i = omega arith in
        subst (RoundTrip s q)
          (sym (loop_answered (s.index % up.count) q k i (record s { calls = s.calls + i }) r y))
          (inr (
            i,
            r,
            record { in_range = omega arith; failed = h; answer = y },
            refl,
            ap (λ (x : ℕ). record s { index = (s.index % up.count + i) % up.count; calls = x }) c,
          ))
  ]

  -- An exchange asks the upstreams one after another, each at most once, from the one that answered
  -- last, and ends with the first answer: then the next exchange begins at that upstream. It fails
  -- only if every upstream failed; then the next one begins at the first upstream. There must be an
  -- upstream.
  pub exchange_msg-RoundTrip :
      (s : DnsState C) (q : Query) → 0 < up.count → RoundTrip s q (exchange_msg lru up q s)
  unfolding exchange_msg
  exchange_msg-RoundTrip s q h =
      let n : (up.count == 0) ≡ false = ground arith in
      let c : s.calls + 0 ≡ s.calls = omega arith in
      rw n (
        subst
          (λ (x : ℕ).
            RoundTrip s q
              (exchange_loop lru up up.count 0 (s.index % up.count) q (record s { calls = x })))
          c (loop-RoundTrip s q up.count 0 (omega arith) (λ j p. absurd (omega arith))))

  -- the round in which the upstream `j` is asked
  round_of : ℕ → ℕ → ℕ
  round_of start j = if leb start j then j - start else j + up.count - start

  round_of_lem :
      (start j : ℕ)
      → start < up.count
      → j < up.count
      → (round_of start j < up.count) × ((start + round_of start j) % up.count ≡ j)
  unfolding round_of
  round_of_lem start j h k = elim (Bool-cases (leb start j)) [
    | inl t ↦
        let e : start + (j - start) ≡ j = ground arith in
        rw t (omega arith, ap (λ (x : ℕ). x % up.count) e ∙ mod-eq_of_lt k)
    | inr t ↦
        let e : start + (j + up.count - start) ≡ j + up.count = ground arith in
        rw t
          (ground arith, ap (λ (x : ℕ). x % up.count) e ∙ add-mod_right j up.count ∙ mod-eq_of_lt k)
  ]

  -- If one upstream answers a query whenever it is asked, then the exchange of that query answers,
  -- whatever the other upstreams do and wherever the exchange begins.
  pub exchange_msg-answers :
      (s : DnsState C) (q : Query) (j : ℕ)
      → j < up.count
      → ((c : ℕ) → up.exchange j c q ≢ none)
      → (r : Response) × ((exchange_msg lru up q s).0 ≡ ok r)
  unfolding RoundTrip attempt
  exchange_msg-answers s q j h live =
      let (small, at_j) = round_of_lem (s.index % up.count) j (mod-lt s.index (omega arith)) h in
      elim (exchange_msg-RoundTrip s q (omega arith)) [
        | inl (failed, _, _) ↦
            let i = round_of (s.index % up.count) j in
            absurd (
              live (s.calls + i)
                (ap (λ (u : ℕ). up.exchange u (s.calls + i) q) (sym at_j) ∙ failed i small))
        | inr (i, r, _, o, _) ↦ (r, o)
      ]

  pub exchange_msg-cache :
      (s : DnsState C) (q : Query) → 0 < up.count → (exchange_msg lru up q s).1.cache ≡ s.cache
  unfolding RoundTrip
  exchange_msg-cache s q h = elim (exchange_msg-RoundTrip s q h) [
    | inl (_, _, t) ↦ ap (λ (x : DnsState C). x.cache) t
    | inr (i, r, _, _, t) ↦ ap (λ (x : DnsState C). x.cache) t
  ]
