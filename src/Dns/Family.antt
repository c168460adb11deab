-- ===== src/Dns/Family.antt =====
-- Which family of addresses a resolution gives, and what the cache makes of it.
use lumine_for_android.Prelude.{
  Bytes, ℕ, ◌<◌, ◌≡◌, refl, ◌⊎◌, inl, inr, none, some, List, arith, ◌==◌, Option-cases, Outcome,
  Returns, Returns-bind, Returns-map, Returns-if, ok, err, panic, out_of_fuel, ℤ,
}
use lumine_for_android.Policy.{DnsMode}
use lumine_for_android.Dns.{
  Upstreams, QueryType, Query, ResourceRecord, Response, DnsError, pick_first, NameCache, DnsState,
  nil_text, query, answers, found, ask, ask_other, or_other, pick_ip, first_query, do_dns_resolve,
  type_a, type_aaaa, bad_rcode,
}
use lumine_for_android.Dns.Rotation.{RoundTrip, exchange_msg-RoundTrip, attempt}

module _ {C : Type 0} (lru : NameCache C) (up : Upstreams) where
  -- An upstream gave the records `rs` for the query, in a response that succeeded.
  pub Fetched : Query → List ResourceRecord → Type 0
  Fetched q rs =
      (u : ℕ) × (c : ℕ) × (r : Response) × (up.exchange u c q ≡ some r)
      × (r.rcode ≡ 0)
      × (r.answer ≡ rs)

  -- `ip` is the first record of its type in answer to a query of this type.
  pub Got : Bytes → QueryType → Bytes → Type 0
  Got domain t ip =
      (rs : List ResourceRecord) × Fetched (query lru up domain t) rs × (pick_first t rs ≡ some ip)

  -- Such a query was answered without a record of its type.
  pub Lacks : Bytes → QueryType → Type 0
  Lacks domain t =
      (rs : List ResourceRecord) × Fetched (query lru up domain t) rs × (pick_first t rs ≡ none)

  -- What the mode lets a resolution give.
  pub IsAnswer : Bytes → DnsMode → Bytes → Type 0
  IsAnswer domain DnsMode.unset ip = ip ≡ nil_text
  IsAnswer domain DnsMode.ipv4_only ip = Got domain type_a ip
  IsAnswer domain DnsMode.ipv6_only ip = Got domain type_aaaa ip
  IsAnswer domain DnsMode.prefer_ipv4 ip =
      Got domain type_a ip ⊎ Lacks domain type_a × Got domain type_aaaa ip
  IsAnswer domain DnsMode.prefer_ipv6 ip =
      Got domain type_aaaa ip ⊎ Lacks domain type_aaaa × Got domain type_a ip

  module _ (some_upstream : 0 < up.count) where
    answers-Fetched :
        (q : Query) (u c : ℕ) (r : Response)
        → up.exchange u c q ≡ some r
        → Returns (Fetched q) (answers lru up r)
    unfolding Fetched
    answers-Fetched q u c r h =
        Returns-if (Fetched q) (r.rcode == 0) (ok r.answer) (err bad_rcode)
          (λ z. (u, c, r, h, ground arith, refl)) (λ z. tt)

    ask-Fetched : (q : Query) (s : DnsState C) → Returns (Fetched q) (ask lru up q s).0
    unfolding ask RoundTrip attempt
    ask-Fetched q s = elim (exchange_msg-RoundTrip lru up s q some_upstream) [
      | inl (_, o, _) ↦ rw o tt
      | inr (i, r, y, o, _) ↦ rw o (answers-Fetched q _ _ r y.answer)
    ]

    found-Got :
        (domain : Bytes) (t : QueryType) (rs : List ResourceRecord)
        → Fetched (query lru up domain t) rs
        → Returns (Got domain t) (found lru up (pick_first t rs))
    unfolding Got
    found-Got domain t rs h = elim (Option-cases (pick_first t rs)) [
      | inl n ↦ rw n tt
      | inr (ip, e) ↦ rw e (rs, h, e)
    ]

    ask_other-Got :
        (domain : Bytes) (t : QueryType) (s : DnsState C)
        → Returns (Got domain t) (ask_other lru up domain t s).0
    unfolding ask_other
    ask_other-Got domain t s =
        Returns-bind (Fetched (query lru up domain t)) (Got domain t)
          (ask lru up (query lru up domain t) s).0 (λ rs. found lru up (pick_first t rs))
          (ask-Fetched (query lru up domain t) s) (found-Got domain t)

    or_other-Got :
        (domain : Bytes) (t t' : QueryType) (rs : List ResourceRecord) (s : DnsState C)
        → Fetched (query lru up domain t) rs
        → Returns
            (λ ip. Got domain t ip ⊎ Lacks domain t × Got domain t' ip)
            (or_other lru up domain t' (pick_first t rs) s).0
    unfolding or_other Got Lacks
    or_other-Got domain t t' rs s h = elim (Option-cases (pick_first t rs)) [
      | inl n ↦ rw n (
          Returns-map (Got domain t') _ (ask_other lru up domain t' s).0
            (λ ip g. inr ((rs, h, n), g)) (ask_other-Got domain t' s))
      | inr (ip, e) ↦ rw e (inl (rs, h, e))
    ]

    pick_ip-IsAnswer :
        (domain : Bytes) (mode : DnsMode) (o : Outcome DnsError (List ResourceRecord))
        (s : DnsState C)
        → Returns (Fetched (first_query lru up domain mode)) o
        → Returns (IsAnswer domain mode) (pick_ip lru up domain mode o s).0
    unfolding pick_ip IsAnswer
    pick_ip-IsAnswer domain mode (err e) s h = tt
    pick_ip-IsAnswer domain mode panic s h = h
    pick_ip-IsAnswer domain mode out_of_fuel s h = h
    pick_ip-IsAnswer domain DnsMode.unset (ok rs) s h = refl
    pick_ip-IsAnswer domain DnsMode.ipv4_only (ok rs) s h = found-Got domain type_a rs h
    pick_ip-IsAnswer domain DnsMode.ipv6_only (ok rs) s h = found-Got domain type_aaaa rs h
    pick_ip-IsAnswer domain DnsMode.prefer_ipv4 (ok rs) s h =
        or_other-Got domain type_a type_aaaa rs s h
    pick_ip-IsAnswer domain DnsMode.prefer_ipv6 (ok rs) s h =
        or_other-Got domain type_aaaa type_a rs s h

    -- A resolution returns an error or an address that its mode allows: the first record of the one
    -- family for the modes that name only one; for the modes that prefer a family the first record of
    -- it, or the first of the other family if an upstream answered without one of the preferred; and
    -- the text of a nil address where no mode is set. There must be an upstream.
    pub do_dns_resolve-IsAnswer :
        (domain : Bytes) (mode : DnsMode) (life : ℤ) (s : DnsState C)
        → Returns (IsAnswer domain mode) (do_dns_resolve lru up domain mode life s).0
    unfolding do_dns_resolve
    do_dns_resolve-IsAnswer domain mode life s =
        let q = first_query lru up domain mode in
        pick_ip-IsAnswer domain mode (ask lru up q s).0 (ask lru up q s).1 (ask-Fetched q s)
