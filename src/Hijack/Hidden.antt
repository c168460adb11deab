-- ===== src/Hijack/Hidden.antt =====
-- A reply for a domain of the lists shows no address of its own of the type that was asked for.
use lumine_for_android.Prelude.{
  Bytes, ℕ, ◌≡◌, refl, sym, ap, ◌∙◌, subst, ◌≢◌, ◌⊎◌, inl, inr, true, false, none, List, [], ◌∷◌,
  ◌++◌, arith, ◌==◌, ==_iff, Bool-cases, All, Any, All-append, All-map, Outcome, Returns,
  Returns-map, Returns-if, ok, err, panic, out_of_fuel,
}
use lumine_for_android.Hijack.{
  Stores, RecordData, Rr, Outer, allocate_fake_ip, fake_data, HijackError, contains_name, Reply,
  build_fake_answer_rr, append_fake, put_fake, ensure_fake_ip, Question, Message, fallback_fake_ttl,
  no_reply, replace_one, replace_answers, single_answer, fallback_reply, reply_of, build_reply,
}
use lumine_for_android.Route.{should_use_fake_ip}
use lumine_for_android.Stateful.{◌>>=◌, Leads, Leads-pure, Leads-and_then}
use lumine_for_android.Hijack.Fake.{
  AreStores, StandsFor, IsAddress, fake_data-IsAddress, ok_injective, allocate_fake_ip-Leads,
  fake_data-nil, build-Returns,
}

-- the record does not show an address of the type, or only this one
unfoldable pub Shows : ℕ → RecordData → Rr → Type 0
Shows qtype d r = (r.rrtype ≢ qtype) ⊎ (r.contents ≡ d)

-- All records of the type show the same data, and there is one: the address whose text stands for the
-- domain in the fake-IP store.
unfoldable pub IsHidden : Outer → Bytes → ℕ → List Rr → Stores → Type 0
IsHidden out domain qtype rs s =
    (fake_ip : Bytes) × (d : RecordData) × IsAddress out qtype fake_ip d
    × StandsFor out domain qtype fake_ip s
    × All (Shows qtype d) rs
    × Any (λ r. (r.rrtype ≡ qtype) × (r.contents ≡ d)) rs

Any-append_left : (P : Rr → Type 0) (xs ys : List Rr) → Any P xs → Any P (xs ++ ys)
Any-append_left P (x ∷ xs) ys (inl h) = inl h
Any-append_left P (x ∷ xs) ys (inr h) = inr (Any-append_left P xs ys h)
Any-append_left P [] ys h = absurd h

Any-append_right : (P : Rr → Type 0) (xs ys : List Rr) → Any P ys → Any P (xs ++ ys)
Any-append_right P [] ys h = h
Any-append_right P (x ∷ xs) ys h = inr (Any-append_right P xs ys h)

module _ (out : Outer) (domain : Bytes) (qtype : ℕ) (no_ip : out.net.parse_ip [] ≡ none) where
  -- no record was replaced yet
  Fresh : Reply → Type 0
  Fresh p =
      (kept : List Rr) × (p ≡ record { fake_ip = []; names = []; answer = kept; replaced = false })
      × All (λ r. r.rrtype ≢ qtype) kept

  -- the records that were replaced show what `fake_ip` was parsed to
  Done : Reply → Type 0
  Done p =
      (d : RecordData) × (p.replaced ≡ true)
      × (fake_data out qtype p.fake_ip ≡ ok d)
      × All (Shows qtype d) p.answer
      × Any (λ r. (r.rrtype ≡ qtype) × (r.contents ≡ d)) p.answer

  Progress : Reply → Stores → Type 0
  Progress p s = Fresh p ⊎ Done p × StandsFor out domain qtype p.fake_ip s

  -- done, with this text
  abbrev DoneWith : Bytes → Reply → Type 0
  DoneWith ip p = Done p × (p.fake_ip ≡ ip)

  append_fake-Returns :
      (P : Reply → Type 0) (p : Reply) (r : Rr) (ip : Bytes) (o : Outcome HijackError Rr)
      → Returns
          (λ fake. P (record {
            fake_ip = ip;
            names = r.name ∷ p.names;
            answer = p.answer ++ fake ∷ [];
            replaced = true;
          }))
          o
      → Returns P (append_fake out p r ip o)
  append_fake-Returns P p r ip (ok fake) h = h
  append_fake-Returns P p r ip (err e) h = tt
  append_fake-Returns P p r ip panic h = h
  append_fake-Returns P p r ip out_of_fuel h = h

  -- The first record that is replaced.
  put_first-Done :
      (kept : List Rr) (r : Rr) (ip : Bytes)
      → r.rrtype ≡ qtype
      → All (λ x. x.rrtype ≢ qtype) kept
      → Returns
          (DoneWith ip)
          (put_fake out (record { fake_ip = []; names = []; answer = kept; replaced = false }) r ip)
  unfolding put_fake contains_name Done Shows
  put_first-Done kept r ip e h =
      let p : Reply = record { fake_ip = []; names = []; answer = kept; replaced = false } in
      append_fake-Returns (DoneWith ip) p r ip
        (build_fake_answer_rr out r.name r.rrtype r.class r.ttl ip)
        (build-Returns out domain qtype no_ip _ r.name r.rrtype r.class r.ttl ip (λ d k. (
          (
            d,
            refl,
            subst (λ (t : ℕ). fake_data out t ip ≡ ok d) e k,
            All-append (Shows qtype d) kept _
                (All-map (λ (x : Rr). x.rrtype ≢ qtype) (Shows qtype d) kept (λ x n. inl n) h)
                (inr refl, tt),
            Any-append_right _ kept _ (inl (e, refl)),
          ),
          refl,
        )))

  -- A later one shows the same.
  put_next-Done :
      (p : Reply) (r : Rr)
      → r.rrtype ≡ qtype
      → Done p
      → Returns (DoneWith p.fake_ip) (put_fake out p r p.fake_ip)
  unfolding put_fake Done Shows
  put_next-Done p r e (d, t, k, a, n) =
      Returns-if (DoneWith p.fake_ip) (contains_name r.name p.names) _ _
        (λ _. ((d, refl, k, a, n), refl))
        (λ _. append_fake-Returns (DoneWith p.fake_ip) p r p.fake_ip _ (
          build-Returns out domain qtype no_ip _ r.name r.rrtype r.class r.ttl p.fake_ip (λ d' k'.
            let same_data : d' ≡ d =
              ok_injective d' d (sym k' ∙ ap (λ (u : ℕ). fake_data out u p.fake_ip) e ∙ k) in
            (
              (
                d,
                refl,
                k,
                All-append (Shows qtype d) p.answer _ a (inr same_data, tt),
                Any-append_left _ p.answer _ n,
              ),
              refl,
            ))))

  ensure-next :
      (ttl : ℕ) (ip : Bytes) (d : RecordData) (s : Stores)
      → fake_data out qtype ip ≡ ok d
      → ensure_fake_ip out domain qtype ttl ip s ≡ (ok ip, s)
  unfolding ensure_fake_ip
  ensure-next ttl [] d s h = absurd (fake_data-nil out domain qtype no_ip qtype d h)
  ensure-next ttl (c ∷ cs) d s h = refl

  -- what was put with a text that stands for the domain
  put-Leads :
      (ip : Bytes) (o : Outcome HijackError Reply) (s : Stores)
      → Returns (DoneWith ip) o
      → StandsFor out domain qtype ip s
      → AreStores s
      → Leads AreStores Progress (o, s)
  unfolding Progress
  put-Leads ip o s h k i =
      Leads-pure AreStores Progress o s
        (Returns-map (DoneWith ip) (λ p. Progress p s) o
          (λ p q. inr (q.0, subst (λ (x : Bytes). StandsFor out domain qtype x s) (sym q.1) k)) h)
        i

  kept-Progress :
      (p : Reply) (r : Rr) (s : Stores)
      → r.rrtype ≢ qtype
      → Progress p s
      → Progress (record p { answer = p.answer ++ r ∷ [] }) s
  unfolding Progress Fresh Done Shows
  kept-Progress p r s n (inl (kept, e, a)) = inl (
    kept ++ r ∷ [],
    ap (λ (q : Reply). record q { answer = q.answer ++ r ∷ [] }) e,
    All-append _ kept _ a (n, tt),
  )
  kept-Progress p r s n (inr ((d, t, k, a, y), u)) =
      inr ((d, t, k, All-append _ p.answer _ a (inl n, tt), Any-append_left _ p.answer _ y), u)

  -- a record of the type, with the text that the loop has
  abbrev faked : Reply → Rr → Stores → Outcome HijackError Reply × Stores
  faked p r =
      ensure_fake_ip out domain qtype r.ttl p.fake_ip >>= λ ip. λ s. (put_fake out p r ip, s)

  faked-Progress :
      (p : Reply) (r : Rr) (s : Stores)
      → r.rrtype ≡ qtype
      → Progress p s
      → AreStores s
      → Leads AreStores Progress (faked p r s)
  unfolding Progress Fresh Done ensure_fake_ip
  faked-Progress p r s e (inl (kept, q, a)) i =
      subst (λ (p' : Reply). Leads AreStores Progress (faked p' r s)) (sym q)
        (Leads-and_then AreStores (StandsFor out domain qtype) Progress
          (allocate_fake_ip out domain qtype r.ttl s) _
          (allocate_fake_ip-Leads out domain qtype no_ip r.ttl s i)
          (λ ip t k j. put-Leads ip _ t (put_first-Done kept r ip e a) k j))
  faked-Progress p r s e (inr (f, u)) i =
      rw (ensure-next r.ttl p.fake_ip f.0 s f.2)
        (put-Leads p.fake_ip _ s (put_next-Done p r e f) u i)

  replace_one-Progress :
      (p : Reply) (r : Rr) (s : Stores)
      → Progress p s
      → AreStores s
      → Leads AreStores Progress (replace_one out domain qtype p r s)
  unfolding replace_one
  replace_one-Progress p r s h i = elim (Bool-cases (r.rrtype == qtype)) [
    | inl t ↦ rw (t, replace_one) (faked-Progress p r s ((==_iff r.rrtype qtype).0 t) h i)
    | inr t ↦ rw (t, replace_one) (kept-Progress p r s (ground arith) h, i)
  ]

  replace_answers-Progress :
      (rs : List Rr) (p : Reply) (s : Stores)
      → Progress p s
      → AreStores s
      → Leads AreStores Progress (replace_answers out domain qtype rs p s)
  unfolding replace_answers
  replace_answers-Progress [] p s h i = (h, i)
  replace_answers-Progress (r ∷ rs) p s h i =
      Leads-and_then AreStores Progress Progress (replace_one out domain qtype p r s) _
        (replace_one-Progress p r s h i) (λ p' t h' j. replace_answers-Progress rs p' t h' j)

  abbrev Hides : Message → Stores → Type 0
  Hides m s = IsHidden out domain qtype m.answer s

  single_answer-IsHidden :
      (m : Message) (s : Stores) (o : Outcome HijackError Rr)
      → Returns (λ r. IsHidden out domain qtype (r ∷ []) s) o
      → Returns (λ m'. Hides m' s) (single_answer out m o)
  single_answer-IsHidden m s (ok r) h = h
  single_answer-IsHidden m s (err e) h = tt
  single_answer-IsHidden m s panic h = h
  single_answer-IsHidden m s out_of_fuel h = h

  fallback_reply-IsHidden :
      (q : Question) (m : Message) (s : Stores)
      → q.qtype ≡ qtype
      → AreStores s
      → Leads AreStores Hides (fallback_reply out domain qtype (q ∷ []) m s)
  unfolding fallback_reply IsHidden Shows
  fallback_reply-IsHidden q m s e i =
      let ttl = fallback_fake_ttl m in
      Leads-and_then AreStores (StandsFor out domain qtype) Hides
        (allocate_fake_ip out domain qtype ttl s) _
        (allocate_fake_ip-Leads out domain qtype no_ip ttl s i)
        (λ ip t u j.
          Leads-pure AreStores Hides _ t
            (single_answer-IsHidden m t _ (
              build-Returns out domain qtype no_ip _ q.name q.qtype q.qclass ttl ip (λ d k. (
                ip,
                d,
                subst (λ (x : ℕ). IsAddress out x ip d) e
                    (fake_data-IsAddress out domain qtype no_ip q.qtype ip d k),
                u,
                (inr refl, tt),
                inl (e, refl),
              ))))
            j)

  reply_of-IsHidden :
      (q : Question) (m : Message) (p : Reply) (s : Stores)
      → q.qtype ≡ qtype
      → Progress p s
      → AreStores s
      → Leads AreStores Hides (reply_of out domain qtype (q ∷ []) m p s)
  unfolding Progress Fresh Done IsHidden
  reply_of-IsHidden q m p s e (inl (kept, f, a)) i =
      subst (λ (p' : Reply). Leads AreStores Hides (reply_of out domain qtype (q ∷ []) m p' s))
        (sym f) (fallback_reply-IsHidden q m s e i)
  reply_of-IsHidden q m p s e (inr ((d, t, k, a, y), u)) i =
      rw t
        ((p.fake_ip, d, fake_data-IsAddress out domain qtype no_ip qtype p.fake_ip d k, u, a, y), i)

  start-Progress : (s : Stores) → Progress no_reply s
  unfolding Progress Fresh
  start-Progress s = inl ([], refl, tt)

  -- The reply to one question for a domain of the lists, made from an answer of the upstream that
  -- succeeded, shows one fake address in its answer section: each record there of the type that was
  -- asked for holds the address of that type that a text is read as, under which the fake-IP store of the type,
  -- as the reply leaves it, has the domain in lower case; and there is such a record, also where the
  -- upstream had none. Or it is an error. The fake-IP stores keep their invariants. The type of the
  -- question is the one asked for, and an empty text must not be read as an address.
  pub build_reply-IsHidden :
      (q : Question) (m : Message) (s : Stores)
      → q.qtype ≡ qtype
      → m.rcode ≡ 0
      → should_use_fake_ip out.to_lower out.matchers domain ≡ true
      → AreStores s
      → Leads AreStores
          (λ m' t. IsHidden out domain qtype m'.answer t)
          (build_reply out (q ∷ []) domain qtype m s)
  unfolding build_reply
  build_reply-IsHidden q m s e z u i =
      let z' : (m.rcode == 0) ≡ true = ground arith in
      rw (z', u, build_reply)
        (Leads-and_then AreStores Progress Hides
          (replace_answers out domain qtype m.answer no_reply s) _
          (replace_answers-Progress m.answer no_reply s (start-Progress s) i)
          (λ p t h j. reply_of-IsHidden q m p t e h j))
