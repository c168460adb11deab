-- ===== src/TunConn/Stream.antt =====
-- What the connection below receives, against what was written.
use lumine_for_android.Prelude.{
  Bytes, ℕ, ◌≡◌, refl, sym, ap, ◌∙◌, subst, ◌⊎◌, inl, inr, Bool, true, false, ◌||◌, none, List, [],
  ◌∷◌, ◌++◌, append-nil, append_assoc, ltb, ◌==◌, if◌then◌else◌, Bool-cases, length, take, drop,
  ◌>>=◌, Returns, Returns-bind, ok, err,
}
use lumine_for_android.Tls.{HelloError, parse_client_hello}
use lumine_for_android.TunConn.{
  Env, TunPlan, TunConn, Event, sent, fragments, desync, alert, close, after, fine, flush_pending,
  perform, Done, handle_hello, handle_record, record_length, handle_bytes, is_block, is_raw,
  try_handle, write_bytes,
}

-- the bytes that were sent plainly
unfoldable pub payload : List Event → Bytes
payload [] = []
payload (sent b ∷ es) = b ++ payload es
payload (fragments _ ∷ es) = payload es
payload (desync _ _ _ _ _ _ ∷ es) = payload es
payload (alert _ _ ∷ es) = payload es
payload (close ∷ es) = payload es

payload-sent : (es : List Event) (b : Bytes) → payload (es ++ sent b ∷ []) ≡ payload es ++ b
unfolding payload
payload-sent [] b = append-nil b
payload-sent (sent a ∷ es) b = ap (◌++◌ a) (payload-sent es b) ∙ sym (append_assoc a (payload es) b)
payload-sent (fragments _ ∷ es) b = payload-sent es b
payload-sent (desync _ _ _ _ _ _ ∷ es) b = payload-sent es b
payload-sent (alert _ _ ∷ es) b = payload-sent es b
payload-sent (close ∷ es) b = payload-sent es b

-- Every operation on the connection below succeeds.
unfoldable pub IsUp : Env → Type 0
IsUp env = (es : List Event) → (e : Event) → env.succeeds es e ≡ true

-- The connection is open; of the bytes `fed` it has sent all but the pending ones.
unfoldable pub Carries : Bytes → TunConn → Type 0
Carries fed c =
    (c.closed ≡ false) × (payload c.events ++ c.pending ≡ fed) × (c.handled ≡ true → c.pending ≡ [])

or_false : (x y : Bool) → x ≡ false → y ≡ false → (x || y) ≡ false
or_false x y h k = rw (h, k)

module _ {A : Type 0} where
  second_branch :
      (x y : Bool) (a b c : A) → x ≡ false → y ≡ true → (if x then a else if y then b else c) ≡ b
  second_branch x y a b c h k = rw (h, k)

  third_branch :
      (x y : Bool) (a b c : A) → x ≡ false → y ≡ false → (if x then a else if y then b else c) ≡ c
  third_branch x y a b c h k = rw (h, k)

module _ (env : Env) (plan : TunPlan) where
  perform-up : IsUp env → (e : Event) → (c : TunConn) → perform env plan e c ≡ (fine, after e c)
  unfolding IsUp
  perform-up up e c = rw (up c.events e)

  flushed : TunConn → TunConn
  flushed c = record (after (sent c.pending) c) { handled = true; pending = [] }

  flush_pending-up :
      (c : TunConn)
      → IsUp env
      → (length c.pending == 0) ≡ false
      → flush_pending env plan c ≡ (fine, flushed c)
  unfolding flush_pending flushed IsUp
  flush_pending-up c up n = rw (n, up c.events (sent c.pending))

  flushed-Carries :
      (fed : Bytes) (c : TunConn)
      → payload c.events ++ c.pending ≡ fed
      → Carries fed (record (flushed c) { closed = false })
  unfolding flushed Carries
  flushed-Carries fed c e = (
    refl,
    append-nil (payload (c.events ++ sent c.pending ∷ [])) ∙ payload-sent c.events c.pending ∙ e,
    λ _. refl,
  )

  -- What is pending goes out as it is: in raw mode, or where it begins with no TLS handshake record.
  unfoldable pub IsOpaque : Bytes → Type 0
  IsOpaque b = (is_raw env plan plan.policy.mode ≡ true) ⊎ (record_length env plan b ≡ none)

  waiting-Carries :
      (fed : Bytes) (c : TunConn)
      → c.closed ≡ false
      → c.handled ≡ false
      → payload c.events ++ c.pending ≡ fed
      → Carries fed c
  unfolding Carries
  waiting-Carries fed c k h e = (k, e, λ t. absurd (cc))

  handle_bytes-Carries :
      (fed : Bytes) (c : TunConn)
      → IsUp env
      → record_length env plan c.pending ≡ none
      → (length c.pending == 0) ≡ false
      → c.closed ≡ false
      → c.handled ≡ false
      → payload c.events ++ c.pending ≡ fed
      → Returns (Carries fed) (handle_bytes env plan c)
  unfolding handle_bytes
  handle_bytes-Carries fed c up o n k h e = elim (Bool-cases (ltb (length c.pending) 5)) [
    | inl t ↦ rw t (waiting-Carries fed c k h e)
    | inr t ↦
        rw (t, o, handle_bytes, flush_pending-up (record c { handled = true }) up n)
          (flushed-Carries fed (record c { handled = true }) e)
  ]

  try_handle-Carries :
      (fed : Bytes) (c : TunConn)
      → IsUp env
      → plan.blocked ≡ false
      → is_block env plan plan.policy.mode ≡ false
      → IsOpaque c.pending
      → c.closed ≡ false
      → c.handled ≡ false
      → payload c.events ++ c.pending ≡ fed
      → Returns (Carries fed) (try_handle env plan c)
  unfolding try_handle IsOpaque
  try_handle-Carries fed c up b m o k h e =
      let bm : (plan.blocked || is_block env plan plan.policy.mode) ≡ false = or_false _ _ b m in
      elim (Bool-cases (length c.pending == 0)) [
        | inl n ↦ rw n (waiting-Carries fed c k h e)
        | inr n ↦ elim (Bool-cases (is_raw env plan plan.policy.mode)) [
          | inl r ↦ rw (n, bm, r, flush_pending-up c up n) (flushed-Carries fed c e)
          | inr r ↦
              rw (n, bm, r)
                (elim o [ inl q ↦ absurd (cc) | inr q ↦ handle_bytes-Carries fed c up q n k h e ])
        ]
      ]

  closed_of : (fed : Bytes) (c : TunConn) → Carries fed c → c.closed ≡ false
  unfolding Carries
  closed_of fed c h = h.0

  appended :
      (fed b : Bytes) (c : TunConn)
      → Carries fed c
      → payload c.events ++ (c.pending ++ b) ≡ fed ++ b
  unfolding Carries
  appended fed b c h =
      sym (append_assoc (payload c.events) c.pending b) ∙ ap (λ (x : Bytes). x ++ b) h.1

  after-Carries :
      (fed b : Bytes) (c : TunConn)
      → c.handled ≡ true
      → Carries fed c
      → Carries (fed ++ b) (after (sent b) c)
  unfolding Carries
  after-Carries fed b c t h =
      let empty : c.pending ≡ [] = h.2 t in
      let all_sent : payload c.events ≡ fed =
        sym (append-nil (payload c.events))
        ∙ ap (λ (x : Bytes). payload c.events ++ x) (sym empty)
        ∙ h.1 in
      (
        h.0,
        ap (λ (x : Bytes). payload (c.events ++ sent b ∷ []) ++ x) empty
            ∙ append-nil (payload (c.events ++ sent b ∷ []))
            ∙ payload-sent c.events b
            ∙ ap (λ (x : Bytes). x ++ b) all_sent,
        h.2,
      )

  write_bytes-handled :
      (b : Bytes) (c : TunConn)
      → IsUp env
      → c.closed ≡ false
      → c.handled ≡ true
      → write_bytes env plan b c ≡ ok (fine, after (sent b) c)
  unfolding write_bytes
  write_bytes-handled b c up k t =
      second_branch c.closed c.handled _ _ _ k t
      ∙ ap (λ (r : Done × TunConn). ok r) (perform-up up (sent b) c)

  write_bytes-open :
      (b : Bytes) (c : TunConn)
      → c.closed ≡ false
      → c.handled ≡ false
      → write_bytes env plan b c
        ≡ (try_handle env plan (record c { pending = c.pending ++ b }) >>= λ c'. ok (fine, c'))
  unfolding write_bytes
  write_bytes-open b c k t = third_branch c.closed c.handled _ _ _ k t

  -- On an open connection whose operations succeed, with a plan that does not block, and with traffic
  -- that is raw or begins with no TLS handshake record: a write succeeds, and what was sent plainly
  -- with what is pending is all that was ever written, in order.
  pub write_bytes-Carries :
      (fed b : Bytes) (c : TunConn)
      → IsUp env
      → plan.blocked ≡ false
      → is_block env plan plan.policy.mode ≡ false
      → IsOpaque (c.pending ++ b)
      → Carries fed c
      → Returns
          (λ (r : Done × TunConn). (r.0 ≡ fine) × Carries (fed ++ b) r.1)
          (write_bytes env plan b c)
  write_bytes-Carries fed b c up n m o h = elim (Bool-cases c.handled) [
    | inl t ↦
        subst (Returns (λ (r : Done × TunConn). (r.0 ≡ fine) × Carries (fed ++ b) r.1))
          (sym (write_bytes-handled b c up (closed_of fed c h) t)) (refl, after-Carries fed b c t h)
    | inr t ↦
        subst (Returns (λ (r : Done × TunConn). (r.0 ≡ fine) × Carries (fed ++ b) r.1))
          (sym (write_bytes-open b c (closed_of fed c h) t))
          (Returns-bind (Carries (fed ++ b)) (λ r. (r.0 ≡ fine) × Carries (fed ++ b) r.1)
            (try_handle env plan (record c { pending = c.pending ++ b })) (λ c'. ok (fine, c'))
            (try_handle-Carries (fed ++ b) (record c { pending = c.pending ++ b }) up n m o
              (closed_of fed c h) t (appended fed b c h))
            (λ c' hc. (refl, hc)))
  ]

  handle_hello_err :
      (c : TunConn) (b : Bytes) (e : HelloError)
      → handle_hello env plan b (err e) c ≡ ok (flush_pending env plan c)
  unfolding handle_hello
  handle_hello_err c b e = refl

  -- Where the operations on the connection below succeed, a record that does not parse as a hello is
  -- sent with all that is pending, and the bytes behind it, if there are any, are sent once more.
  pub handle_record-unparsed :
      (c : TunConn) (n x : ℕ) (tail : Bytes) (e : HelloError)
      → (length c.pending == 0) ≡ false
      → IsUp env
      → parse_client_hello (take n c.pending) ≡ err e
      → drop n c.pending ≡ x ∷ tail
      → Returns
          (λ (c' : TunConn). payload c'.events ≡ payload c.events ++ c.pending ++ x ∷ tail)
          (handle_record env plan n c)
  unfolding handle_record IsUp flushed
  handle_record-unparsed c n x tail e some_pending up p d =
      rw
        (
          p,
          handle_record,
          handle_hello_err c (take n c.pending) e,
          flush_pending-up c up some_pending,
          d,
          up (c.events ++ sent c.pending ∷ []) (sent (x ∷ tail)),
        )
        (payload-sent (c.events ++ sent c.pending ∷ []) (x ∷ tail)
          ∙ ap (λ (y : Bytes). y ++ x ∷ tail) (payload-sent c.events c.pending))
