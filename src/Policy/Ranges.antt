-- ===== src/Policy/Ranges.antt =====
-- The values that a decoded or merged policy can hold.
use lumine_for_android.Prelude.{
  Bytes, same, ℕ, ◌-◌, ◌^◌, ◌≤◌, ◌<◌, ◌≡◌, refl, ◌≢◌, ◌⊎◌, inl, inr, true, false, Option, none,
  some, arith, ltb, ◌==◌, Bool-cases, Returns, Returns-bind, Returns-if, ℤ, ◌≤ℤ◌, ltb_ℤ, leb_ℤ,
  eqb_ℤ, eqb_ℤ_iff, pos, negsuc,
}
use lumine_for_android.Policy.{Policy, unset_int, unset_string, zero_policy}
use lumine_for_android.Policy.Decode.{
  PolicyError, PolicyJson, to_int, int_field, nonzero_field, segments_field, duration_field,
  string_field, above, decode_policy, bad_host, bad_map_to, zero_num_records, zero_attempts,
  zero_max_ttl, bad_connect_timeout, bad_send_interval, bad_fake_sleep, bad_single_timeout,
  bad_dns_cache_ttl, bad_ttl_cache_ttl,
}

-- the types of the fields of `tmp`
pub record IsTyped (tmp : PolicyJson) : Type 0 where
  pub port : (n : ℕ) → tmp.port ≡ some n → n < 2 ^ 16
  pub fake_ttl : (n : ℕ) → tmp.fake_ttl ≡ some n → n < 2 ^ 8
  pub max_ttl : (n : ℕ) → tmp.max_ttl ≡ some n → n < 2 ^ 8
  pub http_status : (n : ℕ) → tmp.http_status ≡ some n → n < 2 ^ 64
  pub num_records : (n : ℕ) → tmp.num_records ≡ some n → n < 2 ^ 64
  pub attempts : (n : ℕ) → tmp.attempts ≡ some n → n < 2 ^ 64

-- a value of `int`
abbrev pub IsInt64 : ℤ → Type 0
IsInt64 v = (negsuc (2 ^ 63 - 1) ≤ℤ v) × (v ≤ℤ pos (2 ^ 63 - 1))

-- 0 where the text has no value, and any other value where it has one
abbrev pub ZeroIsUnset : {A : Type 0} → Option A → ℤ → Type 0
ZeroIsUnset none v = v ≡ pos 0
ZeroIsUnset (some _) v = v ≢ pos 0

-- The ranges of a policy that was decoded from `tmp`; -1 or 0 stands for "not set". A status, a number
-- of records or of attempts from 2 ^ 63 on has become negative.
pub record InRange (tmp : PolicyJson) (p : Policy) : Type 0 where
  pub port : (negsuc 0 ≤ℤ p.port) × (p.port ≤ℤ pos 65535)
  pub fake_ttl : (negsuc 0 ≤ℤ p.fake_ttl) × (p.fake_ttl ≤ℤ pos 255)
  pub max_ttl : ((pos 0 ≤ℤ p.max_ttl) × (p.max_ttl ≤ℤ pos 255)) × ZeroIsUnset tmp.max_ttl p.max_ttl
  pub num_segments : (negsuc 0 ≤ℤ p.num_segments) × ZeroIsUnset tmp.num_segments p.num_segments
  pub http_status : IsInt64 p.http_status
  pub num_records : IsInt64 p.num_records × ZeroIsUnset tmp.num_records p.num_records
  pub attempts : IsInt64 p.attempts × ZeroIsUnset tmp.attempts p.attempts
  pub connect_timeout : (p.connect_timeout ≡ negsuc 0) ⊎ (pos 1 ≤ℤ p.connect_timeout)
  pub single_timeout : (p.single_timeout ≡ negsuc 0) ⊎ (pos 1 ≤ℤ p.single_timeout)
  pub send_interval : negsuc 0 ≤ℤ p.send_interval
  pub fake_sleep : pos 0 ≤ℤ p.fake_sleep
  pub dns_cache_ttl : negsuc 0 ≤ℤ p.dns_cache_ttl
  pub ttl_cache_ttl : negsuc 0 ≤ℤ p.ttl_cache_ttl

above-Returns :
    (bad : PolicyError) (bound old : ℤ) (o : Option ℤ)
    → Returns (λ d. (d ≡ old) ⊎ (ltb_ℤ bound d ≡ true)) (above bad bound o)
unfolding above
above-Returns bad bound old none = tt
above-Returns bad bound old (some d) =
    Returns-if _ (leb_ℤ d bound) _ _ (λ _. tt) λ h. inr (ground arith)

module _ (parse_duration : Bytes → Option ℤ) where
  duration-Returns :
      (bad : PolicyError) (bound old : ℤ) (s : Option Bytes)
      → Returns
          (λ d. (d ≡ old) ⊎ (ltb_ℤ bound d ≡ true))
          (duration_field parse_duration bad bound old s)
  unfolding duration_field
  duration-Returns bad bound old none = inl refl
  duration-Returns bad bound old (some s) = above-Returns bad bound old (parse_duration s)

int_field_range :
    (o : Option ℕ) (m : ℕ)
    → m < 2 ^ 63
    → ((n : ℕ) → o ≡ some n → n ≤ m)
    → (negsuc 0 ≤ℤ int_field o) × (int_field o ≤ℤ pos m)
unfolding int_field to_int
int_field_range none m h k = omega arith
int_field_range (some n) m h k =
    let e : ltb n (2 ^ 63) ≡ true = ground (arith, k n refl) in
    rw e (omega arith, omega (arith, k n refl))

nonzero-Returns :
    (bad : PolicyError) (o : Option ℕ)
    → ((n : ℕ) → o ≡ some n → n < 2 ^ 8)
    → Returns (λ v. ((pos 0 ≤ℤ v) × (v ≤ℤ pos 255)) × ZeroIsUnset o v) (nonzero_field bad (pos 0) o)
unfolding nonzero_field to_int
nonzero-Returns bad none h = ((omega arith, omega arith), refl)
nonzero-Returns bad (some n) h =
    Returns-if _ (n == 0) _ _ (λ _. tt)
      λ z.
        let e : ltb n (2 ^ 63) ≡ true = ground (arith, h n refl) in
        rw e ((omega arith, omega (arith, h n refl)), λ q. ground arith)

nonzero_ℤ : (n : ℤ) → eqb_ℤ n (pos 0) ≡ false → n ≢ pos 0
nonzero_ℤ n z q = ground (arith, (eqb_ℤ_iff n (pos 0)).1 q)

segments-Returns :
    (o : Option ℤ) → Returns (λ v. (negsuc 0 ≤ℤ v) × ZeroIsUnset o v) (segments_field (pos 0) o)
unfolding segments_field
segments-Returns none = (omega arith, refl)
segments-Returns (some n) =
    Returns-if _ (eqb_ℤ n (pos 0)) _ _ (λ _. tt)
      λ z. Returns-if _ (ltb_ℤ n (negsuc 0)) _ _ (λ _. tt) λ h. (ground arith, λ q. nonzero_ℤ n z q)

string-Returns : (bad : PolicyError) (s : Option Bytes) → Returns (λ _. Unit) (string_field bad s)
unfolding string_field
string-Returns bad none = tt
string-Returns bad (some s) = Returns-if (λ _. Unit) (same s unset_string) _ _ (λ _. tt) λ _. tt

to_int-IsInt64 : (n : ℕ) → n < 2 ^ 64 → IsInt64 (to_int n)
unfolding to_int
to_int-IsInt64 n h = elim (Bool-cases (ltb n (2 ^ 63))) [
  | inl t ↦ rw t (omega arith, ground arith)
  | inr t ↦ rw t (ground arith, ground arith)
]

to_int-nonzero : (n : ℕ) → (n == 0) ≡ false → to_int n ≢ pos 0
unfolding to_int
to_int-nonzero n z q = elim (Bool-cases (ltb n (2 ^ 63))) [
  | inl t ↦ let e : pos n ≡ pos 0 = rw t at q in absurd (ground arith)
  | inr t ↦ let e : negsuc (2 ^ 64 - 1 - n) ≡ pos 0 = rw t at q in absurd (cc)
]

status-IsInt64 : (o : Option ℕ) → ((n : ℕ) → o ≡ some n → n < 2 ^ 64) → IsInt64 (int_field o)
unfolding int_field
status-IsInt64 none h = (omega arith, omega arith)
status-IsInt64 (some n) h = to_int-IsInt64 n (h n refl)

int-Returns :
    (bad : PolicyError) (o : Option ℕ)
    → ((n : ℕ) → o ≡ some n → n < 2 ^ 64)
    → Returns (λ v. IsInt64 v × ZeroIsUnset o v) (nonzero_field bad (pos 0) o)
unfolding nonzero_field
int-Returns bad none h = ((omega arith, omega arith), refl)
int-Returns bad (some n) h =
    Returns-if _ (n == 0) _ _ (λ _. tt) λ z. (to_int-IsInt64 n (h n refl), to_int-nonzero n z)

abbrev Above : ℤ → ℤ → ℤ → Type 0
Above bound old d = (d ≡ old) ⊎ (ltb_ℤ bound d ≡ true)

abbrev Nonzero : Option ℕ → ℤ → Type 0
Nonzero o v = IsInt64 v × ZeroIsUnset o v

abbrev Byte : ℤ → Type 0
Byte v = (pos 0 ≤ℤ v) × (v ≤ℤ pos 255)

unset-or-positive : (d : ℤ) → Above (pos 0) unset_int d → (d ≡ negsuc 0) ⊎ (pos 1 ≤ℤ d)
unset-or-positive d (inl e) = inl e
unset-or-positive d (inr h) = inr (ground arith)

at-least : (d : ℤ) → Above unset_int unset_int d → negsuc 0 ≤ℤ d
at-least d (inl e) = rw e (omega arith)
at-least d (inr h) = ground arith

not-negative : (d : ℤ) → Above (pos 0) (pos 0) d → pos 0 ≤ℤ d
not-negative d (inl e) = rw e (omega arith)
not-negative d (inr h) = ground arith

-- Into a fresh policy `UnmarshalJSON` returns an error or a policy in range. The port is -1 to 65535
-- and the fake TTL -1 to 255; the largest TTL is at most 255. It, the numbers of records, of segments
-- and of attempts are 0 exactly where the text has no value. The segments are -1 or more; the status,
-- the records and the attempts are values of `int`, which may be negative. A timeout is -1 or positive,
-- the sleep is not negative, and the interval and the lifetimes are -1 or more. The fields of the text
-- must have the types of the source.
pub decode_policy-InRange :
    (parse_duration : Bytes → Option ℤ) (tmp : PolicyJson)
    → IsTyped tmp
    → Returns (InRange tmp) (decode_policy parse_duration zero_policy tmp)
unfolding decode_policy
decode_policy-InRange pd tmp t =
    Returns-bind (λ _. Unit) (InRange tmp) (string_field bad_host tmp.host) _ (string-Returns _ _)
      λ host _.
        Returns-bind (λ _. Unit) (InRange tmp) (string_field bad_map_to tmp.map_to) _
          (string-Returns _ _)
          λ map_to _.
            Returns-bind (Nonzero tmp.num_records) (InRange tmp)
              (nonzero_field zero_num_records (pos 0) tmp.num_records) _
              (int-Returns _ _ t.num_records)
              λ records r.
                Returns-bind (λ v. (negsuc 0 ≤ℤ v) × ZeroIsUnset tmp.num_segments v) (InRange tmp)
                  (segments_field (pos 0) tmp.num_segments) _ (segments-Returns _)
                  λ segs s.
                    Returns-bind (Nonzero tmp.attempts) (InRange tmp)
                      (nonzero_field zero_attempts (pos 0) tmp.attempts) _
                      (int-Returns _ _ t.attempts)
                      λ attempts a.
                        Returns-bind (λ v. Byte v × ZeroIsUnset tmp.max_ttl v) (InRange tmp)
                          (nonzero_field zero_max_ttl (pos 0) tmp.max_ttl) _
                          (nonzero-Returns _ _ t.max_ttl)
                          λ max_ttl m.
                            Returns-bind (Above (pos 0) unset_int) (InRange tmp)
                              (duration_field pd bad_connect_timeout (pos 0) unset_int
                                tmp.connect_timeout)
                              _ (duration-Returns pd _ _ _ _)
                              λ connect c.
                                Returns-bind (Above unset_int unset_int) (InRange tmp)
                                  (duration_field pd bad_send_interval unset_int unset_int
                                    tmp.send_interval)
                                  _ (duration-Returns pd _ _ _ _)
                                  λ interval i.
                                    Returns-bind (Above (pos 0) (pos 0)) (InRange tmp)
                                      (duration_field pd bad_fake_sleep (pos 0) (pos 0)
                                        tmp.fake_sleep)
                                      _ (duration-Returns pd _ _ _ _)
                                      λ sleep f.
                                        Returns-bind (Above (pos 0) unset_int) (InRange tmp)
                                          (duration_field pd bad_single_timeout (pos 0) unset_int
                                            tmp.single_timeout)
                                          _ (duration-Returns pd _ _ _ _)
                                          λ single g.
                                            Returns-bind (Above unset_int unset_int) (InRange tmp)
                                              (duration_field pd bad_dns_cache_ttl unset_int
                                                unset_int tmp.dns_cache_ttl)
                                              _ (duration-Returns pd _ _ _ _)
                                              λ dns d.
                                                Returns-bind (Above unset_int unset_int)
                                                  (InRange tmp)
                                                  (duration_field pd bad_ttl_cache_ttl unset_int
                                                    unset_int tmp.ttl_cache_ttl)
                                                  _ (duration-Returns pd _ _ _ _)
                                                  λ ttl e. record {
                                                    port =
                                                        int_field_range tmp.port 65535 (omega arith)
                                                          (λ n h. omega (arith, t.port n h));
                                                    fake_ttl =
                                                        int_field_range tmp.fake_ttl 255
                                                          (omega arith)
                                                          (λ n h. omega (arith, t.fake_ttl n h));
                                                    max_ttl = m;
                                                    num_segments = s;
                                                    http_status =
                                                        status-IsInt64 tmp.http_status
                                                          t.http_status;
                                                    num_records = r;
                                                    attempts = a;
                                                    connect_timeout = unset-or-positive connect c;
                                                    single_timeout = unset-or-positive single g;
                                                    send_interval = at-least interval i;
                                                    fake_sleep = not-negative sleep f;
                                                    dns_cache_ttl = at-least dns d;
                                                    ttl_cache_ttl = at-least ttl e;
                                                  }
