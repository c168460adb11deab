-- ===== src/Policy/Fields.antt =====
-- What a merged policy holds, field by field.
use mathlib.Core.List.{foldl}
use lumine_for_android.Prelude.{
  same, ◌≡◌, refl, ap, ◌∙◌, inl, inr, Bool, true, false, none, List, [], ◌∷◌, map, if◌then◌else◌,
  Bool-cases, pos,
}
use lumine_for_android.Policy.{
  Policy, SniffOverrideMode, Mode, DnsMode, TriBool, unset_int, unset_string, no_tri, no_sniff,
  no_dns_mode, no_mode, no_minor, no_int, no_string, zero_int, empty_string, pick, nothing_set,
  merge_step, or_default, or_prefer_ipv4, with_defaults, merge_policies,
}

-- The first value that is set, or `d`.
pub first_set {ℓ} : {A : Type ℓ} → (A → Bool) → A → List A → A
first_set skip d [] = d
first_set skip d (x ∷ xs) = if skip x then first_set skip d xs else x

module _ {A : Type 0} (f : Policy → A) (u : A → Bool)
    (step : (m p : Policy) → f (merge_step m p) ≡ pick u (f m) (f p)) where
  foldl-keeps : (m : Policy) (ps : List Policy) → u (f m) ≡ false → f (foldl merge_step m ps) ≡ f m
  foldl-keeps m [] h = refl
  foldl-keeps m (p ∷ ps) h =
      let e : f (merge_step m p) ≡ f m = step m p ∙ unfold pick in (rw h) in
      foldl-keeps (merge_step m p) ps (rw e h) ∙ e

  foldl-first_set :
      (m : Policy) (ps : List Policy)
      → u (f m) ≡ true
      → f (foldl merge_step m ps) ≡ first_set u (f m) (map f ps)
  unfolding first_set
  foldl-first_set m [] h = refl
  foldl-first_set m (p ∷ ps) h = elim (Bool-cases (u (f p))) [
    | inl e ↦
        let k : f (merge_step m p) ≡ f m = step m p ∙ unfold pick in (rw (h, e)) in
        rw e (
          foldl-first_set (merge_step m p) ps (rw k h) ∙ ap (λ (d : A). first_set u d (map f ps)) k)
    | inr e ↦
        let k : f (merge_step m p) ≡ f p = step m p ∙ unfold pick in (rw (h, e)) in
        rw e (foldl-keeps (merge_step m p) ps (rw k e) ∙ k)
  ]

-- Each field of `m` is the first of the fields of `ps` that is set. A mode that none sets is
-- `tls_rf`, and a DNS mode that none sets is `prefer_ipv4`.
pub record IsMerge (ps : List Policy) (m : Policy) : Type 0 where
  pub reply_first : m.reply_first ≡ first_set no_tri TriBool.unset (map (λ p. p.reply_first) ps)
  pub sniff_override_mode :
      m.sniff_override_mode
      ≡ first_set no_sniff SniffOverrideMode.unset (map (λ p. p.sniff_override_mode) ps)
  pub dns_mode :
      m.dns_mode ≡ or_prefer_ipv4 (first_set no_dns_mode DnsMode.unset (map (λ p. p.dns_mode) ps))
  pub dns_cache_ttl : m.dns_cache_ttl ≡ first_set no_int unset_int (map (λ p. p.dns_cache_ttl) ps)
  pub connect_timeout :
      m.connect_timeout ≡ first_set no_int unset_int (map (λ p. p.connect_timeout) ps)
  pub host : m.host ≡ first_set no_string unset_string (map (λ p. p.host) ps)
  pub map_to : m.map_to ≡ first_set no_string unset_string (map (λ p. p.map_to) ps)
  pub nat64_prefix : m.nat64_prefix ≡ first_set empty_string [] (map (λ p. p.nat64_prefix) ps)
  pub port : m.port ≡ first_set no_int unset_int (map (λ p. p.port) ps)
  pub http_status : m.http_status ≡ first_set no_int unset_int (map (λ p. p.http_status) ps)
  pub tls13_only : m.tls13_only ≡ first_set no_tri TriBool.unset (map (λ p. p.tls13_only) ps)
  pub mode : m.mode ≡ or_default (first_set no_mode Mode.unset (map (λ p. p.mode) ps))
  pub num_records : m.num_records ≡ first_set zero_int (pos 0) (map (λ p. p.num_records) ps)
  pub num_segments : m.num_segments ≡ first_set zero_int (pos 0) (map (λ p. p.num_segments) ps)
  pub wait_for_ack : m.wait_for_ack ≡ first_set no_tri TriBool.unset (map (λ p. p.wait_for_ack) ps)
  pub oob : m.oob ≡ first_set no_tri TriBool.unset (map (λ p. p.oob) ps)
  pub oob_ex : m.oob_ex ≡ first_set no_tri TriBool.unset (map (λ p. p.oob_ex) ps)
  pub minor_ver : m.minor_ver ≡ first_set no_minor none (map (λ p. p.minor_ver) ps)
  pub send_interval : m.send_interval ≡ first_set no_int unset_int (map (λ p. p.send_interval) ps)
  pub fake_ttl : m.fake_ttl ≡ first_set no_int unset_int (map (λ p. p.fake_ttl) ps)
  pub fake_sleep : m.fake_sleep ≡ first_set zero_int (pos 0) (map (λ p. p.fake_sleep) ps)
  pub max_ttl : m.max_ttl ≡ first_set zero_int (pos 0) (map (λ p. p.max_ttl) ps)
  pub attempts : m.attempts ≡ first_set zero_int (pos 0) (map (λ p. p.attempts) ps)
  pub single_timeout :
      m.single_timeout ≡ first_set no_int unset_int (map (λ p. p.single_timeout) ps)
  pub ttl_cache_ttl : m.ttl_cache_ttl ≡ first_set no_int unset_int (map (λ p. p.ttl_cache_ttl) ps)

-- `mergePolicies` takes each of the 25 fields from the first policy of the list that sets it.
pub merge_policies-IsMerge : (ps : List Policy) → IsMerge ps (merge_policies ps)
unfolding merge_policies with_defaults merge_step no_int zero_int no_string empty_string same
merge_policies-IsMerge ps = record {
  reply_first =
      foldl-first_set (λ (p : Policy). p.reply_first) no_tri (λ m p. refl) nothing_set ps refl;
  sniff_override_mode =
      foldl-first_set (λ (p : Policy). p.sniff_override_mode) no_sniff (λ m p. refl) nothing_set ps
        refl;
  dns_mode =
      ap or_prefer_ipv4 (
        foldl-first_set (λ (p : Policy). p.dns_mode) no_dns_mode (λ m p. refl) nothing_set ps refl);
  dns_cache_ttl =
      foldl-first_set (λ (p : Policy). p.dns_cache_ttl) no_int (λ m p. refl) nothing_set ps refl;
  connect_timeout =
      foldl-first_set (λ (p : Policy). p.connect_timeout) no_int (λ m p. refl) nothing_set ps refl;
  host = foldl-first_set (λ (p : Policy). p.host) no_string (λ m p. refl) nothing_set ps refl;
  map_to = foldl-first_set (λ (p : Policy). p.map_to) no_string (λ m p. refl) nothing_set ps refl;
  nat64_prefix =
      foldl-first_set (λ (p : Policy). p.nat64_prefix) empty_string (λ m p. refl) nothing_set ps
        refl;
  port = foldl-first_set (λ (p : Policy). p.port) no_int (λ m p. refl) nothing_set ps refl;
  http_status =
      foldl-first_set (λ (p : Policy). p.http_status) no_int (λ m p. refl) nothing_set ps refl;
  tls13_only =
      foldl-first_set (λ (p : Policy). p.tls13_only) no_tri (λ m p. refl) nothing_set ps refl;
  mode =
      ap or_default
        (foldl-first_set (λ (p : Policy). p.mode) no_mode (λ m p. refl) nothing_set ps refl);
  num_records =
      foldl-first_set (λ (p : Policy). p.num_records) zero_int (λ m p. refl) nothing_set ps refl;
  num_segments =
      foldl-first_set (λ (p : Policy). p.num_segments) zero_int (λ m p. refl) nothing_set ps refl;
  wait_for_ack =
      foldl-first_set (λ (p : Policy). p.wait_for_ack) no_tri (λ m p. refl) nothing_set ps refl;
  oob = foldl-first_set (λ (p : Policy). p.oob) no_tri (λ m p. refl) nothing_set ps refl;
  oob_ex = foldl-first_set (λ (p : Policy). p.oob_ex) no_tri (λ m p. refl) nothing_set ps refl;
  minor_ver =
      foldl-first_set (λ (p : Policy). p.minor_ver) no_minor (λ m p. refl) nothing_set ps refl;
  send_interval =
      foldl-first_set (λ (p : Policy). p.send_interval) no_int (λ m p. refl) nothing_set ps refl;
  fake_ttl = foldl-first_set (λ (p : Policy). p.fake_ttl) no_int (λ m p. refl) nothing_set ps refl;
  fake_sleep =
      foldl-first_set (λ (p : Policy). p.fake_sleep) zero_int (λ m p. refl) nothing_set ps refl;
  max_ttl = foldl-first_set (λ (p : Policy). p.max_ttl) zero_int (λ m p. refl) nothing_set ps refl;
  attempts =
      foldl-first_set (λ (p : Policy). p.attempts) zero_int (λ m p. refl) nothing_set ps refl;
  single_timeout =
      foldl-first_set (λ (p : Policy). p.single_timeout) no_int (λ m p. refl) nothing_set ps refl;
  ttl_cache_ttl =
      foldl-first_set (λ (p : Policy). p.ttl_cache_ttl) no_int (λ m p. refl) nothing_set ps refl;
}
