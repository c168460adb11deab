-- ===== src/Policy/Merge.antt =====
-- Merging is associative, and an already merged policy may be merged again.
use mathlib.Core.List.{foldl}
use lumine_for_android.Prelude.{
  same, ◌≡◌, refl, sym, ap, ◌∙◌, Bool, true, none, List, [], ◌∷◌, ◌++◌, arith, pos,
}
use lumine_for_android.Policy.{
  Policy, SniffOverrideMode, Mode, DnsMode, TriBool, unset_int, unset_string, no_tri, no_sniff,
  no_dns_mode, no_mode, no_minor, no_int, no_string, zero_int, empty_string, pick, nothing_set,
  merge_step, or_default, or_prefer_ipv4, with_defaults, merge_policies,
}

pick_assoc {ℓ} :
    {A : Type ℓ} (u : A → Bool) (a b c : A) → pick u (pick u a b) c ≡ pick u a (pick u b c)
unfolding pick
pick_assoc u a b c = ground arith

pick_unset {ℓ} : {A : Type ℓ} (u : A → Bool) (a b : A) → u b ≡ true → pick u a b ≡ a
unfolding pick
pick_unset u a b h = ground arith

merge_step_assoc : (a b c : Policy) → merge_step (merge_step a b) c ≡ merge_step a (merge_step b c)
unfolding merge_step
merge_step_assoc a b c = λ i. record {
  reply_first = pick_assoc no_tri a.reply_first b.reply_first c.reply_first i;
  sniff_override_mode =
      pick_assoc no_sniff a.sniff_override_mode b.sniff_override_mode c.sniff_override_mode i;
  dns_mode = pick_assoc no_dns_mode a.dns_mode b.dns_mode c.dns_mode i;
  dns_cache_ttl = pick_assoc no_int a.dns_cache_ttl b.dns_cache_ttl c.dns_cache_ttl i;
  connect_timeout = pick_assoc no_int a.connect_timeout b.connect_timeout c.connect_timeout i;
  host = pick_assoc no_string a.host b.host c.host i;
  map_to = pick_assoc no_string a.map_to b.map_to c.map_to i;
  nat64_prefix = pick_assoc empty_string a.nat64_prefix b.nat64_prefix c.nat64_prefix i;
  port = pick_assoc no_int a.port b.port c.port i;
  http_status = pick_assoc no_int a.http_status b.http_status c.http_status i;
  tls13_only = pick_assoc no_tri a.tls13_only b.tls13_only c.tls13_only i;
  mode = pick_assoc no_mode a.mode b.mode c.mode i;
  num_records = pick_assoc zero_int a.num_records b.num_records c.num_records i;
  num_segments = pick_assoc zero_int a.num_segments b.num_segments c.num_segments i;
  wait_for_ack = pick_assoc no_tri a.wait_for_ack b.wait_for_ack c.wait_for_ack i;
  oob = pick_assoc no_tri a.oob b.oob c.oob i;
  oob_ex = pick_assoc no_tri a.oob_ex b.oob_ex c.oob_ex i;
  minor_ver = pick_assoc no_minor a.minor_ver b.minor_ver c.minor_ver i;
  send_interval = pick_assoc no_int a.send_interval b.send_interval c.send_interval i;
  fake_ttl = pick_assoc no_int a.fake_ttl b.fake_ttl c.fake_ttl i;
  fake_sleep = pick_assoc zero_int a.fake_sleep b.fake_sleep c.fake_sleep i;
  max_ttl = pick_assoc zero_int a.max_ttl b.max_ttl c.max_ttl i;
  attempts = pick_assoc zero_int a.attempts b.attempts c.attempts i;
  single_timeout = pick_assoc no_int a.single_timeout b.single_timeout c.single_timeout i;
  ttl_cache_ttl = pick_assoc no_int a.ttl_cache_ttl b.ttl_cache_ttl c.ttl_cache_ttl i;
}

merge_step_nothing : (a : Policy) → merge_step a nothing_set ≡ a
unfolding merge_step no_int zero_int no_string empty_string same
merge_step_nothing a = λ i. record {
  reply_first = pick_unset no_tri a.reply_first TriBool.unset refl i;
  sniff_override_mode = pick_unset no_sniff a.sniff_override_mode SniffOverrideMode.unset refl i;
  dns_mode = pick_unset no_dns_mode a.dns_mode DnsMode.unset refl i;
  dns_cache_ttl = pick_unset no_int a.dns_cache_ttl unset_int refl i;
  connect_timeout = pick_unset no_int a.connect_timeout unset_int refl i;
  host = pick_unset no_string a.host unset_string refl i;
  map_to = pick_unset no_string a.map_to unset_string refl i;
  nat64_prefix = pick_unset empty_string a.nat64_prefix [] refl i;
  port = pick_unset no_int a.port unset_int refl i;
  http_status = pick_unset no_int a.http_status unset_int refl i;
  tls13_only = pick_unset no_tri a.tls13_only TriBool.unset refl i;
  mode = pick_unset no_mode a.mode Mode.unset refl i;
  num_records = pick_unset zero_int a.num_records (pos 0) refl i;
  num_segments = pick_unset zero_int a.num_segments (pos 0) refl i;
  wait_for_ack = pick_unset no_tri a.wait_for_ack TriBool.unset refl i;
  oob = pick_unset no_tri a.oob TriBool.unset refl i;
  oob_ex = pick_unset no_tri a.oob_ex TriBool.unset refl i;
  minor_ver = pick_unset no_minor a.minor_ver none refl i;
  send_interval = pick_unset no_int a.send_interval unset_int refl i;
  fake_ttl = pick_unset no_int a.fake_ttl unset_int refl i;
  fake_sleep = pick_unset zero_int a.fake_sleep (pos 0) refl i;
  max_ttl = pick_unset zero_int a.max_ttl (pos 0) refl i;
  attempts = pick_unset zero_int a.attempts (pos 0) refl i;
  single_timeout = pick_unset no_int a.single_timeout unset_int refl i;
  ttl_cache_ttl = pick_unset no_int a.ttl_cache_ttl unset_int refl i;
}

foldl-merge_step :
    (a : Policy) (ps : List Policy)
    → foldl merge_step a ps ≡ merge_step a (foldl merge_step nothing_set ps)
foldl-merge_step a [] = sym (merge_step_nothing a)
foldl-merge_step a (p ∷ ps) =
    foldl-merge_step (merge_step a p) ps
    ∙ merge_step_assoc a p (foldl merge_step nothing_set ps)
    ∙ ap (λ (t : Policy). merge_step t (merge_step p (foldl merge_step nothing_set ps)))
        (sym (merge_step_nothing a))
    ∙ merge_step_assoc a nothing_set (merge_step p (foldl merge_step nothing_set ps))
    ∙ ap (merge_step a) (
        sym (merge_step_assoc nothing_set p (foldl merge_step nothing_set ps))
        ∙ sym (foldl-merge_step (merge_step nothing_set p) ps))

mode_late :
    (a b : Mode) → or_default (pick no_mode a (or_default b)) ≡ or_default (pick no_mode a b)
unfolding pick
mode_late a b = ground arith

dns_mode_late :
    (a b : DnsMode)
    → or_prefer_ipv4 (pick no_dns_mode a (or_prefer_ipv4 b)) ≡ or_prefer_ipv4 (pick no_dns_mode a b)
unfolding pick
dns_mode_late a b = ground arith

with_defaults_late :
    (a b : Policy) → with_defaults (merge_step a (with_defaults b)) ≡ with_defaults (merge_step a b)
unfolding with_defaults merge_step
with_defaults_late a b = λ i. record (merge_step a b) {
  mode = mode_late a.mode b.mode i;
  dns_mode = dns_mode_late a.dns_mode b.dns_mode i;
}

-- Merging a policy into one that is itself a merge, as the sniffed name of a tunnel does, gives what
-- a merge of the whole list gives: no field is lost, and the defaults of the first merge hide
-- nothing.
pub merge-merge :
    (p : Policy) (ps : List Policy)
    → merge_policies (p ∷ merge_policies ps ∷ []) ≡ merge_policies (p ∷ ps)
unfolding merge_policies
merge-merge p ps =
    with_defaults_late (merge_step nothing_set p) (foldl merge_step nothing_set ps)
    ∙ ap with_defaults (sym (foldl-merge_step (merge_step nothing_set p) ps))

-- The order of grouping does not matter either: a merge of two lists is the merge of the merges.
pub merge-append :
    (ps qs : List Policy)
    → merge_policies (ps ++ qs)
      ≡ with_defaults (merge_step (foldl merge_step nothing_set ps) (merge_policies qs))
unfolding merge_policies
merge-append ps qs =
    ap with_defaults
      (foldl-append ps qs nothing_set ∙ foldl-merge_step (foldl merge_step nothing_set ps) qs)
    ∙ sym (with_defaults_late (foldl merge_step nothing_set ps) (foldl merge_step nothing_set qs))
  where
    foldl-append :
        (xs ys : List Policy) (a : Policy)
        → foldl merge_step a (xs ++ ys) ≡ foldl merge_step (foldl merge_step a xs) ys
    foldl-append [] ys a = refl
    foldl-append (x ∷ xs) ys a = foldl-append xs ys (merge_step a x)
