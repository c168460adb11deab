-- ===== src/Examples/Policies.antt =====
-- A domain's policy merged into a default policy, and the fallback of a domain without a rule.
use lumine_for_android.Prelude.{
  Bytes, codes, ◌≡◌, refl, inl, Option, none, some, [], ◌∷◌, arith, Returns, ℤ, pos,
}
use lumine_for_android.Policy.{
  Policy, Mode, zero_policy, merge_policies, nothing_set, SniffOverrideMode, DnsMode, TriBool,
}
use lumine_for_android.Policy.Merge.{merge-merge}
use lumine_for_android.Policy.Fields.{IsMerge, merge_policies-IsMerge}
use lumine_for_android.Policy.Decode.{PolicyJson, decode_policy}
use lumine_for_android.Policy.Ranges.{IsTyped, InRange, decode_policy-InRange}
use lumine_for_android.Route.{
  Matchers, plain, classify_domain_route, classify_lower, is_gfw_domain, fallback_policy,
  default_dial_timeout,
}
use lumine_for_android.Route.Fallback.{Zeroed, fallback_policy-hides_default}

abbrev domain_policy : Policy
domain_policy = record nothing_set { mode = Mode.ttl_d; max_ttl = pos 20 }

abbrev default_policy : Policy
default_policy = record nothing_set { mode = Mode.tls_rf; connect_timeout = pos 5000000000 }

merge-merge_example :
    merge_policies (domain_policy ∷ merge_policies (default_policy ∷ []) ∷ [])
    ≡ merge_policies (domain_policy ∷ default_policy ∷ [])
merge-merge_example = merge-merge domain_policy (default_policy ∷ [])

merge_policies-IsMerge_example :
    IsMerge
      (domain_policy ∷ default_policy ∷ [])
      (merge_policies (domain_policy ∷ default_policy ∷ []))
merge_policies-IsMerge_example = merge_policies-IsMerge (domain_policy ∷ default_policy ∷ [])

-- a policy of a configuration that sets the port and one time
abbrev json : PolicyJson
json = record {
  sniff_override_mode = SniffOverrideMode.unset;
  reply_first = TriBool.unset;
  connect_timeout = some (codes "5s");
  host = none;
  map_to = none;
  nat64_prefix = none;
  port = some 443;
  dns_mode = DnsMode.unset;
  dns_cache_ttl = none;
  http_status = none;
  tls13_only = TriBool.unset;
  mode = Mode.unset;
  num_records = none;
  num_segments = none;
  wait_for_ack = TriBool.unset;
  oob = TriBool.unset;
  oob_ex = TriBool.unset;
  minor_ver = none;
  send_interval = none;
  fake_ttl = none;
  fake_sleep = none;
  max_ttl = none;
  attempts = none;
  single_timeout = none;
  ttl_cache_ttl = none;
}

json-IsTyped : IsTyped json
json-IsTyped = record {
  port = λ n h. ground arith;
  fake_ttl = λ n h. absurd (cc);
  max_ttl = λ n h. absurd (cc);
  http_status = λ n h. absurd (cc);
  num_records = λ n h. absurd (cc);
  attempts = λ n h. absurd (cc);
}

abbrev five_seconds : Bytes → Option ℤ
five_seconds s = some (pos 5000000000)

decode_policy-InRange_example : Returns (InRange json) (decode_policy five_seconds zero_policy json)
decode_policy-InRange_example = decode_policy-InRange five_seconds json json-IsTyped

-- no matcher is set
abbrev no_matchers : Matchers
no_matchers = record { domains = none; gfw_domains = none; gfw_bypass = none }

abbrev keep_case : Bytes → Bytes
keep_case s = s

unlisted : classify_domain_route keep_case no_matchers (codes "a.b") ≡ plain
unfolding classify_lower is_gfw_domain
unlisted = refl

fallback_policy-hides_default_example :
    Zeroed (fallback_policy keep_case no_matchers default_policy (codes "a.b") domain_policy)
    × (default_dial_timeout
          (fallback_policy keep_case no_matchers default_policy (codes "a.b") domain_policy)
        ≡ pos 10000000000)
fallback_policy-hides_default_example =
    fallback_policy-hides_default keep_case no_matchers default_policy domain_policy (codes "a.b")
      (inl unlisted)
