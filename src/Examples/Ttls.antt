-- ===== src/Examples/Ttls.antt =====
-- A peer at the distance 5, probed with TTLs up to 20, and the rules "10-2;3=4;".
use lumine_for_android.Prelude.{
  Bytes, codes, ℕ, ◌≡◌, refl, inl, inr, Option, none, some, List, [], ◌∷◌, map, arith, leb,
  if◌then◌else◌, Bool-cases, All, ok, err, ℤ, pos,
}
use lumine_for_android.Policy.{Policy, zero_policy}
use lumine_for_android.Ttl.{
  Dialed, connected, timed_out, try_dial, probe_ttl, calc_ttl, parse_ttl_rules, sort_rules,
  apply_rules, not_reachable,
}
use lumine_for_android.Ttl.Search.{IsAt, nearest, probe_ttl-nearest}
use lumine_for_android.Ttl.Rules.{Applies, apply_rules-greatest}
use lumine_for_android.Ttl.Rules.Grammar.{
  RuleText, IsRule, IsDigits, write_rules, meaning, parse_ttl_rules-write,
}
use lumine_for_android.Ttl.Fake.{TtlCache, get_fake_ttl}
use lumine_for_android.Ttl.Fake.Cached.{
  Probes, Keeps, get_fake_ttl-cached, get_fake_ttl-unreachable,
}

abbrev dial_from : ℕ → ℕ → ℕ → Dialed
dial_from m ttl k = if leb m ttl then connected else timed_out

dial-IsAt : (m : ℕ) → IsAt (dial_from m) 1 20 m
unfolding IsAt try_dial
dial-IsAt m ttl h k = elim (Bool-cases (leb m ttl)) [
  | inl t ↦ rw (t, try_dial)
  | inr t ↦ rw (t, try_dial)
]

probe_ttl-nearest_example : probe_ttl (dial_from 5) (pos 20) (pos 1) ≡ ok (nearest 20 5)
probe_ttl-nearest_example = probe_ttl-nearest (dial_from 5) 1 20 5 (omega arith) (dial-IsAt 5)

abbrev texts : List RuleText
texts =
    record { left = codes "10"; operator = 45; right = codes "2" }
    ∷ record { left = codes "3"; operator = 61; right = codes "4" }
    ∷ []

texts-IsRule : All IsRule texts
unfolding IsRule IsDigits
texts-IsRule = (
  ((omega arith, (refl, (refl, tt))), inl refl, (omega arith, (refl, tt))),
  (((omega arith, (refl, tt)), inr refl, (omega arith, (refl, tt))), tt),
)

parse_ttl_rules-write_example :
    parse_ttl_rules (write_rules texts) ≡ ok (sort_rules (map meaning texts))
parse_ttl_rules-write_example = parse_ttl_rules-write texts texts-IsRule

apply_rules-greatest_example :
    Applies (pos 7) (map meaning texts) (apply_rules (sort_rules (map meaning texts)) (pos 7))
apply_rules-greatest_example = apply_rules-greatest (pos 7) (map meaning texts)

-- a cache of one entry, without its key
abbrev cache : TtlCache (Option ℤ)
cache = record { get = λ c ip. c; add = λ c ip ttl life. some ttl }

abbrev policy : Policy
policy = record zero_policy { max_ttl = pos 20; attempts = pos 1; ttl_cache_ttl = pos 1000 }

policy-Probes : Probes policy
unfolding Probes
policy-Probes = inl refl

policy-Keeps : Keeps policy
unfolding Keeps
policy-Keeps = (refl, refl)

abbrev host_of : Bytes → Option Bytes
host_of addr = some addr

get_fake_ttl-cached_example :
    (get_fake_ttl cache host_of (dial_from 5) none policy (codes "1.1.1.1:443") (some none)
      ≡ (calc_ttl none (pos 5), some (some (pos 5))))
    × ((later : ℕ → ℕ → Dialed)
        → get_fake_ttl cache host_of later none policy (codes "1.1.1.1:443") (some (some (pos 5)))
          ≡ (calc_ttl none (pos 5), some (some (pos 5))))
get_fake_ttl-cached_example =
    get_fake_ttl-cached cache host_of none policy (codes "1.1.1.1:443") (codes "1.1.1.1:443") none
      20 1 5 (dial_from 5) policy-Probes policy-Keeps refl refl refl (omega arith) (omega arith)
      (dial-IsAt 5) refl refl

get_fake_ttl-unreachable_example :
    get_fake_ttl cache host_of (dial_from 25) none policy (codes "1.1.1.1:443") (some none)
    ≡ (err not_reachable, some none)
get_fake_ttl-unreachable_example =
    get_fake_ttl-unreachable cache host_of none policy (codes "1.1.1.1:443") (codes "1.1.1.1:443")
      none 20 1 25 (dial_from 25) policy-Probes refl refl refl (omega arith) (dial-IsAt 25) refl
