-- ===== src/Examples/FakeIps.antt =====
-- A pool of four addresses with one domain in it.
use lumine_for_android.Prelude.{
  Bytes, codes, same, has_prefix, has_byte, lookup, ℕ, ◌+◌, ◌*◌, ◌^◌, ◌≡◌, refl, inr, true, Option,
  none, some, [], ◌∷◌, arith, pos,
}
use lumine_for_android.Policy.{zero_policy}
use lumine_for_android.Addrtrie.Domain.{
  add, new_node, or_new, find, find_loop, labels, split_labels, get_child, children, insert_pattern,
  insert_labels, put_child, exact,
}
use lumine_for_android.Route.{Matchers, should_use_fake_ip, classify_lower}
use lumine_for_android.Hijack.{Outer, Stores, Question, Message, ip4, build_reply}
use lumine_for_android.Stateful.{Leads}
use lumine_for_android.Hijack.Fake.{AreStores}
use lumine_for_android.Hijack.Hidden.{IsHidden, build_reply-IsHidden}
use lumine_for_android.FakeIp.{
  FakeStore, new_store, allocate, lookup_domain, cleanup_expired, at_least_default,
}
use lumine_for_android.FakeIp.Loop.{IsPlaced}
use lumine_for_android.FakeIp.Mirror.{IsMirror, Half}
use lumine_for_android.FakeIp.Mirror.Steps.{allocate-IsMirror, lookup_domain-IsMirror}
use lumine_for_android.FakeIp.Allocate.{Answers, allocate-Answers}

abbrev text : ℕ → Bytes
text a = a ∷ []

abbrev lower : Bytes → Bytes
lower s = s

abbrev store : FakeStore
store = new_store 100 4

store-IsMirror : IsMirror store
unfolding IsMirror Half lookup
store-IsMirror = (λ k e h. absurd (cc), λ k e h. absurd (cc))

store-IsPlaced : IsPlaced store
unfolding IsPlaced
store-IsPlaced = inr (refl, omega arith, refl)

-- the store with the domain
abbrev used : FakeStore
used = (allocate lower text (codes "a.b") (pos 60) 1000 store).1

used-IsMirror : IsMirror used
used-IsMirror = allocate-IsMirror lower text (codes "a.b") (pos 60) 1000 store store-IsMirror

used-IsPlaced : IsPlaced used
used-IsPlaced =
    (allocate-Answers lower text (codes "a.b") (pos 60) 1000 store store-IsPlaced store-IsMirror).1

allocate-IsMirror_example : IsMirror (allocate lower text (codes "c.d") (pos 60) 1010 used).1
allocate-IsMirror_example =
    allocate-IsMirror lower text (codes "c.d") (pos 60) 1010 used used-IsMirror

allocate-Answers_example :
    Answers text
      (at_least_default (pos 60))
      1010
      (codes "c.d")
      (cleanup_expired 1010 used)
      (allocate lower text (codes "c.d") (pos 60) 1010 used)
    × IsPlaced (allocate lower text (codes "c.d") (pos 60) 1010 used).1
allocate-Answers_example =
    allocate-Answers lower text (codes "c.d") (pos 60) 1010 used used-IsPlaced used-IsMirror

lookup_domain-IsMirror_example : IsMirror (lookup_domain (101 ∷ []) 1070 used).1
lookup_domain-IsMirror_example = lookup_domain-IsMirror (101 ∷ []) 1070 used used-IsMirror

-- an address that every text but the empty one is read as
abbrev read_ip : Bytes → Option ℕ
read_ip [] = none
read_ip (c ∷ cs) = some (0xffff * 2 ^ 32 + c)

-- one domain has a rule
abbrev one_rule : Matchers
one_rule = record {
  domains = some (or_new (add (codes "a.b") zero_policy new_node));
  gfw_domains = none;
  gfw_bypass = none;
}

abbrev outer : Outer
outer = record {
  net = record { trim_space = lower; parse_ip = read_ip; parse_cidr = λ s. none; text = text };
  to_lower = lower;
  text4 = text;
  text6 = text;
  now = 1000;
  matchers = one_rule;
  upstream = none;
}

abbrev stores : Stores
stores = record { fake4 = store; fake6 = store }

stores-AreStores : AreStores stores
unfolding AreStores
stores-AreStores = ((store-IsPlaced, store-IsMirror), (store-IsPlaced, store-IsMirror))

abbrev asked : Question
asked = record { name = codes "a.b."; qtype = 1; qclass = 1 }

-- what the upstream answered, with two addresses for one name
abbrev answered : Message
answered = record {
  questions = asked ∷ [];
  rcode = 0;
  answer =
      record { name = codes "a.b."; rrtype = 1; class = 1; ttl = 300; contents = ip4 7 }
      ∷ record { name = codes "a.b."; rrtype = 1; class = 1; ttl = 300; contents = ip4 8 }
      ∷ [];
  ns = [];
  extra = [];
}

ruled : should_use_fake_ip lower one_rule (codes "a.b") ≡ true
unfolding should_use_fake_ip classify_lower add find find_loop labels split_labels get_child
    children same has_byte has_prefix insert_pattern insert_labels put_child exact
ruled = refl

build_reply-IsHidden_example :
    Leads AreStores
      (λ m t. IsHidden outer (codes "a.b") 1 m.answer t)
      (build_reply outer (asked ∷ []) (codes "a.b") 1 answered stores)
build_reply-IsHidden_example =
    build_reply-IsHidden outer (codes "a.b") 1 refl asked answered stores refl refl ruled
      stores-AreStores
