-- ===== src/Bootstrap/Preferred.antt =====
-- Which address of a resolution `resolveBootstrapHost` takes, and what it remembers.
use lumine_for_android.Prelude.{
  Bytes, ◌≡◌, refl, false, ◌||◌, Option, none, some, List, [], ◌∷◌, Outcome, ok, err,
}
use lumine_for_android.Dns.{NameCache}
use lumine_for_android.Bootstrap.{
  System, is_empty, pick_loop, pick_bootstrap_ip, BootstrapError, v4_or, remembered,
  add_with_lifetime, bootstrapped, resolve_bootstrap_host, no_address_found,
}

module _ {N : Type 0} (sys : System N) where
  abbrev pub or_else : Option N → Option N → Option N
  or_else (some a) b = some a
  or_else none b = b

  -- the first address of the list that has a form of four bytes, in that form
  abbrev pub first_v4 : List (Option N) → Option N
  first_v4 [] = none
  first_v4 (none ∷ addrs) = first_v4 addrs
  first_v4 (some ip ∷ addrs) = or_else (sys.to4 ip) (first_v4 addrs)

  -- the first address that is not nil
  abbrev pub first_ip : List (Option N) → Option N
  first_ip [] = none
  first_ip (none ∷ addrs) = first_ip addrs
  first_ip (some ip ∷ addrs) = some ip

  -- An IPv4 address comes before any other.
  abbrev pub preferred : List (Option N) → Option N
  preferred addrs = or_else (first_v4 addrs) (first_ip addrs)

  abbrev pub text_or : Bytes → Option N → Bytes
  text_or s none = s
  text_or s (some ip) = sys.text ip

  v4_or-text_or : (s : Bytes) (o r : Option N) → v4_or sys o (text_or s r) ≡ text_or s (or_else o r)
  v4_or-text_or s none r = refl
  v4_or-text_or s (some v4) r = refl

  text_or-text :
      (o r : Option N) (ip : N)
      → text_or (sys.text ip) (or_else o r) ≡ text_or [] (or_else (or_else o r) (some ip))
  text_or-text (some v4) r ip = refl
  text_or-text none none ip = refl
  text_or-text none (some v4) ip = refl

  module _ (texts : (ip : N) → is_empty (sys.text ip) ≡ false) where
    pick_loop-found :
        (addrs : List (Option N)) (first : Bytes)
        → is_empty first ≡ false
        → pick_loop sys addrs first ≡ text_or first (first_v4 addrs)
    unfolding pick_loop
    pick_loop-found [] first h = refl
    pick_loop-found (none ∷ addrs) first h = pick_loop-found addrs first h
    pick_loop-found (some ip ∷ addrs) first h = rw (h, pick_loop-found addrs first h, v4_or-text_or)

    pick_bootstrap_ip-preferred :
        (addrs : List (Option N)) → pick_loop sys addrs [] ≡ text_or [] (preferred addrs)
    unfolding pick_loop
    pick_bootstrap_ip-preferred [] = refl
    pick_bootstrap_ip-preferred (none ∷ addrs) = pick_bootstrap_ip-preferred addrs
    pick_bootstrap_ip-preferred (some ip ∷ addrs) =
        rw (pick_loop-found addrs (sys.text ip) (texts ip), v4_or-text_or, text_or-text)

    module _ {C : Type 0} (lru : NameCache C) where
      -- an error where no address is preferred, and otherwise its text, which is remembered
      abbrev pub taken : Bytes → Option N → Option C → Outcome BootstrapError Bytes × Option C
      taken host none cache = (err no_address_found, cache)
      taken host (some ip) cache =
          (ok (sys.text ip), add_with_lifetime sys lru cache host (sys.text ip))

      bootstrapped-ok :
          (host ip : Bytes) (cache : Option C)
          → is_empty ip ≡ false
          → bootstrapped sys lru host ip cache ≡ (ok ip, add_with_lifetime sys lru cache host ip)
      bootstrapped-ok host [] cache h = cc
      bootstrapped-ok host (c ∷ ip) cache h = refl

      bootstrapped-taken :
          (host : Bytes) (o : Option N) (cache : Option C)
          → bootstrapped sys lru host (text_or [] o) cache ≡ taken host o cache
      bootstrapped-taken host none cache = refl
      bootstrapped-taken host (some ip) cache = bootstrapped-ok host (sys.text ip) cache (texts ip)

      -- For a host that is neither empty nor an address, that the cache does not have and for which
      -- the system finds a list of addresses: the result is the text of the first address of the
      -- list that has an IPv4 form, in that form, else of the first that is not nil, and the cache
      -- remembers it; with no such address there is an error and the cache stays. The texts of
      -- addresses are not empty.
      pub resolve_bootstrap_host-prefers :
          (host : Bytes) (addrs : List (Option N)) (cache : Option C)
          → (is_empty host || sys.reads_as_ip host) ≡ false
          → remembered sys lru cache host ≡ none
          → sys.lookup_ip host ≡ some addrs
          → resolve_bootstrap_host sys lru host cache ≡ taken host (preferred addrs) cache
      unfolding resolve_bootstrap_host pick_bootstrap_ip
      resolve_bootstrap_host-prefers host addrs cache h k l =
          rw (h, k, l, pick_bootstrap_ip-preferred addrs, bootstrapped-taken)
