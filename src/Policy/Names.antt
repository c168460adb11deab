-- ===== src/Policy/Names.antt =====
-- The names of the modes in a configuration, read and printed.
use lumine_for_android.Prelude.{
  Bytes, codes, same→eq, same, ◌≡◌, refl, ap, ◌∙◌, subst, ◌≢◌, ◌↔◌, inl, inr, if◌then◌else◌,
  Bool-cases, Outcome, ok,
}
use lumine_for_android.Policy.{Mode, DnsMode}
use lumine_for_android.Policy.Decode.{
  PolicyError, parse_mode, mode_name, parse_dns_mode, dns_mode_name,
}

module _ {A : Type 0} (C : A → Type 0) where
  ok_case : (x m : A) → ◌≡◌ {A = Outcome PolicyError A} (ok x) (ok m) → C x → C m
  ok_case x m e c = let i : x ≡ m = cc in subst C i c

  -- one case of a `switch` on a text
  tag_case :
      (s tag : Bytes) (x m : A) (rest : Outcome PolicyError A)
      → (s ≡ tag → C x)
      → (rest ≡ ok m → C m)
      → (if same s tag then ok x else rest) ≡ ok m
      → C m
  tag_case s tag x m rest f g e = elim (Bool-cases (same s tag)) [
    | inl t ↦ ok_case x m (rw t at e) (f (same→eq s tag t))
    | inr t ↦ g (rw t at e)
  ]

-- the name of a mode that is set
IsNamed : Bytes → Mode → Type 0
IsNamed s m = (s ≡ mode_name m) × (m ≢ Mode.unset)

IsDnsNamed : Bytes → DnsMode → Type 0
IsDnsNamed s m = (s ≡ dns_mode_name m) × (m ≢ DnsMode.unset)

mode-parse : (s : Bytes) (m : Mode) → parse_mode s ≡ ok m → IsNamed s m
unfolding parse_mode IsNamed mode_name
mode-parse s m =
    tag_case (IsNamed s) s (codes "raw") Mode.raw m _ (λ e. (e, λ u. cc))
      (tag_case (IsNamed s) s (codes "direct") Mode.direct m _ (λ e. (e, λ u. cc))
        (tag_case (IsNamed s) s (codes "tls-rf") Mode.tls_rf m _ (λ e. (e, λ u. cc))
          (tag_case (IsNamed s) s (codes "ttl-d") Mode.ttl_d m _ (λ e. (e, λ u. cc))
            (tag_case (IsNamed s) s (codes "block") Mode.block m _ (λ e. (e, λ u. cc))
              (tag_case (IsNamed s) s (codes "tls-alert") Mode.tls_alert m _ (λ e. (e, λ u. cc))
                (λ e. absurd (cc)))))))

parse-mode : (m : Mode) → m ≢ Mode.unset → parse_mode (mode_name m) ≡ ok m
unfolding parse_mode mode_name same
parse-mode Mode.unset h = absurd (h refl)
parse-mode Mode.raw h = refl
parse-mode Mode.direct h = refl
parse-mode Mode.tls_rf h = refl
parse-mode Mode.ttl_d h = refl
parse-mode Mode.block h = refl
parse-mode Mode.tls_alert h = refl

-- A text is read as a mode exactly when it is the name that the mode is printed with and the mode is
-- set; "unknown", the name of the unset mode, is read as none.
pub parse_mode_iff :
    (s : Bytes) (m : Mode) → (parse_mode s ≡ ok m) ↔ ((s ≡ mode_name m) × (m ≢ Mode.unset))
unfolding IsNamed
parse_mode_iff s m = (mode-parse s m, λ h. ap parse_mode h.0 ∙ parse-mode m h.1)

dns_mode-parse : (s : Bytes) (m : DnsMode) → parse_dns_mode s ≡ ok m → IsDnsNamed s m
unfolding parse_dns_mode IsDnsNamed dns_mode_name
dns_mode-parse s m =
    tag_case (IsDnsNamed s) s (codes "prefer_ipv4") DnsMode.prefer_ipv4 m _ (λ e. (e, λ u. cc))
      (tag_case (IsDnsNamed s) s (codes "prefer_ipv6") DnsMode.prefer_ipv6 m _ (λ e. (e, λ u. cc))
        (tag_case (IsDnsNamed s) s (codes "ipv4_only") DnsMode.ipv4_only m _ (λ e. (e, λ u. cc))
          (tag_case (IsDnsNamed s) s (codes "ipv6_only") DnsMode.ipv6_only m _ (λ e. (e, λ u. cc))
            (λ e. absurd (cc)))))

parse-dns_mode : (m : DnsMode) → m ≢ DnsMode.unset → parse_dns_mode (dns_mode_name m) ≡ ok m
unfolding parse_dns_mode dns_mode_name same
parse-dns_mode DnsMode.unset h = absurd (h refl)
parse-dns_mode DnsMode.prefer_ipv4 h = refl
parse-dns_mode DnsMode.prefer_ipv6 h = refl
parse-dns_mode DnsMode.ipv4_only h = refl
parse-dns_mode DnsMode.ipv6_only h = refl

-- A text is read as a DNS mode exactly when it is the name that the mode is printed with and the mode
-- is set.
pub parse_dns_mode_iff :
    (s : Bytes) (m : DnsMode)
    → (parse_dns_mode s ≡ ok m) ↔ ((s ≡ dns_mode_name m) × (m ≢ DnsMode.unset))
unfolding IsDnsNamed
parse_dns_mode_iff s m = (dns_mode-parse s m, λ h. ap parse_dns_mode h.0 ∙ parse-dns_mode m h.1)
