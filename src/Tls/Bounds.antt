-- ===== src/Tls/Bounds.antt =====
-- The parser of the ClientHello stays in range.
use lumine_for_android.Prelude.{
  Bytes, slice, ℕ, zero, suc, ◌+◌, ◌-◌, ◌*◌, ◌≤◌, ◌<◌, ◌≡◌, refl, ap, ◌∙◌, none, some, List, [],
  ◌∷◌, arith, leb, ◌==◌, ==_iff, length, get_elem?, take, drop, Outcome, ◌>>=◌, or_panic, Returns,
  Returns-bind, Returns-guard, Returns-if, ok,
}
use lumine_for_android.Tls.{
  byte_at, u16_at, HelloError, header, Sni, Seen, Hello, skip_to_extensions, extension_sni,
  on_extension, extensions, parse_client_hello, nothing_seen,
}

get_elem?-lt {ℓ} :
    {A : Type ℓ} (xs : List A) (i : ℕ) → i < length xs → (a : A) × (get_elem? xs i ≡ some a)
get_elem?-lt [] i h = elim h [ ]
get_elem?-lt (x ∷ xs) zero h = (x, refl)
get_elem?-lt (x ∷ xs) (suc i) h = get_elem?-lt xs i (omega arith)

byte_at-ok : (d : Bytes) (i : ℕ) → i < length d → (b : ℕ) × (byte_at d i ≡ ok b)
unfolding byte_at
byte_at-ok d i h = let (b, e) = get_elem?-lt d i h in (b, rw e)

u16_at-ok : (d : Bytes) (i : ℕ) → i + 1 < length d → (n : ℕ) × (u16_at d i ≡ ok n)
unfolding u16_at
u16_at-ok d i h =
    let (hi, e) = byte_at-ok d i (omega arith) in
    let (lo, f) = byte_at-ok d (i + 1) h in (hi * 256 + lo, rw (e, f))

slice-ok : (d : Bytes) (i j : ℕ) → i ≤ j → j ≤ length d → (s : Bytes) × (slice d i j ≡ some s)
slice-ok d i j h k = (take (j - i) (drop i d), ground arith)

module _ {B : Type 0} (Q : B → Type 0) (d : Bytes) where
  read_byte :
      (i : ℕ) (f : ℕ → Outcome HelloError B)
      → i < length d
      → ((b : ℕ) → byte_at d i ≡ ok b → Returns Q (f b))
      → Returns Q (byte_at d i >>= f)
  read_byte i f h k = let (b, e) = byte_at-ok d i h in rw e (k b e)

  read_u16 :
      (i : ℕ) (f : ℕ → Outcome HelloError B)
      → i + 1 < length d
      → ((n : ℕ) → u16_at d i ≡ ok n → Returns Q (f n))
      → Returns Q (u16_at d i >>= f)
  read_u16 i f h k = let (n, e) = u16_at-ok d i h in rw e (k n e)

  read_slice :
      (i j : ℕ) (f : Bytes → Outcome HelloError B)
      → i ≤ j
      → j ≤ length d
      → ((s : Bytes) → Returns Q (f s))
      → Returns Q (or_panic (slice d i j) >>= f)
  read_slice i j f h k g = let (s, e) = slice-ok d i j h k in rw e (g s)

-- The fixed part is read in range, and leaves the offset behind the random bytes.
header-Returns :
    (d : Bytes)
    → 5 ≤ length d
    → Returns (λ (r : ℕ × Bytes). (r.0 ≡ 43) × (43 < length d)) (header d)
unfolding header
header-Returns d h = read_byte _ d 0 _ (omega arith) λ kind _. Returns-guard _ _ _ _ λ _.
    read_byte _ d 1 _ (omega arith) λ major _. Returns-guard _ _ _ _ λ _.
      read_u16 _ d 3 _ (omega arith) λ record_len _. Returns-guard _ _ _ _ λ fits.
        Returns-guard _ _ _ _ λ room. read_byte _ d 5 _ (ground arith) λ message _.
          Returns-guard _ _ _ _ λ _. read_byte _ d 6 _ (ground arith) λ b2 _.
            read_byte _ d 7 _ (ground arith) λ b1 _. read_byte _ d 8 _ (ground arith) λ b0 _.
              Returns-guard _ _ _ _ λ inside. Returns-guard _ _ _ _ λ long.
                read_slice _ d 9 11 _ (omega arith) (ground arith)
                  λ version. Returns-guard _ _ _ _ λ more. (refl, ground arith)

-- The three variable fields are stepped over in range.
skip-Returns :
    (d : Bytes) (offset : ℕ)
    → offset < length d
    → Returns (λ end. end ≤ length d) (skip_to_extensions d offset)
unfolding skip_to_extensions
skip-Returns d offset h = read_byte _ d offset _ h λ session_id_len _. Returns-guard _ _ _ _ λ _.
    Returns-guard _ _ _ _ λ suites. read_u16 _ d _ _ (ground arith) λ cs_len _.
      Returns-guard _ _ _ _ λ _. Returns-guard _ _ _ _ λ methods.
        read_byte _ d _ _ (ground arith)
          λ comp_methods_len _. Returns-guard _ _ _ _ λ fits. ground arith

-- A name at `start` of `len` bytes that stands in a server name extension of `d`, which begins at
-- `offset` with its type and the length of its content.
pub record IsServerName (d : Bytes) (start len : ℕ) : Type 0 where
  pub offset : ℕ
  pub at : start ≡ offset + 9
  pub ext_type : u16_at d offset ≡ ok 0
  pub ext_len : ℕ
  pub size : u16_at d (offset + 2) ≡ ok ext_len
  pub fits : start + len ≤ offset + 4 + ext_len
  pub list_len : u16_at d (offset + 4) ≡ ok (ext_len - 2)
  pub inside : offset + 4 + ext_len ≤ length d
  pub name_type : byte_at d (offset + 4 + 2) ≡ ok 0
  pub name_len : u16_at d (offset + 4 + 3) ≡ ok len

abbrev pub SniInside : Bytes → Sni → Type 0
SniInside d none = Unit
SniInside d (some (start, len)) = IsServerName d start len

extension_sni-Returns :
    (d : Bytes) (sni : Sni) (offset ext_len : ℕ)
    → u16_at d offset ≡ ok 0
    → u16_at d (offset + 2) ≡ ok ext_len
    → offset + 4 + ext_len ≤ length d
    → Returns (λ (r : ℕ × ℕ). IsServerName d r.0 r.1) (extension_sni d sni (offset + 4) ext_len)
unfolding extension_sni
extension_sni-Returns d (some _) offset ext_len t z h = tt
extension_sni-Returns d none offset ext_len t z h = Returns-guard _ _ _ _ λ two.
    read_u16 _ d _ _ (ground arith) λ list_len ll. Returns-guard _ _ _ _ λ whole.
      Returns-guard _ _ _ _ λ entry. read_byte _ d _ _ (ground arith) λ name_type nt.
        Returns-guard _ _ _ _ λ host_name. read_u16 _ d _ _ (ground arith) λ name_len nl.
          Returns-guard _ _ _ _ λ fits. record {
            offset = offset;
            at = omega arith;
            ext_type = t;
            ext_len = ext_len;
            size = z;
            fits = ground arith;
            list_len =
                (let e : list_len ≡ ext_len - 2 = ground arith in ll ∙ ap (λ (n : ℕ). ok n) e);
            inside = h;
            name_type = rw (← (==_iff name_type 0).0 host_name) nt;
            name_len = nl;
          }

on_extension-Returns :
    (d : Bytes) (offset ext_type ext_len : ℕ) (seen : Seen)
    → u16_at d offset ≡ ok ext_type
    → u16_at d (offset + 2) ≡ ok ext_len
    → offset + 4 + ext_len ≤ length d
    → SniInside d seen.sni
    → Returns (λ (r : Seen). SniInside d r.sni) (on_extension d ext_type (offset + 4) ext_len seen)
unfolding on_extension
on_extension-Returns d offset ext_type ext_len seen t z h s =
    Returns-if _ (ext_type == 0x33) _ _ (λ _. s)
      λ _.
        Returns-if _ (ext_type == 0xfe) _ _ (λ _. s)
          λ _.
            Returns-if _ (ext_type == 0) _ _
              (λ c.
                Returns-bind (λ (r : ℕ × ℕ). IsServerName d r.0 r.1) _
                  (extension_sni d seen.sni (offset + 4) ext_len) _
                  (extension_sni-Returns d seen.sni offset ext_len
                    (rw ((==_iff ext_type 0).0 c) at t) z h)
                  λ r n. n)
              λ _. s

-- Each round moves on by 4 at least, so the length of the data is enough fuel.
extensions-Returns :
    (fuel : ℕ) (d : Bytes) (offset end : ℕ) (seen : Seen)
    → end < fuel + offset
    → offset ≤ end
    → end ≤ length d
    → SniInside d seen.sni
    → Returns (λ (r : Seen). SniInside d r.sni) (extensions fuel d offset end seen)
unfolding extensions
extensions-Returns zero d offset end seen f o h s = absurd (omega arith)
extensions-Returns (suc fuel) d offset end seen f o h s =
    Returns-if _ (leb (offset + 4) end) _ _
      (λ more. read_u16 _ d _ _ (ground arith) λ ext_type t.
        read_u16 _ d _ _ (ground arith) λ ext_len z. Returns-guard _ _ _ _ λ fits.
          Returns-bind _ _ _ _
            (on_extension-Returns d offset ext_type ext_len seen t z (ground arith) s)
            λ r n.
              extensions-Returns fuel d (offset + 4 + ext_len) end r (omega arith) (ground arith) h
                n)
      λ _. s

-- On five bytes or more `parse_client_hello` returns: it indexes nothing out of range, its loop
-- ends, and a server name that it reports lies inside an extension of type 0, whose bounds lie inside
-- the data, behind the length of the list, which fills the extension, a name type 0 and its own
-- length.
pub parse_client_hello-Returns :
    (d : Bytes)
    → 5 ≤ length d
    → Returns (λ (r : Hello). SniInside d r.seen.sni) (parse_client_hello d)
unfolding parse_client_hello
parse_client_hello-Returns d h =
    Returns-bind (λ (r : ℕ × Bytes). (r.0 ≡ 43) × (43 < length d)) _ (header d) _
      (header-Returns d h)
      λ r p.
        Returns-bind (λ (n : ℕ). n ≤ length d) _ (skip_to_extensions d r.0) _
          (skip-Returns d r.0 (omega arith))
          λ offset q.
            Returns-if _ (leb (offset + 2) (length d)) _ _
              (λ some_extensions. read_u16 _ d _ _ (ground arith) λ total _.
                Returns-guard _ (leb (offset + 2 + total) (length d)) _ _ λ fits.
                  Returns-bind (λ (s : Seen). SniInside d s.sni) _
                    (extensions (suc (length d)) d (offset + 2) (offset + 2 + total) nothing_seen) _
                    (extensions-Returns (suc (length d)) d (offset + 2) (offset + 2 + total)
                      nothing_seen (ground arith) (omega arith) (ground arith) tt)
                    λ seen n. n)
              λ _. tt
