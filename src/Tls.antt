-- ===== src/Tls.antt =====
-- `parseClientHello` of enimul/internal/core/tunnel.go. The two results -1 and 0 for "no SNI" are
-- `none`; the partial results that stand beside an error are dropped, as both callers drop them.
pub mod Bounds
use lumine_for_android.Prelude.{
  guard, Bytes, slice, ℕ, zero, suc, ◌+◌, ◌*◌, Bool, true, false, Option, none, some, ltb, leb,
  ◌==◌, if◌then◌else◌, length, get_elem?, Outcome, ◌>>=◌, ◌>>◌, guard, or_panic, ok, err,
  out_of_fuel,
}

pub data HelloError : Type 0 where
  not_handshake not_tls_record record_too_long handshake_too_short : HelloError
  not_client_hello handshake_too_long hello_too_short after_random : HelloError
  session_id_too_long no_cipher_suites cipher_suites_too_long : HelloError
  no_compression compression_too_long extensions_too_long : HelloError
  extension_too_long duplicate_sni sni_too_short sni_list_mismatch : HelloError
  sni_entry_too_short sni_name_type sni_name_too_long : HelloError

-- `sniStart` and `sniLen`
abbrev pub Sni : Type 0
Sni = Option (ℕ × ℕ)

-- what the loop over the extensions has set
pub record Seen : Type 0 where
  pub sni : Sni
  pub has_key_share : Bool
  pub has_ech : Bool

pub record Hello : Type 0 where
  pub version : Bytes
  pub seen : Seen

-- `data[i]`
unfoldable pub byte_at : Bytes → ℕ → Outcome HelloError ℕ
byte_at d i = or_panic (get_elem? d i)

-- `binary.BigEndian.Uint16(data[i : i+2])`
unfoldable pub u16_at : Bytes → ℕ → Outcome HelloError ℕ
u16_at d i = do hi ← byte_at d i; lo ← byte_at d (i + 1); ok (hi * 256 + lo)

-- Up to the version: the offset behind the random bytes, and the version.
unfoldable pub header : Bytes → Outcome HelloError (ℕ × Bytes)
header d = do
  kind ← byte_at d 0
  guard (kind == 0x16) not_handshake
  major ← byte_at d 1
  guard (major == 0x3) not_tls_record
  record_len ← u16_at d 3
  guard (leb (5 + record_len) (length d)) record_too_long
  guard (leb 4 record_len) handshake_too_short
  message ← byte_at d 5
  guard (message == 0x1) not_client_hello
  b2 ← byte_at d 6
  b1 ← byte_at d 7
  b0 ← byte_at d 8
  let handshake_len = b2 * 65536 + b1 * 256 + b0
  guard (leb (handshake_len + 4) record_len) handshake_too_long
  guard (leb 35 handshake_len) hello_too_short
  version ← or_panic (slice d 9 11)
  guard (ltb 43 (length d)) after_random
  ok (43, version)

-- Over the session id, the cipher suites and the compression methods.
unfoldable pub skip_to_extensions : Bytes → ℕ → Outcome HelloError ℕ
skip_to_extensions d offset = do
  session_id_len ← byte_at d offset
  guard (leb (offset + 1 + session_id_len) (length d)) session_id_too_long
  let at_suites = offset + 1 + session_id_len
  guard (leb (at_suites + 2) (length d)) no_cipher_suites
  cs_len ← u16_at d at_suites
  guard (leb (at_suites + 2 + cs_len) (length d)) cipher_suites_too_long
  let at_methods = at_suites + 2 + cs_len
  guard (ltb at_methods (length d)) no_compression
  comp_methods_len ← byte_at d at_methods
  guard (leb (at_methods + 1 + comp_methods_len) (length d)) compression_too_long
  ok (at_methods + 1 + comp_methods_len)

-- The case of `tlsExtTypeSNI`: where the name stands, and its length.
unfoldable pub extension_sni : Bytes → Sni → ℕ → ℕ → Outcome HelloError (ℕ × ℕ)
extension_sni d (some _) start ext_len = err duplicate_sni
extension_sni d none start ext_len = do
  guard (leb 2 ext_len) sni_too_short
  list_len ← u16_at d start
  guard (list_len + 2 == ext_len) sni_list_mismatch
  guard (leb (start + 2 + 3) (start + ext_len)) sni_entry_too_short
  name_type ← byte_at d (start + 2)
  guard (name_type == 0) sni_name_type
  name_len ← u16_at d (start + 3)
  guard (leb (start + 5 + name_len) (start + ext_len)) sni_name_too_long
  ok (start + 5, name_len)

-- The switch on the type of an extension whose content begins at `start`.
unfoldable pub on_extension : Bytes → ℕ → ℕ → ℕ → Seen → Outcome HelloError Seen
on_extension d ext_type start ext_len seen =
    if ext_type == 0x33
    then ok (record seen { has_key_share = true })
    else if ext_type == 0xfe
    then ok (record seen { has_ech = true })
    else if ext_type == 0
    then (do found ← extension_sni d seen.sni start ext_len; ok (record seen { sni = some found }))
    else ok seen

-- `for offset+4 <= extensionsEnd`: each round moves the offset on by at least 4.
unfoldable pub extensions : ℕ → Bytes → ℕ → ℕ → Seen → Outcome HelloError Seen
extensions zero d offset end seen = out_of_fuel
extensions (suc fuel) d offset end seen =
    let round = (do
      ext_type ← u16_at d offset
      ext_len ← u16_at d (offset + 2)
      guard (leb (offset + 4 + ext_len) end) extension_too_long
      seen' ← on_extension d ext_type (offset + 4) ext_len seen
      extensions fuel d (offset + 4 + ext_len) end seen') in
    if leb (offset + 4) end then round else ok seen

abbrev pub nothing_seen : Seen
nothing_seen = record { sni = none; has_key_share = false; has_ech = false }

unfoldable pub parse_client_hello : Bytes → Outcome HelloError Hello
parse_client_hello d = do
  (at_session, version) ← header d
  offset ← skip_to_extensions d at_session
  let without : Hello = record { version = version; seen = nothing_seen }
  let with_extensions = (do
    total ← u16_at d offset
    guard (leb (offset + 2 + total) (length d)) extensions_too_long
    seen ← extensions (suc (length d)) d (offset + 2) (offset + 2 + total) nothing_seen
    ok (record { version = version; seen = seen }))
  if leb (offset + 2) (length d) then with_extensions else ok without
