-- ===== src/Cli/Link/Issued.antt =====
-- The links that the client signs, and the checks on them (crates/kaigi-cli/src/main.rs:
-- `populate_join_link_security_fields` and `validate_join_link_security`).
use sora_kaigi.Base.{
  ℕ, ◌+◌, ◌*◌, ◌≤◌, ◌<◌, ◌≡◌, refl, true, false, some, [], ◌∷◌, ◌++◌, length, str_beq_iff, ltb, leb,
  min, ltb→lt, Bool-cases, inl, inr, arith,
}
use sora_kaigi.Base.Text.{Str, lit}
use sora_kaigi.Base.Results.{ok}
use sora_kaigi.Cli.Args.{Host, deterministic_signature_hex, normalize_hex_arg}
use sora_kaigi.Cli.Percent.{IsBytes}
use sora_kaigi.Cli.Hex.{IsFaithful, encode-IsText, encode-normal, encode-strip}
use sora_kaigi.Cli.Link.{
  JoinLinkPayload, signature_text, join_link_signature_payload, join_link_signature_hex,
  populate_join_link_security_fields, max_join_link_expires_in_secs, u64_max,
  join_link_version_signed,
}
use sora_kaigi.Cli.Link.Security.{is_hex_of_length, check_signed}
use sora_kaigi.Cli.Link.Linkable.{IsNormalHex, IsNonempty, IsLinkable}

leb-late : (a b : ℕ) → b < a → leb a b ≡ false
leb-late a b h = ground arith

min-window : (a b n : ℕ) → n ≤ a → n ≤ b → ltb (min a b) n ≡ false
min-window a b n ha hb =
    let below : ¬ (min a b < n) = omega arith in
    elim (Bool-cases (ltb (min a b) n)) [
      | inl far ↦ elim (below (ltb→lt (min a b) n far)) [ ]
      | inr near ↦ near
    ]

module _ {Addr : Type 0} (host : Host Addr) (faithful : IsFaithful host) where
  -- What `populate_join_link_security_fields` makes of a payload for this expiry.
  abbrev signature_of : JoinLinkPayload Addr → ℕ → Str → Str
  signature_of p expiry nonce =
      host.blake3_hex (lit "join_link_v2" ++ signature_text host p expiry (host.hex_encode nonce))

  abbrev pub signed : JoinLinkPayload Addr → ℕ → Str → JoinLinkPayload Addr
  signed p expiry nonce = record p {
    expires_at_ms = some expiry;
    nonce_hex = some (host.hex_encode nonce);
    signature_hex = some (signature_of p expiry nonce);
  }

  pub populate-signed :
      (p : JoinLinkPayload Addr) (secs now : ℕ) (nonce : Str)
      → p.version ≡ join_link_version_signed
      → 0 < secs
      → secs ≤ max_join_link_expires_in_secs
      → now + secs * 1000 ≤ u64_max
      → populate_join_link_security_fields host p secs now nonce
        ≡ ok (signed p (now + secs * 1000) nonce)
  unfolding populate_join_link_security_fields join_link_signature_hex join_link_signature_payload
      deterministic_signature_hex
  populate-signed p secs now nonce version some_time short fits = ground arith

  encode-is_hex_of_length :
      (n : ℕ) (bytes : Str)
      → IsBytes bytes
      → length bytes * 2 ≡ n
      → is_hex_of_length host n (host.hex_encode bytes) ≡ true
  unfolding is_hex_of_length
  encode-is_hex_of_length n bytes octets size =
      rw
        (
          encode-strip host faithful bytes octets,
          faithful.encode_length bytes,
          faithful.decode_encode bytes octets,
          size,
        )
        (ground arith)

  digest-is_hex_of_length : (text : Str) → is_hex_of_length host 64 (host.blake3_hex text) ≡ true
  digest-is_hex_of_length text = rw (faithful.digest_hex text) (
      encode-is_hex_of_length 64 (faithful.digest text) (faithful.digest_bytes text)
        (omega (arith, faithful.digest_length text)))

  digest-normal : (text : Str) → normalize_hex_arg (host.blake3_hex text) ≡ host.blake3_hex text
  digest-normal text =
      rw (faithful.digest_hex text)
        (encode-normal host faithful (faithful.digest text) (faithful.digest_bytes text))

  check_signed_passes :
      (p : JoinLinkPayload Addr) (now expiry : ℕ) (nonce signature : Str)
      → now < expiry
      → expiry ≤ now + max_join_link_expires_in_secs * 1000
      → expiry ≤ u64_max
      → is_hex_of_length host 32 nonce ≡ true
      → is_hex_of_length host 64 signature ≡ true
      → join_link_signature_hex host p ≡ ok signature
      → normalize_hex_arg signature ≡ signature
      → check_signed host p now expiry nonce signature ≡ ok tt
  unfolding check_signed
  check_signed_passes p now expiry nonce signature early near fits nonce_hex sig_hex made normal =
      let same = (str_beq_iff signature signature).1 refl in
      let dated : leb expiry now ≡ false = leb-late expiry now early in
      let windowed : ltb (min (now + max_join_link_expires_in_secs * 1000) u64_max) expiry ≡ false =
        min-window (now + max_join_link_expires_in_secs * 1000) u64_max expiry near fits in
      rw (dated, windowed, nonce_hex, sig_hex, made, normal, same) refl

  pub check_signed-signed :
      (p : JoinLinkPayload Addr) (expiry now : ℕ) (nonce : Str)
      → IsBytes nonce
      → length nonce ≡ 16
      → now < expiry
      → expiry ≤ now + max_join_link_expires_in_secs * 1000
      → expiry ≤ u64_max
      → check_signed host
          (signed p expiry nonce)
          now
          expiry
          (host.hex_encode nonce)
          (signature_of p expiry nonce)
        ≡ ok tt
  unfolding join_link_signature_hex join_link_signature_payload deterministic_signature_hex
  check_signed-signed p expiry now nonce octets size early near fits =
      let text = lit "join_link_v2" ++ signature_text host p expiry (host.hex_encode nonce) in
      check_signed_passes (signed p expiry nonce) now expiry (host.hex_encode nonce)
        (host.blake3_hex text) early near fits
        (encode-is_hex_of_length 32 nonce octets (omega arith)) (digest-is_hex_of_length text) refl
        (digest-normal text)

  nonempty : (n : ℕ) (s : Str) → length s ≡ n → 0 < n → IsNonempty s
  nonempty n [] size some_byte = ground arith
  nonempty n (b ∷ s) size some_byte = tt

  encode-IsNormalHex :
      (bytes : Str) → IsBytes bytes → 0 < length bytes → IsNormalHex (host.hex_encode bytes)
  encode-IsNormalHex bytes octets some_byte = (
    encode-IsText host faithful bytes octets,
    nonempty (length bytes * 2) (host.hex_encode bytes) (faithful.encode_length bytes)
        (omega arith),
    encode-normal host faithful bytes octets,
  )

  digest-IsNormalHex : (text : Str) → IsNormalHex (host.blake3_hex text)
  digest-IsNormalHex text = rw (faithful.digest_hex text) (
      encode-IsNormalHex (faithful.digest text) (faithful.digest_bytes text)
        (omega (arith, faithful.digest_length text)))

  pub signed-IsLinkable :
      (p : JoinLinkPayload Addr) (expiry : ℕ) (nonce : Str)
      → IsLinkable host p
      → IsBytes nonce
      → length nonce ≡ 16
      → expiry ≤ u64_max
      → IsLinkable host (signed p expiry nonce)
  signed-IsLinkable p expiry nonce linkable octets size fits = record {
    version_fits = linkable.version_fits;
    relay_text = linkable.relay_text;
    relay_read = linkable.relay_read;
    channel_text = linkable.channel_text;
    channel_read = linkable.channel_read;
    server_name_word = linkable.server_name_word;
    torii_word = linkable.torii_word;
    pay_to_word = linkable.pay_to_word;
    domain_word = linkable.domain_word;
    call_name_word = linkable.call_name_word;
    call_named = linkable.call_named;
    mode_word = linkable.mode_word;
    mode_valid = linkable.mode_valid;
    mode_normal = linkable.mode_normal;
    expiry_fits = fits;
    nonce_normal = encode-IsNormalHex nonce octets (omega arith);
    signature_normal =
        digest-IsNormalHex
          (lit "join_link_v2" ++ signature_text host p expiry (host.hex_encode nonce));
  }
