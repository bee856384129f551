-- ===== src/Cli/Link/Security.antt =====
-- What a link must carry to be accepted (crates/kaigi-cli/src/main.rs:
-- `validate_join_link_security`).
use sora_kaigi.Base.{
  ℕ, ◌+◌, ◌*◌, Bool, not, ◌&&◌, ◌||◌, Option, none, some, ◌++◌, length, is_some, leb, ltb, nat_beq,
  str_beq, min, if◌then◌else◌,
}
use sora_kaigi.Base.Text.{Str, lit, show_nat}
use sora_kaigi.Base.Results.{Res, ok, err, ◌>>=◌}
use sora_kaigi.Cli.Args.{Host, normalize_hex_arg, strip_hex_prefix}
use sora_kaigi.Cli.Link.{
  JoinLinkPayload, join_link_signature_hex, join_link_version_legacy, join_link_version_signed,
  join_link_nonce_bytes, max_join_link_expires_in_secs, u64_max,
}
use sora_kaigi.Cli.Link.Nonces.{Nonces, register_join_link_nonce_once}

module _ {Addr : Type 0} (host : Host Addr) where
  -- `hex::decode(strip_hex_prefix(value))` of that many digits.
  unfoldable pub is_hex_of_length : ℕ → Str → Bool
  unfolding strip_hex_prefix
  is_hex_of_length n value =
      nat_beq (length (strip_hex_prefix value)) n
      && is_some (host.hex_decode (strip_hex_prefix value))

  -- The checks on a signed link before its nonce is registered.
  unfoldable pub check_signed : JoinLinkPayload Addr → ℕ → ℕ → Str → Str → Res (Unit {0})
  unfolding is_hex_of_length join_link_signature_hex normalize_hex_arg lit show_nat
  check_signed p now expires_at_ms nonce_hex signature_hex =
      if leb expires_at_ms now
      then err (lit "join link expired")
      else if ltb (min (now + max_join_link_expires_in_secs * 1000) u64_max) expires_at_ms
      then err (
          lit "join link exp exceeds max future window ("
          ++ (show_nat max_join_link_expires_in_secs ++ lit " seconds)"))
      else if not (is_hex_of_length (join_link_nonce_bytes * 2) nonce_hex)
      then err (lit "join link nonce must be 16-byte hex")
      else if not (is_hex_of_length 64 signature_hex)
      then err (lit "join link sig must be 32-byte hex")
      else join_link_signature_hex host p >>= λ expected.
          if not (str_beq expected (normalize_hex_arg signature_hex))
          then err (lit "join link signature verification failed")
          else ok tt

  -- The clock is read before the checks (`now`) and again when the nonce is registered (`later`).
  unfoldable pub register : Bool → Nonces → ℕ → Str → ℕ → Res (Unit {0}) → Nonces × Res (Unit {0})
  unfolding register_join_link_nonce_once
  register consume_nonce_replay seen later nonce_hex expires_at_ms (err e) = (seen, err e)
  register consume_nonce_replay seen later nonce_hex expires_at_ms (ok done) =
      if consume_nonce_replay
      then register_join_link_nonce_once seen later nonce_hex expires_at_ms
      else (seen, ok tt)

  unfoldable pub validate_signed :
      JoinLinkPayload Addr
      → Bool
      → Nonces
      → ℕ
      → ℕ
      → Option ℕ
      → Option Str
      → Option Str
      → Nonces × Res (Unit {0})
  unfolding lit check_signed register
  validate_signed p consume seen now later none _ _ = (seen, err (lit "join link v2 missing exp"))
  validate_signed p consume seen now later (some expires_at_ms) none _ =
      (seen, err (lit "join link v2 missing nonce"))
  validate_signed p consume seen now later (some expires_at_ms) (some nonce_hex) none =
      (seen, err (lit "join link v2 missing sig"))
  validate_signed p consume seen now later (some expires_at_ms) (some nonce_hex)
        (some signature_hex) =
      register consume seen later nonce_hex expires_at_ms
        (check_signed p now expires_at_ms nonce_hex signature_hex)

  unfoldable pub validate_join_link_security :
      JoinLinkPayload Addr → Bool → Nonces → ℕ → ℕ → Nonces × Res (Unit {0})
  unfolding lit validate_signed show_nat
  validate_join_link_security p consume_nonce_replay seen now later =
      if nat_beq p.version join_link_version_legacy
      then if is_some p.expires_at_ms || is_some p.nonce_hex || is_some p.signature_hex
        then (seen, err (lit "join link v1 must not include exp/nonce/sig fields"))
        else (seen, ok tt)
      else if nat_beq p.version join_link_version_signed
      then validate_signed p consume_nonce_replay seen now later p.expires_at_ms p.nonce_hex
          p.signature_hex
      else (seen, err (lit "unsupported join link version: " ++ show_nat p.version))
