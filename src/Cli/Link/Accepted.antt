-- ===== src/Cli/Link/Accepted.antt =====
-- From the arguments of `make_join_link` to the payload that `parse_join_link` returns
-- (crates/kaigi-cli/src/main.rs).
use sora_kaigi.Base.{
  ℕ, ◌+◌, ◌*◌, ◌≤◌, ◌<◌, ◌≡◌, refl, ◌∙◌, true, false, ◌||◌, Option, none, some, length, is_some,
  arith,
}
use sora_kaigi.Base.Text.{Str, split_once, trim_str}
use sora_kaigi.Base.Results.{Res, ok, err, is_ok}
use sora_kaigi.Cli.Args.{
  Host, decode_hex_32, validate_join_link_call_metadata, validate_privacy_mode_arg,
}
use sora_kaigi.Cli.Percent.{IsBytes}
use sora_kaigi.Cli.Hex.{IsFaithful, encode-IsText, decode_hex_32-encode}
use sora_kaigi.Cli.Modes.{normalize_privacy_mode-IsMode}
use sora_kaigi.Cli.Link.{JoinLinkPayload, render_join_link, max_join_link_expires_in_secs, u64_max}
use sora_kaigi.Cli.Link.Nonces.{Nonces, register_join_link_nonce_once}
use sora_kaigi.Cli.Link.Security.{register, validate_signed, validate_join_link_security}
use sora_kaigi.Cli.Link.Parse.{
  parse_join_link, parse_join_link_with_mode, both_or_neither, when_valid, read_link,
}
use sora_kaigi.Cli.Link.Linkable.{If, IsWord, IsLinkable}
use sora_kaigi.Cli.Link.Roundtrip.{read_link-render}
use sora_kaigi.Cli.Link.Make.{
  MakeJoinLinkArgs, unsigned_payload, validate_nexus_routing_requirement, make_join_link,
}
use sora_kaigi.Cli.Link.Replay.{security-validate_signed}
use sora_kaigi.Cli.Link.Issued.{signed, populate-signed, check_signed-signed, signed-IsLinkable}

-- Arguments that pass the checks of the command, with texts that are not empty.
pub record IsMakeable {Addr : Type 0} (host : Host Addr) (args : MakeJoinLinkArgs Addr)
    (channel : Str) : Type 0 where
  pub is_signed : args.legacy_v1 ≡ false
  pub is_routed : (args.allow_local_handshake || is_some args.torii) ≡ true
  pub channel_read : decode_hex_32 host args.channel ≡ ok channel
  pub channel_bytes : IsBytes channel
  pub channel_size : length channel ≡ 32
  pub server_name_word : If IsWord args.server_name
  pub torii_word : If IsWord args.torii
  pub pay_to_word : If IsWord args.pay_to
  pub domain_word : If IsWord args.kaigi_domain
  pub call_name_word : If IsWord args.kaigi_call_name
  pub call_named : both_or_neither args.kaigi_domain args.kaigi_call_name ≡ true
  pub mode_valid : validate_privacy_mode_arg args.kaigi_privacy_mode ≡ ok tt
  pub some_time : 0 < args.expires_in_secs
  pub short_time : args.expires_in_secs ≤ max_join_link_expires_in_secs

module _ {Addr : Type 0} (host : Host Addr) (faithful : IsFaithful host) where
  unsigned-IsLinkable :
      (args : MakeJoinLinkArgs Addr) (channel : Str)
      → IsMakeable host args channel
      → IsLinkable host (unsigned_payload host args channel)
  unfolding unsigned_payload
  unsigned-IsLinkable args channel makeable =
      let mode = normalize_privacy_mode-IsMode args.kaigi_privacy_mode makeable.mode_valid in
      record {
        version_fits = rw makeable.is_signed (omega arith);
        relay_text = faithful.addr_text args.relay;
        relay_read = faithful.addr_read args.relay;
        channel_text = encode-IsText host faithful channel makeable.channel_bytes;
        channel_read =
            decode_hex_32-encode host faithful channel makeable.channel_bytes makeable.channel_size;
        server_name_word = makeable.server_name_word;
        torii_word = makeable.torii_word;
        pay_to_word = makeable.pay_to_word;
        domain_word = makeable.domain_word;
        call_name_word = makeable.call_name_word;
        call_named = makeable.call_named;
        mode_word = mode.0;
        mode_valid = mode.1;
        mode_normal = mode.2;
        expiry_fits = tt;
        nonce_normal = tt;
        signature_normal = tt;
      }

  unsigned-version :
      (args : MakeJoinLinkArgs Addr) (channel : Str)
      → IsMakeable host args channel
      → (unsigned_payload host args channel).version ≡ 2
  unfolding unsigned_payload
  unsigned-version args channel makeable = rw makeable.is_signed refl

  metadata-named :
      (domain call_name : Option Str)
      → both_or_neither domain call_name ≡ true
      → validate_join_link_call_metadata domain call_name ≡ ok tt
  unfolding validate_join_link_call_metadata
  metadata-named none none h = refl
  metadata-named (some d) (some c) h = refl
  metadata-named none (some c) h = ground arith
  metadata-named (some d) none h = ground arith

  -- The payload of the link that is made.
  abbrev pub issued : MakeJoinLinkArgs Addr → Str → ℕ → Str → JoinLinkPayload Addr
  issued args channel now nonce =
      signed host faithful (unsigned_payload host args channel) (now + args.expires_in_secs * 1000)
        nonce

  make_join_link-issued :
      (args : MakeJoinLinkArgs Addr) (channel : Str) (now : ℕ) (nonce : Str)
      → IsMakeable host args channel
      → now + args.expires_in_secs * 1000 ≤ u64_max
      → make_join_link host args now nonce
        ≡ ok (render_join_link host (issued args channel now nonce))
  unfolding make_join_link validate_nexus_routing_requirement
  make_join_link-issued args channel now nonce makeable fits =
      rw
        (
          makeable.is_routed,
          metadata-named args.kaigi_domain args.kaigi_call_name makeable.call_named,
          makeable.mode_valid,
          makeable.channel_read,
          populate-signed host faithful (unsigned_payload host args channel) args.expires_in_secs
              now nonce (unsigned-version args channel makeable) makeable.some_time
              makeable.short_time fits,
        )
        refl

  security-registers :
      (p : JoinLinkPayload Addr) (expiry : ℕ) (nonce : Str) (seen : Nonces) (now later : ℕ)
      → p.version ≡ 2
      → IsBytes nonce
      → length nonce ≡ 16
      → now < expiry
      → expiry ≤ now + max_join_link_expires_in_secs * 1000
      → expiry ≤ u64_max
      → validate_join_link_security host (signed host faithful p expiry nonce) true seen now later
        ≡ register_join_link_nonce_once seen later (host.hex_encode nonce) expiry
  unfolding validate_signed register
  security-registers p expiry nonce seen now later version octets size early near fits =
      security-validate_signed host (signed host faithful p expiry nonce) seen now later version
      ∙ rw (check_signed-signed host faithful p expiry now nonce octets size early near fits) refl

  ok-then :
      (p : JoinLinkPayload Addr) (r : Nonces × Res (Unit {0}))
      → is_ok (r.1) ≡ true
      → (when_valid host p r).1 ≡ ok p
  ok-then p (seen, ok done) accepted = refl
  ok-then p (seen, err e) accepted = ground arith

  validated-ok :
      (p : JoinLinkPayload Addr) (seen : Nonces) (now later : ℕ) (link : Str)
      → read_link host (split_once b'?' (trim_str link)) ≡ ok p
      → is_ok ((validate_join_link_security host p true seen now later).1) ≡ true
      → (parse_join_link host link seen now later).1 ≡ ok p
  unfolding parse_join_link parse_join_link_with_mode
  validated-ok p seen now later link read accepted =
      rw read (ok-then p (validate_join_link_security host p true seen now later) accepted)

  pub parse-issued :
      (args : MakeJoinLinkArgs Addr) (channel : Str) (now : ℕ) (nonce : Str) (seen : Nonces)
      (now2 later : ℕ)
      → IsMakeable host args channel
      → IsBytes nonce
      → length nonce ≡ 16
      → now + args.expires_in_secs * 1000 ≤ u64_max
      → now ≤ now2
      → now2 < now + args.expires_in_secs * 1000
      → is_ok (
          (register_join_link_nonce_once seen later
            (host.hex_encode nonce)
            (now + args.expires_in_secs * 1000)).1)
        ≡ true
      → (parse_join_link host
          (render_join_link host (issued args channel now nonce))
          seen
          now2
          later).1
        ≡ ok (issued args channel now nonce)
  parse-issued args channel now nonce seen now2 later makeable octets size fits after early fresh =
      let expiry = now + args.expires_in_secs * 1000 in
      let unsigned = unsigned_payload host args channel in
      let linkable =
        signed-IsLinkable host faithful unsigned expiry nonce
          (unsigned-IsLinkable args channel makeable) octets size fits in
      let registers =
        security-registers unsigned expiry nonce seen now2 later
          (unsigned-version args channel makeable) octets size early
          (omega (arith, makeable.short_time)) fits in
      validated-ok (issued args channel now nonce) seen now2 later _
        (read_link-render host (issued args channel now nonce) linkable) (rw registers fresh)

  -- With third-party code that does what the client relies on, `make_join_link` prints a signed link
  -- from arguments that pass its checks (with texts that are valid and not empty, a nonce of 16
  -- bytes and an expiry that fits a u64), and `parse_join_link` reads it, while it has not expired,
  -- as the payload that was signed, provided the cache of nonces takes its nonce.
  pub made_link_is_accepted :
      (args : MakeJoinLinkArgs Addr) (channel : Str) (now : ℕ) (nonce : Str) (seen : Nonces)
      (now2 later : ℕ)
      → IsMakeable host args channel
      → IsBytes nonce
      → length nonce ≡ 16
      → now + args.expires_in_secs * 1000 ≤ u64_max
      → now ≤ now2
      → now2 < now + args.expires_in_secs * 1000
      → is_ok (
          (register_join_link_nonce_once seen later
            (host.hex_encode nonce)
            (now + args.expires_in_secs * 1000)).1)
        ≡ true
      → (link : Str) × (make_join_link host args now nonce ≡ ok link)
        × ((parse_join_link host link seen now2 later).1 ≡ ok (issued args channel now nonce))
  made_link_is_accepted args channel now nonce seen now2 later makeable octets size fits after early
        fresh =
      (
        render_join_link host (issued args channel now nonce),
        make_join_link-issued args channel now nonce makeable fits,
        parse-issued args channel now nonce seen now2 later makeable octets size fits after early
            fresh,
      )
