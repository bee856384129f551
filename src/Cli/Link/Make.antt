-- ===== src/Cli/Link/Make.antt =====
-- The command that prints a join link (crates/kaigi-cli/src/main.rs: `make_join_link`).
use sora_kaigi.Base.{ℕ, Bool, ◌||◌, Option, none, is_some, if◌then◌else◌}
use sora_kaigi.Base.Text.{Str, lit}
use sora_kaigi.Base.Results.{Res, ok, err, ◌>>=◌, ◌>>◌}
use sora_kaigi.Cli.Args.{
  Host, decode_hex_32, normalize_privacy_mode, validate_privacy_mode_arg,
  validate_join_link_call_metadata,
}
use sora_kaigi.Cli.Link.{
  JoinLinkPayload, join_link_version_legacy, join_link_version_signed,
  populate_join_link_security_fields, render_join_link,
}

pub record MakeJoinLinkArgs (Addr : Type 0) : Type 0 where
  pub relay : Addr
  pub channel : Str
  pub server_name : Option Str
  pub authenticated : Bool
  pub insecure : Bool
  pub torii : Option Str
  pub pay_to : Option Str
  pub kaigi_domain : Option Str
  pub kaigi_call_name : Option Str
  pub kaigi_privacy_mode : Option Str
  pub expires_in_secs : ℕ
  pub legacy_v1 : Bool
  pub allow_local_handshake : Bool

unfoldable pub validate_nexus_routing_requirement : Bool → Option Str → Res (Unit {0})
unfolding lit
validate_nexus_routing_requirement allow_local_handshake torii =
    if allow_local_handshake || is_some torii
    then ok tt
    else err (
        lit
          "--torii (or a --join-link containing torii=...) is required for Nexus-routed calls; pass --allow-local-handshake only for local dev harness")

module _ {Addr : Type 0} (host : Host Addr) where
  unfoldable pub unsigned_payload : MakeJoinLinkArgs Addr → Str → JoinLinkPayload Addr
  unfolding normalize_privacy_mode
  unsigned_payload args channel = record {
    version = if args.legacy_v1 then join_link_version_legacy else join_link_version_signed;
    relay = args.relay;
    channel = channel;
    authenticated = args.authenticated;
    insecure = args.insecure;
    server_name = args.server_name;
    torii = args.torii;
    pay_to = args.pay_to;
    kaigi_domain = args.kaigi_domain;
    kaigi_call_name = args.kaigi_call_name;
    kaigi_privacy_mode = normalize_privacy_mode args.kaigi_privacy_mode;
    expires_at_ms = none;
    nonce_hex = none;
    signature_hex = none;
  }

  -- The printed line. An unsigned payload is left alone by the security fields.
  unfoldable pub make_join_link : MakeJoinLinkArgs Addr → ℕ → Str → Res Str
  unfolding validate_nexus_routing_requirement validate_join_link_call_metadata
      validate_privacy_mode_arg decode_hex_32 unsigned_payload populate_join_link_security_fields
      render_join_link
  make_join_link args now nonce = do
    validate_nexus_routing_requirement args.allow_local_handshake args.torii
    validate_join_link_call_metadata args.kaigi_domain args.kaigi_call_name
    validate_privacy_mode_arg args.kaigi_privacy_mode
    channel ← decode_hex_32 host args.channel
    payload ←
        populate_join_link_security_fields host (unsigned_payload args channel) args.expires_in_secs
          now nonce
    ok (render_join_link host payload)
