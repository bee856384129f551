-- ===== src/Client/Decode.antt =====
-- Reading a frame (crates/kaigi-linux-client/src/lib.rs: `decode_frame`).
mod Session
mod Governance
use sora_kaigi.Base.{Bool, true, false, Option, none, some, ◌++◌, str_beq, if◌then◌else◌}
use sora_kaigi.Base.Text.{Str, lit}
use sora_kaigi.Client.Frames.{ProtocolFrame}
use sora_kaigi.Client.Json.{
  Value, Fields, CodecError, invalid_shape, Decoded, decoded, failed, ◌>>=◌, and_then, as_object,
  value_as_str, member,
}
use sora_kaigi.Client.Words.{canonical_kind}
unfoldable pub use Session.*
unfoldable pub use Governance.*
use Session.{
  decode_handshake, decode_handshake_ack, decode_participant_presence_delta,
  decode_device_capability, decode_media_profile_negotiation, decode_recording_notice, decode_ping,
  decode_pong, decode_error,
}
use Governance.{
  decode_role_grant, decode_role_revoke, decode_permissions_snapshot, decode_moderation_signed,
  decode_session_policy, decode_e2ee_key_epoch, decode_key_rotation_ack, decode_payment_policy,
  decode_payment_settlement,
}

unfoldable pub decode_kind : Str → Fields → Decoded ProtocolFrame
decode_kind kind root =
    if str_beq kind (lit "handshake")
    then decode_handshake root
    else if str_beq kind (lit "handshakeAck")
    then decode_handshake_ack root
    else if str_beq kind (lit "participantPresenceDelta")
    then decode_participant_presence_delta root
    else if str_beq kind (lit "roleGrant")
    then decode_role_grant root
    else if str_beq kind (lit "roleRevoke")
    then decode_role_revoke root
    else if str_beq kind (lit "permissionsSnapshot")
    then decode_permissions_snapshot root
    else if str_beq kind (lit "moderationSigned")
    then decode_moderation_signed root
    else if str_beq kind (lit "sessionPolicy")
    then decode_session_policy root
    else if str_beq kind (lit "deviceCapability")
    then decode_device_capability root
    else if str_beq kind (lit "mediaProfileNegotiation")
    then decode_media_profile_negotiation root
    else if str_beq kind (lit "recordingNotice")
    then decode_recording_notice root
    else if str_beq kind (lit "e2eeKeyEpoch")
    then decode_e2ee_key_epoch root
    else if str_beq kind (lit "keyRotationAck")
    then decode_key_rotation_ack root
    else if str_beq kind (lit "paymentPolicy")
    then decode_payment_policy root
    else if str_beq kind (lit "paymentSettlement")
    then decode_payment_settlement root
    else if str_beq kind (lit "ping")
    then decode_ping root
    else if str_beq kind (lit "pong")
    then decode_pong root
    else if str_beq kind (lit "error")
    then decode_error root
    else failed (invalid_shape (lit "unsupported frame kind: " ++ kind))

unfoldable pub or_shape {ℓ} : {A : Type ℓ} → Option A → Str → Decoded A
or_shape none what = failed (invalid_shape what)
or_shape (some a) what = decoded a

unfoldable pub decode_value : Value → Decoded ProtocolFrame
unfolding or_shape member canonical_kind decode_kind
decode_value value = do
  root ← or_shape (as_object value) (lit "frame must be an object")
  kind ← or_shape (and_then (member root (lit "kind")) value_as_str) (lit "frame.kind missing")
  decode_kind (canonical_kind kind) root

-- `parse` is `serde_json::from_str` with its error as a text.
unfoldable pub decode_frame : (Str → Decoded Value) → Str → Decoded ProtocolFrame
unfolding decode_value
decode_frame parse payload = parse payload >>= decode_value
