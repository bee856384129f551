-- ===== src/Wire/Frames.antt =====
-- One message of the control plane (crates/kaigi-wire/src/lib.rs), and the frames it carries.
mod Anonymous
mod Session
mod Media
mod Governance
pub use Anonymous.*
pub use Session.*
pub use Media.*
pub use Governance.*
use Anonymous.{
  AnonEncryptedPayloadFrame, AnonGroupKeyRotateFrame, AnonHelloFrame, AnonRosterFrame,
  EncryptedControlFrame, EscrowAckFrame, EscrowProofFrame, GroupKeyUpdateFrame,
}
use Session.{
  ChatFrame, ErrorFrame, HelloFrame, ParticipantPresenceDeltaFrame, ParticipantStateFrame,
  PingFrame, PongFrame, RoomConfigFrame, RoomConfigUpdateFrame, RoomEventFrame, RosterFrame,
}
use Media.{
  AudioPacketFrame, DeviceCapabilityFrame, MediaCapabilityFrame, MediaProfileNegotiationFrame,
  MediaTrackStateFrame, VideoSegmentFrame,
}
use Governance.{
  E2eeKeyEpochFrame, KeyRotationAckFrame, ModerationFrame, ModerationSignedFrame, PaymentAckFrame,
  PaymentFrame, PermissionsSnapshotFrame, RecordingNoticeFrame, RoleGrantFrame, RoleRevokeFrame,
  SessionPolicyFrame,
}

pub data KaigiFrame : Type 0 where
  anon_hello : AnonHelloFrame → KaigiFrame
  anon_roster : AnonRosterFrame → KaigiFrame
  group_key_update : GroupKeyUpdateFrame → KaigiFrame
  encrypted_control : EncryptedControlFrame → KaigiFrame
  escrow_proof : EscrowProofFrame → KaigiFrame
  escrow_ack : EscrowAckFrame → KaigiFrame
  hello : HelloFrame → KaigiFrame
  roster : RosterFrame → KaigiFrame
  event : RoomEventFrame → KaigiFrame
  room_config : RoomConfigFrame → KaigiFrame
  room_config_update : RoomConfigUpdateFrame → KaigiFrame
  moderation : ModerationFrame → KaigiFrame
  moderation_signed : ModerationSignedFrame → KaigiFrame
  role_grant : RoleGrantFrame → KaigiFrame
  role_revoke : RoleRevokeFrame → KaigiFrame
  permissions_snapshot : PermissionsSnapshotFrame → KaigiFrame
  session_policy : SessionPolicyFrame → KaigiFrame
  device_capability : DeviceCapabilityFrame → KaigiFrame
  media_profile_negotiation : MediaProfileNegotiationFrame → KaigiFrame
  recording_notice : RecordingNoticeFrame → KaigiFrame
  e2ee_key_epoch : E2eeKeyEpochFrame → KaigiFrame
  key_rotation_ack : KeyRotationAckFrame → KaigiFrame
  participant_presence_delta : ParticipantPresenceDeltaFrame → KaigiFrame
  chat : ChatFrame → KaigiFrame
  participant_state : ParticipantStateFrame → KaigiFrame
  media_capability : MediaCapabilityFrame → KaigiFrame
  media_track_state : MediaTrackStateFrame → KaigiFrame
  video_segment : VideoSegmentFrame → KaigiFrame
  audio_packet : AudioPacketFrame → KaigiFrame
  anon_group_key_rotate : AnonGroupKeyRotateFrame → KaigiFrame
  anon_encrypted_payload : AnonEncryptedPayloadFrame → KaigiFrame
  payment : PaymentFrame → KaigiFrame
  payment_ack : PaymentAckFrame → KaigiFrame
  ping : PingFrame → KaigiFrame
  pong : PongFrame → KaigiFrame
  error : ErrorFrame → KaigiFrame
