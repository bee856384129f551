-- ===== src/Client/Frames.antt =====
-- The frames of the client's protocol and the events of its session
-- (crates/kaigi-linux-client/src/lib.rs: `ProtocolFrame`, `ProtocolEvent`).
use sora_kaigi.Base.{Bool, Option, List}
use sora_kaigi.Base.Text.{Str}
use sora_kaigi.Base.Ints.{ℤ}
use sora_kaigi.Client.Model.{
  SessionErrorCategory, ParticipantRole, Participant, RoleChange, ModerationAction, MediaProfile,
  RecordingState, GuestPolicy, PaymentSettlementStatus, MeetingConfig,
}

pub data ProtocolFrame : Type 0 where
  handshake :
      (room_id participant_id participant_name : Str) (wallet_identity resume_token : Option Str)
      (preferred_profile : MediaProfile) (hdr_capture hdr_render : Bool) (sent_at_ms : ℤ)
      → ProtocolFrame
  handshake_ack : (session_id resume_token : Str) (accepted_at_ms : ℤ) → ProtocolFrame
  participant_presence_delta :
      (joined : List Participant) (left : List Str) (role_changes : List RoleChange) (sequence : ℤ)
      → ProtocolFrame
  role_grant :
      (target_participant_id : Str) (role : ParticipantRole) (granted_by : Str)
      (signature : Option Str) (issued_at_ms : ℤ)
      → ProtocolFrame
  role_revoke :
      (target_participant_id : Str) (role : ParticipantRole) (revoked_by : Str)
      (signature : Option Str) (issued_at_ms : ℤ)
      → ProtocolFrame
  permissions_snapshot :
      (participant_id : Str) (effective_permissions : List Str) (epoch : ℤ) → ProtocolFrame
  moderation_signed :
      (target_participant_id : Str) (action : ModerationAction) (issued_by : Str)
      (signature : Option Str) (sent_at_ms : ℤ)
      → ProtocolFrame
  session_policy :
      (room_lock waiting_room_enabled : Bool) (recording_policy : RecordingState)
      (guest_policy : GuestPolicy) (e2ee_required : Bool) (max_participants policy_epoch : ℤ)
      (updated_by : Str) (signature : Option Str) (updated_at_ms : ℤ)
      → ProtocolFrame
  device_capability :
      (participant_id : Str) (codecs : List Str) (hdr_capture hdr_render : Bool)
      (max_streams updated_at_ms : ℤ)
      → ProtocolFrame
  media_profile_negotiation :
      (preferred_profile negotiated_profile : MediaProfile)
      (color_primaries transfer_function codec : Str)
      → ProtocolFrame
  recording_notice : (state : RecordingState) (issued_at_ms : ℤ) → ProtocolFrame
  e2ee_key_epoch :
      (epoch : ℤ) (issued_by : Str) (signature : Option Str) (sent_at_ms : ℤ) → ProtocolFrame
  key_rotation_ack : (ack_epoch : ℤ) (participant_id : Str) (sent_at_ms : ℤ) → ProtocolFrame
  payment_policy : (required : Bool) (destination_account : Option Str) → ProtocolFrame
  payment_settlement : (status : PaymentSettlementStatus) → ProtocolFrame
  error : (category : SessionErrorCategory) (code message : Str) → ProtocolFrame
  ping : (sent_at_ms : ℤ) → ProtocolFrame
  pong : (sent_at_ms : ℤ) → ProtocolFrame

pub data ProtocolEvent : Type 0 where
  connect_requested : ProtocolEvent
  transport_connected : ProtocolEvent
  transport_disconnected : (reason : Str) → ProtocolEvent
  transport_failure : (message : Str) → ProtocolEvent
  frame_received : (frame : ProtocolFrame) → ProtocolEvent
  frame_send_failed : (message : Str) → ProtocolEvent
  manual_disconnected : ProtocolEvent
  fallback_activated : (reason : Str) → ProtocolEvent
  fallback_recovered : ProtocolEvent
  config_updated : (config : MeetingConfig) → ProtocolEvent
