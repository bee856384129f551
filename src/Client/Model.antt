-- ===== src/Client/Model.antt =====
-- The client's data (crates/kaigi-linux-client/src/lib.rs): the session's state, its events and
-- the frames of its protocol. Times are i64 and epochs i32.
use sora_kaigi.Base.{Bool, true, false, Option, none, List, []}
use sora_kaigi.Base.Text.{Str, lit}
use sora_kaigi.Base.Ints.{ℤ, pos}

pub data ConnectionPhase : Type 0 where
  disconnected : ConnectionPhase
  connecting : ConnectionPhase
  connected : ConnectionPhase
  degraded : ConnectionPhase
  fallback_active : ConnectionPhase
  error : ConnectionPhase

pub data SessionErrorCategory : Type 0 where
  protocol_failure : SessionErrorCategory
  policy_failure : SessionErrorCategory
  transport_failure : SessionErrorCategory

pub record SessionError : Type 0 where
  pub category : SessionErrorCategory
  pub code : Str
  pub message : Str
  pub at_ms : ℤ

pub data ParticipantRole : Type 0 where
  host : ParticipantRole
  co_host : ParticipantRole
  participant : ParticipantRole
  guest : ParticipantRole

pub record Participant : Type 0 where
  pub id : Str
  pub display_name : Str
  pub role : ParticipantRole
  pub muted : Bool
  pub video_enabled : Bool
  pub share_enabled : Bool
  pub waiting_room : Bool

pub record RoleChange : Type 0 where
  pub participant_id : Str
  pub role : ParticipantRole

pub data ModerationAction : Type 0 where
  mute : ModerationAction
  video_off : ModerationAction
  stop_share : ModerationAction
  kick : ModerationAction
  admit_from_waiting : ModerationAction
  deny_from_waiting : ModerationAction

pub data MediaProfile : Type 0 where
  sdr : MediaProfile
  hdr : MediaProfile

pub record MediaProfileState : Type 0 where
  pub preferred_profile : MediaProfile
  pub negotiated_profile : MediaProfile
  pub color_primaries : Str
  pub transfer_function : Str
  pub codec : Str

pub data RecordingState : Type 0 where
  stopped : RecordingState
  started : RecordingState

pub data GuestPolicy : Type 0 where
  open_to_all : GuestPolicy
  invite_only : GuestPolicy
  blocked : GuestPolicy

pub record PermissionSnapshot : Type 0 where
  pub effective_permissions : List Str
  pub epoch : ℤ

pub data PaymentSettlementStatus : Type 0 where
  not_required : PaymentSettlementStatus
  pending : PaymentSettlementStatus
  settled : PaymentSettlementStatus
  blocked : PaymentSettlementStatus

pub record PaymentState : Type 0 where
  pub required : Bool
  pub destination : Option Str
  pub settlement_status : PaymentSettlementStatus

pub record E2eeState : Type 0 where
  pub current_epoch : ℤ
  pub last_ack_epoch : ℤ

pub record FallbackState : Type 0 where
  pub active : Bool
  pub reason : Option Str
  pub activated_at_ms : Option ℤ
  pub recovered_at_ms : Option ℤ
  pub last_rto_ms : Option ℤ

pub record MeetingConfig : Type 0 where
  pub signaling_url : Str
  pub fallback_url : Str
  pub room_id : Str
  pub participant_id : Str
  pub participant_name : Str
  pub wallet_identity : Option Str
  pub require_signed_moderation : Bool
  pub require_payment_settlement : Bool
  pub prefer_web_fallback_on_policy_failure : Bool
  pub supports_hdr_capture : Bool
  pub supports_hdr_render : Bool

pub record ProtocolSessionState : Type 0 where
  pub config : MeetingConfig
  pub connection_phase : ConnectionPhase
  pub handshake_complete : Bool
  pub resume_token : Option Str
  pub participants : List (Str × Participant)
  pub permission_snapshots : List (Str × PermissionSnapshot)
  pub presence_sequence : ℤ
  pub room_locked : Bool
  pub waiting_room_enabled : Bool
  pub guest_policy : GuestPolicy
  pub e2ee_required : Bool
  pub max_participants : ℤ
  pub policy_epoch : ℤ
  pub media_profile : MediaProfileState
  pub recording_notice : RecordingState
  pub e2ee_state : E2eeState
  pub payment_state : PaymentState
  pub fallback : FallbackState
  pub last_error : Option SessionError

abbrev pub default_media_profile : MediaProfileState
default_media_profile = record {
  preferred_profile = MediaProfile.sdr;
  negotiated_profile = MediaProfile.sdr;
  color_primaries = lit "bt709";
  transfer_function = lit "gamma";
  codec = lit "h264";
}

abbrev pub default_payment : PaymentState
default_payment = record {
  required = false;
  destination = none;
  settlement_status = PaymentSettlementStatus.not_required;
}

abbrev pub default_e2ee : E2eeState
default_e2ee = record { current_epoch = pos 0; last_ack_epoch = pos 0 }

abbrev pub default_fallback : FallbackState
default_fallback = record {
  active = false;
  reason = none;
  activated_at_ms = none;
  recovered_at_ms = none;
  last_rto_ms = none;
}

unfoldable pub default_config : MeetingConfig
unfolding lit
default_config = record {
  signaling_url = lit "ws://127.0.0.1:9000";
  fallback_url = lit "https://example.com/fallback";
  room_id = lit "ga-room";
  participant_id = lit "linux-guest-1";
  participant_name = lit "Linux Guest";
  wallet_identity = none;
  require_signed_moderation = true;
  require_payment_settlement = false;
  prefer_web_fallback_on_policy_failure = true;
  supports_hdr_capture = true;
  supports_hdr_render = true;
}

unfoldable pub initial : MeetingConfig → ProtocolSessionState
initial config = record {
  config = config;
  connection_phase = ConnectionPhase.disconnected;
  handshake_complete = false;
  resume_token = none;
  participants = [];
  permission_snapshots = [];
  presence_sequence = pos 0;
  room_locked = false;
  waiting_room_enabled = false;
  guest_policy = GuestPolicy.open_to_all;
  e2ee_required = true;
  max_participants = pos 300;
  policy_epoch = pos 0;
  media_profile = default_media_profile;
  recording_notice = RecordingState.stopped;
  e2ee_state = default_e2ee;
  payment_state = default_payment;
  fallback = default_fallback;
  last_error = none;
}
