-- ===== src/Wire/Frames/Governance.antt =====
-- Frames (crates/kaigi-wire/src/lib.rs): moderation, roles, policy, recording, keys, payments.
-- Unsigned integers are natural numbers; a width other than 64 bits is noted.
use sora_kaigi.Base.{ℕ, Bool, Option}
use sora_kaigi.Base.Text.{Str}
use sora_kaigi.Wire.Frames.Session.{RoleKind}

pub data ModerationTarget : Type 0 where
  all : ModerationTarget
  participant : Str → ModerationTarget

pub data ModerationAction : Type 0 where
  kick : ModerationAction
  disable_mic : ModerationAction
  disable_video : ModerationAction
  disable_screen_share : ModerationAction
  admit_from_waiting : ModerationAction
  deny_from_waiting : ModerationAction

pub record ModerationFrame : Type 0 where
  pub sent_at_ms : ℕ
  pub target : ModerationTarget
  pub action : ModerationAction

pub record ModerationSignedFrame : Type 0 where
  pub sent_at_ms : ℕ
  pub target : ModerationTarget
  pub action : ModerationAction
  pub issued_by : Str
  pub signature_hex : Str

pub record RoleGrantFrame : Type 0 where
  pub issued_at_ms : ℕ
  pub target_participant_id : Str
  pub role : RoleKind
  pub granted_by : Str
  pub signature_hex : Str

pub record RoleRevokeFrame : Type 0 where
  pub issued_at_ms : ℕ
  pub target_participant_id : Str
  pub role : RoleKind
  pub revoked_by : Str
  pub signature_hex : Str

pub record PermissionsSnapshotFrame : Type 0 where
  pub at_ms : ℕ
  pub participant_id : Str
  pub host : Bool
  pub co_host : Bool
  pub can_moderate : Bool
  pub can_record_local : Bool
  pub epoch : ℕ

pub record SessionPolicyFrame : Type 0 where
  pub updated_at_ms : ℕ
  pub room_lock : Bool
  pub waiting_room_enabled : Bool
  pub guest_join_allowed : Bool
  pub local_recording_allowed : Bool
  pub e2ee_required : Bool
  pub max_participants : ℕ  -- u32
  pub policy_epoch : ℕ
  pub updated_by : Str
  pub signature_hex : Str

pub data RecordingState : Type 0 where
  started : RecordingState
  stopped : RecordingState

pub record RecordingNoticeFrame : Type 0 where
  pub at_ms : ℕ
  pub participant_id : Str
  pub state : RecordingState
  pub local_recording : Bool
  pub policy_basis : Option Str
  pub issued_by : Str

pub record E2eeKeyEpochFrame : Type 0 where
  pub sent_at_ms : ℕ
  pub participant_id : Str
  pub epoch : ℕ
  pub public_key_hex : Str
  pub signature_hex : Str

pub record KeyRotationAckFrame : Type 0 where
  pub received_at_ms : ℕ
  pub participant_id : Str
  pub ack_epoch : ℕ

pub record PaymentFrame : Type 0 where
  pub sent_at_ms : ℕ
  pub amount_nano_xor : ℕ
  pub tx_hash_hex : Option Str

pub record PaymentAckFrame : Type 0 where
  pub received_at_ms : ℕ
  pub amount_nano_xor : ℕ
  pub total_paid_nano_xor : ℕ
  pub total_billed_nano_xor : ℕ
