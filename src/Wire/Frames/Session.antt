-- ===== src/Wire/Frames/Session.antt =====
-- Frames (crates/kaigi-wire/src/lib.rs): joining, roster, chat, participant state, presence, room configuration.
-- Unsigned integers are natural numbers; a width other than 64 bits is noted.
use sora_kaigi.Base.{ℕ, Bool, Option, List}
use sora_kaigi.Base.Text.{Str}

pub record HelloFrame : Type 0 where
  pub protocol_version : ℕ  -- u16
  pub participant_id : Str
  pub display_name : Option Str
  pub mic_enabled : Bool
  pub video_enabled : Bool
  pub screen_share_enabled : Bool
  pub hdr_display : Bool
  pub hdr_capture : Bool

pub record ChatFrame : Type 0 where
  pub sent_at_ms : ℕ
  pub from_participant_id : Str
  pub from_display_name : Option Str
  pub text : Str

pub record RosterEntry : Type 0 where
  pub participant_id : Str
  pub display_name : Option Str
  pub mic_enabled : Bool
  pub video_enabled : Bool
  pub screen_share_enabled : Bool

pub record RosterFrame : Type 0 where
  pub at_ms : ℕ
  pub participants : List RosterEntry

pub record ParticipantSnapshot : Type 0 where
  pub at_ms : ℕ
  pub participant_id : Str
  pub display_name : Option Str
  pub mic_enabled : Bool
  pub video_enabled : Bool
  pub screen_share_enabled : Bool

pub record ParticipantLeftFrame : Type 0 where
  pub at_ms : ℕ
  pub participant_id : Str

pub data RoomEventFrame : Type 0 where
  joined : ParticipantSnapshot → RoomEventFrame
  left : ParticipantLeftFrame → RoomEventFrame
  state_updated : ParticipantSnapshot → RoomEventFrame

pub record ParticipantStateFrame : Type 0 where
  pub updated_at_ms : ℕ
  pub mic_enabled : Option Bool
  pub video_enabled : Option Bool
  pub screen_share_enabled : Option Bool

pub record RoomConfigFrame : Type 0 where
  pub updated_at_ms : ℕ
  pub host_participant_id : Option Str
  pub rate_per_minute_nano : ℕ
  pub billing_grace_secs : ℕ
  pub max_screen_shares : ℕ  -- u8

pub record RoomConfigUpdateFrame : Type 0 where
  pub updated_at_ms : ℕ
  pub rate_per_minute_nano : Option ℕ
  pub max_screen_shares : Option ℕ  -- u8

pub data RoleKind : Type 0 where
  host : RoleKind
  co_host : RoleKind
  participant : RoleKind

pub record RoleChangeEntry : Type 0 where
  pub participant_id : Str
  pub role : RoleKind
  pub granted : Bool

pub record ParticipantPresenceDeltaFrame : Type 0 where
  pub at_ms : ℕ
  pub sequence : ℕ
  pub joined : List ParticipantSnapshot
  pub left : List ParticipantLeftFrame
  pub role_changes : List RoleChangeEntry

pub record PingFrame : Type 0 where
  pub nonce : ℕ

pub record PongFrame : Type 0 where
  pub nonce : ℕ

pub record ErrorFrame : Type 0 where
  pub message : Str
