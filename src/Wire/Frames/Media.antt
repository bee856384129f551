-- ===== src/Wire/Frames/Media.antt =====
-- Frames (crates/kaigi-wire/src/lib.rs): capabilities, tracks, segments, profiles.
-- Unsigned integers are natural numbers; a width other than 64 bits is noted.
use sora_kaigi.Base.{ℕ, Bool, List}
use sora_kaigi.Base.Text.{Str}

pub data MediaTrackKind : Type 0 where
  camera : MediaTrackKind
  screen_share : MediaTrackKind

pub data VideoCodecKind : Type 0 where
  norito_baseline : VideoCodecKind

pub data AudioCodecKind : Type 0 where
  norito_native : AudioCodecKind

pub record MediaCapabilityFrame : Type 0 where
  pub reported_at_ms : ℕ
  pub participant_id : Str
  pub max_video_width : ℕ  -- u16
  pub max_video_height : ℕ  -- u16
  pub max_video_fps : ℕ  -- u8
  pub video_codecs : List VideoCodecKind
  pub audio_codecs : List AudioCodecKind
  pub audio_sample_rate : ℕ  -- u32
  pub audio_channels : ℕ  -- u8

pub record MediaTrackStateFrame : Type 0 where
  pub updated_at_ms : ℕ
  pub participant_id : Str
  pub mic_enabled : Bool
  pub camera_enabled : Bool
  pub screen_share_enabled : Bool
  pub active_video_track : MediaTrackKind

pub record VideoSegmentFrame : Type 0 where
  pub sent_at_ms : ℕ
  pub participant_id : Str
  pub segment_number : ℕ
  pub frame_width : ℕ  -- u16
  pub frame_height : ℕ  -- u16
  pub frame_duration_ns : ℕ  -- u32
  pub payload : List ℕ  -- u8

pub record AudioPacketFrame : Type 0 where
  pub sent_at_ms : ℕ
  pub participant_id : Str
  pub sequence : ℕ
  pub sample_rate : ℕ  -- u32
  pub channels : ℕ  -- u8
  pub frame_samples : ℕ  -- u16
  pub payload : List ℕ  -- u8

pub record DeviceCapabilityFrame : Type 0 where
  pub reported_at_ms : ℕ
  pub participant_id : Str
  pub codecs : List Str
  pub hdr_capture : Bool
  pub hdr_render : Bool
  pub max_video_streams : ℕ  -- u16

pub data MediaProfileKind : Type 0 where
  sdr : MediaProfileKind
  hdr : MediaProfileKind

pub record MediaProfileNegotiationFrame : Type 0 where
  pub at_ms : ℕ
  pub participant_id : Str
  pub requested_profile : MediaProfileKind
  pub negotiated_profile : MediaProfileKind
  pub codec : Str
  pub epoch : ℕ
