-- ===== src/Hub/Relay/Checks.antt =====
-- What a relayed frame must look like (crates/kaigi-hub-echo/src/main.rs: the `validate_*_frame`
-- functions and the first lines of the handlers).
use sora_kaigi.Base.{
  Bool, true, false, not, ◌&&◌, ◌||◌, Option, any, is_empty, first_some, nat_beq, str_beq, nat_eq,
  str_eq,
}
use sora_kaigi.Base.Text.{Str, lit, is_blank}
use sora_kaigi.Wire.Frames.{
  MediaCapabilityFrame, VideoSegmentFrame, AudioPacketFrame, DeviceCapabilityFrame,
  MediaProfileNegotiationFrame, RecordingState, RecordingNoticeFrame,
}
use sora_kaigi.Hub.State.{Participant, RoomState}
use sora_kaigi.Hub.Handles.{reason_if}

-- The checks on the sender that these handlers share.
unfoldable pub not_own : Participant → Str → Option Str
not_own sender participant_id =
    first_some (reason_if (not sender.state.hello_seen) (lit "send Hello first")) (
      reason_if (not (str_beq sender.state.participant_id participant_id))
        (lit "participant_id must match sender participant_id"))

unfoldable pub media_capability_error : MediaCapabilityFrame → Option Str
media_capability_error cap =
    first_some
      (reason_if
        (nat_beq cap.max_video_width 0
          || nat_beq cap.max_video_height 0
          || nat_beq cap.max_video_fps 0)
        (lit "media capability dimensions/fps must be > 0"))
      (reason_if (nat_beq cap.audio_sample_rate 0 || nat_beq cap.audio_channels 0)
        (lit "audio sample rate/channels must be > 0"))

unfoldable pub video_segment_error : VideoSegmentFrame → Option Str
video_segment_error segment =
    first_some
      (reason_if
        (nat_beq segment.frame_width 0
          || nat_beq segment.frame_height 0
          || nat_beq segment.frame_duration_ns 0)
        (lit "video segment frame_width/frame_height/frame_duration_ns must be > 0"))
      (reason_if (is_empty segment.payload) (lit "video segment payload must not be empty"))

unfoldable pub audio_packet_error : AudioPacketFrame → Option Str
audio_packet_error packet =
    first_some
      (reason_if
        (nat_beq packet.sample_rate 0
          || nat_beq packet.channels 0
          || nat_beq packet.frame_samples 0)
        (lit "audio packet sample_rate/channels/frame_samples must be > 0"))
      (reason_if (is_empty packet.payload) (lit "audio packet payload must not be empty"))

unfoldable pub validate_device_capability_frame : DeviceCapabilityFrame → Option Str
validate_device_capability_frame cap =
    first_some
      (reason_if (is_blank cap.participant_id)
        (lit "device capability participant_id must be non-empty"))
      (first_some
        (reason_if (nat_beq cap.max_video_streams 0)
          (lit "device capability max_video_streams must be >= 1"))
        (first_some
          (reason_if (is_empty cap.codecs) (lit "device capability codecs must be non-empty"))
          (reason_if (any is_blank cap.codecs)
            (lit "device capability codec entries must be non-empty"))))

unfoldable pub validate_media_profile_negotiation_frame : MediaProfileNegotiationFrame → Option Str
validate_media_profile_negotiation_frame profile =
    first_some
      (reason_if (is_blank profile.participant_id)
        (lit "media profile participant_id must be non-empty"))
      (first_some (reason_if (is_blank profile.codec) (lit "media profile codec must be non-empty"))
        (reason_if (nat_beq profile.epoch 0) (lit "media profile epoch must be >= 1")))

unfoldable pub validate_recording_notice_frame : RecordingNoticeFrame → Option Str
validate_recording_notice_frame notice =
    first_some
      (reason_if (is_blank notice.participant_id)
        (lit "recording notice participant_id must be non-empty"))
      (reason_if (is_blank notice.issued_by) (lit "recording notice issued_by must be non-empty"))

abbrev is_start : RecordingState → Bool
is_start RecordingState.started = true
is_start RecordingState.stopped = false

unfoldable pub recording_notice_error : RoomState → Participant → RecordingNoticeFrame → Option Str
recording_notice_error room sender notice = first_some (validate_recording_notice_frame notice) (
    first_some (not_own sender notice.participant_id) (
      first_some
        (reason_if (not (str_beq sender.state.participant_id notice.issued_by))
          (lit "issued_by must match sender participant_id"))
        (reason_if (is_start notice.state && not room.local_recording_allowed)
          (lit "local recording is disabled by room policy"))))
