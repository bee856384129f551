-- ===== src/Hub/Relay.antt =====
-- Frames that the hub checks and passes on in a transparent room
-- (crates/kaigi-hub-echo/src/main.rs): the handlers of chat, media, device capabilities, media
-- profiles and recording notices, and of the encrypted payloads of an anonymous room.
mod Checks
pub mod Own
unfoldable pub use Checks.*
use sora_kaigi.Base.{
  ℕ, Bool, true, false, not, ◌&&◌, ◌||◌, Option, none, some, List, [], ◌∷◌, ◌++◌, get, insert, any,
  is_empty, is_some_of, first_some, nat_beq, str_beq, nat_eq, str_eq, if◌then◌else◌,
}
use sora_kaigi.Base.Text.{Str, lit, is_blank}
use sora_kaigi.Wire.Frames.{
  KaigiFrame, ChatFrame, MediaCapabilityFrame, VideoSegmentFrame, AudioPacketFrame,
  DeviceCapabilityFrame, MediaProfileKind, MediaProfileNegotiationFrame, RecordingState,
  RecordingNoticeFrame, AnonEncryptedPayloadFrame,
}
use sora_kaigi.Hub.State.{FrameOutcome, Crypto, ConnId, Participant, RoomState}
use sora_kaigi.Hub.Hex.{is_valid_hex, is_valid_hex_len}
use sora_kaigi.Hub.Handles.{reason_if}
use sora_kaigi.Hub.Roles.{is_some_and}
use sora_kaigi.Hub.Sharing.{validate_plaintext_e2ee_gate}

abbrev is_hdr : MediaProfileKind → Bool
is_hdr MediaProfileKind.hdr = true
is_hdr MediaProfileKind.sdr = false

abbrev pub captures_hdr : RoomState → ConnId → Bool
captures_hdr room conn_id =
    is_some_and (get room.device_caps_by_conn conn_id) (λ cap. cap.hdr_capture)

abbrev pub another_renders_hdr : RoomState → ConnId → Bool
another_renders_hdr room conn_id =
    any
      (λ e.
        not (nat_beq e.0 conn_id)
        && e.1.state.hello_seen
        && is_some_and (get room.device_caps_by_conn e.0) (λ cap. cap.hdr_render))
      room.participants

unfoldable pub resolve_media_profile_negotiation :
    RoomState → ConnId → MediaProfileNegotiationFrame → MediaProfileNegotiationFrame
resolve_media_profile_negotiation room sender_conn_id profile =
    if not (is_hdr profile.negotiated_profile)
    then profile
    else if not (captures_hdr room sender_conn_id) || not (another_renders_hdr room sender_conn_id)
    then record profile { negotiated_profile = MediaProfileKind.sdr }
    else profile

abbrev passed_on : Option Str → KaigiFrame → FrameOutcome × Option KaigiFrame
passed_on none frame = (FrameOutcome.broadcast, some frame)
passed_on (some reason) frame = (FrameOutcome.refused reason, none)

-- A handler of this kind: the room is transparent, the gate is open, and the sender's connection
-- is there. The outcome comes with the frame that is passed on.
abbrev relay :
    RoomState
    → ConnId
    → Str
    → Option Str
    → (Participant → Option Str)
    → KaigiFrame
    → FrameOutcome × Option KaigiFrame
relay room conn_id anonymous_reason gate check frame =
    if room.anonymous_mode then (FrameOutcome.refused anonymous_reason, none) else elim gate [
      | some reason ↦ (FrameOutcome.refused reason, none)
      | none ↦ elim (get room.participants conn_id) [
        | none ↦ (FrameOutcome.ignored, none)
        | some sender ↦ passed_on (check sender) frame
      ]
    ]

abbrev media_reason : Str
media_reason = lit "anonymous mode requires encrypted media payloads"

unfoldable pub relay_video_segment :
    RoomState → ConnId → VideoSegmentFrame → FrameOutcome × Option KaigiFrame
relay_video_segment room conn_id segment =
    relay room conn_id media_reason (validate_plaintext_e2ee_gate room conn_id)
      (λ sender. first_some (not_own sender segment.participant_id) (video_segment_error segment))
      (KaigiFrame.video_segment segment)

unfoldable pub relay_audio_packet :
    RoomState → ConnId → AudioPacketFrame → FrameOutcome × Option KaigiFrame
relay_audio_packet room conn_id packet =
    relay room conn_id media_reason (validate_plaintext_e2ee_gate room conn_id)
      (λ sender. first_some (not_own sender packet.participant_id) (audio_packet_error packet))
      (KaigiFrame.audio_packet packet)

unfoldable pub relay_media_capability :
    RoomState → ConnId → MediaCapabilityFrame → FrameOutcome × Option KaigiFrame
relay_media_capability room conn_id cap =
    relay room conn_id (lit "anonymous mode rejects plaintext media capabilities") none
      (λ sender. first_some (not_own sender cap.participant_id) (media_capability_error cap))
      (KaigiFrame.media_capability cap)

unfoldable pub relay_media_profile :
    RoomState → ConnId → MediaProfileNegotiationFrame → FrameOutcome × Option KaigiFrame
relay_media_profile room conn_id profile =
    relay room conn_id (lit "anonymous mode rejects plaintext media profile negotiation") none
      (λ sender.
        first_some (validate_media_profile_negotiation_frame profile)
          (not_own sender profile.participant_id))
      (KaigiFrame.media_profile_negotiation
        (resolve_media_profile_negotiation room conn_id profile))

unfoldable pub relay_recording_notice :
    RoomState → ConnId → RecordingNoticeFrame → FrameOutcome × Option KaigiFrame
relay_recording_notice room conn_id notice =
    relay room conn_id (lit "anonymous mode rejects plaintext recording notices") none
      (λ sender. recording_notice_error room sender notice) (KaigiFrame.recording_notice notice)

-- The message that is passed on carries the sender's own identity and the hub's time.
unfoldable pub relay_chat : RoomState → ConnId → ChatFrame → ℕ → FrameOutcome × Option KaigiFrame
relay_chat room conn_id chat at_ms = elim (get room.participants conn_id) [
  | none ↦ (
    if room.anonymous_mode
        then FrameOutcome.refused (lit "anonymous mode requires EncryptedControl frames")
        else FrameOutcome.refused (lit "send Hello first"),
    none,
  )
  | some sender ↦
      relay room conn_id (lit "anonymous mode requires EncryptedControl frames") none
        (λ p.
          first_some (reason_if (not p.state.hello_seen) (lit "send Hello first"))
            (validate_plaintext_e2ee_gate room conn_id))
        (KaigiFrame.chat (record {
          sent_at_ms = at_ms;
          from_participant_id = sender.state.participant_id;
          from_display_name = sender.state.display_name;
          text = chat.text;
        }))
]

unfoldable pub device_capability_section :
    RoomState → ConnId → DeviceCapabilityFrame → RoomState × FrameOutcome
device_capability_section room conn_id cap =
    if room.anonymous_mode
    then (room, FrameOutcome.refused (lit "anonymous mode rejects plaintext device capabilities"))
    else elim (get room.participants conn_id) [
      | none ↦ (room, FrameOutcome.ignored)
      | some sender ↦
          elim (first_some (validate_device_capability_frame cap)
            (not_own sender cap.participant_id)) [
              | some reason ↦ (room, FrameOutcome.refused reason)
              | none ↦ (
                record room { device_caps_by_conn = insert room.device_caps_by_conn conn_id cap },
                FrameOutcome.broadcast,
              )
            ]
    ]

-- The checks on the sender of an encrypted payload.
abbrev payload_sender_error : Participant → AnonEncryptedPayloadFrame → Option Str
payload_sender_error p enc =
    if not p.state.hello_seen || not p.state.anonymous_mode
    then some (lit "send AnonHello first")
    else if not (is_some_of p.state.participant_handle enc.sender_handle)
    then some (lit "anonymous encrypted sender_handle does not match connection")
    else reason_if (nat_beq enc.epoch 0) (lit "epoch must be >= 1")

unfoldable pub relay_anon_encrypted_payload :
    Crypto → RoomState → ConnId → AnonEncryptedPayloadFrame → FrameOutcome × Option KaigiFrame
relay_anon_encrypted_payload crypto room conn_id enc =
    if not room.anonymous_mode
    then (
      FrameOutcome.refused (lit "anonymous encrypted payloads require anonymous room mode"),
      none,
    )
    else if not (is_valid_hex_len crypto enc.nonce_hex 24)
    then (FrameOutcome.refused (lit "nonce_hex must be 24-byte hex"), none)
    else if not (is_valid_hex crypto enc.ciphertext_hex)
    then (FrameOutcome.refused (lit "ciphertext_hex must be valid hex"), none)
    else elim (get room.participants conn_id) [
      | none ↦ (FrameOutcome.ignored, none)
      | some p ↦ passed_on (payload_sender_error p enc) (KaigiFrame.anon_encrypted_payload enc)
    ]
