-- ===== src/Scenarios/Relays.antt =====
-- Frames passed on in a transparent room.
use sora_kaigi.Base.{
  ℕ, ◌≡◌, ◌↔◌, refl, get, nat_eq, IsUnique, false, true, none, some, List, [], ◌∷◌, is_empty,
}
use sora_kaigi.Base.Text.{Str}
use sora_kaigi.Wire.Frames.{
  KaigiFrame, VideoSegmentFrame, ChatFrame, MediaProfileKind, MediaProfileNegotiationFrame,
  DeviceCapabilityFrame,
}
use sora_kaigi.Hub.State.{FrameOutcome, Participant, RoomState}
use sora_kaigi.Hub.Relay.{relay_video_segment, relay_chat, resolve_media_profile_negotiation}
use sora_kaigi.Hub.Relay.Own.{
  IsSender, AllowsHdr, relay_video_segment-IsSender, resolve_media_profile_negotiation_hdr,
}
use sora_kaigi.Scenarios.Fixtures.{a_id, b_id, host_and_guest}

abbrev segment : VideoSegmentFrame
segment = record {
  sent_at_ms = 5;
  participant_id = b_id;
  segment_number = 1;
  frame_width = 640;
  frame_height = 480;
  frame_duration_ns = 33000000;
  payload = 1 ∷ [];
}

segment_passed_on :
    relay_video_segment host_and_guest 2 segment
    ≡ (FrameOutcome.broadcast, some (KaigiFrame.video_segment segment))
unfolding relay_video_segment sora_kaigi.Hub.Sharing.validate_plaintext_e2ee_gate
    sora_kaigi.Base.get sora_kaigi.Hub.Relay.not_own sora_kaigi.Base.str_beq
    sora_kaigi.Hub.Relay.video_segment_error
segment_passed_on = refl

relay_video_segment-IsSender_example :
    (p : Participant) × IsSender host_and_guest 2 p
    × (p.state.participant_id ≡ b_id)
    × (KaigiFrame.video_segment segment ≡ KaigiFrame.video_segment segment)
    × (is_empty segment.payload ≡ false)
relay_video_segment-IsSender_example =
    relay_video_segment-IsSender host_and_guest 2 segment (KaigiFrame.video_segment segment)
      segment_passed_on

-- `b` writes under the name of `a`.
abbrev forged : ChatFrame
forged = record {
  sent_at_ms = 5;
  from_participant_id = a_id;
  from_display_name = none;
  text = 104 ∷ [];
}

abbrev own_words : KaigiFrame
own_words = KaigiFrame.chat (record {
  sent_at_ms = 6;
  from_participant_id = b_id;
  from_display_name = none;
  text = 104 ∷ [];
})

chat_passed_on : relay_chat host_and_guest 2 forged 6 ≡ (FrameOutcome.broadcast, some own_words)
unfolding relay_chat sora_kaigi.Base.get sora_kaigi.Hub.Sharing.validate_plaintext_e2ee_gate
chat_passed_on = refl

abbrev hdr_wanted : MediaProfileNegotiationFrame
hdr_wanted = record {
  at_ms = 7;
  participant_id = b_id;
  requested_profile = MediaProfileKind.hdr;
  negotiated_profile = MediaProfileKind.hdr;
  codec = 118 ∷ [];
  epoch = 1;
}

abbrev caps_of : Str → DeviceCapabilityFrame
caps_of id = record {
  reported_at_ms = 6;
  participant_id = id;
  codecs = (118 ∷ []) ∷ [];
  hdr_capture = true;
  hdr_render = true;
  max_video_streams = 4;
}

-- Both the host and `b` have reported devices that capture and render HDR.
abbrev hdr_room : RoomState
hdr_room = record host_and_guest {
  device_caps_by_conn = (1, caps_of a_id) ∷ (2, caps_of b_id) ∷ [];
}

hdr_room-IsUnique : IsUnique hdr_room.participants
unfolding get
hdr_room-IsUnique = (refl, (refl, tt))

resolve_media_profile_negotiation_hdr_example :
    let resolved = resolve_media_profile_negotiation hdr_room 2 hdr_wanted in
    ((resolved.negotiated_profile ≡ MediaProfileKind.hdr)
      ↔ ((MediaProfileKind.hdr ≡ MediaProfileKind.hdr) × AllowsHdr hdr_room 2))
    × (record resolved { negotiated_profile = MediaProfileKind.hdr } ≡ hdr_wanted)
resolve_media_profile_negotiation_hdr_example =
    resolve_media_profile_negotiation_hdr hdr_room 2 hdr_wanted hdr_room-IsUnique
