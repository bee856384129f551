-- ===== src/Client/Decode/Session.antt =====
-- Reading the frames of the session, its media and its errors
-- (crates/kaigi-linux-client/src/lib.rs: `decode_frame`).
use sora_kaigi.Base.{true, false, Option, some, [], ◌∷◌, opt_or}
use sora_kaigi.Base.Text.{lit}
use sora_kaigi.Base.Ints.{pos}
use sora_kaigi.Client.Model.{Participant, RoleChange}
use sora_kaigi.Client.Frames.{ProtocolFrame}
use sora_kaigi.Client.Json.{
  Value, Fields, Decoded, decoded, ◌>>=◌, and_then, as_object, value_as_str, payload_or_root,
  require_string, get_string, get_bool, get_i64, get_i32, get_array, filter_map,
}
use sora_kaigi.Client.Words.{
  parse_session_error_category, parse_participant_role, parse_media_profile, parse_recording_state,
}

unfoldable pub parse_participant : Value → Option Participant
unfolding get_string get_bool
parse_participant value = and_then (as_object value) λ obj.
    and_then (get_string obj (lit "id" ∷ [])) λ id. some (record {
      id = id;
      display_name = opt_or (get_string obj (lit "display_name" ∷ lit "displayName" ∷ [])) id;
      role = parse_participant_role (get_string obj (lit "role" ∷ []));
      muted = opt_or (get_bool obj (lit "muted" ∷ [])) false;
      video_enabled = opt_or (get_bool obj (lit "video_enabled" ∷ lit "videoEnabled" ∷ [])) true;
      share_enabled = opt_or (get_bool obj (lit "share_enabled" ∷ lit "shareEnabled" ∷ [])) true;
      waiting_room = opt_or (get_bool obj (lit "waiting_room" ∷ lit "waitingRoom" ∷ [])) false;
    })

unfoldable pub parse_role_change : Value → Option RoleChange
unfolding get_string
parse_role_change value = and_then (as_object value) λ obj.
    and_then
      (get_string obj (lit "participant_id" ∷ lit "participantId" ∷ lit "participantID" ∷ []))
      λ id. some (record {
        participant_id = id;
        role = parse_participant_role (get_string obj (lit "role" ∷ []));
      })

unfoldable pub decode_handshake : Fields → Decoded ProtocolFrame
unfolding payload_or_root require_string get_string get_bool get_i64
decode_handshake root =
    let obj = payload_or_root root (lit "handshake" ∷ []) in
    do
      room_id ←
          require_string obj (lit "room_id" ∷ lit "roomId" ∷ lit "roomID" ∷ [])
            (lit "handshake.room_id")
      participant_id ←
          require_string obj (lit "participant_id" ∷ lit "participantId" ∷ lit "participantID" ∷ [])
            (lit "handshake.participant_id")
      participant_name ←
          require_string obj (lit "participant_name" ∷ lit "participantName" ∷ [])
            (lit "handshake.participant_name")
      decoded (
          ProtocolFrame.handshake room_id participant_id participant_name
            (get_string obj (lit "wallet_identity" ∷ lit "walletIdentity" ∷ []))
            (get_string obj (lit "resume_token" ∷ lit "resumeToken" ∷ []))
            (parse_media_profile
              (get_string obj (lit "preferred_profile" ∷ lit "preferredProfile" ∷ [])))
            (opt_or (get_bool obj (lit "hdr_capture" ∷ lit "hdrCapture" ∷ [])) false)
            (opt_or (get_bool obj (lit "hdr_render" ∷ lit "hdrRender" ∷ [])) false)
            (opt_or (get_i64 obj (lit "sent_at_ms" ∷ lit "sentAtMs" ∷ [])) (pos 0)))

unfoldable pub decode_handshake_ack : Fields → Decoded ProtocolFrame
unfolding payload_or_root require_string get_i64
decode_handshake_ack root =
    let obj = payload_or_root root (lit "handshakeAck" ∷ lit "handshake_ack" ∷ []) in
    do
      session_id ←
          require_string obj (lit "session_id" ∷ lit "sessionId" ∷ lit "sessionID" ∷ [])
            (lit "handshakeAck.session_id")
      resume_token ←
          require_string obj (lit "resume_token" ∷ lit "resumeToken" ∷ [])
            (lit "handshakeAck.resume_token")
      decoded (
          ProtocolFrame.handshake_ack session_id resume_token
            (opt_or (get_i64 obj (lit "accepted_at_ms" ∷ lit "acceptedAtMs" ∷ [])) (pos 0)))

unfoldable pub decode_participant_presence_delta : Fields → Decoded ProtocolFrame
unfolding payload_or_root get_i64 get_array
decode_participant_presence_delta root =
    let obj = payload_or_root root (
      lit "presenceDelta"
      ∷ lit "participantPresenceDelta"
      ∷ lit "participant_presence_delta"
      ∷ []) in
    decoded (
      ProtocolFrame.participant_presence_delta
        (filter_map parse_participant (get_array obj (lit "joined" ∷ [])))
        (filter_map value_as_str (get_array obj (lit "left" ∷ [])))
        (filter_map parse_role_change (get_array obj (lit "role_changes" ∷ lit "roleChanges" ∷ [])))
        (opt_or (get_i64 obj (lit "sequence" ∷ [])) (pos 0)))

unfoldable pub decode_device_capability : Fields → Decoded ProtocolFrame
unfolding payload_or_root require_string get_bool get_i64 get_i32 get_array
decode_device_capability root =
    let obj = payload_or_root root (lit "deviceCapability" ∷ lit "device_capability" ∷ []) in
    do
      participant_id ←
          require_string obj (lit "participant_id" ∷ lit "participantId" ∷ lit "participantID" ∷ [])
            (lit "deviceCapability.participant_id")
      decoded (
          ProtocolFrame.device_capability participant_id
            (filter_map value_as_str (get_array obj (lit "codecs" ∷ [])))
            (opt_or (get_bool obj (lit "hdr_capture" ∷ lit "hdrCapture" ∷ [])) false)
            (opt_or (get_bool obj (lit "hdr_render" ∷ lit "hdrRender" ∷ [])) false)
            (opt_or (get_i32 obj (lit "max_streams" ∷ lit "maxStreams" ∷ [])) (pos 1))
            (opt_or (get_i64 obj (lit "updated_at_ms" ∷ lit "updatedAtMs" ∷ [])) (pos 0)))

unfoldable pub decode_media_profile_negotiation : Fields → Decoded ProtocolFrame
unfolding payload_or_root get_string
decode_media_profile_negotiation root =
    let obj =
      payload_or_root root (lit "mediaProfileNegotiation" ∷ lit "media_profile_negotiation" ∷ []) in
    decoded (
      ProtocolFrame.media_profile_negotiation
        (parse_media_profile
          (get_string obj (lit "preferred_profile" ∷ lit "preferredProfile" ∷ [])))
        (parse_media_profile
          (get_string obj (lit "negotiated_profile" ∷ lit "negotiatedProfile" ∷ [])))
        (opt_or (get_string obj (lit "color_primaries" ∷ lit "colorPrimaries" ∷ [])) (lit "bt709"))
        (opt_or (get_string obj (lit "transfer_function" ∷ lit "transferFunction" ∷ []))
          (lit "gamma"))
        (opt_or (get_string obj (lit "codec" ∷ [])) (lit "h264")))

unfoldable pub decode_recording_notice : Fields → Decoded ProtocolFrame
unfolding payload_or_root get_string get_i64
decode_recording_notice root =
    let obj = payload_or_root root (lit "recordingNotice" ∷ lit "recording_notice" ∷ []) in
    decoded (
      ProtocolFrame.recording_notice (parse_recording_state (get_string obj (lit "state" ∷ [])))
        (opt_or (get_i64 obj (lit "issued_at_ms" ∷ lit "issuedAtMs" ∷ [])) (pos 0)))

unfoldable pub decode_ping : Fields → Decoded ProtocolFrame
unfolding payload_or_root get_i64
decode_ping root =
    let obj = payload_or_root root (lit "ping" ∷ []) in
    decoded
      (ProtocolFrame.ping (opt_or (get_i64 obj (lit "sent_at_ms" ∷ lit "sentAtMs" ∷ [])) (pos 0)))

unfoldable pub decode_pong : Fields → Decoded ProtocolFrame
unfolding payload_or_root get_i64
decode_pong root =
    let obj = payload_or_root root (lit "pong" ∷ []) in
    decoded
      (ProtocolFrame.pong (opt_or (get_i64 obj (lit "sent_at_ms" ∷ lit "sentAtMs" ∷ [])) (pos 0)))

unfoldable pub decode_error : Fields → Decoded ProtocolFrame
unfolding payload_or_root get_string
decode_error root =
    let obj = payload_or_root root (lit "error" ∷ []) in
    decoded (
      ProtocolFrame.error (parse_session_error_category (get_string obj (lit "category" ∷ [])))
        (opt_or (get_string obj (lit "code" ∷ [])) (lit "error"))
        (opt_or (get_string obj (lit "message" ∷ [])) (lit "unknown")))
