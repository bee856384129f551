-- ===== src/Client/Roundtrip.antt =====
-- Writing a frame and reading it (crates/kaigi-linux-client/src/lib.rs: `encode_frame`,
-- `decode_frame`).
mod Words
use sora_kaigi.Base.{Bool, true, Option, none, some, List, [], ◌∷◌, ◌≡◌, refl, ap, str_beq, arith}
use sora_kaigi.Base.Text.{Str, lit}
use sora_kaigi.Base.Ints.{ℤ, is_i64, is_i32}
use sora_kaigi.Client.Model.{
  SessionErrorCategory, ParticipantRole, Participant, RoleChange, ModerationAction, MediaProfile,
  RecordingState, GuestPolicy, PaymentSettlementStatus,
}
use sora_kaigi.Client.Frames.{ProtocolFrame}
use sora_kaigi.Client.Json.{
  Value, bool, int, str, Decoded, decoded, bool_of, int_of, filter_map, member, value_as_str,
  get_string, get_bool,
}
use sora_kaigi.Client.Words.{
  parse_session_error_category, parse_participant_role, parse_moderation_action,
  parse_media_profile, parse_recording_state, parse_guest_policy, parse_payment_settlement_status,
}
use sora_kaigi.Client.Decode.{
  parse_participant, parse_role_change, decode_value, decode_frame, decode_handshake,
  decode_handshake_ack, decode_participant_presence_delta, decode_role_grant, decode_role_revoke,
  decode_permissions_snapshot, decode_moderation_signed, decode_session_policy,
  decode_device_capability, decode_media_profile_negotiation, decode_recording_notice,
  decode_e2ee_key_epoch, decode_key_rotation_ack, decode_payment_policy, decode_payment_settlement,
  decode_error, decode_ping, decode_pong,
}
use sora_kaigi.Client.Encode.{
  category_word, role_word, action_word, profile_word, recording_word, guest_word, status_word,
  items, optional, encode_participant, encode_role_change, encode_value, encode_frame,
}
use sora_kaigi.Client.Roundtrip.Words.{
  int_of-int, bool_of-bool, i64_of_i32, role-word, category-word, action-word, profile-word,
  recording-word, guest-word, status-word, filter_map-items,
}

participant-back : (p : Participant) → parse_participant (encode_participant p) ≡ some p
unfolding parse_participant encode_participant lit str_beq get_string get_bool member bool_of
participant-back p = rw (role-word p.role) refl

role_change-back : (c : RoleChange) → parse_role_change (encode_role_change c) ≡ some c
unfolding parse_role_change encode_role_change lit str_beq get_string member
role_change-back c = rw (role-word c.role) refl

optional-back : (o : Option Str) → value_as_str (optional o) ≡ o
optional-back none = refl
optional-back (some s) = refl

strings-back : (xs : List Str) → filter_map value_as_str (items str xs) ≡ xs
strings-back xs = filter_map-items value_as_str str (λ s. refl) xs

-- The integers of a frame are of their types.
abbrev pub IsInRange : ProtocolFrame → Type 0
IsInRange (ProtocolFrame.handshake _ _ _ _ _ _ _ _ sent_at_ms) = is_i64 sent_at_ms ≡ true
IsInRange (ProtocolFrame.handshake_ack _ _ accepted_at_ms) = is_i64 accepted_at_ms ≡ true
IsInRange (ProtocolFrame.participant_presence_delta _ _ _ sequence) = is_i64 sequence ≡ true
IsInRange (ProtocolFrame.role_grant _ _ _ _ issued_at_ms) = is_i64 issued_at_ms ≡ true
IsInRange (ProtocolFrame.role_revoke _ _ _ _ issued_at_ms) = is_i64 issued_at_ms ≡ true
IsInRange (ProtocolFrame.permissions_snapshot _ _ epoch) = is_i32 epoch ≡ true
IsInRange (ProtocolFrame.moderation_signed _ _ _ _ sent_at_ms) = is_i64 sent_at_ms ≡ true
IsInRange (ProtocolFrame.session_policy _ _ _ _ _ most epoch _ _ updated_at_ms) =
    (is_i64 updated_at_ms ≡ true) × (is_i32 most ≡ true) × (is_i32 epoch ≡ true)
IsInRange (ProtocolFrame.device_capability _ _ _ _ streams updated_at_ms) =
    (is_i64 updated_at_ms ≡ true) × (is_i32 streams ≡ true)
IsInRange (ProtocolFrame.media_profile_negotiation _ _ _ _ _) = Unit {0}
IsInRange (ProtocolFrame.recording_notice _ issued_at_ms) = is_i64 issued_at_ms ≡ true
IsInRange (ProtocolFrame.e2ee_key_epoch epoch _ _ sent_at_ms) =
    (is_i64 sent_at_ms ≡ true) × (is_i32 epoch ≡ true)
IsInRange (ProtocolFrame.key_rotation_ack epoch _ sent_at_ms) =
    (is_i64 sent_at_ms ≡ true) × (is_i32 epoch ≡ true)
IsInRange (ProtocolFrame.payment_policy _ _) = Unit {0}
IsInRange (ProtocolFrame.payment_settlement _) = Unit {0}
IsInRange (ProtocolFrame.error _ _ _) = Unit {0}
IsInRange (ProtocolFrame.ping sent_at_ms) = is_i64 sent_at_ms ≡ true
IsInRange (ProtocolFrame.pong sent_at_ms) = is_i64 sent_at_ms ≡ true

pub decode_value-encode_value :
    (frame : ProtocolFrame) → IsInRange frame → decode_value (encode_value frame) ≡ decoded frame
unfolding decode_value encode_value lit str_beq bool_of decode_handshake decode_handshake_ack
    decode_participant_presence_delta decode_role_grant decode_role_revoke
    decode_permissions_snapshot decode_moderation_signed decode_session_policy
    decode_device_capability decode_media_profile_negotiation decode_recording_notice
    decode_e2ee_key_epoch decode_key_rotation_ack decode_payment_policy decode_payment_settlement
    decode_error decode_ping decode_pong
decode_value-encode_value
      (ProtocolFrame.handshake room_id participant_id participant_name wallet resume profile capture
        render sent_at_ms)
      h =
    rw (optional-back wallet, optional-back resume, profile-word profile, int_of-int sent_at_ms h)
      refl
decode_value-encode_value (ProtocolFrame.handshake_ack session_id resume_token accepted_at_ms) h =
    rw (int_of-int accepted_at_ms h) refl
decode_value-encode_value
      (ProtocolFrame.participant_presence_delta joined left role_changes sequence) h =
    rw
      (
        filter_map-items parse_participant encode_participant participant-back joined,
        strings-back left,
        filter_map-items parse_role_change encode_role_change role_change-back role_changes,
        int_of-int sequence h,
      )
      refl
decode_value-encode_value (ProtocolFrame.role_grant target role granted_by signature issued_at_ms)
      h =
    rw (role-word role, optional-back signature, int_of-int issued_at_ms h) refl
decode_value-encode_value (ProtocolFrame.role_revoke target role revoked_by signature issued_at_ms)
      h =
    rw (role-word role, optional-back signature, int_of-int issued_at_ms h) refl
decode_value-encode_value (ProtocolFrame.permissions_snapshot participant_id permissions epoch) h =
    rw (strings-back permissions, int_of-int epoch (i64_of_i32 epoch h), h) refl
decode_value-encode_value
      (ProtocolFrame.moderation_signed target action issued_by signature sent_at_ms) h =
    rw (action-word action, optional-back signature, int_of-int sent_at_ms h) refl
decode_value-encode_value
      (ProtocolFrame.session_policy lock waiting recording guests e2ee most epoch updated_by
        signature updated_at_ms)
      h =
    rw
      (
        recording-word recording,
        guest-word guests,
        optional-back signature,
        int_of-int updated_at_ms h.0,
        int_of-int most (i64_of_i32 most h.1),
        h.1,
        int_of-int epoch (i64_of_i32 epoch h.2),
        h.2,
      )
      refl
decode_value-encode_value
      (ProtocolFrame.device_capability participant_id codecs capture render streams updated_at_ms)
      h =
    rw
      (
        strings-back codecs,
        int_of-int updated_at_ms h.0,
        int_of-int streams (i64_of_i32 streams h.1),
        h.1,
      )
      refl
decode_value-encode_value
      (ProtocolFrame.media_profile_negotiation preferred negotiated primaries transfer codec) h =
    rw (profile-word preferred, profile-word negotiated) refl
decode_value-encode_value (ProtocolFrame.recording_notice state issued_at_ms) h =
    rw (recording-word state, int_of-int issued_at_ms h) refl
decode_value-encode_value (ProtocolFrame.e2ee_key_epoch epoch issued_by signature sent_at_ms) h =
    rw
      (
        optional-back signature,
        int_of-int sent_at_ms h.0,
        int_of-int epoch (i64_of_i32 epoch h.1),
        h.1,
      )
      refl
decode_value-encode_value (ProtocolFrame.key_rotation_ack epoch participant_id sent_at_ms) h =
    rw (int_of-int sent_at_ms h.0, int_of-int epoch (i64_of_i32 epoch h.1), h.1) refl
decode_value-encode_value (ProtocolFrame.payment_policy required destination) h =
    rw (optional-back destination) refl
decode_value-encode_value (ProtocolFrame.payment_settlement status) h = rw (status-word status) refl
decode_value-encode_value (ProtocolFrame.error category code message) h =
    rw (category-word category) refl
decode_value-encode_value (ProtocolFrame.ping sent_at_ms) h = rw (int_of-int sent_at_ms h) refl
decode_value-encode_value (ProtocolFrame.pong sent_at_ms) h = rw (int_of-int sent_at_ms h) refl

-- A frame whose integers are of their types is read back as it was written, by a JSON library that
-- reads back what it printed for this frame.
pub decode_frame-encode_frame :
    (print : Value → Str) (parse : Str → Decoded Value) (frame : ProtocolFrame)
    → parse (print (encode_value frame)) ≡ decoded (encode_value frame)
    → IsInRange frame
    → decode_frame parse (encode_frame print frame) ≡ decoded frame
unfolding decode_frame encode_frame
decode_frame-encode_frame print parse frame back h = rw back (decode_value-encode_value frame h)
