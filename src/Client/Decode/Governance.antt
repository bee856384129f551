-- ===== src/Client/Decode/Governance.antt =====
-- Reading the frames of roles, moderation, policy, keys and payments
-- (crates/kaigi-linux-client/src/lib.rs: `decode_frame`).
use sora_kaigi.Base.{true, false, [], ◌∷◌, opt_or}
use sora_kaigi.Base.Text.{lit}
use sora_kaigi.Base.Ints.{pos}
use sora_kaigi.Client.Frames.{ProtocolFrame}
use sora_kaigi.Client.Json.{
  Fields, Decoded, decoded, ◌>>=◌, value_as_str, payload_or_root, require_string, get_string,
  get_bool, get_i64, get_i32, get_array, filter_map,
}
use sora_kaigi.Client.Words.{
  parse_participant_role, parse_moderation_action, parse_recording_state, parse_guest_policy,
  parse_payment_settlement_status,
}

unfoldable pub decode_role_grant : Fields → Decoded ProtocolFrame
unfolding payload_or_root require_string get_string get_i64
decode_role_grant root =
    let obj = payload_or_root root (lit "roleGrant" ∷ lit "role_grant" ∷ []) in
    do
      target ←
          require_string obj
            (lit "target_participant_id"
              ∷ lit "targetParticipantId"
              ∷ lit "targetParticipantID"
              ∷ [])
            (lit "roleGrant.target_participant_id")
      decoded (
          ProtocolFrame.role_grant target
            (parse_participant_role (get_string obj (lit "role" ∷ [])))
            (opt_or (get_string obj (lit "granted_by" ∷ lit "grantedBy" ∷ [])) (lit "unknown"))
            (get_string obj (lit "signature" ∷ []))
            (opt_or (get_i64 obj (lit "issued_at_ms" ∷ lit "issuedAtMs" ∷ [])) (pos 0)))

unfoldable pub decode_role_revoke : Fields → Decoded ProtocolFrame
unfolding payload_or_root require_string get_string get_i64
decode_role_revoke root =
    let obj = payload_or_root root (lit "roleRevoke" ∷ lit "role_revoke" ∷ []) in
    do
      target ←
          require_string obj
            (lit "target_participant_id"
              ∷ lit "targetParticipantId"
              ∷ lit "targetParticipantID"
              ∷ [])
            (lit "roleRevoke.target_participant_id")
      decoded (
          ProtocolFrame.role_revoke target
            (parse_participant_role (get_string obj (lit "role" ∷ [])))
            (opt_or (get_string obj (lit "revoked_by" ∷ lit "revokedBy" ∷ [])) (lit "unknown"))
            (get_string obj (lit "signature" ∷ []))
            (opt_or (get_i64 obj (lit "issued_at_ms" ∷ lit "issuedAtMs" ∷ [])) (pos 0)))

unfoldable pub decode_permissions_snapshot : Fields → Decoded ProtocolFrame
unfolding payload_or_root require_string get_i32 get_array
decode_permissions_snapshot root =
    let obj = payload_or_root root (lit "permissionsSnapshot" ∷ lit "permissions_snapshot" ∷ []) in
    do
      participant_id ←
          require_string obj (lit "participant_id" ∷ lit "participantId" ∷ lit "participantID" ∷ [])
            (lit "permissionsSnapshot.participant_id")
      decoded (
          ProtocolFrame.permissions_snapshot participant_id
            (filter_map value_as_str
              (get_array obj (lit "effective_permissions" ∷ lit "effectivePermissions" ∷ [])))
            (opt_or (get_i32 obj (lit "epoch" ∷ [])) (pos 0)))

unfoldable pub decode_moderation_signed : Fields → Decoded ProtocolFrame
unfolding payload_or_root require_string get_string get_i64
decode_moderation_signed root =
    let obj = payload_or_root root (lit "moderationSigned" ∷ lit "moderation_signed" ∷ []) in
    do
      target ←
          require_string obj
            (lit "target_participant_id"
              ∷ lit "targetParticipantId"
              ∷ lit "targetParticipantID"
              ∷ [])
            (lit "moderationSigned.target_participant_id")
      decoded (
          ProtocolFrame.moderation_signed target
            (parse_moderation_action (get_string obj (lit "action" ∷ [])))
            (opt_or (get_string obj (lit "issued_by" ∷ lit "issuedBy" ∷ [])) (lit "unknown"))
            (get_string obj (lit "signature" ∷ []))
            (opt_or (get_i64 obj (lit "sent_at_ms" ∷ lit "sentAtMs" ∷ [])) (pos 0)))

unfoldable pub decode_session_policy : Fields → Decoded ProtocolFrame
unfolding payload_or_root get_string get_bool get_i64 get_i32 parse_guest_policy
decode_session_policy root =
    let obj = payload_or_root root (lit "sessionPolicy" ∷ lit "session_policy" ∷ []) in
    decoded (
      ProtocolFrame.session_policy
        (opt_or (get_bool obj (lit "room_lock" ∷ lit "roomLock" ∷ [])) false)
        (opt_or (get_bool obj (lit "waiting_room_enabled" ∷ lit "waitingRoomEnabled" ∷ [])) false)
        (parse_recording_state
          (get_string obj (lit "recording_policy" ∷ lit "recordingPolicy" ∷ [])))
        (parse_guest_policy (get_string obj (lit "guest_policy" ∷ lit "guestPolicy" ∷ [])))
        (opt_or (get_bool obj (lit "e2ee_required" ∷ lit "e2eeRequired" ∷ [])) true)
        (opt_or (get_i32 obj (lit "max_participants" ∷ lit "maxParticipants" ∷ [])) (pos 300))
        (opt_or (get_i32 obj (lit "policy_epoch" ∷ lit "policyEpoch" ∷ [])) (pos 0))
        (opt_or (get_string obj (lit "updated_by" ∷ lit "updatedBy" ∷ [])) (lit "system"))
        (get_string obj (lit "signature" ∷ []))
        (opt_or (get_i64 obj (lit "updated_at_ms" ∷ lit "updatedAtMs" ∷ [])) (pos 0)))

unfoldable pub decode_e2ee_key_epoch : Fields → Decoded ProtocolFrame
unfolding payload_or_root get_string get_i64 get_i32
decode_e2ee_key_epoch root =
    let obj = payload_or_root root (lit "e2eeKeyEpoch" ∷ lit "e2ee_key_epoch" ∷ []) in
    decoded (
      ProtocolFrame.e2ee_key_epoch (opt_or (get_i32 obj (lit "epoch" ∷ [])) (pos 0))
        (opt_or (get_string obj (lit "issued_by" ∷ lit "issuedBy" ∷ [])) (lit "unknown"))
        (get_string obj (lit "signature" ∷ []))
        (opt_or (get_i64 obj (lit "sent_at_ms" ∷ lit "sentAtMs" ∷ [])) (pos 0)))

unfoldable pub decode_key_rotation_ack : Fields → Decoded ProtocolFrame
unfolding payload_or_root require_string get_i64 get_i32
decode_key_rotation_ack root =
    let obj = payload_or_root root (lit "keyRotationAck" ∷ lit "key_rotation_ack" ∷ []) in
    do
      participant_id ←
          require_string obj (lit "participant_id" ∷ lit "participantId" ∷ lit "participantID" ∷ [])
            (lit "keyRotationAck.participant_id")
      decoded (
          ProtocolFrame.key_rotation_ack
            (opt_or (get_i32 obj (lit "ack_epoch" ∷ lit "ackEpoch" ∷ [])) (pos 0)) participant_id
            (opt_or
              (get_i64 obj (
                lit "sent_at_ms" ∷ lit "sentAtMs" ∷ lit "received_at_ms" ∷ lit "receivedAtMs" ∷ []))
              (pos 0)))

unfoldable pub decode_payment_policy : Fields → Decoded ProtocolFrame
unfolding payload_or_root get_string get_bool
decode_payment_policy root =
    let obj = payload_or_root root (lit "paymentPolicy" ∷ lit "payment_policy" ∷ []) in
    decoded (
      ProtocolFrame.payment_policy (opt_or (get_bool obj (lit "required" ∷ [])) false)
        (get_string obj (lit "destination_account" ∷ lit "destinationAccount" ∷ [])))

unfoldable pub decode_payment_settlement : Fields → Decoded ProtocolFrame
unfolding payload_or_root get_string
decode_payment_settlement root =
    let obj = payload_or_root root (lit "paymentSettlement" ∷ lit "payment_settlement" ∷ []) in
    decoded (
      ProtocolFrame.payment_settlement
        (parse_payment_settlement_status (get_string obj (lit "status" ∷ []))))
