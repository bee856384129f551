-- ===== src/Client/Encode.antt =====
-- Writing a frame as a JSON value (crates/kaigi-linux-client/src/lib.rs: `encode_frame`, and the
-- serde attributes of `ProtocolFrame` and of what it holds): the tag `kind` in camel case first,
-- then the fields under their own names; variants of other enumerations in snake case, and an
-- absent value as null.
use sora_kaigi.Base.{Option, none, some, List, [], ◌∷◌}
use sora_kaigi.Base.Text.{Str, lit}
use sora_kaigi.Client.Model.{
  SessionErrorCategory, ParticipantRole, Participant, RoleChange, ModerationAction, MediaProfile,
  RecordingState, GuestPolicy, PaymentSettlementStatus,
}
use sora_kaigi.Client.Frames.{ProtocolFrame}
use sora_kaigi.Client.Json.{
  Value, null, bool, int, str, array, object, Items, nil, cons, Fields, end, field,
}

unfoldable pub category_word : SessionErrorCategory → Str
category_word SessionErrorCategory.protocol_failure = lit "protocol_failure"
category_word SessionErrorCategory.policy_failure = lit "policy_failure"
category_word SessionErrorCategory.transport_failure = lit "transport_failure"

unfoldable pub role_word : ParticipantRole → Str
role_word ParticipantRole.host = lit "host"
role_word ParticipantRole.co_host = lit "co_host"
role_word ParticipantRole.participant = lit "participant"
role_word ParticipantRole.guest = lit "guest"

unfoldable pub action_word : ModerationAction → Str
action_word ModerationAction.mute = lit "mute"
action_word ModerationAction.video_off = lit "video_off"
action_word ModerationAction.stop_share = lit "stop_share"
action_word ModerationAction.kick = lit "kick"
action_word ModerationAction.admit_from_waiting = lit "admit_from_waiting"
action_word ModerationAction.deny_from_waiting = lit "deny_from_waiting"

unfoldable pub profile_word : MediaProfile → Str
profile_word MediaProfile.sdr = lit "sdr"
profile_word MediaProfile.hdr = lit "hdr"

unfoldable pub recording_word : RecordingState → Str
recording_word RecordingState.stopped = lit "stopped"
recording_word RecordingState.started = lit "started"

unfoldable pub guest_word : GuestPolicy → Str
guest_word GuestPolicy.open_to_all = lit "open"
guest_word GuestPolicy.invite_only = lit "invite_only"
guest_word GuestPolicy.blocked = lit "blocked"

unfoldable pub status_word : PaymentSettlementStatus → Str
status_word PaymentSettlementStatus.not_required = lit "not_required"
status_word PaymentSettlementStatus.pending = lit "pending"
status_word PaymentSettlementStatus.settled = lit "settled"
status_word PaymentSettlementStatus.blocked = lit "blocked"

abbrev pub optional : Option Str → Value
optional none = null
optional (some s) = str s

unfoldable pub items {ℓ} : {A : Type ℓ} → (A → Value) → List A → Items
items f [] = nil
items f (a ∷ rest) = cons (f a) (items f rest)

-- The fields, in order.
abbrev pub fields : List (Str × Value) → Fields
fields [] = end
fields ((k, v) ∷ rest) = field k v (fields rest)

unfoldable pub encode_participant : Participant → Value
encode_participant p = object (
    fields (
      (lit "id", str p.id)
      ∷ (lit "display_name", str p.display_name)
      ∷ (lit "role", str (role_word p.role))
      ∷ (lit "muted", bool p.muted)
      ∷ (lit "video_enabled", bool p.video_enabled)
      ∷ (lit "share_enabled", bool p.share_enabled)
      ∷ (lit "waiting_room", bool p.waiting_room)
      ∷ []))

unfoldable pub encode_role_change : RoleChange → Value
encode_role_change c = object (
    fields
      ((lit "participant_id", str c.participant_id) ∷ (lit "role", str (role_word c.role)) ∷ []))

-- An internally tagged variant.
abbrev pub tagged : Str → List (Str × Value) → Value
tagged kind rest = object (field (lit "kind") (str kind) (fields rest))

unfoldable pub encode_value : ProtocolFrame → Value
unfolding items encode_participant encode_role_change
encode_value
      (ProtocolFrame.handshake room_id participant_id participant_name wallet resume profile capture
        render sent_at_ms) =
    tagged (lit "handshake") (
      (lit "room_id", str room_id)
      ∷ (lit "participant_id", str participant_id)
      ∷ (lit "participant_name", str participant_name)
      ∷ (lit "wallet_identity", optional wallet)
      ∷ (lit "resume_token", optional resume)
      ∷ (lit "preferred_profile", str (profile_word profile))
      ∷ (lit "hdr_capture", bool capture)
      ∷ (lit "hdr_render", bool render)
      ∷ (lit "sent_at_ms", int sent_at_ms)
      ∷ [])
encode_value (ProtocolFrame.handshake_ack session_id resume_token accepted_at_ms) =
    tagged (lit "handshakeAck") (
      (lit "session_id", str session_id)
      ∷ (lit "resume_token", str resume_token)
      ∷ (lit "accepted_at_ms", int accepted_at_ms)
      ∷ [])
encode_value (ProtocolFrame.participant_presence_delta joined left role_changes sequence) =
    tagged (lit "participantPresenceDelta") (
      (lit "joined", array (items encode_participant joined))
      ∷ (lit "left", array (items str left))
      ∷ (lit "role_changes", array (items encode_role_change role_changes))
      ∷ (lit "sequence", int sequence)
      ∷ [])
encode_value (ProtocolFrame.role_grant target role granted_by signature issued_at_ms) =
    tagged (lit "roleGrant") (
      (lit "target_participant_id", str target)
      ∷ (lit "role", str (role_word role))
      ∷ (lit "granted_by", str granted_by)
      ∷ (lit "signature", optional signature)
      ∷ (lit "issued_at_ms", int issued_at_ms)
      ∷ [])
encode_value (ProtocolFrame.role_revoke target role revoked_by signature issued_at_ms) =
    tagged (lit "roleRevoke") (
      (lit "target_participant_id", str target)
      ∷ (lit "role", str (role_word role))
      ∷ (lit "revoked_by", str revoked_by)
      ∷ (lit "signature", optional signature)
      ∷ (lit "issued_at_ms", int issued_at_ms)
      ∷ [])
encode_value (ProtocolFrame.permissions_snapshot participant_id permissions epoch) =
    tagged (lit "permissionsSnapshot") (
      (lit "participant_id", str participant_id)
      ∷ (lit "effective_permissions", array (items str permissions))
      ∷ (lit "epoch", int epoch)
      ∷ [])
encode_value (ProtocolFrame.moderation_signed target action issued_by signature sent_at_ms) =
    tagged (lit "moderationSigned") (
      (lit "target_participant_id", str target)
      ∷ (lit "action", str (action_word action))
      ∷ (lit "issued_by", str issued_by)
      ∷ (lit "signature", optional signature)
      ∷ (lit "sent_at_ms", int sent_at_ms)
      ∷ [])
encode_value
      (ProtocolFrame.session_policy lock waiting recording guests e2ee most epoch updated_by
        signature updated_at_ms) =
    tagged (lit "sessionPolicy") (
      (lit "room_lock", bool lock)
      ∷ (lit "waiting_room_enabled", bool waiting)
      ∷ (lit "recording_policy", str (recording_word recording))
      ∷ (lit "guest_policy", str (guest_word guests))
      ∷ (lit "e2ee_required", bool e2ee)
      ∷ (lit "max_participants", int most)
      ∷ (lit "policy_epoch", int epoch)
      ∷ (lit "updated_by", str updated_by)
      ∷ (lit "signature", optional signature)
      ∷ (lit "updated_at_ms", int updated_at_ms)
      ∷ [])
encode_value
      (ProtocolFrame.device_capability participant_id codecs capture render streams updated_at_ms) =
    tagged (lit "deviceCapability") (
      (lit "participant_id", str participant_id)
      ∷ (lit "codecs", array (items str codecs))
      ∷ (lit "hdr_capture", bool capture)
      ∷ (lit "hdr_render", bool render)
      ∷ (lit "max_streams", int streams)
      ∷ (lit "updated_at_ms", int updated_at_ms)
      ∷ [])
encode_value
      (ProtocolFrame.media_profile_negotiation preferred negotiated primaries transfer codec) =
    tagged (lit "mediaProfileNegotiation") (
      (lit "preferred_profile", str (profile_word preferred))
      ∷ (lit "negotiated_profile", str (profile_word negotiated))
      ∷ (lit "color_primaries", str primaries)
      ∷ (lit "transfer_function", str transfer)
      ∷ (lit "codec", str codec)
      ∷ [])
encode_value (ProtocolFrame.recording_notice state issued_at_ms) =
    tagged (lit "recordingNotice")
      ((lit "state", str (recording_word state)) ∷ (lit "issued_at_ms", int issued_at_ms) ∷ [])
encode_value (ProtocolFrame.e2ee_key_epoch epoch issued_by signature sent_at_ms) =
    tagged (lit "e2eeKeyEpoch") (
      (lit "epoch", int epoch)
      ∷ (lit "issued_by", str issued_by)
      ∷ (lit "signature", optional signature)
      ∷ (lit "sent_at_ms", int sent_at_ms)
      ∷ [])
encode_value (ProtocolFrame.key_rotation_ack epoch participant_id sent_at_ms) =
    tagged (lit "keyRotationAck") (
      (lit "ack_epoch", int epoch)
      ∷ (lit "participant_id", str participant_id)
      ∷ (lit "sent_at_ms", int sent_at_ms)
      ∷ [])
encode_value (ProtocolFrame.payment_policy required destination) =
    tagged (lit "paymentPolicy")
      ((lit "required", bool required) ∷ (lit "destination_account", optional destination) ∷ [])
encode_value (ProtocolFrame.payment_settlement status) =
    tagged (lit "paymentSettlement") ((lit "status", str (status_word status)) ∷ [])
encode_value (ProtocolFrame.error category code message) = tagged (lit "error") (
    (lit "category", str (category_word category))
    ∷ (lit "code", str code)
    ∷ (lit "message", str message)
    ∷ [])
encode_value (ProtocolFrame.ping sent_at_ms) =
    tagged (lit "ping") ((lit "sent_at_ms", int sent_at_ms) ∷ [])
encode_value (ProtocolFrame.pong sent_at_ms) =
    tagged (lit "pong") ((lit "sent_at_ms", int sent_at_ms) ∷ [])

-- `print` is `serde_json::to_string` on a value, which does not fail.
unfoldable pub encode_frame : (Value → Str) → ProtocolFrame → Str
unfolding encode_value
encode_frame print frame = print (encode_value frame)
