-- ===== src/Client/Words.antt =====
-- The words of the wire for the client's enumerations (crates/kaigi-linux-client/src/lib.rs:
-- `parse_session_error_category` to `parse_payment_settlement_status`, `canonical_kind`).
use sora_kaigi.Base.{◌||◌, Option, str_beq, opt_or, if◌then◌else◌}
use sora_kaigi.Base.Text.{Str, lit}
use sora_kaigi.Client.Model.{
  SessionErrorCategory, ParticipantRole, ModerationAction, MediaProfile, RecordingState,
  GuestPolicy, PaymentSettlementStatus,
}

unfoldable pub parse_session_error_category : Option Str → SessionErrorCategory
parse_session_error_category raw =
    let word = opt_or raw (lit "protocol_failure") in
    if str_beq word (lit "policyFailure") || str_beq word (lit "policy_failure")
    then SessionErrorCategory.policy_failure
    else if str_beq word (lit "transportFailure") || str_beq word (lit "transport_failure")
    then SessionErrorCategory.transport_failure
    else SessionErrorCategory.protocol_failure

unfoldable pub parse_participant_role : Option Str → ParticipantRole
parse_participant_role raw =
    let word = opt_or raw (lit "participant") in
    if str_beq word (lit "host")
    then ParticipantRole.host
    else if str_beq word (lit "coHost") || str_beq word (lit "co_host")
    then ParticipantRole.co_host
    else if str_beq word (lit "guest")
    then ParticipantRole.guest
    else ParticipantRole.participant

unfoldable pub parse_moderation_action : Option Str → ModerationAction
parse_moderation_action raw =
    let word = opt_or raw (lit "mute") in
    if str_beq word (lit "videoOff") || str_beq word (lit "video_off")
    then ModerationAction.video_off
    else if str_beq word (lit "stopShare") || str_beq word (lit "stop_share")
    then ModerationAction.stop_share
    else if str_beq word (lit "kick")
    then ModerationAction.kick
    else if str_beq word (lit "admitFromWaiting") || str_beq word (lit "admit_from_waiting")
    then ModerationAction.admit_from_waiting
    else if str_beq word (lit "denyFromWaiting") || str_beq word (lit "deny_from_waiting")
    then ModerationAction.deny_from_waiting
    else ModerationAction.mute

unfoldable pub parse_media_profile : Option Str → MediaProfile
parse_media_profile raw =
    if str_beq (opt_or raw (lit "sdr")) (lit "hdr") then MediaProfile.hdr else MediaProfile.sdr

unfoldable pub parse_recording_state : Option Str → RecordingState
parse_recording_state raw =
    if str_beq (opt_or raw (lit "stopped")) (lit "started")
    then RecordingState.started
    else RecordingState.stopped

unfoldable pub parse_guest_policy : Option Str → GuestPolicy
parse_guest_policy raw =
    let word = opt_or raw (lit "open") in
    if str_beq word (lit "inviteOnly") || str_beq word (lit "invite_only")
    then GuestPolicy.invite_only
    else if str_beq word (lit "blocked")
    then GuestPolicy.blocked
    else GuestPolicy.open_to_all

unfoldable pub parse_payment_settlement_status : Option Str → PaymentSettlementStatus
parse_payment_settlement_status raw =
    let word = opt_or raw (lit "not_required") in
    if str_beq word (lit "pending")
    then PaymentSettlementStatus.pending
    else if str_beq word (lit "settled")
    then PaymentSettlementStatus.settled
    else if str_beq word (lit "blocked")
    then PaymentSettlementStatus.blocked
    else PaymentSettlementStatus.not_required

unfoldable pub canonical_kind : Str → Str
canonical_kind raw =
    if str_beq raw (lit "handshake_ack")
    then lit "handshakeAck"
    else if str_beq raw (lit "participant_presence_delta")
    then lit "participantPresenceDelta"
    else if str_beq raw (lit "role_grant")
    then lit "roleGrant"
    else if str_beq raw (lit "role_revoke")
    then lit "roleRevoke"
    else if str_beq raw (lit "permissions_snapshot")
    then lit "permissionsSnapshot"
    else if str_beq raw (lit "moderation_signed")
    then lit "moderationSigned"
    else if str_beq raw (lit "session_policy")
    then lit "sessionPolicy"
    else if str_beq raw (lit "device_capability")
    then lit "deviceCapability"
    else if str_beq raw (lit "media_profile_negotiation")
    then lit "mediaProfileNegotiation"
    else if str_beq raw (lit "recording_notice")
    then lit "recordingNotice"
    else if str_beq raw (lit "e2ee_key_epoch")
    then lit "e2eeKeyEpoch"
    else if str_beq raw (lit "key_rotation_ack")
    then lit "keyRotationAck"
    else if str_beq raw (lit "payment_policy")
    then lit "paymentPolicy"
    else if str_beq raw (lit "payment_settlement")
    then lit "paymentSettlement"
    else raw
