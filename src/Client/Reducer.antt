-- ===== src/Client/Reducer.antt =====
-- How a frame changes the session (crates/kaigi-linux-client/src/lib.rs: `reduce_frame`).
use sora_kaigi.Base.{
  Bool, true, false, not, ◌&&◌, Option, none, some, get, insert, str_eq, if◌then◌else◌,
}
use sora_kaigi.Base.Text.{Str, lit}
use sora_kaigi.Base.Ints.{ℤ, ltb_ℤ, leb_ℤ, max_ℤ}
use sora_kaigi.Client.Model.{
  ConnectionPhase, MediaProfile, PermissionSnapshot, PaymentSettlementStatus, ProtocolSessionState,
}
use sora_kaigi.Client.Frames.{ProtocolFrame}
use sora_kaigi.Client.Participants.{
  change, join_all, leave_all, change_roles, moderated, with_role, without_role,
}
use sora_kaigi.Client.Policy.{
  has_required_signature, actor_is_authorized, policy_reject, enforce_payment_settlement_policy,
  enforce_e2ee_epoch_policy, is_policy_failure,
}

abbrev pub is_newer : Option PermissionSnapshot → ℤ → Bool
is_newer none epoch = true
is_newer (some snapshot) epoch = ltb_ℤ snapshot.epoch epoch

abbrev pub is_downgrade : MediaProfile → MediaProfile → Bool
is_downgrade MediaProfile.hdr MediaProfile.sdr = true
is_downgrade MediaProfile.hdr MediaProfile.hdr = false
is_downgrade MediaProfile.sdr negotiated = false

-- The checks of a signed frame, before what it does when they pass.
unfoldable pub authorized :
    ProtocolSessionState
    → ℤ
    → Option Str
    → Str
    → (Str × Str)
    → (Str × Str)
    → ProtocolSessionState
    → ProtocolSessionState
authorized state now_ms signature issuer unsigned unauthorized next =
    if not (has_required_signature signature state)
    then policy_reject state now_ms unsigned.0 unsigned.1
    else if not (actor_is_authorized issuer state)
    then policy_reject state now_ms unauthorized.0 unauthorized.1
    else next

unfoldable pub reduce_frame : ProtocolSessionState → ProtocolFrame → ℤ → ProtocolSessionState
unfolding authorized change join_all leave_all change_roles moderated
reduce_frame state (ProtocolFrame.handshake_ack session_id resume_token accepted_at_ms) now_ms =
    record state {
      handshake_complete = true;
      resume_token = some resume_token;
      connection_phase =
          if state.fallback.active
          then ConnectionPhase.fallback_active
          else ConnectionPhase.connected;
      last_error = none;
    }
reduce_frame state (ProtocolFrame.participant_presence_delta joined left role_changes sequence)
      now_ms =
    if leb_ℤ sequence state.presence_sequence then state else record state {
      participants =
          change_roles (leave_all (join_all state.participants joined) left) role_changes;
      presence_sequence = sequence;
    }
reduce_frame state
      (ProtocolFrame.role_grant target_participant_id role granted_by signature issued_at_ms)
      now_ms =
    authorized state now_ms signature granted_by
      (lit "role_grant_signature_missing", lit "RoleGrant signature is required")
      (lit "role_grant_not_authorized", lit "RoleGrant issuer is not host/co-host")
      (record state {
        participants = change state.participants target_participant_id (with_role role);
      })
reduce_frame state
      (ProtocolFrame.role_revoke target_participant_id role revoked_by signature issued_at_ms)
      now_ms =
    authorized state now_ms signature revoked_by
      (lit "role_revoke_signature_missing", lit "RoleRevoke signature is required")
      (lit "role_revoke_not_authorized", lit "RoleRevoke issuer is not host/co-host")
      (record state {
        participants = change state.participants target_participant_id (without_role role);
      })
reduce_frame state (ProtocolFrame.permissions_snapshot participant_id effective_permissions epoch)
      now_ms =
    if is_newer (get state.permission_snapshots participant_id) epoch
    then record state {
      permission_snapshots =
          insert state.permission_snapshots participant_id
            (record { effective_permissions = effective_permissions; epoch = epoch });
    }
    else state
reduce_frame state
      (ProtocolFrame.moderation_signed target_participant_id action issued_by signature sent_at_ms)
      now_ms =
    authorized state now_ms signature issued_by
      (lit "moderation_signature_missing", lit "Moderation signature is required")
      (lit "moderation_not_authorized", lit "Moderation issuer is not host/co-host")
      (record state { participants = moderated state.participants target_participant_id action })
reduce_frame state
      (ProtocolFrame.session_policy room_lock waiting_room_enabled recording_policy guest_policy
        e2ee_required max_participants policy_epoch updated_by signature updated_at_ms)
      now_ms =
    authorized state now_ms signature updated_by
      (lit "session_policy_signature_missing", lit "SessionPolicy signature is required")
      (lit "session_policy_not_authorized", lit "SessionPolicy issuer is not host/co-host")
      (if ltb_ℤ policy_epoch state.policy_epoch
        then state
        else enforce_e2ee_epoch_policy
            (record state {
              room_locked = room_lock;
              waiting_room_enabled = waiting_room_enabled;
              recording_notice = recording_policy;
              guest_policy = guest_policy;
              e2ee_required = e2ee_required;
              max_participants = max_participants;
              policy_epoch = policy_epoch;
            })
            now_ms)
reduce_frame state
      (ProtocolFrame.media_profile_negotiation preferred_profile negotiated_profile color_primaries
        transfer_function codec)
      now_ms =
    record state {
      media_profile = record {
        preferred_profile = preferred_profile;
        negotiated_profile = negotiated_profile;
        color_primaries = color_primaries;
        transfer_function = transfer_function;
        codec = codec;
      };
      connection_phase =
          if is_downgrade preferred_profile negotiated_profile
          then ConnectionPhase.degraded
          else if state.handshake_complete && not state.fallback.active
          then ConnectionPhase.connected
          else state.connection_phase;
    }
reduce_frame state (ProtocolFrame.recording_notice recording_state issued_at_ms) now_ms =
    record state { recording_notice = recording_state }
reduce_frame state (ProtocolFrame.e2ee_key_epoch epoch issued_by signature sent_at_ms) now_ms =
    if not (has_required_signature signature state)
    then policy_reject state now_ms (lit "e2ee_signature_missing")
        (lit "E2EE key epoch signature is required")
    else enforce_e2ee_epoch_policy
        (record state {
          e2ee_state = record state.e2ee_state {
            current_epoch = max_ℤ state.e2ee_state.current_epoch epoch;
          };
        })
        now_ms
reduce_frame state (ProtocolFrame.key_rotation_ack ack_epoch participant_id sent_at_ms) now_ms =
    record state {
      e2ee_state = record state.e2ee_state {
        last_ack_epoch = max_ℤ state.e2ee_state.last_ack_epoch ack_epoch;
      };
    }
reduce_frame state (ProtocolFrame.payment_policy required destination_account) now_ms =
    enforce_payment_settlement_policy
      (record state {
        payment_state = record {
          required = required;
          destination = destination_account;
          settlement_status =
              if required
              then PaymentSettlementStatus.pending
              else PaymentSettlementStatus.not_required;
        };
      })
      now_ms
reduce_frame state (ProtocolFrame.payment_settlement status) now_ms =
    enforce_payment_settlement_policy
      (record state { payment_state = record state.payment_state { settlement_status = status } })
      now_ms
reduce_frame state (ProtocolFrame.error category code message) now_ms = record state {
  connection_phase =
      if state.fallback.active
      then ConnectionPhase.fallback_active
      else if is_policy_failure category
      then ConnectionPhase.error
      else ConnectionPhase.degraded;
  last_error =
      some (record { category = category; code = code; message = message; at_ms = now_ms });
}
reduce_frame state
      (ProtocolFrame.handshake room_id participant_id participant_name wallet_identity resume_token
        preferred_profile hdr_capture hdr_render sent_at_ms)
      now_ms =
    state
reduce_frame state
      (ProtocolFrame.device_capability participant_id codecs hdr_capture hdr_render max_streams
        updated_at_ms)
      now_ms =
    state
reduce_frame state (ProtocolFrame.ping sent_at_ms) now_ms = state
reduce_frame state (ProtocolFrame.pong sent_at_ms) now_ms = state
