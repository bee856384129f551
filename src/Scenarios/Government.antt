-- ===== src/Scenarios/Government.antt =====
-- Signed actions: clocks, roles, policies, keys.
use sora_kaigi.Base.{
  ℕ, ◌≤◌, ◌<◌, ◌≡◌, refl, Bool, true, false, Option, none, some, List, [], ◌∷◌, contains, IsUnique,
  arith, ltb, nat_eq, str_eq,
}
use sora_kaigi.Base.Text.{Str}
use sora_kaigi.Base.Results.{ok, ok_or_keep, is_ok}
use sora_kaigi.Wire.Frames.{
  RoleKind, RoleGrantFrame, RoleRevokeFrame, SessionPolicyFrame, E2eeKeyEpochFrame,
  KeyRotationAckFrame,
}
use sora_kaigi.Hub.State.{FrameOutcome, ConnId, Participant, RoomState}
use sora_kaigi.Hub.Clock.{enforce_signed_action_clock}
use sora_kaigi.Hub.Clock.Replay.{SignedAction, after_actions, never_replayed}
use sora_kaigi.Hub.Roles.{is_host}
use sora_kaigi.Hub.Roles.Changes.{
  find_joined, RoleMutationOutcome, apply_role_grant, apply_role_revoke,
}
use sora_kaigi.Hub.Roles.Bindings.{IsBound}
use sora_kaigi.Hub.Roles.Authority.{Granted, apply_role_grant-Granted, apply_role_revoke-revoked}
use sora_kaigi.Hub.Sharing.{e2ee_epoch}
use sora_kaigi.Hub.Policy.{
  apply_session_policy_update, e2ee_key_epoch_section, key_rotation_ack_section, acked_epoch,
}
use sora_kaigi.Hub.Policy.Epochs.{
  IsInForce, HasHonestAcks, apply_session_policy_update-IsInForce,
  e2ee_key_epoch_section-HasHonestAcks, key_rotation_ack_section-HasHonestAcks,
}
use sora_kaigi.Scenarios.Fixtures.{crypto, digest, a_id, b_id, host_and_guest}

-- The action tag `t`.
abbrev t_tag : Str
t_tag = 116 ∷ []

abbrev u_tag : Str
u_tag = 117 ∷ []

abbrev acted : RoomState
acted = record host_and_guest { signed_action_clock_by_signer = ((116 ∷ 58 ∷ 97 ∷ [], 5) ∷ []) }

a_acts : enforce_signed_action_clock host_and_guest t_tag a_id [] 5 ≡ ok acted
unfolding enforce_signed_action_clock sora_kaigi.Base.get sora_kaigi.Base.insert
a_acts = refl

abbrev between : List SignedAction
between =
    record { action_tag = t_tag; signer_id = b_id; timestamp_label = []; timestamp_ms = 9 }
    ∷ record { action_tag = t_tag; signer_id = a_id; timestamp_label = []; timestamp_ms = 6 }
    ∷ []

never_replayed_example :
    is_ok (enforce_signed_action_clock (after_actions acted between) t_tag a_id [] 5) ≡ false
never_replayed_example =
    never_replayed host_and_guest t_tag a_id [] 5 acted between [] 5 a_acts (omega arith)

abbrev nothing_changed : RoleMutationOutcome
nothing_changed = record { host_changed = false; permissions_changed = false; role_change = none }

abbrev grant_b : RoleGrantFrame
grant_b = record {
  issued_at_ms = 7;
  target_participant_id = b_id;
  role = RoleKind.co_host;
  granted_by = a_id;
  signature_hex = digest;
}

abbrev granted : RoomState × RoleMutationOutcome
granted =
    ok_or_keep (host_and_guest, nothing_changed) (apply_role_grant crypto host_and_guest 1 grant_b)

b_granted : apply_role_grant crypto host_and_guest 1 grant_b ≡ ok (granted.0, granted.1)
unfolding apply_role_grant sora_kaigi.Hub.Roles.Changes.check_role_grant sora_kaigi.Base.get
    sora_kaigi.Base.str_beq sora_kaigi.Hub.Hex.is_valid_hex_len
    sora_kaigi.Hub.Hex.role_grant_signature_is_valid sora_kaigi.Base.Text.to_ascii_lowercase
    enforce_signed_action_clock
b_granted = refl

host_and_guest-IsUnique : IsUnique host_and_guest.participants
unfolding sora_kaigi.Base.get
host_and_guest-IsUnique = (refl, (refl, tt))

apply_role_grant-Granted_example :
    (is_host host_and_guest 1 ≡ true)
    × IsBound granted.0
    × (target : ConnId) × (p : Participant) × (find_joined host_and_guest b_id ≡ some (target, p))
    × Granted host_and_guest grant_b target granted.0
apply_role_grant-Granted_example =
    apply_role_grant-Granted crypto host_and_guest 1 host_and_guest-IsUnique grant_b granted.0
      granted.1 b_granted

abbrev revoke_b : RoleRevokeFrame
revoke_b = record {
  issued_at_ms = 8;
  target_participant_id = b_id;
  role = RoleKind.co_host;
  revoked_by = a_id;
  signature_hex = digest;
}

abbrev co_hosted : RoomState
co_hosted = record host_and_guest { co_host_conn_ids = 2 ∷ []; co_host_role_owners = b_id ∷ [] }

abbrev revoked : RoomState × RoleMutationOutcome
revoked = ok_or_keep (co_hosted, nothing_changed) (apply_role_revoke crypto co_hosted 1 revoke_b)

b_revoked : apply_role_revoke crypto co_hosted 1 revoke_b ≡ ok (revoked.0, revoked.1)
unfolding apply_role_revoke sora_kaigi.Hub.Roles.Changes.check_role_revoke sora_kaigi.Base.get
    sora_kaigi.Base.str_beq sora_kaigi.Hub.Hex.is_valid_hex_len
    sora_kaigi.Hub.Hex.role_revoke_signature_is_valid sora_kaigi.Base.Text.to_ascii_lowercase
    enforce_signed_action_clock
b_revoked = refl

apply_role_revoke-revoked_example :
    (is_host co_hosted 1 ≡ true)
    × (contains revoked.0.co_host_role_owners b_id ≡ false)
    × (revoked.0.host_conn_id ≡ some 1)
    × IsBound revoked.0
apply_role_revoke-revoked_example =
    apply_role_revoke-revoked crypto co_hosted 1 host_and_guest-IsUnique revoke_b revoked.0
      revoked.1 b_revoked

abbrev locked_policy : SessionPolicyFrame
locked_policy = record {
  updated_at_ms = 9;
  room_lock = true;
  waiting_room_enabled = true;
  guest_join_allowed = false;
  local_recording_allowed = false;
  e2ee_required = true;
  max_participants = 10;
  policy_epoch = 1;
  updated_by = a_id;
  signature_hex = digest;
}

abbrev locked : RoomState
locked =
    ok_or_keep host_and_guest (apply_session_policy_update crypto host_and_guest 1 locked_policy)

policy_accepted : apply_session_policy_update crypto host_and_guest 1 locked_policy ≡ ok locked
unfolding apply_session_policy_update sora_kaigi.Base.get
    sora_kaigi.Hub.Roles.can_manage_roles_and_policy sora_kaigi.Base.str_beq
    sora_kaigi.Hub.Hex.is_valid_hex_len sora_kaigi.Hub.Hex.session_policy_signature_is_valid
    sora_kaigi.Base.Text.to_ascii_lowercase enforce_signed_action_clock
policy_accepted = refl

apply_session_policy_update-IsInForce_example : IsInForce host_and_guest 1 locked_policy locked
apply_session_policy_update-IsInForce_example =
    apply_session_policy_update-IsInForce crypto host_and_guest 1 locked_policy locked
      policy_accepted

abbrev key_of_b : E2eeKeyEpochFrame
key_of_b = record {
  sent_at_ms = 10;
  participant_id = b_id;
  epoch = 3;
  public_key_hex = digest;
  signature_hex = digest;
}

host_and_guest-HasHonestAcks : HasHonestAcks host_and_guest
host_and_guest-HasHonestAcks c = omega arith

e2ee_key_epoch_section-HasHonestAcks_example :
    let after = (e2ee_key_epoch_section crypto host_and_guest 2 key_of_b).0 in
    HasHonestAcks after × ((c : ConnId) → e2ee_epoch host_and_guest c ≤ e2ee_epoch after c)
e2ee_key_epoch_section-HasHonestAcks_example =
    e2ee_key_epoch_section-HasHonestAcks crypto host_and_guest 2 key_of_b
      host_and_guest-HasHonestAcks

abbrev keyed : RoomState
keyed = record host_and_guest { e2ee_epochs = (2, 3) ∷ [] }

keyed-HasHonestAcks : HasHonestAcks keyed
unfolding sora_kaigi.Base.get
keyed-HasHonestAcks c = omega arith

abbrev ack_of_b : KeyRotationAckFrame
ack_of_b = record { received_at_ms = 11; participant_id = b_id; ack_epoch = 3 }

key_rotation_ack_section-HasHonestAcks_example :
    HasHonestAcks (key_rotation_ack_section keyed 2 ack_of_b).0
    × ((key_rotation_ack_section keyed 2 ack_of_b).1 ≡ FrameOutcome.broadcast
        → (acked_epoch keyed 2 < 3) × (3 ≤ e2ee_epoch keyed 2))
key_rotation_ack_section-HasHonestAcks_example =
    key_rotation_ack_section-HasHonestAcks keyed 2 ack_of_b keyed-HasHonestAcks
