-- ===== src/Hub/Policy/Epochs.antt =====
-- The epochs of policies and keys (crates/kaigi-hub-echo/src/main.rs).
use sora_kaigi.Base.{◌≤◌, ◌<◌, ◌≡◌, true, u64_max, get-insert, nat_beq_iff, nat_eq, arith}
use sora_kaigi.Base.Results.{ok}
use sora_kaigi.Wire.Frames.{SessionPolicyFrame, E2eeKeyEpochFrame, KeyRotationAckFrame}
use sora_kaigi.Hub.State.{FrameOutcome, Crypto, ConnId, RoomState}
use sora_kaigi.Hub.Clock.{enforce_signed_action_clock}
use sora_kaigi.Hub.Roles.{is_host, can_manage_roles_and_policy}
use sora_kaigi.Hub.Sharing.{e2ee_epoch}
use sora_kaigi.Hub.Policy.{
  session_policy_error, apply_session_policy_update, e2ee_key_epoch_section,
  key_rotation_ack_section, acked_epoch,
}

-- The room `after` with the policy, the permissions epoch and the clock of `room`.
abbrev pub unpoliced : RoomState → RoomState → RoomState
unpoliced room after = record after {
  room_lock = room.room_lock;
  waiting_room_enabled = room.waiting_room_enabled;
  guest_join_allowed = room.guest_join_allowed;
  local_recording_allowed = room.local_recording_allowed;
  e2ee_required = room.e2ee_required;
  max_participants = room.max_participants;
  policy_epoch = room.policy_epoch;
  policy_updated_at_ms = room.policy_updated_at_ms;
  policy_updated_by = room.policy_updated_by;
  policy_signature_hex = room.policy_signature_hex;
  permissions_epoch = room.permissions_epoch;
  signed_action_clock_by_signer = room.signed_action_clock_by_signer;
}

-- An accepted policy comes from the host under a higher epoch, leaves room for someone, and is in
-- force as it was sent, its time and signature included. But for the policy, the permissions epoch
-- and the clock of signed actions the room is as it was: nobody's place or role has changed, and
-- neither has an id that holds a role.
abbrev pub IsInForce : RoomState → ConnId → SessionPolicyFrame → RoomState → Type 0
IsInForce room sender update after =
    (is_host room sender ≡ true)
    × (room.policy_epoch < after.policy_epoch)
    × (1 ≤ after.max_participants)
    × (after.policy_epoch ≡ update.policy_epoch)
    × (after.max_participants ≡ update.max_participants)
    × (after.room_lock ≡ update.room_lock)
    × (after.waiting_room_enabled ≡ update.waiting_room_enabled)
    × (after.guest_join_allowed ≡ update.guest_join_allowed)
    × (after.local_recording_allowed ≡ update.local_recording_allowed)
    × (after.e2ee_required ≡ update.e2ee_required)
    × (after.policy_updated_at_ms ≡ update.updated_at_ms)
    × (after.policy_updated_by ≡ update.updated_by)
    × (after.policy_signature_hex ≡ update.signature_hex)
    × (room.permissions_epoch ≤ u64_max → room.permissions_epoch ≤ after.permissions_epoch)
    × (unpoliced room after ≡ room)

-- An accepted policy update is in force: it comes from the host, its epoch is higher than the
-- last, it leaves room for someone, the policy is as sent, time, author and signature included, and
-- nothing else of the room changes but the permissions epoch, which does not fall while it fits
-- u64, and the clock of signed actions.
pub apply_session_policy_update-IsInForce :
    (crypto : Crypto) (room : RoomState) (sender : ConnId) (update : SessionPolicyFrame)
    (after : RoomState)
    → apply_session_policy_update crypto room sender update ≡ ok after
    → IsInForce room sender update after
unfolding apply_session_policy_update session_policy_error enforce_signed_action_clock
    can_manage_roles_and_policy
apply_session_policy_update-IsInForce crypto room sender update after h = ground arith

-- No participant has acknowledged a later key epoch than its own.
abbrev pub HasHonestAcks : RoomState → Type 0
HasHonestAcks room = (c : ConnId) → acked_epoch room c ≤ e2ee_epoch room c

e2ee_key_epoch_section_lem :
    (crypto : Crypto) (room : RoomState) (conn_id : ConnId) (frame : E2eeKeyEpochFrame) (c : ConnId)
    → let after = (e2ee_key_epoch_section crypto room conn_id frame).0 in
      (e2ee_epoch room c ≤ e2ee_epoch after c) × (acked_epoch after c ≡ acked_epoch room c)
unfolding e2ee_key_epoch_section enforce_signed_action_clock
e2ee_key_epoch_section_lem crypto room conn_id frame c =
    ground (arith, get-insert room.e2ee_epochs conn_id frame.epoch c, nat_beq_iff conn_id c)

-- A published key epoch keeps the acknowledgements honest, and no participant's epoch falls.
pub e2ee_key_epoch_section-HasHonestAcks :
    (crypto : Crypto) (room : RoomState) (conn_id : ConnId) (frame : E2eeKeyEpochFrame)
    → HasHonestAcks room
    → let after = (e2ee_key_epoch_section crypto room conn_id frame).0 in
      HasHonestAcks after × ((c : ConnId) → e2ee_epoch room c ≤ e2ee_epoch after c)
e2ee_key_epoch_section-HasHonestAcks crypto room conn_id frame h = (
  λ c. ground (arith, h c, e2ee_key_epoch_section_lem crypto room conn_id frame c),
  λ c. (e2ee_key_epoch_section_lem crypto room conn_id frame c).0,
)

-- An acknowledgement keeps the acknowledgements honest, whether it is accepted or not; one that is
-- accepted is of an epoch that its sender has published and has not acknowledged before.
pub key_rotation_ack_section-HasHonestAcks :
    (room : RoomState) (conn_id : ConnId) (ack : KeyRotationAckFrame)
    → HasHonestAcks room
    → HasHonestAcks (key_rotation_ack_section room conn_id ack).0
      × ((key_rotation_ack_section room conn_id ack).1 ≡ FrameOutcome.broadcast
          → (acked_epoch room conn_id < ack.ack_epoch) × (ack.ack_epoch ≤ e2ee_epoch room conn_id))
unfolding key_rotation_ack_section enforce_signed_action_clock
key_rotation_ack_section-HasHonestAcks room conn_id ack h = (
  λ c. ground (
    arith,
    h c,
    get-insert room.key_rotation_ack_epochs conn_id ack.ack_epoch c,
    nat_beq_iff conn_id c,
  ),
  λ accepted. ground arith,
)
