-- ===== src/Client/Epochs/Events.antt =====
-- One event, and the sequence numbers and epochs of the session
-- (crates/kaigi-linux-client/src/lib.rs: `reduce_frame`, `reduce`).
use sora_kaigi.Base.{if-both, refl, arith}
use sora_kaigi.Base.Ints.{ℤ, ≤ℤ_refl, max_ℤ-ge_left}
use sora_kaigi.Client.Model.{ProtocolSessionState}
use sora_kaigi.Client.Frames.{ProtocolFrame, ProtocolEvent}
use sora_kaigi.Client.Reducer.{reduce_frame}
use sora_kaigi.Client.Session.{transport_lost, reduce}
use sora_kaigi.Client.Epochs.{
  IsLater, IsLater-refl, current-IsLater, payment-IsLater, e2ee-IsLater, policy_reject-IsLater,
  authorized-IsLater, counters-IsLater, snapshot-IsLater, presence-IsLater, policy-IsLater,
}

reduce_frame-IsLater :
    (s : ProtocolSessionState) (frame : ProtocolFrame) (now : ℤ)
    → IsLater s (reduce_frame s frame now)
unfolding reduce_frame
reduce_frame-IsLater s (ProtocolFrame.handshake_ack _ _ _) now =
    current-IsLater s _ (refl, refl, refl, refl)
reduce_frame-IsLater s (ProtocolFrame.participant_presence_delta joined left changes n) now =
    presence-IsLater s joined left changes n now
reduce_frame-IsLater s (ProtocolFrame.role_grant _ _ _ _ _) now =
    authorized-IsLater s now _ _ _ _ _ (current-IsLater s _ (refl, refl, refl, refl))
reduce_frame-IsLater s (ProtocolFrame.role_revoke _ _ _ _ _) now =
    authorized-IsLater s now _ _ _ _ _ (current-IsLater s _ (refl, refl, refl, refl))
reduce_frame-IsLater s (ProtocolFrame.permissions_snapshot id permissions epoch) now =
    snapshot-IsLater s id permissions epoch now
reduce_frame-IsLater s (ProtocolFrame.moderation_signed _ _ _ _ _) now =
    authorized-IsLater s now _ _ _ _ _ (current-IsLater s _ (refl, refl, refl, refl))
reduce_frame-IsLater s (ProtocolFrame.session_policy lock wait rec guests e2ee most epoch _ _ _)
      now =
    let next : ProtocolSessionState = record s {
      room_locked = lock;
      waiting_room_enabled = wait;
      recording_notice = rec;
      guest_policy = guests;
      e2ee_required = e2ee;
      max_participants = most;
      policy_epoch = epoch;
    } in
    authorized-IsLater s now _ _ _ _ _ (
      policy-IsLater s next now λ new.
        counters-IsLater s now next (≤ℤ_refl s.presence_sequence) (ground arith)
          (≤ℤ_refl s.e2ee_state.current_epoch) (≤ℤ_refl s.e2ee_state.last_ack_epoch) refl)
reduce_frame-IsLater s (ProtocolFrame.media_profile_negotiation _ _ _ _ _) now =
    current-IsLater s _ (refl, refl, refl, refl)
reduce_frame-IsLater s (ProtocolFrame.recording_notice _ _) now =
    current-IsLater s _ (refl, refl, refl, refl)
reduce_frame-IsLater s (ProtocolFrame.e2ee_key_epoch epoch _ _ _) now =
    let keyed = e2ee-IsLater s _ now (
      counters-IsLater s now _ (≤ℤ_refl s.presence_sequence) (≤ℤ_refl s.policy_epoch)
        (max_ℤ-ge_left s.e2ee_state.current_epoch epoch) (≤ℤ_refl s.e2ee_state.last_ack_epoch)
        refl) in
    if-both (IsLater s) _ (policy_reject-IsLater s s now (IsLater-refl s) _ _) keyed
reduce_frame-IsLater s (ProtocolFrame.key_rotation_ack epoch _ _) now =
    counters-IsLater s now _ (≤ℤ_refl s.presence_sequence) (≤ℤ_refl s.policy_epoch)
      (≤ℤ_refl s.e2ee_state.current_epoch) (max_ℤ-ge_left s.e2ee_state.last_ack_epoch epoch) refl
reduce_frame-IsLater s (ProtocolFrame.payment_policy _ _) now =
    payment-IsLater s _ now (current-IsLater s _ (refl, refl, refl, refl))
reduce_frame-IsLater s (ProtocolFrame.payment_settlement _) now =
    payment-IsLater s _ now (current-IsLater s _ (refl, refl, refl, refl))
reduce_frame-IsLater s (ProtocolFrame.error _ _ _) now =
    current-IsLater s _ (refl, refl, refl, refl)
reduce_frame-IsLater s (ProtocolFrame.handshake _ _ _ _ _ _ _ _ _) now = IsLater-refl s
reduce_frame-IsLater s (ProtocolFrame.device_capability _ _ _ _ _ _) now = IsLater-refl s
reduce_frame-IsLater s (ProtocolFrame.ping _) now = IsLater-refl s
reduce_frame-IsLater s (ProtocolFrame.pong _) now = IsLater-refl s

pub reduce-IsLater :
    (s : ProtocolSessionState) (event : ProtocolEvent) (now : ℤ) → IsLater s (reduce s event now)
unfolding reduce transport_lost
reduce-IsLater s (ProtocolEvent.frame_received frame) now = reduce_frame-IsLater s frame now
reduce-IsLater s (ProtocolEvent.config_updated _) now =
    payment-IsLater s _ now (current-IsLater s _ (refl, refl, refl, refl))
reduce-IsLater s _ now = current-IsLater s _ (refl, refl, refl, refl)
