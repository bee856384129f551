-- ===== src/Hub/GroupKeys.antt =====
-- Members of an anonymous room at work (crates/kaigi-hub-echo/src/main.rs): the locked sections of
-- the `GroupKeyUpdate`, `EncryptedControl` and `EscrowProof` handlers.
pub mod Epochs
pub mod Delivery
use sora_kaigi.Base.{
  ℕ, Bool, true, false, not, ◌&&◌, ◌||◌, Option, none, some, List, [], ◌∷◌, ◌++◌, get, any,
  is_some_of, first_some, ltb, nat_beq, str_beq, nat_eq, str_eq, if◌then◌else◌,
}
use sora_kaigi.Base.Text.{Str, lit, show_nat}
use sora_kaigi.Base.Results.{Res, ok, err}
use sora_kaigi.Wire.Frames.{
  GroupKeyUpdateFrame, EncryptedControlFrame, EncryptedRecipientPayload, EscrowProofFrame,
  EscrowAckFrame,
}
use sora_kaigi.Hub.State.{FrameOutcome, Crypto, ConnId, Participant, ParticipantState, RoomState}
use sora_kaigi.Hub.Handles.{
  validate_group_key_update_frame, validate_encrypted_control_frame,
  validate_encrypted_control_epoch, validate_escrow_proof_frame, validate_escrow_id_consistency,
}
use sora_kaigi.Hub.Admission.{with_participant}
use sora_kaigi.Hub.Anonymous.{is_anonymous_member}

unfoldable pub should_apply_group_key_update : ℕ → Option Str → ℕ → Str → Res Bool
should_apply_group_key_update current_epoch current_pubkey_hex update_epoch update_pubkey_hex =
    if nat_beq update_epoch 0
    then err (lit "group key epoch must be >= 1")
    else if ltb update_epoch current_epoch
    then err (
        lit "group key epoch is stale: current_epoch="
        ++ (show_nat current_epoch ++ (lit " update_epoch=" ++ show_nat update_epoch)))
    else if nat_beq update_epoch current_epoch
    then (if is_some_of current_pubkey_hex update_pubkey_hex
        then ok false
        else err (lit "group key rotation requires strictly increasing epoch for this sender"))
    else ok true

abbrev pub with_key : ParticipantState → GroupKeyUpdateFrame → ParticipantState
with_key state update = record state {
  x25519_pubkey_hex = some update.x25519_pubkey_hex;
  x25519_epoch = update.epoch;
}

-- The sender's new state, if the update applies.
unfoldable pub group_key_update :
    ParticipantState → GroupKeyUpdateFrame → Res (Option ParticipantState)
unfolding should_apply_group_key_update
group_key_update state update =
    if not state.hello_seen || not state.anonymous_mode
    then err (lit "send AnonHello first")
    else if not (is_some_of state.participant_handle update.participant_handle)
    then err (lit "group key sender handle does not match connection")
    else elim (should_apply_group_key_update state.x25519_epoch state.x25519_pubkey_hex update.epoch
        update.x25519_pubkey_hex) [
          | err e ↦ err e
          | ok applies ↦ if applies then ok (some (with_key state update)) else ok none
        ]

abbrev pub roster_has : RoomState → Str → Bool
roster_has room handle =
    any (λ e. is_anonymous_member e.1 && is_some_of e.1.state.participant_handle handle)
      room.participants

unfoldable pub validate_encrypted_control_room_recipients :
    List EncryptedRecipientPayload → RoomState → Option Str
validate_encrypted_control_room_recipients [] room = none
validate_encrypted_control_room_recipients (payload ∷ rest) room =
    let later = validate_encrypted_control_room_recipients rest room in
    if not (roster_has room payload.recipient_handle)
    then some
        (lit "encrypted recipient handle is not in anonymous roster: " ++ payload.recipient_handle)
    else later

-- The three checks that follow those on the frame and on the sender's hello.
abbrev sender_error : RoomState → ParticipantState → EncryptedControlFrame → Option Str
sender_error room state enc =
    if not (is_some_of state.participant_handle enc.sender_handle)
    then some (lit "encrypted sender handle does not match connection")
    else first_some (validate_encrypted_control_epoch enc.epoch state.x25519_epoch)
        (validate_encrypted_control_room_recipients enc.payloads room)

abbrev outcome_of : Option Str → FrameOutcome
outcome_of none = FrameOutcome.broadcast
outcome_of (some reason) = FrameOutcome.refused reason

abbrev pub proven : ParticipantState → EscrowProofFrame → ℕ → ParticipantState
proven state proof now = record state {
  last_escrow_proof_at_ms = some now;
  escrow_id = first_some state.escrow_id (some proof.escrow_id);
}

abbrev escrow_ack : EscrowProofFrame → Bool → Option Str → ℕ → EscrowAckFrame
escrow_ack proof accepted reason received_at_ms = record {
  received_at_ms = received_at_ms;
  escrow_id = proof.escrow_id;
  accepted = accepted;
  reason = reason;
}

module _ (crypto : Crypto) where
  unfoldable pub group_key_section :
      RoomState → ConnId → GroupKeyUpdateFrame → RoomState × FrameOutcome
  group_key_section room conn_id update =
      if not room.anonymous_mode
      then (room, FrameOutcome.refused (lit "group key updates require anonymous room mode"))
      else elim (validate_group_key_update_frame crypto update) [
        | some validation_err ↦ (room, FrameOutcome.refused validation_err)
        | none ↦ elim (get room.participants conn_id) [
          | none ↦ (room, FrameOutcome.ignored)
          | some p ↦ elim (group_key_update p.state update) [
            | err e ↦ (room, FrameOutcome.refused e)
            | ok none ↦ (room, FrameOutcome.ignored)
            | ok (some state) ↦
                (with_participant room conn_id (record p { state = state }), FrameOutcome.broadcast)
          ]
        ]
      ]

  -- This section only reads the room.
  unfoldable pub encrypted_control_section :
      RoomState → ConnId → EncryptedControlFrame → FrameOutcome
  encrypted_control_section room conn_id enc =
      if not room.anonymous_mode
      then FrameOutcome.refused (lit "encrypted control frames require anonymous room mode")
      else elim (validate_encrypted_control_frame crypto enc) [
        | some validation_err ↦ FrameOutcome.refused validation_err
        | none ↦ elim (get room.participants conn_id) [
          | none ↦ FrameOutcome.ignored
          | some p ↦
              if not p.state.hello_seen || not p.state.anonymous_mode
              then FrameOutcome.refused (lit "send AnonHello first")
              else outcome_of (sender_error room p.state enc)
        ]
      ]

  -- The reason for which an escrow proof is not accepted.
  unfoldable pub escrow_error : RoomState → ParticipantState → EscrowProofFrame → Option Str
  escrow_error room state proof =
      if not room.anonymous_mode || not state.anonymous_mode
      then some (lit "escrow proofs require anonymous room mode")
      else if not state.hello_seen
      then some (lit "send AnonHello first")
      else if not (is_some_of state.participant_handle proof.payer_handle)
      then some (lit "escrow proof payer handle does not match connection")
      else first_some (validate_escrow_proof_frame crypto proof)
          (validate_escrow_id_consistency state.escrow_id proof.escrow_id)

  -- The room and the acknowledgement to the sender, none to a connection that is gone.
  unfoldable pub escrow_proof_section :
      RoomState → ConnId → EscrowProofFrame → ℕ → ℕ → RoomState × Option EscrowAckFrame
  escrow_proof_section room conn_id proof now received_at_ms =
      elim (get room.participants conn_id) [
        | none ↦ (room, none)
        | some p ↦ elim (escrow_error room p.state proof) [
          | some reason ↦ (room, some (escrow_ack proof false (some reason) received_at_ms))
          | none ↦ (
            with_participant room conn_id (record p { state = proven p.state proof now }),
            some (escrow_ack proof true none received_at_ms),
          )
        ]
      ]
