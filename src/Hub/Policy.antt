-- ===== src/Hub/Policy.antt =====
-- The host's settings and the participants' keys in a transparent room
-- (crates/kaigi-hub-echo/src/main.rs): `apply_session_policy_update` and the locked sections of the
-- `SessionPolicy`, `RoomConfigUpdate`, `E2EEKeyEpoch` and `KeyRotationAck` handlers. The test of
-- `room_is_anonymous`, which the source makes under a lock of its own, opens each section.
pub mod Settlement
pub mod Epochs
use sora_kaigi.Base.{
  ℕ, Bool, true, false, not, ◌&&◌, ◌||◌, Option, none, some, List, [], ◌∷◌, ◌++◌, get, insert, max,
  opt_or, first_some, leb, ltb, nat_beq, str_beq, nat_eq, sat_add_u64, if◌then◌else◌, map,
}
use sora_kaigi.Base.Text.{Str, lit, is_blank, show_nat}
use sora_kaigi.Base.Results.{Res, ok, err, ◌>>=◌, ◌>>◌, ok_or, refuse}
use sora_kaigi.Wire.Frames.{
  SessionPolicyFrame, RoomConfigUpdateFrame, E2eeKeyEpochFrame, KeyRotationAckFrame,
}
use sora_kaigi.Hub.State.{FrameOutcome, Crypto, ConnId, Participant, ParticipantState, RoomState}
use sora_kaigi.Hub.Clock.{enforce_signed_action_clock}
use sora_kaigi.Hub.Hex.{
  is_valid_hex_len, session_policy_signature_is_valid, e2ee_public_key_is_valid,
  e2ee_signature_is_valid,
}
use sora_kaigi.Hub.Handles.{reason_if}
use sora_kaigi.Hub.Roles.{is_host, can_manage_roles_and_policy}
use sora_kaigi.Hub.Billing.{advance_billing, normalize_rate_for_policy}
use sora_kaigi.Hub.Sharing.{e2ee_epoch}

-- The checks of a policy update, in their order.
unfoldable pub session_policy_error : Crypto → RoomState → ConnId → SessionPolicyFrame → Option Str
session_policy_error crypto room sender_conn_id update =
    elim (get room.participants sender_conn_id) [
      | none ↦ some (lit "participant missing")
      | some sender ↦
          first_some (reason_if (not sender.state.hello_seen) (lit "send Hello first")) (
            first_some
              (reason_if (not (can_manage_roles_and_policy room sender_conn_id)) (lit "host only"))
              (first_some
                (reason_if (not (str_beq sender.state.participant_id update.updated_by))
                  (lit "updated_by must match sender participant_id"))
                (first_some
                  (reason_if (not (is_valid_hex_len crypto update.signature_hex 32))
                    (lit "signature_hex must be 32-byte hex"))
                  (first_some
                    (reason_if (not (session_policy_signature_is_valid crypto update))
                      (lit "signature_hex failed session_policy verification"))
                    (first_some
                      (reason_if (leb update.policy_epoch room.policy_epoch) (
                        lit "policy_epoch must increase: current="
                        ++ (show_nat room.policy_epoch
                            ++ (lit " got=" ++ show_nat update.policy_epoch))))
                      (reason_if (nat_beq update.max_participants 0)
                        (lit "max_participants must be >= 1")))))))
    ]

abbrev pub with_policy : RoomState → SessionPolicyFrame → RoomState
with_policy room update = record room {
  room_lock = update.room_lock;
  waiting_room_enabled = update.waiting_room_enabled;
  guest_join_allowed = update.guest_join_allowed;
  local_recording_allowed = update.local_recording_allowed;
  e2ee_required = update.e2ee_required;
  max_participants = update.max_participants;
  policy_epoch = update.policy_epoch;
  policy_updated_at_ms = update.updated_at_ms;
  policy_updated_by = update.updated_by;
  policy_signature_hex = update.signature_hex;
  permissions_epoch = sat_add_u64 room.permissions_epoch 1;
}

unfoldable pub apply_session_policy_update :
    Crypto → RoomState → ConnId → SessionPolicyFrame → Res RoomState
unfolding session_policy_error
apply_session_policy_update crypto room sender_conn_id update =
    elim (session_policy_error crypto room sender_conn_id update) [
      | some e ↦ err e
      | none ↦
          elim (enforce_signed_action_clock room (lit "session_policy") update.updated_by
            (lit "updated_at_ms") update.updated_at_ms) [
              | err e ↦ err e
              | ok clocked ↦ ok (with_policy clocked update)
            ]
    ]

abbrev pub billed_to : ℕ → ℕ → Participant → Participant
billed_to rate now p = record p { state = advance_billing p.state rate now }

-- `for participant in room.participants.values_mut() { advance_billing(..) }`.
unfoldable pub advance_all : ℕ → ℕ → List (ConnId × Participant) → List (ConnId × Participant)
advance_all rate now [] = []
advance_all rate now ((k, p) ∷ m) = (k, billed_to rate now p) ∷ advance_all rate now m

pub data ConfigOutcome : Type 0 where
  ignored : ConfigOutcome
  refused : Str → ConfigOutcome
  updated : Bool → Bool → ConfigOutcome  -- rejected_zero_rate, changed

abbrev pub new_rate : RoomState → Bool → Option ℕ → ℕ
new_rate room allow_free_calls none = room.rate_per_minute_nano
new_rate room allow_free_calls (some rate) = normalize_rate_for_policy rate allow_free_calls

abbrev pub new_max : RoomState → Option ℕ → ℕ
new_max room none = room.max_screen_shares
new_max room (some share_max) = max share_max 1

abbrev asks_zero_rate : Option ℕ → Bool
asks_zero_rate none = false
asks_zero_rate (some rate) = nat_beq rate 0

unfoldable pub room_config_section :
    Bool → RoomState → ConnId → RoomConfigUpdateFrame → ℕ → RoomState × ConfigOutcome
unfolding advance_all
room_config_section allow_free_calls room conn_id update now =
    let rate = new_rate room allow_free_calls update.rate_per_minute_nano in
    let share_max = new_max room update.max_screen_shares in
    if room.anonymous_mode
    then (room, ConfigOutcome.refused (lit "anonymous mode rejects plaintext room config updates"))
    else elim (get room.participants conn_id) [
      | none ↦ (room, ConfigOutcome.ignored)
      | some sender ↦
          if not sender.state.hello_seen
          then (room, ConfigOutcome.refused (lit "send Hello first"))
          else if not (is_host room conn_id)
          then (room, ConfigOutcome.refused (lit "host only"))
          else (
            record room {
              participants = advance_all room.rate_per_minute_nano now room.participants;
              rate_per_minute_nano = rate;
              max_screen_shares = share_max;
            },
            ConfigOutcome.updated
                (asks_zero_rate update.rate_per_minute_nano && not allow_free_calls)
                (not (nat_beq room.rate_per_minute_nano rate)
                  || not (nat_beq room.max_screen_shares share_max)),
          )
    ]

abbrev own_id_error : Participant → Str → Option Str
own_id_error sender participant_id =
    first_some (reason_if (not sender.state.hello_seen) (lit "send Hello first")) (
      reason_if (not (str_beq sender.state.participant_id participant_id))
        (lit "participant_id must match sender participant_id"))

-- The end of both key handlers: the checks passed, the clock decides.
abbrev clocked_section :
    RoomState → Option Str → Res RoomState → (RoomState → RoomState) → RoomState × FrameOutcome
clocked_section room (some e) clock apply = (room, FrameOutcome.refused e)
clocked_section room none (err e) apply = (room, FrameOutcome.refused e)
clocked_section room none (ok clocked) apply = (apply clocked, FrameOutcome.broadcast)

unfoldable pub validate_e2ee_key_epoch_frame : Crypto → E2eeKeyEpochFrame → Option Str
validate_e2ee_key_epoch_frame crypto frame =
    first_some
      (reason_if (is_blank frame.participant_id)
        (lit "e2ee key epoch participant_id must be non-empty"))
      (first_some (reason_if (nat_beq frame.epoch 0) (lit "e2ee key epoch must be >= 1")) (
        first_some
          (reason_if (not (is_valid_hex_len crypto frame.public_key_hex 32))
            (lit "e2ee key epoch public_key_hex must be 32-byte hex"))
          (first_some
            (reason_if (not (is_valid_hex_len crypto frame.signature_hex 32))
              (lit "e2ee key epoch signature_hex must be 32-byte hex"))
            (first_some
              (reason_if (not (e2ee_public_key_is_valid crypto frame))
                (lit "e2ee key epoch public_key_hex failed verification"))
              (reason_if (not (e2ee_signature_is_valid crypto frame))
                (lit "e2ee key epoch signature_hex failed verification"))))))

abbrev with_e2ee_epoch : ConnId → ℕ → RoomState → RoomState
with_e2ee_epoch conn_id epoch room = record room {
  e2ee_epochs = insert room.e2ee_epochs conn_id epoch;
}

unfoldable pub e2ee_key_epoch_section :
    Crypto → RoomState → ConnId → E2eeKeyEpochFrame → RoomState × FrameOutcome
e2ee_key_epoch_section crypto room conn_id frame =
    if room.anonymous_mode
    then (room, FrameOutcome.refused (lit "anonymous mode rejects plaintext e2ee key epochs"))
    else elim (get room.participants conn_id) [
      | none ↦ (room, FrameOutcome.ignored)
      | some sender ↦
          clocked_section room
            (first_some (validate_e2ee_key_epoch_frame crypto frame) (
              first_some (own_id_error sender frame.participant_id) (
                reason_if (leb frame.epoch (e2ee_epoch room conn_id)) (
                  lit "e2ee key epoch must increase: current="
                  ++ (show_nat (e2ee_epoch room conn_id)
                      ++ (lit " got=" ++ show_nat frame.epoch))))))
            (enforce_signed_action_clock room (lit "e2ee_key_epoch") frame.participant_id
              (lit "sent_at_ms") frame.sent_at_ms)
            (with_e2ee_epoch conn_id frame.epoch)
    ]

abbrev pub acked_epoch : RoomState → ConnId → ℕ
acked_epoch room conn_id = opt_or (get room.key_rotation_ack_epochs conn_id) 0

abbrev with_acked_epoch : ConnId → ℕ → RoomState → RoomState
with_acked_epoch conn_id epoch room = record room {
  key_rotation_ack_epochs = insert room.key_rotation_ack_epochs conn_id epoch;
}

abbrev ack_error : RoomState → ConnId → ℕ → Option Str
ack_error room conn_id ack_epoch =
    let current_epoch = e2ee_epoch room conn_id in
    first_some (reason_if (nat_beq ack_epoch 0) (lit "ack_epoch must be >= 1")) (
      first_some
        (reason_if (nat_beq current_epoch 0 || ltb current_epoch ack_epoch) (
          lit "ack_epoch exceeds sender key epoch: sender_epoch="
          ++ (show_nat current_epoch ++ (lit " ack_epoch=" ++ show_nat ack_epoch))))
        (reason_if (leb ack_epoch (acked_epoch room conn_id)) (
          lit "ack_epoch must increase: last="
          ++ (show_nat (acked_epoch room conn_id)
              ++ (lit " got=" ++ (show_nat ack_epoch ++ lit " (stale/replay rejected)"))))))

unfoldable pub key_rotation_ack_section :
    RoomState → ConnId → KeyRotationAckFrame → RoomState × FrameOutcome
key_rotation_ack_section room conn_id ack =
    if room.anonymous_mode
    then (room, FrameOutcome.refused (lit "anonymous mode rejects plaintext key rotation acks"))
    else elim (get room.participants conn_id) [
      | none ↦ (room, FrameOutcome.ignored)
      | some sender ↦
          clocked_section room
            (first_some (own_id_error sender ack.participant_id)
              (ack_error room conn_id ack.ack_epoch))
            (enforce_signed_action_clock room (lit "key_rotation_ack") ack.participant_id
              (lit "received_at_ms") ack.received_at_ms)
            (with_acked_epoch conn_id ack.ack_epoch)
    ]
