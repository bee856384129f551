-- ===== src/Scenarios/Members.antt =====
-- Anonymous rooms: two members, their keys, and what they send.
use sora_kaigi.Base.{
  ℕ, ◌≤◌, ◌<◌, ◌≡◌, ◌&&◌, refl, max, Bool, true, false, Option, none, some, List, [], ◌∷◌, get,
  arith, nat_beq_iff, IsUnique, nat_eq, count_values,
}
use sora_kaigi.Base.Text.{Str}
use sora_kaigi.Base.Results.{ok}
use sora_kaigi.Wire.Frames.{
  AnonHelloFrame, GroupKeyUpdateFrame, EncryptedControlFrame, EncryptedControlKind,
}
use sora_kaigi.Hub.State.{FrameOutcome, ParticipantState, RoomState}
use sora_kaigi.Hub.Anonymous.{is_anonymous_member, anon_hello_section, apply_anon_hello_state}
use sora_kaigi.Hub.Anonymous.Entrance.{
  HasDistinctHandles, anon_hello_section-capacity, anon_hello_section-HasDistinctHandles,
}
use sora_kaigi.Hub.GroupKeys.{group_key_update, encrypted_control_section}
use sora_kaigi.Hub.GroupKeys.Epochs.{HasKey, KeyStep, KeySteps, Later, key_of_epoch}
use sora_kaigi.Hub.GroupKeys.Delivery.{IsDeliverable, encrypted_control_section-IsDeliverable}
use sora_kaigi.Scenarios.Fixtures.{
  crypto, config, newcomer, at_conn, room_of, digest, repeat, a_id, b_id,
}

abbrev member : Str → ParticipantState
member handle = record (newcomer []) {
  anonymous_mode = true;
  hello_seen = true;
  participant_handle = some handle;
  x25519_pubkey_hex = some digest;
  x25519_epoch = 1;
}

-- One member, and a connection that has not said hello.
abbrev anonymous_room : RoomState
anonymous_room =
    record (room_of ((1, at_conn 1 (member a_id)) ∷ (2, at_conn 2 (newcomer [])) ∷ [])) {
      anonymous_mode = true;
    }

abbrev anon_hello_of : Str → AnonHelloFrame
anon_hello_of handle = record {
  protocol_version = 6;
  participant_handle = handle;
  x25519_pubkey_hex = digest;
}

anonymous_room-IsUnique : IsUnique anonymous_room.participants
unfolding get
anonymous_room-IsUnique = (refl, (refl, tt))

anon_hello_section-capacity_example :
    count_values is_anonymous_member
      (anon_hello_section config crypto anonymous_room 2 (anon_hello_of b_id) 50 51).0.participants
    ≤ max (count_values is_anonymous_member anonymous_room.participants) 2
anon_hello_section-capacity_example =
    anon_hello_section-capacity config crypto anonymous_room 2 (anon_hello_of b_id) 50 51
      anonymous_room-IsUnique

anonymous_room-HasDistinctHandles : HasDistinctHandles anonymous_room.participants
unfolding get
anonymous_room-HasDistinctHandles c d p q handle hc hd pa qa ph qh =
    ground (arith, nat_beq_iff 1 c, nat_beq_iff 2 c, nat_beq_iff 1 d, nat_beq_iff 2 d)

anon_hello_section-HasDistinctHandles_example :
    HasDistinctHandles
      (anon_hello_section config crypto anonymous_room 2 (anon_hello_of b_id) 50 51).0.participants
anon_hello_section-HasDistinctHandles_example =
    anon_hello_section-HasDistinctHandles config crypto anonymous_room 2 (anon_hello_of b_id) 50 51
      anonymous_room-HasDistinctHandles

abbrev other_key : Str
other_key = repeat 64 49

abbrev rotation : GroupKeyUpdateFrame
rotation = record {
  sent_at_ms = 60;
  participant_handle = a_id;
  x25519_pubkey_hex = other_key;
  epoch = 2;
}

abbrev rotated : ParticipantState
rotated = record (member a_id) { x25519_pubkey_hex = some other_key; x25519_epoch = 2 }

rotation_taken : group_key_update (member a_id) rotation ≡ ok (some rotated)
unfolding group_key_update sora_kaigi.Base.str_beq
rotation_taken = refl

hello_again : apply_anon_hello_state (member a_id) (anon_hello_of a_id) 55 ≡ ok (member a_id)
unfolding apply_anon_hello_state sora_kaigi.Base.str_beq
hello_again = refl

member-HasKey : HasKey (member a_id) digest 1
member-HasKey = (refl, refl, refl, refl, omega arith)

key_of_epoch_example : Later digest 1 rotated
key_of_epoch_example = key_of_epoch (member a_id) rotated digest 1 member-HasKey (
    KeySteps.step (member a_id) (member a_id) rotated
      (KeyStep.hello (member a_id) (member a_id) (anon_hello_of a_id) 55 hello_again)
      (KeySteps.step (member a_id) rotated rotated
        (KeyStep.update (member a_id) rotated rotation rotation_taken) (KeySteps.stay rotated)))

abbrev two_members : RoomState
two_members = record (room_of ((1, at_conn 1 (member a_id)) ∷ (2, at_conn 2 (member b_id)) ∷ [])) {
  anonymous_mode = true;
}

abbrev sealed : EncryptedControlFrame
sealed = record {
  sent_at_ms = 70;
  sender_handle = a_id;
  epoch = 1;
  kind = EncryptedControlKind.chat;
  payloads =
      record { recipient_handle = b_id; nonce_hex = repeat 48 48; ciphertext_hex = repeat 32 48 }
      ∷ [];
}

sealed_accepted : encrypted_control_section crypto two_members 1 sealed ≡ FrameOutcome.broadcast
unfolding encrypted_control_section sora_kaigi.Hub.Handles.validate_encrypted_control_frame
    sora_kaigi.Hub.Handles.handle_error sora_kaigi.Base.Text.is_blank sora_kaigi.Base.Text.is_ascii
    sora_kaigi.Hub.Hex.is_valid_hex_len sora_kaigi.Hub.Hex.is_valid_hex sora_kaigi.Base.contains get
    sora_kaigi.Base.str_beq sora_kaigi.Hub.Handles.validate_encrypted_control_epoch
    sora_kaigi.Hub.GroupKeys.validate_encrypted_control_room_recipients
sealed_accepted = refl

encrypted_control_section-IsDeliverable_example : IsDeliverable two_members 1 sealed
encrypted_control_section-IsDeliverable_example =
    encrypted_control_section-IsDeliverable crypto two_members 1 sealed sealed_accepted
