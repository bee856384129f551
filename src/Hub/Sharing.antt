-- ===== src/Hub/Sharing.antt =====
-- Media switches of a participant (crates/kaigi-hub-echo/src/main.rs): the locked sections of the
-- `ParticipantState` and `MediaTrackState` handlers, the plaintext gate, and the limit on
-- simultaneous screen shares.
pub mod Limit
use sora_kaigi.Base.{
  ℕ, Bool, true, false, not, ◌&&◌, ◌||◌, Option, none, some, List, get, count, opt_or, max, leb,
  nat_beq, str_beq, nat_eq, if◌then◌else◌,
}
use sora_kaigi.Base.Text.{Str, lit}
use sora_kaigi.Wire.Frames.{
  ParticipantStateFrame, ParticipantSnapshot, MediaTrackStateFrame, MediaTrackKind,
}
use sora_kaigi.Hub.State.{
  ConnId, Participant, ParticipantState, RoomState, participant_snapshot_from_state,
}
use sora_kaigi.Hub.Admission.{with_participant}

-- `room.e2ee_epochs.get(&conn_id).copied().unwrap_or(0)`.
abbrev pub e2ee_epoch : RoomState → ConnId → ℕ
e2ee_epoch room conn_id = opt_or (get room.e2ee_epochs conn_id) 0

unfoldable pub e2ee_required_message : Str
unfolding lit
e2ee_required_message = lit "e2ee required: publish E2EEKeyEpoch before plaintext control"

unfoldable pub validate_plaintext_e2ee_gate : RoomState → ConnId → Option Str
validate_plaintext_e2ee_gate room conn_id = elim (get room.participants conn_id) [
  | none ↦ none
  | some p ↦
      if not p.state.hello_seen || room.anonymous_mode || not room.e2ee_required
      then none
      else if nat_beq (e2ee_epoch room conn_id) 0
      then some e2ee_required_message
      else none
]

-- How many others share their screen.
abbrev pub other_sharers : RoomState → ConnId → ℕ
other_sharers room conn_id =
    count (λ e. not (nat_beq e.0 conn_id) && e.1.state.screen_share_enabled) room.participants

abbrev pub share_limit : RoomState → ℕ
share_limit room = max room.max_screen_shares 1

-- The screen-share switch to apply, and the limit if it denies the request.
unfoldable pub screen_share_request :
    RoomState → ConnId → ParticipantState → Option Bool → Option Bool × Option ℕ
screen_share_request room conn_id state none = (none, none)
screen_share_request room conn_id state (some false) = (some false, none)
screen_share_request room conn_id state (some true) =
    if state.screen_share_enabled
    then (some true, none)
    else if leb (share_limit room) (other_sharers room conn_id)
    then (none, some (share_limit room))
    else (some true, none)

pub data StateOutcome : Type 0 where
  ignored : StateOutcome
  refused : Str → StateOutcome
  updated : ParticipantSnapshot → Option ℕ → StateOutcome

abbrev pub switched : ParticipantStateFrame → Option Bool → ParticipantState → ParticipantState
switched update share state = record state {
  mic_enabled = opt_or update.mic_enabled state.mic_enabled;
  video_enabled = opt_or update.video_enabled state.video_enabled;
  screen_share_enabled = opt_or share state.screen_share_enabled;
}

-- The `ParticipantState` handler, with the test of the anonymous mode before its section.
unfoldable pub participant_state_section :
    RoomState → ConnId → ParticipantStateFrame → ℕ → RoomState × StateOutcome
participant_state_section room conn_id update at_ms =
    if room.anonymous_mode
    then (room, refused (lit "anonymous mode requires EncryptedControl frames"))
    else elim (get room.participants conn_id) [
      | none ↦ (room, ignored)
      | some p ↦
          let (share, denied) =
            screen_share_request room conn_id p.state update.screen_share_enabled in
          let state = switched update share p.state in
          if not p.state.hello_seen
          then (room, refused (lit "send Hello first"))
          else if room.e2ee_required && nat_beq (e2ee_epoch room conn_id) 0
          then (room, refused e2ee_required_message)
          else (
            with_participant room conn_id (record p { state = state }),
            updated (participant_snapshot_from_state state at_ms) denied,
          )
    ]

unfoldable pub tracked : MediaTrackStateFrame → MediaTrackKind → ParticipantState → ParticipantState
tracked track MediaTrackKind.camera state = record state {
  mic_enabled = track.mic_enabled;
  video_enabled = track.camera_enabled;
  screen_share_enabled = false;
}
tracked track MediaTrackKind.screen_share state = record state {
  mic_enabled = track.mic_enabled;
  video_enabled = false;
  screen_share_enabled = track.screen_share_enabled;
}

-- The `MediaTrackState` handler, with the test of the anonymous mode and the plaintext gate, which
-- it makes under locks of their own.
unfoldable pub media_track_section :
    RoomState → ConnId → MediaTrackStateFrame → ℕ → RoomState × StateOutcome
unfolding tracked validate_plaintext_e2ee_gate
media_track_section room conn_id track at_ms =
    if room.anonymous_mode
    then (room, refused (lit "anonymous mode rejects plaintext media track states"))
    else elim (validate_plaintext_e2ee_gate room conn_id) [
      | some message ↦ (room, refused message)
      | none ↦ elim (get room.participants conn_id) [
        | none ↦ (room, ignored)
        | some p ↦
            let state = tracked track track.active_video_track p.state in
            if not p.state.hello_seen
            then (room, refused (lit "send Hello first"))
            else if not (str_beq p.state.participant_id track.participant_id)
            then (room, refused (lit "participant_id must match sender participant_id"))
            else (
              with_participant room conn_id (record p { state = state }),
              updated (participant_snapshot_from_state state at_ms) none,
            )
      ]
    ]
