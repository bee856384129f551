-- ===== src/Hub/Lobby.antt =====
-- Leaving (crates/kaigi-hub-echo/src/main.rs): the waiting room's admission and denial of one
-- participant, and the locked section of `handle_disconnect`.
use sora_kaigi.Base.{
  ℕ, Bool, true, false, not, ◌&&◌, Option, none, some, List, [], ◌∷◌, ◌++◌, get, remove, discard,
  is_empty, min, nat_eq, sat_add_u64, if◌then◌else◌,
}
use sora_kaigi.Base.Text.{Str, lit}
use sora_kaigi.Base.Results.{Res, ok, err}
use sora_kaigi.Wire.Frames.{ParticipantSnapshot, ParticipantPresenceDeltaFrame}
use sora_kaigi.Hub.State.{
  ConnId, Participant, ParticipantState, RoomState, participant_snapshot_from_state,
}
use sora_kaigi.Hub.Roles.{is_host, bump_if, sync_active_co_host_bindings}
use sora_kaigi.Hub.Admission.{complete_join, with_participant, joined_delta}

pub record WaitingRoomAdmitOutcome : Type 0 where
  pub conn_id : ConnId
  pub snapshot : ParticipantSnapshot
  pub presence_delta : ParticipantPresenceDeltaFrame

abbrev not_waiting : Str → Str
not_waiting participant_id = lit "participant_id is not waiting: " ++ participant_id

unfoldable pub admitted_state : ParticipantState → ParticipantState
admitted_state state = record state {
  waiting_room_pending = false;
  hello_seen = true;
  mic_enabled = false;
  video_enabled = false;
  screen_share_enabled = false;
}

-- An error leaves the room as it was.
unfoldable pub admit_waiting_participant :
    RoomState → ConnId → ℕ → Res (RoomState × WaitingRoomAdmitOutcome)
admit_waiting_participant room target_conn_id at_ms = elim (get room.participants target_conn_id) [
  | none ↦ err (lit "participant missing")
  | some p ↦
      let state = admitted_state p.state in
      let here = with_participant room target_conn_id (record p { state = state }) in
      let done = complete_join here target_conn_id state.participant_id in
      let snapshot = participant_snapshot_from_state state at_ms in
      if not p.state.waiting_room_pending
      then err (not_waiting p.state.participant_id)
      else ok (
        done,
        record {
          conn_id = target_conn_id;
          snapshot = snapshot;
          presence_delta = joined_delta at_ms done.presence_sequence snapshot;
        },
      )
]

-- `room.participants.keys().min().copied()`.
abbrev opt_min : ConnId → Option ConnId → ConnId
opt_min k none = k
opt_min k (some j) = min k j

unfoldable pub min_key : List (ConnId × Participant) → Option ConnId
min_key [] = none
min_key ((k, p) ∷ m) = some (opt_min k (min_key m))

abbrev pub with_next_host : RoomState → RoomState
with_next_host room = record room { host_conn_id = min_key room.participants }

-- The participant's entries, those of a denied newcomer: its device capabilities stay.
abbrev pub without_waiting : RoomState → ConnId → RoomState
without_waiting room conn_id = record room {
  participants = remove room.participants conn_id;
  co_host_conn_ids = discard room.co_host_conn_ids conn_id;
  e2ee_epochs = remove room.e2ee_epochs conn_id;
  key_rotation_ack_epochs = remove room.key_rotation_ack_epochs conn_id;
}

unfoldable pub deny_waiting_participant : RoomState → ConnId → Res (RoomState × Str)
unfolding min_key
deny_waiting_participant room target_conn_id = elim (get room.participants target_conn_id) [
  | none ↦ err (lit "participant missing")
  | some p ↦
      let gone = without_waiting room target_conn_id in
      if not p.state.waiting_room_pending
      then err (not_waiting p.state.participant_id)
      else ok (
        if is_host room target_conn_id
            then (sync_active_co_host_bindings (with_next_host gone)).0
            else gone,
        p.state.participant_id,
      )
]

abbrev pub without_conn : RoomState → ConnId → RoomState
without_conn room conn_id = record (without_waiting room conn_id) {
  device_caps_by_conn = remove room.device_caps_by_conn conn_id;
}

-- What the section reports to the rest of `handle_disconnect`.
pub record Departure : Type 0 where
  pub left : Option ParticipantState
  pub host_changed : Bool
  pub presence_delta : Option ParticipantPresenceDeltaFrame

abbrev pub left_delta : ℕ → ℕ → ℕ → Str → ParticipantPresenceDeltaFrame
left_delta at_ms left_at_ms sequence participant_id = record {
  at_ms = at_ms;
  sequence = sequence;
  joined = [];
  left = record { at_ms = left_at_ms; participant_id = participant_id } ∷ [];
  role_changes = [];
}

-- The host's place goes to the lowest connection number that is left.
unfoldable pub pass_host_on : RoomState → RoomState
unfolding min_key
pass_host_on room = bump_if true (sync_active_co_host_bindings (with_next_host room)).0

abbrev pub left_state : Option Participant → Option ParticipantState
left_state none = none
left_state (some p) = some p.state

abbrev pub note_left :
    RoomState → ℕ → ℕ → Option ParticipantState → RoomState × Option ParticipantPresenceDeltaFrame
note_left room at_ms left_at_ms none = (room, none)
note_left room at_ms left_at_ms (some s) =
    let sequence = sat_add_u64 room.presence_sequence 1 in
    (
      record room { presence_sequence = sequence },
      some (left_delta at_ms left_at_ms sequence s.participant_id),
    )

-- The room that is left, if anyone is in it: an empty room is dropped.
unfoldable pub disconnect_section : RoomState → ConnId → ℕ → ℕ → Option RoomState × Departure
disconnect_section room conn_id at_ms left_at_ms =
    let left = left_state (get room.participants conn_id) in
    let gone = without_conn room conn_id in
    let host_changed = not gone.anonymous_mode && is_host gone conn_id in
    let settled = if host_changed then pass_host_on gone else gone in
    let (noted, delta) = note_left settled at_ms left_at_ms left in
    if is_empty gone.participants
    then (none, record { left = left; host_changed = false; presence_delta = none })
    else if gone.anonymous_mode
    then (some settled, record { left = left; host_changed = false; presence_delta = none })
    else (some noted, record { left = left; host_changed = host_changed; presence_delta = delta })
