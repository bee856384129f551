-- ===== src/Hub/Admission.antt =====
-- Joining a transparent room (crates/kaigi-hub-echo/src/main.rs): `validate_join_allowed` and the
-- locked section of the `Hello` handler.
use sora_kaigi.Base.{
  ℕ, Bool, false, not, ◌&&◌, ◌||◌, Option, none, some, [], ◌∷◌, ◌++◌, get, put, or_insert, contains,
  any, count, is_none, is_some, is_some_of, nat_beq, str_beq, leb, nat_eq, str_eq, sat_add_u64,
  if◌then◌else◌,
}
use sora_kaigi.Base.Text.{Str, lit, show_nat}
use sora_kaigi.Wire.Frames.{HelloFrame, ParticipantSnapshot, ParticipantPresenceDeltaFrame}
use sora_kaigi.Hub.State.{
  ConnId, Participant, ParticipantState, RoomState, participant_snapshot_from_state,
}
use sora_kaigi.Hub.Roles.{
  is_host, is_some_and, bump_if, bump_permissions, sync_active_co_host_bindings,
  restore_reserved_roles_on_join,
}

-- The byte `@`: ids without it are treated as guests.
unfoldable pub participant_id_is_guest : Str → Bool
participant_id_is_guest participant_id = not (any (λ c. nat_beq c 64) participant_id)

unfoldable pub participant_id_has_reserved_moderation_role : RoomState → Str → Bool
participant_id_has_reserved_moderation_role room participant_id =
    is_some_of room.host_role_owner participant_id
    || contains room.co_host_role_owners participant_id

unfoldable pub conn_or_participant_can_moderate : RoomState → ConnId → Str → Bool
unfolding participant_id_has_reserved_moderation_role
conn_or_participant_can_moderate room conn_id participant_id =
    is_host room conn_id
    || contains room.co_host_conn_ids conn_id
    || participant_id_has_reserved_moderation_role room participant_id

-- Whether a connection has joined.
abbrev pub has_joined : RoomState → ConnId → Bool
has_joined room conn_id = is_some_and (get room.participants conn_id) (λ p. p.state.hello_seen)

-- A participant who has joined, or waits to be admitted.
abbrev pub is_present : Participant → Bool
is_present p = p.state.hello_seen || p.state.waiting_room_pending

-- Whether another connection is present under the id.
abbrev pub id_in_use : RoomState → ConnId → Str → Bool
id_in_use room conn_id participant_id =
    any
      (λ e.
        not (nat_beq e.0 conn_id)
        && is_present e.1
        && str_beq e.1.state.participant_id participant_id)
      room.participants

abbrev pub joined_count : RoomState → ℕ
joined_count room = count (λ e. e.1.state.hello_seen) room.participants

unfoldable pub validate_join_allowed : RoomState → ConnId → Str → Option Str
unfolding participant_id_is_guest
validate_join_allowed room conn_id participant_id =
    let can_moderate = conn_or_participant_can_moderate room conn_id participant_id in
    let already_joined = has_joined room conn_id in
    if is_some_and (get room.participants conn_id)
      (λ p. p.state.hello_seen && not (str_beq p.state.participant_id participant_id))
    then some (lit "participant_id cannot change after Hello")
    else if id_in_use room conn_id participant_id
    then some (lit "participant_id already in use: " ++ participant_id)
    else if room.room_lock && is_some room.host_conn_id && not can_moderate
    then some (lit "room is locked")
    else if not already_joined
        && not room.guest_join_allowed
        && participant_id_is_guest participant_id
        && is_some room.host_conn_id
        && not can_moderate
    then some (lit "guest participants are not allowed by room policy")
    else if not already_joined && leb room.max_participants (joined_count room)
    then some (lit "room is full: max_participants=" ++ show_nat room.max_participants)
    else none

-- The frame with its media off, and whether that changed it.
unfoldable pub enforce_join_media_defaults : HelloFrame → HelloFrame × Bool
enforce_join_media_defaults hello = (
  record hello { mic_enabled = false; video_enabled = false; screen_share_enabled = false },
  hello.mic_enabled || hello.video_enabled || hello.screen_share_enabled,
)

-- The first to say hello becomes the host.
unfoldable pub claim_host : RoomState → ConnId → Str → RoomState
claim_host room conn_id participant_id =
    if is_none room.host_conn_id
    then bump_permissions
        (sync_active_co_host_bindings
          (record room { host_conn_id = some conn_id; host_role_owner = some participant_id })).0
    else room

-- The state of a participant after `Hello`: in the room, or in its waiting room.
unfoldable pub hello_state : HelloFrame → Bool → ParticipantState → ParticipantState
hello_state hello route_to_waiting_room state = record state {
  participant_id = hello.participant_id;
  display_name = hello.display_name;
  participant_handle = none;
  x25519_pubkey_hex = none;
  x25519_epoch = 0;
  anonymous_mode = false;
  mic_enabled = hello.mic_enabled;
  video_enabled = hello.video_enabled;
  screen_share_enabled = hello.screen_share_enabled;
  waiting_room_pending = route_to_waiting_room;
  hello_seen = not route_to_waiting_room;
  last_escrow_proof_at_ms = none;
  escrow_id = none;
}

abbrev pub with_participant : RoomState → ConnId → Participant → RoomState
with_participant room conn_id p = record room { participants = put room.participants conn_id p }

abbrev pub with_key_epoch : RoomState → ConnId → RoomState
with_key_epoch room conn_id = record room { e2ee_epochs = or_insert room.e2ee_epochs conn_id 0 }

-- What an admitted participant brings to the room: its key epoch, the roles kept for its id, and
-- one more presence change.
unfoldable pub complete_join : RoomState → ConnId → Str → RoomState
complete_join room conn_id participant_id =
    let (restored, changed) =
      restore_reserved_roles_on_join (with_key_epoch room conn_id) conn_id participant_id in
    record (bump_if changed restored) {
      presence_sequence = sat_add_u64 restored.presence_sequence 1;
    }

abbrev pub joined_delta : ℕ → ℕ → ParticipantSnapshot → ParticipantPresenceDeltaFrame
joined_delta at_ms sequence snapshot = record {
  at_ms = at_ms;
  sequence = sequence;
  joined = snapshot ∷ [];
  left = [];
  role_changes = [];
}

pub data HelloOutcome : Type 0 where
  mode_conflict : HelloOutcome
  denied : Str → HelloOutcome
  waiting : Str → HelloOutcome
  joined : ParticipantSnapshot → ParticipantPresenceDeltaFrame → HelloOutcome
  participant_missing : HelloOutcome

abbrev waiting_notice : Str → Str
waiting_notice participant_id =
    lit "waiting room: pending admission for participant_id=" ++ participant_id

-- Whether a newcomer waits to be admitted.
unfoldable pub routes_to_waiting_room : RoomState → ConnId → Str → Bool
routes_to_waiting_room room conn_id participant_id =
    not (has_joined room conn_id)
    && room.waiting_room_enabled
    && is_some room.host_conn_id
    && not (conn_or_participant_can_moderate room conn_id participant_id)

-- The rest of the section, once the join is allowed and the host is known.
unfoldable pub enter : RoomState → ConnId → HelloFrame → ℕ → ℕ → RoomState × HelloOutcome
enter room conn_id hello at_ms delta_at_ms =
    let route = routes_to_waiting_room room conn_id hello.participant_id in
    elim (get room.participants conn_id) [
      | none ↦ (room, participant_missing)
      | some p ↦
          let state = hello_state hello route p.state in
          let here = with_participant room conn_id (record p { state = state }) in
          let done = complete_join here conn_id hello.participant_id in
          let snapshot = participant_snapshot_from_state state at_ms in
          if route
          then (here, waiting (waiting_notice hello.participant_id))
          else (done, joined snapshot (joined_delta delta_at_ms done.presence_sequence snapshot))
    ]

-- The locked section of the `Hello` handler, on a frame whose media are off.
unfoldable pub hello_section : RoomState → ConnId → HelloFrame → ℕ → ℕ → RoomState × HelloOutcome
hello_section room conn_id hello at_ms delta_at_ms =
    let entered =
      enter (claim_host room conn_id hello.participant_id) conn_id hello at_ms delta_at_ms in
    if room.anonymous_mode
    then (room, mode_conflict)
    else elim (validate_join_allowed room conn_id hello.participant_id) [
      | some reason ↦ (room, denied reason)
      | none ↦ entered
    ]
