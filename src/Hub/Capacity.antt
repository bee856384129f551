-- ===== src/Hub/Capacity.antt =====
-- How many participants join a room (crates/kaigi-hub-echo/src/main.rs): `max_participants`, the
-- `Hello` handler, and the admission from the waiting room.
use sora_kaigi.Base.{
  ℕ, suc, max, ◌≤◌, ◌<◌, ◌≡◌, refl, Bool, true, false, none, some, get, nat_eq, IsUnique,
  count_others, count_values-put, count_others-present, ◌⊎◌, inl, inr, arith,
}
use sora_kaigi.Base.Text.{Str}
use sora_kaigi.Base.Results.{ok}
use sora_kaigi.Wire.Frames.{HelloFrame}
use sora_kaigi.Hub.State.{ConnId, Participant, RoomState}
use sora_kaigi.Hub.Roles.{restore_reserved_roles_on_join, sync_active_co_host_bindings}
use sora_kaigi.Hub.Admission.{
  joined_count, has_joined, validate_join_allowed, claim_host, with_participant, complete_join,
  hello_section, enter,
}
use sora_kaigi.Hub.Lobby.{WaitingRoomAdmitOutcome, admit_waiting_participant, admitted_state}
use sora_kaigi.Hub.Invariant.{IsConsistent}
use sora_kaigi.Hub.Invariant.Hello.{
  hello_section_cases, enter_room, helloed, claim_host-participants,
}
use sora_kaigi.Hub.Invariant.Leave.{admit_waiting_participant-ok}

abbrev is_joined : Participant → Bool
is_joined p = p.state.hello_seen

complete_join-participants :
    (room : RoomState) (conn_id : ConnId) (id : Str)
    → (complete_join room conn_id id).participants ≡ room.participants
unfolding complete_join restore_reserved_roles_on_join sync_active_co_host_bindings
complete_join-participants room conn_id id = refl

enter_count :
    (room : RoomState) (conn_id : ConnId) (hello : HelloFrame) (at_ms delta_at_ms : ℕ)
    (p : Participant)
    → IsUnique room.participants
    → get room.participants conn_id ≡ some p
    → joined_count (enter room conn_id hello at_ms delta_at_ms).0
      ≤ suc (count_others is_joined room.participants conn_id)
enter_count room conn_id hello at_ms delta_at_ms p u here =
    rw (enter_room room conn_id hello at_ms delta_at_ms p here) (
      ground (
        arith,
        complete_join-participants (with_participant room conn_id (helloed p hello false)) conn_id
            hello.participant_id,
        count_values-put is_joined room.participants conn_id p (helloed p hello false) u here,
        count_values-put is_joined room.participants conn_id p (helloed p hello true) u here,
      ))

room_for :
    (room : RoomState) (conn_id : ConnId) (id : Str)
    → validate_join_allowed room conn_id id ≡ none
    → (has_joined room conn_id ≡ true) ⊎ (joined_count room < room.max_participants)
unfolding validate_join_allowed
room_for room conn_id id h = ground arith

-- In a room with one entry for each connection, a `Hello` never takes the room past its `max_participants`: the number of those who have joined
-- stays within it, or is not higher than before.
pub hello_section_capacity :
    (room : RoomState) (conn_id : ConnId) (hello : HelloFrame) (at_ms delta_at_ms : ℕ)
    (p : Participant)
    → IsUnique room.participants
    → get room.participants conn_id ≡ some p
    → joined_count (hello_section room conn_id hello at_ms delta_at_ms).0
      ≤ max (joined_count room) room.max_participants
hello_section_capacity room conn_id hello at_ms delta_at_ms p u here =
    elim (hello_section_cases room conn_id hello at_ms delta_at_ms) [
      | inl same ↦ rw same (omega arith)
      | inr (open_room, allowed, e) ↦
          let claimed = claim_host room conn_id hello.participant_id in
          let same = claim_host-participants room conn_id hello.participant_id in
          let entered =
            enter_count claimed conn_id hello at_ms delta_at_ms p (rw same u) (rw same here) in
          rw e (
            ground (
              arith,
              entered,
              same,
              room_for room conn_id hello.participant_id allowed,
              count_others-present is_joined room.participants conn_id p u here,
            ))
    ]

-- An admission from the waiting room does not look at `max_participants`: in a full room it brings
-- the number of those who have joined above it.
pub admit_exceeds_capacity :
    {b : Bool} (room : RoomState) (target : ConnId) (at_ms : ℕ)
    (r : RoomState × WaitingRoomAdmitOutcome) (p : Participant)
    → IsConsistent b room
    → get room.participants target ≡ some p
    → admit_waiting_participant room target at_ms ≡ ok r
    → room.max_participants ≤ joined_count room
    → room.max_participants < joined_count r.0
unfolding admitted_state
admit_exceeds_capacity room target at_ms r p c here h full =
    let (waits, e) = admit_waiting_participant-ok room target at_ms r p here h in
    let q : Participant = record p { state = admitted_state p.state } in
    rw e (
      ground (
        arith,
        c.apart target p here,
        complete_join-participants (with_participant room target q) target q.state.participant_id,
        count_values-put is_joined room.participants target p q c.unique here,
        count_others-present is_joined room.participants target p c.unique here,
      ))
