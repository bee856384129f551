-- ===== src/Scenarios/Rooms.antt =====
-- Transparent rooms: joining, waiting, leaving, moderation, sharing.
use sora_kaigi.Base.{
  ℕ, ◌≤◌, ◌<◌, ◌≡◌, ◌&&◌, nat_beq_iff, refl, max, Bool, true, false, Option, none, some, List, [],
  ◌∷◌, get, is_some, remove, contains, find, arith, inl, inr, nat_eq, str_eq, IsUnique, count,
}
use sora_kaigi.Base.Results.{ok, ok_or_keep}
use sora_kaigi.Wire.Frames.{
  ModerationFrame, ModerationTarget, ModerationAction, ParticipantStateFrame, MediaTrackStateFrame,
  MediaTrackKind,
}
use sora_kaigi.Hub.State.{
  ConnId, Participant, RoomState, new_room, new_participant_state, participant_snapshot_from_state,
}
use sora_kaigi.Hub.Roles.Bindings.{IsBound, sync_active_co_host_bindings-IsBound}
use sora_kaigi.Hub.Roles.{sync_active_co_host_bindings}
use sora_kaigi.Hub.Admission.{
  HelloOutcome, validate_join_allowed, hello_section, joined_delta, joined_count,
}
use sora_kaigi.Hub.Connect.{connect_section, fallback_participant_id}
use sora_kaigi.Hub.Lobby.{admit_waiting_participant, disconnect_section, WaitingRoomAdmitOutcome}
use sora_kaigi.Hub.Sharing.{participant_state_section, media_track_section, share_limit}
use sora_kaigi.Hub.Sharing.Limit.{sharers, participant_state_limit, media_track_exceeds_limit}
use sora_kaigi.Hub.Succession.{disconnect_section-host, removed_becomes_host}
use sora_kaigi.Hub.Capacity.{hello_section_capacity, admit_exceeds_capacity}
use sora_kaigi.Hub.Invariant.{IsConsistent}
use sora_kaigi.Hub.Reach.{Step, Reachable, reachable-IsConsistent}
use sora_kaigi.Scenarios.Fixtures.{
  crypto, config, newcomer, joined, at_conn, room_of, hello_as, a_id, b_id, host_and_newcomer,
  host_and_waiting, host_and_guest,
}

abbrev waiting_b : Participant
waiting_b = at_conn 2 (record (newcomer b_id) { waiting_room_pending = true })

abbrev none_admitted : WaitingRoomAdmitOutcome
none_admitted = record {
  conn_id = 0;
  snapshot = participant_snapshot_from_state (newcomer []) 0;
  presence_delta = joined_delta 0 0 (participant_snapshot_from_state (newcomer []) 0);
}

-- A room is opened, entered by a connection, and hosted after its hello.
abbrev entered : RoomState
entered = connect_section 60 (some (new_room 60)) 1 1000

abbrev hosted : RoomState
hosted = (hello_section entered 1 (hello_as a_id) 1001 1001).0

entered_here :
    get entered.participants 1
    ≡ some (at_conn 1 (new_participant_state (fallback_participant_id 1) 1000))
unfolding get connect_section sora_kaigi.Base.insert new_room
entered_here = refl

entered_fresh : get (new_room 60).participants 1 ≡ none
unfolding get new_room
entered_fresh = refl

hosted_Reachable : Reachable true config crypto hosted
hosted_Reachable =
    Reachable.after entered hosted
      (Reachable.after (new_room 60) entered Reachable.opened
        (Step.connect (new_room 60) 1 1000 entered_fresh))
      (Step.hello entered 1 (hello_as a_id) 1001 1001 (λ known. rw entered_here refl))

reachable-IsConsistent_example : IsConsistent true hosted
reachable-IsConsistent_example = reachable-IsConsistent true config crypto hosted hosted_Reachable

two-IsConsistent :
    (q : Participant)
    → (q.state.hello_seen && q.state.waiting_room_pending) ≡ false
    → q.state.participant_id ≡ b_id
    → IsConsistent true (room_of ((1, at_conn 1 (joined a_id)) ∷ (2, q) ∷ []))
unfolding get contains
two-IsConsistent q one named = record {
  unique = (refl, (refl, tt));
  apart = λ c p h. ground (arith, nat_beq_iff 1 c, nat_beq_iff 2 c);
  bound = λ h c. ground (arith, nat_beq_iff 1 c, nat_beq_iff 2 c);
  led = λ h c p there present. refl;
  host_here = λ h c e. ground (arith, nat_beq_iff 1 c);
  distinct = λ h c d p p' hc hd pc pd same.
      ground (arith, nat_beq_iff 1 c, nat_beq_iff 2 c, nat_beq_iff 1 d, nat_beq_iff 2 d);
}

host_and_newcomer-IsConsistent : IsConsistent true host_and_newcomer
host_and_newcomer-IsConsistent = two-IsConsistent (at_conn 2 (newcomer b_id)) refl refl

host_and_waiting-IsConsistent : IsConsistent true host_and_waiting
host_and_waiting-IsConsistent = two-IsConsistent waiting_b refl refl

host_and_guest-IsConsistent : IsConsistent true host_and_guest
host_and_guest-IsConsistent = two-IsConsistent (at_conn 2 (joined b_id)) refl refl

host_and_newcomer-IsUnique : IsUnique host_and_newcomer.participants
unfolding get
host_and_newcomer-IsUnique = (refl, (refl, tt))

host_and_guest-IsUnique : IsUnique host_and_guest.participants
unfolding get
host_and_guest-IsUnique = (refl, (refl, tt))

-- The host leaves: the waiting `b` becomes the host.
abbrev left_to_waiting : RoomState
left_to_waiting = record host_and_waiting {
  participants = (2, waiting_b) ∷ [];
  host_conn_id = some 2;
  presence_sequence = 1;
  permissions_epoch = 1;
}

host_left : (disconnect_section host_and_waiting 1 20 21).0 ≡ some left_to_waiting
unfolding disconnect_section remove get sora_kaigi.Hub.Lobby.pass_host_on
    sync_active_co_host_bindings sora_kaigi.Base.discard
host_left = refl

disconnect_section-host_example :
    (c : ConnId) × (left_to_waiting.host_conn_id ≡ some c)
    × (is_some (get left_to_waiting.participants c) ≡ true)
    × ((d : ConnId) → is_some (get left_to_waiting.participants d) ≡ true → c ≤ d)
    × (left_to_waiting.participants ≡ remove host_and_waiting.participants 1)
disconnect_section-host_example =
    disconnect_section-host host_and_waiting left_to_waiting 1 20 21 refl refl host_left

-- Connection 1 is in a room without a host; connection 9 is not in it and says hello.
abbrev hostless : RoomState
hostless = record host_and_newcomer { host_conn_id = none; max_participants = 10 }

stranger_allowed : validate_join_allowed hostless 9 b_id ≡ none
unfolding validate_join_allowed get sora_kaigi.Base.str_beq
stranger_allowed = refl

removed_becomes_host_example :
    let after = hello_section hostless 9 (hello_as b_id) 10 10 in
    (after.1 ≡ HelloOutcome.participant_missing)
    × (after.0.host_conn_id ≡ some 9)
    × (get after.0.participants 9 ≡ none)
unfolding get
removed_becomes_host_example =
    removed_becomes_host hostless 9 (hello_as b_id) 10 10 refl refl refl stranger_allowed

abbrev admit_b : ModerationFrame
admit_b = record {
  sent_at_ms = 30;
  target = ModerationTarget.participant b_id;
  action = ModerationAction.admit_from_waiting;
}

hello_section_capacity_example :
    joined_count (hello_section host_and_newcomer 2 (hello_as b_id) 10 10).0
    ≤ max (joined_count host_and_newcomer) 1
unfolding get
hello_section_capacity_example =
    hello_section_capacity host_and_newcomer 2 (hello_as b_id) 10 10 (at_conn 2 (newcomer b_id))
      host_and_newcomer-IsUnique refl

-- The room is full with its host, and `b` is admitted all the same.
abbrev admitted_outcome : RoomState × WaitingRoomAdmitOutcome
admitted_outcome =
    ok_or_keep (host_and_waiting, none_admitted) (admit_waiting_participant host_and_waiting 2 31)

admitted_b : admit_waiting_participant host_and_waiting 2 31 ≡ ok admitted_outcome
unfolding admit_waiting_participant get
admitted_b = refl

admit_exceeds_capacity_example : 1 < joined_count admitted_outcome.0
unfolding get
admit_exceeds_capacity_example =
    admit_exceeds_capacity host_and_waiting 2 31 admitted_outcome waiting_b
      host_and_waiting-IsConsistent refl admitted_b (omega arith)

abbrev share_on : ParticipantStateFrame
share_on = record {
  updated_at_ms = 40;
  mic_enabled = none;
  video_enabled = none;
  screen_share_enabled = some true;
}

-- The host shares its screen.
abbrev sharing_room : RoomState
sharing_room = room_of (
    (1, at_conn 1 (record (joined a_id) { screen_share_enabled = true }))
    ∷ (2, at_conn 2 (joined b_id))
    ∷ [])

sharing_room-IsUnique : IsUnique sharing_room.participants
unfolding get
sharing_room-IsUnique = (refl, (refl, tt))

participant_state_limit_example :
    sharers (participant_state_section sharing_room 2 share_on 41).0
    ≤ max (sharers sharing_room) (share_limit sharing_room)
unfolding get
participant_state_limit_example =
    participant_state_limit sharing_room 2 (at_conn 2 (joined b_id)) sharing_room-IsUnique refl
      share_on 41

abbrev share_track : MediaTrackStateFrame
share_track = record {
  updated_at_ms = 40;
  participant_id = b_id;
  mic_enabled = false;
  camera_enabled = false;
  screen_share_enabled = true;
  active_video_track = MediaTrackKind.screen_share;
}

media_track_exceeds_limit_example :
    share_limit sharing_room < sharers (media_track_section sharing_room 2 share_track 41).0
unfolding get sora_kaigi.Base.str_beq
media_track_exceeds_limit_example =
    media_track_exceeds_limit sharing_room 2 (at_conn 2 (joined b_id)) sharing_room-IsUnique refl
      share_track 41 refl refl refl refl refl refl refl (omega arith)

sync_active_co_host_bindings-IsBound_example :
    IsBound
      (sync_active_co_host_bindings (record host_and_guest { co_host_role_owners = b_id ∷ [] })).0
sync_active_co_host_bindings-IsBound_example =
    sync_active_co_host_bindings-IsBound (record host_and_guest { co_host_role_owners = b_id ∷ [] })
      host_and_guest-IsUnique
