-- ===== src/Hub/Moderation.antt =====
-- Moderation (crates/kaigi-hub-echo/src/main.rs): the checks of a signed frame and the locked
-- section of `process_moderation_frame`.
use sora_kaigi.Base.{
  ℕ, Bool, true, false, not, ◌&&◌, Option, none, some, List, [], ◌∷◌, ◌++◌, get, find, first_some,
  nat_beq, str_beq, nat_eq, if◌then◌else◌,
}
use sora_kaigi.Base.Text.{Str, lit}
use sora_kaigi.Base.Results.{Res, ok, err}
use sora_kaigi.Wire.Frames.{
  ModerationFrame, ModerationSignedFrame, ModerationTarget, ModerationAction, ParticipantSnapshot,
}
use sora_kaigi.Hub.State.{
  Crypto, ConnId, Participant, ParticipantState, RoomState, participant_snapshot_from_state,
}
use sora_kaigi.Hub.Clock.{enforce_signed_action_clock}
use sora_kaigi.Hub.Hex.{is_valid_hex_len, moderation_signed_signature_is_valid}
use sora_kaigi.Hub.Handles.{reason_if}
use sora_kaigi.Hub.Roles.{can_moderate_conn}
use sora_kaigi.Hub.Admission.{with_participant}
use sora_kaigi.Hub.Lobby.{
  WaitingRoomAdmitOutcome, admit_waiting_participant, deny_waiting_participant,
}

unfoldable pub include_sender_in_all_target : ModerationAction → Bool
include_sender_in_all_target ModerationAction.kick = true
include_sender_in_all_target _ = false

-- The checks of the `ModerationSigned` handler, before `process_moderation_frame`.
unfoldable pub moderation_signed_error :
    Crypto → RoomState → Participant → ConnId → ModerationSignedFrame → Option Str
moderation_signed_error crypto room sender conn_id signed =
    first_some (reason_if (not sender.state.hello_seen) (lit "send Hello first")) (
      first_some (reason_if (not (can_moderate_conn room conn_id)) (lit "host/co-host only")) (
        first_some
          (reason_if (not (str_beq sender.state.participant_id signed.issued_by))
            (lit "issued_by must match sender participant_id"))
          (first_some
            (reason_if (not (is_valid_hex_len crypto signed.signature_hex 32))
              (lit "signature_hex must be 32-byte hex"))
            (reason_if (not (moderation_signed_signature_is_valid crypto signed))
              (lit "signature_hex failed moderation_signed verification")))))

unfoldable pub validate_moderation_sender_clock :
    RoomState → ConnId → ModerationFrame → Res RoomState
validate_moderation_sender_clock room sender_conn_id moderation =
    elim (get room.participants sender_conn_id) [
      | none ↦ err (lit "participant missing")
      | some sender ↦
          enforce_signed_action_clock room (lit "moderation") sender.state.participant_id
            (lit "sent_at_ms") moderation.sent_at_ms
    ]

-- A target: its connection and its channel.
abbrev pub Target : Type 0
Target = ConnId × ConnId

abbrev pub is_lobby_action : ModerationAction → Bool
is_lobby_action ModerationAction.admit_from_waiting = true
is_lobby_action ModerationAction.deny_from_waiting = true
is_lobby_action _ = false

-- Everyone, the sender only where the action includes it.
unfoldable pub all_targets : ConnId → ModerationAction → List (ConnId × Participant) → List Target
all_targets conn_id action [] = []
all_targets conn_id action ((id, p) ∷ m) =
    let rest = all_targets conn_id action m in
    if nat_beq id conn_id && not (include_sender_in_all_target action)
    then rest
    else (id, p.tx) ∷ rest

abbrev target_of : Str → Option (ConnId × Participant) → Res (List Target)
target_of target_id none = err (lit "unknown participant_id: " ++ target_id)
target_of target_id (some (id, p)) = ok ((id, p.tx) ∷ [])

unfoldable pub moderation_targets :
    RoomState → ConnId → ModerationTarget → ModerationAction → Res (List Target)
unfolding all_targets
moderation_targets room conn_id ModerationTarget.all action =
    if is_lobby_action action
    then err
        (lit "waiting room admit/deny requires /admit <participant_id> or /deny <participant_id>")
    else ok (all_targets conn_id action room.participants)
moderation_targets room conn_id (ModerationTarget.participant target_id) action =
    target_of target_id (find (λ e. str_beq e.1.state.participant_id target_id) room.participants)

-- The room and what the loop over the targets has gathered.
pub record Progress : Type 0 where
  pub room : RoomState
  pub snapshots : List ParticipantSnapshot
  pub close_senders : List ConnId
  pub admitted : List WaitingRoomAdmitOutcome
  pub denied : List (ConnId × Str)
  pub moderation_error : Option Str

abbrev pub starting : RoomState → Progress
starting room = record {
  room = room;
  snapshots = [];
  close_senders = [];
  admitted = [];
  denied = [];
  moderation_error = none;
}

abbrev pub mic_off : ParticipantState → ParticipantState
mic_off state = record state { mic_enabled = false }

abbrev pub video_off : ParticipantState → ParticipantState
video_off state = record state { video_enabled = false }

abbrev pub screen_share_off : ParticipantState → ParticipantState
screen_share_off state = record state { screen_share_enabled = false }

abbrev pub switch_off : Progress → ConnId → (ParticipantState → ParticipantState) → ℕ → Progress
switch_off progress target change now = elim (get progress.room.participants target) [
  | none ↦ progress
  | some p ↦ record progress {
    room = with_participant progress.room target (record p { state = change p.state });
    snapshots = progress.snapshots ++ (participant_snapshot_from_state (change p.state) now ∷ []);
  }
]

abbrev failed : Progress → Str → Progress
failed progress e = record progress {
  moderation_error = first_some progress.moderation_error (some e);
}

abbrev pub with_admitted : Progress → Res (RoomState × WaitingRoomAdmitOutcome) → Progress
with_admitted progress (err e) = failed progress e
with_admitted progress (ok (room, outcome)) = record progress {
  room = room;
  admitted = progress.admitted ++ (outcome ∷ []);
}

abbrev pub with_denied : Progress → ConnId → Res (RoomState × Str) → Progress
with_denied progress tx (err e) = failed progress e
with_denied progress tx (ok (room, denied_id)) = record progress {
  room = room;
  denied = progress.denied ++ ((tx, denied_id) ∷ []);
}

-- One turn of the loop over the targets.
unfoldable pub moderate : ModerationAction → ℕ → Progress → Target → Progress
moderate ModerationAction.kick now progress (target, tx) = record progress {
  close_senders = progress.close_senders ++ (tx ∷ []);
}
moderate ModerationAction.disable_mic now progress (target, tx) =
    switch_off progress target mic_off now
moderate ModerationAction.disable_video now progress (target, tx) =
    switch_off progress target video_off now
moderate ModerationAction.disable_screen_share now progress (target, tx) =
    switch_off progress target screen_share_off now
moderate ModerationAction.admit_from_waiting now progress (target, tx) =
    with_admitted progress (admit_waiting_participant progress.room target now)
moderate ModerationAction.deny_from_waiting now progress (target, tx) =
    with_denied progress tx (deny_waiting_participant progress.room target)

unfoldable pub moderate_all : ModerationAction → ℕ → Progress → List Target → Progress
unfolding moderate
moderate_all action now progress [] = progress
moderate_all action now progress (t ∷ ts) =
    moderate_all action now (moderate action now progress t) ts

pub data ModerationOutcome : Type 0 where
  ignored : ModerationOutcome
  refused : Str → ModerationOutcome
  moderated : Progress → ModerationOutcome

abbrev pub concluded : Progress → Option Str → RoomState × ModerationOutcome
concluded progress none = (progress.room, ModerationOutcome.moderated progress)
concluded progress (some e) = (progress.room, ModerationOutcome.refused e)

-- The clock has advanced even where no target is found.
unfoldable pub moderation_section :
    RoomState → ConnId → ModerationFrame → ℕ → RoomState × ModerationOutcome
unfolding moderate_all moderation_targets
moderation_section room conn_id moderation now =
    if room.anonymous_mode
    then (
      room,
      ModerationOutcome.refused (lit "anonymous mode requires encrypted moderation payloads"),
    )
    else elim (get room.participants conn_id) [
      | none ↦ (room, ModerationOutcome.ignored)
      | some sender ↦
          if not sender.state.hello_seen
          then (room, ModerationOutcome.refused (lit "send Hello first"))
          else if not (can_moderate_conn room conn_id)
          then (room, ModerationOutcome.refused (lit "host/co-host only"))
          else elim (validate_moderation_sender_clock room conn_id moderation) [
            | err e ↦ (room, ModerationOutcome.refused e)
            | ok clocked ↦
                elim (moderation_targets clocked conn_id moderation.target moderation.action) [
                  | err e ↦ (clocked, ModerationOutcome.refused e)
                  | ok targets ↦
                      let done = moderate_all moderation.action now (starting clocked) targets in
                      concluded done done.moderation_error
                ]
          ]
    ]
