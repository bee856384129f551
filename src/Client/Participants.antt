-- ===== src/Client/Participants.antt =====
-- The participants that the client knows, by their ids, and what frames change of them
-- (crates/kaigi-linux-client/src/lib.rs: parts of `reduce_frame`).
use sora_kaigi.Base.{
  Bool, true, false, none, some, List, [], ◌∷◌, get, put, insert, remove, str_eq, if◌then◌else◌,
}
use sora_kaigi.Base.Text.{Str}
use sora_kaigi.Client.Model.{ParticipantRole, Participant, RoleChange, ModerationAction}

abbrev pub Participants : Type 0
Participants = List (Str × Participant)

-- `if let Some(participant) = participants.get_mut(id)`.
unfoldable pub change : Participants → Str → (Participant → Participant) → Participants
change m id f = elim (get m id) [ none ↦ m | some p ↦ put m id (f p) ]

unfoldable pub join_all : Participants → List Participant → Participants
join_all m [] = m
join_all m (p ∷ ps) = join_all (insert m p.id p) ps

unfoldable pub leave_all : Participants → List Str → Participants
leave_all m [] = m
leave_all m (id ∷ ids) = leave_all (remove m id) ids

abbrev pub with_role : ParticipantRole → Participant → Participant
with_role role p = record p { role = role }

unfoldable pub change_roles : Participants → List RoleChange → Participants
unfolding change
change_roles m [] = m
change_roles m (c ∷ cs) = change_roles (change m c.participant_id (with_role c.role)) cs

abbrev pub same_role : ParticipantRole → ParticipantRole → Bool
same_role ParticipantRole.host ParticipantRole.host = true
same_role ParticipantRole.co_host ParticipantRole.co_host = true
same_role ParticipantRole.participant ParticipantRole.participant = true
same_role ParticipantRole.guest ParticipantRole.guest = true
same_role _ _ = false

abbrev pub without_role : ParticipantRole → Participant → Participant
without_role role p = record p {
  role = if same_role p.role role then ParticipantRole.participant else p.role;
}

unfoldable pub moderated : Participants → Str → ModerationAction → Participants
unfolding change
moderated m id ModerationAction.mute = change m id (λ p. record p { muted = true })
moderated m id ModerationAction.video_off = change m id (λ p. record p { video_enabled = false })
moderated m id ModerationAction.stop_share = change m id (λ p. record p { share_enabled = false })
moderated m id ModerationAction.kick = remove m id
moderated m id ModerationAction.deny_from_waiting = remove m id
moderated m id ModerationAction.admit_from_waiting =
    change m id (λ p. record p { waiting_room = false })
