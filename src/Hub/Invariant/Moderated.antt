-- ===== src/Hub/Invariant/Moderated.antt =====
-- Moderation and the room's invariant (crates/kaigi-hub-echo/src/main.rs,
-- `process_moderation_frame`).
use sora_kaigi.Base.{
  Bool, ℕ, ◌≡◌, refl, sym, subst, not, ◌||◌, Option, none, some, List, [], ◌∷◌, get, nat_eq, ◌⊎◌,
  inl, inr, Option-cases, Bool-cases, arith,
}
use sora_kaigi.Base.Text.{Str, lit}
use sora_kaigi.Base.Results.{ok, err, Res-cases}
use sora_kaigi.Wire.Frames.{ModerationFrame, ModerationAction}
use sora_kaigi.Hub.State.{ConnId, ParticipantState, RoomState}
use sora_kaigi.Hub.Roles.{can_moderate_conn}
use sora_kaigi.Hub.Lobby.{admit_waiting_participant, deny_waiting_participant}
use sora_kaigi.Hub.Moderation.{
  Target, Progress, starting, switch_off, mic_off, video_off, screen_share_off, with_admitted,
  with_denied, moderate, moderate_all, moderation_targets, validate_moderation_sender_clock,
  moderation_section, concluded,
}
use sora_kaigi.Hub.Invariant.{IsConsistent}
use sora_kaigi.Hub.Invariant.Presence.{IsAlike, alike-IsConsistent}
use sora_kaigi.Hub.Invariant.Governance.{clock-IsConsistent}
use sora_kaigi.Hub.Invariant.Leave.{
  admit_waiting_participant-IsConsistent, deny_waiting_participant-IsConsistent,
}

switch_off-IsConsistent :
    {b : Bool} (progress : Progress) (target : ConnId)
    (change : ParticipantState → ParticipantState) (now : ℕ)
    → ((s : ParticipantState) → IsAlike s (change s))
    → IsConsistent b progress.room
    → IsConsistent b (switch_off progress target change now).room
switch_off-IsConsistent progress target change now alike c =
    elim (Option-cases (get progress.room.participants target)) [
      | inl absent ↦ rw (switch_off, absent) c
      | inr (p, here) ↦
          rw (switch_off, here)
            (alike-IsConsistent progress.room target p (record p { state = change p.state }) c here
              (alike p.state))
    ]

admitted-IsConsistent :
    {b : Bool} (progress : Progress) (target : ConnId) (now : ℕ)
    → IsConsistent b progress.room
    → IsConsistent b
        (with_admitted progress (admit_waiting_participant progress.room target now)).room
unfolding admit_waiting_participant
admitted-IsConsistent progress target now c =
    elim (Option-cases (get progress.room.participants target)) [
      | inl absent ↦
          let e : admit_waiting_participant progress.room target now
              ≡ err (lit "participant missing") =
            ground arith in
          rw e c
      | inr (p, here) ↦ elim (Res-cases (admit_waiting_participant progress.room target now)) [
        | inr (e, refused) ↦ rw refused c
        | inl (r, admitted) ↦
            rw admitted
              (admit_waiting_participant-IsConsistent progress.room target now r p c here admitted)
      ]
    ]

denied-IsConsistent :
    {b : Bool} (progress : Progress) (target tx : ConnId)
    → IsConsistent b progress.room
    → IsConsistent b (with_denied progress tx (deny_waiting_participant progress.room target)).room
denied-IsConsistent progress target tx c =
    elim (Res-cases (deny_waiting_participant progress.room target)) [
      | inr (e, refused) ↦ rw refused c
      | inl (r, denied) ↦
          rw denied (deny_waiting_participant-IsConsistent progress.room target c r denied)
    ]

moderate-IsConsistent :
    {b : Bool} (action : ModerationAction) (now : ℕ) (progress : Progress) (t : Target)
    → IsConsistent b progress.room
    → IsConsistent b (moderate action now progress t).room
unfolding moderate
moderate-IsConsistent ModerationAction.kick now progress (target, tx) c = c
moderate-IsConsistent ModerationAction.disable_mic now progress (target, tx) c =
    switch_off-IsConsistent progress target mic_off now (λ s. (refl, refl, refl)) c
moderate-IsConsistent ModerationAction.disable_video now progress (target, tx) c =
    switch_off-IsConsistent progress target video_off now (λ s. (refl, refl, refl)) c
moderate-IsConsistent ModerationAction.disable_screen_share now progress (target, tx) c =
    switch_off-IsConsistent progress target screen_share_off now (λ s. (refl, refl, refl)) c
moderate-IsConsistent ModerationAction.admit_from_waiting now progress (target, tx) c =
    admitted-IsConsistent progress target now c
moderate-IsConsistent ModerationAction.deny_from_waiting now progress (target, tx) c =
    denied-IsConsistent progress target tx c

moderate_all-IsConsistent :
    {b : Bool} (action : ModerationAction) (now : ℕ) (progress : Progress) (ts : List Target)
    → IsConsistent b progress.room
    → IsConsistent b (moderate_all action now progress ts).room
unfolding moderate_all
moderate_all-IsConsistent action now progress [] c = c
moderate_all-IsConsistent action now progress (t ∷ ts) c =
    moderate_all-IsConsistent action now (moderate action now progress t) ts
      (moderate-IsConsistent action now progress t c)

concluded_room : (progress : Progress) (e : Option Str) → (concluded progress e).0 ≡ progress.room
concluded_room progress none = refl
concluded_room progress (some e) = refl

-- The three ways in which the section leaves the room.
moderation_section_cases :
    (room : RoomState) (conn_id : ConnId) (moderation : ModerationFrame) (now : ℕ)
    → let after = (moderation_section room conn_id moderation now).0 in
      (after ≡ room)
      ⊎ ((clocked : RoomState) × (validate_moderation_sender_clock room conn_id moderation
            ≡ ok clocked)
          × ((after ≡ clocked)
              ⊎ ((ts : List Target) × (after
                    ≡ (moderate_all moderation.action now (starting clocked) ts).room))))
unfolding moderation_section
moderation_section_cases room conn_id moderation now =
    elim (Option-cases (get room.participants conn_id)) [
      | inl absent ↦ inl (ground arith)
      | inr (p, here) ↦
          elim (Bool-cases (
            room.anonymous_mode
            || not p.state.hello_seen
            || not (can_moderate_conn room conn_id))) [
              | inl refused ↦ inl (ground arith)
              | inr passed ↦
                  elim (Res-cases (validate_moderation_sender_clock room conn_id moderation)) [
                    | inr (e, stale) ↦ inl (ground arith)
                    | inl (clocked, q) ↦
                        elim (Res-cases (
                          moderation_targets clocked conn_id moderation.target moderation.action)) [
                            | inr (e, no_target) ↦ inr (clocked, q, inl (ground arith))
                            | inl (ts, found) ↦
                                let done =
                                  moderate_all moderation.action now (starting clocked) ts in
                                inr (
                                  clocked,
                                  q,
                                  inr (
                                    ts,
                                    ground (arith, concluded_room done done.moderation_error),
                                  ),
                                )
                          ]
                  ]
            ]
    ]

sender_clock-IsConsistent :
    {b : Bool} (room : RoomState) (conn_id : ConnId) (moderation : ModerationFrame)
    (clocked : RoomState)
    → validate_moderation_sender_clock room conn_id moderation ≡ ok clocked
    → IsConsistent b room
    → IsConsistent b clocked
unfolding validate_moderation_sender_clock
sender_clock-IsConsistent room conn_id moderation clocked h c =
    elim (Option-cases (get room.participants conn_id)) [
      | inl absent ↦ absurd (ground arith)
      | inr (p, here) ↦
          clock-IsConsistent room (lit "moderation") p.state.participant_id (lit "sent_at_ms")
            moderation.sent_at_ms clocked (ground arith) c
    ]

-- Moderation of any action and target, refused or carried out, keeps the room consistent.
pub moderation_section-IsConsistent :
    {b : Bool} (room : RoomState) (conn_id : ConnId) (moderation : ModerationFrame) (now : ℕ)
    → IsConsistent b room
    → IsConsistent b (moderation_section room conn_id moderation now).0
moderation_section-IsConsistent room conn_id moderation now c =
    elim (moderation_section_cases room conn_id moderation now) [
      | inl same ↦ subst (IsConsistent _) (sym same) c
      | inr (clocked, q, rest) ↦
          let cc = sender_clock-IsConsistent room conn_id moderation clocked q c in
          elim rest [
            | inl same ↦ subst (IsConsistent _) (sym same) cc
            | inr (ts, e) ↦
                subst (IsConsistent _) (sym e)
                  (moderate_all-IsConsistent moderation.action now (starting clocked) ts cc)
          ]
    ]
