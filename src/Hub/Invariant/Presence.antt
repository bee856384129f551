-- ===== src/Hub/Invariant/Presence.antt =====
-- Operations that change neither who is present nor under which id
-- (crates/kaigi-hub-echo/src/main.rs): media switches, key updates, payments, billing.
use sora_kaigi.Base.{
  Bool, ℕ, ◌≡◌, refl, sym, ◌∙◌, subst, not, ◌&&◌, ◌||◌, none, some, get, put, get-put, put-IsUnique,
  nat_beq, nat_beq_iff, nat_eq, str_eq, ◌⊎◌, inl, inr, Option-cases, Bool-cases, str_beq, is_none,
  is_some, arith,
}
use sora_kaigi.Hub.State.{Crypto, ConnId, Participant, ParticipantState, RoomState}
use sora_kaigi.Wire.Frames.{
  ParticipantStateFrame, MediaTrackStateFrame, MediaTrackKind, GroupKeyUpdateFrame,
  EscrowProofFrame,
}
use sora_kaigi.Hub.Admission.{with_participant}
use sora_kaigi.Hub.Sharing.{
  participant_state_section, media_track_section, tracked, screen_share_request, switched,
  e2ee_epoch, validate_plaintext_e2ee_gate,
}
use sora_kaigi.Hub.Handles.{validate_group_key_update_frame}
use sora_kaigi.Hub.GroupKeys.{
  group_key_section, group_key_update, escrow_proof_section, escrow_error, proven,
}
use sora_kaigi.Base.Results.{Res-cases}
use sora_kaigi.Hub.Invariant.{Participants, IsDistinct, IsConsistent, put-IsApart, put-HasHost}

-- Two entries are alike in what the invariant reads.
abbrev pub IsAlike : ParticipantState → ParticipantState → Type 0
IsAlike old new =
    (new.hello_seen ≡ old.hello_seen)
    × (new.waiting_room_pending ≡ old.waiting_room_pending)
    × (new.participant_id ≡ old.participant_id)

-- What an entry was before.
put-IsAlike :
    (m : Participants) (k : ConnId) (old new : Participant)
    → get m k ≡ some old
    → IsAlike old.state new.state
    → (c : ConnId) (p : Participant) → get (put m k new) c ≡ some p
    → (q : Participant) × (get m c ≡ some q) × IsAlike q.state p.state
put-IsAlike m k old new here alike c p there = elim (Bool-cases (nat_beq k c)) [
  | inl own ↦
      let same : new ≡ p = ground (arith, get-put m k new c) in
      (
        old,
        ground (arith, nat_beq_iff k c),
        subst (λ (q : Participant). IsAlike old.state q.state) same alike,
      )
  | inr other ↦ (p, ground (arith, get-put m k new c), (refl, refl, refl))
]

alike-IsDistinct :
    (m : Participants) (k : ConnId) (old new : Participant)
    → get m k ≡ some old
    → IsAlike old.state new.state
    → IsDistinct m
    → IsDistinct (put m k new)
alike-IsDistinct m k old new here alike d c c' p q hc hc' pc pc' same =
    let (p', tp, lp) = put-IsAlike m k old new here alike c p hc in
    let (q', tq, lq) = put-IsAlike m k old new here alike c' q hc' in
    d c c' p' q' tp tq (rw (sym lp.0, sym lp.1) pc) (rw (sym lq.0, sym lq.1) pc')
      (sym lp.2 ∙ same ∙ lq.2)

pub alike-IsConsistent :
    {b : Bool} (room : RoomState) (conn_id : ConnId) (old new : Participant)
    → IsConsistent b room
    → get room.participants conn_id ≡ some old
    → IsAlike old.state new.state
    → IsConsistent b (with_participant room conn_id new)
alike-IsConsistent room conn_id old new c here (hello, waits, id) = record {
  unique = put-IsUnique room.participants conn_id new c.unique;
  apart =
      put-IsApart room.participants conn_id new (ground (arith, c.apart conn_id old here)) c.apart;
  bound = λ h d.
      ground (arith, c.bound h d, get-put room.participants conn_id new d, nat_beq_iff conn_id d);
  led = λ h d p there present.
      let (q, before, like) =
        put-IsAlike room.participants conn_id old new here (hello, waits, id) d p there in
      c.led h d q before (rw (sym like.0, sym like.1) present);
  host_here = λ h. put-HasHost room.participants conn_id new room.host_conn_id (c.host_here h);
  distinct = λ h.
      alike-IsDistinct room.participants conn_id old new here (hello, waits, id) (c.distinct h);
}

-- A room whose other fields changed.
pub untouched-IsConsistent :
    {b : Bool} (room next : RoomState)
    → IsConsistent b room
    → next.participants ≡ room.participants
    → next.anonymous_mode ≡ room.anonymous_mode
    → next.host_conn_id ≡ room.host_conn_id
    → next.co_host_conn_ids ≡ room.co_host_conn_ids
    → next.co_host_role_owners ≡ room.co_host_role_owners
    → IsConsistent b next
untouched-IsConsistent room next c same mode host bound owners = record {
  unique = rw same c.unique;
  apart = rw same c.apart;
  bound = λ h d. rw (same, host, bound, owners) (c.bound (sym mode ∙ h) d);
  led = λ h. rw (same, host) (c.led (sym mode ∙ h));
  host_here = λ h. rw (same, host) (c.host_here (h.0, sym mode ∙ h.1));
  distinct = λ h. rw same (c.distinct (sym mode ∙ h));
}

-- At most the entry of the connection changed, and it is alike.
abbrev pub IsSwitch : RoomState → ConnId → RoomState → Type 0
IsSwitch room conn_id next =
    (next ≡ room)
    ⊎ ((old : Participant) × (new : Participant) × (get room.participants conn_id ≡ some old)
        × (next ≡ with_participant room conn_id new)
        × IsAlike old.state new.state)

pub switch-IsConsistent :
    {b : Bool} (room next : RoomState) (conn_id : ConnId)
    → IsSwitch room conn_id next
    → IsConsistent b room
    → IsConsistent b next
switch-IsConsistent room next conn_id (inl same) c = subst (IsConsistent _) (sym same) c
switch-IsConsistent room next conn_id (inr (old, new, here, e, alike)) c =
    subst (IsConsistent _) (sym e) (alike-IsConsistent room conn_id old new c here alike)

pub participant_state_section-IsSwitch :
    (room : RoomState) (conn_id : ConnId) (update : ParticipantStateFrame) (at_ms : ℕ)
    → IsSwitch room conn_id (participant_state_section room conn_id update at_ms).0
unfolding participant_state_section
participant_state_section-IsSwitch room conn_id update at_ms =
    elim (Option-cases (get room.participants conn_id)) [
      | inl absent ↦ inl (ground arith)
      | inr (p, here) ↦
          let share = (screen_share_request room conn_id p.state update.screen_share_enabled).0 in
          elim (Bool-cases (
            room.anonymous_mode
            || not p.state.hello_seen
            || room.e2ee_required && nat_beq (e2ee_epoch room conn_id) 0)) [
              | inl refused ↦ inl (ground arith)
              | inr passed ↦ inr (
                p,
                record p { state = switched update share p.state },
                here,
                ground arith,
                (refl, refl, refl),
              )
            ]
    ]

tracked-IsAlike :
    (track : MediaTrackStateFrame) (kind : MediaTrackKind) (state : ParticipantState)
    → IsAlike state (tracked track kind state)
unfolding tracked
tracked-IsAlike track MediaTrackKind.camera state = (refl, refl, refl)
tracked-IsAlike track MediaTrackKind.screen_share state = (refl, refl, refl)

pub media_track_section-IsSwitch :
    (room : RoomState) (conn_id : ConnId) (track : MediaTrackStateFrame) (at_ms : ℕ)
    → IsSwitch room conn_id (media_track_section room conn_id track at_ms).0
unfolding media_track_section
media_track_section-IsSwitch room conn_id track at_ms =
    elim (Option-cases (get room.participants conn_id)) [
      | inl absent ↦ inl (ground arith)
      | inr (p, here) ↦
          elim (Bool-cases (
            room.anonymous_mode
            || is_some (validate_plaintext_e2ee_gate room conn_id)
            || not p.state.hello_seen
            || not (str_beq p.state.participant_id track.participant_id))) [
              | inl refused ↦ inl (ground arith)
              | inr passed ↦ inr (
                p,
                record p { state = tracked track track.active_video_track p.state },
                here,
                ground arith,
                tracked-IsAlike track track.active_video_track p.state,
              )
            ]
    ]

pub group_key_section-IsSwitch :
    (crypto : Crypto) (room : RoomState) (conn_id : ConnId) (update : GroupKeyUpdateFrame)
    → IsSwitch room conn_id (group_key_section crypto room conn_id update).0
unfolding group_key_section group_key_update
group_key_section-IsSwitch crypto room conn_id update =
    elim (Option-cases (get room.participants conn_id)) [
      | inl absent ↦ inl (ground arith)
      | inr (p, here) ↦ elim (Res-cases (group_key_update p.state update)) [
        | inr (e, refused) ↦ inl (ground arith)
        | inl (none, kept) ↦ inl (ground arith)
        | inl (some state, taken) ↦
            elim (Bool-cases
              (room.anonymous_mode && is_none (validate_group_key_update_frame crypto update))) [
                | inr refused ↦ inl (ground arith)
                | inl valid ↦ inr (p, record p { state = state }, here, ground arith, ground arith)
              ]
      ]
    ]

pub escrow_proof_section-IsSwitch :
    (crypto : Crypto) (room : RoomState) (conn_id : ConnId) (proof : EscrowProofFrame)
    (now received_at_ms : ℕ)
    → IsSwitch room conn_id (escrow_proof_section crypto room conn_id proof now received_at_ms).0
unfolding escrow_proof_section
escrow_proof_section-IsSwitch crypto room conn_id proof now received_at_ms =
    elim (Option-cases (get room.participants conn_id)) [
      | inl absent ↦ inl (ground arith)
      | inr (p, here) ↦ elim (Option-cases (escrow_error crypto room p.state proof)) [
        | inr (e, refused) ↦ inl (ground arith)
        | inl accepted ↦ inr (
          p,
          record p { state = proven p.state proof now },
          here,
          ground arith,
          (refl, refl, refl),
        )
      ]
    ]
