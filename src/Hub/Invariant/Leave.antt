-- ===== src/Hub/Invariant/Leave.antt =====
-- Admission from the waiting room, denial, departure, and the room's invariant
-- (crates/kaigi-hub-echo/src/main.rs: `admit_waiting_participant`, `deny_waiting_participant`,
-- `handle_disconnect`).
use sora_kaigi.Base.{
  Bool, ℕ, ◌≡◌, ◌≢◌, refl, sym, subst, ◌⊎◌, inl, inr, true, false, Option, none, some, get, remove,
  contains-discard, get-remove, remove-IsUnique, nat_beq_iff, nat_eq, str_eq, arith,
}
use sora_kaigi.Base.Text.{Str}
use sora_kaigi.Base.Results.{ok}
use sora_kaigi.Hub.State.{ConnId, Participant, ParticipantState, RoomState}
use sora_kaigi.Hub.Roles.{is_host, sync_active_co_host_bindings}
use sora_kaigi.Hub.Roles.Bindings.{sync_active_co_host_bindings-IsBound}
use sora_kaigi.Hub.Admission.{is_present, with_participant, complete_join}
use sora_kaigi.Hub.Lobby.{
  WaitingRoomAdmitOutcome, admitted_state, admit_waiting_participant, with_next_host,
  without_waiting, without_conn, deny_waiting_participant, pass_host_on, note_left, left_state,
  disconnect_section,
}
use sora_kaigi.Hub.Invariant.{
  IsDistinct, IsConsistent, remove-IsApart, remove-IsDistinct, remove-HasHost, min_key-get,
  min_key-IsLed,
}
use sora_kaigi.Hub.Invariant.Entry.{joined-IsConsistent}

-- An admission in detail: the participant was waiting, and joins with its media off.
pub admit_waiting_participant-ok :
    (room : RoomState) (target : ConnId) (at_ms : ℕ) (r : RoomState × WaitingRoomAdmitOutcome)
    (p : Participant)
    → get room.participants target ≡ some p
    → admit_waiting_participant room target at_ms ≡ ok r
    → (p.state.waiting_room_pending ≡ true)
      × (r.0
          ≡ complete_join
              (with_participant room target (record p { state = admitted_state p.state }))
              target
              (admitted_state p.state).participant_id)
unfolding admit_waiting_participant
admit_waiting_participant-ok room target at_ms r p here h = ground arith

-- The others stay under their own ids.
others_distinct :
    (room : RoomState) (target : ConnId) (p : Participant)
    → IsDistinct room.participants
    → get room.participants target ≡ some p
    → is_present p ≡ true
    → (d : ConnId) (q : Participant) → d ≢ target
    → get room.participants d ≡ some q
    → is_present q ≡ true
    → q.state.participant_id ≢ p.state.participant_id
others_distinct room target p distinct here present d q other there present' same =
    other (distinct d target q p there here present' present same)

pub admit_waiting_participant-IsConsistent :
    {b : Bool} (room : RoomState) (target : ConnId) (at_ms : ℕ)
    (r : RoomState × WaitingRoomAdmitOutcome) (p : Participant)
    → IsConsistent b room
    → get room.participants target ≡ some p
    → admit_waiting_participant room target at_ms ≡ ok r
    → IsConsistent b r.0
unfolding admitted_state
admit_waiting_participant-IsConsistent room target at_ms r p c here h =
    let (waits, e) = admit_waiting_participant-ok room target at_ms r p here h in
    subst (IsConsistent _) (sym e) (
      joined-IsConsistent room target p (record p { state = admitted_state p.state }) c here refl
        (λ t d q other there present.
          others_distinct room target p (c.distinct t) here (ground arith) d q other there present)
        (λ t. c.led t target p here (ground arith)) p.state.participant_id)

module _ {b : Bool} (room : RoomState) (conn_id : ConnId) (c : IsConsistent b room) where
  -- Where another connection is the host, nothing else has to change.
  without_waiting-IsConsistent :
      is_host room conn_id ≡ false → IsConsistent b (without_waiting room conn_id)
  without_waiting-IsConsistent other = record {
    unique = remove-IsUnique room.participants conn_id c.unique;
    apart = remove-IsApart room.participants conn_id c.apart;
    bound = λ h d. ground (
      arith,
      c.bound h d,
      contains-discard room.co_host_conn_ids conn_id d,
      get-remove room.participants conn_id d,
      nat_beq_iff d conn_id,
      nat_beq_iff conn_id d,
    );
    led =
        λ h d p there present. ground (arith, c.led h d p, get-remove room.participants conn_id d);
    host_here =
        λ h. remove-HasHost room.participants conn_id room.host_conn_id other (c.host_here h);
    distinct = λ h. remove-IsDistinct room.participants conn_id (c.distinct h);
  }

  -- Where the host leaves, the next host is one of the others, and the bindings are rebuilt.
  next_host-IsConsistent :
      IsConsistent b
        (sync_active_co_host_bindings (with_next_host (without_waiting room conn_id))).0
  unfolding sync_active_co_host_bindings
  next_host-IsConsistent =
      let left = remove-IsUnique room.participants conn_id c.unique in
      record {
        unique = left;
        apart = remove-IsApart room.participants conn_id c.apart;
        bound = λ h d.
            sync_active_co_host_bindings-IsBound (with_next_host (without_waiting room conn_id))
              left d;
        led = λ h. min_key-IsLed (remove room.participants conn_id);
        host_here = λ h. min_key-get (remove room.participants conn_id);
        distinct = λ h. remove-IsDistinct room.participants conn_id (c.distinct h);
      }

  pub deny_waiting_participant-IsConsistent :
      (r : RoomState × Str) → deny_waiting_participant room conn_id ≡ ok r → IsConsistent b r.0
  deny_waiting_participant-IsConsistent r h = elim (denied r h) [
    | inl (_, e) ↦ subst (IsConsistent _) (sym e) next_host-IsConsistent
    | inr (other, e) ↦ subst (IsConsistent _) (sym e) (without_waiting-IsConsistent other)
  ]
    where
      denied :
          (r : RoomState × Str)
          → deny_waiting_participant room conn_id ≡ ok r
          → (is_host room conn_id ≡ true)
              × (r.0
                  ≡ (sync_active_co_host_bindings
                      (with_next_host (without_waiting room conn_id))).0)
            ⊎ (is_host room conn_id ≡ false) × (r.0 ≡ without_waiting room conn_id)
      denied r h = unfold deny_waiting_participant in ground arith

  -- In an anonymous room nothing is promised of the host and the bindings.
  anonymous-IsConsistent : room.anonymous_mode ≡ true → IsConsistent b (without_conn room conn_id)
  anonymous-IsConsistent anon = record {
    unique = remove-IsUnique room.participants conn_id c.unique;
    apart = remove-IsApart room.participants conn_id c.apart;
    bound = λ h. cc;
    led = λ h. cc;
    host_here = λ h. cc;
    distinct = λ h. remove-IsDistinct room.participants conn_id (c.distinct h);
  }

  without_conn-IsConsistent :
      is_host room conn_id ≡ false → IsConsistent b (without_conn room conn_id)
  without_conn-IsConsistent other =
      let w = without_waiting-IsConsistent other in
      record {
        unique = w.unique;
        apart = w.apart;
        bound = w.bound;
        led = w.led;
        host_here = w.host_here;
        distinct = w.distinct;
      }

  pass_host_on-IsConsistent : IsConsistent b (pass_host_on (without_conn room conn_id))
  unfolding pass_host_on sync_active_co_host_bindings
  pass_host_on-IsConsistent =
      let left = remove-IsUnique room.participants conn_id c.unique in
      record {
        unique = left;
        apart = remove-IsApart room.participants conn_id c.apart;
        bound = λ h d.
            sync_active_co_host_bindings-IsBound (with_next_host (without_conn room conn_id)) left
              d;
        led = λ h. min_key-IsLed (remove room.participants conn_id);
        host_here = λ h. min_key-get (remove room.participants conn_id);
        distinct = λ h. remove-IsDistinct room.participants conn_id (c.distinct h);
      }

note_left-IsConsistent :
    {b : Bool} (room : RoomState) (at_ms left_at_ms : ℕ) (left : Option ParticipantState)
    → IsConsistent b room
    → IsConsistent b (note_left room at_ms left_at_ms left).0
note_left-IsConsistent room at_ms left_at_ms none c = c
note_left-IsConsistent room at_ms left_at_ms (some s) c = record {
  unique = c.unique;
  apart = c.apart;
  bound = c.bound;
  led = c.led;
  host_here = c.host_here;
  distinct = c.distinct;
}

module _ (room : RoomState) (conn_id : ConnId) (at_ms left_at_ms : ℕ) (room' : RoomState) where
  -- How a room goes on after a departure: an anonymous one as it is, a transparent one with the
  -- next host if the host has left.
  pub disconnect_section_cases :
      (disconnect_section room conn_id at_ms left_at_ms).0 ≡ some room'
      → let gone = without_conn room conn_id in
        let left = left_state (get room.participants conn_id) in
        (room.anonymous_mode ≡ true) × (room' ≡ gone)
        ⊎ (room.anonymous_mode ≡ false)
          × (is_host room conn_id ≡ true)
          × (room' ≡ (note_left (pass_host_on gone) at_ms left_at_ms left).0)
        ⊎ (room.anonymous_mode ≡ false)
          × (is_host room conn_id ≡ false)
          × (room' ≡ (note_left gone at_ms left_at_ms left).0)
  unfolding disconnect_section
  disconnect_section_cases h = ground arith

  pub disconnect_section-IsConsistent :
      {b : Bool}
      → IsConsistent b room
      → (disconnect_section room conn_id at_ms left_at_ms).0 ≡ some room'
      → IsConsistent b room'
  disconnect_section-IsConsistent c h = elim (disconnect_section_cases h) [
    | inl (anon, e) ↦ subst (IsConsistent _) (sym e) (anonymous-IsConsistent room conn_id c anon)
    | inr (inl (_, _, e)) ↦
        subst (IsConsistent _) (sym e)
          (note_left-IsConsistent _ at_ms left_at_ms _ (pass_host_on-IsConsistent room conn_id c))
    | inr (inr (_, other, e)) ↦ subst (IsConsistent _) (sym e) (
        note_left-IsConsistent _ at_ms left_at_ms _
          (without_conn-IsConsistent room conn_id c other))
  ]
