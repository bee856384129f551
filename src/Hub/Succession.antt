-- ===== src/Hub/Succession.antt =====
-- Who becomes the host of a room (crates/kaigi-hub-echo/src/main.rs): when the host goes
-- (`handle_disconnect`), in the waiting room, and by the `Hello` of an absent connection.
use sora_kaigi.Base.{
  ℕ, ◌≤◌, ◌≡◌, refl, subst, ◌∙◌, true, false, none, some, List, [], ◌∷◌, is_empty, get, remove,
  is_some, nat_eq, str_eq, arith,
}
use sora_kaigi.Base.Text.{Str}
use sora_kaigi.Wire.Frames.{HelloFrame}
use sora_kaigi.Hub.State.{ConnId, Participant, RoomState}
use sora_kaigi.Hub.Roles.{is_host, sync_active_co_host_bindings}
use sora_kaigi.Hub.Admission.{
  routes_to_waiting_room, conn_or_participant_can_moderate, validate_join_allowed, claim_host,
  enter, hello_section, HelloOutcome,
}
use sora_kaigi.Hub.Invariant.Hello.{claim_host-participants, enter-absent}
use sora_kaigi.Hub.Lobby.{min_key, pass_host_on, disconnect_section}
use sora_kaigi.Hub.Invariant.{min_key-get, min_key-le}

-- A host never waits for admission, whatever the room's policy and the id in its `Hello`.
pub host-skips_waiting_room :
    (room : RoomState) (conn_id : ConnId) (id : Str)
    → is_host room conn_id ≡ true
    → routes_to_waiting_room room conn_id id ≡ false
unfolding routes_to_waiting_room conn_or_participant_can_moderate
host-skips_waiting_room room conn_id id h = ground arith

min_key-some :
    (m : List (ConnId × Participant)) → is_empty m ≡ false → (c : ConnId) × (min_key m ≡ some c)
unfolding min_key
min_key-some [] h = absurd (ground arith)
min_key-some ((k, p) ∷ m) h = (_, refl)

claim_host-host :
    (room : RoomState) (conn_id : ConnId) (id : Str)
    → room.host_conn_id ≡ none
    → (claim_host room conn_id id).host_conn_id ≡ some conn_id
unfolding claim_host sync_active_co_host_bindings
claim_host-host room conn_id id hostless = ground arith

entered_at_once :
    (room : RoomState) (conn_id : ConnId) (hello : HelloFrame) (at_ms delta_at_ms : ℕ)
    → room.anonymous_mode ≡ false
    → validate_join_allowed room conn_id hello.participant_id ≡ none
    → hello_section room conn_id hello at_ms delta_at_ms
      ≡ enter (claim_host room conn_id hello.participant_id) conn_id hello at_ms delta_at_ms
unfolding hello_section
entered_at_once room conn_id hello at_ms delta_at_ms open_room allowed = ground arith

entered_claimed :
    (room : RoomState) (conn_id : ConnId) (hello : HelloFrame) (at_ms delta_at_ms : ℕ)
    → room.anonymous_mode ≡ false
    → get room.participants conn_id ≡ none
    → validate_join_allowed room conn_id hello.participant_id ≡ none
    → hello_section room conn_id hello at_ms delta_at_ms
      ≡ (claim_host room conn_id hello.participant_id, HelloOutcome.participant_missing)
entered_claimed room conn_id hello at_ms delta_at_ms open_room absent allowed =
    let id = hello.participant_id in
    let missing =
      enter-absent (claim_host room conn_id id) conn_id hello at_ms delta_at_ms
        (rw (claim_host-participants room conn_id id) absent) in
    entered_at_once room conn_id hello at_ms delta_at_ms open_room allowed ∙ missing

module _ (room after : RoomState) (conn_id : ConnId) (at_ms left_at_ms : ℕ)
    (transparent : room.anonymous_mode ≡ false) (hosted : is_host room conn_id ≡ true)
    (left : (disconnect_section room conn_id at_ms left_at_ms).0 ≡ some after) where
  settled_host :
      (after.host_conn_id ≡ min_key (remove room.participants conn_id))
      × (after.participants ≡ remove room.participants conn_id)
  unfolding disconnect_section pass_host_on sync_active_co_host_bindings
  settled_host = ground arith

  remaining_one : is_empty (remove room.participants conn_id) ≡ false
  unfolding disconnect_section
  remaining_one = ground arith

  -- When the host of a transparent room leaves and the room is not dropped, there is a new host:
  -- the lowest connection number that is left, of someone who may still be waiting for admission.
  -- The others stay as they were.
  pub disconnect_section-host :
      (c : ConnId) × (after.host_conn_id ≡ some c)
      × (is_some (get after.participants c) ≡ true)
      × ((d : ConnId) → is_some (get after.participants d) ≡ true → c ≤ d)
      × (after.participants ≡ remove room.participants conn_id)
  disconnect_section-host =
      let remaining = remove room.participants conn_id in
      let (c, lowest) = min_key-some remaining remaining_one in
      (
        c,
        settled_host.0 ∙ lowest,
        rw settled_host.1 (min_key-get remaining c lowest),
        λ d h.
            min_key-le remaining c d lowest
              (subst (λ m. is_some (get m d) ≡ true) settled_host.1 h),
        settled_host.1,
      )

-- A connection that is not in the room may still send `Hello`. In a transparent room without a
-- host, where the checks let it join, it becomes the host although it has no entry, and the
-- handler then fails: the room has a host who is not in it.
pub removed_becomes_host :
    (room : RoomState) (conn_id : ConnId) (hello : HelloFrame) (at_ms delta_at_ms : ℕ)
    → room.anonymous_mode ≡ false
    → room.host_conn_id ≡ none
    → get room.participants conn_id ≡ none
    → validate_join_allowed room conn_id hello.participant_id ≡ none
    → let after = hello_section room conn_id hello at_ms delta_at_ms in
      (after.1 ≡ HelloOutcome.participant_missing)
      × (after.0.host_conn_id ≡ some conn_id)
      × (get after.0.participants conn_id ≡ none)
removed_becomes_host room conn_id hello at_ms delta_at_ms open_room hostless absent allowed =
    let id = hello.participant_id in
    let e = entered_claimed room conn_id hello at_ms delta_at_ms open_room absent allowed in
    rw e (
      refl,
      claim_host-host room conn_id id hostless,
      rw (claim_host-participants room conn_id id) absent,
    )
