-- ===== src/Hub/Invariant/Hello.antt =====
-- The `Hello` handler and the room's invariant (crates/kaigi-hub-echo/src/main.rs).
use sora_kaigi.Base.{
  ℕ, ◌≡◌, ◌≢◌, refl, sym, subst, ◌⊎◌, Bool, true, false, ◌&&◌, none, some, get, nat_eq, str_eq,
  if◌then◌else◌, Bool-cases, Option-cases, is_some, inl, inr, arith,
}
use sora_kaigi.Base.Text.{Str}
use sora_kaigi.Wire.Frames.{HelloFrame}
use sora_kaigi.Hub.State.{ConnId, Participant, RoomState}
use sora_kaigi.Hub.Roles.{sync_active_co_host_bindings}
use sora_kaigi.Hub.Admission.{
  is_present, id_in_use, validate_join_allowed, claim_host, hello_state, with_participant,
  complete_join, enter, HelloOutcome, hello_section, routes_to_waiting_room,
}
use sora_kaigi.Hub.Invariant.Entry.{
  claim_host-IsConsistent, waiting-IsConsistent, joined-IsConsistent, id_free,
}
use sora_kaigi.Hub.Invariant.{IsConsistent}

routes-not_joined :
    (room : RoomState) (conn_id : ConnId) (id : Str) (p : Participant)
    → get room.participants conn_id ≡ some p
    → routes_to_waiting_room room conn_id id ≡ true
    → p.state.hello_seen ≡ false
unfolding routes_to_waiting_room
routes-not_joined room conn_id id p here route = ground arith

abbrev pub helloed : Participant → HelloFrame → Bool → Participant
helloed p hello route = record p { state = hello_state hello route p.state }

pub enter_room :
    (room : RoomState) (conn_id : ConnId) (hello : HelloFrame) (at_ms delta_at_ms : ℕ)
    (p : Participant)
    → get room.participants conn_id ≡ some p
    → let route = routes_to_waiting_room room conn_id hello.participant_id in
      (enter room conn_id hello at_ms delta_at_ms).0 ≡ (
        if route
        then with_participant room conn_id (helloed p hello true)
        else complete_join
            (with_participant room conn_id (helloed p hello false))
            conn_id
            hello.participant_id)
unfolding enter
enter_room room conn_id hello at_ms delta_at_ms p here = ground arith

helloed_apart :
    (p : Participant) (hello : HelloFrame) (b : Bool)
    → let q = helloed p hello b in (q.state.hello_seen && q.state.waiting_room_pending) ≡ false
unfolding hello_state
helloed_apart p hello b = ground arith

helloed_id :
    (p : Participant) (hello : HelloFrame) (b : Bool)
    → (helloed p hello b).state.participant_id ≡ hello.participant_id
unfolding hello_state
helloed_id p hello b = refl

helloed_waiting :
    (p : Participant) (hello : HelloFrame) → (helloed p hello true).state.hello_seen ≡ false
unfolding hello_state
helloed_waiting p hello = refl

module _ {b : Bool} where
  pub enter-IsConsistent :
      (room : RoomState) (conn_id : ConnId) (hello : HelloFrame) (at_ms delta_at_ms : ℕ)
      (p : Participant)
      → IsConsistent b room
      → get room.participants conn_id ≡ some p
      → id_in_use room conn_id hello.participant_id ≡ false
      → (room.anonymous_mode ≡ false → is_some room.host_conn_id ≡ true)
      → IsConsistent b (enter room conn_id hello at_ms delta_at_ms).0
  enter-IsConsistent room conn_id hello at_ms delta_at_ms p c here unused led =
      rw (enter_room room conn_id hello at_ms delta_at_ms p here) (cases (Bool-cases route))
    where
      route : Bool
      route = routes_to_waiting_room room conn_id hello.participant_id

      free :
          (w : Bool)
          → room.anonymous_mode ≡ false
          → (d : ConnId) (q : Participant) → d ≢ conn_id
          → get room.participants d ≡ some q
          → is_present q ≡ true
          → q.state.participant_id ≢ (helloed p hello w).state.participant_id
      free w h d q other there present =
          rw (helloed_id p hello w)
            (id_free room conn_id hello.participant_id d q unused other there present)

      cases :
          (route ≡ true) ⊎ (route ≡ false)
          → IsConsistent b (
              if route
              then with_participant room conn_id (helloed p hello true)
              else complete_join
                  (with_participant room conn_id (helloed p hello false))
                  conn_id
                  hello.participant_id)
      cases (inl e) = rw e (
          waiting-IsConsistent room conn_id p (helloed p hello true) c here
            (helloed_apart p hello true) (free true) led
            (routes-not_joined room conn_id hello.participant_id p here e)
            (helloed_waiting p hello))
      cases (inr e) = rw e (
          joined-IsConsistent room conn_id p (helloed p hello false) c here
            (helloed_apart p hello false) (free false) led hello.participant_id)

allowed_free :
    (room : RoomState) (conn_id : ConnId) (id : Str)
    → validate_join_allowed room conn_id id ≡ none
    → id_in_use room conn_id id ≡ false
unfolding validate_join_allowed
allowed_free room conn_id id h = ground arith

pub claim_host-participants :
    (room : RoomState) (conn_id : ConnId) (id : Str)
    → (claim_host room conn_id id).participants ≡ room.participants
unfolding claim_host sync_active_co_host_bindings
claim_host-participants room conn_id id = ground arith

pub hello_section_cases :
    (room : RoomState) (conn_id : ConnId) (hello : HelloFrame) (at_ms delta_at_ms : ℕ)
    → ((hello_section room conn_id hello at_ms delta_at_ms).0 ≡ room)
      ⊎ (room.anonymous_mode ≡ false)
        × (validate_join_allowed room conn_id hello.participant_id ≡ none)
        × (hello_section room conn_id hello at_ms delta_at_ms
            ≡ enter (claim_host room conn_id hello.participant_id) conn_id hello at_ms delta_at_ms)
unfolding hello_section
hello_section_cases room conn_id hello at_ms delta_at_ms = ground arith

claim_host-led :
    (room : RoomState) (conn_id : ConnId) (id : Str)
    → is_some (claim_host room conn_id id).host_conn_id ≡ true
unfolding claim_host sync_active_co_host_bindings
claim_host-led room conn_id id = ground arith

-- A connection that is not in the room may still become its host.
pub enter-absent :
    (room : RoomState) (conn_id : ConnId) (hello : HelloFrame) (at_ms delta_at_ms : ℕ)
    → get room.participants conn_id ≡ none
    → enter room conn_id hello at_ms delta_at_ms ≡ (room, HelloOutcome.participant_missing)
unfolding enter
enter-absent room conn_id hello at_ms delta_at_ms absent = ground arith

module _ {b : Bool} where
  -- A hello, accepted, put off or refused, keeps the room consistent, and the host in it if the
  -- hello comes from a connection of the room.
  pub hello_section-IsConsistent :
      (room : RoomState) (conn_id : ConnId) (hello : HelloFrame) (at_ms delta_at_ms : ℕ)
      → IsConsistent b room
      → (b ≡ true → is_some (get room.participants conn_id) ≡ true)
      → IsConsistent b (hello_section room conn_id hello at_ms delta_at_ms).0
  hello_section-IsConsistent room conn_id hello at_ms delta_at_ms c known =
      elim (hello_section_cases room conn_id hello at_ms delta_at_ms) [
        | inl same ↦ subst (IsConsistent b) (sym same) c
        | inr (open_room, allowed, e) ↦
            let id = hello.participant_id in
            let claimed = claim_host room conn_id id in
            let cc = claim_host-IsConsistent room conn_id id c known in
            let same = claim_host-participants room conn_id id in
            subst (λ r. IsConsistent b r.0) (sym e)
              (elim (Option-cases (get room.participants conn_id)) [
                | inl absent ↦
                    rw (enter-absent claimed conn_id hello at_ms delta_at_ms (rw same absent)) cc
                | inr (p, here) ↦
                    enter-IsConsistent claimed conn_id hello at_ms delta_at_ms p cc (rw same here)
                      (rw same (allowed_free room conn_id id allowed))
                      (λ h. claim_host-led room conn_id id)
              ])
      ]
