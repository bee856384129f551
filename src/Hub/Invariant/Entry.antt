-- ===== src/Hub/Invariant/Entry.antt =====
-- A connection takes a place in a room (crates/kaigi-hub-echo/src/main.rs:
-- what the `Hello` handler and `admit_waiting_participant` share).
use sora_kaigi.Base.{
  Bool, ◌≡◌, ◌≢◌, refl, sym, ◌∙◌, true, false, not, ◌&&◌, some, get, put, any-get, get-put,
  put-IsUnique, IsUnique, is_none, is_some, nat_beq, nat_beq_iff, str_beq, str_beq_iff, nat_eq,
  str_eq, Bool-cases, inl, inr, arith,
}
use sora_kaigi.Base.Text.{Str}
use sora_kaigi.Hub.State.{ConnId, Participant, RoomState}
use sora_kaigi.Hub.Roles.{
  sync_active_co_host_bindings, restore_reserved_roles_on_join, with_reserved_roles,
}
use sora_kaigi.Hub.Roles.Bindings.{IsBound, sync_active_co_host_bindings-IsBound}
use sora_kaigi.Hub.Admission.{
  is_present, id_in_use, claim_host, with_participant, with_key_epoch, complete_join,
}
use sora_kaigi.Hub.Invariant.{
  IsApart, IsDistinct, HasHost, IsConsistent, put-IsApart, put-HasHost, put-IsDistinct,
}

-- A room with the same connections, whose co-host bindings were just rebuilt and whose host is
-- connected.
pub rebuilt :
    {b : Bool} (room next : RoomState)
    → IsConsistent b room
    → next.participants ≡ room.participants
    → next.anonymous_mode ≡ room.anonymous_mode
    → IsBound next
    → (room.anonymous_mode ≡ false
        → is_some room.host_conn_id ≡ true
        → is_some next.host_conn_id ≡ true)
    → ((b ≡ true) × (room.anonymous_mode ≡ false) → HasHost room.participants next.host_conn_id)
    → IsConsistent b next
rebuilt room next c same mode bound led host = record {
  unique = rw same c.unique;
  apart = rw same c.apart;
  bound = λ h. bound;
  led = λ h.
      rw same (λ d p there present. led (sym mode ∙ h) (c.led (sym mode ∙ h) d p there present));
  host_here = λ h. rw same (host (h.0, sym mode ∙ h.1));
  distinct = λ h. rw same (c.distinct (sym mode ∙ h));
}

pub claim_host-IsConsistent :
    {b : Bool} (room : RoomState) (conn_id : ConnId) (id : Str)
    → IsConsistent b room
    → (b ≡ true → is_some (get room.participants conn_id) ≡ true)
    → IsConsistent b (claim_host room conn_id id)
unfolding claim_host sync_active_co_host_bindings
claim_host-IsConsistent room conn_id id c here = elim (Bool-cases (is_none room.host_conn_id)) [
  | inl free ↦ rw free (
      rebuilt room _ c refl refl
        (λ d.
          sync_active_co_host_bindings-IsBound
            (record room { host_conn_id = some conn_id; host_role_owner = some id }) c.unique d)
        (λ h e. refl) (λ h d e. ground (arith, here h.0)))
  | inr taken ↦ rw taken c
]

-- Joining is completed in a room that is consistent but for its co-host bindings, which are
-- rebuilt.
pub complete_join-IsConsistent :
    {b : Bool} (room : RoomState) (conn_id : ConnId) (id : Str)
    → IsUnique room.participants
    → IsApart room.participants
    → (room.anonymous_mode ≡ false → is_some room.host_conn_id ≡ true)
    → ((b ≡ true) × (room.anonymous_mode ≡ false) → HasHost room.participants room.host_conn_id)
    → (room.anonymous_mode ≡ false → IsDistinct room.participants)
    → is_some (get room.participants conn_id) ≡ true
    → IsConsistent b (complete_join room conn_id id)
unfolding complete_join restore_reserved_roles_on_join
complete_join-IsConsistent room conn_id id unique apart led host distinct here = record {
  unique = unique;
  apart = apart;
  bound = λ h d.
      sync_active_co_host_bindings-IsBound
        (with_reserved_roles (with_key_epoch room conn_id) conn_id id).0 unique d;
  led = λ h d p there present. ground (arith, led h);
  host_here = λ h d e. ground (arith, host h d);
  distinct = distinct;
}

-- A participant takes its place in a room where nobody else is present under its id.
module _ {b : Bool} (room : RoomState) (conn_id : ConnId) (old new : Participant)
    (c : IsConsistent b room) (here : get room.participants conn_id ≡ some old)
    (one : (new.state.hello_seen && new.state.waiting_room_pending) ≡ false) where
  put_here : is_some (get (put room.participants conn_id new) conn_id) ≡ true
  put_here =
      ground (arith, get-put room.participants conn_id new conn_id, nat_beq_iff conn_id conn_id)

  -- It waits, and had not joined: no co-host is due or undue.
  waiting-IsBound :
      old.state.hello_seen ≡ false
      → new.state.hello_seen ≡ false
      → IsBound room
      → IsBound (with_participant room conn_id new)
  waiting-IsBound before after bound d =
      ground (arith, bound d, get-put room.participants conn_id new d, nat_beq_iff conn_id d)

  module _
      (free : room.anonymous_mode ≡ false
        → (d : ConnId) (q : Participant) → d ≢ conn_id
        → get room.participants d ≡ some q
        → is_present q ≡ true
        → q.state.participant_id ≢ new.state.participant_id)
      (led : room.anonymous_mode ≡ false → is_some room.host_conn_id ≡ true) where
    pub waiting-IsConsistent :
        old.state.hello_seen ≡ false
        → new.state.hello_seen ≡ false
        → IsConsistent b (with_participant room conn_id new)
    waiting-IsConsistent before after = record {
      unique = put-IsUnique room.participants conn_id new c.unique;
      apart = put-IsApart room.participants conn_id new one c.apart;
      bound = λ h. waiting-IsBound before after (c.bound h);
      led = λ h d p there present. led h;
      host_here = λ h. put-HasHost room.participants conn_id new room.host_conn_id (c.host_here h);
      distinct = λ h. put-IsDistinct room.participants conn_id new (free h) (c.distinct h);
    }

    pub joined-IsConsistent :
        (id : Str) → IsConsistent b (complete_join (with_participant room conn_id new) conn_id id)
    joined-IsConsistent id =
        complete_join-IsConsistent (with_participant room conn_id new) conn_id id
          (put-IsUnique room.participants conn_id new c.unique)
          (put-IsApart room.participants conn_id new one c.apart) led
          (λ h. put-HasHost room.participants conn_id new room.host_conn_id (c.host_here h))
          (λ h. put-IsDistinct room.participants conn_id new (free h) (c.distinct h)) put_here

-- Where the id is not in use, nobody else is present under it.
pub id_free :
    (room : RoomState) (conn_id : ConnId) (id : Str) (d : ConnId) (q : Participant)
    → id_in_use room conn_id id ≡ false
    → d ≢ conn_id
    → get room.participants d ≡ some q
    → is_present q ≡ true
    → q.state.participant_id ≢ id
id_free room conn_id id d q unused other here present same = ground (
  arith,
  any-get
      (λ (e : ConnId × Participant).
        not (nat_beq e.0 conn_id) && is_present e.1 && str_beq e.1.state.participant_id id)
      room.participants d q here,
  nat_beq_iff d conn_id,
  str_beq_iff q.state.participant_id id,
)
