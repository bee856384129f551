-- ===== src/Hub/Roles/Bindings.antt =====
-- The co-host bindings after `sync_active_co_host_bindings` (crates/kaigi-hub-echo/src/main.rs).
use sora_kaigi.Base.{
  ◌≡◌, Bool, not, ◌&&◌, ◌||◌, List, [], ◌∷◌, get, IsUnique, contains, add, contains-add,
  contains-filter, filter, nat_beq_iff, nat_eq, str_eq, arith,
}
use sora_kaigi.Hub.State.{ConnId, Participant, RoomState}
use sora_kaigi.Hub.Roles.{
  is_host, holds_co_host_role, is_some_and, insert_bindings, sync_active_co_host_bindings,
}

-- Who is to be a co-host: not the host, and present under an id that holds the role.
abbrev pub is_co_host_due : RoomState → ConnId → Bool
is_co_host_due room c =
    not (is_host room c) && is_some_and (get room.participants c) (holds_co_host_role room)

-- The bound connections are those that are due.
abbrev pub IsBound : RoomState → Type 0
IsBound room = (c : ConnId) → contains room.co_host_conn_ids c ≡ is_co_host_due room c

insert_bindings_lem :
    (room : RoomState) (ps : List (ConnId × Participant)) (ids : List ConnId) (c : ConnId)
    → IsUnique ps
    → contains (insert_bindings room ps ids) c ≡ (
        contains ids c
        || (not (is_host room c) && is_some_and (get ps c) (holds_co_host_role room)))
unfolding insert_bindings get
insert_bindings_lem room [] ids c u = ground arith
insert_bindings_lem room ((k, p) ∷ ps) ids c u = ground (
  arith,
  u.0,
  insert_bindings_lem room ps ids c u.1,
  insert_bindings_lem room ps (add ids k) c u.1,
  contains-add ids k c,
  nat_beq_iff k c,
)

-- In a room with one entry for each connection the bindings are rebuilt exactly: a connection is
-- bound afterwards when it is due, whatever was bound before.
pub sync_active_co_host_bindings-IsBound :
    (room : RoomState) → IsUnique room.participants → IsBound (sync_active_co_host_bindings room).0
unfolding sync_active_co_host_bindings
sync_active_co_host_bindings-IsBound room u c = ground (
  arith,
  insert_bindings_lem room room.participants
      (filter
        (λ (d : ConnId).
          not (is_host room d) && is_some_and (get room.participants d) (holds_co_host_role room))
        room.co_host_conn_ids)
      c u,
  contains-filter
      (λ (d : ConnId).
        not (is_host room d) && is_some_and (get room.participants d) (holds_co_host_role room))
      room.co_host_conn_ids c,
)
