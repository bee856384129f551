-- ===== src/Hub/Roles.antt =====
-- Host and co-hosts (crates/kaigi-hub-echo/src/main.rs): who may moderate, the bindings of co-host
-- roles to connections, and the roles that are kept for an id.
pub mod Changes
pub mod Sections
pub mod Bindings
pub mod Grants
pub mod Authority
use sora_kaigi.Base.{
  ℕ, Bool, true, false, not, ◌&&◌, ◌||◌, Option, none, some, List, [], ◌∷◌, ◌++◌, get, contains,
  add, discard, filter, find, all, is_some_of, opt_or, nat_beq, str_beq, nat_eq, str_eq,
  sat_add_u64, if◌then◌else◌,
}
use sora_kaigi.Base.Text.{Str, lit}
use sora_kaigi.Base.Results.{Res, ok, err, refuse, ok_or, ◌>>=◌, ◌>>◌}
use sora_kaigi.Wire.Frames.{RoleKind, RoleChangeEntry, RoleGrantFrame, RoleRevokeFrame}
use sora_kaigi.Hub.State.{Crypto, ConnId, Participant, ParticipantState, RoomState}
use sora_kaigi.Hub.Clock.{enforce_signed_action_clock}
use sora_kaigi.Hub.Hex.{
  is_valid_hex_len, role_grant_signature_is_valid, role_revoke_signature_is_valid,
}

-- `room.host_conn_id == Some(conn_id)`.
abbrev pub is_host : RoomState → ConnId → Bool
is_host room conn_id = is_some_of room.host_conn_id conn_id

unfoldable pub role_kind_for_conn : RoomState → ConnId → RoleKind
role_kind_for_conn room conn_id =
    if is_host room conn_id
    then RoleKind.host
    else if contains room.co_host_conn_ids conn_id
    then RoleKind.co_host
    else RoleKind.participant

unfoldable pub can_moderate_conn : RoomState → ConnId → Bool
unfolding role_kind_for_conn
can_moderate_conn room conn_id = elim (role_kind_for_conn room conn_id) [
  | RoleKind.host ↦ true
  | RoleKind.co_host ↦ true
  | RoleKind.participant ↦ false
]

unfoldable pub can_manage_roles_and_policy : RoomState → ConnId → Bool
can_manage_roles_and_policy room conn_id = is_host room conn_id

-- A participant who is present under an id that holds the co-host role.
abbrev pub holds_co_host_role : RoomState → Participant → Bool
holds_co_host_role room p =
    p.state.hello_seen && contains room.co_host_role_owners p.state.participant_id

abbrev pub is_some_and {ℓ} : {A : Type ℓ} → Option A → (A → Bool) → Bool
is_some_and none p = false
is_some_and (some a) p = p a

-- The loop over the participants that inserts the missing bindings.
insert_bindings : RoomState → List (ConnId × Participant) → List ConnId → List ConnId
insert_bindings room [] ids = ids
insert_bindings room ((conn_id, p) ∷ rest) ids = insert_bindings room rest (
    if not p.state.hello_seen || is_host room conn_id
    then ids
    else if contains room.co_host_role_owners p.state.participant_id
    then add ids conn_id
    else ids)

-- `HashSet` equality.
abbrev pub same_set : List ConnId → List ConnId → Bool
same_set s t = all (contains t) s && all (contains s) t

synced_co_hosts : RoomState → List ConnId
unfolding insert_bindings
synced_co_hosts room = insert_bindings room room.participants (
    filter
      (λ c. not (is_host room c) && is_some_and (get room.participants c) (holds_co_host_role room))
      room.co_host_conn_ids)

-- The room, and whether the bindings changed.
unfoldable pub sync_active_co_host_bindings : RoomState → RoomState × Bool
unfolding synced_co_hosts
sync_active_co_host_bindings room = (
  record room { co_host_conn_ids = synced_co_hosts room },
  not (same_set (synced_co_hosts room) room.co_host_conn_ids),
)

abbrev pub bump_permissions : RoomState → RoomState
bump_permissions room = record room { permissions_epoch = sat_add_u64 room.permissions_epoch 1 }

-- `test && set.insert(x)`: the room, and whether the binding is new.
abbrev pub bind_co_host_if : Bool → RoomState → ConnId → RoomState × Bool
bind_co_host_if test room conn_id = (
  record room {
    co_host_conn_ids = if test then add room.co_host_conn_ids conn_id else room.co_host_conn_ids;
  },
  test && not (contains room.co_host_conn_ids conn_id),
)

abbrev pub regains_host : RoomState → ConnId → Str → Bool
regains_host room conn_id participant_id =
    is_some_of room.host_role_owner participant_id && not (is_host room conn_id)

-- The roles that were kept for the id, given to the connection.
abbrev pub with_reserved_roles : RoomState → ConnId → Str → RoomState × Bool
with_reserved_roles room conn_id participant_id =
    let room1 = record room {
      host_conn_id =
          if regains_host room conn_id participant_id then some conn_id else room.host_conn_id;
    } in
    bind_co_host_if
      (not (is_host room1 conn_id) && contains room1.co_host_role_owners participant_id) room1
      conn_id

unfoldable pub restore_reserved_roles_on_join : RoomState → ConnId → Str → RoomState × Bool
unfolding sync_active_co_host_bindings
restore_reserved_roles_on_join room conn_id participant_id =
    let bound = with_reserved_roles room conn_id participant_id in
    let synced = sync_active_co_host_bindings bound.0 in
    (synced.0, regains_host room conn_id participant_id || bound.1 || synced.1)

abbrev pub bump_if : Bool → RoomState → RoomState
bump_if changed room = record room {
  permissions_epoch =
      if changed then sat_add_u64 room.permissions_epoch 1 else room.permissions_epoch;
}
