-- ===== src/Hub/Roles/Changes.antt =====
-- Signed frames that grant and revoke roles (crates/kaigi-hub-echo/src/main.rs: `apply_role_grant`,
-- `apply_role_revoke`).
use sora_kaigi.Base.{
  Bool, true, false, not, ◌&&◌, ◌||◌, Option, none, some, ◌++◌, get, contains, add, discard, find,
  is_some_of, str_beq, nat_eq, str_eq, if◌then◌else◌,
}
use sora_kaigi.Base.Text.{Str, lit}
use sora_kaigi.Base.Results.{Res, ok, err, ok_or, ◌>>=◌, ◌>>◌}
use sora_kaigi.Wire.Frames.{RoleKind, RoleChangeEntry, RoleGrantFrame, RoleRevokeFrame}
use sora_kaigi.Hub.State.{Crypto, ConnId, Participant, RoomState}
use sora_kaigi.Hub.Clock.{enforce_signed_action_clock}
use sora_kaigi.Hub.Hex.{
  is_valid_hex_len, role_grant_signature_is_valid, role_revoke_signature_is_valid,
}
use sora_kaigi.Hub.Roles.{
  is_host, can_manage_roles_and_policy, sync_active_co_host_bindings, bind_co_host_if, bump_if,
}

pub record RoleMutationOutcome : Type 0 where
  pub host_changed : Bool
  pub permissions_changed : Bool
  pub role_change : Option RoleChangeEntry

-- `participants.iter().find(..)` for a participant who is present under an id.
unfoldable pub find_joined : RoomState → Str → Option (ConnId × Participant)
find_joined room participant_id =
    find (λ e. e.1.state.hello_seen && str_beq e.1.state.participant_id participant_id)
      room.participants

abbrev is_participant_role : RoleKind → Bool
is_participant_role RoleKind.participant = true
is_participant_role _ = false

abbrev pub is_co_host_role : RoleKind → Bool
is_co_host_role RoleKind.co_host = true
is_co_host_role _ = false

abbrev pub fail_if : Bool → Str → Res (Unit {0})
fail_if true e = err e
fail_if false e = ok tt

abbrev unknown_participant : Str → Str
unknown_participant participant_id = lit "unknown participant_id: " ++ participant_id

module _ (crypto : Crypto) where
  -- The guards of `apply_role_grant` before its clock: the connection of the target, or why not.
  unfoldable pub check_role_grant : RoomState → ConnId → RoleGrantFrame → Res ConnId
  unfolding can_manage_roles_and_policy find_joined
  check_role_grant room sender_conn_id grant = do
    sender ← ok_or (get room.participants sender_conn_id) (lit "participant missing")
    fail_if (not sender.state.hello_seen) (lit "send Hello first")
    fail_if (not (can_manage_roles_and_policy room sender_conn_id)) (lit "host only")
    fail_if (not (str_beq sender.state.participant_id grant.granted_by))
        (lit "granted_by must match sender participant_id")
    fail_if (not (is_valid_hex_len crypto grant.signature_hex 32))
        (lit "signature_hex must be 32-byte hex")
    fail_if (not (role_grant_signature_is_valid crypto grant))
        (lit "signature_hex failed role_grant verification")
    target ←
        ok_or (find_joined room grant.target_participant_id)
          (unknown_participant grant.target_participant_id)
    fail_if (is_participant_role grant.role) (lit "role grant supports Host or CoHost only")
    fail_if (is_co_host_role grant.role && is_host room target.0)
        (lit "host already has full permissions")
    ok target.0

  unfoldable pub check_role_revoke : RoomState → ConnId → RoleRevokeFrame → Res ConnId
  unfolding can_manage_roles_and_policy find_joined
  check_role_revoke room sender_conn_id revoke = do
    sender ← ok_or (get room.participants sender_conn_id) (lit "participant missing")
    fail_if (not sender.state.hello_seen) (lit "send Hello first")
    fail_if (not (can_manage_roles_and_policy room sender_conn_id)) (lit "host only")
    fail_if (not (str_beq sender.state.participant_id revoke.revoked_by))
        (lit "revoked_by must match sender participant_id")
    fail_if (not (is_valid_hex_len crypto revoke.signature_hex 32))
        (lit "signature_hex must be 32-byte hex")
    fail_if (not (role_revoke_signature_is_valid crypto revoke))
        (lit "signature_hex failed role_revoke verification")
    target ←
        ok_or (find_joined room revoke.target_participant_id)
          (unknown_participant revoke.target_participant_id)
    fail_if (not (is_co_host_role revoke.role)) (lit "role revoke supports CoHost only")
    ok target.0

abbrev pub with_host : RoomState → ConnId → Str → RoomState
with_host room target participant_id = record room {
  host_role_owner =
      if not (is_some_of room.host_role_owner participant_id)
      then some participant_id
      else room.host_role_owner;
  host_conn_id = if not (is_host room target) then some target else room.host_conn_id;
}

abbrev pub with_co_host : RoomState → ConnId → Str → RoomState × Bool
with_co_host room target participant_id =
    bind_co_host_if (not (is_host room target))
      (record room { co_host_role_owners = add room.co_host_role_owners participant_id }) target

abbrev pub without_co_host : RoomState → ConnId → Str → RoomState
without_co_host room target participant_id = record room {
  co_host_role_owners = discard room.co_host_role_owners participant_id;
  co_host_conn_ids = discard room.co_host_conn_ids target;
}

unfoldable pub grant_host : RoomState → ConnId → Str → RoomState × RoleMutationOutcome
unfolding sync_active_co_host_bindings
grant_host room target participant_id =
    let owner_changed = not (is_some_of room.host_role_owner participant_id) in
    let host_moved = not (is_host room target) in
    let synced = sync_active_co_host_bindings (with_host room target participant_id) in
    let changed = owner_changed || host_moved || synced.1 in
    (
      bump_if changed synced.0,
      record {
        host_changed = host_moved;
        permissions_changed = changed;
        role_change =
            if host_moved
            then some
                (record { participant_id = participant_id; role = RoleKind.host; granted = true })
            else none;
      },
    )

abbrev co_host_outcome : Bool → Str → Bool → RoleMutationOutcome
co_host_outcome changed participant_id granted = record {
  host_changed = false;
  permissions_changed = changed;
  role_change =
      if changed
      then some
          (record { participant_id = participant_id; role = RoleKind.co_host; granted = granted })
      else none;
}

unfoldable pub grant_co_host : RoomState → ConnId → Str → RoomState × RoleMutationOutcome
unfolding sync_active_co_host_bindings
grant_co_host room target participant_id =
    let new_owner = not (contains room.co_host_role_owners participant_id) in
    let bound = with_co_host room target participant_id in
    let synced = sync_active_co_host_bindings bound.0 in
    let changed = new_owner || bound.1 || synced.1 in
    (bump_if changed synced.0, co_host_outcome changed participant_id true)

unfoldable pub revoke_co_host : RoomState → ConnId → Str → RoomState × RoleMutationOutcome
unfolding sync_active_co_host_bindings
revoke_co_host room target participant_id =
    let was_owner = contains room.co_host_role_owners participant_id in
    let was_bound = contains room.co_host_conn_ids target in
    let synced = sync_active_co_host_bindings (without_co_host room target participant_id) in
    let changed = was_owner || was_bound || synced.1 in
    (bump_if changed synced.0, co_host_outcome changed participant_id false)

module _ (crypto : Crypto) where
  -- An error leaves the room as it was. The guards let only `Host` and `CoHost` through.
  unfoldable pub apply_role_grant :
      RoomState → ConnId → RoleGrantFrame → Res (RoomState × RoleMutationOutcome)
  apply_role_grant room sender_conn_id grant = do
    target ← check_role_grant crypto room sender_conn_id grant
    clocked ←
        enforce_signed_action_clock room (lit "role_grant") grant.granted_by (lit "issued_at_ms")
          grant.issued_at_ms
    ok (
        if is_co_host_role grant.role
        then grant_co_host clocked target grant.target_participant_id
        else grant_host clocked target grant.target_participant_id)

  -- The guards let only `CoHost` through.
  unfoldable pub apply_role_revoke :
      RoomState → ConnId → RoleRevokeFrame → Res (RoomState × RoleMutationOutcome)
  apply_role_revoke room sender_conn_id revoke = do
    target ← check_role_revoke crypto room sender_conn_id revoke
    clocked ←
        enforce_signed_action_clock room (lit "role_revoke") revoke.revoked_by (lit "issued_at_ms")
          revoke.issued_at_ms
    ok (revoke_co_host clocked target revoke.target_participant_id)
