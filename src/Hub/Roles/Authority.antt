-- ===== src/Hub/Roles/Authority.antt =====
-- Who can change roles, and to what effect (crates/kaigi-hub-echo/src/main.rs: `apply_role_grant`,
-- `apply_role_revoke`).
use sora_kaigi.Base.{
  ◌≡◌, refl, ◌∙◌, ap, sym, subst, ◌⊎◌, inl, inr, Bool, true, false, ◌&&◌, some, get, IsUnique,
  contains, find-get, str_beq, str_beq_iff, nat_eq, str_eq, if◌then◌else◌, arith,
}
use sora_kaigi.Base.Text.{Str}
use sora_kaigi.Base.Results.{ok}
use sora_kaigi.Wire.Frames.{RoleKind, RoleGrantFrame, RoleRevokeFrame}
use sora_kaigi.Hub.State.{Crypto, ConnId, Participant, RoomState}
use sora_kaigi.Hub.Roles.{is_host}
use sora_kaigi.Hub.Roles.Changes.{
  find_joined, grant_host, grant_co_host, revoke_co_host, apply_role_grant, apply_role_revoke,
  RoleMutationOutcome, is_co_host_role,
}
use sora_kaigi.Hub.Roles.Bindings.{IsBound}
use sora_kaigi.Hub.Roles.Grants.{
  check_role_grant-ok, check_role_grant-found, apply_role_grant-ok, apply_role_revoke-ok,
  grant_host_lem, grant_co_host_lem, revoke_co_host_lem, grant_host-IsBound, grant_co_host-IsBound,
  revoke_co_host-IsBound,
}

-- What a role grant to a connection comes to.
abbrev pub Granted : RoomState → RoleGrantFrame → ConnId → RoomState → Type 0
Granted room grant target room' =
    (grant.role ≡ RoleKind.host)
      × (room'.host_conn_id ≡ some target)
      × (room'.host_role_owner ≡ some grant.target_participant_id)
    ⊎ (grant.role ≡ RoleKind.co_host)
      × (room'.host_conn_id ≡ room.host_conn_id)
      × (contains room'.co_host_conn_ids target ≡ true)

-- The participant that `find_joined` names is present under the id.
pub find_joined-get :
    (room : RoomState) (id : Str) (target : ConnId) (p : Participant)
    → IsUnique room.participants
    → find_joined room id ≡ some (target, p)
    → (get room.participants target ≡ some p)
      × (p.state.hello_seen ≡ true)
      × (p.state.participant_id ≡ id)
unfolding find_joined
find_joined-get room id target p u h =
    let facts =
      find-get
        (λ (e : ConnId × Participant). e.1.state.hello_seen && str_beq e.1.state.participant_id id)
        room.participants target p u h in
    ground (arith, facts, str_beq_iff p.state.participant_id id)

module _ (clocked : RoomState) (target : ConnId) (id : Str)
    (u : IsUnique clocked.participants) where
  role-IsBound :
      (b : Bool)
      → IsBound (if b then grant_co_host clocked target id else grant_host clocked target id).0
  role-IsBound true = grant_co_host-IsBound clocked target id u
  role-IsBound false = grant_host-IsBound clocked target id u

  -- A present participant whose id is given the role is bound, unless it is the host.
  granted_co_host_bound :
      (p : Participant)
      → get clocked.participants target ≡ some p
      → p.state.hello_seen ≡ true
      → p.state.participant_id ≡ id
      → is_host clocked target ≡ false
      → contains (grant_co_host clocked target id).0.co_host_conn_ids target ≡ true
  granted_co_host_bound p here seen named guest =
      let facts = grant_co_host_lem clocked target id in
      let r = (grant_co_host clocked target id).0 in
      let holds : contains r.co_host_role_owners p.state.participant_id ≡ true = rw named facts.0 in
      let found : get r.participants target ≡ some p = rw facts.2 here in
      let other : is_host r target ≡ false = rw facts.1 guest in
      grant_co_host-IsBound clocked target id u target ∙ rw (other, found, seen, holds)

  role-Granted :
      (room : RoomState) (grant : RoleGrantFrame) (p : Participant)
      → clocked.host_conn_id ≡ room.host_conn_id
      → get clocked.participants target ≡ some p
      → p.state.hello_seen ≡ true
      → p.state.participant_id ≡ id
      → grant.target_participant_id ≡ id
      → (grant.role ≡ RoleKind.host)
        ⊎ (grant.role ≡ RoleKind.co_host) × (is_host room target ≡ false)
      → Granted room grant target
          (if is_co_host_role grant.role
            then grant_co_host clocked target id
            else grant_host clocked target id).0
  role-Granted room grant p host here seen named same (inl as_host) =
      let granted = grant_host_lem clocked target id in
      rw (as_host, same) (inl (refl, granted.0, granted.1))
  role-Granted room grant p host here seen named same (inr (as_co_host, guest)) =
      let granted = grant_co_host_lem clocked target id in
      rw as_co_host
        (inr (refl, granted.1 ∙ host, granted_co_host_bound p here seen named (rw host guest)))

module _ (crypto : Crypto) (room : RoomState) (sender : ConnId)
    (u : IsUnique room.participants) where
  -- In a room with one entry for each connection: an accepted role grant came from the host, for a
  -- present participant. A granted host is the
  -- host afterwards, under the id that the room remembers for it; a granted co-host is bound, and
  -- the host stays. In both cases the bound co-hosts are exactly the present participants whose
  -- ids hold the role, the host excepted.
  pub apply_role_grant-Granted :
      (grant : RoleGrantFrame) (room' : RoomState) (outcome : RoleMutationOutcome)
      → apply_role_grant crypto room sender grant ≡ ok (room', outcome)
      → (is_host room sender ≡ true)
        × IsBound room'
        × (target : ConnId) × (p : Participant) × (find_joined room grant.target_participant_id
            ≡ some (target, p))
        × Granted room grant target room'
  apply_role_grant-Granted grant room' outcome h =
      let (target, clocked, checked, same, host, e) =
        apply_role_grant-ok crypto room sender grant (room', outcome) h in
      let (p, found) = check_role_grant-found crypto room sender grant checked in
      let facts = check_role_grant-ok crypto room sender grant target p found checked in
      let here = find_joined-get room grant.target_participant_id target p u found in
      let uc = subst IsUnique (sym same) u in
      (
        facts.1,
        subst (λ r. IsBound r.0) (sym e)
            (role-IsBound clocked target grant.target_participant_id uc
              (is_co_host_role grant.role)),
        target,
        p,
        found,
        subst (λ r. Granted room grant target r.0) (sym e)
            (role-Granted clocked target grant.target_participant_id uc room grant p host
              (rw same here.0) here.1 here.2 refl facts.3),
      )

  -- In a room with one entry for each connection: an accepted revoke came from the host. Afterwards the id does not hold the co-host role, the
  -- host is the same, and the bound co-hosts are exactly the present participants whose ids hold
  -- the role, the host excepted.
  pub apply_role_revoke-revoked :
      (revoke : RoleRevokeFrame) (room' : RoomState) (outcome : RoleMutationOutcome)
      → apply_role_revoke crypto room sender revoke ≡ ok (room', outcome)
      → (is_host room sender ≡ true)
        × (contains room'.co_host_role_owners revoke.target_participant_id ≡ false)
        × (room'.host_conn_id ≡ room.host_conn_id)
        × IsBound room'
  apply_role_revoke-revoked revoke room' outcome h =
      let (by_host, target, clocked, same, host, e) =
        apply_role_revoke-ok crypto room sender revoke (room', outcome) h in
      let facts = revoke_co_host_lem clocked target revoke.target_participant_id in
      let now : room' ≡ (revoke_co_host clocked target revoke.target_participant_id).0 =
        ap (λ r. r.0) e in
      (
        by_host,
        rw now facts.0,
        rw now (facts.1 ∙ host),
        subst IsBound (sym now) (
            revoke_co_host-IsBound clocked target revoke.target_participant_id
              (subst IsUnique (sym same) u)),
      )
