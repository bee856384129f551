-- ===== src/Hub/Invariant/Governance.antt =====
-- Role changes, policies, keys and clocks, and the room's invariant
-- (crates/kaigi-hub-echo/src/main.rs).
use sora_kaigi.Base.{
  Bool, ℕ, ◌≡◌, refl, sym, subst, true, ◌&&◌, get, find-get, is_some, nat_eq, str_eq, str_beq, inl,
  inr, Bool-cases, Option-cases, arith,
}
use sora_kaigi.Base.Text.{Str, lit}
use sora_kaigi.Base.Results.{Res, ok, err, Res-cases}
use sora_kaigi.Wire.Frames.{
  RoleGrantFrame, RoleRevokeFrame, SessionPolicyFrame, E2eeKeyEpochFrame, KeyRotationAckFrame,
}
use sora_kaigi.Hub.State.{Crypto, ConnId, Participant, RoomState}
use sora_kaigi.Hub.Clock.{enforce_signed_action_clock}
use sora_kaigi.Hub.Roles.{sync_active_co_host_bindings}
use sora_kaigi.Hub.Roles.Changes.{
  with_host, with_co_host, without_co_host, grant_host, grant_co_host, revoke_co_host, find_joined,
  check_role_grant, check_role_revoke, is_co_host_role, apply_role_grant, apply_role_revoke,
  RoleMutationOutcome,
}
use sora_kaigi.Hub.Roles.Sections.{settle_role, role_grant_section, role_revoke_section}
use sora_kaigi.Hub.Roles.Bindings.{sync_active_co_host_bindings-IsBound}
use sora_kaigi.Hub.Roles.Grants.{check_role_grant-found}
use sora_kaigi.Hub.Policy.{
  apply_session_policy_update, e2ee_key_epoch_section, key_rotation_ack_section,
}
use sora_kaigi.Hub.Invariant.{IsConsistent}
use sora_kaigi.Hub.Invariant.Entry.{rebuilt}
use sora_kaigi.Hub.Invariant.Presence.{untouched-IsConsistent}

pub clock-IsConsistent :
    {b : Bool} (room : RoomState) (action_tag signer_id label : Str) (at : ℕ) (next : RoomState)
    → enforce_signed_action_clock room action_tag signer_id label at ≡ ok next
    → IsConsistent b room
    → IsConsistent b next
unfolding enforce_signed_action_clock
clock-IsConsistent room action_tag signer_id label at next h c =
    untouched-IsConsistent room next c (ground arith) (ground arith) (ground arith) (ground arith)
      (ground arith)

pub apply_session_policy_update-IsConsistent :
    {b : Bool} (crypto : Crypto) (room : RoomState) (conn_id : ConnId) (update : SessionPolicyFrame)
    (next : RoomState)
    → apply_session_policy_update crypto room conn_id update ≡ ok next
    → IsConsistent b room
    → IsConsistent b next
unfolding apply_session_policy_update enforce_signed_action_clock
apply_session_policy_update-IsConsistent crypto room conn_id update next h c =
    untouched-IsConsistent room next c (ground arith) (ground arith) (ground arith) (ground arith)
      (ground arith)

pub e2ee_key_epoch_section-IsConsistent :
    {b : Bool} (crypto : Crypto) (room : RoomState) (conn_id : ConnId) (frame : E2eeKeyEpochFrame)
    → IsConsistent b room
    → IsConsistent b (e2ee_key_epoch_section crypto room conn_id frame).0
unfolding e2ee_key_epoch_section enforce_signed_action_clock
e2ee_key_epoch_section-IsConsistent crypto room conn_id frame c =
    untouched-IsConsistent room _ c (ground arith) (ground arith) (ground arith) (ground arith)
      (ground arith)

pub key_rotation_ack_section-IsConsistent :
    {b : Bool} (room : RoomState) (conn_id : ConnId) (ack : KeyRotationAckFrame)
    → IsConsistent b room
    → IsConsistent b (key_rotation_ack_section room conn_id ack).0
unfolding key_rotation_ack_section enforce_signed_action_clock
key_rotation_ack_section-IsConsistent room conn_id ack c =
    untouched-IsConsistent room _ c (ground arith) (ground arith) (ground arith) (ground arith)
      (ground arith)

module _ {b : Bool} (room : RoomState) (target : ConnId) (participant_id : Str)
    (c : IsConsistent b room) where
  grant_host-IsConsistent :
      is_some (get room.participants target) ≡ true
      → IsConsistent b (grant_host room target participant_id).0
  unfolding grant_host sync_active_co_host_bindings
  grant_host-IsConsistent here =
      rebuilt room _ c refl refl
        (sync_active_co_host_bindings-IsBound (with_host room target participant_id) c.unique)
        (λ h e. ground arith) (λ h d e. ground (arith, here, c.host_here h d))

  grant_co_host-IsConsistent : IsConsistent b (grant_co_host room target participant_id).0
  unfolding grant_co_host sync_active_co_host_bindings
  grant_co_host-IsConsistent =
      rebuilt room _ c refl refl
        (sync_active_co_host_bindings-IsBound (with_co_host room target participant_id).0 c.unique)
        (λ h e. e) c.host_here

  revoke_co_host-IsConsistent : IsConsistent b (revoke_co_host room target participant_id).0
  unfolding revoke_co_host sync_active_co_host_bindings
  revoke_co_host-IsConsistent =
      rebuilt room _ c refl refl
        (sync_active_co_host_bindings-IsBound (without_co_host room target participant_id) c.unique)
        (λ h e. e) c.host_here

module _ {b : Bool} (crypto : Crypto) (room : RoomState) (sender : ConnId)
    (c : IsConsistent b room) where
  target_here :
      (grant : RoleGrantFrame) (t : ConnId) (clocked : RoomState)
      → check_role_grant crypto room sender grant ≡ ok t
      → enforce_signed_action_clock room
          (lit "role_grant")
          grant.granted_by
          (lit "issued_at_ms")
          grant.issued_at_ms
        ≡ ok clocked
      → is_some (get clocked.participants t) ≡ true
  unfolding find_joined enforce_signed_action_clock
  target_here grant t clocked passed q =
      let (p, found) = check_role_grant-found crypto room sender grant passed in
      ground (
        arith,
        find-get
            (λ (e : ConnId × Participant).
              e.1.state.hello_seen && str_beq e.1.state.participant_id grant.target_participant_id)
            room.participants t p c.unique found,
      )

  pub apply_role_grant-IsConsistent :
      (grant : RoleGrantFrame) (r : RoomState × RoleMutationOutcome)
      → apply_role_grant crypto room sender grant ≡ ok r
      → IsConsistent b r.0
  unfolding apply_role_grant find_joined
  apply_role_grant-IsConsistent grant r h =
      elim (Res-cases (check_role_grant crypto room sender grant)) [
        | inr (e, refused) ↦ absurd (ground arith)
        | inl (t, passed) ↦ elim (Res-cases clock) [
          | inr (e, stale) ↦ absurd (ground arith)
          | inl (clocked, q) ↦
              let cc =
                clock-IsConsistent room (lit "role_grant") grant.granted_by (lit "issued_at_ms")
                  grant.issued_at_ms clocked q c in
              elim (Bool-cases (is_co_host_role grant.role)) [
                | inl co ↦
                    let e : (grant_co_host clocked t grant.target_participant_id).0 ≡ r.0 =
                      ground arith in
                    subst (IsConsistent _) e
                      (grant_co_host-IsConsistent clocked t grant.target_participant_id cc)
                | inr host ↦
                    let e : (grant_host clocked t grant.target_participant_id).0 ≡ r.0 =
                      ground arith in
                    subst (IsConsistent _) e (
                      grant_host-IsConsistent clocked t grant.target_participant_id cc
                        (target_here grant t clocked passed q))
              ]
        ]
      ]
    where
      clock : Res RoomState
      clock =
          enforce_signed_action_clock room (lit "role_grant") grant.granted_by (lit "issued_at_ms")
            grant.issued_at_ms

  pub apply_role_revoke-IsConsistent :
      (revoke : RoleRevokeFrame) (r : RoomState × RoleMutationOutcome)
      → apply_role_revoke crypto room sender revoke ≡ ok r
      → IsConsistent b r.0
  unfolding apply_role_revoke
  apply_role_revoke-IsConsistent revoke r h =
      elim (Res-cases (check_role_revoke crypto room sender revoke)) [
        | inr (e, refused) ↦ absurd (ground arith)
        | inl (t, passed) ↦ elim (Res-cases clock) [
          | inr (e, stale) ↦ absurd (ground arith)
          | inl (clocked, q) ↦
              let e : (revoke_co_host clocked t revoke.target_participant_id).0 ≡ r.0 =
                ground arith in
              subst (IsConsistent _) e (
                revoke_co_host-IsConsistent clocked t revoke.target_participant_id (
                  clock-IsConsistent room (lit "role_revoke") revoke.revoked_by (lit "issued_at_ms")
                    revoke.issued_at_ms clocked q c))
        ]
      ]
    where
      clock : Res RoomState
      clock =
          enforce_signed_action_clock room (lit "role_revoke") revoke.revoked_by
            (lit "issued_at_ms") revoke.issued_at_ms

  settle_role-IsConsistent :
      (at_ms : ℕ) (r : Res (RoomState × RoleMutationOutcome))
      → ((s : RoomState × RoleMutationOutcome) → r ≡ ok s → IsConsistent b s.0)
      → IsConsistent b (settle_role room at_ms r).0
  settle_role-IsConsistent at_ms (err e) changed = c
  settle_role-IsConsistent at_ms (ok (next, outcome)) changed =
      elim (Option-cases outcome.role_change) [
        | inl same ↦ rw same (changed (next, outcome) refl)
        | inr (entry, noted) ↦
            rw noted (
              untouched-IsConsistent next _ (changed (next, outcome) refl) refl refl refl refl refl)
      ]

  pub role_grant_section-IsConsistent :
      (grant : RoleGrantFrame) (at_ms : ℕ)
      → IsConsistent b (role_grant_section crypto room sender grant at_ms).0
  unfolding role_grant_section
  role_grant_section-IsConsistent grant at_ms = elim (Bool-cases room.anonymous_mode) [
    | inl anonymous ↦
        let e : (role_grant_section crypto room sender grant at_ms).0 ≡ room = ground arith in
        subst (IsConsistent b) (sym e) c
    | inr transparent ↦
        let result = apply_role_grant crypto room sender grant in
        let e : role_grant_section crypto room sender grant at_ms ≡ settle_role room at_ms result =
          ground arith in
        rw e (settle_role-IsConsistent at_ms result (apply_role_grant-IsConsistent grant))
  ]

  pub role_revoke_section-IsConsistent :
      (revoke : RoleRevokeFrame) (at_ms : ℕ)
      → IsConsistent b (role_revoke_section crypto room sender revoke at_ms).0
  unfolding role_revoke_section
  role_revoke_section-IsConsistent revoke at_ms = elim (Bool-cases room.anonymous_mode) [
    | inl anonymous ↦
        let e : (role_revoke_section crypto room sender revoke at_ms).0 ≡ room = ground arith in
        subst (IsConsistent b) (sym e) c
    | inr transparent ↦
        let result = apply_role_revoke crypto room sender revoke in
        let e : role_revoke_section crypto room sender revoke at_ms
            ≡ settle_role room at_ms result =
          ground arith in
        rw e (settle_role-IsConsistent at_ms result (apply_role_revoke-IsConsistent revoke))
  ]
