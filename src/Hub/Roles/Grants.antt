-- ===== src/Hub/Roles/Grants.antt =====
-- What role grants and revokes do (crates/kaigi-hub-echo/src/main.rs: `apply_role_grant`,
-- `apply_role_revoke`).
use sora_kaigi.Base.{
  ◌≡◌, refl, ◌∙◌, ap, sym, ◌⊎◌, true, false, none, some, IsUnique, contains, contains-add,
  contains-discard, is_some_of_iff, nat_eq, str_beq_iff, str_eq, if◌then◌else◌, Option-cases, inl,
  inr, arith,
}
use sora_kaigi.Base.Text.{Str, lit}
use sora_kaigi.Base.Results.{Res, ok, Res-cases}
use sora_kaigi.Wire.Frames.{RoleKind, RoleGrantFrame, RoleRevokeFrame}
use sora_kaigi.Hub.State.{Crypto, ConnId, Participant, RoomState}
use sora_kaigi.Hub.Clock.{enforce_signed_action_clock}
use sora_kaigi.Hub.Clock.Replay.{accepted_keeps}
use sora_kaigi.Hub.Hex.{role_grant_signature_is_valid}
use sora_kaigi.Hub.Roles.{is_host}
use sora_kaigi.Hub.Roles.Changes.{
  find_joined, check_role_grant, check_role_revoke, grant_host, grant_co_host, revoke_co_host,
  apply_role_grant, apply_role_revoke, with_host, with_co_host, without_co_host,
  RoleMutationOutcome, is_co_host_role,
}
use sora_kaigi.Hub.Roles.Bindings.{IsBound, sync_active_co_host_bindings-IsBound}

module _ (crypto : Crypto) (room : RoomState) (sender : ConnId) (grant : RoleGrantFrame) where
  -- The guards that a target has passed.
  pub check_role_grant-ok :
      (target : ConnId) (p : Participant)
      → find_joined room grant.target_participant_id ≡ some (target, p)
      → {t : ConnId} → check_role_grant crypto room sender grant ≡ ok t
      → (t ≡ target)
        × (is_host room sender ≡ true)
        × (role_grant_signature_is_valid crypto grant ≡ true)
        × ((grant.role ≡ RoleKind.host)
            ⊎ (grant.role ≡ RoleKind.co_host) × (is_host room target ≡ false))
  unfolding check_role_grant
  check_role_grant-ok target p f h = ground arith

  pub check_role_grant-found :
      {t : ConnId}
      → check_role_grant crypto room sender grant ≡ ok t
      → (p : Participant) × (find_joined room grant.target_participant_id ≡ some (t, p))
  check_role_grant-found {t} h =
      elim (Option-cases (find_joined room grant.target_participant_id)) [
        | inl missing ↦ absurd (none_found missing)
        | inr ((c, p), e) ↦ (p, e ∙ ap (λ x. some (x, p)) (sym (check_role_grant-ok c p e h).0))
      ]
    where
      none_found : find_joined room grant.target_participant_id ≡ none → ⊥
      none_found missing = unfold check_role_grant in ground arith

module _ (room : RoomState) (target : ConnId) (id : Str) where
  pub grant_host_lem :
      let r = (grant_host room target id).0 in
      (r.host_conn_id ≡ some target)
      × (r.host_role_owner ≡ some id)
      × (r.participants ≡ room.participants)
  unfolding grant_host
  grant_host_lem = (
    ground (arith, is_some_of_iff room.host_conn_id target),
    ground (arith, is_some_of_iff room.host_role_owner id),
    refl,
  )

  module _ (u : IsUnique room.participants) where
    pub grant_host-IsBound : IsBound (grant_host room target id).0
    unfolding grant_host
    grant_host-IsBound c = sync_active_co_host_bindings-IsBound (with_host room target id) u c

    pub grant_co_host-IsBound : IsBound (grant_co_host room target id).0
    unfolding grant_co_host
    grant_co_host-IsBound c =
        sync_active_co_host_bindings-IsBound (with_co_host room target id).0 u c

    pub revoke_co_host-IsBound : IsBound (revoke_co_host room target id).0
    unfolding revoke_co_host
    revoke_co_host-IsBound c =
        sync_active_co_host_bindings-IsBound (without_co_host room target id) u c

  -- The roles that an id holds afterwards, and what stays.
  pub grant_co_host_lem :
      let r = (grant_co_host room target id).0 in
      (contains r.co_host_role_owners id ≡ true)
      × (r.host_conn_id ≡ room.host_conn_id)
      × (r.participants ≡ room.participants)
  unfolding grant_co_host
  grant_co_host_lem =
      (ground (arith, contains-add room.co_host_role_owners id id, str_beq_iff id id), refl, refl)

  pub revoke_co_host_lem :
      let r = (revoke_co_host room target id).0 in
      (contains r.co_host_role_owners id ≡ false)
      × (r.host_conn_id ≡ room.host_conn_id)
      × (r.participants ≡ room.participants)
  unfolding revoke_co_host
  revoke_co_host_lem = (
    ground (arith, contains-discard room.co_host_role_owners id id, str_beq_iff id id),
    refl,
    refl,
  )

module _ (crypto : Crypto) (room : RoomState) (sender : ConnId) where
  pub apply_role_grant-ok :
      (grant : RoleGrantFrame) (r : RoomState × RoleMutationOutcome)
      → apply_role_grant crypto room sender grant ≡ ok r
      → (target : ConnId) × (clocked : RoomState) × (check_role_grant crypto room sender grant
          ≡ ok target)
        × (clocked.participants ≡ room.participants)
        × (clocked.host_conn_id ≡ room.host_conn_id)
        × (r ≡ (
            if is_co_host_role grant.role
            then grant_co_host clocked target grant.target_participant_id
            else grant_host clocked target grant.target_participant_id))
  apply_role_grant-ok grant r h = elim (Res-cases (check_role_grant crypto room sender grant)) [
    | inl (target, checked) ↦ elim (Res-cases (clock grant)) [
      | inl (clocked, e) ↦
          let kept = accepted_keeps room _ _ _ _ clocked e in
          (
            target,
            clocked,
            checked,
            ap (λ x. x.participants) kept,
            ap (λ x. x.host_conn_id) kept,
            unfold apply_role_grant in ground arith,
          )
      | inr (x, e) ↦ unfold apply_role_grant in absurd (ground arith)
    ]
    | inr (x, e) ↦ unfold apply_role_grant in absurd (ground arith)
  ]
    where
      clock : RoleGrantFrame → Res RoomState
      clock grant =
          enforce_signed_action_clock room (lit "role_grant") grant.granted_by (lit "issued_at_ms")
            grant.issued_at_ms

  check_role_revoke-ok :
      (revoke : RoleRevokeFrame) {target : ConnId}
      → check_role_revoke crypto room sender revoke ≡ ok target
      → is_host room sender ≡ true
  unfolding check_role_revoke
  check_role_revoke-ok revoke h = ground arith

  pub apply_role_revoke-ok :
      (revoke : RoleRevokeFrame) (r : RoomState × RoleMutationOutcome)
      → apply_role_revoke crypto room sender revoke ≡ ok r
      → (is_host room sender ≡ true)
        × (target : ConnId) × (clocked : RoomState) × (clocked.participants ≡ room.participants)
        × (clocked.host_conn_id ≡ room.host_conn_id)
        × (r ≡ revoke_co_host clocked target revoke.target_participant_id)
  apply_role_revoke-ok revoke r h = elim (Res-cases (check_role_revoke crypto room sender revoke)) [
    | inl (target, checked) ↦ elim (Res-cases (clock revoke)) [
      | inl (clocked, e) ↦
          let kept = accepted_keeps room _ _ _ _ clocked e in
          (
            check_role_revoke-ok revoke checked,
            target,
            clocked,
            ap (λ x. x.participants) kept,
            ap (λ x. x.host_conn_id) kept,
            unfold apply_role_revoke in ground arith,
          )
      | inr (x, e) ↦ unfold apply_role_revoke in absurd (ground arith)
    ]
    | inr (x, e) ↦ unfold apply_role_revoke in absurd (ground arith)
  ]
    where
      clock : RoleRevokeFrame → Res RoomState
      clock revoke =
          enforce_signed_action_clock room (lit "role_revoke") revoke.revoked_by
            (lit "issued_at_ms") revoke.issued_at_ms
