-- ===== src/Hub/Roles/Sections.antt =====
-- The locked sections of the `RoleGrant` and `RoleRevoke` handlers
-- (crates/kaigi-hub-echo/src/main.rs), and the test of the anonymous mode before them.
use sora_kaigi.Base.{ℕ, Option, none, some, [], ◌∷◌, sat_add_u64, if◌then◌else◌}
use sora_kaigi.Base.Text.{lit}
use sora_kaigi.Base.Results.{Res, ok, err}
use sora_kaigi.Wire.Frames.{
  RoleChangeEntry, RoleGrantFrame, RoleRevokeFrame, ParticipantPresenceDeltaFrame,
}
use sora_kaigi.Hub.State.{Crypto, ConnId, RoomState}
use sora_kaigi.Hub.Roles.Changes.{RoleMutationOutcome, apply_role_grant, apply_role_revoke}

abbrev role_delta : ℕ → ℕ → RoleChangeEntry → ParticipantPresenceDeltaFrame
role_delta at_ms sequence entry = record {
  at_ms = at_ms;
  sequence = sequence;
  joined = [];
  left = [];
  role_changes = entry ∷ [];
}

-- What the handler goes on with: the outcome and the presence change, or a refusal.
abbrev pub RoleReply : Type 0
RoleReply = Res (RoleMutationOutcome × Option ParticipantPresenceDeltaFrame)

abbrev note_role :
    RoomState → RoleMutationOutcome → ℕ → Option RoleChangeEntry → RoomState × RoleReply
note_role room outcome at_ms none = (room, ok (outcome, none))
note_role room outcome at_ms (some entry) =
    let sequence = sat_add_u64 room.presence_sequence 1 in
    (
      record room { presence_sequence = sequence },
      ok (outcome, some (role_delta at_ms sequence entry)),
    )

abbrev pub settle_role :
    RoomState → ℕ → Res (RoomState × RoleMutationOutcome) → RoomState × RoleReply
settle_role room at_ms (err e) = (room, err e)
settle_role room at_ms (ok (changed, outcome)) = note_role changed outcome at_ms outcome.role_change

module _ (crypto : Crypto) where
  unfoldable pub role_grant_section :
      RoomState → ConnId → RoleGrantFrame → ℕ → RoomState × RoleReply
  unfolding lit
  role_grant_section room conn_id grant at_ms =
      if room.anonymous_mode
      then (room, err (lit "anonymous mode rejects plaintext role grants"))
      else settle_role room at_ms (apply_role_grant crypto room conn_id grant)

  unfoldable pub role_revoke_section :
      RoomState → ConnId → RoleRevokeFrame → ℕ → RoomState × RoleReply
  unfolding lit
  role_revoke_section room conn_id revoke at_ms =
      if room.anonymous_mode
      then (room, err (lit "anonymous mode rejects plaintext role revokes"))
      else settle_role room at_ms (apply_role_revoke crypto room conn_id revoke)
