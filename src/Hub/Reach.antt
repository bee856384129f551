-- ===== src/Hub/Reach.antt =====
-- A room over its life (crates/kaigi-hub-echo/src/main.rs): every locked section that changes it,
-- in any order. The lock makes each of them one step.
use sora_kaigi.Base.{
  Bool, is_some, true, ℕ, ◌≡◌, sym, subst, none, some, get, nat_eq, inl, inr, Option-cases,
  Bool-cases, arith,
}
use sora_kaigi.Base.Results.{ok}
use sora_kaigi.Wire.Frames.{
  HelloFrame, AnonHelloFrame, ParticipantStateFrame, MediaTrackStateFrame, GroupKeyUpdateFrame,
  EscrowProofFrame, RoleGrantFrame, RoleRevokeFrame, SessionPolicyFrame, RoomConfigUpdateFrame,
  E2eeKeyEpochFrame, KeyRotationAckFrame, ModerationFrame, PaymentFrame, DeviceCapabilityFrame,
}
use sora_kaigi.Hub.State.{Crypto, HubConfig, ConnId, RoomState, new_room}
use sora_kaigi.Hub.Roles.Sections.{role_grant_section, role_revoke_section}
use sora_kaigi.Hub.Billing.{pay, payment_section, enforce_billing_tick}
use sora_kaigi.Hub.Admission.{hello_section, with_participant}
use sora_kaigi.Hub.Connect.{connect_section}
use sora_kaigi.Hub.Lobby.{disconnect_section}
use sora_kaigi.Hub.Sharing.{participant_state_section, media_track_section}
use sora_kaigi.Hub.Anonymous.{anon_hello_section}
use sora_kaigi.Hub.GroupKeys.{group_key_section, escrow_proof_section}
use sora_kaigi.Hub.Policy.{
  apply_session_policy_update, room_config_section, e2ee_key_epoch_section,
  key_rotation_ack_section,
}
use sora_kaigi.Hub.Policy.Settlement.{room_config_section-IsConsistent}
use sora_kaigi.Hub.Moderation.{moderation_section}
use sora_kaigi.Hub.Relay.{device_capability_section}
use sora_kaigi.Hub.Invariant.{IsConsistent}
use sora_kaigi.Hub.Invariant.Presence.{
  alike-IsConsistent, switch-IsConsistent, participant_state_section-IsSwitch,
  media_track_section-IsSwitch, group_key_section-IsSwitch, escrow_proof_section-IsSwitch,
  untouched-IsConsistent,
}
use sora_kaigi.Hub.Invariant.Hello.{hello_section-IsConsistent}
use sora_kaigi.Hub.Invariant.Leave.{disconnect_section-IsConsistent}
use sora_kaigi.Hub.Invariant.Governance.{
  role_grant_section-IsConsistent, role_revoke_section-IsConsistent,
  apply_session_policy_update-IsConsistent, e2ee_key_epoch_section-IsConsistent,
  key_rotation_ack_section-IsConsistent,
}
use sora_kaigi.Hub.Invariant.Moderated.{moderation_section-IsConsistent}
use sora_kaigi.Hub.Invariant.Opening.{
  new_room-IsConsistent, connect-IsConsistent, anon_hello_section-IsConsistent,
  advance_billing-IsAlike, ticked, enforce_billing_tick-IsConsistent,
}

-- The room after one handler's locked section. A connection's number is new, since the hub counts
-- them up. A connection that was removed from the room may still send frames; `known` leaves out
-- its `Hello` alone.
pub data Step (known : Bool) (config : HubConfig) (crypto : Crypto)
    : RoomState → RoomState → Type 0 where
  connect :
      (room : RoomState) (conn_id : ConnId) (at : ℕ)
      → get room.participants conn_id ≡ none
      → Step known config crypto room
          (connect_section config.billing.default_rate_per_minute_nano (some room) conn_id at)
  disconnect :
      (room : RoomState) (conn_id : ConnId) (at left_at : ℕ) (next : RoomState)
      → (disconnect_section room conn_id at left_at).0 ≡ some next
      → Step known config crypto room next
  hello :
      (room : RoomState) (conn_id : ConnId) (frame : HelloFrame) (at delta_at : ℕ)
      → (known ≡ true → is_some (get room.participants conn_id) ≡ true)
      → Step known config crypto room (hello_section room conn_id frame at delta_at).0
  anon_hello :
      (room : RoomState) (conn_id : ConnId) (frame : AnonHelloFrame) (at roster_at : ℕ)
      → Step known config crypto room
          (anon_hello_section config crypto room conn_id frame at roster_at).0
  participant_state :
      (room : RoomState) (conn_id : ConnId) (frame : ParticipantStateFrame) (at : ℕ)
      → Step known config crypto room (participant_state_section room conn_id frame at).0
  media_track :
      (room : RoomState) (conn_id : ConnId) (frame : MediaTrackStateFrame) (at : ℕ)
      → Step known config crypto room (media_track_section room conn_id frame at).0
  group_key :
      (room : RoomState) (conn_id : ConnId) (frame : GroupKeyUpdateFrame)
      → Step known config crypto room (group_key_section crypto room conn_id frame).0
  escrow_proof :
      (room : RoomState) (conn_id : ConnId) (frame : EscrowProofFrame) (at ack_at : ℕ)
      → Step known config crypto room (escrow_proof_section crypto room conn_id frame at ack_at).0
  role_grant :
      (room : RoomState) (conn_id : ConnId) (frame : RoleGrantFrame) (at : ℕ)
      → Step known config crypto room (role_grant_section crypto room conn_id frame at).0
  role_revoke :
      (room : RoomState) (conn_id : ConnId) (frame : RoleRevokeFrame) (at : ℕ)
      → Step known config crypto room (role_revoke_section crypto room conn_id frame at).0
  session_policy :
      (room : RoomState) (conn_id : ConnId) (frame : SessionPolicyFrame) (next : RoomState)
      → apply_session_policy_update crypto room conn_id frame ≡ ok next
      → Step known config crypto room next
  room_config :
      (room : RoomState) (conn_id : ConnId) (frame : RoomConfigUpdateFrame) (at : ℕ)
      → Step known config crypto room
          (room_config_section config.allow_free_calls room conn_id frame at).0
  e2ee_key_epoch :
      (room : RoomState) (conn_id : ConnId) (frame : E2eeKeyEpochFrame)
      → Step known config crypto room (e2ee_key_epoch_section crypto room conn_id frame).0
  key_rotation_ack :
      (room : RoomState) (conn_id : ConnId) (frame : KeyRotationAckFrame)
      → Step known config crypto room (key_rotation_ack_section room conn_id frame).0
  moderation :
      (room : RoomState) (conn_id : ConnId) (frame : ModerationFrame) (at : ℕ)
      → Step known config crypto room (moderation_section room conn_id frame at).0
  device_capability :
      (room : RoomState) (conn_id : ConnId) (frame : DeviceCapabilityFrame)
      → Step known config crypto room (device_capability_section room conn_id frame).0
  payment :
      (room : RoomState) (conn_id : ConnId) (frame : PaymentFrame) (at : ℕ)
      → Step known config crypto room (payment_section crypto config room conn_id frame at).0
  billing_tick :
      (room : RoomState) (conn_id : ConnId) (at : ℕ)
      → Step known config crypto room
          (ticked room (enforce_billing_tick config.billing room conn_id at))

pub data Reachable (known : Bool) (config : HubConfig) (crypto : Crypto) : RoomState → Type 0 where
  opened : Reachable known config crypto (new_room config.billing.default_rate_per_minute_nano)
  after :
      (room next : RoomState)
      → Reachable known config crypto room
      → Step known config crypto room next
      → Reachable known config crypto next

device_capability_section-IsConsistent :
    {b : Bool} (room : RoomState) (conn_id : ConnId) (frame : DeviceCapabilityFrame)
    → IsConsistent b room
    → IsConsistent b (device_capability_section room conn_id frame).0
unfolding device_capability_section
device_capability_section-IsConsistent room conn_id frame c =
    untouched-IsConsistent room (device_capability_section room conn_id frame).0 c (ground arith)
      (ground arith) (ground arith) (ground arith) (ground arith)

module _ (known : Bool) (config : HubConfig) (crypto : Crypto) where
  payment_section-IsConsistent :
      (room : RoomState) (conn_id : ConnId) (frame : PaymentFrame) (now : ℕ)
      → IsConsistent known room
      → IsConsistent known (payment_section crypto config room conn_id frame now).0
  unfolding payment_section pay
  payment_section-IsConsistent room conn_id frame now c =
      elim (Option-cases (get room.participants conn_id)) [
        | inl absent ↦
            let e : (payment_section crypto config room conn_id frame now).0 ≡ room =
              ground arith in
            subst (IsConsistent known) (sym e) c
        | inr (p, here) ↦ elim (Bool-cases room.anonymous_mode) [
          | inl anonymous ↦
              let e : (payment_section crypto config room conn_id frame now).0 ≡ room =
                ground arith in
              subst (IsConsistent known) (sym e) c
          | inr transparent ↦
              let state = (pay crypto config room.rate_per_minute_nano frame now p.state).0 in
              let e : (payment_section crypto config room conn_id frame now).0
                  ≡ with_participant room conn_id (record p { state = state }) =
                ground arith in
              subst (IsConsistent known) (sym e) (
                alike-IsConsistent room conn_id p (record p { state = state }) c here
                  (ground (arith, advance_billing-IsAlike p.state room.rate_per_minute_nano now)))
        ]
      ]

  -- Every step keeps a consistent room consistent.
  pub Step-IsConsistent :
      (room next : RoomState)
      → Step known config crypto room next
      → IsConsistent known room
      → IsConsistent known next
  Step-IsConsistent _ _ (Step.connect room conn_id at fresh) c =
      connect-IsConsistent config.billing.default_rate_per_minute_nano room conn_id at fresh c
  Step-IsConsistent _ _ (Step.disconnect room conn_id at left_at next e) c =
      disconnect_section-IsConsistent room conn_id at left_at next c e
  Step-IsConsistent _ _ (Step.hello room conn_id frame at delta_at here) c =
      hello_section-IsConsistent room conn_id frame at delta_at c here
  Step-IsConsistent _ _ (Step.anon_hello room conn_id frame at roster_at) c =
      anon_hello_section-IsConsistent config crypto room conn_id frame at roster_at c
  Step-IsConsistent _ _ (Step.participant_state room conn_id frame at) c =
      switch-IsConsistent room _ conn_id (participant_state_section-IsSwitch room conn_id frame at)
        c
  Step-IsConsistent _ _ (Step.media_track room conn_id frame at) c =
      switch-IsConsistent room _ conn_id (media_track_section-IsSwitch room conn_id frame at) c
  Step-IsConsistent _ _ (Step.group_key room conn_id frame) c =
      switch-IsConsistent room _ conn_id (group_key_section-IsSwitch crypto room conn_id frame) c
  Step-IsConsistent _ _ (Step.escrow_proof room conn_id frame at ack_at) c =
      switch-IsConsistent room _ conn_id
        (escrow_proof_section-IsSwitch crypto room conn_id frame at ack_at) c
  Step-IsConsistent _ _ (Step.role_grant room conn_id frame at) c =
      role_grant_section-IsConsistent crypto room conn_id c frame at
  Step-IsConsistent _ _ (Step.role_revoke room conn_id frame at) c =
      role_revoke_section-IsConsistent crypto room conn_id c frame at
  Step-IsConsistent _ _ (Step.session_policy room conn_id frame next e) c =
      apply_session_policy_update-IsConsistent crypto room conn_id frame next e c
  Step-IsConsistent _ _ (Step.room_config room conn_id frame at) c =
      room_config_section-IsConsistent config.allow_free_calls room conn_id frame at c
  Step-IsConsistent _ _ (Step.e2ee_key_epoch room conn_id frame) c =
      e2ee_key_epoch_section-IsConsistent crypto room conn_id frame c
  Step-IsConsistent _ _ (Step.key_rotation_ack room conn_id frame) c =
      key_rotation_ack_section-IsConsistent room conn_id frame c
  Step-IsConsistent _ _ (Step.moderation room conn_id frame at) c =
      moderation_section-IsConsistent room conn_id frame at c
  Step-IsConsistent _ _ (Step.device_capability room conn_id frame) c =
      device_capability_section-IsConsistent room conn_id frame c
  Step-IsConsistent _ _ (Step.payment room conn_id frame at) c =
      payment_section-IsConsistent room conn_id frame at c
  Step-IsConsistent _ _ (Step.billing_tick room conn_id at) c =
      enforce_billing_tick-IsConsistent config.billing room conn_id at c

  -- In every room that the hub reaches, whatever frames arrive, are refused or time out, and in
  -- whatever order: a connection has one entry, nobody both waits and has joined, and while the
  -- room is transparent whoever has joined or waits has a host, no two connections are present
  -- under one id, and the bound co-hosts are exactly those that are due. Moreover the host is
  -- connected, if no connection that had been removed from the room has sent a `Hello` (`known`).
  pub reachable-IsConsistent :
      (room : RoomState) → Reachable known config crypto room → IsConsistent known room
  reachable-IsConsistent _ Reachable.opened =
      new_room-IsConsistent config.billing.default_rate_per_minute_nano
  reachable-IsConsistent _ (Reachable.after room next earlier step) =
      Step-IsConsistent room next step (reachable-IsConsistent room earlier)
