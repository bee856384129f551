-- ===== src/Client/Authority.antt =====
-- Who may change a session's roles, participants and policy (crates/kaigi-linux-client/src/lib.rs:
-- the signed frames of `reduce_frame`).
use sora_kaigi.Base.{
  Bool, true, false, ◌&&◌, Option, none, some, str_eq, ◌≡◌, arith, Bool-cases, inl, inr,
  if◌then◌else◌,
}
use sora_kaigi.Base.Text.{Str}
use sora_kaigi.Base.Ints.{ℤ}
use sora_kaigi.Client.Model.{ConnectionPhase, ProtocolSessionState}
use sora_kaigi.Client.Frames.{ProtocolFrame}
use sora_kaigi.Client.Policy.{has_required_signature, actor_is_authorized, policy_reject}
use sora_kaigi.Client.Reducer.{authorized, reduce_frame}
use sora_kaigi.Client.Phases.{is_policy_error}

-- The signature and the issuer of a frame that governs the session.
abbrev pub issued : ProtocolFrame → Option (Option Str × Str)
issued (ProtocolFrame.role_grant target role granted_by signature at) = some (signature, granted_by)
issued (ProtocolFrame.role_revoke target role revoked_by signature at) =
    some (signature, revoked_by)
issued (ProtocolFrame.moderation_signed target action issued_by signature at) =
    some (signature, issued_by)
issued (ProtocolFrame.session_policy lock wait rec guests e2ee most epoch updated_by signature at) =
    some (signature, updated_by)
issued _ = none

abbrev pub is_permitted : ProtocolSessionState → Option Str → Str → Bool
is_permitted s signature issuer = has_required_signature signature s && actor_is_authorized issuer s

-- Roles, participants and policy are what they were, and the refusal shows.
pub record IsRefused (s t : ProtocolSessionState) : Type 0 where
  pub participants : t.participants ≡ s.participants
  pub lock : t.room_locked ≡ s.room_locked
  pub lobby : t.waiting_room_enabled ≡ s.waiting_room_enabled
  pub recording : t.recording_notice ≡ s.recording_notice
  pub guests : t.guest_policy ≡ s.guest_policy
  pub e2ee : t.e2ee_required ≡ s.e2ee_required
  pub capacity : t.max_participants ≡ s.max_participants
  pub epoch : t.policy_epoch ≡ s.policy_epoch
  pub told : is_policy_error t.last_error ≡ true
  pub phase :
      t.connection_phase
      ≡ (if t.fallback.active then ConnectionPhase.fallback_active else ConnectionPhase.error)

policy_reject-IsRefused :
    (s : ProtocolSessionState) (now : ℤ) (code message : Str)
    → IsRefused s (policy_reject s now code message)
unfolding policy_reject
policy_reject-IsRefused s now code message = ground arith

authorized-IsRefused :
    (s : ProtocolSessionState) (now : ℤ) (signature : Option Str) (issuer : Str) (a b : Str × Str)
    (next : ProtocolSessionState)
    → is_permitted s signature issuer ≡ false
    → IsRefused s (authorized s now signature issuer a b next)
unfolding authorized
authorized-IsRefused s now signature issuer a b next h =
    elim (Bool-cases (has_required_signature signature s)) [
      | inl signed ↦ elim (Bool-cases (actor_is_authorized issuer s)) [
        | inl known ↦ absurd (ground arith)
        | inr unknown ↦ rw (signed, unknown) (policy_reject-IsRefused s now b.0 b.1)
      ]
      | inr unsigned ↦ rw unsigned (policy_reject-IsRefused s now a.0 a.1)
    ]

-- A role grant, a role revocation, a moderation or a session policy that lacks a required
-- signature, or whose issuer is neither the system nor a known host or co-host, leaves participants
-- and policy as they were; the session shows a policy error, and fails or falls back.
pub unauthorized-IsRefused :
    (s : ProtocolSessionState) (frame : ProtocolFrame) (now : ℤ) (signature : Option Str)
    (issuer : Str)
    → issued frame ≡ some (signature, issuer)
    → is_permitted s signature issuer ≡ false
    → IsRefused s (reduce_frame s frame now)
unfolding reduce_frame
unauthorized-IsRefused s (ProtocolFrame.role_grant _ _ issuer signature _) now _ _ e h =
    authorized-IsRefused s now signature issuer _ _ _ (ground arith)
unauthorized-IsRefused s (ProtocolFrame.role_revoke _ _ issuer signature _) now _ _ e h =
    authorized-IsRefused s now signature issuer _ _ _ (ground arith)
unauthorized-IsRefused s (ProtocolFrame.moderation_signed _ _ issuer signature _) now _ _ e h =
    authorized-IsRefused s now signature issuer _ _ _ (ground arith)
unauthorized-IsRefused s (ProtocolFrame.session_policy _ _ _ _ _ _ _ issuer signature _) now _ _ e
      h =
    authorized-IsRefused s now signature issuer _ _ _ (ground arith)
unauthorized-IsRefused s _ now _ _ e h = cc
