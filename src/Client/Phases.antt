-- ===== src/Client/Phases.antt =====
-- What the connection phase tells of a session (crates/kaigi-linux-client/src/lib.rs: `reduce`).
use sora_kaigi.Base.{Bool, true, false, Option, none, some, is_some, ◌≡◌, refl, arith, if-both}
use sora_kaigi.Base.Text.{Str}
use sora_kaigi.Base.Ints.{ℤ}
use sora_kaigi.Client.Model.{
  ConnectionPhase, SessionError, MeetingConfig, ProtocolSessionState, initial,
}
use sora_kaigi.Client.Frames.{ProtocolFrame, ProtocolEvent}
use sora_kaigi.Client.Policy.{
  policy_reject, clear_error_if_matching, enforce_payment_settlement_policy,
  enforce_e2ee_epoch_policy, is_policy_failure,
}
use sora_kaigi.Client.Reducer.{authorized, reduce_frame}
use sora_kaigi.Client.Session.{transport_lost, reduce}

abbrev pub is_policy_error : Option SessionError → Bool
is_policy_error none = false
is_policy_error (some e) = is_policy_failure e.category

pub record IsSound (s : ProtocolSessionState) : Type 0 where
  -- A fallback has a reason and a time.
  pub reason_known : s.fallback.active ≡ true → is_some s.fallback.reason ≡ true
  pub since_known : s.fallback.active ≡ true → is_some s.fallback.activated_at_ms ≡ true
  pub in_fallback : s.connection_phase ≡ ConnectionPhase.fallback_active → s.fallback.active ≡ true
  -- A connected session has shaken hands, and is not in fallback.
  pub shaken : s.connection_phase ≡ ConnectionPhase.connected → s.handshake_complete ≡ true
  pub direct : s.connection_phase ≡ ConnectionPhase.connected → s.fallback.active ≡ false
  -- A session fails only by a policy.
  pub refused : s.connection_phase ≡ ConnectionPhase.error → is_policy_error s.last_error ≡ true
  pub stopped : s.connection_phase ≡ ConnectionPhase.error → s.fallback.active ≡ false

pub initial-IsSound : (config : MeetingConfig) → IsSound (initial config)
unfolding initial
initial-IsSound config = ground arith

module _ (s : ProtocolSessionState) (now : ℤ) (h : IsSound s) where
  policy_reject-IsSound : (code message : Str) → IsSound (policy_reject s now code message)
  unfolding policy_reject
  policy_reject-IsSound code message = ground arith

  clear-IsSound : (p : Option SessionError → Bool) → IsSound (clear_error_if_matching s p)
  unfolding clear_error_if_matching
  clear-IsSound p = ground arith

  authorized-IsSound :
      (signature : Option Str) (issuer : Str) (a b : Str × Str) (next : ProtocolSessionState)
      → IsSound next
      → IsSound (authorized s now signature issuer a b next)
  unfolding authorized
  authorized-IsSound signature issuer a b next k =
      ground (arith, policy_reject-IsSound a.0 a.1, policy_reject-IsSound b.0 b.1)

  payment-IsSound : IsSound (enforce_payment_settlement_policy s now)
  unfolding enforce_payment_settlement_policy
  payment-IsSound = search (if-both IsSound, clear-IsSound, policy_reject-IsSound)

  e2ee-IsSound : IsSound (enforce_e2ee_epoch_policy s now)
  unfolding enforce_e2ee_epoch_policy
  e2ee-IsSound = search (if-both IsSound, clear-IsSound, policy_reject-IsSound)

  lost-IsSound :
      (code message : Str) (complete : Bool) → IsSound (transport_lost s code message now complete)
  unfolding transport_lost
  lost-IsSound code message complete = ground arith

-- A change to what no phase speaks of.
abbrev IsAlike : ProtocolSessionState → ProtocolSessionState → Type 0
IsAlike s t =
    (t.connection_phase ≡ s.connection_phase)
    × (t.handshake_complete ≡ s.handshake_complete)
    × (t.fallback ≡ s.fallback)
    × (t.last_error ≡ s.last_error)

alike-IsSound : (s t : ProtocolSessionState) → IsAlike s t → IsSound s → IsSound t
alike-IsSound s t same h = ground arith

reduce_frame-IsSound :
    (s : ProtocolSessionState) (frame : ProtocolFrame) (now : ℤ)
    → IsSound s
    → IsSound (reduce_frame s frame now)
unfolding reduce_frame
reduce_frame-IsSound s (ProtocolFrame.handshake_ack _ _ _) now h = ground arith
reduce_frame-IsSound s (ProtocolFrame.participant_presence_delta _ _ _ _) now h = ground arith
reduce_frame-IsSound s (ProtocolFrame.role_grant _ _ _ _ _) now h =
    authorized-IsSound s now h _ _ _ _ _ (alike-IsSound s _ (refl, refl, refl, refl) h)
reduce_frame-IsSound s (ProtocolFrame.role_revoke _ _ _ _ _) now h =
    authorized-IsSound s now h _ _ _ _ _ (alike-IsSound s _ (refl, refl, refl, refl) h)
reduce_frame-IsSound s (ProtocolFrame.permissions_snapshot _ _ _) now h = ground arith
reduce_frame-IsSound s (ProtocolFrame.moderation_signed _ _ _ _ _) now h =
    authorized-IsSound s now h _ _ _ _ _ (alike-IsSound s _ (refl, refl, refl, refl) h)
reduce_frame-IsSound s (ProtocolFrame.session_policy _ _ _ _ _ _ _ _ _ _) now h =
    authorized-IsSound s now h _ _ _ _ _
      (search (if-both IsSound, e2ee-IsSound, alike-IsSound s, refl))
reduce_frame-IsSound s (ProtocolFrame.media_profile_negotiation _ _ _ _ _) now h = ground arith
reduce_frame-IsSound s (ProtocolFrame.recording_notice _ _) now h =
    alike-IsSound s _ (refl, refl, refl, refl) h
reduce_frame-IsSound s (ProtocolFrame.e2ee_key_epoch _ _ _ _) now h =
    search (if-both IsSound, policy_reject-IsSound, e2ee-IsSound, alike-IsSound s, refl)
reduce_frame-IsSound s (ProtocolFrame.key_rotation_ack _ _ _) now h =
    alike-IsSound s _ (refl, refl, refl, refl) h
reduce_frame-IsSound s (ProtocolFrame.payment_policy _ _) now h =
    payment-IsSound _ now (alike-IsSound s _ (refl, refl, refl, refl) h)
reduce_frame-IsSound s (ProtocolFrame.payment_settlement _) now h =
    payment-IsSound _ now (alike-IsSound s _ (refl, refl, refl, refl) h)
reduce_frame-IsSound s (ProtocolFrame.error _ _ _) now h = ground arith
reduce_frame-IsSound s (ProtocolFrame.handshake _ _ _ _ _ _ _ _ _) now h = h
reduce_frame-IsSound s (ProtocolFrame.device_capability _ _ _ _ _ _) now h = h
reduce_frame-IsSound s (ProtocolFrame.ping _) now h = h
reduce_frame-IsSound s (ProtocolFrame.pong _) now h = h

-- Every event leaves a sound session sound.
pub reduce-IsSound :
    (s : ProtocolSessionState) (event : ProtocolEvent) (now : ℤ)
    → IsSound s
    → IsSound (reduce s event now)
unfolding reduce
reduce-IsSound s ProtocolEvent.connect_requested now h = ground arith
reduce-IsSound s ProtocolEvent.transport_connected now h = ground arith
reduce-IsSound s (ProtocolEvent.transport_disconnected _) now h = lost-IsSound s now h _ _ _
reduce-IsSound s (ProtocolEvent.transport_failure _) now h = lost-IsSound s now h _ _ _
reduce-IsSound s (ProtocolEvent.frame_received frame) now h = reduce_frame-IsSound s frame now h
reduce-IsSound s (ProtocolEvent.frame_send_failed _) now h = lost-IsSound s now h _ _ _
reduce-IsSound s ProtocolEvent.manual_disconnected now h = ground arith
reduce-IsSound s (ProtocolEvent.fallback_activated _) now h = ground arith
reduce-IsSound s ProtocolEvent.fallback_recovered now h = ground arith
reduce-IsSound s (ProtocolEvent.config_updated _) now h =
    payment-IsSound _ now (alike-IsSound s _ (refl, refl, refl, refl) h)
