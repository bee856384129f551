-- ===== src/Client/Members/Keys.antt =====
-- The ids under which participants are kept (crates/kaigi-linux-client/src/lib.rs: `reduce`).
use sora_kaigi.Base.{get, str_eq, Bool, Option, if-both, refl}
use sora_kaigi.Base.Text.{Str}
use sora_kaigi.Base.Ints.{ℤ}
use sora_kaigi.Client.Model.{SessionError, MeetingConfig, ProtocolSessionState, initial}
use sora_kaigi.Client.Frames.{ProtocolFrame, ProtocolEvent}
use sora_kaigi.Client.Policy.{
  policy_reject, clear_error_if_matching, enforce_payment_settlement_policy,
  enforce_e2ee_epoch_policy,
}
use sora_kaigi.Client.Participants.{with_role, without_role}
use sora_kaigi.Client.Reducer.{authorized, reduce_frame}
use sora_kaigi.Client.Session.{transport_lost, reduce}
use sora_kaigi.Client.Members.{
  IsKeyed, change-IsKeyed, join_all-IsKeyed, leave_all-IsKeyed, change_roles-IsKeyed,
  moderated-IsKeyed,
}

abbrev pub HasKeys : ProtocolSessionState → Type 0
HasKeys s = IsKeyed s.participants

pub initial-HasKeys : (config : MeetingConfig) → HasKeys (initial config)
unfolding initial get
initial-HasKeys config id p e = cc

module _ (s : ProtocolSessionState) (now : ℤ) (h : HasKeys s) where
  policy_reject-HasKeys : (code message : Str) → HasKeys (policy_reject s now code message)
  unfolding policy_reject
  policy_reject-HasKeys code message = h

  clear-HasKeys : (p : Option SessionError → Bool) → HasKeys (clear_error_if_matching s p)
  unfolding clear_error_if_matching
  clear-HasKeys p = h

  payment-HasKeys : HasKeys (enforce_payment_settlement_policy s now)
  unfolding enforce_payment_settlement_policy
  payment-HasKeys = search (if-both HasKeys, clear-HasKeys, policy_reject-HasKeys)

  e2ee-HasKeys : HasKeys (enforce_e2ee_epoch_policy s now)
  unfolding enforce_e2ee_epoch_policy
  e2ee-HasKeys = search (if-both HasKeys, clear-HasKeys, policy_reject-HasKeys)

  authorized-HasKeys :
      (signature : Option Str) (issuer : Str) (a b : Str × Str) (next : ProtocolSessionState)
      → HasKeys next
      → HasKeys (authorized s now signature issuer a b next)
  unfolding authorized
  authorized-HasKeys signature issuer a b next k =
      search (if-both HasKeys, policy_reject-HasKeys, k)

reduce_frame-HasKeys :
    (s : ProtocolSessionState) (frame : ProtocolFrame) (now : ℤ)
    → HasKeys s
    → HasKeys (reduce_frame s frame now)
unfolding reduce_frame
reduce_frame-HasKeys s (ProtocolFrame.participant_presence_delta joined left changes _) now h =
    let met = join_all-IsKeyed s.participants joined h in
    let stayed = leave_all-IsKeyed _ left met in
    search (if-both HasKeys, h, change_roles-IsKeyed _ changes stayed)
reduce_frame-HasKeys s (ProtocolFrame.role_grant target role _ _ _) now h =
    authorized-HasKeys s now h _ _ _ _ _
      (change-IsKeyed s.participants h target (with_role role) (λ p. refl))
reduce_frame-HasKeys s (ProtocolFrame.role_revoke target role _ _ _) now h =
    authorized-HasKeys s now h _ _ _ _ _
      (change-IsKeyed s.participants h target (without_role role) (λ p. refl))
reduce_frame-HasKeys s (ProtocolFrame.permissions_snapshot _ _ _) now h =
    search (if-both HasKeys, h)
reduce_frame-HasKeys s (ProtocolFrame.moderation_signed target action _ _ _) now h =
    authorized-HasKeys s now h _ _ _ _ _ (moderated-IsKeyed s.participants target action h)
reduce_frame-HasKeys s (ProtocolFrame.session_policy _ _ _ _ _ _ _ _ _ _) now h =
    authorized-HasKeys s now h _ _ _ _ _ (search (if-both HasKeys, h, e2ee-HasKeys))
reduce_frame-HasKeys s (ProtocolFrame.e2ee_key_epoch _ _ _ _) now h =
    search (if-both HasKeys, policy_reject-HasKeys, e2ee-HasKeys, h)
reduce_frame-HasKeys s (ProtocolFrame.payment_policy _ _) now h = payment-HasKeys _ now h
reduce_frame-HasKeys s (ProtocolFrame.payment_settlement _) now h = payment-HasKeys _ now h
reduce_frame-HasKeys s _ now h = h

-- Every event leaves each participant under its own id.
pub reduce-HasKeys :
    (s : ProtocolSessionState) (event : ProtocolEvent) (now : ℤ)
    → HasKeys s
    → HasKeys (reduce s event now)
unfolding reduce transport_lost
reduce-HasKeys s (ProtocolEvent.frame_received frame) now h = reduce_frame-HasKeys s frame now h
reduce-HasKeys s (ProtocolEvent.config_updated _) now h = payment-HasKeys _ now h
reduce-HasKeys s _ now h = h
