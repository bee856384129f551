-- ===== src/Client/Acks.antt =====
-- What the client answers to a frame (crates/kaigi-linux-client/src/lib.rs: `on_frame`).
use sora_kaigi.Base.{
  Bool, true, false, Option, some, ◌≡◌, refl, ◌∙◌, if-both, Bool-cases, inl, inr, List, [], ◌∷◌,
  arith, if◌then◌else◌,
}
use sora_kaigi.Base.Text.{Str}
use sora_kaigi.Base.Ints.{ℤ, ◌≤ℤ◌, leb_ℤ, max_ℤ, max_ℤ-ge_right}
use sora_kaigi.Client.Model.{SessionError, ProtocolSessionState}
use sora_kaigi.Client.Frames.{ProtocolFrame, ProtocolEvent}
use sora_kaigi.Client.Policy.{
  has_required_signature, policy_reject, clear_error_if_matching, enforce_e2ee_epoch_policy,
}
use sora_kaigi.Client.Reducer.{reduce_frame}
use sora_kaigi.Client.Session.{reduce}
use sora_kaigi.Client.Identity.{resolved_participant_id}
use sora_kaigi.Client.Runtime.{SessionRuntime, apply_event}
use sora_kaigi.Client.Outbound.{acknowledge, on_frame}

-- The configuration and the key epochs are those of `s`.
abbrev KeepsKeys : ProtocolSessionState → ProtocolSessionState → Type 0
KeepsKeys s t = (t.config ≡ s.config) × (t.e2ee_state ≡ s.e2ee_state)

module _ (s : ProtocolSessionState) (now : ℤ) where
  policy_reject-KeepsKeys : (code message : Str) → KeepsKeys s (policy_reject s now code message)
  unfolding policy_reject
  policy_reject-KeepsKeys code message = (refl, refl)

  clear-KeepsKeys : (p : Option SessionError → Bool) → KeepsKeys s (clear_error_if_matching s p)
  unfolding clear_error_if_matching
  clear-KeepsKeys p = (refl, refl)

  e2ee-KeepsKeys : KeepsKeys s (enforce_e2ee_epoch_policy s now)
  unfolding enforce_e2ee_epoch_policy
  e2ee-KeepsKeys = search (if-both (KeepsKeys s), clear-KeepsKeys, policy_reject-KeepsKeys)

leb_of_le : (a b : ℤ) → a ≤ℤ b → leb_ℤ a b ≡ true
leb_of_le a b h = ground arith

module _ (s : ProtocolSessionState) (epoch : ℤ) (issuer : Str) (signature : Option Str)
    (at now : ℤ) where
  abbrev received : ProtocolSessionState
  received = reduce_frame s (ProtocolFrame.e2ee_key_epoch epoch issuer signature at) now

  signed_key :
      has_required_signature signature s ≡ true
      → (received.config ≡ s.config) × (epoch ≤ℤ received.e2ee_state.current_epoch)
  unfolding reduce_frame
  signed_key h =
      let keyed : ProtocolSessionState = record s {
        e2ee_state = record s.e2ee_state { current_epoch = max_ℤ s.e2ee_state.current_epoch epoch };
      } in
      let (config, keys) = e2ee-KeepsKeys keyed now in
      rw h (config, rw keys (max_ℤ-ge_right s.e2ee_state.current_epoch epoch))

  unsigned_key : has_required_signature signature s ≡ false → received.config ≡ s.config
  unfolding reduce_frame policy_reject
  unsigned_key h = ground arith

same_signature :
    (signature : Option Str) (s t : ProtocolSessionState)
    → t.config ≡ s.config
    → has_required_signature signature t ≡ has_required_signature signature s
unfolding has_required_signature
same_signature signature s t same = rw same refl

module _ (r : SessionRuntime) (epoch : ℤ) (signature : Option Str) (id : Str) (now : ℤ) where
  abbrev answer : SessionRuntime × List ProtocolFrame
  answer = acknowledge r (some (epoch, signature)) id now

  acknowledged :
      has_required_signature signature r.state ≡ true
      → epoch ≤ℤ r.state.e2ee_state.current_epoch
      → (answer.1 ≡ ProtocolFrame.key_rotation_ack epoch id now ∷ [])
        × (epoch ≤ℤ answer.0.state.e2ee_state.last_ack_epoch)
  unfolding acknowledge apply_event reduce reduce_frame
  acknowledged signed known =
      rw (signed, leb_of_le epoch r.state.e2ee_state.current_epoch known)
        (refl, max_ℤ-ge_right r.state.e2ee_state.last_ack_epoch epoch)

  unanswered : has_required_signature signature r.state ≡ false → answer.1 ≡ []
  unfolding acknowledge
  unanswered unsigned = rw unsigned refl

-- A key epoch that carries the signature that the session requires is acknowledged, under the
-- client's own id, and the session's last acknowledged epoch is at least that; one that does not is
-- not answered.
pub on_frame_acknowledges :
    (r : SessionRuntime) (epoch : ℤ) (issuer : Str) (signature : Option Str) (at now : ℤ)
    → let frame = ProtocolFrame.e2ee_key_epoch epoch issuer signature at in
      let signed = has_required_signature signature r.state in
      let ack = ProtocolFrame.key_rotation_ack epoch (resolved_participant_id r.state) now in
      let (t, sent) = on_frame r frame now in
      (sent ≡ (if signed then ack ∷ [] else []))
      × (signed ≡ true → epoch ≤ℤ t.state.e2ee_state.last_ack_epoch)
unfolding on_frame apply_event reduce
on_frame_acknowledges r epoch issuer signature at now =
    let frame = ProtocolFrame.e2ee_key_epoch epoch issuer signature at in
    let next = apply_event r (ProtocolEvent.frame_received frame) now in
    let id = resolved_participant_id r.state in
    elim (Bool-cases (has_required_signature signature r.state)) [
      | inl signed ↦
          let (config, known) = signed_key r.state epoch issuer signature at now signed in
          let (sent, acked) =
            acknowledged next epoch signature id now
              (same_signature signature r.state next.state config ∙ signed) known in
          rw signed (sent, λ _. acked)
      | inr unsigned ↦
          let config = unsigned_key r.state epoch issuer signature at now unsigned in
          let silent =
            unanswered next epoch signature id now
              (same_signature signature r.state next.state config ∙ unsigned) in
          rw unsigned (silent, λ h. cc)
    ]
