-- ===== src/Client/Outbound.antt =====
-- What the runtime does when the transport changes or a frame comes in, and the frames that it
-- sends (crates/kaigi-linux-client/src/lib.rs: the second half of `SessionRuntime`).
use sora_kaigi.Base.{
  Bool, true, false, not, ◌&&◌, ◌||◌, Option, none, some, List, [], ◌∷◌, ◌++◌, if◌then◌else◌,
}
use sora_kaigi.Base.Text.{Str, lit}
use sora_kaigi.Base.Ints.{ℤ, pos, ltb_ℤ, leb_ℤ}
use sora_kaigi.Client.Model.{MediaProfile, ProtocolSessionState}
use sora_kaigi.Client.Frames.{ProtocolFrame, ProtocolEvent}
use sora_kaigi.Client.Policy.{has_required_signature}
use sora_kaigi.Client.Identity.{resolved_participant_id}
use sora_kaigi.Client.Runtime.{
  RuntimeDirective, SessionRuntime, record_connection_event, apply_event, request_connect,
  reconnect_later,
}

unfoldable pub handshake_frames : ProtocolSessionState → ℤ → List ProtocolFrame
handshake_frames state now_ms =
    let config = state.config in
    let id = resolved_participant_id state in
    let profile =
      if config.supports_hdr_capture && config.supports_hdr_render
      then MediaProfile.hdr
      else MediaProfile.sdr in
    ProtocolFrame.handshake config.room_id id config.participant_name config.wallet_identity
      state.resume_token profile config.supports_hdr_capture config.supports_hdr_render now_ms
    ∷ ProtocolFrame.device_capability id (lit "h264" ∷ lit "vp9" ∷ []) config.supports_hdr_capture
        config.supports_hdr_render (pos 4) now_ms
    ∷ (if config.require_payment_settlement
        then ProtocolFrame.payment_policy true (some (lit "nexus://payment-policy")) ∷ []
        else [])

unfoldable pub on_transport_connected : SessionRuntime → ℤ → SessionRuntime × List ProtocolFrame
unfolding record_connection_event apply_event
on_transport_connected r now_ms =
    if r.app_in_background
    then (
      apply_event
          (record_connection_event (record r { reconnect_due_at_ms = none })
            (lit "transport_connected_while_backgrounded") [] now_ms)
          (ProtocolEvent.transport_disconnected (lit "backgrounded_before_handshake")) now_ms,
      [],
    )
    else let connected =
        apply_event
          (record_connection_event
            (record r {
              user_initiated_disconnect = false;
              reconnect_attempt = 0;
              reconnect_due_at_ms = none;
            })
            (lit "transport_connected") [] now_ms)
          ProtocolEvent.transport_connected now_ms in
      (connected, handshake_frames connected.state now_ms)

unfoldable pub on_transport_disconnected :
    SessionRuntime → Str → ℤ → SessionRuntime × RuntimeDirective
unfolding record_connection_event apply_event reconnect_later
on_transport_disconnected r reason now_ms =
    let lost =
      apply_event
        (record_connection_event r (lit "transport_disconnected") ((lit "reason", reason) ∷ [])
          now_ms)
        (ProtocolEvent.transport_disconnected reason) now_ms in
    reconnect_later lost reason now_ms

unfoldable pub on_transport_failure : SessionRuntime → Str → ℤ → SessionRuntime × RuntimeDirective
unfolding record_connection_event apply_event reconnect_later
on_transport_failure r message now_ms =
    let lost =
      apply_event
        (record_connection_event r (lit "transport_failure") ((lit "message", message) ∷ []) now_ms)
        (ProtocolEvent.transport_failure message) now_ms in
    reconnect_later lost message now_ms

unfoldable pub on_send_failure : SessionRuntime → Str → ℤ → SessionRuntime
unfolding record_connection_event apply_event
on_send_failure r message now_ms =
    apply_event
      (record_connection_event r (lit "send_failure") ((lit "message", message) ∷ []) now_ms)
      (ProtocolEvent.frame_send_failed message) now_ms

unfoldable pub on_manual_disconnect : SessionRuntime → ℤ → SessionRuntime
unfolding record_connection_event apply_event
on_manual_disconnect r now_ms =
    apply_event
      (record_connection_event
        (record r { user_initiated_disconnect = true; reconnect_due_at_ms = none })
        (lit "manual_disconnect") [] now_ms)
      ProtocolEvent.manual_disconnected now_ms

abbrev pub pongs : ProtocolFrame → ℤ → List ProtocolFrame
pongs (ProtocolFrame.ping sent_at_ms) now_ms = ProtocolFrame.pong now_ms ∷ []
pongs _ now_ms = []

abbrev pub e2ee_epoch_of : ProtocolFrame → Option (ℤ × Option Str)
e2ee_epoch_of (ProtocolFrame.e2ee_key_epoch epoch issued_by signature sent_at_ms) =
    some (epoch, signature)
e2ee_epoch_of _ = none

-- The acknowledgement of a key epoch, which the client also applies to itself.
unfoldable pub acknowledge :
    SessionRuntime → Option (ℤ × Option Str) → Str → ℤ → SessionRuntime × List ProtocolFrame
unfolding apply_event
acknowledge r none participant_id now_ms = (r, [])
acknowledge r (some (epoch, signature)) participant_id now_ms =
    let ack = ProtocolFrame.key_rotation_ack epoch participant_id now_ms in
    if has_required_signature signature r.state && leb_ℤ epoch r.state.e2ee_state.current_epoch
    then (apply_event r (ProtocolEvent.frame_received ack) now_ms, ack ∷ [])
    else (r, [])

unfoldable pub on_frame : SessionRuntime → ProtocolFrame → ℤ → SessionRuntime × List ProtocolFrame
unfolding apply_event acknowledge
on_frame r frame now_ms =
    let received = apply_event r (ProtocolEvent.frame_received frame) now_ms in
    let acked =
      acknowledge received (e2ee_epoch_of frame) (resolved_participant_id r.state) now_ms in
    (acked.0, pongs frame now_ms ++ acked.1)

unfoldable pub recover_from_fallback : SessionRuntime → ℤ → SessionRuntime
unfolding record_connection_event apply_event request_connect
recover_from_fallback r now_ms =
    let recovered =
      apply_event
        (record_connection_event
          (record r {
            user_initiated_disconnect = false;
            reconnect_attempt = 0;
            reconnect_due_at_ms = none;
          })
          (lit "fallback_recovery_requested") [] now_ms)
        ProtocolEvent.fallback_recovered now_ms in
    request_connect recovered false (lit "fallback_recovery") now_ms

abbrev pub is_due : Option ℤ → ℤ → Bool
is_due none now_ms = false
is_due (some due_at_ms) now_ms = not (ltb_ℤ now_ms due_at_ms)

unfoldable pub take_reconnect_if_due : SessionRuntime → ℤ → SessionRuntime × Bool
unfolding record_connection_event request_connect
take_reconnect_if_due r now_ms =
    if not (is_due r.reconnect_due_at_ms now_ms)
      || r.user_initiated_disconnect
      || r.state.fallback.active
      || r.app_in_background
    then (r, false)
    else (
      request_connect
          (record_connection_event (record r { reconnect_due_at_ms = none })
            (lit "reconnect_attempt") [] now_ms)
          false (lit "reconnect") now_ms,
      true,
    )
