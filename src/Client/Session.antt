-- ===== src/Client/Session.antt =====
-- How an event changes the session (crates/kaigi-linux-client/src/lib.rs: `reduce`).
use sora_kaigi.Base.{Bool, true, false, Option, none, some, if◌then◌else◌}
use sora_kaigi.Base.Text.{Str, lit}
use sora_kaigi.Base.Ints.{ℤ, pos, max_ℤ, wrap_sub_i64}
use sora_kaigi.Client.Model.{ConnectionPhase, SessionErrorCategory, ProtocolSessionState}
use sora_kaigi.Client.Frames.{ProtocolEvent}
use sora_kaigi.Client.Policy.{enforce_payment_settlement_policy}
use sora_kaigi.Client.Reducer.{reduce_frame}

-- A failing transport: a session in fallback stays there, and any other is degraded.
unfoldable pub transport_lost : ProtocolSessionState → Str → Str → ℤ → Bool → ProtocolSessionState
transport_lost state code message now_ms handshake_complete = record state {
  connection_phase =
      if state.fallback.active then ConnectionPhase.fallback_active else ConnectionPhase.degraded;
  handshake_complete = handshake_complete;
  last_error =
      if state.fallback.active
      then state.last_error
      else some (record {
        category = SessionErrorCategory.transport_failure;
        code = code;
        message = message;
        at_ms = now_ms;
      });
}

-- `activated_at_ms.map(|at| (now_ms - at).max(0))`.
unfoldable pub recovery_time : Option ℤ → ℤ → Option ℤ
recovery_time none now_ms = none
recovery_time (some at) now_ms = some (max_ℤ (wrap_sub_i64 now_ms at) (pos 0))

unfoldable pub reduce : ProtocolSessionState → ProtocolEvent → ℤ → ProtocolSessionState
unfolding transport_lost recovery_time
reduce state ProtocolEvent.connect_requested now_ms = record state {
  connection_phase = ConnectionPhase.connecting;
  handshake_complete = false;
  last_error = none;
}
reduce state ProtocolEvent.transport_connected now_ms = record state {
  connection_phase = ConnectionPhase.connecting;
  last_error = none;
}
reduce state (ProtocolEvent.transport_disconnected reason) now_ms =
    transport_lost state (lit "transport_disconnected") reason now_ms false
reduce state (ProtocolEvent.transport_failure message) now_ms =
    transport_lost state (lit "transport_failure") message now_ms false
reduce state (ProtocolEvent.frame_send_failed message) now_ms =
    transport_lost state (lit "send_failed") message now_ms state.handshake_complete
reduce state ProtocolEvent.manual_disconnected now_ms = record state {
  connection_phase = ConnectionPhase.disconnected;
  handshake_complete = false;
  last_error = none;
}
reduce state (ProtocolEvent.fallback_activated reason) now_ms = record state {
  connection_phase = ConnectionPhase.fallback_active;
  fallback = record state.fallback {
    active = true;
    reason = some reason;
    activated_at_ms = some now_ms;
  };
  last_error = some (record {
    category = SessionErrorCategory.transport_failure;
    code = lit "fallback_activated";
    message = reason;
    at_ms = now_ms;
  });
}
reduce state ProtocolEvent.fallback_recovered now_ms = record state {
  connection_phase = ConnectionPhase.disconnected;
  fallback = record state.fallback {
    active = false;
    reason = none;
    recovered_at_ms = some now_ms;
    last_rto_ms = recovery_time state.fallback.activated_at_ms now_ms;
  };
}
reduce state (ProtocolEvent.config_updated config) now_ms =
    enforce_payment_settlement_policy (record state { config = config }) now_ms
reduce state (ProtocolEvent.frame_received frame) now_ms = reduce_frame state frame now_ms
