-- ===== src/Client/Calls.antt =====
-- The calls that a client makes of its runtime (crates/kaigi-linux-client/src/lib.rs:
-- `SessionRuntime`), in any order.
pub mod Kept
pub mod Attempts
use sora_kaigi.Base.{Bool, List, [], ◌∷◌}
use sora_kaigi.Base.Text.{Str}
use sora_kaigi.Base.Ints.{ℤ}
use sora_kaigi.Client.Frames.{ProtocolFrame}
use sora_kaigi.Client.Runtime.{
  SessionRuntime, connect_requested, on_app_foregrounded, on_app_backgrounded,
  on_connectivity_changed, on_audio_interruption_began, on_audio_interruption_ended,
  on_audio_route_changed,
}
use sora_kaigi.Client.Outbound.{
  on_transport_connected, on_transport_disconnected, on_transport_failure, on_send_failure,
  on_manual_disconnect, on_frame, recover_from_fallback, take_reconnect_if_due,
}

pub data Call : Type 0 where
  connect : Call
  foregrounded : Call
  backgrounded : Call
  connectivity_changed : (available : Bool) → Call
  audio_interruption_began : Call
  audio_interruption_ended : (should_reconnect : Bool) → Call
  audio_route_changed : (reason : Str) → Call
  transport_connected : Call
  transport_disconnected : (reason : Str) → Call
  transport_failure : (message : Str) → Call
  send_failure : (message : Str) → Call
  manual_disconnect : Call
  frame : (received : ProtocolFrame) → Call
  recover : Call
  take_reconnect : Call

unfoldable pub call : SessionRuntime → Call → ℤ → SessionRuntime
call r connect now = connect_requested r now
call r foregrounded now = on_app_foregrounded r now
call r backgrounded now = on_app_backgrounded r now
call r (connectivity_changed available) now = on_connectivity_changed r available now
call r audio_interruption_began now = on_audio_interruption_began r now
call r (audio_interruption_ended should_reconnect) now =
    on_audio_interruption_ended r should_reconnect now
call r (audio_route_changed reason) now = on_audio_route_changed r reason now
call r transport_connected now = (on_transport_connected r now).0
call r (transport_disconnected reason) now = (on_transport_disconnected r reason now).0
call r (transport_failure message) now = (on_transport_failure r message now).0
call r (send_failure message) now = on_send_failure r message now
call r manual_disconnect now = on_manual_disconnect r now
call r (frame received) now = (on_frame r received now).0
call r recover now = recover_from_fallback r now
call r take_reconnect now = (take_reconnect_if_due r now).0

abbrev pub call_all : SessionRuntime → List (Call × ℤ) → SessionRuntime
call_all r [] = r
call_all r ((c, now) ∷ calls) = call_all (call r c now) calls
