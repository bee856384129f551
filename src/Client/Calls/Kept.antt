-- ===== src/Client/Calls/Kept.antt =====
-- From the events of a session to the calls of the runtime
-- (crates/kaigi-linux-client/src/lib.rs: `SessionRuntime`).
use sora_kaigi.Base.{Bool, true, false, Option, none, some, if-both, List, [], ◌∷◌}
use sora_kaigi.Base.Text.{Str}
use sora_kaigi.Base.Ints.{ℤ}
use sora_kaigi.Client.Model.{MeetingConfig, ProtocolSessionState}
use sora_kaigi.Client.Phases.{IsSound, initial-IsSound, reduce-IsSound}
use sora_kaigi.Client.Members.Keys.{HasKeys, initial-HasKeys, reduce-HasKeys}
use sora_kaigi.Client.Epochs.{IsLater, IsLater-refl, IsLater-trans}
use sora_kaigi.Client.Epochs.Events.{reduce-IsLater}
use sora_kaigi.Client.Frames.{ProtocolFrame, ProtocolEvent}
use sora_kaigi.Client.Session.{reduce}
use sora_kaigi.Client.Runtime.{
  RuntimeDirective, SessionRuntime, with_backoff, record_connection_event, apply_event,
  request_connect, schedule_or_exhaust, schedule_reconnect_or_fallback, reconnect_later,
  network_available, connect_requested, on_app_foregrounded, on_app_backgrounded,
  on_connectivity_changed, on_audio_interruption_began, on_audio_interruption_ended,
  on_audio_route_changed,
}
use sora_kaigi.Client.Outbound.{
  acknowledge, on_transport_connected, on_transport_disconnected, on_transport_failure,
  on_send_failure, on_manual_disconnect, on_frame, recover_from_fallback, take_reconnect_if_due,
}
use sora_kaigi.Client.Calls.{Call, call, call_all}

module _ (P : ProtocolSessionState → Type 0)
    (keep : (s : ProtocolSessionState) (event : ProtocolEvent) (now : ℤ)
      → P s
      → P (reduce s event now)) where
  abbrev Keeps : SessionRuntime → Type 0
  Keeps r = P r.state

  abbrev KeepsFirst {ℓ} : {B : Type ℓ} → SessionRuntime × B → Type 0
  KeepsFirst r = P r.0.state

  apply-Keeps :
      (r : SessionRuntime) (event : ProtocolEvent) (now : ℤ)
      → Keeps r
      → Keeps (apply_event r event now)
  unfolding apply_event
  apply-Keeps r event now h = keep r.state event now h

  record-Keeps :
      (r : SessionRuntime) (name : Str) (attributes : List (Str × Str)) (now : ℤ)
      → Keeps r
      → Keeps (record_connection_event r name attributes now)
  unfolding record_connection_event
  record-Keeps r name attributes now h = h

  request-Keeps :
      (r : SessionRuntime) (reset : Bool) (source : Str) (now : ℤ)
      → Keeps r
      → Keeps (request_connect r reset source now)
  unfolding request_connect
  request-Keeps r reset source now h = search (if-both Keeps, h, keep)

  due-Keeps :
      (r : SessionRuntime) (trigger : Str) (delay : Option ℤ) (now : ℤ)
      → Keeps r
      → KeepsFirst (schedule_or_exhaust r trigger delay now)
  unfolding schedule_or_exhaust
  due-Keeps r trigger none now h = keep r.state _ now h
  due-Keeps r trigger (some delay) now h = h

  later-Keeps :
      (r : SessionRuntime) (trigger : Str) (now : ℤ)
      → Keeps r
      → KeepsFirst (reconnect_later r trigger now)
  unfolding reconnect_later schedule_reconnect_or_fallback
  later-Keeps r trigger now h = search (if-both (KeepsFirst {B = RuntimeDirective}), due-Keeps, h)

  acknowledge-Keeps :
      (r : SessionRuntime) (epoch : Option (ℤ × Option Str)) (id : Str) (now : ℤ)
      → Keeps r
      → KeepsFirst (acknowledge r epoch id now)
  unfolding acknowledge
  acknowledge-Keeps r none id now h = h
  acknowledge-Keeps r (some (epoch, signature)) id now h =
      search (if-both (KeepsFirst {B = List ProtocolFrame}), keep, h)

  available-Keeps : (r : SessionRuntime) (now : ℤ) → Keeps r → Keeps (network_available r now)
  unfolding network_available
  available-Keeps r now h = search (if-both Keeps, request-Keeps, h)

  -- A failing transport, and what follows it.
  fail-Keeps :
      (r : SessionRuntime) (event : ProtocolEvent) (trigger name : Str)
      (attributes : List (Str × Str)) (now : ℤ)
      → Keeps r
      → KeepsFirst (
          reconnect_later
            (apply_event (record_connection_event r name attributes now) event now)
            trigger
            now)
  fail-Keeps r event trigger name attributes now h =
      later-Keeps _ trigger now (apply-Keeps _ event now (record-Keeps r name attributes now h))

  call-Keeps : (r : SessionRuntime) (c : Call) (now : ℤ) → Keeps r → Keeps (call r c now)
  unfolding call connect_requested on_app_foregrounded on_app_backgrounded on_connectivity_changed
      on_audio_interruption_began on_audio_interruption_ended on_audio_route_changed
      on_transport_connected on_transport_disconnected on_transport_failure on_send_failure
      on_manual_disconnect on_frame recover_from_fallback take_reconnect_if_due
  call-Keeps r Call.connect now h = request-Keeps r true _ now h
  call-Keeps r Call.foregrounded now h = search (if-both Keeps, request-Keeps, h)
  call-Keeps r Call.backgrounded now h = search (if-both Keeps, keep, h)
  call-Keeps r (Call.connectivity_changed available) now h =
      search (if-both Keeps, available-Keeps, fail-Keeps, h)
  call-Keeps r Call.audio_interruption_began now h = search (if-both Keeps, fail-Keeps, h)
  call-Keeps r (Call.audio_interruption_ended should) now h =
      search (if-both Keeps, request-Keeps, h)
  call-Keeps r (Call.audio_route_changed reason) now h = h
  call-Keeps r Call.transport_connected now h =
      search (if-both (KeepsFirst {B = List ProtocolFrame}), keep, h)
  call-Keeps r (Call.transport_disconnected reason) now h = fail-Keeps r _ _ _ _ now h
  call-Keeps r (Call.transport_failure message) now h = fail-Keeps r _ _ _ _ now h
  call-Keeps r (Call.send_failure message) now h = keep r.state _ now h
  call-Keeps r Call.manual_disconnect now h = keep r.state _ now h
  call-Keeps r (Call.frame received) now h = acknowledge-Keeps _ _ _ now (keep r.state _ now h)
  call-Keeps r Call.recover now h = request-Keeps _ false _ now (keep r.state _ now h)
  call-Keeps r Call.take_reconnect now h =
      search (if-both (KeepsFirst {B = Bool}), request-Keeps, h)

  pub call_all-Keeps :
      (r : SessionRuntime) (calls : List (Call × ℤ)) → Keeps r → Keeps (call_all r calls)
  call_all-Keeps r [] h = h
  call_all-Keeps r ((c, now) ∷ calls) h = call_all-Keeps (call r c now) calls (call-Keeps r c now h)

-- After any calls at any times on a new runtime, frames of any content included: a fallback has a
-- reason and a time; the phase shows a fallback only while it is active; a connected session has
-- shaken hands and is not in fallback; the error phase shows a policy error and no fallback; and
-- each known participant is kept under its own id.
pub call_all-IsSound :
    (config : MeetingConfig) (backoff : List ℤ) (calls : List (Call × ℤ))
    → let s = (call_all (with_backoff config backoff) calls).state in IsSound s × HasKeys s
unfolding with_backoff
call_all-IsSound config backoff calls =
    let start = with_backoff config backoff in
    (
      call_all-Keeps IsSound reduce-IsSound start calls (initial-IsSound config),
      call_all-Keeps HasKeys reduce-HasKeys start calls (initial-HasKeys config),
    )

-- Over any calls at any times, the presence sequence, the policy epoch, the key epoch, the last
-- acknowledged epoch and the epoch of each participant's permissions never fall, and known
-- permissions stay known.
pub call_all-IsLater :
    (r : SessionRuntime) (calls : List (Call × ℤ)) → IsLater r.state (call_all r calls).state
call_all-IsLater r calls =
    call_all-Keeps (IsLater r.state)
      (λ s event now h. IsLater-trans r.state s _ h (reduce-IsLater s event now)) r calls
      (IsLater-refl r.state)
