-- ===== src/Client/Runtime.antt =====
-- The client's runtime around the session (crates/kaigi-linux-client/src/lib.rs:
-- `SessionRuntime`): connecting, reconnecting with a backoff, the fallback, and what it sends.
-- `telemetry` is what the sink has been given.
use sora_kaigi.Base.{
  ℕ, ◌+◌, Bool, true, false, not, ◌&&◌, ◌||◌, Option, none, some, List, [], ◌∷◌, ◌++◌, get_elem?,
  is_some, if◌then◌else◌,
}
use sora_kaigi.Base.Text.{Str, lit, show_nat, show_bool}
use sora_kaigi.Base.Ints.{ℤ, pos, max_ℤ, sat_add_i64, show_int}
use sora_kaigi.Client.Model.{ConnectionPhase, MeetingConfig, ProtocolSessionState, initial}
use sora_kaigi.Client.Frames.{ProtocolEvent}
use sora_kaigi.Client.Session.{reduce}
use sora_kaigi.Client.Telemetry.{
  MeetingTelemetryCategory, Events, typed_event, same_phase, emit_state_transition_telemetry,
}

pub data RuntimeDirective : Type 0 where
  nothing : RuntimeDirective
  reconnect_scheduled : (attempt : ℕ) (due_at_ms : ℤ) → RuntimeDirective
  fallback_activated : (reason : Str) → RuntimeDirective

pub record SessionRuntime : Type 0 where
  pub state : ProtocolSessionState
  pub reconnect_backoff_ms : List ℤ
  pub reconnect_attempt : ℕ
  pub reconnect_due_at_ms : Option ℤ
  pub user_initiated_disconnect : Bool
  pub app_in_background : Bool
  pub telemetry : Events

unfoldable pub with_backoff : MeetingConfig → List ℤ → SessionRuntime
unfolding initial
with_backoff config reconnect_backoff_ms = record {
  state = initial config;
  reconnect_backoff_ms = reconnect_backoff_ms;
  reconnect_attempt = 0;
  reconnect_due_at_ms = none;
  user_initiated_disconnect = false;
  app_in_background = false;
  telemetry = [];
}

unfoldable pub new_runtime : MeetingConfig → SessionRuntime
unfolding with_backoff
new_runtime config = with_backoff config (pos 1000 ∷ pos 2000 ∷ pos 4000 ∷ pos 8000 ∷ [])

unfoldable pub record_connection_event :
    SessionRuntime → Str → List (Str × Str) → ℤ → SessionRuntime
record_connection_event r name attributes now_ms = record r {
  telemetry =
      r.telemetry
      ++ typed_event MeetingTelemetryCategory.connection_lifecycle name attributes now_ms ∷ [];
}

unfoldable pub apply_event : SessionRuntime → ProtocolEvent → ℤ → SessionRuntime
apply_event r event now_ms = record r {
  state = reduce r.state event now_ms;
  telemetry =
      r.telemetry ++ emit_state_transition_telemetry r.state (reduce r.state event now_ms) now_ms;
}

unfoldable pub request_connect : SessionRuntime → Bool → Str → ℤ → SessionRuntime
unfolding record_connection_event apply_event
request_connect r reset_backoff source now_ms =
    if r.app_in_background
    then record_connection_event r (lit "connect_deferred_backgrounded")
        ((lit "source", source) ∷ []) now_ms
    else let ready = record r {
      user_initiated_disconnect = false;
      reconnect_due_at_ms = none;
      reconnect_attempt = if reset_backoff then 0 else r.reconnect_attempt;
    } in
      apply_event
        (record_connection_event ready (lit "connect_requested") ((lit "source", source) ∷ [])
          now_ms)
        ProtocolEvent.connect_requested now_ms

unfoldable pub exhausted_reason : ℕ → Str → Str
exhausted_reason attempts trigger =
    lit "Reconnect exhausted after " ++ (show_nat attempts ++ (lit " attempts: " ++ trigger))

unfoldable pub schedule : SessionRuntime → Str → ℤ → ℤ → SessionRuntime × RuntimeDirective
unfolding record_connection_event
schedule r trigger delay_ms now_ms =
    let attempt = r.reconnect_attempt + 1 in
    let due_at_ms = sat_add_i64 now_ms (max_ℤ delay_ms (pos 0)) in
    (
      record_connection_event
          (record r { reconnect_attempt = attempt; reconnect_due_at_ms = some due_at_ms })
          (lit "reconnect_scheduled")
          ((lit "attempt", show_nat attempt)
            ∷ (lit "due_at_ms", show_int due_at_ms)
            ∷ (lit "trigger", trigger)
            ∷ [])
          now_ms,
      reconnect_scheduled attempt due_at_ms,
    )

-- The fallback is reached through `reduce` alone, so its transition is not told to the sink.
unfoldable pub exhaust : SessionRuntime → Str → ℤ → SessionRuntime × RuntimeDirective
exhaust r trigger now_ms =
    let reason = exhausted_reason r.reconnect_attempt trigger in
    (
      record r { state = reduce r.state (ProtocolEvent.fallback_activated reason) now_ms },
      fallback_activated reason,
    )

-- By the delay of the next attempt, where the backoff has one.
unfoldable pub schedule_or_exhaust :
    SessionRuntime → Str → Option ℤ → ℤ → SessionRuntime × RuntimeDirective
unfolding schedule exhaust
schedule_or_exhaust r trigger none now_ms = exhaust r trigger now_ms
schedule_or_exhaust r trigger (some delay_ms) now_ms = schedule r trigger delay_ms now_ms

unfoldable pub schedule_reconnect_or_fallback :
    SessionRuntime → Str → ℤ → SessionRuntime × RuntimeDirective
unfolding schedule_or_exhaust
schedule_reconnect_or_fallback r trigger now_ms =
    if r.user_initiated_disconnect || r.state.fallback.active || r.app_in_background
    then (r, nothing)
    else if is_some r.reconnect_due_at_ms
    then (r, nothing)
    else schedule_or_exhaust r trigger (get_elem? r.reconnect_backoff_ms r.reconnect_attempt) now_ms

unfoldable pub connect_requested : SessionRuntime → ℤ → SessionRuntime
unfolding request_connect
connect_requested r now_ms = request_connect r true (lit "manual") now_ms

abbrev pub is_down : ConnectionPhase → Bool
is_down ConnectionPhase.disconnected = true
is_down ConnectionPhase.degraded = true
is_down ConnectionPhase.error = true
is_down ConnectionPhase.connecting = false
is_down ConnectionPhase.connected = false
is_down ConnectionPhase.fallback_active = false

unfoldable pub on_app_foregrounded : SessionRuntime → ℤ → SessionRuntime
unfolding record_connection_event request_connect
on_app_foregrounded r now_ms =
    if r.user_initiated_disconnect
    then r
    else let shown =
        record_connection_event (record r { app_in_background = false }) (lit "app_foregrounded") []
          now_ms in
      if is_down r.state.connection_phase
      then request_connect shown false (lit "foreground") now_ms
      else shown

abbrev pub is_live : ConnectionPhase → Bool
is_live ConnectionPhase.connected = true
is_live ConnectionPhase.connecting = true
is_live ConnectionPhase.degraded = true
is_live ConnectionPhase.disconnected = false
is_live ConnectionPhase.error = false
is_live ConnectionPhase.fallback_active = false

unfoldable pub on_app_backgrounded : SessionRuntime → ℤ → SessionRuntime
unfolding record_connection_event apply_event
on_app_backgrounded r now_ms =
    let hidden =
      record_connection_event (record r { app_in_background = true; reconnect_due_at_ms = none })
        (lit "app_backgrounded") [] now_ms in
    if r.user_initiated_disconnect
    then hidden
    else if is_live r.state.connection_phase
    then apply_event hidden (ProtocolEvent.transport_disconnected (lit "app_backgrounded")) now_ms
    else hidden

abbrev pub is_up : ConnectionPhase → Bool
is_up phase =
    same_phase phase ConnectionPhase.connected || same_phase phase ConnectionPhase.connecting

-- What follows a failure: a reconnection is scheduled now, or left for the foreground.
unfoldable pub reconnect_later : SessionRuntime → Str → ℤ → SessionRuntime × RuntimeDirective
unfolding record_connection_event schedule_reconnect_or_fallback
reconnect_later r trigger now_ms =
    if r.app_in_background
    then (
      record_connection_event r (lit "reconnect_deferred_backgrounded")
          ((lit "trigger", trigger) ∷ []) now_ms,
      nothing,
    )
    else schedule_reconnect_or_fallback r trigger now_ms

unfoldable pub network_available : SessionRuntime → ℤ → SessionRuntime
unfolding record_connection_event request_connect
network_available r now_ms =
    let told = record_connection_event r (lit "network_available") [] now_ms in
    if r.app_in_background
    then record_connection_event told (lit "connectivity_restore_deferred_backgrounded") [] now_ms
    else if not (is_up r.state.connection_phase) && not r.state.fallback.active
    then request_connect told false (lit "connectivity_restore") now_ms
    else told

unfoldable pub on_connectivity_changed : SessionRuntime → Bool → ℤ → SessionRuntime
unfolding network_available record_connection_event apply_event reconnect_later
on_connectivity_changed r available now_ms =
    if r.user_initiated_disconnect
    then r
    else if available
    then network_available r now_ms
    else let lost =
        apply_event (record_connection_event r (lit "network_unavailable") [] now_ms)
          (ProtocolEvent.transport_failure (lit "network_unavailable")) now_ms in
      (reconnect_later lost (lit "network_unavailable") now_ms).0

unfoldable pub on_audio_interruption_began : SessionRuntime → ℤ → SessionRuntime
unfolding record_connection_event apply_event reconnect_later
on_audio_interruption_began r now_ms =
    if r.user_initiated_disconnect
    then r
    else let lost =
        apply_event (record_connection_event r (lit "audio_interruption_began") [] now_ms)
          (ProtocolEvent.transport_failure (lit "audio_interruption")) now_ms in
      (reconnect_later lost (lit "audio_interruption") now_ms).0

unfoldable pub on_audio_interruption_ended : SessionRuntime → Bool → ℤ → SessionRuntime
unfolding record_connection_event request_connect
on_audio_interruption_ended r should_reconnect now_ms =
    if r.user_initiated_disconnect
    then r
    else let told =
        record_connection_event r (lit "audio_interruption_ended")
          ((lit "should_reconnect", show_bool should_reconnect) ∷ []) now_ms in
      if not should_reconnect || r.app_in_background || r.state.fallback.active
      then told
      else if not (is_up r.state.connection_phase)
      then request_connect told false (lit "audio_interruption_end") now_ms
      else told

unfoldable pub on_audio_route_changed : SessionRuntime → Str → ℤ → SessionRuntime
unfolding record_connection_event
on_audio_route_changed r reason now_ms =
    record_connection_event r (lit "audio_route_changed") ((lit "reason", reason) ∷ []) now_ms
