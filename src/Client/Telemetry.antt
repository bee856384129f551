-- ===== src/Client/Telemetry.antt =====
-- What the client tells its telemetry sink (crates/kaigi-linux-client/src/lib.rs:
-- `MeetingTelemetryEvent`, `emit_state_transition_telemetry`, `map_attributes`).
use sora_kaigi.Base.{
  ℕ, Bool, true, false, not, ◌&&◌, Option, none, some, List, [], ◌∷◌, ◌++◌, insert, str_eq, str_beq,
  nat_beq, opt_or, if◌then◌else◌,
}
use sora_kaigi.Base.Text.{Str, lit}
use sora_kaigi.Base.Ints.{ℤ, leb_ℤ, show_int}
use sora_kaigi.Client.Model.{
  ConnectionPhase, SessionErrorCategory, SessionError, ProtocolSessionState,
}
use sora_kaigi.Client.Policy.{is_policy_failure}

pub data MeetingTelemetryCategory : Type 0 where
  connection_lifecycle : MeetingTelemetryCategory
  fallback_lifecycle : MeetingTelemetryCategory
  policy_failure : MeetingTelemetryCategory

pub record MeetingTelemetryEvent : Type 0 where
  pub category : MeetingTelemetryCategory
  pub name : Str
  pub attributes : List (Str × Str)
  pub at_ms : ℤ

abbrev pub Events : Type 0
Events = List MeetingTelemetryEvent

insert_all : List (Str × Str) → List (Str × Str) → List (Str × Str)
insert_all m [] = m
insert_all m ((key, value) ∷ attributes) = insert_all (insert m key value) attributes

unfoldable pub map_attributes : List (Str × Str) → List (Str × Str)
unfolding insert_all
map_attributes attributes = insert_all [] attributes

unfoldable pub typed_event :
    MeetingTelemetryCategory → Str → List (Str × Str) → ℤ → MeetingTelemetryEvent
typed_event category name attributes now_ms = record {
  category = category;
  name = name;
  attributes = map_attributes attributes;
  at_ms = now_ms;
}

-- `format!("{:?}", phase)`.
unfoldable pub phase_name : ConnectionPhase → Str
phase_name ConnectionPhase.disconnected = lit "Disconnected"
phase_name ConnectionPhase.connecting = lit "Connecting"
phase_name ConnectionPhase.connected = lit "Connected"
phase_name ConnectionPhase.degraded = lit "Degraded"
phase_name ConnectionPhase.fallback_active = lit "FallbackActive"
phase_name ConnectionPhase.error = lit "Error"

abbrev phase_index : ConnectionPhase → ℕ
phase_index ConnectionPhase.disconnected = 0
phase_index ConnectionPhase.connecting = 1
phase_index ConnectionPhase.connected = 2
phase_index ConnectionPhase.degraded = 3
phase_index ConnectionPhase.fallback_active = 4
phase_index ConnectionPhase.error = 5

abbrev pub same_phase : ConnectionPhase → ConnectionPhase → Bool
same_phase a b = nat_beq (phase_index a) (phase_index b)

abbrev category_index : SessionErrorCategory → ℕ
category_index SessionErrorCategory.protocol_failure = 0
category_index SessionErrorCategory.policy_failure = 1
category_index SessionErrorCategory.transport_failure = 2

abbrev same_error : Option SessionError → Option SessionError → Bool
same_error none none = true
same_error none (some e) = false
same_error (some e) none = false
same_error (some d) (some e) =
    nat_beq (category_index d.category) (category_index e.category)
    && str_beq d.code e.code
    && str_beq d.message e.message
    && leb_ℤ d.at_ms e.at_ms
    && leb_ℤ e.at_ms d.at_ms

phase_events : ProtocolSessionState → ProtocolSessionState → ℤ → Events
phase_events previous next now_ms =
    if same_phase previous.connection_phase next.connection_phase
    then []
    else typed_event MeetingTelemetryCategory.connection_lifecycle (lit "phase_changed")
        ((lit "from", phase_name previous.connection_phase)
          ∷ (lit "to", phase_name next.connection_phase)
          ∷ [])
        now_ms
      ∷ []

abbrev rto_attributes : Option ℤ → List (Str × Str)
rto_attributes none = []
rto_attributes (some rto_ms) = (lit "rto_ms", show_int rto_ms) ∷ []

fallback_events : ProtocolSessionState → ProtocolSessionState → ℤ → Events
fallback_events previous next now_ms =
    if not previous.fallback.active && next.fallback.active
    then typed_event MeetingTelemetryCategory.fallback_lifecycle (lit "fallback_activated")
        ((lit "reason", opt_or next.fallback.reason (lit "unknown")) ∷ []) now_ms
      ∷ []
    else if previous.fallback.active && not next.fallback.active
    then typed_event MeetingTelemetryCategory.fallback_lifecycle (lit "fallback_recovered")
        (rto_attributes next.fallback.last_rto_ms) now_ms
      ∷ []
    else []

error_events : Option SessionError → Option SessionError → ℤ → Events
error_events previous none now_ms = []
error_events previous (some e) now_ms =
    if not (same_error previous (some e)) && is_policy_failure e.category
    then typed_event MeetingTelemetryCategory.policy_failure e.code
        ((lit "code", e.code) ∷ (lit "message", e.message) ∷ []) now_ms
      ∷ []
    else []

-- The events of a transition, in the order in which the sink is given them.
unfoldable pub emit_state_transition_telemetry :
    ProtocolSessionState → ProtocolSessionState → ℤ → Events
unfolding phase_events fallback_events error_events
emit_state_transition_telemetry previous next now_ms =
    phase_events previous next now_ms
    ++ (fallback_events previous next now_ms
        ++ error_events previous.last_error next.last_error now_ms)
