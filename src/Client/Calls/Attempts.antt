-- ===== src/Client/Calls/Attempts.antt =====
-- When the runtime means to reconnect (crates/kaigi-linux-client/src/lib.rs: `SessionRuntime`).
use sora_kaigi.Base.{
  ℕ, zero, suc, ◌≤◌, ◌<◌, ◌≡◌, Bool, true, false, Option, none, some, is_some, length, get_elem?,
  Option-cases, inl, inr, if-both, List, [], ◌∷◌, arith,
}
use sora_kaigi.Base.Text.{Str}
use sora_kaigi.Base.Ints.{ℤ}
use sora_kaigi.Client.Model.{MeetingConfig}
use sora_kaigi.Client.Frames.{ProtocolEvent}
use sora_kaigi.Client.Runtime.{
  SessionRuntime, with_backoff, record_connection_event, apply_event, request_connect, schedule,
  exhaust, schedule_or_exhaust, schedule_reconnect_or_fallback, reconnect_later, network_available,
  connect_requested, on_app_foregrounded, on_app_backgrounded, on_connectivity_changed,
  on_audio_interruption_began, on_audio_interruption_ended, on_audio_route_changed,
}
use sora_kaigi.Client.Outbound.{
  acknowledge, on_transport_connected, on_transport_disconnected, on_transport_failure,
  on_send_failure, on_manual_disconnect, on_frame, recover_from_fallback, take_reconnect_if_due,
}
use sora_kaigi.Client.Calls.{Call, call, call_all}

pub record IsScheduled (r : SessionRuntime) : Type 0 where
  pub attempts : r.reconnect_attempt ≤ length r.reconnect_backoff_ms
  -- A reconnection is due only in the foreground, and not after the user has left.
  pub shown : is_some r.reconnect_due_at_ms ≡ true → r.app_in_background ≡ false
  pub wanted : is_some r.reconnect_due_at_ms ≡ true → r.user_initiated_disconnect ≡ false

abbrev IsScheduledFirst {ℓ} : {B : Type ℓ} → SessionRuntime × B → Type 0
IsScheduledFirst r = IsScheduled r.0

pub get_elem?-lt : (xs : List ℤ) (n : ℕ) (d : ℤ) → get_elem? xs n ≡ some d → n < length xs
get_elem?-lt [] n d h = cc
get_elem?-lt (x ∷ xs) zero d h = omega arith
get_elem?-lt (x ∷ xs) (suc n) d h = omega (arith, get_elem?-lt xs n d h)

module _ (r : SessionRuntime) (now : ℤ) (h : IsScheduled r) where
  apply-IsScheduled : (event : ProtocolEvent) → IsScheduled (apply_event r event now)
  unfolding apply_event
  apply-IsScheduled event = ground arith

  record-IsScheduled :
      (name : Str) (attributes : List (Str × Str))
      → IsScheduled (record_connection_event r name attributes now)
  unfolding record_connection_event
  record-IsScheduled name attributes = ground arith

  request-IsScheduled :
      (reset : Bool) (source : Str) → IsScheduled (request_connect r reset source now)
  unfolding request_connect record_connection_event apply_event
  request-IsScheduled reset source = ground arith

  later-IsScheduled : (trigger : Str) → IsScheduledFirst (reconnect_later r trigger now)
  unfolding reconnect_later schedule_reconnect_or_fallback record_connection_event
      schedule_or_exhaust schedule exhaust
  later-IsScheduled trigger =
      elim (Option-cases (get_elem? r.reconnect_backoff_ms r.reconnect_attempt)) [
        | inl over ↦ rw over (ground arith)
        | inr (d, more) ↦
            rw more (ground (arith, get_elem?-lt r.reconnect_backoff_ms r.reconnect_attempt d))
      ]

  acknowledge-IsScheduled :
      (epoch : Option (ℤ × Option Str)) (id : Str) → IsScheduledFirst (acknowledge r epoch id now)
  unfolding acknowledge apply_event
  acknowledge-IsScheduled none id = h
  acknowledge-IsScheduled (some (epoch, signature)) id = ground arith

  available-IsScheduled : IsScheduled (network_available r now)
  unfolding network_available request_connect record_connection_event apply_event
  available-IsScheduled = ground arith

  foregrounded-IsScheduled : IsScheduled (on_app_foregrounded r now)
  unfolding on_app_foregrounded request_connect record_connection_event apply_event
  foregrounded-IsScheduled = ground arith

  backgrounded-IsScheduled : IsScheduled (on_app_backgrounded r now)
  unfolding on_app_backgrounded record_connection_event apply_event
  backgrounded-IsScheduled = ground arith

  interruption_ended-IsScheduled :
      (should : Bool) → IsScheduled (on_audio_interruption_ended r should now)
  unfolding on_audio_interruption_ended request_connect record_connection_event apply_event
  interruption_ended-IsScheduled should = ground arith

  connected-IsScheduled : IsScheduledFirst (on_transport_connected r now)
  unfolding on_transport_connected record_connection_event apply_event
  connected-IsScheduled = ground arith

  recover-IsScheduled : IsScheduled (recover_from_fallback r now)
  unfolding recover_from_fallback request_connect record_connection_event apply_event
  recover-IsScheduled = ground arith

  take-IsScheduled : IsScheduledFirst (take_reconnect_if_due r now)
  unfolding take_reconnect_if_due request_connect record_connection_event apply_event
  take-IsScheduled = ground arith

  manual-IsScheduled : IsScheduled (on_manual_disconnect r now)
  unfolding on_manual_disconnect record_connection_event apply_event
  manual-IsScheduled = ground arith

-- A failing transport, and what follows it.
fail-IsScheduled :
    (r : SessionRuntime) (event : ProtocolEvent) (trigger name : Str)
    (attributes : List (Str × Str)) (now : ℤ)
    → IsScheduled r
    → IsScheduledFirst (
        reconnect_later
          (apply_event (record_connection_event r name attributes now) event now)
          trigger
          now)
fail-IsScheduled r event trigger name attributes now h =
    later-IsScheduled _ now
      (apply-IsScheduled _ now (record-IsScheduled r now h name attributes) event) trigger

call-IsScheduled :
    (r : SessionRuntime) (c : Call) (now : ℤ) → IsScheduled r → IsScheduled (call r c now)
unfolding call connect_requested on_connectivity_changed on_audio_interruption_began
    on_audio_route_changed on_transport_disconnected on_transport_failure on_send_failure on_frame
call-IsScheduled r Call.connect now h = request-IsScheduled r now h true _
call-IsScheduled r Call.foregrounded now h = foregrounded-IsScheduled r now h
call-IsScheduled r Call.backgrounded now h = backgrounded-IsScheduled r now h
call-IsScheduled r (Call.connectivity_changed available) now h =
    if-both IsScheduled r.user_initiated_disconnect h (
      if-both IsScheduled available (available-IsScheduled r now h)
        (fail-IsScheduled r _ _ _ _ now h))
call-IsScheduled r Call.audio_interruption_began now h =
    if-both IsScheduled r.user_initiated_disconnect h (fail-IsScheduled r _ _ _ _ now h)
call-IsScheduled r (Call.audio_interruption_ended should) now h =
    interruption_ended-IsScheduled r now h should
call-IsScheduled r (Call.audio_route_changed reason) now h = record-IsScheduled r now h _ _
call-IsScheduled r Call.transport_connected now h = connected-IsScheduled r now h
call-IsScheduled r (Call.transport_disconnected reason) now h = fail-IsScheduled r _ _ _ _ now h
call-IsScheduled r (Call.transport_failure message) now h = fail-IsScheduled r _ _ _ _ now h
call-IsScheduled r (Call.send_failure message) now h =
    apply-IsScheduled _ now (record-IsScheduled r now h _ _) _
call-IsScheduled r Call.manual_disconnect now h = manual-IsScheduled r now h
call-IsScheduled r (Call.frame received) now h =
    acknowledge-IsScheduled _ now (apply-IsScheduled r now h _) _ _
call-IsScheduled r Call.recover now h = recover-IsScheduled r now h
call-IsScheduled r Call.take_reconnect now h = take-IsScheduled r now h

with_backoff-IsScheduled :
    (config : MeetingConfig) (backoff : List ℤ) → IsScheduled (with_backoff config backoff)
unfolding with_backoff
with_backoff-IsScheduled config backoff = ground arith

call_all_kept :
    (r : SessionRuntime) (calls : List (Call × ℤ)) → IsScheduled r → IsScheduled (call_all r calls)
call_all_kept r [] h = h
call_all_kept r ((c, now) ∷ calls) h =
    call_all_kept (call r c now) calls (call-IsScheduled r c now h)

-- After any calls at any times on a new runtime, it has made no more attempts than its backoff has
-- delays, and a reconnection is due only if the app is in the foreground and the user has not left.
pub call_all-IsScheduled :
    (config : MeetingConfig) (backoff : List ℤ) (calls : List (Call × ℤ))
    → IsScheduled (call_all (with_backoff config backoff) calls)
call_all-IsScheduled config backoff calls =
    call_all_kept _ calls (with_backoff-IsScheduled config backoff)
