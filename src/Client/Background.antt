-- ===== src/Client/Background.antt =====
-- A client that was left while its app was in the background (crates/kaigi-linux-client/src/lib.rs:
-- `on_app_foregrounded`, `request_connect`).
use sora_kaigi.Base.{◌≡◌, true, arith}
use sora_kaigi.Base.Ints.{ℤ}
use sora_kaigi.Client.Runtime.{
  SessionRuntime, record_connection_event, apply_event, request_connect, on_app_foregrounded,
  on_app_backgrounded, connect_requested,
}

-- Left and in the background, so far as the runtime knows.
abbrev pub IsStuck : SessionRuntime → Type 0
IsStuck r = (r.user_initiated_disconnect ≡ true) × (r.app_in_background ≡ true)

hide-IsStuck :
    (r : SessionRuntime) (now : ℤ)
    → r.user_initiated_disconnect ≡ true
    → IsStuck (on_app_backgrounded r now)
unfolding on_app_backgrounded record_connection_event apply_event
hide-IsStuck r now h = ground arith

show-IsStuck : (r : SessionRuntime) (now : ℤ) → IsStuck r → on_app_foregrounded r now ≡ r
unfolding on_app_foregrounded
show-IsStuck r now h = rw h.0

connect-IsStuck :
    (r : SessionRuntime) (now : ℤ)
    → IsStuck r
    → IsStuck (connect_requested r now) × ((connect_requested r now).state ≡ r.state)
unfolding connect_requested request_connect record_connection_event
connect-IsStuck r now h = ground arith

-- A user who has left, puts the app in the background and brings it back does not get to connect:
-- the request leaves the session as it is, and the runtime still takes the app for hidden.
pub reconnect_is_dropped :
    (r : SessionRuntime) (hidden_at shown_at now : ℤ)
    → r.user_initiated_disconnect ≡ true
    → let t = on_app_foregrounded (on_app_backgrounded r hidden_at) shown_at in
      IsStuck (connect_requested t now) × ((connect_requested t now).state ≡ t.state)
reconnect_is_dropped r hidden_at shown_at now h =
    let stuck = hide-IsStuck r hidden_at h in
    rw (show-IsStuck (on_app_backgrounded r hidden_at) shown_at stuck)
      (connect-IsStuck (on_app_backgrounded r hidden_at) now stuck)
