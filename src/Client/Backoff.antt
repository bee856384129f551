-- ===== src/Client/Backoff.antt =====
-- A client whose transport keeps failing (crates/kaigi-linux-client/src/lib.rs:
-- `on_transport_failure`, `take_reconnect_if_due`).
use sora_kaigi.Base.{
  ℕ, zero, suc, ◌+◌, ◌≤◌, ◌<◌, ◌≡◌, refl, true, false, none, some, length, get_elem?, sym, ◌∙◌,
  subst, List, [], ◌∷◌, arith,
}
use sora_kaigi.Base.Text.{Str}
use sora_kaigi.Base.Ints.{ℤ, pos, ltb_ℤ, max_ℤ, sat_add_i64}
use sora_kaigi.Client.Model.{ConnectionPhase}
use sora_kaigi.Client.Session.{transport_lost, reduce}
use sora_kaigi.Client.Runtime.{
  RuntimeDirective, SessionRuntime, record_connection_event, apply_event, request_connect, schedule,
  exhaust, schedule_or_exhaust, schedule_reconnect_or_fallback, reconnect_later,
}
use sora_kaigi.Client.Outbound.{on_transport_failure, take_reconnect_if_due}

-- What a client does with the directive of a failure: it waits until the reconnection is due.
abbrev pub reconnect_when_due : SessionRuntime × RuntimeDirective → SessionRuntime
reconnect_when_due (r, RuntimeDirective.reconnect_scheduled attempt due_at_ms) =
    (take_reconnect_if_due r due_at_ms).0
reconnect_when_due (r, RuntimeDirective.nothing) = r
reconnect_when_due (r, RuntimeDirective.fallback_activated reason) = r

unfoldable pub round : SessionRuntime → Str × ℤ → SessionRuntime
round r (message, now) = reconnect_when_due (on_transport_failure r message now)

abbrev pub rounds : SessionRuntime → List (Str × ℤ) → SessionRuntime
rounds r [] = r
rounds r (failure ∷ failures) = rounds (round r failure) failures

-- Neither left, hidden nor in fallback, and with no reconnection pending.
pub record IsTrying (r : SessionRuntime) : Type 0 where
  pub wanted : r.user_initiated_disconnect ≡ false
  pub shown : r.app_in_background ≡ false
  pub direct : r.state.fallback.active ≡ false
  pub idle : r.reconnect_due_at_ms ≡ none

due_now : (a : ℤ) → ltb_ℤ a a ≡ false
due_now a = ground arith

-- The runtime after a failure that is to be followed by a reconnection.
record IsWaiting (r t : SessionRuntime) (due : ℤ) : Type 0 where
  wanted : t.user_initiated_disconnect ≡ false
  shown : t.app_in_background ≡ false
  direct : t.state.fallback.active ≡ false
  pending : t.reconnect_due_at_ms ≡ some due
  attempt : t.reconnect_attempt ≡ r.reconnect_attempt + 1
  backoff : t.reconnect_backoff_ms ≡ r.reconnect_backoff_ms

due_of : ℤ → ℤ → ℤ
due_of now delay = sat_add_i64 now (max_ℤ delay (pos 0))

failure-IsWaiting :
    (r : SessionRuntime) (message : Str) (now delay : ℤ)
    → IsTrying r
    → get_elem? r.reconnect_backoff_ms r.reconnect_attempt ≡ some delay
    → let t = on_transport_failure r message now in
      IsWaiting r t.0 (due_of now delay)
      × (t.1 ≡ RuntimeDirective.reconnect_scheduled (r.reconnect_attempt + 1) (due_of now delay))
unfolding on_transport_failure reconnect_later schedule_reconnect_or_fallback schedule_or_exhaust
    schedule record_connection_event apply_event reduce transport_lost due_of
failure-IsWaiting r message now delay h e = (ground arith, ground arith)

take-IsTrying :
    (r t : SessionRuntime) (due : ℤ)
    → IsWaiting r t due
    → let u = (take_reconnect_if_due t due).0 in
      IsTrying u
      × (u.reconnect_attempt ≡ r.reconnect_attempt + 1)
      × (u.reconnect_backoff_ms ≡ r.reconnect_backoff_ms)
unfolding take_reconnect_if_due request_connect record_connection_event apply_event reduce
take-IsTrying r t due w = ground (arith, due_now due)

reconnect_when_due_lem :
    (p : SessionRuntime × RuntimeDirective) (attempt : ℕ) (due : ℤ)
    → p.1 ≡ RuntimeDirective.reconnect_scheduled attempt due
    → reconnect_when_due p ≡ (take_reconnect_if_due p.0 due).0
reconnect_when_due_lem (r, RuntimeDirective.reconnect_scheduled a d) attempt due e = ground arith
reconnect_when_due_lem (r, RuntimeDirective.nothing) attempt due e = cc
reconnect_when_due_lem (r, RuntimeDirective.fallback_activated reason) attempt due e = cc

round_retries :
    (r : SessionRuntime) (failure : Str × ℤ) (delay : ℤ)
    → IsTrying r
    → get_elem? r.reconnect_backoff_ms r.reconnect_attempt ≡ some delay
    → let t = round r failure in
      IsTrying t
      × (t.reconnect_attempt ≡ r.reconnect_attempt + 1)
      × (t.reconnect_backoff_ms ≡ r.reconnect_backoff_ms)
unfolding round
round_retries r (message, now) delay h e =
    let (waiting, scheduled) = failure-IsWaiting r message now delay h e in
    rw (reconnect_when_due_lem (on_transport_failure r message now) _ _ scheduled)
      (take-IsTrying r (on_transport_failure r message now).0 (due_of now delay) waiting)

round_gives_up :
    (r : SessionRuntime) (failure : Str × ℤ)
    → IsTrying r
    → get_elem? r.reconnect_backoff_ms r.reconnect_attempt ≡ none
    → let t = (round r failure).state in
      (t.fallback.active ≡ true) × (t.connection_phase ≡ ConnectionPhase.fallback_active)
unfolding round on_transport_failure reconnect_later schedule_reconnect_or_fallback
    schedule_or_exhaust exhaust record_connection_event apply_event reduce transport_lost
round_gives_up r (message, now) h e = ground arith

get_elem?-none : (xs : List ℤ) (n : ℕ) → length xs ≤ n → get_elem? xs n ≡ none
get_elem?-none [] n h = refl
get_elem?-none (x ∷ xs) zero h = absurd (omega arith)
get_elem?-none (x ∷ xs) (suc n) h = get_elem?-none xs n (omega arith)

get_elem?-some : (xs : List ℤ) (n : ℕ) → n < length xs → (d : ℤ) × (get_elem? xs n ≡ some d)
get_elem?-some [] n h = absurd (omega arith)
get_elem?-some (x ∷ xs) zero h = (x, refl)
get_elem?-some (x ∷ xs) (suc n) h = get_elem?-some xs n (omega arith)

rounds_retry :
    (r : SessionRuntime) (failures : List (Str × ℤ))
    → IsTrying r
    → r.reconnect_attempt + length failures ≤ length r.reconnect_backoff_ms
    → let t = rounds r failures in
      IsTrying t
      × (t.reconnect_attempt ≡ r.reconnect_attempt + length failures)
      × (t.reconnect_backoff_ms ≡ r.reconnect_backoff_ms)
rounds_retry r [] h fits = (h, omega arith, refl)
rounds_retry r (failure ∷ failures) h fits =
    let (delay, e) = get_elem?-some r.reconnect_backoff_ms r.reconnect_attempt (omega arith) in
    let (trying, one, same) = round_retries r failure delay h e in
    let fits' =
      subst (λ (xs : List ℤ). (round r failure).reconnect_attempt + length failures ≤ length xs)
        (sym same) (omega arith) in
    let (later, more, same') = rounds_retry (round r failure) failures trying fits' in
    (later, omega arith, same' ∙ same)

-- A client in the foreground, not left by its user, not in fallback and with nothing pending, whose
-- transport fails again and again, and which reconnects each time that is due, keeps retrying as
-- long as its backoff has delays; the failure after the last of them puts it in fallback.
pub rounds_exhaust :
    (r : SessionRuntime) (failures : List (Str × ℤ)) (last : Str × ℤ)
    → IsTrying r
    → r.reconnect_attempt + length failures ≡ length r.reconnect_backoff_ms
    → let t = rounds r failures in
      let u = (round t last).state in
      IsTrying t
      × (u.fallback.active ≡ true)
      × (u.connection_phase ≡ ConnectionPhase.fallback_active)
rounds_exhaust r failures last h all =
    let (trying, attempts, same) = rounds_retry r failures h (omega arith) in
    let over : length (rounds r failures).reconnect_backoff_ms
        ≤ (rounds r failures).reconnect_attempt =
      rw same (omega arith) in
    let (active, phase) =
      round_gives_up (rounds r failures) last trying (get_elem?-none _ _ over) in
    (trying, active, phase)
