-- ===== src/Scenarios/Money.antt =====
-- Bills: a participant who has joined and is charged 60 nano-XOR a minute.
use sora_kaigi.Base.{
  ◌+◌, ◌-◌, ◌*◌, ◌≤◌, ◌<◌, ◌≡◌, ◌≢◌, refl, true, false, none, some, get, nat_eq, arith,
}
use sora_kaigi.Base.Text.{Str}
use sora_kaigi.Wire.Frames.{RoomConfigUpdateFrame}
use sora_kaigi.Hub.State.{ParticipantState, RoomState}
use sora_kaigi.Hub.Billing.{advance_billing, Tick, enforce_billing_tick}
use sora_kaigi.Hub.Billing.Exact.{IsMetered, advance_billing_exact, advance_billing-advance_billing}
use sora_kaigi.Hub.Billing.Grace.{grace_window, grace_over}
use sora_kaigi.Hub.Policy.{room_config_section}
use sora_kaigi.Hub.Policy.Settlement.{room_config_section_settles}
use sora_kaigi.Scenarios.Fixtures.{billing, joined, at_conn, b_id, host_and_guest}

abbrev debtor : ParticipantState
debtor = joined b_id

debtor-IsMetered : IsMetered debtor
debtor-IsMetered = record { remainder = omega arith; billed = omega arith }

advance_billing_exact_example :
    let t = advance_billing debtor 60 90500 in
    (t.billed_nano_xor * 60000 + t.billing_remainder_mod_60k ≡ 0 * 60000 + 0 + 60 * (90500 - 0))
    × (t.billing_remainder_mod_60k < 60000)
advance_billing_exact_example =
    advance_billing_exact debtor 60 90500 debtor-IsMetered (omega arith) (omega arith) (omega arith)

advance_billing-advance_billing_example :
    advance_billing (advance_billing debtor 60 700) 60 90500 ≡ advance_billing debtor 60 90500
advance_billing-advance_billing_example =
    advance_billing-advance_billing debtor 60 700 90500 debtor-IsMetered (omega arith) (omega arith)
      (omega arith) (omega arith)

grace_window_example :
    (after : RoomState) × (enforce_billing_tick billing host_and_guest 2 30000 ≡ Tick.proceed after)
unfolding get
grace_window_example =
    grace_window billing host_and_guest 2 (at_conn 2 debtor) 30000 refl refl refl debtor-IsMetered
      (omega arith) (omega arith) refl (omega arith) (omega arith) (omega arith)

grace_over_example :
    (after : RoomState) × (message : Str) × (enforce_billing_tick billing host_and_guest 2 90000
      ≡ Tick.disconnect after message)
unfolding get
grace_over_example =
    grace_over billing host_and_guest 2 (at_conn 2 debtor) 90000 refl refl refl debtor-IsMetered
      (omega arith) (omega arith) refl (omega arith) (omega arith) (omega arith) (omega arith)
      (omega arith)

abbrev double_rate : RoomConfigUpdateFrame
double_rate = record {
  updated_at_ms = 0;
  rate_per_minute_nano = some 120;
  max_screen_shares = none;
}

rate_after :
    (room_config_section false host_and_guest 1 double_rate 90000).0.rate_per_minute_nano ≡ 120
unfolding room_config_section get sora_kaigi.Hub.Billing.normalize_rate_for_policy
rate_after = refl

rate_changes :
    (room_config_section false host_and_guest 1 double_rate 90000).0.rate_per_minute_nano ≢ 60
rate_changes e = omega (arith, rate_after)

room_config_section_settles_example :
    let after = (room_config_section false host_and_guest 1 double_rate 90000).0 in
    (get after.participants 2 ≡ some (at_conn 2 (advance_billing (joined b_id) 60 90000)))
    × ((advance_billing (joined b_id) 60 90000).hello_seen ≡ true)
    × (false ≡ false → 1 ≤ after.rate_per_minute_nano)
unfolding get
room_config_section_settles_example =
    room_config_section_settles false host_and_guest 1 double_rate 90000 2 (at_conn 2 (joined b_id))
      rate_changes refl
