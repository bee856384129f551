-- ===== src/Hub/Billing/Grace.antt =====
-- The grace window (crates/kaigi-hub-echo/src/main.rs: `enforce_billing`).
use sora_kaigi.Base.{
  ◌∙◌, ◌&&◌, ℕ, ◌+◌, ◌-◌, ◌*◌, ◌/◌, ◌≤◌, ◌<◌, ◌≡◌, true, false, refl, Option, none, some, is_some,
  get, put, nat_eq, cap_at, sat_add_u64, u64_max, ltb, arith,
}
use sora_kaigi.Base.Text.{Str}
use sora_kaigi.Hub.State.{BillingConfig, ConnId, Participant, ParticipantState, RoomState}
use sora_kaigi.Hub.Billing.{
  grace_nano, charge, bill_participant, Tick, tick_of, enforce_billing_tick,
}
use sora_kaigi.Hub.Billing.Exact.{IsMetered, due, product_bound, advance_billing_lem}

no_reason : (o : Option Str) → is_some o ≡ false → o ≡ none
no_reason o h = ground arith

mul_mono : (a b c : ℕ) → b ≤ c → a * b ≤ a * c
mul_mono a b c h = grind arith

module _ (billing : BillingConfig) (rate now : ℕ) (s : ParticipantState) (m : IsMetered s)
    (r : rate ≤ u64_max) (n : now ≤ u64_max) where
  -- A participant is to be disconnected for its bill exactly when it has joined, the room charges,
  -- and the bill has passed what was paid and the grace amount.
  charge-due :
      s.hello_seen ≡ true
      → is_some (charge billing rate now none s).1 ≡ (
          ltb 0 rate
          && ltb
              (sat_add_u64 s.paid_nano_xor (grace_nano billing rate))
              (cap_at u64_max (s.billed_nano_xor + due s rate now / 60000)))
  unfolding charge
  charge-due h = ground (arith, advance_billing_lem s rate now m r n)

  grace_nano_lem :
      billing.grace_secs ≤ u64_max
      → grace_nano billing rate ≡ cap_at u64_max (rate * billing.grace_secs / 60)
  unfolding grace_nano
  grace_nano_lem g = ground (arith, product_bound rate billing.grace_secs)

  charge_in_window :
      s.hello_seen ≡ true
      → billing.grace_secs ≤ u64_max
      → s.billed_nano_xor * 60000 + s.billing_remainder_mod_60k ≤ s.paid_nano_xor * 60000
      → now - s.last_billed_at_ms ≤ billing.grace_secs * 1000
      → (charge billing rate now none s).1 ≡ none
  charge_in_window h g paid soon =
      let most = mul_mono rate (now - s.last_billed_at_ms) (billing.grace_secs * 1000) soon in
      no_reason (charge billing rate now none s).1
        (charge-due h ∙ rw (grace_nano_lem g) (ground (arith, most)))

  charge_past_window :
      s.hello_seen ≡ true
      → billing.grace_secs ≤ u64_max
      → 0 < rate
      → s.paid_nano_xor ≤ s.billed_nano_xor
      → s.billed_nano_xor + due s rate now / 60000 ≤ u64_max
      → billing.grace_secs * 1000 + 60000 ≤ now - s.last_billed_at_ms
      → is_some (charge billing rate now none s).1 ≡ true
  charge_past_window h g charged unpaid fits late =
      let more =
        mul_mono rate (billing.grace_secs * 1000 + 60000) (now - s.last_billed_at_ms) late in
      charge-due h ∙ rw (grace_nano_lem g) (ground (arith, more))

proceeds : (room : RoomState) (o : Option Str) → o ≡ none → tick_of room o ≡ Tick.proceed room
proceeds room o h = rw h refl

disconnects :
    (room : RoomState) (o : Option Str)
    → is_some o ≡ true
    → (message : Str) × (tick_of room o ≡ Tick.disconnect room message)
disconnects room none h = absurd (ground arith)
disconnects room (some message) h = (message, refl)

module _ (billing : BillingConfig) (room : RoomState) (conn_id : ConnId) (p : Participant) (now : ℕ)
    (here : get room.participants conn_id ≡ some p) (transparent : room.anonymous_mode ≡ false)
    (named : p.state.anonymous_mode ≡ false) where
  -- The room after a tick that charges the participant.
  abbrev pub charged_room : RoomState
  charged_room = record room {
    participants =
        put room.participants conn_id
          (record p { state = (charge billing room.rate_per_minute_nano now none p.state).0 });
  }

  tick-charge :
      enforce_billing_tick billing room conn_id now
      ≡ tick_of charged_room (charge billing room.rate_per_minute_nano now none p.state).1
  unfolding enforce_billing_tick bill_participant
  tick-charge = ground arith

  module _ (m : IsMetered p.state) (r : room.rate_per_minute_nano ≤ u64_max) (n : now ≤ u64_max)
      (h : p.state.hello_seen ≡ true) (g : billing.grace_secs ≤ u64_max) where
    -- For counters, rate and time within their types, a tick of the billing task in a transparent
    -- room lets a transparent participant stay that has said hello and has paid its whole bill,
    -- the remainder included, if it comes within the grace window since the last billing.
    pub grace_window :
        p.state.billed_nano_xor * 60000 + p.state.billing_remainder_mod_60k
          ≤ p.state.paid_nano_xor * 60000
        → now - p.state.last_billed_at_ms ≤ billing.grace_secs * 1000
        → (after : RoomState) × (enforce_billing_tick billing room conn_id now ≡ Tick.proceed after)
    grace_window paid soon =
        let stays =
          charge_in_window billing room.rate_per_minute_nano now p.state m r n h g paid soon in
        (charged_room, tick-charge ∙ proceeds charged_room _ stays)

    -- For counters, rate and time within their types and a bill that fits u64, a tick of the
    -- billing task in a transparent room that charges disconnects a transparent participant that
    -- has said hello and has paid no more than its bill, if it comes a minute or more past the
    -- grace window since the last billing.
    pub grace_over :
        0 < room.rate_per_minute_nano
        → p.state.paid_nano_xor ≤ p.state.billed_nano_xor
        → p.state.billed_nano_xor + due p.state room.rate_per_minute_nano now / 60000 ≤ u64_max
        → billing.grace_secs * 1000 + 60000 ≤ now - p.state.last_billed_at_ms
        → (after : RoomState) × (message : Str) × (enforce_billing_tick billing room conn_id now
            ≡ Tick.disconnect after message)
    grace_over charges unpaid fits late =
        let goes =
          charge_past_window billing room.rate_per_minute_nano now p.state m r n h g charges unpaid
            fits late in
        let (message, e) = disconnects charged_room _ goes in
        (charged_room, message, tick-charge ∙ e)
