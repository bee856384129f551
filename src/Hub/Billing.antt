-- ===== src/Hub/Billing.antt =====
-- Pay per use (crates/kaigi-hub-echo/src/main.rs): the bill that grows with time, payments, the
-- grace window, the rate policy, and the tick of `enforce_billing`.
pub mod Exact
pub mod Grace
use sora_kaigi.Base.{
  ℕ, ◌+◌, ◌-◌, ◌*◌, ◌/◌, ◌%◌, ◌^◌, Bool, true, false, not, ◌&&◌, ◌||◌, Option, none, some, List, [],
  ◌∷◌, get, put, nat_eq, concat, is_none, is_some, opt_or, max, ltb, leb, nat_beq, cap_at,
  sat_add_u64, u64_max, u128_max, if◌then◌else◌,
}
use sora_kaigi.Base.Text.{Str, lit, show_nat}
use sora_kaigi.Base.Results.{Res, ok, err}
use sora_kaigi.Wire.Frames.{PaymentFrame, PaymentAckFrame}
use sora_kaigi.Hub.State.{
  Crypto, ConnId, BillingConfig, HubConfig, Participant, ParticipantState, RoomState,
}
use sora_kaigi.Hub.Hex.{is_valid_tx_hash_hex}

unfoldable pub grace_nano : BillingConfig → ℕ → ℕ
grace_nano billing rate_per_minute_nano =
    cap_at u64_max (cap_at u128_max (rate_per_minute_nano * billing.grace_secs) / 60)

unfoldable pub advance_billing : ParticipantState → ℕ → ℕ → ParticipantState
advance_billing state rate_per_minute_nano now_ms =
    let elapsed_ms = now_ms - state.last_billed_at_ms in
    let numerator =
      cap_at u128_max
        (cap_at u128_max (rate_per_minute_nano * elapsed_ms) + state.billing_remainder_mod_60k) in
    if nat_beq elapsed_ms 0 || nat_beq rate_per_minute_nano 0
    then record state { last_billed_at_ms = now_ms }
    else record state {
      last_billed_at_ms = now_ms;
      billing_remainder_mod_60k = numerator % 60000 % 4294967296;
      billed_nano_xor = sat_add_u64 state.billed_nano_xor (cap_at u64_max (numerator / 60000));
    }

unfoldable pub normalize_rate_for_policy : ℕ → Bool → ℕ
normalize_rate_for_policy rate allow_free_calls = if allow_free_calls then rate else max rate 1

unfoldable pub normalize_initial_rate : ℕ → Bool → Res ℕ
unfolding normalize_rate_for_policy
normalize_initial_rate rate allow_free_calls =
    if nat_beq rate 0 && not allow_free_calls
    then err (lit "--xor-rate-per-minute-nano must be > 0 unless --allow-free-calls is set")
    else ok (normalize_rate_for_policy rate allow_free_calls)

-- `checked_add` on u64.
unfoldable pub apply_anonymous_zk_surcharge : ℕ → ℕ → Res ℕ
apply_anonymous_zk_surcharge base extra =
    if nat_beq extra 0
    then ok base
    else if leb (base + extra) u64_max
    then ok (base + extra)
    else err (
        lit
          "anonymous surcharge overflow: room_rate_per_minute_nano + --anon-zk-extra-fee-per-minute-nano exceeds u64")

-- `max_stale_secs.saturating_mul(1000)` on u64.
unfoldable pub escrow_proof_stale : ℕ → ℕ → ℕ → Bool
escrow_proof_stale last_proof_at_ms now_ms max_stale_secs =
    ltb (cap_at u64_max (max_stale_secs * 1000)) (now_ms - last_proof_at_ms)

unfoldable pub anonymous_hello_timed_out : ℕ → ℕ → ℕ → Bool
unfolding escrow_proof_stale
anonymous_hello_timed_out connected_at_ms now_ms max_wait_secs =
    escrow_proof_stale connected_at_ms now_ms max_wait_secs

-- What a payment frame leads to, for a participant.
pub data PaymentOutcome : Type 0 where
  require_hello : PaymentOutcome
  invalid_payment_hash : PaymentOutcome
  accepted : PaymentOutcome

abbrev has_tx_hash : Crypto → Option Str → Bool
has_tx_hash crypto none = false
has_tx_hash crypto (some hash) = is_valid_tx_hash_hex crypto hash

-- The locked section of the `Payment` handler.
unfoldable pub pay :
    Crypto → HubConfig → ℕ → PaymentFrame → ℕ → ParticipantState → ParticipantState × PaymentOutcome
pay crypto config rate payment now state =
    let billed = advance_billing state rate now in
    if not state.hello_seen
    then (record state { last_billed_at_ms = now }, require_hello)
    else if config.require_payment_tx_hash
        && ltb 0 rate
        && not (has_tx_hash crypto payment.tx_hash_hex)
    then (billed, invalid_payment_hash)
    else (
      record billed {
        paid_nano_xor = sat_add_u64 billed.paid_nano_xor payment.amount_nano_xor;
        last_payment_at_ms = some now;
      },
      accepted,
    )

abbrev hello_timeout_message : ℕ → ℕ → Str
hello_timeout_message connected_at max_wait_secs = concat (
    lit "anonymous hello timeout: connected_at_ms="
    ∷ show_nat connected_at
    ∷ lit " max_wait_secs="
    ∷ show_nat max_wait_secs
    ∷ [])

abbrev stale_message : ℕ → ℕ → Str
stale_message last max_stale_secs = concat (
    lit "anonymous escrow proof stale: last_proof_at_ms="
    ∷ show_nat last
    ∷ lit " max_stale_secs="
    ∷ show_nat max_stale_secs
    ∷ [])

abbrev payment_required_message : ℕ → ℕ → ℕ → ℕ → Str
payment_required_message billed paid grace rate = concat (
    lit "payment required: billed_nano_xor="
    ∷ show_nat billed
    ∷ lit " paid_nano_xor="
    ∷ show_nat paid
    ∷ lit " grace_nano_xor="
    ∷ show_nat grace
    ∷ lit " rate_per_minute_nano="
    ∷ show_nat rate
    ∷ [])

-- The checks of an anonymous participant: the reason to disconnect it, if any.
unfoldable pub anonymous_overdue : BillingConfig → ℕ → ParticipantState → Option Str
unfolding anonymous_hello_timed_out escrow_proof_stale
anonymous_overdue billing now state =
    let max_stale = billing.anon_escrow_proof_max_stale_secs in
    let last = opt_or state.last_escrow_proof_at_ms state.last_billed_at_ms in
    if nat_beq max_stale 0
    then none
    else if not state.hello_seen
    then (if anonymous_hello_timed_out state.last_billed_at_ms now max_stale
        then some (hello_timeout_message state.last_billed_at_ms max_stale)
        else none)
    else if escrow_proof_stale last now max_stale
    then some (stale_message last max_stale)
    else none

-- The bill of a participant is brought up to date, and the reason to disconnect it, if any. An
-- `override` is a reason found before.
unfoldable pub charge :
    BillingConfig → ℕ → ℕ → Option Str → ParticipantState → ParticipantState × Option Str
charge billing rate now override state =
    let charged =
      if state.hello_seen
      then advance_billing state rate now
      else record state { last_billed_at_ms = now } in
    let grace = grace_nano billing rate in
    (
      charged,
      if state.hello_seen
            && ltb 0 rate
            && ltb (sat_add_u64 charged.paid_nano_xor grace) charged.billed_nano_xor
          then some
              (payment_required_message charged.billed_nano_xor charged.paid_nano_xor grace rate)
          else override,
    )

-- One tick of `enforce_billing` for a participant. In an anonymous room only the escrow proofs
-- count, unless one is overdue: then the code below them runs too.
unfoldable pub bill_participant :
    BillingConfig → RoomState → ℕ → ParticipantState → ParticipantState × Option Str
bill_participant billing room now state =
    let overdue = anonymous_overdue billing now state in
    if room.anonymous_mode || state.anonymous_mode
    then (if is_none overdue
        then (state, none)
        else charge billing room.rate_per_minute_nano now overdue state)
    else charge billing room.rate_per_minute_nano now none state

-- How a tick ends: the task stops, goes on, or disconnects the participant and stops.
pub data Tick : Type 0 where
  gone : Tick
  proceed : RoomState → Tick
  disconnect : RoomState → Str → Tick

abbrev pub tick_of : RoomState → Option Str → Tick
tick_of room none = proceed room
tick_of room (some message) = disconnect room message

unfoldable pub enforce_billing_tick : BillingConfig → RoomState → ConnId → ℕ → Tick
enforce_billing_tick billing room conn_id now = elim (get room.participants conn_id) [
  | none ↦ gone
  | some p ↦
      let (state, message) = bill_participant billing room now p.state in
      tick_of
        (record room { participants = put room.participants conn_id (record p { state = state }) })
        message
]

-- What the `Payment` handler answers.
pub data PaymentReply : Type 0 where
  ignored : PaymentReply
  refused : Str → PaymentReply
  acknowledged : PaymentAckFrame → PaymentReply

abbrev reply_of : PaymentFrame → ℕ → ParticipantState → PaymentOutcome → PaymentReply
reply_of payment now state PaymentOutcome.require_hello =
    PaymentReply.refused (lit "send Hello first")
reply_of payment now state PaymentOutcome.invalid_payment_hash =
    PaymentReply.refused
      (lit "payment tx_hash_hex is required and must be 32-byte hex when room rate is non-zero")
reply_of payment now state PaymentOutcome.accepted = PaymentReply.acknowledged (record {
  received_at_ms = now;
  amount_nano_xor = payment.amount_nano_xor;
  total_paid_nano_xor = state.paid_nano_xor;
  total_billed_nano_xor = state.billed_nano_xor;
})

unfoldable pub payment_section :
    Crypto → HubConfig → RoomState → ConnId → PaymentFrame → ℕ → RoomState × PaymentReply
unfolding pay
payment_section crypto config room conn_id payment now =
    if room.anonymous_mode
    then (
      room,
      PaymentReply.refused (lit "anonymous mode uses escrow proofs instead of payment frames"),
    )
    else elim (get room.participants conn_id) [
      | none ↦ (room, PaymentReply.ignored)
      | some p ↦
          let (state, outcome) = pay crypto config room.rate_per_minute_nano payment now p.state in
          (
            record room {
              participants = put room.participants conn_id (record p { state = state });
            },
            reply_of payment now state outcome,
          )
    ]
