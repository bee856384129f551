-- ===== src/Hub/Invariant/Opening.antt =====
-- Connections, anonymous hellos, billing, and the room's invariant
-- (crates/kaigi-hub-echo/src/main.rs).
use sora_kaigi.Base.{
  Bool, ℕ, ◌≡◌, refl, sym, subst, Option, none, some, get, get-insert, insert-IsUnique, contains,
  nat_beq_iff, nat_eq, str_eq, inl, inr, Option-cases, arith, put-IsUnique,
}
use sora_kaigi.Base.Text.{Str}
use sora_kaigi.Wire.Frames.{AnonHelloFrame}
use sora_kaigi.Hub.State.{
  Crypto, HubConfig, BillingConfig, ConnId, ParticipantState, RoomState, new_room,
  new_participant_state,
}
use sora_kaigi.Hub.Admission.{with_participant}
use sora_kaigi.Hub.Connect.{connect_section, new_participant}
use sora_kaigi.Hub.Anonymous.{anon_hello_section}
use sora_kaigi.Hub.Anonymous.Entrance.{anon_hello_section_cases}
use sora_kaigi.Hub.Billing.{
  advance_billing, anonymous_overdue, charge, bill_participant, Tick, tick_of, enforce_billing_tick,
}
use sora_kaigi.Hub.Invariant.{IsConsistent, put-IsApart}
use sora_kaigi.Hub.Invariant.Presence.{IsAlike, untouched-IsConsistent, alike-IsConsistent}

pub new_room-IsConsistent : {b : Bool} → (default_rate : ℕ) → IsConsistent b (new_room default_rate)
unfolding new_room get contains
new_room-IsConsistent default_rate = record {
  unique = tt;
  apart = λ c p h. ground arith;
  bound = λ h c. refl;
  led = λ h c p there present. ground arith;
  host_here = λ h c e. ground arith;
  distinct = λ h c d p q hc hd pc pd same. ground arith;
}

-- A new connection, under a number that no connection of the room has.
pub connect-IsConsistent :
    {b : Bool} (default_rate : ℕ) (room : RoomState) (conn_id : ConnId) (connected_at_ms : ℕ)
    → get room.participants conn_id ≡ none
    → IsConsistent b room
    → IsConsistent b (connect_section default_rate (some room) conn_id connected_at_ms)
unfolding connect_section new_participant_state
connect-IsConsistent default_rate room conn_id at fresh c = record {
  unique = insert-IsUnique room.participants conn_id (new_participant conn_id at) c.unique;
  apart = λ d p h.
      ground
        (arith, get-insert room.participants conn_id (new_participant conn_id at) d, c.apart d p);
  bound = λ h d. ground (
    arith,
    c.bound h d,
    get-insert room.participants conn_id (new_participant conn_id at) d,
    nat_beq_iff conn_id d,
  );
  led = λ h d p there present.
      ground
        (arith, c.led h d p, get-insert room.participants conn_id (new_participant conn_id at) d);
  host_here = λ h d e. ground (
    arith,
    c.host_here h d e,
    get-insert room.participants conn_id (new_participant conn_id at) d,
  );
  distinct = λ h d d' p q hd hd' pd pd' same. ground (
    arith,
    get-insert room.participants conn_id (new_participant conn_id at) d,
    get-insert room.participants conn_id (new_participant conn_id at) d',
    c.distinct h d d' p q,
  );
}

pub anon_hello_section-IsConsistent :
    {b : Bool} (config : HubConfig) (crypto : Crypto) (room : RoomState) (conn_id : ConnId)
    (hello : AnonHelloFrame) (now roster_at_ms : ℕ)
    → IsConsistent b room
    → IsConsistent b (anon_hello_section config crypto room conn_id hello now roster_at_ms).0
anon_hello_section-IsConsistent config crypto room conn_id hello now roster_at_ms c =
    elim (anon_hello_section_cases config crypto room conn_id hello now roster_at_ms) [
      | inl (n, same) ↦ subst (IsConsistent _) (sym same) (
          untouched-IsConsistent room (record room { anon_admission_rejections = n }) c refl refl
            refl refl refl)
      | inr (p, q, here, there, mode, entry, checks) ↦ record {
        unique = rw there (put-IsUnique room.participants conn_id q c.unique);
        apart = rw there (put-IsApart room.participants conn_id q (ground arith) c.apart);
        bound = λ h. absurd (ground arith);
        led = λ h. absurd (ground arith);
        host_here = λ h. absurd (ground arith);
        distinct = λ h. absurd (ground arith);
      }
    ]

pub advance_billing-IsAlike :
    (state : ParticipantState) (rate now : ℕ) → IsAlike state (advance_billing state rate now)
unfolding advance_billing
advance_billing-IsAlike state rate now = ground arith

charge-IsAlike :
    (billing : BillingConfig) (rate now : ℕ) (override : Option Str) (state : ParticipantState)
    → IsAlike state (charge billing rate now override state).0
unfolding charge
charge-IsAlike billing rate now override state =
    ground (arith, advance_billing-IsAlike state rate now)

-- The room after a tick of the billing task.
abbrev pub ticked : RoomState → Tick → RoomState
ticked room Tick.gone = room
ticked room (Tick.proceed next) = next
ticked room (Tick.disconnect next message) = next

ticked_room :
    (room next : RoomState) (message : Option Str) → ticked room (tick_of next message) ≡ next
ticked_room room next none = refl
ticked_room room next (some message) = refl

bill_participant-IsAlike :
    (billing : BillingConfig) (room : RoomState) (now : ℕ) (state : ParticipantState)
    → IsAlike state (bill_participant billing room now state).0
unfolding bill_participant
bill_participant-IsAlike billing room now state = ground (
  arith,
  charge-IsAlike billing room.rate_per_minute_nano now none state,
  charge-IsAlike billing room.rate_per_minute_nano now (anonymous_overdue billing now state) state,
)

pub enforce_billing_tick-IsConsistent :
    {b : Bool} (billing : BillingConfig) (room : RoomState) (conn_id : ConnId) (now : ℕ)
    → IsConsistent b room
    → IsConsistent b (ticked room (enforce_billing_tick billing room conn_id now))
unfolding enforce_billing_tick
enforce_billing_tick-IsConsistent billing room conn_id now c =
    elim (Option-cases (get room.participants conn_id)) [
      | inl absent ↦
          let e : ticked room (enforce_billing_tick billing room conn_id now) ≡ room =
            ground arith in
          subst (IsConsistent _) (sym e) c
      | inr (p, here) ↦
          let r = bill_participant billing room now p.state in
          let next = with_participant room conn_id (record p { state = r.0 }) in
          let e : ticked room (enforce_billing_tick billing room conn_id now) ≡ next =
            ground (arith, ticked_room room next r.1) in
          subst (IsConsistent _) (sym e) (
            alike-IsConsistent room conn_id p (record p { state = r.0 }) c here
              (bill_participant-IsAlike billing room now p.state))
    ]
