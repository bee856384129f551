-- ===== src/Hub/Policy/Settlement.antt =====
-- A change of the rate, and what was owed before (crates/kaigi-hub-echo/src/main.rs, the
-- `RoomConfigUpdate` handler).
use sora_kaigi.Base.{
  ℕ, ◌≤◌, ◌≡◌, ◌≢◌, refl, sym, ap, ◌∙◌, subst, Bool, false, not, ◌&&◌, Option, none, some, [], ◌∷◌,
  get, nat_eq, ◌⊎◌, inl, inr, Option-cases, arith, IsUnique,
}
use sora_kaigi.Wire.Frames.{RoomConfigUpdateFrame}
use sora_kaigi.Hub.State.{ConnId, Participant, RoomState}
use sora_kaigi.Hub.Roles.{is_host, is_some_and, holds_co_host_role}
use sora_kaigi.Hub.Billing.{advance_billing, normalize_rate_for_policy}
use sora_kaigi.Hub.Policy.{advance_all, billed_to, new_rate, new_max, room_config_section}
use sora_kaigi.Hub.Invariant.{Participants, IsConsistent}
use sora_kaigi.Hub.Invariant.Presence.{IsAlike}
use sora_kaigi.Hub.Invariant.Opening.{advance_billing-IsAlike}

abbrev mapped : (Participant → Participant) → Option Participant → Option Participant
mapped f none = none
mapped f (some p) = some (f p)

get-advance_all :
    (rate now : ℕ) (m : Participants) (c : ConnId)
    → get (advance_all rate now m) c ≡ mapped (billed_to rate now) (get m c)
unfolding advance_all get
get-advance_all rate now [] c = refl
get-advance_all rate now ((k, p) ∷ m) c = ground (arith, get-advance_all rate now m c)

advance_all-IsUnique :
    (rate now : ℕ) (m : Participants) → IsUnique m → IsUnique (advance_all rate now m)
unfolding advance_all
advance_all-IsUnique rate now [] u = tt
advance_all-IsUnique rate now ((k, p) ∷ m) u =
    (ground (arith, u.0, get-advance_all rate now m k), advance_all-IsUnique rate now m u.1)

-- The entry that a settled one comes from.
before :
    (rate now : ℕ) (m : Participants) (c : ConnId) (p : Participant)
    → get (advance_all rate now m) c ≡ some p
    → (q : Participant) × (get m c ≡ some q) × IsAlike q.state p.state
before rate now m c p h = elim (Option-cases (get m c)) [
  | inl absent ↦ absurd (ground (arith, get-advance_all rate now m c))
  | inr (q, there) ↦
      let same : billed_to rate now q ≡ p = ground (arith, get-advance_all rate now m c) in
      (
        q,
        there,
        subst (λ (x : Participant). IsAlike q.state x.state) same
            (advance_billing-IsAlike q.state rate now),
      )
]

-- What a handled update does: nothing, or everyone settled and the new settings in place.
abbrev IsSettled : Bool → RoomState → RoomConfigUpdateFrame → ℕ → RoomState → Type 0
IsSettled allow_free_calls room update now after = after ≡ record room {
  participants = advance_all room.rate_per_minute_nano now room.participants;
  rate_per_minute_nano = new_rate room allow_free_calls update.rate_per_minute_nano;
  max_screen_shares = new_max room update.max_screen_shares;
}

room_config_section_cases :
    (allow_free_calls : Bool) (room : RoomState) (conn_id : ConnId) (update : RoomConfigUpdateFrame)
    (now : ℕ)
    → let after = (room_config_section allow_free_calls room conn_id update now).0 in
      (after ≡ room) ⊎ IsSettled allow_free_calls room update now after
unfolding room_config_section
room_config_section_cases allow_free_calls room conn_id update now = ground arith

pub room_config_section-IsConsistent :
    {b : Bool} (allow_free_calls : Bool) (room : RoomState) (conn_id : ConnId)
    (update : RoomConfigUpdateFrame) (now : ℕ)
    → IsConsistent b room
    → IsConsistent b (room_config_section allow_free_calls room conn_id update now).0
room_config_section-IsConsistent allow_free_calls room conn_id update now c =
    elim (room_config_section_cases allow_free_calls room conn_id update now) [
      | inl same ↦ subst (IsConsistent _) (sym same) c
      | inr e ↦ subst (IsConsistent _) (sym e) (record {
        unique = advance_all-IsUnique rate now m c.unique;
        apart = λ d p h.
            let (q, there, alike) = before rate now m d p h in
            ground (arith, c.apart d q there, alike.0, alike.1);
        bound = λ h d. c.bound h d ∙ ap (not (is_host room d) &&◌) (sym (due d));
        led = λ h d p there present.
            let (q, old, like) = before rate now m d p there in
            c.led h d q old (rw (sym like.0, sym like.1) present);
        host_here = λ h d e. ground (arith, c.host_here h d e, get-advance_all rate now m d);
        distinct = λ h d d' p q hd hd' pd pd' same.
            let (p', tp, lp) = before rate now m d p hd in
            let (q', tq, lq) = before rate now m d' q hd' in
            c.distinct h d d' p' q' tp tq (rw (sym lp.0, sym lp.1) pd) (rw (sym lq.0, sym lq.1) pd')
              (sym lp.2 ∙ same ∙ lq.2);
      })
    ]
  where
    due :
        (d : ConnId)
        → is_some_and
            (get (advance_all room.rate_per_minute_nano now room.participants) d)
            (holds_co_host_role room)
          ≡ is_some_and (get room.participants d) (holds_co_host_role room)
    due d = elim (Option-cases (get room.participants d)) [
      | inl absent ↦
          ground (arith, get-advance_all room.rate_per_minute_nano now room.participants d)
      | inr (q, there) ↦ ground (
        arith,
        get-advance_all room.rate_per_minute_nano now room.participants d,
        advance_billing-IsAlike q.state room.rate_per_minute_nano now,
      )
    ]

    rate : ℕ
    rate = room.rate_per_minute_nano

    m : Participants
    m = room.participants

-- When a RoomConfigUpdate changes the rate of a room, every participant has been billed up to that
-- moment at the old rate, also one who has not said hello, who stays so; and a hub without free
-- calls never gets a zero rate.
pub room_config_section_settles :
    (allow_free_calls : Bool) (room : RoomState) (conn_id : ConnId) (update : RoomConfigUpdateFrame)
    (now : ℕ) (c : ConnId) (p : Participant)
    → let after = (room_config_section allow_free_calls room conn_id update now).0 in
      after.rate_per_minute_nano ≢ room.rate_per_minute_nano
      → get room.participants c ≡ some p
      → (get after.participants c
          ≡ some (record p { state = advance_billing p.state room.rate_per_minute_nano now }))
        × ((advance_billing p.state room.rate_per_minute_nano now).hello_seen ≡ p.state.hello_seen)
        × (allow_free_calls ≡ false → 1 ≤ after.rate_per_minute_nano)
unfolding advance_billing normalize_rate_for_policy
room_config_section_settles allow_free_calls room conn_id update now c p changed here =
    elim (room_config_section_cases allow_free_calls room conn_id update now) [
      | inl same ↦ absurd (changed (ap (λ r. r.rate_per_minute_nano) same))
      | inr e ↦ (
        rw (ap (λ r. r.participants) e)
            (ground (arith, get-advance_all room.rate_per_minute_nano now room.participants c)),
        ground arith,
        λ paid.
            let differs : new_rate room allow_free_calls update.rate_per_minute_nano
                ≢ room.rate_per_minute_nano =
              λ x. changed (ap (λ r. r.rate_per_minute_nano) e ∙ x) in
            rw (ap (λ r. r.rate_per_minute_nano) e) (ground arith),
      )
    ]
