-- ===== src/Hub/Billing/Exact.antt =====
-- The amount of a bill (crates/kaigi-hub-echo/src/main.rs: `advance_billing`).
use sora_kaigi.Base.{ℕ, ◌+◌, ◌-◌, ◌*◌, ◌/◌, ◌%◌, ◌≤◌, ◌<◌, ◌≡◌, ◌∙◌, cap_at, u64_max, arith}
use sora_kaigi.Hub.State.{ParticipantState}
use sora_kaigi.Hub.Billing.{advance_billing}

-- The counters of a participant fit their types: u64, and a remainder below 60000.
pub record IsMetered (s : ParticipantState) : Type 0 where
  pub remainder : s.billing_remainder_mod_60k < 60000
  pub billed : s.billed_nano_xor ≤ u64_max

pub product_bound : (a b : ℕ) → a ≤ u64_max → b ≤ u64_max → a * b ≤ u64_max * u64_max
product_bound a b h k = grind arith

-- What is due for a time, in 1/60000 of a nano-XOR.
abbrev pub due : ParticipantState → ℕ → ℕ → ℕ
due s rate now = rate * (now - s.last_billed_at_ms) + s.billing_remainder_mod_60k

module _ (s : ParticipantState) (rate now : ℕ) (m : IsMetered s) (r : rate ≤ u64_max)
    (n : now ≤ u64_max) where
  -- The 128-bit arithmetic never saturates, and the bill and its remainder are those of the exact
  -- amount; the bill alone stops at the largest u64.
  pub advance_billing_lem : advance_billing s rate now ≡ record s {
    last_billed_at_ms = now;
    billing_remainder_mod_60k = due s rate now % 60000;
    billed_nano_xor = cap_at u64_max (s.billed_nano_xor + due s rate now / 60000);
  }
  unfolding advance_billing
  advance_billing_lem = ground (arith, product_bound rate (now - s.last_billed_at_ms), m)

  -- Billing keeps the counters within their types.
  pub advance_billing-IsMetered : IsMetered (advance_billing s rate now)
  advance_billing-IsMetered =
      rw advance_billing_lem (record { remainder = omega arith; billed = ground arith })

  -- As long as the bill fits u64, no fraction is lost: bill and remainder together grow by the
  -- rate times the milliseconds that passed, in 1/60000 of a nano-XOR.
  pub advance_billing_exact :
      s.billed_nano_xor + due s rate now / 60000 ≤ u64_max
      → let t = advance_billing s rate now in
        (t.billed_nano_xor * 60000 + t.billing_remainder_mod_60k
          ≡ s.billed_nano_xor * 60000
            + s.billing_remainder_mod_60k
            + rate * (now - s.last_billed_at_ms))
        × (t.billing_remainder_mod_60k < 60000)
  advance_billing_exact fits = rw advance_billing_lem (ground arith, omega arith)

split_due :
    (rate last mid now : ℕ)
    → last ≤ mid
    → mid ≤ now
    → rate * (now - last) ≡ rate * (mid - last) + rate * (now - mid)
split_due rate last mid now h k =
    let e : now - last ≡ (mid - last) + (now - mid) = omega arith in rw e (grind arith)

module _ (s : ParticipantState) (rate mid now : ℕ) (m : IsMetered s) (r : rate ≤ u64_max)
    (n : now ≤ u64_max) where
  -- How often the bill is brought up to date makes no difference: two steps give the state of one.
  pub advance_billing-advance_billing :
      s.last_billed_at_ms ≤ mid
      → mid ≤ now
      → advance_billing (advance_billing s rate mid) rate now ≡ advance_billing s rate now
  advance_billing-advance_billing before after =
      let half = advance_billing_lem s rate mid m r (omega arith) in
      let metered = advance_billing-IsMetered s rate mid m r (omega arith) in
      advance_billing_lem (advance_billing s rate mid) rate now metered r n
      ∙ rw (half, advance_billing_lem s rate now m r n)
          (ground (arith, split_due rate s.last_billed_at_ms mid now before after))
