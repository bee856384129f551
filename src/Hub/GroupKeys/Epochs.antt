-- ===== src/Hub/GroupKeys/Epochs.antt =====
-- Group keys over time (crates/kaigi-hub-echo/src/main.rs): what the accepted frames of a member
-- do to its key and the key's epoch.
use sora_kaigi.Base.{ℕ, ◌≤◌, ◌≡◌, ◌∙◌, refl, true, some, nat_beq_iff, str_beq_iff, str_eq, arith}
use sora_kaigi.Base.Text.{Str}
use sora_kaigi.Base.Results.{ok}
use sora_kaigi.Wire.Frames.{AnonHelloFrame, GroupKeyUpdateFrame, EscrowProofFrame}
use sora_kaigi.Hub.State.{ParticipantState}
use sora_kaigi.Hub.Anonymous.{apply_anon_hello_state}
use sora_kaigi.Hub.GroupKeys.{group_key_update, should_apply_group_key_update, proven}

-- A member holds a key at an epoch.
abbrev pub HasKey : ParticipantState → Str → ℕ → Type 0
HasKey state key epoch =
    (state.hello_seen ≡ true)
    × (state.anonymous_mode ≡ true)
    × (state.x25519_pubkey_hex ≡ some key)
    × (state.x25519_epoch ≡ epoch)
    × (1 ≤ epoch)

-- The frames of a member that are accepted.
pub data KeyStep : ParticipantState → ParticipantState → Type 0 where
  hello :
      (s t : ParticipantState) (frame : AnonHelloFrame) (now : ℕ)
      → apply_anon_hello_state s frame now ≡ ok t
      → KeyStep s t
  update :
      (s t : ParticipantState) (frame : GroupKeyUpdateFrame)
      → group_key_update s frame ≡ ok (some t)
      → KeyStep s t
  escrow :
      (s : ParticipantState) (proof : EscrowProofFrame) (now : ℕ) → KeyStep s (proven s proof now)

pub data KeySteps : ParticipantState → ParticipantState → Type 0 where
  stay : (s : ParticipantState) → KeySteps s s
  step : (s t u : ParticipantState) → KeyStep s t → KeySteps t u → KeySteps s u

-- A later key: its epoch is not lower, and it is the same key unless the epoch has grown.
abbrev pub Later : Str → ℕ → ParticipantState → Type 0
Later key epoch t =
    (key' : Str) × (epoch' : ℕ) × HasKey t key' epoch'
    × (epoch ≤ epoch')
    × (epoch' ≡ epoch → key' ≡ key)

step-Later :
    (s t : ParticipantState) (key : Str) (epoch : ℕ)
    → HasKey s key epoch
    → KeyStep s t
    → Later key epoch t
unfolding apply_anon_hello_state group_key_update should_apply_group_key_update
step-Later s t key epoch h (KeyStep.hello _ _ frame now e) =
    (key, epoch, ground (arith, str_beq_iff key frame.x25519_pubkey_hex), omega arith, λ _. refl)
step-Later s t key epoch h (KeyStep.update _ _ frame e) = (
  frame.x25519_pubkey_hex,
  frame.epoch,
  ground (arith, nat_beq_iff frame.epoch epoch),
  ground (arith, nat_beq_iff frame.epoch epoch),
  ground (arith, nat_beq_iff frame.epoch epoch),
)
step-Later s t key epoch h (KeyStep.escrow _ proof now) = (key, epoch, h, omega arith, λ _. refl)

-- Over any frames of a member that the hub accepts, the epoch of its key never falls, and the
-- key changes only to a higher epoch: no epoch ever stands for two keys.
pub key_of_epoch :
    (s t : ParticipantState) (key : Str) (epoch : ℕ)
    → HasKey s key epoch
    → KeySteps s t
    → Later key epoch t
key_of_epoch s t key epoch h (KeySteps.stay _) = (key, epoch, h, omega arith, λ _. refl)
key_of_epoch s t key epoch h (KeySteps.step _ u _ one more) =
    let (k, e, hk, le, same) = step-Later s u key epoch h one in
    let (k', e', hk', le', same') = key_of_epoch u t k e hk more in
    (k', e', hk', omega arith, λ f. same' (omega arith) ∙ same (omega arith))
