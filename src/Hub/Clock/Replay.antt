-- ===== src/Hub/Clock/Replay.antt =====
-- Repeated actions, and the clocks of different actions and signers
-- (`enforce_signed_action_clock`, crates/kaigi-hub-echo/src/main.rs).
use sora_kaigi.Base.{
  ℕ, ◌≤◌, ◌<◌, ◌≡◌, ◌≢◌, true, false, List, [], ◌∷◌, get, insert, get-insert, all, not, nat_beq,
  str_beq_iff, str_eq, arith, ltb, inl, inr,
}
use sora_kaigi.Base.Text.{Str, lit}
use sora_kaigi.Base.Results.{Res, ok, is_ok, ok_or_keep, Res-cases}
use sora_kaigi.Hub.State.{RoomState}
use sora_kaigi.Hub.Clock.{signed_action_clock_key, enforce_signed_action_clock, last_or_zero}

-- The last timestamp accepted from a signer for an action, 0 before the first.
abbrev pub last_accepted : RoomState → Str → Str → ℕ
last_accepted room tag signer =
    last_or_zero (get room.signed_action_clock_by_signer (signed_action_clock_key tag signer))

-- No action tag of the program has a colon.
abbrev pub IsColonFree : Str → Type 0
IsColonFree tag = all (λ c. not (nat_beq c 58)) tag ≡ true

key_injective :
    (tag tag' signer signer' : Str)
    → IsColonFree tag
    → IsColonFree tag'
    → signed_action_clock_key tag signer ≡ signed_action_clock_key tag' signer'
    → (tag ≡ tag') × (signer ≡ signer')
unfolding signed_action_clock_key lit
key_injective [] [] signer signer' f f' e = ground arith
key_injective [] (c ∷ tag') signer signer' f f' e = ground arith
key_injective (c ∷ tag) [] signer signer' f f' e = ground arith
key_injective (c ∷ tag) (c' ∷ tag') signer signer' f f' e =
    ground (arith, key_injective tag tag' signer signer')

module _ (room : RoomState) (tag signer label : Str) (at : ℕ) where
  -- An action is accepted exactly when its timestamp is above the last one accepted from this
  -- signer for this action (0 before the first).
  pub accepted_iff :
      is_ok (enforce_signed_action_clock room tag signer label at)
      ≡ ltb (last_accepted room tag signer) at
  unfolding enforce_signed_action_clock
  accepted_iff = ground arith

  accepted_room :
      (room' : RoomState)
      → enforce_signed_action_clock room tag signer label at ≡ ok room'
      → room'.signed_action_clock_by_signer
        ≡ insert room.signed_action_clock_by_signer (signed_action_clock_key tag signer) at
  unfolding enforce_signed_action_clock
  accepted_room room' h = ground arith

-- Nothing but the clocks changes.
pub accepted_keeps :
    (room : RoomState) (tag signer label : Str) (at : ℕ) (room' : RoomState)
    → enforce_signed_action_clock room tag signer label at ≡ ok room'
    → room' ≡ record room { signed_action_clock_by_signer = room'.signed_action_clock_by_signer }
unfolding enforce_signed_action_clock
accepted_keeps room tag signer label at room' h = ground arith

module _ (room : RoomState) (tag signer label : Str) (at : ℕ) (room' : RoomState) where
  pub accepted_last :
      enforce_signed_action_clock room tag signer label at ≡ ok room'
      → last_accepted room' tag signer ≡ at
  accepted_last h =
      let key = signed_action_clock_key tag signer in
      ground (
        arith,
        accepted_room room tag signer label at room' h,
        get-insert room.signed_action_clock_by_signer key at key,
        str_beq_iff key key,
      )

  accepted_above :
      enforce_signed_action_clock room tag signer label at ≡ ok room'
      → last_accepted room tag signer < at
  accepted_above h = ground (arith, accepted_iff room tag signer label at)

  -- An accepted action lowers no clock.
  accepted_mono :
      (t s : Str)
      → enforce_signed_action_clock room tag signer label at ≡ ok room'
      → last_accepted room t s ≤ last_accepted room' t s
  accepted_mono t s h =
      let key = signed_action_clock_key tag signer in
      let other = signed_action_clock_key t s in
      ground (
        arith,
        accepted_above h,
        accepted_room room tag signer label at room' h,
        get-insert room.signed_action_clock_by_signer key at other,
        str_beq_iff key other,
      )

  -- The clocks of other actions and of other signers stay as they were.
  pub accepted_independent :
      (t s : Str)
      → IsColonFree tag
      → IsColonFree t
      → ¬ ((tag ≡ t) × (signer ≡ s))
      → enforce_signed_action_clock room tag signer label at ≡ ok room'
      → last_accepted room' t s ≡ last_accepted room t s
  accepted_independent t s f f' apart h =
      let key = signed_action_clock_key tag signer in
      let other = signed_action_clock_key t s in
      let differ : key ≢ other = λ e. apart (key_injective tag t signer s f f' e) in
      ground (
        arith,
        accepted_room room tag signer label at room' h,
        get-insert room.signed_action_clock_by_signer key at other,
        str_beq_iff key other,
      )

pub record SignedAction : Type 0 where
  pub action_tag : Str
  pub signer_id : Str
  pub timestamp_label : Str
  pub timestamp_ms : ℕ

-- A room after one more signed action, accepted or refused.
unfoldable pub after_action : RoomState → SignedAction → RoomState
after_action room a =
    ok_or_keep room
      (enforce_signed_action_clock room a.action_tag a.signer_id a.timestamp_label a.timestamp_ms)

unfoldable pub after_actions : RoomState → List SignedAction → RoomState
unfolding after_action
after_actions room [] = room
after_actions room (a ∷ rest) = after_actions (after_action room a) rest

after_action_mono :
    (room : RoomState) (a : SignedAction) (t s : Str)
    → last_accepted room t s ≤ last_accepted (after_action room a) t s
unfolding after_action
after_action_mono room a t s = elim (Res-cases result) [
  | inl (room', e) ↦
      rw (after_action, e)
        (accepted_mono room a.action_tag a.signer_id a.timestamp_label a.timestamp_ms room' t s e)
  | inr (x, e) ↦ rw (after_action, e) (omega arith)
]
  where
    result : Res RoomState
    result =
        enforce_signed_action_clock room a.action_tag a.signer_id a.timestamp_label a.timestamp_ms

after_actions_mono :
    (rest : List SignedAction) (room : RoomState) (t s : Str)
    → last_accepted room t s ≤ last_accepted (after_actions room rest) t s
unfolding after_actions
after_actions_mono [] room t s = omega arith
after_actions_mono (a ∷ rest) room t s =
    omega (arith, after_action_mono room a t s, after_actions_mono rest (after_action room a) t s)

-- Once an action is accepted, no action of this kind and signer with the same or an earlier
-- timestamp is accepted again, whatever signed actions come in between.
pub never_replayed :
    (room : RoomState) (tag signer label : Str) (at : ℕ) (room' : RoomState)
    (between : List SignedAction) (label' : Str) (at' : ℕ)
    → enforce_signed_action_clock room tag signer label at ≡ ok room'
    → at' ≤ at
    → is_ok (enforce_signed_action_clock (after_actions room' between) tag signer label' at')
      ≡ false
never_replayed room tag signer label at room' between label' at' h le = ground (
  arith,
  accepted_last room tag signer label at room' h,
  after_actions_mono between room' tag signer,
  accepted_iff (after_actions room' between) tag signer label' at',
)
