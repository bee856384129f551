-- ===== src/Hub/GroupKeys/Delivery.antt =====
-- Which encrypted control frames are passed on (crates/kaigi-hub-echo/src/main.rs).
use sora_kaigi.Base.{
  ◌≤◌, ◌≡◌, refl, Bool, true, false, not, ◌&&◌, ◌||◌, none, some, List, [], ◌∷◌, get, any, all,
  length, contains, is_some_of_iff, nat_beq_iff, nat_eq, str_beq, str_eq, inl, inr, Option-cases,
  arith,
}
use sora_kaigi.Base.Text.{Str}
use sora_kaigi.Wire.Frames.{EncryptedControlFrame, EncryptedRecipientPayload}
use sora_kaigi.Hub.State.{FrameOutcome, Crypto, ConnId, Participant, RoomState}
use sora_kaigi.Hub.Handles.{
  payload_error, payloads_error, validate_encrypted_control_frame, validate_encrypted_control_epoch,
  max_encrypted_recipients_per_frame,
}
use sora_kaigi.Hub.Anonymous.{is_anonymous_member}
use sora_kaigi.Hub.GroupKeys.{
  roster_has, validate_encrypted_control_room_recipients, encrypted_control_section,
}

-- No recipient is named twice.
abbrev pub has_distinct_recipients : List EncryptedRecipientPayload → Bool
has_distinct_recipients [] = true
has_distinct_recipients (p ∷ ps) =
    not (any (λ q. str_beq p.recipient_handle q.recipient_handle) ps) && has_distinct_recipients ps

any_or {ℓ} :
    {A : Type ℓ} (f g : A → Bool) (xs : List A) → any (λ x. f x || g x) xs ≡ (any f xs || any g xs)
any_or f g [] = refl
any_or f g (x ∷ xs) = ground (arith, any_or f g xs)

module _ (crypto : Crypto) where
  payload_unseen :
      (seen : List Str) (p : EncryptedRecipientPayload)
      → payload_error crypto seen p ≡ none
      → contains seen p.recipient_handle ≡ false
  unfolding payload_error
  payload_unseen seen p h = ground arith

  payloads_unseen :
      (seen : List Str) (ps : List EncryptedRecipientPayload)
      → payloads_error crypto seen ps ≡ none
      → (any (λ p. contains seen p.recipient_handle) ps ≡ false)
        × (has_distinct_recipients ps ≡ true)
  unfolding payloads_error contains
  payloads_unseen seen [] h = ground arith
  payloads_unseen seen (p ∷ ps) h = ground (
    arith,
    payload_unseen seen p,
    payloads_unseen (p.recipient_handle ∷ seen) ps,
    any_or (λ q. str_beq p.recipient_handle q.recipient_handle)
        (λ q. contains seen q.recipient_handle) ps,
  )

  accepted_recipients :
      (enc : EncryptedControlFrame)
      → validate_encrypted_control_frame crypto enc ≡ none
      → (has_distinct_recipients enc.payloads ≡ true)
        × (length enc.payloads ≤ max_encrypted_recipients_per_frame)
  unfolding validate_encrypted_control_frame
  accepted_recipients enc h = ground (arith, payloads_unseen [] enc.payloads)

recipients_in_roster :
    (ps : List EncryptedRecipientPayload) (room : RoomState)
    → validate_encrypted_control_room_recipients ps room ≡ none
    → all (λ p. roster_has room p.recipient_handle) ps ≡ true
unfolding validate_encrypted_control_room_recipients
recipients_in_roster [] room h = ground arith
recipients_in_roster (p ∷ ps) room h = ground (arith, recipients_in_roster ps room)

-- What a frame that is passed on is known to be: its sender is a member of the room under the
-- handle and at the key epoch that the frame names, and its recipients, at most 256, are all
-- members and all different.
abbrev pub IsDeliverable : RoomState → ConnId → EncryptedControlFrame → Type 0
IsDeliverable room conn_id enc =
    ((p : Participant) × (get room.participants conn_id ≡ some p)
      × (is_anonymous_member p ≡ true)
      × (p.state.participant_handle ≡ some enc.sender_handle)
      × (p.state.x25519_epoch ≡ enc.epoch))
    × (1 ≤ enc.epoch)
    × (all (λ x. roster_has room x.recipient_handle) enc.payloads ≡ true)
    × (has_distinct_recipients enc.payloads ≡ true)
    × (length enc.payloads ≤ max_encrypted_recipients_per_frame)

-- An encrypted control frame that the hub passes on is deliverable.
pub encrypted_control_section-IsDeliverable :
    (crypto : Crypto) (room : RoomState) (conn_id : ConnId) (enc : EncryptedControlFrame)
    → encrypted_control_section crypto room conn_id enc ≡ FrameOutcome.broadcast
    → IsDeliverable room conn_id enc
unfolding encrypted_control_section validate_encrypted_control_epoch
encrypted_control_section-IsDeliverable crypto room conn_id enc h =
    elim (Option-cases (get room.participants conn_id)) [
      | inl absent ↦ absurd (ground arith)
      | inr (p, here) ↦ (
        (
          p,
          here,
          ground arith,
          ground (arith, is_some_of_iff p.state.participant_handle enc.sender_handle),
          ground (arith, nat_beq_iff enc.epoch p.state.x25519_epoch),
        ),
        ground (arith, nat_beq_iff enc.epoch p.state.x25519_epoch),
        ground (arith, recipients_in_roster enc.payloads room),
        ground (arith, accepted_recipients crypto enc),
        ground (arith, accepted_recipients crypto enc),
      )
    ]
