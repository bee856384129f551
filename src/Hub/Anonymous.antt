-- ===== src/Hub/Anonymous.antt =====
-- Anonymous rooms (crates/kaigi-hub-echo/src/main.rs): the locked section of the `AnonHello`
-- handler and what it calls.
pub mod Entrance
use sora_kaigi.Base.{
  ℕ, max, Bool, true, false, not, ◌&&◌, ◌||◌, Option, none, some, List, [], ◌∷◌, ◌++◌, get, any,
  is_some_of, first_some, opt_or, contains, count_values, ltb, leb, nat_beq, str_beq, nat_eq,
  str_eq, sat_add_u64, str_leb, sort_by, join, if◌then◌else◌,
}
use sora_kaigi.Base.Text.{Str, lit, show_nat}
use sora_kaigi.Base.Results.{Res, ok, err}
use sora_kaigi.Wire.Codec.{max_anon_participant_handle_len}
use sora_kaigi.Wire.Frames.{
  AnonHelloFrame, AnonRosterEntry, AnonRosterFrame, GroupKeyUpdateFrame, AnonGroupKeyRotateFrame,
  EncryptedControlFrame, EncryptedRecipientPayload, EscrowProofFrame,
}
use sora_kaigi.Hub.State.{
  Crypto, HubConfig, BillingConfig, ConnId, Participant, ParticipantState, RoomState,
}
use sora_kaigi.Hub.Hex.{deterministic_signature_hex}
use sora_kaigi.Hub.Handles.{
  reason_if, handle_error, validate_group_key_update_frame, validate_encrypted_control_frame,
  validate_encrypted_control_epoch, validate_escrow_proof_frame, validate_escrow_id_consistency,
}
use sora_kaigi.Hub.Roles.{is_some_and}
use sora_kaigi.Hub.Billing.{apply_anonymous_zk_surcharge}
use sora_kaigi.Hub.Admission.{with_participant}

-- A participant of the anonymous room who has said hello.
abbrev pub is_anonymous_member : Participant → Bool
is_anonymous_member p = p.state.anonymous_mode && p.state.hello_seen

unfoldable pub apply_anon_hello_state : ParticipantState → AnonHelloFrame → ℕ → Res ParticipantState
apply_anon_hello_state state hello now =
    if state.hello_seen
      && state.anonymous_mode
      && is_some_and state.x25519_pubkey_hex
          (λ current. not (str_beq current hello.x25519_pubkey_hex))
    then err (lit "x25519 key changes require GroupKeyUpdate")
    else ok (record state {
      anonymous_mode = true;
      waiting_room_pending = false;
      hello_seen = true;
      participant_handle = some hello.participant_handle;
      x25519_pubkey_hex = some hello.x25519_pubkey_hex;
      x25519_epoch = if nat_beq state.x25519_epoch 0 then 1 else state.x25519_epoch;
      last_billed_at_ms =
          if not state.hello_seen || not state.anonymous_mode then now else state.last_billed_at_ms;
    })

unfoldable pub record_anon_admission_rejection : RoomState → RoomState
record_anon_admission_rejection room = record room {
  anon_admission_rejections = sat_add_u64 room.anon_admission_rejections 1;
}

unfoldable pub validate_anonymous_room_capacity : RoomState → ConnId → ℕ → Option Str
validate_anonymous_room_capacity room conn_id max_anon_participants =
    if is_some_and (get room.participants conn_id) is_anonymous_member
    then none
    else reason_if (leb max_anon_participants (count_values is_anonymous_member room.participants))
        (lit "anonymous room participant cap reached: max " ++ show_nat max_anon_participants)

unfoldable pub validate_anon_participant_handle : RoomState → ConnId → Str → Option Str
validate_anon_participant_handle room conn_id requested_handle =
    first_some
      (handle_error (lit "participant_handle") max_anon_participant_handle_len requested_handle)
      (first_some
        (reason_if
          (any
            (λ e.
              not (nat_beq e.0 conn_id)
              && e.1.state.anonymous_mode
              && is_some_of e.1.state.participant_handle requested_handle)
            room.participants)
          (lit "participant_handle already in use"))
        (reason_if
          (is_some_and (get room.participants conn_id) (λ p.
            is_some_and p.state.participant_handle
              (λ existing. not (str_beq existing requested_handle))))
          (lit "participant_handle cannot change after AnonHello")))

abbrev entry_of : ParticipantState → Option AnonRosterEntry
entry_of state = elim state.participant_handle [
  | none ↦ none
  | some handle ↦ elim state.x25519_pubkey_hex [
    | none ↦ none
    | some pubkey ↦ some (record {
      participant_handle = handle;
      x25519_pubkey_hex = pubkey;
      joined_at_ms = state.last_billed_at_ms;
    })
  ]
]

abbrev opt_cons {ℓ} : {A : Type ℓ} → Option A → List A → List A
opt_cons none xs = xs
opt_cons (some x) xs = x ∷ xs

-- `values().filter_map(..)`.
abbrev filter_map_values {ℓ} :
    {A : Type ℓ} → (Participant → Option A) → List (ConnId × Participant) → List A
filter_map_values f [] = []
filter_map_values f ((k, p) ∷ m) = opt_cons (f p) (filter_map_values f m)

unfoldable pub anon_roster_frame_locked : RoomState → ℕ → AnonRosterFrame
anon_roster_frame_locked room at_ms = record {
  at_ms = at_ms;
  participants =
      sort_by (λ a b. str_leb a.participant_handle b.participant_handle)
        (filter_map_values (λ p. entry_of p.state) room.participants);
}

-- The handles of the members.
abbrev pub member_handles_of : List (ConnId × Participant) → List Str
member_handles_of m =
    filter_map_values (λ p. if is_anonymous_member p then p.state.participant_handle else none) m

unfoldable pub build_anon_group_key_rotate_frame :
    Crypto → RoomState → ℕ → RoomState × AnonGroupKeyRotateFrame
build_anon_group_key_rotate_frame crypto room at_ms =
    let permissions_epoch = sat_add_u64 room.permissions_epoch 1 in
    let epoch = max permissions_epoch 1 in
    let members = sort_by str_leb (member_handles_of room.participants) in
    let entropy = join (lit "|") members in
    (
      record room { permissions_epoch = permissions_epoch },
      record {
        sent_at_ms = at_ms;
        epoch = epoch;
        key_wrap_hex =
            deterministic_signature_hex crypto (lit "anon_group_key_rotate")
              (show_nat at_ms ++ (lit "|" ++ (show_nat epoch ++ (lit "|" ++ entropy))));
        member_handles = members;
      },
    )

pub data AnonHelloOutcome : Type 0 where
  ignored : AnonHelloOutcome
  refused : Str → AnonHelloOutcome
  over_capacity : Str → ℕ → AnonHelloOutcome
  entered :
      AnonRosterFrame
      → GroupKeyUpdateFrame
      → AnonGroupKeyRotateFrame
      → Option (ℕ × ℕ)
      → AnonHelloOutcome

-- The room in anonymous mode, at the rate with the surcharge if this hello sets the mode.
abbrev pub opened : Option ℕ → RoomState → RoomState
opened none room = room
opened (some rate) room = record room { rate_per_minute_nano = rate; anonymous_mode = true }

abbrev pub surcharge_of : ℕ → Option ℕ → Option (ℕ × ℕ)
surcharge_of base none = none
surcharge_of base (some rate) = if nat_beq base rate then none else some (base, rate)

-- The end of both branches that let the sender in.
unfoldable pub anon_enter :
    Crypto → RoomState → ConnId → AnonHelloFrame → Option ℕ → ℕ → ℕ → RoomState × AnonHelloOutcome
anon_enter crypto room conn_id hello rate now roster_at_ms = elim (get room.participants conn_id) [
  | none ↦ (room, ignored)
  | some p ↦ elim (apply_anon_hello_state p.state hello now) [
    | err e ↦ (room, refused e)
    | ok state ↦
        let here = with_participant (opened rate room) conn_id (record p { state = state }) in
        let (rotated, rotate) = build_anon_group_key_rotate_frame crypto here now in
        let update : GroupKeyUpdateFrame = record {
          sent_at_ms = now;
          participant_handle = hello.participant_handle;
          x25519_pubkey_hex = hello.x25519_pubkey_hex;
          epoch = state.x25519_epoch;
        } in
        (
          rotated,
          entered (anon_roster_frame_locked here roster_at_ms) update rotate
              (surcharge_of room.rate_per_minute_nano rate),
        )
  ]
]

-- Someone has joined the room under an id.
abbrev pub transparent_hello_seen : RoomState → Bool
transparent_hello_seen room =
    any (λ e. e.1.state.hello_seen && not e.1.state.anonymous_mode) room.participants

module _ (config : HubConfig) (crypto : Crypto) where
  -- The locked section of the `AnonHello` handler.
  unfoldable pub anon_hello_section :
      RoomState → ConnId → AnonHelloFrame → ℕ → ℕ → RoomState × AnonHelloOutcome
  anon_hello_section room conn_id hello now roster_at_ms =
      let enter : Option ℕ → RoomState × AnonHelloOutcome =
        λ rate. anon_enter crypto room conn_id hello rate now roster_at_ms in
      let rejected = record_anon_admission_rejection room in
      elim (validate_anon_participant_handle room conn_id hello.participant_handle) [
        | some name_error ↦ (room, refused name_error)
        | none ↦ elim (validate_anonymous_room_capacity room conn_id config.anon_max_participants) [
          | some cap_error ↦ (rejected, over_capacity cap_error rejected.anon_admission_rejections)
          | none ↦
              if room.anonymous_mode
              then enter none
              else if transparent_hello_seen room
              then (room, refused (lit "room is already in transparent mode"))
              else elim (apply_anonymous_zk_surcharge room.rate_per_minute_nano
                  config.billing.anon_zk_extra_fee_per_minute_nano) [
                    | err e ↦ (room, refused e)
                    | ok rate ↦ enter (some rate)
                  ]
        ]
      ]
