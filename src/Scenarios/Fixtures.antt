-- ===== src/Scenarios/Fixtures.antt =====
-- Concrete third-party functions, configurations, participants and rooms.
use sora_kaigi.Base.{
  ℕ, suc, zero, Bool, true, false, ◌&&◌, ◌||◌, Option, none, some, List, [], ◌∷◌, all, leb,
}
use sora_kaigi.Base.Text.{Str}
use sora_kaigi.Wire.Frames.{KaigiFrame, HelloFrame}
use sora_kaigi.Wire.Codec.{Bytes, Norito}
use sora_kaigi.Hub.State.{
  Crypto, BillingConfig, HubConfig, ConnId, Participant, ParticipantState, RoomState,
}

-- A codec of pings alone.
abbrev ping_to_bytes : KaigiFrame → Option Bytes
ping_to_bytes (KaigiFrame.ping p) = some (7 ∷ p.nonce ∷ [])
ping_to_bytes _ = none

abbrev ping_from_bytes : Bytes → Option KaigiFrame
ping_from_bytes (suc n ∷ nonce ∷ []) = some (KaigiFrame.ping (record { nonce = nonce }))
ping_from_bytes _ = none

abbrev pub pings : Norito
pings = record { to_bytes = ping_to_bytes; decode_from_bytes = ping_from_bytes }

abbrev pub ping : ℕ → KaigiFrame
ping n = KaigiFrame.ping (record { nonce = n })

abbrev is_hex_digit : ℕ → Bool
is_hex_digit c = (leb 48 c && leb c 57) || (leb 65 c && leb c 70) || (leb 97 c && leb c 102)

abbrev pub repeat : ℕ → ℕ → Str
repeat zero c = []
repeat (suc n) c = c ∷ repeat n c

-- 64 hexadecimal digits.
abbrev pub digest : Str
digest = repeat 64 48

abbrev pub crypto : Crypto
crypto = record { hex_decodes = all is_hex_digit; blake3_hex = λ s. digest }

abbrev pub billing : BillingConfig
billing = record {
  default_rate_per_minute_nano = 60;
  anon_zk_extra_fee_per_minute_nano = 5;
  grace_secs = 30;
  check_interval_secs = 5;
  anon_escrow_proof_max_stale_secs = 180;
}

abbrev pub config : HubConfig
config = record {
  billing = billing;
  anon_max_participants = 2;
  allow_free_calls = false;
  require_payment_tx_hash = false;
}

abbrev pub newcomer : Str → ParticipantState
newcomer id = record {
  participant_id = id;
  display_name = none;
  participant_handle = none;
  x25519_pubkey_hex = none;
  x25519_epoch = 0;
  mic_enabled = false;
  video_enabled = false;
  screen_share_enabled = false;
  anonymous_mode = false;
  waiting_room_pending = false;
  hello_seen = false;
  last_billed_at_ms = 0;
  billed_nano_xor = 0;
  billing_remainder_mod_60k = 0;
  paid_nano_xor = 0;
  last_payment_at_ms = none;
  last_escrow_proof_at_ms = none;
  escrow_id = none;
}

-- `a`, `b`, `c`.
abbrev pub a_id : Str
a_id = 97 ∷ []

abbrev pub b_id : Str
b_id = 98 ∷ []

abbrev pub c_id : Str
c_id = 99 ∷ []

abbrev pub joined : Str → ParticipantState
joined id = record (newcomer id) { hello_seen = true }

abbrev pub at_conn : ConnId → ParticipantState → Participant
at_conn conn_id state = record { tx = conn_id; state = state }

abbrev pub room_of : List (ConnId × Participant) → RoomState
room_of participants = record {
  participants = participants;
  device_caps_by_conn = [];
  host_conn_id = some 1;
  host_role_owner = some a_id;
  co_host_conn_ids = [];
  co_host_role_owners = [];
  e2ee_epochs = [];
  key_rotation_ack_epochs = [];
  signed_action_clock_by_signer = [];
  presence_sequence = 0;
  rate_per_minute_nano = 60;
  max_screen_shares = 1;
  room_lock = false;
  waiting_room_enabled = true;
  guest_join_allowed = true;
  local_recording_allowed = true;
  e2ee_required = false;
  max_participants = 1;
  policy_epoch = 0;
  policy_updated_at_ms = 0;
  policy_updated_by = [];
  policy_signature_hex = [];
  permissions_epoch = 0;
  anonymous_mode = false;
  anon_admission_rejections = 0;
  backpressure_dropped_messages = 0;
  backpressure_last_notice_at_ms = 0;
}

abbrev pub hello_as : Str → HelloFrame
hello_as id = record {
  protocol_version = 6;
  participant_id = id;
  display_name = none;
  mic_enabled = false;
  video_enabled = false;
  screen_share_enabled = false;
  hdr_display = false;
  hdr_capture = false;
}

-- The host `a` and the newcomer at connection 2.
abbrev pub host_and_newcomer : RoomState
host_and_newcomer = room_of ((1, at_conn 1 (joined a_id)) ∷ (2, at_conn 2 (newcomer b_id)) ∷ [])

-- The host `a` and `b`, who waits to be admitted.
abbrev pub host_and_waiting : RoomState
host_and_waiting = room_of (
    (1, at_conn 1 (joined a_id))
    ∷ (2, at_conn 2 (record (newcomer b_id) { waiting_room_pending = true }))
    ∷ [])

-- The host `a` and `b`, both of whom have joined.
abbrev pub host_and_guest : RoomState
host_and_guest = room_of ((1, at_conn 1 (joined a_id)) ∷ (2, at_conn 2 (joined b_id)) ∷ [])
