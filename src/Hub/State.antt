-- ===== src/Hub/State.antt =====
-- The state of the hub (crates/kaigi-hub-echo/src/main.rs): configuration, rooms, participants.
-- Hash maps are association lists and hash sets lists (Base/Maps). The channel of a connection is
-- named by the connection's number, so `tx` is that number.
use sora_kaigi.Base.{ℕ, Bool, true, false, Option, none, List, []}
use sora_kaigi.Base.Text.{Str, lit}
use sora_kaigi.Wire.Frames.{DeviceCapabilityFrame, ParticipantSnapshot}

abbrev pub RoomId : Type 0
RoomId = Str

abbrev pub ConnId : Type 0
ConnId = ℕ

-- Third-party code that the room logic calls: `hex::decode(s).is_ok()`, and the BLAKE3 digest of
-- bytes in hexadecimal.
pub record Crypto : Type 0 where
  pub hex_decodes : Str → Bool
  pub blake3_hex : Str → Str

abbrev pub default_max_participants : ℕ
default_max_participants = 500

unfoldable pub system_policy_updated_by : Str
unfolding lit
system_policy_updated_by = lit "system"

pub record BillingConfig : Type 0 where
  pub default_rate_per_minute_nano : ℕ
  pub anon_zk_extra_fee_per_minute_nano : ℕ
  pub grace_secs : ℕ
  pub check_interval_secs : ℕ
  pub anon_escrow_proof_max_stale_secs : ℕ

-- `HubState` without the rooms.
pub record HubConfig : Type 0 where
  pub billing : BillingConfig
  pub anon_max_participants : ℕ
  pub allow_free_calls : Bool
  pub require_payment_tx_hash : Bool

pub record ParticipantState : Type 0 where
  pub participant_id : Str
  pub display_name : Option Str
  pub participant_handle : Option Str
  pub x25519_pubkey_hex : Option Str
  pub x25519_epoch : ℕ
  pub mic_enabled : Bool
  pub video_enabled : Bool
  pub screen_share_enabled : Bool
  pub anonymous_mode : Bool
  pub waiting_room_pending : Bool
  pub hello_seen : Bool
  pub last_billed_at_ms : ℕ
  pub billed_nano_xor : ℕ
  pub billing_remainder_mod_60k : ℕ  -- u32
  pub paid_nano_xor : ℕ
  pub last_payment_at_ms : Option ℕ
  pub last_escrow_proof_at_ms : Option ℕ
  pub escrow_id : Option Str

pub record Participant : Type 0 where
  pub tx : ConnId
  pub state : ParticipantState

pub record RoomState : Type 0 where
  pub participants : List (ConnId × Participant)
  pub device_caps_by_conn : List (ConnId × DeviceCapabilityFrame)
  pub host_conn_id : Option ConnId
  pub host_role_owner : Option Str
  pub co_host_conn_ids : List ConnId
  pub co_host_role_owners : List Str
  pub e2ee_epochs : List (ConnId × ℕ)
  pub key_rotation_ack_epochs : List (ConnId × ℕ)
  pub signed_action_clock_by_signer : List (Str × ℕ)
  pub presence_sequence : ℕ
  pub rate_per_minute_nano : ℕ
  pub max_screen_shares : ℕ  -- u8
  pub room_lock : Bool
  pub waiting_room_enabled : Bool
  pub guest_join_allowed : Bool
  pub local_recording_allowed : Bool
  pub e2ee_required : Bool
  pub max_participants : ℕ  -- u32
  pub policy_epoch : ℕ
  pub policy_updated_at_ms : ℕ
  pub policy_updated_by : Str
  pub policy_signature_hex : Str
  pub permissions_epoch : ℕ
  pub anonymous_mode : Bool
  pub anon_admission_rejections : ℕ
  pub backpressure_dropped_messages : ℕ
  pub backpressure_last_notice_at_ms : ℕ

-- The room that `handle_conn` makes for the first connection.
unfoldable pub new_room : ℕ → RoomState
new_room default_rate = record {
  participants = [];
  device_caps_by_conn = [];
  host_conn_id = none;
  host_role_owner = none;
  co_host_conn_ids = [];
  co_host_role_owners = [];
  e2ee_epochs = [];
  key_rotation_ack_epochs = [];
  signed_action_clock_by_signer = [];
  presence_sequence = 0;
  rate_per_minute_nano = default_rate;
  max_screen_shares = 1;
  room_lock = false;
  waiting_room_enabled = false;
  guest_join_allowed = true;
  local_recording_allowed = true;
  e2ee_required = true;
  max_participants = default_max_participants;
  policy_epoch = 0;
  policy_updated_at_ms = 0;
  policy_updated_by = system_policy_updated_by;
  policy_signature_hex = [];
  permissions_epoch = 0;
  anonymous_mode = false;
  anon_admission_rejections = 0;
  backpressure_dropped_messages = 0;
  backpressure_last_notice_at_ms = 0;
}

unfoldable pub new_participant_state : Str → ℕ → ParticipantState
new_participant_state fallback_participant_id connected_at_ms = record {
  participant_id = fallback_participant_id;
  display_name = none;
  participant_handle = none;
  x25519_pubkey_hex = none;
  x25519_epoch = 0;
  mic_enabled = false;
  video_enabled = false;
  screen_share_enabled = false;
  anonymous_mode = false;
  waiting_room_pending = false;
  hello_seen = false;
  last_billed_at_ms = connected_at_ms;
  billed_nano_xor = 0;
  billing_remainder_mod_60k = 0;
  paid_nano_xor = 0;
  last_payment_at_ms = none;
  last_escrow_proof_at_ms = none;
  escrow_id = none;
}

unfoldable pub participant_snapshot_from_state : ParticipantState → ℕ → ParticipantSnapshot
participant_snapshot_from_state state at_ms = record {
  at_ms = at_ms;
  participant_id = state.participant_id;
  display_name = state.display_name;
  mic_enabled = state.mic_enabled;
  video_enabled = state.video_enabled;
  screen_share_enabled = state.screen_share_enabled;
}

-- What a handler does after its locked section: nothing, an error to the sender, or a broadcast of
-- the frame.
pub data FrameOutcome : Type 0 where
  ignored : FrameOutcome
  refused : Str → FrameOutcome
  broadcast : FrameOutcome
