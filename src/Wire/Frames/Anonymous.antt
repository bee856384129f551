-- ===== src/Wire/Frames/Anonymous.antt =====
-- Frames (crates/kaigi-wire/src/lib.rs): handles, group keys, encrypted control, escrow.
-- Unsigned integers are natural numbers; a width other than 64 bits is noted.
use sora_kaigi.Base.{ℕ, Bool, Option, List}
use sora_kaigi.Base.Text.{Str}

pub record AnonHelloFrame : Type 0 where
  pub protocol_version : ℕ  -- u16
  pub participant_handle : Str
  pub x25519_pubkey_hex : Str

pub record AnonRosterEntry : Type 0 where
  pub participant_handle : Str
  pub x25519_pubkey_hex : Str
  pub joined_at_ms : ℕ

pub record AnonRosterFrame : Type 0 where
  pub at_ms : ℕ
  pub participants : List AnonRosterEntry

pub record GroupKeyUpdateFrame : Type 0 where
  pub sent_at_ms : ℕ
  pub participant_handle : Str
  pub x25519_pubkey_hex : Str
  pub epoch : ℕ

pub data EncryptedControlKind : Type 0 where
  chat : EncryptedControlKind
  participant_state : EncryptedControlKind
  moderation : EncryptedControlKind
  command : EncryptedControlKind
  escrow_heartbeat : EncryptedControlKind

pub record EncryptedRecipientPayload : Type 0 where
  pub recipient_handle : Str
  pub nonce_hex : Str
  pub ciphertext_hex : Str

pub record EncryptedControlFrame : Type 0 where
  pub sent_at_ms : ℕ
  pub sender_handle : Str
  pub epoch : ℕ
  pub kind : EncryptedControlKind
  pub payloads : List EncryptedRecipientPayload

pub record EscrowProofFrame : Type 0 where
  pub sent_at_ms : ℕ
  pub payer_handle : Str
  pub escrow_id : Str
  pub proof_hex : Str

pub record EscrowAckFrame : Type 0 where
  pub received_at_ms : ℕ
  pub escrow_id : Str
  pub accepted : Bool
  pub reason : Option Str

pub data AnonymousPayloadKind : Type 0 where
  control : AnonymousPayloadKind
  video_segment : AnonymousPayloadKind
  audio_packet : AnonymousPayloadKind

pub record AnonGroupKeyRotateFrame : Type 0 where
  pub sent_at_ms : ℕ
  pub epoch : ℕ
  pub key_wrap_hex : Str
  pub member_handles : List Str

pub record AnonEncryptedPayloadFrame : Type 0 where
  pub sent_at_ms : ℕ
  pub sender_handle : Str
  pub epoch : ℕ
  pub kind : AnonymousPayloadKind
  pub nonce_hex : Str
  pub ciphertext_hex : Str
