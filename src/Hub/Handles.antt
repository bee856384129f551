-- ===== src/Hub/Handles.antt =====
-- Checks on the names and keys of frames (crates/kaigi-hub-echo/src/main.rs): handles, escrow ids,
-- group keys, encrypted control, escrow proofs.
use sora_kaigi.Base.{
  ℕ, Bool, true, false, not, ◌||◌, Option, none, some, List, [], ◌∷◌, ◌++◌, length, any, is_empty,
  first_some, contains, ltb, nat_beq, str_beq, str_eq,
}
use sora_kaigi.Base.Text.{Str, lit, chars, is_whitespace, is_control, is_blank, is_ascii, show_nat}
use sora_kaigi.Wire.Codec.{
  max_anon_participant_handle_len, max_escrow_id_len, max_escrow_proof_hex_len,
}
use sora_kaigi.Wire.Frames.{
  GroupKeyUpdateFrame, EncryptedControlFrame, EncryptedRecipientPayload, EscrowProofFrame,
}
use sora_kaigi.Hub.State.{Crypto}
use sora_kaigi.Hub.Hex.{strip_hex_prefix, is_valid_hex, is_valid_hex_len}

abbrev pub max_encrypted_ciphertext_hex_len : ℕ
max_encrypted_ciphertext_hex_len = 65536

abbrev pub min_encrypted_ciphertext_hex_len : ℕ
min_encrypted_ciphertext_hex_len = 32

abbrev pub max_encrypted_recipients_per_frame : ℕ
max_encrypted_recipients_per_frame = 256

-- One check of a validator: `if test { return Some(reason) }`.
abbrev pub reason_if : Bool → Str → Option Str
reason_if true reason = some reason
reason_if false reason = none

unfoldable pub has_disallowed_anon_handle_chars : Str → Bool
unfolding chars
has_disallowed_anon_handle_chars value = any (λ ch. is_whitespace ch || is_control ch) (chars value)

unfoldable pub has_forbidden_anon_handle_symbol : Str → Bool
has_forbidden_anon_handle_symbol value = any (λ b. nat_beq b 64) value

abbrev too_long : Str → ℕ → Str → Str
too_long field max unit = field ++ (lit " too long: max " ++ (show_nat max ++ unit))

-- The run of checks that every handle and escrow id goes through, `field` being what the
-- messages call it.
unfoldable pub handle_error : Str → ℕ → Str → Option Str
unfolding has_disallowed_anon_handle_chars has_forbidden_anon_handle_symbol
handle_error field max value =
    first_some (reason_if (is_blank value) (field ++ lit " must be non-empty")) (
      first_some (reason_if (not (is_ascii value)) (field ++ lit " must be ASCII")) (
        first_some
          (reason_if (has_forbidden_anon_handle_symbol value)
            (field ++ lit " must not contain '@'"))
          (first_some
            (reason_if (has_disallowed_anon_handle_chars value)
              (field ++ lit " must not contain whitespace/control chars"))
            (reason_if (ltb max (length value)) (too_long field max (lit " chars"))))))

unfoldable pub validate_escrow_id_consistency : Option Str → Str → Option Str
validate_escrow_id_consistency none incoming = none
validate_escrow_id_consistency (some expected) incoming =
    reason_if (not (str_beq expected incoming))
      (lit "escrow_id must remain stable for a participant session")

unfoldable pub validate_encrypted_control_epoch : ℕ → ℕ → Option Str
validate_encrypted_control_epoch frame_epoch sender_epoch =
    first_some (reason_if (nat_beq sender_epoch 0) (lit "sender key epoch is not initialized")) (
      reason_if (not (nat_beq frame_epoch sender_epoch)) (
        lit "encrypted control epoch mismatch: expected "
        ++ (show_nat sender_epoch ++ (lit " got " ++ show_nat frame_epoch))))

module _ (crypto : Crypto) where
  unfoldable pub validate_group_key_update_frame : GroupKeyUpdateFrame → Option Str
  validate_group_key_update_frame update =
      first_some
        (handle_error (lit "group key participant_handle") max_anon_participant_handle_len
          update.participant_handle)
        (first_some
          (reason_if (not (is_valid_hex_len crypto update.x25519_pubkey_hex 32))
            (lit "x25519_pubkey_hex must be 32-byte hex"))
          (reason_if (nat_beq update.epoch 0) (lit "group key epoch must be >= 1")))

  -- One turn of the loop over the payloads: `recipients` are those already seen.
  unfoldable pub payload_error : List Str → EncryptedRecipientPayload → Option Str
  unfolding strip_hex_prefix
  payload_error recipients payload =
      let normalized_ciphertext = strip_hex_prefix payload.ciphertext_hex in
      let to = payload.recipient_handle in
      let field = lit "encrypted recipient handle" in
      first_some
        (reason_if
          (is_blank to
            || not (is_valid_hex_len crypto payload.nonce_hex 24)
            || is_empty payload.ciphertext_hex)
          (lit "encrypted payloads must include recipient, 24-byte nonce, and ciphertext"))
        (first_some
          (reason_if (ltb max_anon_participant_handle_len (length to))
            (too_long field max_anon_participant_handle_len (lit " chars")))
          (first_some (reason_if (not (is_ascii to)) (field ++ lit " must be ASCII")) (
            first_some
              (reason_if (has_forbidden_anon_handle_symbol to)
                (field ++ lit " must not contain '@'"))
              (first_some
                (reason_if (has_disallowed_anon_handle_chars to)
                  (field ++ lit " must not contain whitespace/control chars"))
                (first_some
                  (reason_if (not (is_valid_hex crypto payload.ciphertext_hex))
                    (lit "encrypted ciphertext must be valid hex"))
                  (first_some
                    (reason_if (ltb max_encrypted_ciphertext_hex_len (length normalized_ciphertext))
                      (too_long (lit "encrypted ciphertext") max_encrypted_ciphertext_hex_len
                        (lit " hex chars")))
                    (first_some
                      (reason_if
                        (ltb (length normalized_ciphertext) min_encrypted_ciphertext_hex_len)
                        (lit "encrypted ciphertext too short: min "
                          ++ (show_nat min_encrypted_ciphertext_hex_len ++ lit " hex chars")))
                      (reason_if (contains recipients to)
                        (lit "encrypted payload recipients must be unique")))))))))

  unfoldable pub payloads_error : List Str → List EncryptedRecipientPayload → Option Str
  unfolding payload_error
  payloads_error recipients [] = none
  payloads_error recipients (payload ∷ rest) =
      first_some (payload_error recipients payload)
        (payloads_error (payload.recipient_handle ∷ recipients) rest)

  unfoldable pub validate_encrypted_control_frame : EncryptedControlFrame → Option Str
  unfolding payloads_error
  validate_encrypted_control_frame enc =
      first_some (reason_if (nat_beq enc.epoch 0) (lit "encrypted control epoch must be >= 1")) (
        first_some
          (handle_error (lit "encrypted sender handle") max_anon_participant_handle_len
            enc.sender_handle)
          (first_some
            (reason_if (is_empty enc.payloads) (lit "encrypted control payloads must be non-empty"))
            (first_some
              (reason_if (ltb max_encrypted_recipients_per_frame (length enc.payloads)) (
                lit "encrypted payload fanout too large: max "
                ++ (show_nat max_encrypted_recipients_per_frame ++ lit " recipients")))
              (payloads_error [] enc.payloads))))

  unfoldable pub validate_escrow_proof_frame : EscrowProofFrame → Option Str
  validate_escrow_proof_frame proof =
      first_some
        (handle_error (lit "payer_handle") max_anon_participant_handle_len proof.payer_handle)
        (first_some (handle_error (lit "escrow_id") max_escrow_id_len proof.escrow_id) (
          first_some
            (reason_if (ltb max_escrow_proof_hex_len (length (strip_hex_prefix proof.proof_hex)))
              (too_long (lit "proof_hex") max_escrow_proof_hex_len (lit " hex chars")))
            (reason_if (not (is_valid_hex crypto proof.proof_hex))
              (lit "proof_hex must be valid hex"))))
