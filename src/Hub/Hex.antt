-- ===== src/Hub/Hex.antt =====
-- Hexadecimal fields and the digests that stand for signatures (crates/kaigi-hub-echo/src/main.rs).
use sora_kaigi.Base.{
  ℕ, ◌*◌, ◌%◌, Bool, not, ◌&&◌, Option, none, some, [], ◌∷◌, ◌++◌, length, is_empty, first_some,
  opt_or, nat_beq, str_beq, if◌then◌else◌,
}
use sora_kaigi.Base.Text.{Str, lit, show_nat, show_bool, to_ascii_lowercase}
use sora_kaigi.Wire.Frames.{
  RoleKind, RoleGrantFrame, RoleRevokeFrame, SessionPolicyFrame, ModerationSignedFrame,
  ModerationTarget, ModerationAction, E2eeKeyEpochFrame,
}
use sora_kaigi.Hub.State.{Crypto}

-- `str::strip_prefix`.
unfoldable pub strip_prefix : Str → Str → Option Str
strip_prefix [] s = some s
strip_prefix (p ∷ ps) [] = none
strip_prefix (p ∷ ps) (c ∷ s) = if nat_beq p c then strip_prefix ps s else none

unfoldable pub strip_hex_prefix : Str → Str
unfolding strip_prefix lit
strip_hex_prefix value =
    opt_or (first_some (strip_prefix (lit "0x") value) (strip_prefix (lit "0X") value)) value

bar : Str
unfolding lit
bar = lit "|"

unfoldable pub role_kind_token : RoleKind → Str
unfolding lit
role_kind_token RoleKind.host = lit "host"
role_kind_token RoleKind.co_host = lit "cohost"
role_kind_token RoleKind.participant = lit "participant"

unfoldable pub moderation_action_token : ModerationAction → Str
unfolding lit
moderation_action_token ModerationAction.disable_mic = lit "disable_mic"
moderation_action_token ModerationAction.disable_video = lit "disable_video"
moderation_action_token ModerationAction.disable_screen_share = lit "disable_screen_share"
moderation_action_token ModerationAction.kick = lit "kick"
moderation_action_token ModerationAction.admit_from_waiting = lit "admit_from_waiting"
moderation_action_token ModerationAction.deny_from_waiting = lit "deny_from_waiting"

unfoldable pub moderation_target_token : ModerationTarget → Str
unfolding lit
moderation_target_token ModerationTarget.all = lit "all"
moderation_target_token (ModerationTarget.participant participant_id) =
    lit "participant:" ++ participant_id

module _ (crypto : Crypto) where
  unfoldable pub is_valid_tx_hash_hex : Str → Bool
  unfolding strip_hex_prefix
  is_valid_tx_hash_hex hash =
      let normalized = strip_hex_prefix hash in
      nat_beq (length normalized) 64 && crypto.hex_decodes normalized

  unfoldable pub is_valid_hex : Str → Bool
  unfolding strip_hex_prefix
  is_valid_hex value =
      let normalized = strip_hex_prefix value in
      not (is_empty normalized)
      && nat_beq (length normalized % 2) 0
      && crypto.hex_decodes normalized

  unfoldable pub is_valid_hex_len : Str → ℕ → Bool
  unfolding strip_hex_prefix
  is_valid_hex_len value bytes =
      let normalized = strip_hex_prefix value in
      nat_beq (length normalized) (bytes * 2) && crypto.hex_decodes normalized

  unfoldable pub deterministic_signature_hex : Str → Str → Str
  deterministic_signature_hex tag payload = crypto.blake3_hex (tag ++ payload)

  unfoldable pub moderation_signed_signature_is_valid : ModerationSignedFrame → Bool
  unfolding deterministic_signature_hex bar
  moderation_signed_signature_is_valid m =
      str_beq
        (deterministic_signature_hex (lit "moderation") (
          m.issued_by
          ++ (bar
              ++ (moderation_target_token m.target
                  ++ (bar
                      ++ (moderation_action_token m.action ++ (bar ++ show_nat m.sent_at_ms)))))))
        (to_ascii_lowercase m.signature_hex)

  unfoldable pub role_grant_signature_is_valid : RoleGrantFrame → Bool
  unfolding deterministic_signature_hex bar
  role_grant_signature_is_valid grant =
      str_beq
        (deterministic_signature_hex (lit "role_grant") (
          grant.granted_by
          ++ (bar
              ++ (grant.target_participant_id
                  ++ (bar
                      ++ (role_kind_token grant.role ++ (bar ++ show_nat grant.issued_at_ms)))))))
        (to_ascii_lowercase grant.signature_hex)

  unfoldable pub role_revoke_signature_is_valid : RoleRevokeFrame → Bool
  unfolding deterministic_signature_hex bar
  role_revoke_signature_is_valid revoke =
      str_beq
        (deterministic_signature_hex (lit "role_revoke") (
          revoke.revoked_by
          ++ (bar
              ++ (revoke.target_participant_id
                  ++ (bar
                      ++ (role_kind_token revoke.role ++ (bar ++ show_nat revoke.issued_at_ms)))))))
        (to_ascii_lowercase revoke.signature_hex)

  unfoldable pub session_policy_signature_is_valid : SessionPolicyFrame → Bool
  unfolding deterministic_signature_hex bar
  session_policy_signature_is_valid policy =
      str_beq
        (deterministic_signature_hex (lit "session_policy") (
          policy.updated_by
          ++ (bar
              ++ (show_bool policy.room_lock
                  ++ (bar
                      ++ (show_bool policy.waiting_room_enabled
                          ++ (bar
                              ++ (show_bool policy.guest_join_allowed
                                  ++ (bar
                                      ++ (show_bool policy.local_recording_allowed
                                          ++ (bar
                                              ++ (show_bool policy.e2ee_required
                                                  ++ (bar
                                                      ++ (show_nat policy.max_participants
                                                          ++ (bar
                                                            ++ (show_nat policy.policy_epoch
                                                            ++ (bar
                                                            ++ show_nat
                                                            policy.updated_at_ms)))))))))))))))))
        (to_ascii_lowercase policy.signature_hex)

  unfoldable pub e2ee_public_key_is_valid : E2eeKeyEpochFrame → Bool
  unfolding deterministic_signature_hex bar
  e2ee_public_key_is_valid frame =
      str_beq
        (deterministic_signature_hex (lit "e2ee_public_key")
          (frame.participant_id ++ (bar ++ show_nat frame.epoch)))
        (to_ascii_lowercase frame.public_key_hex)

  unfoldable pub e2ee_signature_is_valid : E2eeKeyEpochFrame → Bool
  unfolding deterministic_signature_hex bar
  e2ee_signature_is_valid frame =
      str_beq
        (deterministic_signature_hex (lit "e2ee_key_epoch") (
          frame.participant_id
          ++ (bar ++ (show_nat frame.epoch ++ (bar ++ show_nat frame.sent_at_ms)))))
        (to_ascii_lowercase frame.signature_hex)
