-- ===== src/Client/Roundtrip/Words.antt =====
-- The words, numbers and lists of the client's JSON, written and read
-- (crates/kaigi-linux-client/src/lib.rs).
use sora_kaigi.Base.{Bool, true, Option, some, List, [], ◌∷◌, ◌≡◌, refl, ap, str_beq, arith}
use sora_kaigi.Base.Text.{lit}
use sora_kaigi.Base.Ints.{ℤ, is_i64, is_i32}
use sora_kaigi.Client.Model.{
  SessionErrorCategory, ParticipantRole, ModerationAction, MediaProfile, RecordingState,
  GuestPolicy, PaymentSettlementStatus,
}
use sora_kaigi.Client.Json.{Value, bool, int, bool_of, int_of, filter_map}
use sora_kaigi.Client.Words.{
  parse_session_error_category, parse_participant_role, parse_moderation_action,
  parse_media_profile, parse_recording_state, parse_guest_policy, parse_payment_settlement_status,
}
use sora_kaigi.Client.Encode.{
  category_word, role_word, action_word, profile_word, recording_word, guest_word, status_word,
  items,
}

pub int_of-int : (n : ℤ) → is_i64 n ≡ true → int_of (int n) ≡ some n
unfolding int_of
int_of-int n h = rw h refl

pub bool_of-bool : (b : Bool) → bool_of (bool b) ≡ some b
unfolding bool_of
bool_of-bool b = refl

pub i64_of_i32 : (n : ℤ) → is_i32 n ≡ true → is_i64 n ≡ true
i64_of_i32 n h = ground arith

pub role-word : (r : ParticipantRole) → parse_participant_role (some (role_word r)) ≡ r
unfolding parse_participant_role role_word lit str_beq
role-word ParticipantRole.host = refl
role-word ParticipantRole.co_host = refl
role-word ParticipantRole.participant = refl
role-word ParticipantRole.guest = refl

pub category-word :
    (c : SessionErrorCategory) → parse_session_error_category (some (category_word c)) ≡ c
unfolding parse_session_error_category category_word lit str_beq
category-word SessionErrorCategory.protocol_failure = refl
category-word SessionErrorCategory.policy_failure = refl
category-word SessionErrorCategory.transport_failure = refl

pub action-word : (a : ModerationAction) → parse_moderation_action (some (action_word a)) ≡ a
unfolding parse_moderation_action action_word lit str_beq
action-word ModerationAction.mute = refl
action-word ModerationAction.video_off = refl
action-word ModerationAction.stop_share = refl
action-word ModerationAction.kick = refl
action-word ModerationAction.admit_from_waiting = refl
action-word ModerationAction.deny_from_waiting = refl

pub profile-word : (p : MediaProfile) → parse_media_profile (some (profile_word p)) ≡ p
unfolding parse_media_profile profile_word lit str_beq
profile-word MediaProfile.sdr = refl
profile-word MediaProfile.hdr = refl

pub recording-word : (s : RecordingState) → parse_recording_state (some (recording_word s)) ≡ s
unfolding parse_recording_state recording_word lit str_beq
recording-word RecordingState.stopped = refl
recording-word RecordingState.started = refl

pub guest-word : (p : GuestPolicy) → parse_guest_policy (some (guest_word p)) ≡ p
unfolding parse_guest_policy guest_word lit str_beq
guest-word GuestPolicy.open_to_all = refl
guest-word GuestPolicy.invite_only = refl
guest-word GuestPolicy.blocked = refl

pub status-word :
    (s : PaymentSettlementStatus) → parse_payment_settlement_status (some (status_word s)) ≡ s
unfolding parse_payment_settlement_status status_word lit str_beq
status-word PaymentSettlementStatus.not_required = refl
status-word PaymentSettlementStatus.pending = refl
status-word PaymentSettlementStatus.settled = refl
status-word PaymentSettlementStatus.blocked = refl

-- Items that are read one by one are the list that was written.
pub filter_map-items {ℓ} :
    {A : Type ℓ} (f : Value → Option A) (g : A → Value)
    → ((a : A) → f (g a) ≡ some a)
    → (xs : List A) → filter_map f (items g xs) ≡ xs
unfolding filter_map items
filter_map-items f g back [] = refl
filter_map-items f g back (x ∷ xs) = rw (back x) (ap (◌∷◌ x) (filter_map-items f g back xs))
