-- ===== src/Client/Policy.antt =====
-- What the client refuses (crates/kaigi-linux-client/src/lib.rs): signatures, issuers, unsettled
-- payments and missing key epochs.
use sora_kaigi.Base.{
  Bool, true, false, not, ◌&&◌, ◌||◌, Option, none, some, get, str_eq, str_beq, first_some, ◌++◌,
  if◌then◌else◌,
}
use sora_kaigi.Base.Text.{Str, lit, is_blank, starts_with}
use sora_kaigi.Base.Ints.{ℤ, pos, ltb_ℤ}
use sora_kaigi.Client.Model.{
  ConnectionPhase, SessionErrorCategory, SessionError, ParticipantRole, Participant,
  PaymentSettlementStatus, ProtocolSessionState,
}

unfoldable pub has_signature : Option Str → Bool
has_signature none = false
has_signature (some value) = not (is_blank value)

unfoldable pub has_required_signature : Option Str → ProtocolSessionState → Bool
has_required_signature signature state =
    if state.config.require_signed_moderation then has_signature signature else true

abbrev pub is_moderator_role : ParticipantRole → Bool
is_moderator_role ParticipantRole.host = true
is_moderator_role ParticipantRole.co_host = true
is_moderator_role ParticipantRole.participant = false
is_moderator_role ParticipantRole.guest = false

abbrev pub is_moderator : Option Participant → Bool
is_moderator none = false
is_moderator (some p) = is_moderator_role p.role

abbrev pub system_issuer : Str
system_issuer = lit "system"

unfoldable pub actor_is_authorized : Str → ProtocolSessionState → Bool
actor_is_authorized issuer state =
    if str_beq issuer system_issuer then true else is_moderator (get state.participants issuer)

-- The phase and the error of a refusal. `format!("policy:{code}")` is the reason of a fallback.
unfoldable pub policy_reject : ProtocolSessionState → ℤ → Str → Str → ProtocolSessionState
policy_reject state now_ms code message =
    let active = state.config.prefer_web_fallback_on_policy_failure || state.fallback.active in
    record state {
      connection_phase = if active then ConnectionPhase.fallback_active else ConnectionPhase.error;
      fallback = record state.fallback {
        active = active;
        reason =
            if active
            then first_some state.fallback.reason (some (lit "policy:" ++ code))
            else state.fallback.reason;
        activated_at_ms =
            if active
            then first_some state.fallback.activated_at_ms (some now_ms)
            else state.fallback.activated_at_ms;
      };
      last_error = some (record {
        category = SessionErrorCategory.policy_failure;
        code = code;
        message = message;
        at_ms = now_ms;
      });
    }

abbrev pub is_policy_failure : SessionErrorCategory → Bool
is_policy_failure SessionErrorCategory.policy_failure = true
is_policy_failure SessionErrorCategory.protocol_failure = false
is_policy_failure SessionErrorCategory.transport_failure = false

abbrev pub settled_phase : ProtocolSessionState → ConnectionPhase
settled_phase state =
    if state.fallback.active
    then ConnectionPhase.fallback_active
    else if state.handshake_complete
    then ConnectionPhase.connected
    else ConnectionPhase.connecting

unfoldable pub clear_error_if_matching :
    ProtocolSessionState → (Option SessionError → Bool) → ProtocolSessionState
clear_error_if_matching state predicate =
    let cleared = predicate state.last_error in
    record state {
      connection_phase = if cleared then settled_phase state else state.connection_phase;
      last_error = if cleared then none else state.last_error;
    }

unfoldable pub is_payment_policy_error : Option SessionError → Bool
is_payment_policy_error none = false
is_payment_policy_error (some e) =
    is_policy_failure e.category
    && (starts_with e.code (lit "payment_settlement_") || str_beq e.code (lit "payment_unsettled"))

unfoldable pub is_e2ee_policy_error : Option SessionError → Bool
is_e2ee_policy_error none = false
is_e2ee_policy_error (some e) = is_policy_failure e.category && starts_with e.code (lit "e2ee_")

abbrev pub is_paid : PaymentSettlementStatus → Bool
is_paid PaymentSettlementStatus.settled = true
is_paid PaymentSettlementStatus.not_required = true
is_paid PaymentSettlementStatus.pending = false
is_paid PaymentSettlementStatus.blocked = false

abbrev pub is_blocked : PaymentSettlementStatus → Bool
is_blocked PaymentSettlementStatus.blocked = true
is_blocked PaymentSettlementStatus.settled = false
is_blocked PaymentSettlementStatus.not_required = false
is_blocked PaymentSettlementStatus.pending = false

unfoldable pub enforce_payment_settlement_policy : ProtocolSessionState → ℤ → ProtocolSessionState
enforce_payment_settlement_policy state now_ms =
    if not state.config.require_payment_settlement || not state.payment_state.required
    then clear_error_if_matching state is_payment_policy_error
    else if is_paid state.payment_state.settlement_status
    then clear_error_if_matching state is_payment_policy_error
    else if is_blocked state.payment_state.settlement_status
    then policy_reject state now_ms (lit "payment_settlement_blocked")
        (lit "Payment settlement blocked by policy")
    else policy_reject state now_ms (lit "payment_settlement_required")
        (lit "Payment settlement required before media/session actions can continue")

unfoldable pub enforce_e2ee_epoch_policy : ProtocolSessionState → ℤ → ProtocolSessionState
enforce_e2ee_epoch_policy state now_ms =
    if not state.e2ee_required
    then clear_error_if_matching state is_e2ee_policy_error
    else if ltb_ℤ (pos 0) state.e2ee_state.current_epoch
    then clear_error_if_matching state is_e2ee_policy_error
    else policy_reject state now_ms (lit "e2ee_epoch_required")
        (lit "E2EE key epoch is required by session policy")
