-- ===== src/Scenarios/Sessions.antt =====
-- Sessions of the desktop client, with the default configuration.
use sora_kaigi.Base.{
  ◌+◌, ◌≡◌, refl, true, false, none, some, List, [], ◌∷◌, get, length, is_empty, if◌then◌else◌,
  str_eq, str_beq,
}
use sora_kaigi.Base.Text.{Str, lit, is_blank}
use sora_kaigi.Base.Ints.{ℤ, pos, ◌≤ℤ◌}
use sora_kaigi.Client.Model.{
  ConnectionPhase, ParticipantRole, Participant, ModerationAction, RecordingState, GuestPolicy,
  ProtocolSessionState, default_config, initial,
}
use sora_kaigi.Client.Frames.{ProtocolFrame, ProtocolEvent}
use sora_kaigi.Client.Policy.{
  has_signature, has_required_signature, actor_is_authorized, policy_reject,
}
use sora_kaigi.Client.Reducer.{reduce_frame}
use sora_kaigi.Client.Session.{reduce}
use sora_kaigi.Client.Identity.{normalize_participant_id, resolved_participant_id}
use sora_kaigi.Client.Identity.Slug.{IsSlug, normalize_participant_id_lem}
use sora_kaigi.Client.Runtime.{
  SessionRuntime, with_backoff, on_app_foregrounded, on_app_backgrounded, connect_requested,
}
use sora_kaigi.Client.Outbound.{on_frame}
use sora_kaigi.Client.Phases.{IsSound}
use sora_kaigi.Client.Epochs.{IsLater}
use sora_kaigi.Client.Authority.{is_permitted, IsRefused, unauthorized-IsRefused}
use sora_kaigi.Client.Members.{acted, moderation_effect}
use sora_kaigi.Client.Members.Keys.{HasKeys}
use sora_kaigi.Client.Calls.{Call, call_all}
use sora_kaigi.Client.Calls.Kept.{call_all-IsSound, call_all-IsLater}
use sora_kaigi.Client.Calls.Attempts.{IsScheduled, call_all-IsScheduled}
use sora_kaigi.Client.Backoff.{IsTrying, round, rounds, rounds_exhaust}
use sora_kaigi.Client.Background.{IsStuck, reconnect_is_dropped}
use sora_kaigi.Client.Recovery.{span, second_span}
use sora_kaigi.Client.Acks.{on_frame_acknowledges}
use sora_kaigi.Client.Json.{decoded}
use sora_kaigi.Client.Decode.{decode_frame}
use sora_kaigi.Client.Encode.{encode_value, encode_frame}
use sora_kaigi.Client.Roundtrip.{decode_frame-encode_frame}

abbrev delays : List ℤ
delays = pos 1000 ∷ pos 2000 ∷ []

abbrev fresh : SessionRuntime
fresh = with_backoff default_config delays

abbrev ack_frame : ProtocolFrame
ack_frame = ProtocolFrame.handshake_ack (lit "s1") (lit "token") (pos 20)

abbrev key_frame : ProtocolFrame
key_frame = ProtocolFrame.e2ee_key_epoch (pos 3) (lit "system") (some (lit "sig")) (pos 30)

-- Connected, given a key, hidden and brought back.
abbrev day : List (Call × ℤ)
day =
    (Call.connect, pos 0)
    ∷ (Call.transport_connected, pos 10)
    ∷ (Call.frame ack_frame, pos 20)
    ∷ (Call.frame key_frame, pos 30)
    ∷ (Call.backgrounded, pos 40)
    ∷ (Call.foregrounded, pos 50)
    ∷ (Call.transport_failure (lit "lost"), pos 60)
    ∷ []

call_all-IsSound_example :
    let s = (call_all (with_backoff default_config delays) day).state in IsSound s × HasKeys s
call_all-IsSound_example = call_all-IsSound default_config delays day

call_all-IsLater_example : IsLater fresh.state (call_all fresh day).state
call_all-IsLater_example = call_all-IsLater fresh day

call_all-IsScheduled_example : IsScheduled (call_all (with_backoff default_config delays) day)
call_all-IsScheduled_example = call_all-IsScheduled default_config delays day

-- A stranger takes the host's place without a signature.
abbrev usurp : ProtocolFrame
usurp = ProtocolFrame.role_grant (lit "eve") ParticipantRole.host (lit "eve") none (pos 5)

usurp_unsigned : is_permitted (initial default_config) none (lit "eve") ≡ false
unfolding has_required_signature has_signature initial default_config
usurp_unsigned = refl

unauthorized-IsRefused_example :
    IsRefused (initial default_config) (reduce_frame (initial default_config) usurp (pos 9))
unauthorized-IsRefused_example =
    unauthorized-IsRefused (initial default_config) usurp (pos 9) none (lit "eve") refl
      usurp_unsigned

fresh-IsTrying : IsTrying fresh
unfolding with_backoff initial
fresh-IsTrying = record { wanted = refl; shown = refl; direct = refl; idle = refl }

abbrev twice : List (Str × ℤ)
twice = (lit "lost", pos 10) ∷ (lit "lost", pos 2000) ∷ []

fresh_attempts : fresh.reconnect_attempt + length twice ≡ length fresh.reconnect_backoff_ms
unfolding with_backoff
fresh_attempts = refl

rounds_exhaust_example :
    let t = rounds fresh twice in
    let u = (round t (lit "lost", pos 9000)).state in
    IsTrying t × (u.fallback.active ≡ true) × (u.connection_phase ≡ ConnectionPhase.fallback_active)
rounds_exhaust_example =
    rounds_exhaust fresh twice (lit "lost", pos 9000) fresh-IsTrying fresh_attempts

abbrev left : SessionRuntime
left = record fresh { user_initiated_disconnect = true }

reconnect_is_dropped_example :
    let t = on_app_foregrounded (on_app_backgrounded left (pos 1)) (pos 2) in
    IsStuck (connect_requested t (pos 3)) × ((connect_requested t (pos 3)).state ≡ t.state)
reconnect_is_dropped_example = reconnect_is_dropped left (pos 1) (pos 2) (pos 3) refl

second_span_example :
    let t =
      reduce (initial default_config) (ProtocolEvent.fallback_activated (lit "drill")) (pos 100) in
    let u =
      policy_reject
        (reduce t ProtocolEvent.fallback_recovered (pos 200))
        (pos 90000)
        (lit "e2ee_epoch_required")
        (lit "no key") in
    (u.fallback.active ≡ true)
    × ((reduce u ProtocolEvent.fallback_recovered (pos 90010)).fallback.last_rto_ms
        ≡ span (pos 100) (pos 90010))
unfolding initial default_config
second_span_example =
    second_span (initial default_config) (lit "drill") (lit "e2ee_epoch_required") (lit "no key")
      (pos 100) (pos 200) (pos 90000) (pos 90010) refl

on_frame_acknowledges_example :
    let signed = has_required_signature (some (lit "sig")) fresh.state in
    let ack =
      ProtocolFrame.key_rotation_ack (pos 3) (resolved_participant_id fresh.state) (pos 40) in
    let (t, sent) = on_frame fresh key_frame (pos 40) in
    (sent ≡ (if signed then ack ∷ [] else []))
    × (signed ≡ true → pos 3 ≤ℤ t.state.e2ee_state.last_ack_epoch)
on_frame_acknowledges_example =
    on_frame_acknowledges fresh (pos 3) (lit "system") (some (lit "sig")) (pos 30) (pos 40)

abbrev bob : Participant
bob = record {
  id = lit "bob";
  display_name = lit "Bob";
  role = ParticipantRole.participant;
  muted = false;
  video_enabled = true;
  share_enabled = true;
  waiting_room = false;
}

abbrev with_bob : ProtocolSessionState
with_bob = record (initial default_config) { participants = (lit "bob", bob) ∷ [] }

system_permitted : is_permitted with_bob (some (lit "sig")) (lit "system") ≡ true
unfolding has_required_signature has_signature actor_is_authorized initial default_config is_blank
    str_beq
system_permitted = refl

moderation_effect_example :
    let kick =
      ProtocolFrame.moderation_signed
        (lit "bob")
        ModerationAction.kick
        (lit "system")
        (some (lit "sig"))
        (pos 7) in
    let t = reduce_frame with_bob kick (pos 8) in
    get t.participants (lit "bob") ≡ (
      if str_beq (lit "bob") (lit "bob")
      then acted ModerationAction.kick (get with_bob.participants (lit "bob"))
      else get with_bob.participants (lit "bob"))
moderation_effect_example =
    moderation_effect with_bob (lit "bob") ModerationAction.kick (lit "system") (some (lit "sig"))
      (pos 7) (pos 8) (lit "bob") system_permitted

normalize_participant_id_lem_example :
    let id = normalize_participant_id (lit " Linux Guest!") in
    IsSlug id × (is_empty id ≡ false) × (normalize_participant_id id ≡ id)
normalize_participant_id_lem_example = normalize_participant_id_lem (lit " Linux Guest!")

abbrev policy_frame : ProtocolFrame
policy_frame =
    ProtocolFrame.session_policy true false RecordingState.started GuestPolicy.invite_only true
      (pos 40) (pos 2) (lit "host") (some (lit "sig")) (pos 1700)

decode_frame-encode_frame_example :
    decode_frame
      (λ text. decoded (encode_value policy_frame))
      (encode_frame (λ value. lit "{}") policy_frame)
    ≡ decoded policy_frame
decode_frame-encode_frame_example =
    decode_frame-encode_frame (λ value. lit "{}") (λ text. decoded (encode_value policy_frame))
      policy_frame refl (refl, refl, refl)
