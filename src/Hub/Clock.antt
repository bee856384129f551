-- ===== src/Hub/Clock.antt =====
-- The replay guard of signed actions (`enforce_signed_action_clock`,
-- crates/kaigi-hub-echo/src/main.rs): one clock for each action and signer.
pub mod Replay
use sora_kaigi.Base.{
  ℕ, Bool, Option, none, some, ◌++◌, List, get, insert, leb, nat_beq, if◌then◌else◌, str_eq,
}
use sora_kaigi.Base.Text.{Str, lit, show_nat}
use sora_kaigi.Base.Results.{Res, ok, err}
use sora_kaigi.Hub.State.{RoomState}

unfoldable pub signed_action_clock_key : Str → Str → Str
unfolding lit
signed_action_clock_key action_tag signer_id = action_tag ++ (lit ":" ++ signer_id)

abbrev replay_message : Str → Str → Str → ℕ → ℕ → Str
replay_message action_tag timestamp_label signer_id last_seen timestamp_ms =
    action_tag
    ++ (lit " "
        ++ (timestamp_label
            ++ (lit " must increase for signer "
                ++ (signer_id
                    ++ (lit ": last="
                        ++ (show_nat last_seen
                            ++ (lit " got="
                                ++ (show_nat timestamp_ms ++ lit " (replay/stale rejected)"))))))))

-- A timestamp not above the last one seen.
abbrev is_stale : ℕ → Option ℕ → Bool
is_stale timestamp_ms none = Bool.false
is_stale timestamp_ms (some last_seen) = leb timestamp_ms last_seen

abbrev last_or_zero : Option ℕ → ℕ
last_or_zero none = 0
last_or_zero (some last_seen) = last_seen

-- The clock table after an accepted action, or the reason for which it is refused.
unfoldable pub enforce_signed_action_clock : RoomState → Str → Str → Str → ℕ → Res RoomState
unfolding signed_action_clock_key
enforce_signed_action_clock room action_tag signer_id timestamp_label timestamp_ms =
    let key = signed_action_clock_key action_tag signer_id in
    let last = get room.signed_action_clock_by_signer key in
    if nat_beq timestamp_ms 0
    then err (timestamp_label ++ lit " must be >= 1")
    else if is_stale timestamp_ms last
    then err (replay_message action_tag timestamp_label signer_id (last_or_zero last) timestamp_ms)
    else ok (record room {
      signed_action_clock_by_signer = insert room.signed_action_clock_by_signer key timestamp_ms;
    })
