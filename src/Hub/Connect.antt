-- ===== src/Hub/Connect.antt =====
-- A connection enters its room (crates/kaigi-hub-echo/src/main.rs, `handle_conn`), before it has
-- said hello.
use sora_kaigi.Base.{ℕ, Option, none, some, ◌++◌, insert, nat_eq}
use sora_kaigi.Base.Text.{Str, lit, show_nat}
use sora_kaigi.Hub.State.{ConnId, Participant, RoomState, new_room, new_participant_state}

unfoldable pub fallback_participant_id : ConnId → Str
fallback_participant_id conn_id = lit "conn-" ++ show_nat conn_id

abbrev pub new_participant : ConnId → ℕ → Participant
new_participant conn_id connected_at_ms = record {
  tx = conn_id;
  state = new_participant_state (fallback_participant_id conn_id) connected_at_ms;
}

abbrev pub or_new_room : ℕ → Option RoomState → RoomState
or_new_room default_rate none = new_room default_rate
or_new_room default_rate (some room) = room

-- The room is made for its first connection.
unfoldable pub connect_section : ℕ → Option RoomState → ConnId → ℕ → RoomState
connect_section default_rate found conn_id connected_at_ms =
    let room = or_new_room default_rate found in
    record room {
      participants = insert room.participants conn_id (new_participant conn_id connected_at_ms);
    }
