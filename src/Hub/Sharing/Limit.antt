-- ===== src/Hub/Sharing/Limit.antt =====
-- The limit on screen shares (crates/kaigi-hub-echo/src/main.rs) and the two handlers that switch
-- them on, `ParticipantState` and `MediaTrackState`.
use sora_kaigi.Base.{
  ℕ, ◌+◌, ◌≤◌, ◌<◌, ◌≡◌, Bool, true, false, none, some, get, put, IsUnique, count, bit,
  count_values, count_values-put, count_others-present, max, ◌&&◌, nat_beq, str_beq, nat_eq, arith,
}
use sora_kaigi.Hub.State.{ConnId, Participant, RoomState}
use sora_kaigi.Wire.Frames.{ParticipantStateFrame, MediaTrackStateFrame, MediaTrackKind}
use sora_kaigi.Hub.Sharing.{
  other_sharers, share_limit, screen_share_request, participant_state_section, media_track_section,
  switched, tracked, e2ee_epoch, validate_plaintext_e2ee_gate,
}

-- How many participants of the room share their screen.
abbrev pub sharers : RoomState → ℕ
sharers room = count (λ e. e.1.state.screen_share_enabled) room.participants

abbrev shares : Participant → Bool
shares p = p.state.screen_share_enabled

module _ (room : RoomState) (conn_id : ConnId) (p : Participant) (u : IsUnique room.participants)
    (here : get room.participants conn_id ≡ some p) where
  sharers-with :
      (v : Participant)
      → count_values shares (put room.participants conn_id v)
        ≡ other_sharers room conn_id + bit v.state.screen_share_enabled
  sharers-with v = count_values-put shares room.participants conn_id p v u here

  -- In a room with one entry for each connection, a participant's own switches never take the room
  -- past its limit of screen shares: it stays within the limit, or not above what it was before.
  pub participant_state_limit :
      (update : ParticipantStateFrame) (at_ms : ℕ)
      → sharers (participant_state_section room conn_id update at_ms).0
        ≤ max (sharers room) (share_limit room)
  unfolding participant_state_section screen_share_request
  participant_state_limit update at_ms = ground (
    arith,
    here,
    sharers-with (record p { state = switched update (some true) p.state }),
    sharers-with (record p { state = switched update (some false) p.state }),
    sharers-with (record p { state = switched update none p.state }),
    count_others-present shares room.participants conn_id p u here,
  )

  -- `MediaTrackState` does not look at the limit: a transparent room at its limit of screen shares
  -- goes past it by the frame of a participant who has joined, does not share yet, and has published
  -- a key where the room requires encryption, if the frame is in its own name, for the screen-share
  -- track, and switches the share on.
  pub media_track_exceeds_limit :
      (track : MediaTrackStateFrame) (at_ms : ℕ)
      → room.anonymous_mode ≡ false
      → (room.e2ee_required && nat_beq (e2ee_epoch room conn_id) 0) ≡ false
      → p.state.hello_seen ≡ true
      → p.state.screen_share_enabled ≡ false
      → str_beq p.state.participant_id track.participant_id ≡ true
      → track.active_video_track ≡ MediaTrackKind.screen_share
      → track.screen_share_enabled ≡ true
      → share_limit room ≤ sharers room
      → share_limit room < sharers (media_track_section room conn_id track at_ms).0
  unfolding media_track_section tracked validate_plaintext_e2ee_gate
  media_track_exceeds_limit track at_ms open_room gate joined quiet own kind on full = ground (
    arith,
    here,
    sharers-with (record p { state = tracked track MediaTrackKind.screen_share p.state }),
    count_others-present shares room.participants conn_id p u here,
  )
