-- ===== src/Hub/Relay/Own.antt =====
-- What the hub passes on (crates/kaigi-hub-echo/src/main.rs): whose frames, and in which media
-- profile.
use sora_kaigi.Base.{
  ℕ, ◌≡◌, ◌≢◌, ◌↔◌, refl, Bool, true, false, ◌&&◌, Option, none, some, List, [], ◌∷◌, get, any,
  any-get, is_empty, nat_beq, nat_beq_iff, str_beq_iff, nat_eq, inl, inr, Bool-cases, Option-cases,
  IsUnique, arith,
}
use sora_kaigi.Wire.Frames.{
  KaigiFrame, VideoSegmentFrame, ChatFrame, MediaProfileKind, MediaProfileNegotiationFrame,
  DeviceCapabilityFrame,
}
use sora_kaigi.Hub.State.{FrameOutcome, ConnId, Participant, RoomState}
use sora_kaigi.Hub.Roles.{is_some_and}
use sora_kaigi.Hub.Sharing.{validate_plaintext_e2ee_gate, e2ee_epoch}
use sora_kaigi.Hub.Relay.{
  not_own, video_segment_error, captures_hdr, another_renders_hdr,
  resolve_media_profile_negotiation, relay_video_segment, relay_chat,
}

-- The sender of a frame in the clear: it has joined a transparent room, and where the room
-- requires encryption it has published a key.
abbrev pub IsSender : RoomState → ConnId → Participant → Type 0
IsSender room conn_id p =
    (get room.participants conn_id ≡ some p)
    × (room.anonymous_mode ≡ false)
    × (p.state.hello_seen ≡ true)
    × ((room.e2ee_required && nat_beq (e2ee_epoch room conn_id) 0) ≡ false)

-- A video segment is passed on only from someone who has joined the transparent room, under its
-- own id, after a key where the room requires encryption, and as it was sent; it is not empty.
pub relay_video_segment-IsSender :
    (room : RoomState) (conn_id : ConnId) (segment : VideoSegmentFrame) (frame : KaigiFrame)
    → relay_video_segment room conn_id segment ≡ (FrameOutcome.broadcast, some frame)
    → (p : Participant) × IsSender room conn_id p
      × (p.state.participant_id ≡ segment.participant_id)
      × (frame ≡ KaigiFrame.video_segment segment)
      × (is_empty segment.payload ≡ false)
unfolding relay_video_segment validate_plaintext_e2ee_gate not_own video_segment_error
relay_video_segment-IsSender room conn_id segment frame h =
    elim (Option-cases (get room.participants conn_id)) [
      | inl absent ↦ absurd (ground arith)
      | inr (p, here) ↦ (
        p,
        (here, ground arith, ground arith, ground arith),
        ground (arith, str_beq_iff p.state.participant_id segment.participant_id),
        ground arith,
        ground arith,
      )
    ]

-- A chat message is passed on only from someone who has joined the transparent room, after a key
-- where the room requires encryption, and under the sender's own id and name, whatever id and
-- name the frame had.
pub relay_chat-IsSender :
    (room : RoomState) (conn_id : ConnId) (chat : ChatFrame) (at_ms : ℕ) (frame : KaigiFrame)
    → relay_chat room conn_id chat at_ms ≡ (FrameOutcome.broadcast, some frame)
    → (p : Participant) × IsSender room conn_id p
      × (frame
          ≡ KaigiFrame.chat (record {
            sent_at_ms = at_ms;
            from_participant_id = p.state.participant_id;
            from_display_name = p.state.display_name;
            text = chat.text;
          }))
unfolding relay_chat validate_plaintext_e2ee_gate
relay_chat-IsSender room conn_id chat at_ms frame h =
    elim (Option-cases (get room.participants conn_id)) [
      | inl absent ↦ absurd (ground arith)
      | inr (p, here) ↦ (p, (here, ground arith, ground arith, ground arith), ground arith)
    ]

-- The sender captures HDR, and another connection, whose participant has said hello, renders it.
abbrev pub AllowsHdr : RoomState → ConnId → Type 0
AllowsHdr room conn_id =
    ((own : DeviceCapabilityFrame) × (get room.device_caps_by_conn conn_id ≡ some own)
      × (own.hdr_capture ≡ true))
    × ((d : ConnId) × (q : Participant) × (theirs : DeviceCapabilityFrame) × (d ≢ conn_id)
        × (get room.participants d ≡ some q)
        × (q.state.hello_seen ≡ true)
        × (get room.device_caps_by_conn d ≡ some theirs)
        × (theirs.hdr_render ≡ true))

-- An entry that a search meets is one that the map holds.
met :
    (f : ConnId × Participant → Bool) (m : List (ConnId × Participant))
    → IsUnique m
    → any f m ≡ true
    → (d : ConnId) × (q : Participant) × (get m d ≡ some q) × (f (d, q) ≡ true)
unfolding get
met f [] u h = absurd (ground arith)
met f ((k, p) ∷ m) u h = elim (Bool-cases (f (k, p))) [
  | inl here ↦ (k, p, ground (arith, nat_beq_iff k k), here)
  | inr other ↦
      let (d, q, there, passes) = met f m u.1 (ground arith) in
      (d, q, ground (arith, u.0, nat_beq_iff k d), passes)
]

held :
    (caps : Option DeviceCapabilityFrame) (f : DeviceCapabilityFrame → Bool)
    → is_some_and caps f ≡ true
    → (cap : DeviceCapabilityFrame) × (caps ≡ some cap) × (f cap ≡ true)
held none f h = absurd (ground arith)
held (some cap) f h = (cap, refl, h)

captures_hdr_lem :
    (room : RoomState) (conn_id : ConnId)
    → captures_hdr room conn_id ≡ true
    → (own : DeviceCapabilityFrame) × (get room.device_caps_by_conn conn_id ≡ some own)
      × (own.hdr_capture ≡ true)
captures_hdr_lem room conn_id h =
    held (get room.device_caps_by_conn conn_id) (λ cap. cap.hdr_capture) h

another_renders_hdr_lem :
    (room : RoomState) (conn_id : ConnId)
    → IsUnique room.participants
    → another_renders_hdr room conn_id ≡ true
    → (d : ConnId) × (q : Participant) × (theirs : DeviceCapabilityFrame) × (d ≢ conn_id)
      × (get room.participants d ≡ some q)
      × (q.state.hello_seen ≡ true)
      × (get room.device_caps_by_conn d ≡ some theirs)
      × (theirs.hdr_render ≡ true)
another_renders_hdr_lem room conn_id u h =
    let (d, q, there, passes) = met _ room.participants u h in
    let (theirs, sent, renders) =
      held (get room.device_caps_by_conn d) (λ cap. cap.hdr_render) (ground arith) in
    (
      d,
      q,
      theirs,
      λ same. ground (arith, nat_beq_iff d conn_id),
      there,
      ground arith,
      sent,
      renders,
    )

AllowsHdr_lem :
    (room : RoomState) (conn_id : ConnId)
    → AllowsHdr room conn_id
    → (captures_hdr room conn_id ≡ true) × (another_renders_hdr room conn_id ≡ true)
AllowsHdr_lem room conn_id
      ((own, mine, captures), (d, q, theirs, other, there, joined, sent, renders)) =
    (
      rw mine captures,
      any-get _ room.participants d q there
          (rw (sent, joined, renders) (ground (arith, other, nat_beq_iff d conn_id))),
    )

-- In a room with one entry for each connection, a profile comes out as HDR exactly when it was
-- proposed as HDR, the sender's device captures HDR, and the device of another connection, whose
-- participant has said hello, renders it. Nothing but the profile of the frame ever changes.
pub resolve_media_profile_negotiation_hdr :
    (room : RoomState) (conn_id : ConnId) (profile : MediaProfileNegotiationFrame)
    → IsUnique room.participants
    → let resolved = resolve_media_profile_negotiation room conn_id profile in
      ((resolved.negotiated_profile ≡ MediaProfileKind.hdr)
        ↔ ((profile.negotiated_profile ≡ MediaProfileKind.hdr) × AllowsHdr room conn_id))
      × (record resolved { negotiated_profile = profile.negotiated_profile } ≡ profile)
unfolding resolve_media_profile_negotiation
resolve_media_profile_negotiation_hdr room conn_id profile u = (
  (
    λ h. (
      ground arith,
      (
        captures_hdr_lem room conn_id (ground arith),
        another_renders_hdr_lem room conn_id u (ground arith),
      ),
    ),
    λ (proposed, allowed).
        let (mine, another) = AllowsHdr_lem room conn_id allowed in
        rw (mine, another) (ground arith),
  ),
  ground arith,
)
