-- ===== src/Lib.antt =====
-- The Kaigi hub, its wire format, its desktop client and its join links: rooms for calls over
-- SoraNet, in which participants join, talk, are moderated and pay by the minute
-- (crates/kaigi-wire, crates/kaigi-hub-echo, crates/kaigi-linux-client, crates/kaigi-cli).
--
-- Parts and files. A connection's bytes are decoded into frames (crates/kaigi-wire/src/lib.rs), and
-- each frame is handled in the room of its connection (crates/kaigi-hub-echo/src/main.rs,
-- `handle_frame`). A handler locks the rooms, reads and changes one room, unlocks, and then sends
-- frames. Each locked section is a function here, from a room to a room and an outcome that tells
-- what the handler sends; the lock makes it one step.
--   Base           tests on native numbers, lists, association lists for maps and sets, counts, a
--                  stable sort, UTF-8 texts, results. Texts are their bytes.
--   Wire/Frames    every frame of the wire, with the source's fields and variants.
--   Wire/Codec     `encode_framed`, `FrameDecoder`, and the receiving loop of `handle_conn` (`drain`
--                  takes the frames out of a decoder, `feed` reads chunk after chunk). Children:
--                  Roundtrip, Chunks, Stream.
--   Hub/State      `RoomState`, `Participant`, `ParticipantState`, configuration.
--   Hub/Clock      `enforce_signed_action_clock`, one clock for each action and signer; Replay.
--   Hub/Hex        hexadecimal fields, and the digests that the frames call signatures.
--   Hub/Roles      host, co-hosts, roles kept for an id; Changes (grants and revokes), Sections
--                  (their handlers), Bindings, Grants, Authority.
--   Hub/Billing    bills, payments, a turn of `enforce_billing`; Exact, Grace.
--   Hub/Connect, Hub/Admission, Hub/Lobby
--                  entering a room, the `Hello` handler, the waiting room and `handle_disconnect`.
--   Hub/Sharing    the `ParticipantState` and `MediaTrackState` handlers; Limit.
--   Hub/Handles, Hub/Anonymous, Hub/GroupKeys
--                  checks on names and keys, the `AnonHello` handler, and the handlers of
--                  `GroupKeyUpdate`, `EncryptedControl` and `EscrowProof`; Entrance, Epochs, Delivery.
--   Hub/Policy     session policy, room configuration, key epochs and their acknowledgements;
--                  Epochs, Settlement.
--   Hub/Moderation `process_moderation_frame`.
--   Hub/Relay      the handlers that check a frame and pass it on; Checks, Own.
--   Hub/Invariant  what holds of a room between two sections, and that each section keeps it.
--   Hub/Succession, Hub/Capacity, Hub/Reach
--                  the next host, the room's capacity, and the rooms that any order of sections
--                  reaches.
--   Client/Model, Client/Frames
--                  the session of the desktop client (crates/kaigi-linux-client/src/lib.rs), the frames
--                  of its own JSON protocol and its events.
--   Client/Policy, Client/Participants, Client/Reducer, Client/Session
--                  `policy_reject` and the policies, `reduce_frame`, `reduce`.
--   Client/Telemetry, Client/Identity, Client/Runtime, Client/Outbound
--                  `SessionRuntime`: each method takes the runtime and gives the next one, with what it
--                  returns. What the telemetry sink is given is a list in the runtime.
--   Client/Json, Client/Words, Client/Decode, Client/Encode
--                  `decode_frame` with its aliases and defaults, and the derived serialisation.
--   Client/Phases, Client/Epochs, Client/Authority, Client/Members, Client/Calls, Client/Backoff,
--   Client/Background, Client/Recovery, Client/Acks, Client/Roundtrip
--                  what is proved of the session, of the runtime under any calls, and of the codec.
--   Cli/Percent, Cli/Args, Cli/Link
--                  join links (crates/kaigi-cli/src/main.rs): percent-encoding, the texts of arguments,
--                  `render_join_link`; Nonces (`register_join_link_nonce_once`), Security
--                  (`validate_join_link_security`), Parse (`parse_join_link`), Make (`make_join_link`).
--   Cli/Numbers, Cli/Trim, Cli/Hex, Cli/Modes, Cli/Link/Query, Linkable, Fields, Roundtrip, Issued,
--   Accepted, Kept, Replay
--                  what is proved of links: printing and reading them, and reading one twice.
--   Scenarios      small rooms, sessions and links on which the theorems are applied.
--
-- Numbers. Integers are natural numbers; where the source saturates or casts, the bound is written
-- out (`sat_add_u64`, `cap_at u128_max`, `% 4294967296`). Fuel: `drain` runs on one more than the
-- bytes in the buffer, and every frame takes at least four of them; `digits` runs on the 20 digits
-- that a u64 can have. Everything else is structural. The client's i64 and i32 are signed integers
-- (Base/Ints), with `sat_add_i64` and `wrap_sub_i64` where it adds and subtracts.
--
-- Parameters. Norito serialisation (`Norito`), BLAKE3 and hexadecimal decoding (`Crypto`) are
-- third-party code, and so is serde_json between texts and values. `Host` has the hex crate, BLAKE3
-- and the text of socket addresses as the command-line client calls them, and `IsFaithful` what it
-- relies on. The clock is an argument of each section, once for each reading, of each call of the
-- client, and of each link that is read.
--
-- The order of a hash map is the order of an association list, and every theorem is about every
-- list. The test of `room_is_anonymous`, which a handler makes under a lock of its own, opens the
-- sections of Hub/Policy, Hub/Moderation, Hub/Relay, Hub/Sharing, Hub/Roles/Sections and the
-- payments.
--
-- Not modelled: the sending of frames and its backpressure, the listener and the WebSocket
-- handshake, logging, the other commands of crates/kaigi-cli, and the other crates and clients.
pub mod Base
pub mod Wire
pub mod Hub
pub mod Client
pub mod Cli
pub mod Scenarios
