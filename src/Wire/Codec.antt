-- ===== src/Wire/Codec.antt =====
-- The length-prefixed codec of crates/kaigi-wire/src/lib.rs: `encode_framed` and `FrameDecoder`,
-- and the loop that takes all frames out of a decoder. The Norito serialisation of a frame is
-- third-party code: a parameter.
pub mod Roundtrip
pub mod Chunks
pub mod Stream
use sora_kaigi.Base.{
  ℕ, zero, suc, ◌+◌, ◌*◌, ◌/◌, ◌%◌, Bool, Option, none, some, List, [], ◌∷◌, ◌++◌, length, take,
  drop, ltb, nat_beq, if◌then◌else◌,
}
use sora_kaigi.Base.Text.{Str, lit, show_nat}
use sora_kaigi.Base.Results.{Res, ok, err}
use sora_kaigi.Wire.Frames.{KaigiFrame, ErrorFrame}

abbrev pub Bytes : Type 0
Bytes = List ℕ

-- `norito::to_bytes` and `norito::decode_from_bytes`.
pub record Norito : Type 0 where
  pub to_bytes : KaigiFrame → Option Bytes
  pub decode_from_bytes : Bytes → Option KaigiFrame

abbrev pub protocol_version : ℕ
protocol_version = 6

abbrev pub max_frame_len : ℕ
max_frame_len = 2097152

abbrev pub max_anon_participant_handle_len : ℕ
max_anon_participant_handle_len = 128

abbrev pub max_escrow_id_len : ℕ
max_escrow_id_len = 128

abbrev pub max_escrow_proof_hex_len : ℕ
max_escrow_proof_hex_len = 65536

-- `u32::to_be_bytes` and `u32::from_be_bytes`.
unfoldable pub be_bytes_u32 : ℕ → Bytes
be_bytes_u32 n = (n / 16777216 % 256) ∷ (n / 65536 % 256) ∷ (n / 256 % 256) ∷ (n % 256) ∷ []

unfoldable pub from_be_bytes : ℕ → Bytes → ℕ
from_be_bytes acc [] = acc
from_be_bytes acc (b ∷ bs) = from_be_bytes (acc * 256 + b) bs

pub record FrameDecoder : Type 0 where
  pub buf : Bytes

unfoldable pub new : FrameDecoder
new = record { buf = [] }

unfoldable pub push : FrameDecoder → Bytes → FrameDecoder
push d bytes = record { buf = d.buf ++ bytes }

unfoldable pub buffer_len : FrameDecoder → ℕ
buffer_len d = length d.buf

pub too_large : ℕ → Str
too_large len =
    lit "frame too large: "
    ++ (show_nat len ++ (lit " bytes (max " ++ (show_nat max_frame_len ++ lit ")")))

pub exceeds_max : ℕ → Str
exceeds_max len =
    lit "declared frame length "
    ++ (show_nat len ++ (lit " exceeds MAX_FRAME_LEN " ++ show_nat max_frame_len))

abbrev zero_length_frame : KaigiFrame
zero_length_frame = KaigiFrame.error (record { message = lit "zero-length frame" })

-- How the loop ends: it waits for more bytes, or the connection fails.
pub data Drained : Type 0 where
  waiting : FrameDecoder → Drained
  failed : Str → Drained

abbrev pub prefix_frame : KaigiFrame → List KaigiFrame × Drained → List KaigiFrame × Drained
prefix_frame f r = (f ∷ r.0, r.1)

abbrev pub prefix_frames : List KaigiFrame → List KaigiFrame × Drained → List KaigiFrame × Drained
prefix_frames [] r = r
prefix_frames (f ∷ fs) r = prefix_frame f (prefix_frames fs r)

module _ (norito : Norito) where
  encode_payload : Option Bytes → Res Bytes
  encode_payload none = err (lit "norito encode")
  encode_payload (some payload) =
      if ltb max_frame_len (length payload)
      then err (too_large (length payload))
      else ok (be_bytes_u32 (length payload) ++ payload)

  unfoldable pub encode_framed : KaigiFrame → Res Bytes
  unfolding encode_payload
  encode_framed frame = encode_payload (norito.to_bytes frame)

  decoded : Option KaigiFrame → Res (Option KaigiFrame)
  decoded none = err (lit "norito decode")
  decoded (some frame) = ok (some frame)

  -- The result, and what stays in the buffer.
  unfoldable pub try_next : FrameDecoder → Res (Option KaigiFrame) × FrameDecoder
  unfolding decoded
  try_next d =
      let len = from_be_bytes 0 (take 4 d.buf) in
      if ltb (length d.buf) 4
      then (ok none, d)
      else if nat_beq len 0
      then (ok (some zero_length_frame), record { buf = drop 4 d.buf })
      else if ltb max_frame_len len
      then (err (exceeds_max len), d)
      else if ltb (length d.buf) (4 + len)
      then (ok none, d)
      else (
        decoded (norito.decode_from_bytes (take len (drop 4 d.buf))),
        record { buf = drop (4 + len) d.buf },
      )

  -- `while let Some(frame) = decoder.try_next()? { … }`, with fuel for the frames left.
  drain_fuel : ℕ → FrameDecoder → List KaigiFrame × Drained
  drain_fuel zero d = ([], waiting d)
  drain_fuel (suc fuel) d =
      let next = (try_next d).1 in
      elim (try_next d).0 [
        | ok none ↦ ([], waiting next)
        | ok (some f) ↦ prefix_frame f (drain_fuel fuel next)
        | err e ↦ ([], failed e)
      ]

  -- A frame takes four bytes at least, so this fuel is enough.
  unfoldable pub drain : FrameDecoder → List KaigiFrame × Drained
  unfolding drain_fuel
  drain d = drain_fuel (suc (length d.buf)) d

  -- The binary messages of a connection, one after another: `decoder.push(&chunk)` and the loop
  -- above, until the bytes end or are refused.
  unfoldable pub feed : FrameDecoder → List Bytes → List KaigiFrame × Drained
  unfolding push
  feed d [] = ([], waiting d)
  feed d (chunk ∷ chunks) =
      let (frames, end) = drain (push d chunk) in
      elim end [
        | waiting d' ↦ prefix_frames frames (feed d' chunks)
        | failed e ↦ (frames, failed e)
      ]
