-- ===== src/Wire/Codec/Roundtrip.antt =====
-- A framed message and the decoder (crates/kaigi-wire/src/lib.rs).
use sora_kaigi.Base.{
  ℕ, suc, ◌+◌, ◌≤◌, ◌<◌, ◌≡◌, refl, some, ◌++◌, length, take, drop, take-append_length,
  drop-append_length, length-append, arith,
}
use mathlib.Core.List.{append_assoc}
use sora_kaigi.Base.Results.{ok}
use sora_kaigi.Wire.Frames.{KaigiFrame}
use sora_kaigi.Wire.Codec.{
  Bytes, Norito, max_frame_len, be_bytes_u32, from_be_bytes, encode_framed, try_next,
}

pub length-be_bytes_u32 : (n : ℕ) → length (be_bytes_u32 n) ≡ 4
unfolding be_bytes_u32
length-be_bytes_u32 n = refl

pub from_be_bytes-be_bytes_u32 : (n : ℕ) → n < 4294967296 → from_be_bytes 0 (be_bytes_u32 n) ≡ n
unfolding be_bytes_u32 from_be_bytes
from_be_bytes-be_bytes_u32 n h = omega arith

take_header : (n : ℕ) (rest : Bytes) → take 4 (be_bytes_u32 n ++ rest) ≡ be_bytes_u32 n
unfolding take be_bytes_u32
take_header n rest = refl

drop_header : (n : ℕ) (rest : Bytes) → drop 4 (be_bytes_u32 n ++ rest) ≡ rest
unfolding drop be_bytes_u32
drop_header n rest = refl

drop_frame :
    (n : ℕ) (payload rest : Bytes)
    → n ≡ length payload
    → drop (4 + n) (be_bytes_u32 n ++ (payload ++ rest)) ≡ rest
unfolding drop be_bytes_u32
drop_frame n payload rest e =
    let four : 4 + n ≡ suc (suc (suc (suc n))) = omega arith in
    rw four (rw e (drop-append_length payload rest))

module _ (norito : Norito) (frame : KaigiFrame) (payload : Bytes) where
  encode_framed-ok :
      (bytes : Bytes)
      → norito.to_bytes frame ≡ some payload
      → encode_framed norito frame ≡ ok bytes
      → (length payload ≤ max_frame_len) × (bytes ≡ be_bytes_u32 (length payload) ++ payload)
  unfolding encode_framed
  encode_framed-ok bytes enc h = ground arith

  header_len :
      (rest : Bytes)
      → length payload ≤ max_frame_len
      → from_be_bytes 0 (take 4 (be_bytes_u32 (length payload) ++ (payload ++ rest)))
        ≡ length payload
  header_len rest fits =
      rw (take_header (length payload) (payload ++ rest))
        (from_be_bytes-be_bytes_u32 (length payload) (omega arith))

  payload_bytes :
      (rest : Bytes)
      → take (length payload) (drop 4 (be_bytes_u32 (length payload) ++ (payload ++ rest)))
        ≡ payload
  payload_bytes rest =
      rw (drop_header (length payload) (payload ++ rest)) (take-append_length payload rest)

  framed_length :
      (rest : Bytes)
      → length (be_bytes_u32 (length payload) ++ (payload ++ rest))
        ≡ 4 + (length payload + length rest)
  framed_length rest = omega (
    arith,
    length-append (be_bytes_u32 (length payload)) (payload ++ rest),
    length-append payload rest,
    length-be_bytes_u32 (length payload),
  )

  -- The decoder at the bytes of a frame and more.
  try_next-framed :
      (rest : Bytes)
      → norito.decode_from_bytes payload ≡ some frame
      → 0 < length payload
      → length payload ≤ max_frame_len
      → try_next norito (record { buf = be_bytes_u32 (length payload) ++ (payload ++ rest) })
        ≡ (ok (some frame), record { buf = rest })
  unfolding try_next
  try_next-framed rest dec pos fits =
      rw
        (
          header_len rest fits,
          payload_bytes rest,
          drop_frame (length payload) payload rest refl,
          dec,
        )
        (ground (arith, framed_length rest))

  -- An encoded frame whose payload is not empty and decodes to it is taken out of the decoder
  -- whole, whatever bytes follow, and those stay.
  pub try_next-encode_framed :
      (rest bytes : Bytes)
      → norito.to_bytes frame ≡ some payload
      → norito.decode_from_bytes payload ≡ some frame
      → 0 < length payload
      → encode_framed norito frame ≡ ok bytes
      → try_next norito (record { buf = bytes ++ rest }) ≡ (ok (some frame), record { buf = rest })
  try_next-encode_framed rest bytes enc dec pos h =
      let facts = encode_framed-ok bytes enc h in
      rw (facts.1, append_assoc (be_bytes_u32 (length payload)) payload rest)
        (try_next-framed rest dec pos facts.0)
