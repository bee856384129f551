-- ===== src/Wire/Codec/Stream.antt =====
-- What a connection reads, chunk after chunk (crates/kaigi-wire/src/lib.rs, and the receiving loop of crates/kaigi-hub-echo/src/main.rs).
use mathlib.Core.List.{append_assoc, append-nil}
use sora_kaigi.Base.{◌<◌, ◌≡◌, refl, sym, ap, ◌∙◌, some, List, [], ◌∷◌, ◌++◌, length, concat, arith}
use sora_kaigi.Base.Results.{ok}
use sora_kaigi.Wire.Frames.{KaigiFrame}
use sora_kaigi.Wire.Codec.{
  Bytes, Norito, FrameDecoder, Drained, waiting, failed, prefix_frame, prefix_frames, new, push,
  encode_framed, try_next, drain, feed,
}
use sora_kaigi.Wire.Codec.Chunks.{
  resume, drain-push, drain-none, drain-some, IsWaiting, drain-IsWaiting,
}
use sora_kaigi.Wire.Codec.Roundtrip.{try_next-encode_framed}

module _ (norito : Norito) where
  push-push : (d : FrameDecoder) (a b : Bytes) → push (push d a) b ≡ push d (a ++ b)
  unfolding push
  push-push d a b = rw (append_assoc d.buf a b)

  push-nil : (d : FrameDecoder) → push d [] ≡ d
  unfolding push
  push-nil d = rw (append-nil d.buf)

  continue : List Bytes → List KaigiFrame × Drained → List KaigiFrame × Drained
  continue chunks (fs, waiting d) = prefix_frames fs (feed norito d chunks)
  continue chunks (fs, failed e) = (fs, failed e)

  feed-cons :
      (d : FrameDecoder) (chunk : Bytes) (chunks : List Bytes)
      → feed norito d (chunk ∷ chunks) ≡ continue chunks (drain norito (push d chunk))
  unfolding feed continue
  feed-cons d chunk chunks = ground arith

  continue-resume :
      (chunks : List Bytes) (r : List KaigiFrame × Drained)
      → ((d : FrameDecoder)
          → IsWaiting norito (waiting d)
          → feed norito d chunks ≡ drain norito (push d (concat chunks)))
      → IsWaiting norito r.1
      → continue chunks r ≡ resume norito r (concat chunks)
  unfolding continue resume
  continue-resume chunks (fs, waiting d) ih w = ap (prefix_frames fs) (ih d w)
  continue-resume chunks (fs, failed e) ih w = refl

  -- The frames read from a connection, and how its loop ends, are those of all its bytes at once:
  -- the boundaries of the chunks make no difference. The decoder must hold no whole frame at the
  -- start, as a new one does.
  pub feed-concat :
      (chunks : List Bytes) (d : FrameDecoder)
      → drain norito d ≡ ([], waiting d)
      → feed norito d chunks ≡ drain norito (push d (concat chunks))
  unfolding feed
  feed-concat [] d w = rw (push-nil d) (sym w)
  feed-concat (chunk ∷ chunks) d w =
      feed-cons d chunk chunks
      ∙ continue-resume chunks (drain norito (push d chunk)) (λ d w. feed-concat chunks d w)
          (drain-IsWaiting norito (push d chunk))
      ∙ sym (drain-push norito (push d chunk) (concat chunks))
      ∙ ap (drain norito) (push-push d chunk (concat chunks))

  -- Frames with their encodings, each payload not empty and decoding to its frame.
  pub data Encoded : List KaigiFrame → Bytes → Type 0 where
    end : Encoded [] []
    frame :
        (f : KaigiFrame) (payload bytes : Bytes) {fs : List KaigiFrame} {rest : Bytes}
        → norito.to_bytes f ≡ some payload
        → norito.decode_from_bytes payload ≡ some f
        → 0 < length payload
        → encode_framed norito f ≡ ok bytes
        → Encoded fs rest
        → Encoded (f ∷ fs) (bytes ++ rest)

  new-IsWaiting : drain norito (record { buf = [] }) ≡ ([], waiting (record { buf = [] }))
  unfolding try_next
  new-IsWaiting = drain-none norito (record { buf = [] }) refl

  drain-Encoded :
      {fs : List KaigiFrame} {bytes : Bytes}
      → Encoded fs bytes
      → drain norito (record { buf = bytes }) ≡ (fs, waiting (record { buf = [] }))
  drain-Encoded end = new-IsWaiting
  drain-Encoded (frame f payload bytes {fs = fs} {rest = rest} enc dec pos framed more) =
      let next = try_next-encode_framed norito f payload rest bytes enc dec pos framed in
      drain-some norito (record { buf = bytes ++ rest }) f (ap (λ r. r.0) next)
      ∙ ap (λ r. prefix_frame f (drain norito r.1)) next
      ∙ ap (prefix_frame f) (drain-Encoded more)

  -- However the bytes of encoded frames are cut into chunks, a new decoder reads these frames, in
  -- order, and keeps no byte.
  pub feed-Encoded :
      (fs : List KaigiFrame) (chunks : List Bytes)
      → Encoded fs (concat chunks)
      → feed norito new chunks ≡ (fs, waiting new)
  unfolding new push
  feed-Encoded fs chunks e = feed-concat chunks new new-IsWaiting ∙ drain-Encoded e
