-- ===== src/Wire/Codec/Chunks.antt =====
-- Chunk boundaries and the loop over a decoder (`handle_conn` of
-- crates/kaigi-hub-echo/src/main.rs).
use sora_kaigi.Base.{
  ℕ, zero, suc, ◌+◌, ◌<◌, ◌≡◌, refl, sym, ap, ◌∙◌, ◌⊎◌, inl, inr, Option, none, some, List, [],
  length, take, drop, take-append_le, drop-append_le, length-append, length-drop, arith,
}
use sora_kaigi.Base.Text.{Str}
use sora_kaigi.Base.Results.{Res, ok, err}
use sora_kaigi.Wire.Frames.{KaigiFrame}
use sora_kaigi.Wire.Codec.{
  Bytes, Norito, FrameDecoder, Drained, waiting, failed, prefix_frame, prefix_frames, push,
  from_be_bytes, try_next, drain_fuel, drain,
}

module _ (norito : Norito) where
  -- A frame shortens the buffer.
  try_next_shorter :
      (d : FrameDecoder) (f : KaigiFrame)
      → (try_next norito d).0 ≡ ok (some f)
      → length (try_next norito d).1.buf < length d.buf
  unfolding try_next
  try_next_shorter d f h =
      ground (arith, length-drop 4 d.buf, length-drop (4 + from_be_bytes 0 (take 4 d.buf)) d.buf)

  -- What the decoder has found is not changed by later bytes.
  try_next-push-some :
      (d : FrameDecoder) (more : Bytes) (f : KaigiFrame)
      → (try_next norito d).0 ≡ ok (some f)
      → try_next norito (push d more) ≡ (ok (some f), push (try_next norito d).1 more)
  unfolding try_next push
  try_next-push-some d more f h = ground (
    arith,
    take-append_le 4 d.buf more,
    drop-append_le 4 d.buf more,
    drop-append_le (4 + from_be_bytes 0 (take 4 d.buf)) d.buf more,
    take-append_le (from_be_bytes 0 (take 4 d.buf)) (drop 4 d.buf) more,
    length-append d.buf more,
    length-drop 4 d.buf,
  )

  try_next-push_err :
      (d : FrameDecoder) (more : Bytes) (e : Str)
      → (try_next norito d).0 ≡ err e
      → (try_next norito (push d more)).0 ≡ err e
  unfolding try_next push
  try_next-push_err d more e h = ground (
    arith,
    take-append_le 4 d.buf more,
    drop-append_le 4 d.buf more,
    drop-append_le (4 + from_be_bytes 0 (take 4 d.buf)) d.buf more,
    take-append_le (from_be_bytes 0 (take 4 d.buf)) (drop 4 d.buf) more,
    length-append d.buf more,
    length-drop 4 d.buf,
  )

  Next-cases :
      (r : Res (Option KaigiFrame))
      → (r ≡ ok none) ⊎ ((f : KaigiFrame) × (r ≡ ok (some f))) ⊎ ((e : Str) × (r ≡ err e))
  Next-cases (ok none) = inl refl
  Next-cases (ok (some f)) = inr (inl (f, refl))
  Next-cases (err e) = inr (inr (e, refl))

  try_next-none : (d : FrameDecoder) → (try_next norito d).0 ≡ ok none → (try_next norito d).1 ≡ d
  unfolding try_next
  try_next-none d h = ground arith

  drain_fuel-none :
      (n : ℕ) (d : FrameDecoder)
      → (try_next norito d).0 ≡ ok none
      → drain_fuel norito (suc n) d ≡ ([], waiting d)
  unfolding drain_fuel
  drain_fuel-none n d h = rw (drain_fuel, h, try_next-none d h)

  drain_fuel-some :
      (n : ℕ) (d : FrameDecoder) (f : KaigiFrame)
      → (try_next norito d).0 ≡ ok (some f)
      → drain_fuel norito (suc n) d ≡ prefix_frame f (drain_fuel norito n (try_next norito d).1)
  unfolding drain_fuel
  drain_fuel-some n d f h = rw (drain_fuel, h)

  drain_fuel-err :
      (n : ℕ) (d : FrameDecoder) (e : Str)
      → (try_next norito d).0 ≡ err e
      → drain_fuel norito (suc n) d ≡ ([], failed e)
  unfolding drain_fuel
  drain_fuel-err n d e h = rw (drain_fuel, h)

  -- The fuel is enough: with more than the buffer's length, more of it changes nothing.
  drain_fuel_stable :
      (m n : ℕ) (d : FrameDecoder)
      → length d.buf < m
      → length d.buf < n
      → drain_fuel norito m d ≡ drain_fuel norito n d
  drain_fuel_stable zero n d h k = elim h [ ]
  drain_fuel_stable (suc m) zero d h k = elim k [ ]
  drain_fuel_stable (suc m) (suc n) d h k = elim (Next-cases (try_next norito d).0) [
    | inl e ↦ drain_fuel-none m d e ∙ sym (drain_fuel-none n d e)
    | inr (inl (f, e)) ↦
        let less = try_next_shorter d f e in
        drain_fuel-some m d f e
        ∙ ap (prefix_frame f)
            (drain_fuel_stable m n (try_next norito d).1 (omega arith) (omega arith))
        ∙ sym (drain_fuel-some n d f e)
    | inr (inr (x, e)) ↦ drain_fuel-err m d x e ∙ sym (drain_fuel-err n d x e)
  ]

  pub drain-none :
      (d : FrameDecoder) → (try_next norito d).0 ≡ ok none → drain norito d ≡ ([], waiting d)
  unfolding drain
  drain-none d e = drain_fuel-none (length d.buf) d e

  pub drain-some :
      (d : FrameDecoder) (f : KaigiFrame)
      → (try_next norito d).0 ≡ ok (some f)
      → drain norito d ≡ prefix_frame f (drain norito (try_next norito d).1)
  unfolding drain
  drain-some d f e =
      let less = try_next_shorter d f e in
      drain_fuel-some (length d.buf) d f e
      ∙ ap (prefix_frame f) (
          drain_fuel_stable (length d.buf) (suc (length (try_next norito d).1.buf))
            (try_next norito d).1 less (omega arith))

  drain-err :
      (d : FrameDecoder) (e : Str) → (try_next norito d).0 ≡ err e → drain norito d ≡ ([], failed e)
  unfolding drain
  drain-err d e h = drain_fuel-err (length d.buf) d e h

  -- Induction on the frames that a decoder gives.
  drain_induction {ℓ} :
      (P : FrameDecoder → Type ℓ)
      → ((d : FrameDecoder) → (try_next norito d).0 ≡ ok none → P d)
      → ((d : FrameDecoder) (f : KaigiFrame)
          → (try_next norito d).0 ≡ ok (some f)
          → P (try_next norito d).1
          → P d)
      → ((d : FrameDecoder) (e : Str) → (try_next norito d).0 ≡ err e → P d)
      → (n : ℕ) (d : FrameDecoder) → length d.buf < n
      → P d
  drain_induction P stop more fail zero d h = elim h [ ]
  drain_induction P stop more fail (suc n) d h = elim (Next-cases (try_next norito d).0) [
    | inl e ↦ stop d e
    | inr (inl (f, e)) ↦
        let less = try_next_shorter d f e in
        more d f e (drain_induction P stop more fail n (try_next norito d).1 (omega arith))
    | inr (inr (x, e)) ↦ fail d x e
  ]

  -- The loop goes on where it waited.
  unfoldable pub resume : List KaigiFrame × Drained → Bytes → List KaigiFrame × Drained
  resume (fs, waiting d) more = prefix_frames fs (drain norito (push d more))
  resume (fs, failed e) more = (fs, failed e)

  resume-prefix_frame :
      (f : KaigiFrame) (r : List KaigiFrame × Drained) (more : Bytes)
      → resume (prefix_frame f r) more ≡ prefix_frame f (resume r more)
  unfolding resume
  resume-prefix_frame f (fs, waiting d) more = refl
  resume-prefix_frame f (fs, failed e) more = refl

  Resumes : Bytes → FrameDecoder → Type 0
  Resumes more d = drain norito (push d more) ≡ resume (drain norito d) more

  -- Bytes that come later are read as if they had been there before.
  pub drain-push :
      (d : FrameDecoder) (more : Bytes) → drain norito (push d more) ≡ resume (drain norito d) more
  unfolding Resumes resume
  drain-push d more =
      drain_induction (Resumes more) (λ d e. rw (drain-none d e))
        (λ d f e ih.
          let next = try_next-push-some d more f e in
          rw (drain-some d f e) (
            drain-some (push d more) f (ap (λ r. r.0) next)
            ∙ ap (λ r. prefix_frame f (drain norito r.1)) next
            ∙ ap (prefix_frame f) ih
            ∙ sym (resume-prefix_frame f (drain norito (try_next norito d).1) more)))
        (λ d x e. rw (drain-err d x e) (drain-err (push d more) x (try_next-push_err d more x e)))
        (suc (length d.buf)) d (omega arith)

  -- Nothing more comes out of a decoder at which the loop waits.
  abbrev pub IsWaiting : Drained → Type 0
  IsWaiting (waiting d) = drain norito d ≡ ([], waiting d)
  IsWaiting (failed e) = Unit {0}

  pub drain-IsWaiting : (d : FrameDecoder) → IsWaiting (drain norito d).1
  drain-IsWaiting d =
      drain_induction (λ d. IsWaiting (drain norito d).1)
        (λ d e. rw (drain-none d e) (drain-none d e)) (λ d f e ih. rw (drain-some d f e) ih)
        (λ d x e. rw (drain-err d x e) tt) (suc (length d.buf)) d (omega arith)
