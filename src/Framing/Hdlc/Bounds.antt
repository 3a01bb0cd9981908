-- ===== src/Framing/Hdlc/Bounds.antt =====
-- What the unframer of packages/core/src/transport/hdlc-framer.js holds, and when it drops it.
use reticulum_js.Common.{
  ℕ, ◌≤◌, ◌≡◌, ◌≢◌, refl, arith, false, Option, List, [], ◌∷◌, ◌++◌, length, length-append, All,
}
use reticulum_js.Framing.{OpenRaw, run, run-append}
use reticulum_js.Framing.Hdlc.{HdlcState, flag, hdlc_step, hdlc_unframe}
use reticulum_js.Framing.Hdlc.Frames.{in_frame_with, run_content}

pub record IsBounded (m : ℕ) (s : HdlcState) : Type 0 where
  pub size : length s.data_buffer ≤ m
  pub outside : s.in_frame ≡ false → s.data_buffer ≡ []

module _ (open_raw : Option OpenRaw) (m : ℕ) where
  step-IsBounded :
      (s : HdlcState) (b : ℕ) → IsBounded m s → IsBounded m (hdlc_step open_raw m s b).0
  unfolding hdlc_step
  step-IsBounded s b h = ground (arith, length-append s.data_buffer (b ∷ []), h.outside)

  run-IsBounded :
      (s : HdlcState) (bytes : List ℕ)
      → IsBounded m s
      → IsBounded m (run (hdlc_step open_raw m) s bytes).0
  unfolding run
  run-IsBounded s [] h = h
  run-IsBounded s (b ∷ bytes) h =
      run-IsBounded (hdlc_step open_raw m s b).0 bytes (step-IsBounded s b h)

  drop_one :
      (buffer : List ℕ) (b : ℕ)
      → b ≢ flag
      → length buffer ≡ m
      → hdlc_step open_raw m (in_frame_with buffer) b
        ≡ (record { in_frame = false; data_buffer = [] }, [])
  unfolding hdlc_step
  drop_one buffer b h full = ground arith

  noise :
      (bytes : List ℕ)
      → All (λ b. b ≢ flag) bytes
      → run (hdlc_step open_raw m) (record { in_frame = false; data_buffer = [] }) bytes
        ≡ (record { in_frame = false; data_buffer = [] }, [])
  unfolding run hdlc_step
  noise [] h = refl
  noise (b ∷ bytes) h = ground (arith, noise bytes)

-- Whatever a peer sends, in whatever chunks, the unframer never holds more than `m` bytes, and none
-- outside a frame.
pub hdlc_unframe-IsBounded :
    (open_raw : Option OpenRaw) (m : ℕ) (s : HdlcState) (chunk : List ℕ)
    → IsBounded m s
    → IsBounded m (hdlc_unframe open_raw m s chunk).0
unfolding hdlc_unframe
hdlc_unframe-IsBounded open_raw m s chunk h = run-IsBounded open_raw m s chunk h

-- A frame that goes on past `m` bytes without a FLAG is dropped whole: nothing is enqueued, and the
-- unframer waits outside a frame for the next FLAG.
pub oversized_frame :
    (open_raw : Option OpenRaw) (m : ℕ) (body : List ℕ) (b : ℕ) (more : List ℕ)
    → All (λ x. x ≢ flag) body
    → b ≢ flag
    → All (λ x. x ≢ flag) more
    → length body ≡ m
    → hdlc_unframe open_raw m (in_frame_with []) (body ++ b ∷ more)
      ≡ (record { in_frame = false; data_buffer = [] }, [])
unfolding hdlc_unframe
oversized_frame open_raw m body b more hbody hb hmore full =
    rw
      (
        run-append (hdlc_step open_raw m) (in_frame_with []) body (b ∷ more),
        run_content open_raw m [] body hbody (omega arith),
      )
      (unfold run in rw (drop_one open_raw m body b hb full, noise open_raw m more hmore))
