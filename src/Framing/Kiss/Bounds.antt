-- ===== src/Framing/Kiss/Bounds.antt =====
-- What the unframer of packages/core/src/transport/kiss-framer.js holds, and what it does with a
-- frame that the `openRaw` hook refuses.
use reticulum_js.Common.{
  ℕ, ◌+◌, ◌≤◌, ◌≡◌, ◌≢◌, refl, ◌∙◌, arith, true, false, Option, some, List, [], ◌∷◌, ◌++◌,
  append_assoc, length, length-append,
}
use reticulum_js.Packet.{Packet}
use reticulum_js.Framing.{OpenRaw, dropped, run, run-append, run-cons}
use reticulum_js.Framing.Kiss.{
  KissState, fend, fesc, cmd_data, kiss_escape, kiss_frame, kiss_fend, kiss_byte, kiss_step,
  kiss_unframe,
}
use reticulum_js.Framing.Kiss.Frames.{data_with, step_plain, run_content}

pub record IsBounded (m : ℕ) (s : KissState) : Type 0 where
  pub size : length s.data_buffer ≤ m
  pub outside : s.in_frame ≡ false → s.data_buffer ≡ []
  pub escaping : s.in_escape ≡ true → (s.in_frame ≡ true) × (s.command ≡ cmd_data)
  pub collected : s.command ≢ cmd_data → s.data_buffer ≡ []

module _ (open_raw : Option OpenRaw) (m : ℕ) where
  fend-IsBounded : (s : KissState) → IsBounded m s → IsBounded m (kiss_fend open_raw s).0
  unfolding kiss_fend
  fend-IsBounded s h = ground (arith, h.outside, h.escaping, h.collected)

  byte-IsBounded : (s : KissState) (b : ℕ) → IsBounded m s → IsBounded m (kiss_byte m s b)
  unfolding kiss_byte
  byte-IsBounded s b h = ground (
    arith,
    length-append s.data_buffer (b ∷ []),
    length-append s.data_buffer (fend ∷ []),
    length-append s.data_buffer (fesc ∷ []),
    h.outside,
    h.escaping,
    h.collected,
  )

  step-IsBounded :
      (s : KissState) (b : ℕ) → IsBounded m s → IsBounded m (kiss_step open_raw m s b).0
  unfolding kiss_step
  step-IsBounded s b h = ground (arith, fend-IsBounded s h, byte-IsBounded s b h)

  run-IsBounded :
      (s : KissState) (bytes : List ℕ)
      → IsBounded m s
      → IsBounded m (run (kiss_step open_raw m) s bytes).0
  unfolding run
  run-IsBounded s [] h = h
  run-IsBounded s (b ∷ bytes) h =
      run-IsBounded (kiss_step open_raw m s b).0 bytes (step-IsBounded s b h)

-- Whatever a peer sends, in whatever chunks, the unframer never holds more than `m` bytes; it holds
-- bytes and a pending escape only inside a data frame.
pub kiss_unframe-IsBounded :
    (open_raw : Option OpenRaw) (m : ℕ) (s : KissState) (chunk : List ℕ)
    → IsBounded m s
    → IsBounded m (kiss_unframe open_raw m s chunk).0
unfolding kiss_unframe
kiss_unframe-IsBounded open_raw m s chunk h = run-IsBounded open_raw m s chunk h

step_refused :
    (f : OpenRaw) (m : ℕ) (bad : List ℕ)
    → f bad ≡ dropped
    → kiss_step (some f) m (data_with bad) fend ≡ (data_with bad, [])
unfolding kiss_step kiss_fend
step_refused f m bad e = ground arith

-- The unframer holds a data frame that `openRaw` drops, and the next frame arrives. Where `openRaw` also
-- drops the two together, with the command byte of the second between them, and these are no more bytes
-- than the limit, the next frame is lost, valid or not: nothing is delivered, and the buffer ends as
-- the two together.
pub refused_frame_sticks :
    (f : OpenRaw) (m : ℕ) (bad raw : List ℕ)
    → f bad ≡ dropped
    → f (bad ++ cmd_data ∷ raw) ≡ dropped
    → length bad + 1 + length raw ≤ m
    → kiss_unframe (some f) m (data_with bad) (kiss_frame raw)
      ≡ (data_with (bad ++ cmd_data ∷ raw), [])
unfolding kiss_unframe kiss_frame
refused_frame_sticks f m bad raw refused again fits =
    run-cons step (data_with bad) (data_with bad) fend (cmd_data ∷ (kiss_escape raw ++ fend ∷ []))
      [] (step_refused f m bad refused)
    ∙ run-cons step (data_with bad) (data_with (bad ++ cmd_data ∷ [])) cmd_data
        (kiss_escape raw ++ fend ∷ []) []
        (step_plain (some f) m bad cmd_data (omega arith) (omega arith) (omega arith))
    ∙ run-append step (data_with (bad ++ cmd_data ∷ [])) (kiss_escape raw) (fend ∷ [])
    ∙ rw
        (
          run_content (some f) m (bad ++ cmd_data ∷ []) raw
              (omega (arith, length-append bad (cmd_data ∷ []))),
          append_assoc bad (cmd_data ∷ []) raw,
        )
        (run-cons step (data_with (bad ++ cmd_data ∷ raw)) (data_with (bad ++ cmd_data ∷ raw)) fend
            [] [] (step_refused f m (bad ++ cmd_data ∷ raw) again)
          ∙ unfold run in refl)
  where
    step : KissState → ℕ → KissState × List Packet
    step = kiss_step (some f) m
