-- ===== src/Framing/Hdlc/Frames.antt =====
-- The HDLC streams of packages/core/src/transport/hdlc-framer.js: framing, then unframing.
use reticulum_js.Common.{
  ℕ, ◌+◌, ◌≤◌, ◌<◌, ◌≡◌, ◌≢◌, refl, ap, ◌∙◌, arith, true, ◌&&◌, Option, none, some, List, [], ◌∷◌,
  ◌++◌, append-nil, append_assoc, map, ltb, if◌then◌else◌, length, length-append, All,
}
use reticulum_js.Packet.{Packet, IsWellFormed}
use reticulum_js.Framing.{
  SealRaw, OpenRaw, Opens, sealed_bytes, deliver, received, run, run-append, deliver-sealed_bytes,
}
use reticulum_js.Framing.Hdlc.{
  HdlcState, flag, hdlc_escape, hdlc_frame, hdlc_frame_packet, close_frame, hdlc_step, hdlc_unframe,
}
use reticulum_js.Framing.Hdlc.Escape.{hdlc_unescape-escape, escape_no_flag, length-escape}

abbrev pub in_frame_with : List ℕ → HdlcState
in_frame_with buffer = record { in_frame = true; data_buffer = buffer }

-- What the next FLAG enqueues in the state `s`.
unfoldable pub pending : Option OpenRaw → HdlcState → List Packet
pending open_raw s =
    if s.in_frame && ltb 0 (length s.data_buffer) then close_frame open_raw s.data_buffer else []

module _ (open_raw : Option OpenRaw) (m : ℕ) where
  step_flag : (s : HdlcState) → hdlc_step open_raw m s flag ≡ (in_frame_with [], pending open_raw s)
  unfolding hdlc_step pending
  step_flag s = refl

  step_content :
      (buffer : List ℕ) (b : ℕ)
      → b ≢ flag
      → length buffer < m
      → hdlc_step open_raw m (in_frame_with buffer) b ≡ (in_frame_with (buffer ++ b ∷ []), [])
  unfolding hdlc_step
  step_content buffer b h room = ground arith

  pub run_content :
      (buffer bytes : List ℕ)
      → All (λ b. b ≢ flag) bytes
      → length buffer + length bytes ≤ m
      → run (hdlc_step open_raw m) (in_frame_with buffer) bytes
        ≡ (in_frame_with (buffer ++ bytes), [])
  unfolding run
  run_content buffer [] h room = rw append-nil
  run_content buffer (b ∷ bytes) h room = rw (step_content buffer b h.0 (omega arith)) (
      run_content (buffer ++ b ∷ []) bytes h.1 (omega (arith, length-append buffer (b ∷ [])))
      ∙ rw (append_assoc buffer (b ∷ []) bytes))

  run_body :
      (raw : List ℕ)
      → 0 < length raw
      → length (hdlc_escape raw) ≤ m
      → run (hdlc_step open_raw m) (in_frame_with []) (hdlc_escape raw ++ flag ∷ [])
        ≡ (in_frame_with [], deliver open_raw raw)
  run_body raw some_byte fits =
      run-append (hdlc_step open_raw m) (in_frame_with []) (hdlc_escape raw) (flag ∷ [])
      ∙ rw (run_content [] (hdlc_escape raw) (escape_no_flag raw) (omega arith)) (
          unfold run in
          rw (step_flag (in_frame_with (hdlc_escape raw)), append-nil)
            (ap (λ out. (in_frame_with [], out)) closing))
    where
      closing : pending open_raw (in_frame_with (hdlc_escape raw)) ≡ deliver open_raw raw
      closing =
          unfold pending close_frame in ground (arith, length-escape raw, hdlc_unescape-escape raw)

  -- From whatever state, a frame that fits is delivered behind what its first FLAG closes.
  pub hdlc_unframe_frame :
      (s : HdlcState) (raw : List ℕ)
      → 0 < length raw
      → length (hdlc_escape raw) ≤ m
      → hdlc_unframe open_raw m s (hdlc_frame raw)
        ≡ (in_frame_with [], pending open_raw s ++ deliver open_raw raw)
  unfolding hdlc_frame hdlc_unframe
  hdlc_unframe_frame s raw some_byte fits =
      unfold run in rw (step_flag s, run_body raw some_byte fits)

-- What both sides need for a packet to go through: its frame is built, and fits.
pub record Sendable (seal : Option SealRaw) (m : ℕ) (p : Packet) : Type 0 where
  pub bytes : List ℕ
  pub sealed : sealed_bytes seal p ≡ some bytes
  pub some_byte : 0 < length bytes
  pub fits : length (hdlc_escape bytes) ≤ m

-- The frames of a list of packets, one after the other; `none` where one cannot be built.
pub frame_all : Option SealRaw → List Packet → Option (List ℕ)
frame_all seal [] = some []
frame_all seal (p ∷ ps) = elim (hdlc_frame_packet seal p) [
  | none ↦ none
  | some frame ↦ elim (frame_all seal ps) [ none ↦ none | some rest ↦ some (frame ++ rest) ]
]

frame_all-cons :
    (seal : Option SealRaw) (p : Packet) (ps : List Packet) (first rest : List ℕ)
    → hdlc_frame_packet seal p ≡ some first
    → frame_all seal ps ≡ some rest
    → frame_all seal (p ∷ ps) ≡ some (first ++ rest)
unfolding frame_all
frame_all-cons seal p ps first rest e e' = ground arith

-- What two parts of the stream enqueue is enqueued for the whole.
unframe_parts :
    (open_raw : Option OpenRaw) (m : ℕ) (t u : HdlcState) (first rest : List ℕ)
    (out more : List Packet)
    → hdlc_unframe open_raw m t first ≡ (u, out)
    → (hdlc_unframe open_raw m u rest).1 ≡ more
    → (hdlc_unframe open_raw m t (first ++ rest)).1 ≡ out ++ more
unfolding hdlc_unframe
unframe_parts open_raw m t u first rest out more e e' =
    rw (run-append (hdlc_step open_raw m) t first rest, e, e')

module _ (seal : Option SealRaw) (open_raw : Option OpenRaw) (m : ℕ)
    (inverse : Opens seal open_raw) where
  packet_frame :
      (p : Packet)
      → IsWellFormed p
      → (s : Sendable seal m p) → (t : HdlcState)
      → (hdlc_frame_packet seal p ≡ some (hdlc_frame s.bytes))
        × (hdlc_unframe open_raw m t (hdlc_frame s.bytes)
            ≡ (in_frame_with [], pending open_raw t ++ received p ∷ []))
  packet_frame p w s t = (
    unfold hdlc_frame_packet in ground (arith, s.sealed),
    hdlc_unframe_frame open_raw m t s.bytes s.some_byte s.fits
        ∙ rw (deliver-sealed_bytes seal open_raw p s.bytes inverse w s.sealed),
  )

  packets_frames :
      (ps : List Packet) (t : HdlcState)
      → pending open_raw t ≡ []
      → All IsWellFormed ps
      → All (Sendable seal m) ps
      → (stream : List ℕ) × (frame_all seal ps ≡ some stream)
        × ((hdlc_unframe open_raw m t stream).1 ≡ map received ps)
  packets_frames [] t quiet w s = ([], unfold frame_all in refl, unfold hdlc_unframe run in refl)
  packets_frames (p ∷ ps) t quiet w s =
      let (framed, back) = packet_frame p w.0 s.0 t in
      let (rest, framed', back') =
        packets_frames ps (in_frame_with []) (unfold pending in refl) w.1 s.1 in
      let first : List ℕ = hdlc_frame s.0.bytes in
      (
        first ++ rest,
        frame_all-cons seal p ps first rest framed framed',
        unframe_parts open_raw m t (in_frame_with []) first rest (received p ∷ []) (map received ps)
            (back ∙ rw quiet) back',
      )

-- Let the framers have no hooks, or `openRaw` undo `sealRaw` on the bytes of well-formed packets.
-- Well-formed packets that `sealRaw`, if there is one, seals without throwing, to at least one byte and
-- with no more bytes than the limit once escaped, are framed, and the unframer delivers them all, in
-- order and each once, from its start and from every state in which a FLAG would enqueue nothing.
pub hdlc_unframe-frame_all :
    (seal : Option SealRaw) (open_raw : Option OpenRaw) (m : ℕ) (ps : List Packet) (t : HdlcState)
    → Opens seal open_raw
    → pending open_raw t ≡ []
    → All IsWellFormed ps
    → All (Sendable seal m) ps
    → (stream : List ℕ) × (frame_all seal ps ≡ some stream)
      × ((hdlc_unframe open_raw m t stream).1 ≡ map received ps)
hdlc_unframe-frame_all seal open_raw m ps t inverse quiet w s =
    packets_frames seal open_raw m inverse ps t quiet w s
